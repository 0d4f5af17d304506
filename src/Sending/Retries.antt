-- ===== src/Sending/Retries.antt =====
-- After which responses another server is asked.
use Prim.Native.String.{String}
use text.Mathlib.Text.{◌==◌ as str_eq, starts_with}
use web3_proxy.Prelude.{
  ◌≡◌, ◌≢◌, refl, sym, ◌∙◌, ◌⊎◌, inl, inr, true, false, some, none, Option, List, [], ◌∷◌, arith,
  ◌==◌, ◌&&◌, Bool, Bool-cases,
}
use web3_proxy.Prelude.Outcomes.{done}
use web3_proxy.JsonRpc.{JsonRpcForwardedResponse, JsonRpcErrorData, Code, minus, plus}
use web3_proxy.Sending.{
  Trying, verdict, try_another, return_it, after_prefixes, retry_prefixes, ends_with,
  is_not_available, Sent, running, returned, judge, judge_error, note_error,
}

-- The response says that the server does not know the method.
pub record IsUnknownMethod (r : JsonRpcForwardedResponse) : Type 0 where
  pub error : JsonRpcErrorData
  pub at : r.error ≡ some error
  pub code : error.code ≡ minus 32601
  pub message :
      ((starts_with error.message "the method" ≡ true)
        × (ends_with error.message "is not available" ≡ true))
      ⊎ (str_eq error.message "Method not found" ≡ true)

after_prefixes-return_it :
    (msg : String) (prefixes : List String) → after_prefixes msg prefixes ≡ return_it
unfolding after_prefixes
after_prefixes-return_it msg [] = refl
after_prefixes-return_it msg (p ∷ ps) = elim (Bool-cases (starts_with msg p)) [
  | inl e ↦ rw (after_prefixes, e) (after_prefixes-return_it msg ps)
  | inr e ↦ rw (after_prefixes, e) (after_prefixes-return_it msg ps)
]

-- Either another server is asked, for a response that says that the method is not known, or the response is
-- returned, for any other.
abbrev pub IsJudged : Trying → JsonRpcForwardedResponse → Trying × Sent → Type 0
IsJudged t r (t', sent) =
    (IsUnknownMethod r × (sent ≡ running) × (t'.method_not_available_response ≡ some r))
    ⊎ ((IsUnknownMethod r → ⊥)
        × (sent ≡ returned r)
        × (t'.method_not_available_response ≡ t.method_not_available_response))

abbrev SaysUnknown : String → Type 0
SaysUnknown msg =
    ((starts_with msg "the method" ≡ true) × (ends_with msg "is not available" ≡ true))
    ⊎ (str_eq msg "Method not found" ≡ true)

is_not_available-SaysUnknown : (msg : String) → is_not_available msg ≡ true → SaysUnknown msg
unfolding is_not_available
is_not_available-SaysUnknown msg h = elim (Bool-cases (str_eq msg "Method not found")) [
  | inl e ↦ inr e
  | inr e ↦ elim (Bool-cases (starts_with msg "the method")) [
    | inl s ↦ elim (Bool-cases (ends_with msg "is not available")) [
      | inl t ↦ inl (s, t)
      | inr t ↦ absurd (ground (arith, h, e, s, t))
    ]
    | inr s ↦ absurd (ground (arith, h, e, s))
  ]
]

SaysUnknown-is_not_available : (msg : String) → SaysUnknown msg → is_not_available msg ≡ true
unfolding is_not_available
SaysUnknown-is_not_available msg (inl (s, t)) = ground (arith, s, t)
SaysUnknown-is_not_available msg (inr e) =
    elim (Bool-cases (starts_with msg "the method" && ends_with msg "is not available")) [
      | inl s ↦ rw s refl
      | inr s ↦ rw s e
    ]

-- The two ways that the match on the code goes.
verdict_cases :
    (e : JsonRpcErrorData) (c : Code)
    → e.code ≡ c
    → ((c ≡ minus 32601) × (is_not_available e.message ≡ true) × (verdict e ≡ try_another))
      ⊎ ((verdict e ≡ return_it) × (c ≡ minus 32601 → is_not_available e.message ≡ false))
unfolding verdict
verdict_cases e (plus n) q = inr (ground (arith, q), λ h. absurd (ground (arith, h)))
verdict_cases e (minus n) q = elim (Bool-cases (n == 32000)) [
  | inl z ↦ inr (
    ground (arith, q, z, after_prefixes-return_it e.message retry_prefixes),
    λ h. absurd (ground (arith, h, z)),
  )
  | inr z ↦ elim (Bool-cases (n == 32601)) [
    | inr y ↦ inr (ground (arith, q, z, y), λ h. absurd (ground (arith, h, y)))
    | inl y ↦ elim (Bool-cases (is_not_available e.message)) [
      | inl m ↦ inl (ground (arith, y), m, ground (arith, q, z, y, m))
      | inr m ↦ inr (ground (arith, q, z, y, m), λ h. m)
    ]
  ]
]

not_both : {b : Bool} → b ≡ true → b ≢ false
not_both p q = absurd (cc)

-- A response that says that the server does not know the method, by the code -32601 and one of two
-- messages, is kept, and another server is asked. Every other response is returned, and nothing is
-- kept: also a rate limit, and a missing header or trie node under the code -32000.
pub judge-IsJudged : (t : Trying) (r : JsonRpcForwardedResponse) → IsJudged t r (judge t (done r))
unfolding judge note_error
judge-IsJudged t r = by_error r.error refl
  where
    no_error : (e : JsonRpcErrorData) → none ≢ some e
    no_error e h = absurd (ground (arith, h))

    not_unknown :
        (e : JsonRpcErrorData)
        → r.error ≡ some e
        → (e.code ≡ minus 32601 → is_not_available e.message ≡ false)
        → IsUnknownMethod r
        → ⊥
    not_unknown e at other u =
        let same : u.error ≡ e = ground (arith, at, u.at) in
        not_both (SaysUnknown-is_not_available e.message (rw⁻¹ same u.message))
          (other (rw⁻¹ same u.code))

    by_error : (o : Option JsonRpcErrorData) → r.error ≡ o → IsJudged t r (judge_error t r o)
    by_error none gone = inr (λ u. no_error u.error (sym gone ∙ u.at), refl, refl)
    by_error (some e) at = elim (verdict_cases e e.code refl) [
      | inl (code, message, v) ↦
          rw (judge_error, v)
            (inl (
              record {
                error = e;
                at = at;
                code = code;
                message = is_not_available-SaysUnknown e.message message;
              },
              refl,
              refl,
            ))
      | inr (v, other) ↦ rw (judge_error, v) (inr (not_unknown e at other, refl, refl))
    ]
