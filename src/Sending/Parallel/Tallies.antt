-- ===== src/Sending/Parallel/Tallies.antt =====
-- The first loop of `try_send_parallel_requests`, one response after another.
use web3_proxy.Prelude.{
  ℕ, ◌≡◌, ◌≢◌, refl, ap, sym, ◌∙◌, ◌⊎◌, inl, inr, arith, Bool, true, false, ◌||◌, none, some, List,
  ◌∷◌, ◌==◌, Bool-cases, Option-cases, ==_refl, contains,
}
use web3_proxy.Prelude.Results.{ok, err}
use web3_proxy.Sending.Parallel.{
  Response, Tally, get, is_ok, insert_missing, tally_response, is_passed_over,
}
use web3_proxy.Sending.Parallel.Choices.{
  fails, TellsApart, Map, ==-to_eq, some_injective, contains_head, contains_tail, contains_rest,
}

-- A response that is kept under its own text.
abbrev pub Kept : (Response → ℕ) → Tally → Response → Type 0
Kept debug t r = get t.count_map (debug r) ≡ some r

-- What the first loop keeps up.
pub record IsSound (debug : Response → ℕ) (t : Tally) : Type 0 where
  pub known :
      (k : ℕ)
      → contains t.counts k ≡ true
      → (r : Response) × (get t.count_map k ≡ some r) × (debug r ≡ k)
  pub kept : (k : ℕ) (r : Response) → get t.count_map k ≡ some r → debug r ≡ k
  pub counted : (k : ℕ) (r : Response) → get t.count_map k ≡ some r → contains t.counts k ≡ true
  pub result :
      t.any_ok_with_json_result ≡ true → (r : Response) × Kept debug t r × (fails r ≡ false)
  pub answer :
      t.any_ok_but_maybe_json_error ≡ true → (r : Response) × Kept debug t r × (is_ok r ≡ true)
  pub noticed :
      (r : Response) → Kept debug t r → is_ok r ≡ true → t.any_ok_but_maybe_json_error ≡ true

-- A response without an error is never passed over, an answer only for a result, and an error only
-- for an answer.
not_passed : (t : Tally) (s : Response) → fails s ≡ false → is_passed_over t s ≡ false
unfolding is_passed_over
not_passed t (ok x) f = ground (arith, f)
not_passed t (err e) f = absurd (ground (arith, f))

not_passed-ok :
    (t : Tally) (s : Response)
    → is_ok s ≡ true
    → t.any_ok_with_json_result ≡ false
    → is_passed_over t s ≡ false
unfolding is_passed_over
not_passed-ok t (ok x) o j = ground (arith, j)
not_passed-ok t (err e) o j = absurd (ground (arith, o))

not_passed-any :
    (t : Tally) (s : Response)
    → t.any_ok_with_json_result ≡ false
    → t.any_ok_but_maybe_json_error ≡ false
    → is_passed_over t s ≡ false
unfolding is_passed_over
not_passed-any t (ok x) j e = ground (arith, j)
not_passed-any t (err x) j e = e

-- Some response that is kept is not passed over, once there is one.
pub sound-best :
    (debug : Response → ℕ) (t : Tally) (r : Response)
    → IsSound debug t
    → Kept debug t r
    → (s : Response) × Kept debug t s × (is_passed_over t s ≡ false)
sound-best debug t r sound k = elim (Bool-cases t.any_ok_with_json_result) [
  | inl j ↦ let (s, ks, f) = sound.result j in (s, ks, not_passed t s f)
  | inr j ↦ elim (Bool-cases t.any_ok_but_maybe_json_error) [
    | inl e ↦ let (s, ks, o) = sound.answer e in (s, ks, not_passed-ok t s o j)
    | inr e ↦ (r, k, not_passed-any t r j e)
  ]
]

module _ (debug : Response → ℕ) (most_common_ordered : List ℕ → List ℕ)
    (tells : TellsApart debug) where
  abbrev with_new : Bool → Response → Tally → Tally
  with_new flag r t = record {
    count_map = (debug r, r) ∷ t.count_map;
    counts = debug r ∷ t.counts;
    any_ok_with_json_result = t.any_ok_with_json_result || flag;
    any_ok_but_maybe_json_error = t.any_ok_but_maybe_json_error || is_ok r;
  }

  abbrev with_old : Bool → Response → Tally → Tally
  with_old flag r t = record {
    count_map = t.count_map;
    counts = debug r ∷ t.counts;
    any_ok_with_json_result = t.any_ok_with_json_result || flag;
    any_ok_but_maybe_json_error = t.any_ok_but_maybe_json_error;
  }

  or_cases : (a b : Bool) → (a || b) ≡ true → (a ≡ true) ⊎ (b ≡ true)
  or_cases true b h = inl refl
  or_cases false b h = inr h

  with_old-IsSound :
      (flag : Bool) (r s : Response) (t : Tally)
      → (flag ≡ true → fails r ≡ false)
      → get t.count_map (debug r) ≡ some s
      → IsSound debug t
      → IsSound debug (with_old flag r t)
  with_old-IsSound flag r s t good there sound =
      let same : debug s ≡ debug r = sound.kept (debug r) s there in
      record {
        known = λ k c. elim (Bool-cases (debug r == k)) [
          | inl e ↦
              let here : debug r ≡ k = ==-to_eq (debug r) k e in
              (s, ap (get t.count_map) (sym here) ∙ there, same ∙ here)
          | inr e ↦ sound.known k (contains_rest (debug r) k t.counts c e)
        ];
        kept = sound.kept;
        counted = λ k x h. contains_tail (debug r) k t.counts (sound.counted k x h);
        result = λ j. elim (or_cases t.any_ok_with_json_result flag j) [
          | inl j' ↦ sound.result j'
          | inr f ↦ (s, ap (get t.count_map) same ∙ there, tells.same_fails s r same ∙ good f)
        ];
        answer = sound.answer;
        noticed = sound.noticed;
      }

  get_head : (k : ℕ) (r : Response) (m : Map) → get ((k, r) ∷ m) k ≡ some r
  unfolding get
  get_head k r m = rw (get, ==_refl k) refl

  get_cases :
      (j k : ℕ) (r x : Response) (m : Map)
      → get ((j, r) ∷ m) k ≡ some x
      → ((j ≡ k) × (r ≡ x)) ⊎ (get m k ≡ some x)
  unfolding get
  get_cases j k r x m h = elim (Bool-cases (j == k)) [
    | inl e ↦ inl (==-to_eq j k e, some_injective r x (ground (arith, h, e)))
    | inr e ↦ inr (ground (arith, h, e))
  ]

  -- What was kept stays, next to a new key.
  get_later :
      (j k : ℕ) (r x : Response) (m : Map)
      → get m j ≡ none
      → get m k ≡ some x
      → get ((j, r) ∷ m) k ≡ some x
  unfolding get
  get_later j k r x m gone h = elim (Bool-cases (j == k)) [
    | inr e ↦ rw (get, e) h
    | inl e ↦ absurd (none_some x (sym gone ∙ ap (get m) (==-to_eq j k e) ∙ h))
  ]
    where
      none_some : (x : Response) → none ≢ some x
      none_some x h = ground (arith, h)

  with_new-IsSound :
      (flag : Bool) (r : Response) (t : Tally)
      → (flag ≡ true → fails r ≡ false)
      → get t.count_map (debug r) ≡ none
      → IsSound debug t
      → IsSound debug (with_new flag r t)
  with_new-IsSound flag r t good gone sound =
      let later : (k : ℕ) (x : Response)
          → get t.count_map k ≡ some x
          → get ((debug r, r) ∷ t.count_map) k ≡ some x =
        λ k x. get_later (debug r) k r x t.count_map gone in
      record {
        known = λ k c. elim (Bool-cases (debug r == k)) [
          | inl e ↦
              let here : debug r ≡ k = ==-to_eq (debug r) k e in
              (r, rw⁻¹ here (get_head (debug r) r t.count_map), here)
          | inr e ↦
              let (x, q, d) = sound.known k (contains_rest (debug r) k t.counts c e) in
              (x, later k x q, d)
        ];
        kept = λ k x h. elim (get_cases (debug r) k r x t.count_map h) [
          | inl (here, same) ↦ ap debug (sym same) ∙ here
          | inr h' ↦ sound.kept k x h'
        ];
        counted = λ k x h. elim (get_cases (debug r) k r x t.count_map h) [
          | inl (here, same) ↦ rw⁻¹ here (contains_head (debug r) t.counts)
          | inr h' ↦ contains_tail (debug r) k t.counts (sound.counted k x h')
        ];
        result = λ j. elim (or_cases t.any_ok_with_json_result flag j) [
          | inl j' ↦ let (x, q, f) = sound.result j' in (x, later (debug x) x q, f)
          | inr f ↦ (r, get_head (debug r) r t.count_map, good f)
        ];
        answer = λ e. elim (or_cases t.any_ok_but_maybe_json_error (is_ok r) e) [
          | inl e' ↦ let (x, q, o) = sound.answer e' in (x, later (debug x) x q, o)
          | inr o ↦ (r, get_head (debug r) r t.count_map, o)
        ];
        noticed = λ x h o. elim (get_cases (debug r) (debug x) r x t.count_map h) [
          | inl (here, same) ↦ or_right t.any_ok_but_maybe_json_error (is_ok r) (ap is_ok same ∙ o)
          | inr h' ↦ or_left t.any_ok_but_maybe_json_error (is_ok r) (sound.noticed x h' o)
        ];
      }
    where
      or_left : (a b : Bool) → a ≡ true → (a || b) ≡ true
      or_left a b h = ground (arith, h)

      or_right : (a b : Bool) → b ≡ true → (a || b) ≡ true
      or_right true b h = refl
      or_right false b h = h

  pub tally_response-IsSound :
      (flag : Bool) (r : Response) (t : Tally)
      → (flag ≡ true → fails r ≡ false)
      → IsSound debug t
      → IsSound debug (tally_response debug most_common_ordered flag r t)
  unfolding tally_response insert_missing
  tally_response-IsSound flag r t good sound = elim (Option-cases (get t.count_map (debug r))) [
    | inl gone ↦
        let same : tally_response debug most_common_ordered flag r t ≡ with_new flag r t =
          ground (arith, gone) in
        rw same (with_new-IsSound flag r t good gone sound)
    | inr (s, there) ↦
        let same : tally_response debug most_common_ordered flag r t ≡ with_old flag r t =
          ground (arith, there) in
        rw same (with_old-IsSound flag r s t good there sound)
  ]

  pub counts-tally_response :
      (flag : Bool) (r : Response) (t : Tally)
      → (tally_response debug most_common_ordered flag r t).counts ≡ debug r ∷ t.counts
  unfolding tally_response insert_missing
  counts-tally_response flag r t = elim (Option-cases (get t.count_map (debug r))) [
    | inl gone ↦ ground (arith, gone)
    | inr (s, there) ↦ ground (arith, there)
  ]

  pub flag-tally_response :
      (flag : Bool) (r : Response) (t : Tally)
      → (tally_response debug most_common_ordered flag r t).any_ok_with_json_result
        ≡ t.any_ok_with_json_result || flag
  unfolding tally_response insert_missing
  flag-tally_response flag r t = elim (Option-cases (get t.count_map (debug r))) [
    | inl gone ↦ ground (arith, gone)
    | inr (s, there) ↦ ground (arith, there)
  ]
