-- ===== src/Stats/Keys.antt =====
-- Under which keys responses are added up.
use text.Mathlib.Text.{◌==◌ as str_eq}
use text.Mathlib.TextEquality.{eq_iff}
use web3_proxy.Prelude.{
  ℕ, ◌≡◌, refl, ◌↔◌, ◌≢◌, Bool, true, ◌&&◌, Option, none, some, arith, ◌==◌, ==_iff, bool_eq,
  option_eq, bool_eq_iff, option_eq_iff,
}
use web3_proxy.Entities.{LogLevel}
use web3_proxy.Stats.{ProxyResponseStat, ProxyResponseAggregateKey, who, logged, key, key_eq}

-- Two keys are equal when they agree in all that is compared.
key_path :
    {a b : ProxyResponseAggregateKey}
    → a.archive_request ≡ b.archive_request
    → a.error_response ≡ b.error_response
    → a.rpc_key_id ≡ b.rpc_key_id
    → a.method ≡ b.method
    → a.origin ≡ b.origin
    → a ≡ b
key_path e1 e2 e3 e4 e5 = λ i. record {
  archive_request = e1 i;
  error_response = e2 i;
  rpc_key_id = e3 i;
  method = e4 i;
  origin = e5 i;
}

key_eq_to_path : (a b : ProxyResponseAggregateKey) → key_eq a b ≡ true → a ≡ b
unfolding key_eq
key_eq_to_path a b h =
    let (archive, error, id, method, origin) = parts in
    key_path ((bool_eq_iff _ _).0 archive) ((bool_eq_iff _ _).0 error)
      ((option_eq_iff _ ==_iff _ _).0 id) ((option_eq_iff _ eq_iff _ _).0 method)
      ((option_eq_iff _ ==_iff _ _).0 origin)
  where
    all_five :
        {c d e f g : Bool}
        → (c && d && e && f && g) ≡ true
        → (c ≡ true) × (d ≡ true) × (e ≡ true) × (f ≡ true) × (g ≡ true)
    all_five h = ground (arith, h)

    parts :
        (bool_eq a.archive_request b.archive_request ≡ true)
        × (bool_eq a.error_response b.error_response ≡ true)
        × (option_eq (λ x y. x == y) a.rpc_key_id b.rpc_key_id ≡ true)
        × (option_eq (λ x y. str_eq x y) a.method b.method ≡ true)
        × (option_eq (λ x y. x == y) a.origin b.origin ≡ true)
    parts = all_five h

key_eq_refl : (a : ProxyResponseAggregateKey) → key_eq a a ≡ true
unfolding key_eq
key_eq_refl a =
    rw
      (
        (bool_eq_iff a.archive_request a.archive_request).1 refl,
        (bool_eq_iff a.error_response a.error_response).1 refl,
        (option_eq_iff (λ x y. x == y) ==_iff a.rpc_key_id a.rpc_key_id).1 refl,
        (option_eq_iff (λ x y. str_eq x y) eq_iff a.method a.method).1 refl,
        (option_eq_iff (λ x y. x == y) ==_iff a.origin a.origin).1 refl,
      )
      refl

pub key_eq_iff : (a b : ProxyResponseAggregateKey) → (key_eq a b ≡ true) ↔ (a ≡ b)
key_eq_iff a b = (key_eq_to_path a b, λ e. rw e (key_eq_refl b))

-- What two statistics have in common that are told apart by their users alone.
pub record SameRequest (s t : ProxyResponseStat) : Type 0 where
  pub archive_request : s.archive_request ≡ t.archive_request
  pub error_response : s.error_response ≡ t.error_response
  pub method : s.method ≡ t.method

-- A user with a key whose log level is none.
pub record IsAnonymous (s : ProxyResponseStat) : Type 0 where
  pub key_id : s.authorization.checks.rpc_secret_key_id ≢ none
  pub level : s.authorization.checks.log_level ≡ LogLevel.none

-- Two users with keys who log nothing are not told apart: equal requests of theirs are added up under
-- one key, wherever they come from.
pub key-IsAnonymous :
    (s t : ProxyResponseStat) → IsAnonymous s → IsAnonymous t → SameRequest s t → key s ≡ key t
unfolding key who logged
key-IsAnonymous s t a b same =
    let (i, ei) = has_id _ a.key_id in
    let (j, ej) = has_id _ b.key_id in
    rw (ei, ej, a.level, b.level, same.archive_request, same.error_response, same.method) refl
  where
    has_id : (o : Option ℕ) → o ≢ none → (i : ℕ) × (o ≡ some i)
    has_id none h = absurd (h refl)
    has_id (some i) h = (i, refl)
