-- ===== src/Authorization/Checks.antt =====
-- Which callers `Authorization::try_new` accepts.
use mathlib.Core.List.{Memᴰ}
use web3_proxy.Prelude.{
  ℕ, ◌≡◌, ◌↔◌, inl, inr, refl, Bool, true, Option, none, some, List, [], ◌∷◌, arith, any, contains,
  Bool-cases, ◌==◌,
}
use web3_proxy.Prelude.Results.{ok, >>=-eq-ok}
use web3_proxy.Authorization.{
  AuthorizationChecks, AuthorizationType, Caller, Authorization, AuthorizationError, check_header,
  check_ip, try_new,
}

-- What is allowed of a header, as a list, allows it: it is there and in the list.
pub data Allows : Option (List ℕ) → Option ℕ → Type 0 where
  everything :
      {allowed : Option (List ℕ)} {header : Option ℕ} → allowed ≡ none → Allows allowed header
  listed :
      {allowed : Option (List ℕ)} {header : Option ℕ} (xs : List ℕ) (x : ℕ)
      → allowed ≡ some xs
      → header ≡ some x
      → Memᴰ x xs
      → Allows allowed header

contains-Mem : (xs : List ℕ) (x : ℕ) → contains xs x ≡ true → Memᴰ x xs
unfolding contains
contains-Mem [] x h = cc
contains-Mem (y ∷ ys) x h = elim (Bool-cases (y == x)) [
  | inl e ↦ Memᴰ.head (ground arith)
  | inr e ↦ Memᴰ.tail (contains-Mem ys x (ground arith))
]

Mem-contains : (xs : List ℕ) (x : ℕ) → Memᴰ x xs → contains xs x ≡ true
unfolding contains
Mem-contains [] x i = elim i [ ]
Mem-contains (y ∷ ys) x (Memᴰ.head e) = ground arith
Mem-contains (y ∷ ys) x (Memᴰ.tail i) = ground (arith, Mem-contains ys x i)

check_header-Allows :
    (r n : AuthorizationError) (header : Option ℕ) (allowed : Option (List ℕ)) (u : Unit {0})
    → check_header r n header allowed ≡ ok u
    → Allows allowed header
unfolding check_header
check_header-Allows r n header none u h = everything refl
check_header-Allows r n none (some xs) u h = cc
check_header-Allows r n (some x) (some xs) u h =
    listed xs x refl refl (contains-Mem xs x (ground arith))

Allows-check_header :
    (r n : AuthorizationError) (header : Option ℕ) (allowed : Option (List ℕ))
    → Allows allowed header
    → check_header r n header allowed ≡ ok tt
unfolding check_header
Allows-check_header r n header none a = refl
Allows-check_header r n none (some xs) (everything e) = ground arith
Allows-check_header r n none (some xs) (listed ys x e q i) = ground arith
Allows-check_header r n (some y) (some xs) (everything e) = ground arith
Allows-check_header r n (some y) (some xs) (listed ys x e q i) =
    let same : xs ≡ ys = ground arith in
    let at : y ≡ x = ground arith in let found = Mem-contains xs y (rw (same, at) i) in ground arith

module _ (contains_ip : ℕ → ℕ → Bool) where
  -- The address is in a network of the list, if there is one.
  pub data AllowsIp : Option (List ℕ) → ℕ → Type 0 where
    any_ip : {allowed : Option (List ℕ)} {ip : ℕ} → allowed ≡ none → AllowsIp allowed ip
    in_net :
        {allowed : Option (List ℕ)} {ip : ℕ} (nets : List ℕ) (net : ℕ)
        → allowed ≡ some nets
        → Memᴰ net nets
        → contains_ip net ip ≡ true
        → AllowsIp allowed ip

  any-Mem :
      (nets : List ℕ) (ip : ℕ)
      → any (λ net. contains_ip net ip) nets ≡ true
      → (net : ℕ) × Memᴰ net nets × (contains_ip net ip ≡ true)
  unfolding any
  any-Mem [] ip h = cc
  any-Mem (y ∷ ys) ip h = elim (Bool-cases (contains_ip y ip)) [
    | inl e ↦ (y, Memᴰ.head refl, e)
    | inr e ↦ let (net, i, q) = any-Mem ys ip (ground arith) in (net, Memᴰ.tail i, q)
  ]

  check_ip-AllowsIp :
      (ip : ℕ) (allowed : Option (List ℕ)) (u : Unit {0})
      → check_ip contains_ip ip allowed ≡ ok u
      → AllowsIp allowed ip
  unfolding check_ip
  check_ip-AllowsIp ip none u h = any_ip refl
  check_ip-AllowsIp ip (some nets) u h =
      let (net, i, q) = any-Mem nets ip (ground arith) in in_net nets net refl i q

  Mem-any :
      (nets : List ℕ) (net ip : ℕ)
      → Memᴰ net nets
      → contains_ip net ip ≡ true
      → any (λ n. contains_ip n ip) nets ≡ true
  unfolding any
  Mem-any [] net ip i e = elim i [ ]
  Mem-any (y ∷ ys) net ip (Memᴰ.head q) e = ground arith
  Mem-any (y ∷ ys) net ip (Memᴰ.tail i) e = ground (arith, Mem-any ys net ip i e)

  AllowsIp-check_ip :
      (ip : ℕ) (allowed : Option (List ℕ))
      → AllowsIp allowed ip
      → check_ip contains_ip ip allowed ≡ ok tt
  unfolding check_ip
  AllowsIp-check_ip ip allowed (any_ip e) = rw (e, check_ip) refl
  AllowsIp-check_ip ip allowed (in_net nets net e i q) =
      rw (e, check_ip, Mem-any nets net ip i q) refl

  -- The caller's address and headers are all allowed.
  pub record IsAllowed (checks : AuthorizationChecks) (caller : Caller) : Type 0 where
    pub ip : AllowsIp checks.allowed_ips caller.ip
    pub origin : Allows checks.allowed_origins caller.origin
    pub referer : Allows checks.allowed_referers caller.referer
    pub user_agent : Allows checks.allowed_user_agents caller.user_agent

  -- An authorization is made exactly for a caller whose address and headers are all allowed, and it
  -- holds the checks and the caller as they were given.
  pub try_new_iff :
      (checks : AuthorizationChecks) (caller : Caller) (type : AuthorizationType)
      (a : Authorization)
      → (try_new contains_ip checks caller type ≡ ok a) ↔ (
          IsAllowed checks caller
          × (a ≡ record { checks = checks; caller = caller; authorization_type = type }))
  unfolding try_new
  try_new_iff checks caller type a = (forth, back)
    where
      forth :
          try_new contains_ip checks caller type ≡ ok a
          → IsAllowed checks caller
            × (a ≡ record { checks = checks; caller = caller; authorization_type = type })
      forth h =
          let (u, p, h1) = >>=-eq-ok (check_ip contains_ip caller.ip checks.allowed_ips) _ h in
          let (v, q, h2) = >>=-eq-ok (check_header _ _ caller.origin checks.allowed_origins) _ h1 in
          let (w, r, h3) =
            >>=-eq-ok (check_header _ _ caller.referer checks.allowed_referers) _ h2 in
          let (x, s, h4) =
            >>=-eq-ok (check_header _ _ caller.user_agent checks.allowed_user_agents) _ h3 in
          (
            record {
              ip = check_ip-AllowsIp caller.ip checks.allowed_ips u p;
              origin = check_header-Allows _ _ caller.origin checks.allowed_origins v q;
              referer = check_header-Allows _ _ caller.referer checks.allowed_referers w r;
              user_agent = check_header-Allows _ _ caller.user_agent checks.allowed_user_agents x s;
            },
            cc,
          )

      back :
          IsAllowed checks caller
            × (a ≡ record { checks = checks; caller = caller; authorization_type = type })
          → try_new contains_ip checks caller type ≡ ok a
      back (i, e) =
          rw
            (
              AllowsIp-check_ip caller.ip checks.allowed_ips i.ip,
              Allows-check_header _ _ caller.origin checks.allowed_origins i.origin,
              Allows-check_header _ _ caller.referer checks.allowed_referers i.referer,
              Allows-check_header _ _ caller.user_agent checks.allowed_user_agents i.user_agent,
              e,
            )
            refl
