-- ===== src/Sending/Parallel/Choices.antt =====
-- The second loop of `try_send_parallel_requests`.
use web3_proxy.Prelude.{
  ℕ, ◌≡◌, ◌≢◌, refl, ap, sym, ◌∙◌, inl, inr, arith, Bool, true, false, some, List, [], ◌∷◌, ◌==◌,
  Bool-cases, ==_refl, contains,
}
use web3_proxy.Prelude.Results.{ok, err}
use web3_proxy.Sending.Parallel.{
  Response, Tally, get, remove, is_ok, has_error, is_passed_over, to_outcome, choose,
}

abbrev pub AreDistinct : List ℕ → Type 0
AreDistinct [] = Unit
AreDistinct (k ∷ ks) = (contains ks k ≡ false) × AreDistinct ks

abbrev pub fails : Response → Bool
fails (ok x) = has_error x
fails (err e) = true

-- The text of a response tells an answer from an error, and shows the JSON-RPC error, if there is one.
pub record TellsApart (debug : Response → ℕ) : Type 0 where
  pub same_ok : (r s : Response) → debug r ≡ debug s → is_ok r ≡ is_ok s
  pub same_fails : (r s : Response) → debug r ≡ debug s → fails r ≡ fails s

-- The counter gives every key that was counted, and each only once.
pub record ListsKeys (most_common_ordered : List ℕ → List ℕ) : Type 0 where
  pub distinct : (ks : List ℕ) → AreDistinct (most_common_ordered ks)
  pub counted : (ks : List ℕ) (k : ℕ) → contains (most_common_ordered ks) k ≡ contains ks k

abbrev pub Map : Type 0
Map = List (ℕ × Response)

get-remove : (m : Map) (k j : ℕ) → (j == k) ≡ false → get (remove m k) j ≡ get m j
unfolding get remove
get-remove [] k j d = refl
get-remove ((i, r) ∷ m) k j d = elim (Bool-cases (i == k)) [
  | inl e ↦
      let other : (i == j) ≡ false = ground (arith, d, e) in rw (e, other) (get-remove m k j d)
  | inr e ↦ elim (Bool-cases (i == j)) [
    | inl f ↦ rw (e, f) refl
    | inr f ↦ rw (e, f) (get-remove m k j d)
  ]
]

pub ==-to_eq : (a b : ℕ) → (a == b) ≡ true → a ≡ b
==-to_eq a b h = ground (arith, h)

pub some_injective : {A : Type 0} (a b : A) → some a ≡ some b → a ≡ b
some_injective a b h = ground (arith, h)

pub contains_none : (k : ℕ) → contains [] k ≢ true
unfolding contains
contains_none k h = ground (arith, h)

pub contains_head : (k : ℕ) (ks : List ℕ) → contains (k ∷ ks) k ≡ true
unfolding contains
contains_head k ks = rw (==_refl k) refl

pub contains_tail : (j k : ℕ) (ks : List ℕ) → contains ks k ≡ true → contains (j ∷ ks) k ≡ true
unfolding contains
contains_tail j k ks h = ground (arith, h)

pub contains_rest :
    (j k : ℕ) (ks : List ℕ) → contains (j ∷ ks) k ≡ true → (j == k) ≡ false → contains ks k ≡ true
unfolding contains
contains_rest j k ks h d = ground (arith, h, d)

-- A key that comes later is another one.
differs : (j k : ℕ) (ks : List ℕ) → contains ks j ≡ false → contains ks k ≡ true → (k == j) ≡ false
differs j k ks d c = elim (Bool-cases (k == j)) [
  | inr e ↦ e
  | inl e ↦
      let same : k ≡ j = ==-to_eq k j e in
      let there : contains ks j ≡ true = rw⁻¹ same c in absurd (cc)
]

choose-found :
    (t : Tally) (j : ℕ) (ks : List ℕ) (m : Map) (s : Response)
    → get m j ≡ some s
    → is_passed_over t s ≡ false
    → choose t (j ∷ ks) m ≡ to_outcome s
unfolding choose
choose-found t j ks m s found e = rw (choose, found, e) refl

choose-passed :
    (t : Tally) (j : ℕ) (ks : List ℕ) (m : Map) (s : Response)
    → get m j ≡ some s
    → is_passed_over t s ≡ true
    → choose t (j ∷ ks) m ≡ choose t ks (remove m j)
unfolding choose
choose-passed t j ks m s found e = rw (choose, found, e) refl

-- The second loop ends with a response that is not passed over, if some key that comes has one.
pub choose-done :
    (t : Tally) (ks : List ℕ) (m : Map)
    → AreDistinct ks
    → ((k : ℕ) → contains ks k ≡ true → (r : Response) × (get m k ≡ some r))
    → (k : ℕ) (r : Response) → contains ks k ≡ true
    → get m k ≡ some r
    → is_passed_over t r ≡ false
    → (s : Response) × (choose t ks m ≡ to_outcome s) × (is_passed_over t s ≡ false)
choose-done t [] m d known k r c q p = absurd (contains_none k c)
choose-done t (j ∷ ks) m d known k r c q p =
    let (s, found) = known j (contains_head j ks) in
    elim (Bool-cases (is_passed_over t s)) [
      | inr e ↦ (s, choose-found t j ks m s found e, e)
      | inl e ↦
          let other = is_other s found e in
          let rest = contains_rest j k ks c other in
          let others =
            choose-done t ks (remove m j) d.1
              (λ i ci.
                let (x, qx) = known i (contains_tail j i ks ci) in
                (x, get-remove m j i (differs j i ks d.0 ci) ∙ qx))
              k r rest (get-remove m j k (differs j k ks d.0 rest) ∙ q) p in
          (others.0, choose-passed t j ks m s found e ∙ others.1, others.2)
    ]
  where
    is_other : (s : Response) → get m j ≡ some s → is_passed_over t s ≡ true → (j == k) ≡ false
    is_other s found e = elim (Bool-cases (j == k)) [
      | inr f ↦ f
      | inl f ↦
          let same : s ≡ r = some_injective s r (sym found ∙ ap (get m) (==-to_eq j k f) ∙ q) in
          absurd (cc)
    ]
