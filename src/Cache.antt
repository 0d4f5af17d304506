-- ===== src/Cache.antt =====
-- `moka::future::Cache`, as an interface. An entry may be evicted at any time, so the laws promise
-- what a call returns, and that a cache holds nothing that was not put into it.
use web3_proxy.Prelude.{ℕ, ◌≡◌, ◌⊎◌, Option, none, some, List, [], ◌∷◌, arith, ◌==◌, if◌then◌else◌}

pub record CacheOps (V : Type 0) : Type 1 where
  pub Store : Type 0
  pub find : Store → ℕ → Option V
  pub insert : Store → ℕ → V → Store
  pub get_with : Store → ℕ → V → V × Store

pub record CacheLaws {V : Type 0} (c : CacheOps V) : Type 0 where
  -- `get_with` returns the value that is there, and otherwise stores and returns the new one.
  pub get_with_hit :
      (s : c.Store) (k : ℕ) (v w : V) → c.find s k ≡ some v → (c.get_with s k w).0 ≡ v
  pub get_with_miss : (s : c.Store) (k : ℕ) (w : V) → c.find s k ≡ none → (c.get_with s k w).0 ≡ w
  pub get_with_holds :
      (s : c.Store) (k : ℕ) (w : V) (j : ℕ) (v : V)
      → c.find (c.get_with s k w).1 j ≡ some v
      → (c.find s j ≡ some v) ⊎ ((j ≡ k) × (v ≡ w))
  pub insert_holds :
      (s : c.Store) (k : ℕ) (w : V) (j : ℕ) (v : V)
      → c.find (c.insert s k w) j ≡ some v
      → (c.find s j ≡ some v) ⊎ ((j ≡ k) × (v ≡ w))

-- A cache that never evicts: an association list.
module _ {V : Type 0} where
  unfoldable pub list_find : List (ℕ × V) → ℕ → Option V
  list_find [] k = none
  list_find ((j, v) ∷ s) k = if j == k then some v else list_find s k

  unfoldable pub list_get_with : List (ℕ × V) → ℕ → V → V × List (ℕ × V)
  list_get_with s k w = elim (list_find s k) [ some v ↦ (v, s) | none ↦ (w, (k, w) ∷ s) ]

abbrev pub list_cache : (V : Type 0) → CacheOps V
list_cache V = record {
  Store = List (ℕ × V);
  find = list_find;
  insert = λ s k w. (k, w) ∷ s;
  get_with = list_get_with;
}

pub list_cache-CacheLaws : (V : Type 0) → CacheLaws (list_cache V)
unfolding list_find list_get_with
list_cache-CacheLaws V = record {
  get_with_hit = λ s k v w h. ground arith;
  get_with_miss = λ s k w h. ground arith;
  get_with_holds = λ s k w j v h. ground arith;
  insert_holds = λ s k w j v h. ground arith;
}
