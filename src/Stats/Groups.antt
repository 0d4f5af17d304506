-- ===== src/Stats/Groups.antt =====
-- The map of aggregates, against the plain description: under each key, the sum of the statistics that
-- have that key.
use web3_proxy.Prelude.{
  ◌≡◌, refl, sym, ap, ◌∙◌, inl, inr, Bool, true, false, Option, none, some, List, [], ◌∷◌, arith,
  if◌then◌else◌, filter_by, Bool-cases, Option-cases,
}
use web3_proxy.Stats.{ProxyResponseStat, ProxyResponseAggregateKey, key, key_eq}
use web3_proxy.Stats.Keys.{key_eq_iff}
use web3_proxy.Stats.Aggregate.{Histograms, ProxyResponseAggregate, default_aggregate, add}
use web3_proxy.Stats.Emitter.{AggregateMap, get, contains_key, insert_missing, update, set, receive}

module _ (hist : Histograms) where
  abbrev or_default : Option (ProxyResponseAggregate hist) → ProxyResponseAggregate hist
  or_default none = default_aggregate hist
  or_default (some a) = a

  -- The statistics added up, in their order, if there is one.
  abbrev pub summed :
      Option (ProxyResponseAggregate hist)
      → List ProxyResponseStat
      → Option (ProxyResponseAggregate hist)
  summed o [] = o
  summed o (s ∷ ss) = summed (some (add hist (or_default o) s).0) ss

  -- All of them, received one after another.
  abbrev pub receive_all : AggregateMap hist → List ProxyResponseStat → Option (AggregateMap hist)
  receive_all m [] = some m
  receive_all m (s ∷ ss) = elim (receive hist m s) [ none ↦ none | some m' ↦ receive_all m' ss ]

  -- No key stands twice.
  abbrev pub IsFlat : AggregateMap hist → Type 0
  IsFlat [] = Unit
  IsFlat ((k, a) ∷ m) = (get hist m k ≡ none) × IsFlat m

  -- Under each key, the sum of its statistics after what `before` has.
  pub record Holds (before : AggregateMap hist) (stats : List ProxyResponseStat)
      (m : AggregateMap hist) : Type 0 where
    pub flat : IsFlat m
    pub groups :
        (k : ProxyResponseAggregateKey)
        → get hist m k ≡ summed (get hist before k) (filter_by (λ s. key_eq (key s) k) stats)

  get-set :
      (m : AggregateMap hist) (j k : ProxyResponseAggregateKey) {a : ProxyResponseAggregate hist}
      (b : ProxyResponseAggregate hist)
      → get hist m j ≡ some a
      → get hist (set hist m j b) k ≡ (if key_eq j k then some b else get hist m k)
  unfolding get set
  get-set [] j k b h = cc
  get-set ((i, c) ∷ m) j k b h = elim (Bool-cases (key_eq i j)) [
    | inl e ↦ let same : i ≡ j = (key_eq_iff i j).0 e in rw (e, same) (done_head (key_eq j k))
    | inr e ↦
        rw (e, get-set m j k b (rw e at h))
          (elim (Bool-cases (key_eq i k)) [
            | inl q ↦
                let apart : key_eq j k ≡ false = differ ((key_eq_iff i k).0 q) e in ground arith
            | inr q ↦ rw q refl
          ])
  ]
    where
      done_head :
          (t : Bool)
          → (if t then some b else get hist m k)
            ≡ (if t then some b else (if t then some c else get hist m k))
      done_head true = refl
      done_head false = refl

      differ : i ≡ k → key_eq i j ≡ false → key_eq j k ≡ false
      differ same e = elim (Bool-cases (key_eq j k)) [
        | inl q ↦
            let back : key_eq i j ≡ true = (key_eq_iff i j).1 (same ∙ sym ((key_eq_iff j k).0 q)) in
            absurd (ground arith)
        | inr q ↦ q
      ]

  -- A write adds no key.
  get-set_none :
      (m : AggregateMap hist) (j k : ProxyResponseAggregateKey) (b : ProxyResponseAggregate hist)
      → get hist m k ≡ none
      → get hist (set hist m j b) k ≡ none
  unfolding get set
  get-set_none [] j k b h = refl
  get-set_none ((i, c) ∷ m) j k b h = ground (arith, get-set_none m j k b)

  set-IsFlat :
      (m : AggregateMap hist) (j : ProxyResponseAggregateKey) (b : ProxyResponseAggregate hist)
      → IsFlat m
      → IsFlat (set hist m j b)
  unfolding set
  set-IsFlat [] j b flat = flat
  set-IsFlat ((i, c) ∷ m) j b flat = elim (Bool-cases (key_eq i j)) [
    | inl e ↦ rw e flat
    | inr e ↦ rw e (get-set_none m j i b flat.0, set-IsFlat m j b flat.1)
  ]

  pub insert_missing-none :
      (m : AggregateMap hist) (k : ProxyResponseAggregateKey)
      → get hist m k ≡ none
      → insert_missing hist m k ≡ (k, default_aggregate hist) ∷ m
  unfolding insert_missing contains_key
  insert_missing-none m k gone = ground (arith, gone)

  pub insert_missing-some :
      (m : AggregateMap hist) (k : ProxyResponseAggregateKey) {a : ProxyResponseAggregate hist}
      → get hist m k ≡ some a
      → insert_missing hist m k ≡ m
  unfolding insert_missing contains_key
  insert_missing-some m k found = ground (arith, found)

  pub update-some :
      (m : AggregateMap hist) (k : ProxyResponseAggregateKey) (stat : ProxyResponseStat)
      {a : ProxyResponseAggregate hist}
      → get hist m k ≡ some a
      → update hist m k stat ≡ some (set hist m k (add hist a stat).0)
  unfolding update
  update-some m k stat found = ground (arith, found)

  -- What `receive` does: one statistic more under its own key, and nothing else.
  record Received (m : AggregateMap hist) (stat : ProxyResponseStat) : Type 0 where
    after : AggregateMap hist
    received : receive hist m stat ≡ some after
    flat : IsFlat m → IsFlat after
    others :
        (k : ProxyResponseAggregateKey)
        → get hist after k ≡ (
            if key_eq (key stat) k
            then some (add hist (or_default (get hist m k)) stat).0
            else get hist m k)

  receive-Received : (m : AggregateMap hist) (stat : ProxyResponseStat) → Received m stat
  unfolding get receive
  receive-Received m stat = elim (Option-cases (get hist m (key stat))) [
    | inl gone ↦
        let m1 : AggregateMap hist = (key stat, default_aggregate hist) ∷ m in
        let b = (add hist (default_aggregate hist) stat).0 in
        let there : get hist m1 (key stat) ≡ some (default_aggregate hist) =
          rw ((key_eq_iff (key stat) (key stat)).1 refl) refl in
        record {
          after = set hist m1 (key stat) b;
          received =
              ap (λ x. update hist x (key stat) stat) (insert_missing-none m (key stat) gone)
              ∙ update-some m1 (key stat) stat there;
          flat = λ f. set-IsFlat m1 (key stat) b (gone, f);
          others = λ k. get-set m1 (key stat) k b there ∙ fresh gone k (key_eq (key stat) k) refl;
        }
    | inr (a, found) ↦
        let b = (add hist a stat).0 in
        record {
          after = set hist m (key stat) b;
          received =
              ap (λ x. update hist x (key stat) stat) (insert_missing-some m (key stat) found)
              ∙ update-some m (key stat) stat found;
          flat = set-IsFlat m (key stat) b;
          others = λ k. get-set m (key stat) k b found ∙ old a found k (key_eq (key stat) k) refl;
        }
  ]
    where
      fresh :
          get hist m (key stat) ≡ none
          → (k : ProxyResponseAggregateKey) (t : Bool) → key_eq (key stat) k ≡ t
          → (if t
              then some (add hist (default_aggregate hist) stat).0
              else (if t then some (default_aggregate hist) else get hist m k))
            ≡ (if t then some (add hist (or_default (get hist m k)) stat).0 else get hist m k)
      fresh gone k true e =
          let same : key stat ≡ k = (key_eq_iff (key stat) k).0 e in
          let none_there : get hist m k ≡ none = rw (sym same) gone in rw none_there refl
      fresh gone k false e = refl

      old :
          (a : ProxyResponseAggregate hist)
          → get hist m (key stat) ≡ some a
          → (k : ProxyResponseAggregateKey) (t : Bool) → key_eq (key stat) k ≡ t
          → (if t then some (add hist a stat).0 else get hist m k)
            ≡ (if t then some (add hist (or_default (get hist m k)) stat).0 else get hist m k)
      old a found k true e =
          let same : key stat ≡ k = (key_eq_iff (key stat) k).0 e in
          let there : get hist m k ≡ some a = rw (sym same) found in rw there refl
      old a found k false e = refl

  -- Whatever statistics come in, the loop never panics on them, no key stands twice in the map, and
  -- under each key is the sum, in their order, of the statistics with that key.
  pub receive_all-Holds :
      (m : AggregateMap hist) (stats : List ProxyResponseStat)
      → IsFlat m
      → (m' : AggregateMap hist) × (receive_all m stats ≡ some m') × Holds m stats m'
  unfolding filter_by
  receive_all-Holds m [] flat = (m, refl, record { flat = flat; groups = λ k. refl })
  receive_all-Holds m (s ∷ ss) flat =
      let r = receive-Received m s in
      let (m', e, h) = receive_all-Holds r.after ss (r.flat flat) in
      (
        m',
        rw (receive_all, r.received) e,
        record { flat = h.flat; groups = λ k. h.groups k ∙ step r k (key_eq (key s) k) refl },
      )
    where
      step :
          (r : Received m s) (k : ProxyResponseAggregateKey) (t : Bool)
          → key_eq (key s) k ≡ t
          → summed (get hist r.after k) (filter_by (λ x. key_eq (key x) k) ss)
            ≡ summed (get hist m k) (
                if t
                then s ∷ filter_by (λ x. key_eq (key x) k) ss
                else filter_by (λ x. key_eq (key x) k) ss)
      step r k true e = rw (r.others k, e) refl
      step r k false e = rw (r.others k, e) refl
