-- ===== src/Sending/All/Laws.antt =====
-- Which servers are selected, and what is said when there is none.
use web3_proxy.Prelude.{
  ℕ, ◌+◌, ◌≤◌, ◌<◌, ◌≡◌, refl, ap, inl, inr, Bool, true, false, Option, none, some, List, [], ◌∷◌,
  ◌++◌, not, ◌&&◌, ◌||◌, arith, ◌==◌, length, length-append, any, All, All-append, Bool-cases,
}
use web3_proxy.Prelude.Results.{Result, ok, err}
use web3_proxy.Block.{Web3ProxyBlock, number}
use web3_proxy.Rpc.{Web3Rpc}
use web3_proxy.Rpc.Head.{HeadState}
use web3_proxy.Rpc.Head.Laws.{has_block_data_iff}
use web3_proxy.Rpc.Handle.{OpenRequestResult, handle, retry_at, not_ready}
use web3_proxy.RateLimit.Redis.{RedisError}
use web3_proxy.Selection.{Pool, Handles, has_needed}
use web3_proxy.Sending.All.{
  is_tried, count_or, selected_or, Progress, after_handle, is_usable, try_rpc, select_rpcs,
  all_connections,
}

is_tried-key :
    (xs : List Web3Rpc) (x y : Web3Rpc) → x.hash_key ≡ y.hash_key → is_tried xs x ≡ is_tried xs y
unfolding is_tried any
is_tried-key [] x y e = refl
is_tried-key (z ∷ zs) x y e = ground (arith, is_tried-key zs x y e)

abbrev IsApart : Web3Rpc → Web3Rpc → Type 0
IsApart x y = (x.hash_key == y.hash_key) ≡ false

-- No server stands twice. Servers with the same name are different ones if one has replaced the other.
abbrev pub AreDistinct : List Web3Rpc → Type 0
AreDistinct [] = Unit
AreDistinct (x ∷ xs) = (is_tried xs x ≡ false) × AreDistinct xs

is_tried-append :
    (xs : List Web3Rpc) (x y : Web3Rpc)
    → is_tried xs y ≡ false
    → IsApart x y
    → is_tried (xs ++ x ∷ []) y ≡ false
unfolding is_tried any
is_tried-append [] x y h e = ground arith
is_tried-append (z ∷ zs) x y h e = elim (Bool-cases (z.hash_key == y.hash_key)) [
  | inl q ↦ absurd (ground arith)
  | inr q ↦ rw q (is_tried-append zs x y (rw q at h) e)
]

AreDistinct-append :
    (xs : List Web3Rpc) (x : Web3Rpc)
    → AreDistinct xs
    → All (λ y. IsApart x y) xs
    → AreDistinct (xs ++ x ∷ [])
unfolding is_tried any
AreDistinct-append [] x d a = (refl, tt)
AreDistinct-append (y ∷ ys) x d a =
    (is_tried-append ys x y d.0 a.0, AreDistinct-append ys x d.1 a.1)

All-map {ℓ κ} :
    {A : Type ℓ} (P Q : A → Type κ) (xs : List A) → ((x : A) → P x → Q x) → All P xs → All Q xs
All-map P Q [] f a = tt
All-map P Q (x ∷ xs) f a = (f x a.0, All-map P Q xs f a.1)

abbrev AreIn : List Web3Rpc → List Web3Rpc → Type 0
AreIn tried xs = All (λ x. is_tried tried x ≡ true) xs

-- One more server was tried.
AreIn-more : (tried xs : List Web3Rpc) (rpc : Web3Rpc) → AreIn tried xs → AreIn (rpc ∷ tried) xs
unfolding is_tried any
AreIn-more tried xs rpc a = All-map _ _ xs (λ x h. ground (arith, h)) a

fresh-IsApart :
    (tried xs : List Web3Rpc) (rpc : Web3Rpc)
    → is_tried tried rpc ≡ false
    → AreIn tried xs
    → All (λ y. IsApart rpc y) xs
fresh-IsApart tried xs rpc fresh a = All-map _ _ xs apart a
  where
    apart : (y : Web3Rpc) → is_tried tried y ≡ true → IsApart rpc y
    apart y seen = elim (Bool-cases (rpc.hash_key == y.hash_key)) [
      | inl e ↦
          let same : is_tried tried rpc ≡ is_tried tried y =
            is_tried-key tried rpc y (ground arith) in
          absurd (ground arith)
      | inr e ↦ e
    ]

-- The block that is needed lies at or below the server's head, and at most its data limit behind it.
abbrev pub Covers : HeadState → Option ℕ → Type 0
Covers s none = Unit
Covers s (some n) =
    (head : Web3ProxyBlock) × (s.head_block ≡ some head)
    × (n ≤ number head)
    × (number head ≤ n + s.block_data_limit)

has_needed-Covers : (s : HeadState) (n : Option ℕ) → has_needed s n ≡ true → Covers s n
has_needed-Covers s none h = tt
has_needed-Covers s (some n) h = (has_block_data_iff s n).0 h

-- What a request asks of a server.
pub record IsFit (pool : Pool) (lo hi : Option ℕ) (allow_backups : Bool) (rpc : Web3Rpc)
    : Type 0 where
  pub primary : rpc.backup ≡ true → allow_backups ≡ true
  pub lowest : Covers (pool.head_of rpc) lo
  pub highest : Covers (pool.head_of rpc) hi

and_true : (a b : Bool) → a && b ≡ true → (a ≡ true) × (b ≡ true)
and_true a b h = (ground (arith, h), ground (arith, h))

module _ (handles : Handles) (pool : Pool) (lo hi : Option ℕ) (allow_backups : Bool) where
  abbrev pub AreFit : List Web3Rpc → Type 0
  AreFit xs = All (IsFit pool lo hi allow_backups) xs

  is_usable-IsFit :
      (rpc : Web3Rpc)
      → is_usable handles pool lo hi allow_backups rpc ≡ true
      → IsFit pool lo hi allow_backups rpc
  unfolding is_usable
  is_usable-IsFit rpc h =
      let allowed : Bool = allow_backups || not rpc.backup in
      let head = pool.head_of rpc in
      let (tests, upper) = and_true (allowed && has_needed head lo) (has_needed head hi) h in
      let (primary, lower) = and_true allowed (has_needed head lo) tests in
      record {
        primary = λ b. ground (arith, primary, b);
        lowest = has_needed-Covers (pool.head_of rpc) lo lower;
        highest = has_needed-Covers (pool.head_of rpc) hi upper;
      }

  -- What holds through the loop, when it began with room for `max` servers.
  record IsSound (max : ℕ) (p : Progress handles) : Type 0 where
    no_time : p.earliest_retry_at ≡ none
    room : length p.selected_rpcs + p.max_count ≡ max
    usable : AreFit p.selected_rpcs
    distinct : AreDistinct p.selected_rpcs
    seen : AreIn p.tried p.selected_rpcs

  after_handle-IsSound :
      (max : ℕ) (rpc : Web3Rpc) (p : Progress handles) (a : Result RedisError OpenRequestResult)
      → IsSound max p
      → 0 < p.max_count
      → IsFit pool lo hi allow_backups rpc
      → All (λ y. IsApart rpc y) p.selected_rpcs
      → is_tried p.tried rpc ≡ true
      → IsSound max (after_handle handles rpc p a)
  unfolding after_handle
  after_handle-IsSound max rpc p (ok (retry_at t)) i positive usable apart seen = record {
    no_time = rw (i.no_time) refl;
    room = i.room;
    usable = i.usable;
    distinct = i.distinct;
    seen = i.seen;
  }
  after_handle-IsSound max rpc p (ok handle) i positive usable apart seen =
      let one_more = length-append p.selected_rpcs (rpc ∷ []) in
      record {
        no_time = i.no_time;
        room = omega (arith, i.room, positive, one_more);
        usable = All-append _ p.selected_rpcs (rpc ∷ []) i.usable (usable, tt);
        distinct = AreDistinct-append p.selected_rpcs rpc i.distinct apart;
        seen = All-append _ p.selected_rpcs (rpc ∷ []) i.seen (seen, tt);
      }
  after_handle-IsSound max rpc p (ok not_ready) i positive usable apart seen = i
  after_handle-IsSound max rpc p (err e) i positive usable apart seen = i

  try_rpc-IsSound :
      (max : ℕ) (rpc : Web3Rpc) (p : Progress handles)
      → IsSound max p
      → 0 < p.max_count
      → is_tried p.tried rpc ≡ false
      → IsSound max (try_rpc handles pool lo hi allow_backups rpc p)
  unfolding is_tried any try_rpc
  try_rpc-IsSound max rpc p i positive fresh =
      elim (Bool-cases (is_usable handles pool lo hi allow_backups rpc)) [
        | inl e ↦
            let asked = handles.try_request_handle p.state rpc in
            rw (try_rpc, e)
              (after_handle-IsSound max rpc (record p { tried = rpc ∷ p.tried; state = asked.1 })
                asked.0 tried positive (is_usable-IsFit rpc e)
                (fresh-IsApart p.tried p.selected_rpcs rpc fresh i.seen) (ground arith))
        | inr e ↦ rw (try_rpc, e) tried
      ]
    where
      tried : {s : handles.State} → IsSound max (record p { tried = rpc ∷ p.tried; state = s })
      tried = record {
        no_time = i.no_time;
        room = i.room;
        usable = i.usable;
        distinct = i.distinct;
        seen = AreIn-more p.tried p.selected_rpcs rpc i.seen;
      }

  select_rpcs-IsSound :
      (max : ℕ) (rpcs : List Web3Rpc) (p : Progress handles)
      → IsSound max p
      → IsSound max (select_rpcs handles pool lo hi allow_backups rpcs p)
  unfolding select_rpcs
  select_rpcs-IsSound max [] p i = i
  select_rpcs-IsSound max (rpc ∷ rpcs) p i = elim (Bool-cases (p.max_count == 0)) [
    | inl e ↦ rw e i
    | inr e ↦ elim (Bool-cases (is_tried p.tried rpc)) [
      | inl q ↦ rw (e, q) (select_rpcs-IsSound max rpcs p i)
      | inr q ↦
          rw (e, q) (select_rpcs-IsSound max rpcs _ (try_rpc-IsSound max rpc p i (ground arith) q))
    ]
  ]

  -- What an answer says: a list of servers, or no time to retry at.
  abbrev pub IsFair : ℕ → Result (Option ℕ) (List Web3Rpc) → Type 0
  IsFair max (err t) = t ≡ none
  IsFair max (ok xs) = (0 < length xs) × (length xs ≤ max) × AreFit xs × AreDistinct xs

  -- The servers that are selected are at least one, at most as many as asked for or, without a limit,
  -- as there are; they are different servers, their heads and data limits cover the blocks that
  -- are needed, and none is a backup unless backups are allowed. If there is none, the answer never says when to retry, not even when
  -- every server has said so.
  pub all_connections-IsFair :
      (peak_ewma : Web3Rpc → ℕ) (max_count : Option ℕ) (s : handles.State)
      → IsFair
          (count_or max_count (length pool.rpcs))
          (all_connections handles pool lo hi allow_backups peak_ewma max_count s).1
  unfolding all_connections
  all_connections-IsFair peak_ewma max_count s = go _ (
      select_rpcs-IsSound (count_or max_count (length pool.rpcs)) _ _
        (record { no_time = refl; room = omega arith; usable = tt; distinct = tt; seen = tt }))
    where
      go :
          (p : Progress handles)
          → IsSound (count_or max_count (length pool.rpcs)) p
          → IsFair
              (count_or max_count (length pool.rpcs))
              (selected_or p.earliest_retry_at p.selected_rpcs)
      go p i = by_list p.selected_rpcs refl
        where
          by_list :
              (xs : List Web3Rpc)
              → p.selected_rpcs ≡ xs
              → IsFair (count_or max_count (length pool.rpcs)) (selected_or p.earliest_retry_at xs)
          by_list [] e = i.no_time
          by_list (x ∷ xs) e =
              let room = i.room in
              let same = ap length e in
              let usable = i.usable in
              let distinct = i.distinct in
              (omega arith, omega (arith, room, same), rw e at usable, rw e at distinct)
