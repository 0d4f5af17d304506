-- ===== src/Rpc/Head/Laws.antt =====
-- What the data limit of a server means, how it is found, and what a server sends of its head.
use web3_proxy.Prelude.{
  ℕ, ◌+◌, ◌^◌, ◌≤◌, ◌≡◌, refl, sym, ap, ◌↔◌, ◌⊎◌, inl, inr, Bool, true, false, Option, none, some,
  List, [], ◌∷◌, arith, ◌==◌, if◌then◌else◌, Bool-cases, ltb, Option-cases,
}
use web3_proxy.Prelude.Results.{Result, ok, err}
use web3_proxy.Block.{ArcBlock, Web3ProxyBlock, number, age, try_new}
use web3_proxy.Cache.{CacheOps}
use web3_proxy.Rpc.Head.{
  HeadState, has_block_data, ProbeError, find_limit, check_block_data_limit, Sent,
  send_head_block_result, clear_head, keep_head,
}

-- A server has a block exactly when it is synced that far, and the block is at most the data limit
-- behind its head.
pub has_block_data_iff :
    (s : HeadState) (n : ℕ)
    → (has_block_data s n ≡ true) ↔ (
        (head : Web3ProxyBlock) × (s.head_block ≡ some head)
        × (n ≤ number head)
        × (number head ≤ n + s.block_data_limit))
unfolding has_block_data
has_block_data_iff s n = (
  λ h. elim (Option-cases s.head_block) [
    | inl gone ↦ absurd (ground arith)
    | inr (b, e) ↦ (b, e, ground arith, ground arith)
  ],
  λ (b, e, low, high). ground arith,
)

module _ (probe : ℕ → Result ProbeError Bool) where
  -- The last of the limits, in their order, up to which every probe found the state.
  pub data Longest : Option ℕ → List ℕ → Option ℕ → Type 0 where
    all : {limit r : Option ℕ} → r ≡ limit → Longest limit [] r
    more :
        {limit r : Option ℕ} {l : ℕ} {ls : List ℕ}
        → probe l ≡ ok true
        → Longest (some l) ls r
        → Longest limit (l ∷ ls) r
    stop :
        {limit r : Option ℕ} {l : ℕ} {ls : List ℕ}
        → probe l ≡ ok false
        → r ≡ limit
        → Longest limit (l ∷ ls) r

  -- The search finds the last of the limits, in their order, up to which every probe found the
  -- state, whenever no probe fails.
  pub find_limit-Longest :
      (limit : Option ℕ) (ls : List ℕ) {r : Option ℕ}
      → find_limit probe limit ls ≡ ok r
      → Longest limit ls r
  unfolding find_limit
  find_limit-Longest limit [] h = all (ground arith)
  find_limit-Longest limit (l ∷ ls) {r} h =
      go (probe l) refl (λ e. find_limit-Longest (some l) ls e)
    where
      go :
          (p : Result ProbeError Bool)
          → probe l ≡ p
          → (find_limit probe (some l) ls ≡ ok r → Longest (some l) ls r)
          → Longest limit (l ∷ ls) r
      go (err x) e rec = absurd (ground arith)
      go (ok true) e rec = more e (rec (ground arith))
      go (ok false) e rec = stop e (ground arith)

check_block_data_limit-head_block :
    (automatic : Bool) (probe : ℕ → Result ProbeError Bool) (s : HeadState)
    → (check_block_data_limit automatic probe s).0.head_block ≡ s.head_block
unfolding check_block_data_limit
check_block_data_limit-head_block automatic probe s = ground arith

kept :
    (now : ℕ) (automatic : Bool) (probe : ℕ → Result ProbeError Bool) (s : HeadState)
    (b : Web3ProxyBlock)
    → (if s.block_data_limit == 0
        then (check_block_data_limit automatic probe (record s { head_block = some b })).0
        else record s { head_block = some b }).head_block
      ≡ some b
kept now automatic probe s b =
    let e = check_block_data_limit-head_block automatic probe (record s { head_block = some b }) in
    ground arith

-- On what block there is a panic.
abbrev pub IsBad : ArcBlock → Type 0
IsBad b = (b.number ≡ none) ⊎ ((b.hash ≡ none) ⊎ (2 ^ 64 ≤ b.timestamp))

try_new_cases :
    (now : ℕ) (b : ArcBlock)
    → ((x : Web3ProxyBlock) × (try_new now b ≡ some (some x)) × (IsBad b → ⊥))
      ⊎ (IsBad b × ((try_new now b ≡ none) ⊎ (try_new now b ≡ some none)))
unfolding try_new
try_new_cases now b = elim (Option-cases b.number) [
  | inl n ↦ inr (inl n, inr (ground (arith, n)))
  | inr (n, en) ↦ elim (Option-cases b.hash) [
    | inl h ↦ inr (inr (inl h), inr (ground (arith, en, h)))
    | inr (h, eh) ↦ elim (Bool-cases (ltb b.timestamp (2 ^ 64))) [
      | inr big ↦ inr (inr (inr (ground (arith, big))), inl (ground (arith, en, eh, big)))
      | inl fits ↦ inl (
        record {
          block = b;
          received_age = some (age now (record { block = b; received_age = none }));
        },
        ground (arith, en, eh, fits),
        λ bad. elim bad [
          | inl p ↦ absurd (ground (arith, p, en))
          | inr q ↦ elim q [
            | inl p ↦ absurd (ground (arith, p, eh))
            | inr p ↦ absurd (ground (arith, p, fits))
          ]
        ],
      )
    ]
  ]
]

module _ (hashes : CacheOps Web3ProxyBlock) where
  -- There is a panic exactly on a block without a number or a hash, or with a time stamp of more than 64
  -- bits. Whatever else arrives, a server remembers the head that it sends; it sends nothing only if it
  -- has no head and had none before.
  pub send_head_block_result_lem :
      (now : ℕ) (automatic : Bool) (probe : ℕ → Result ProbeError Bool) (s : HeadState)
      (m : hashes.Store) (new_head : Option (Option ArcBlock))
      → (((b : ArcBlock) → new_head ≡ some (some b) → IsBad b → ⊥)
          × (r : Sent hashes) × (send_head_block_result hashes now automatic probe s m new_head
              ≡ some r)
          × ((r.message ≡ some r.state.head_block)
              ⊎ ((r.message ≡ none) × (s.head_block ≡ none) × (r.state ≡ s))))
        ⊎ ((b : ArcBlock) × (new_head ≡ some (some b))
            × IsBad b
            × (send_head_block_result hashes now automatic probe s m new_head ≡ none))
  unfolding send_head_block_result clear_head
  send_head_block_result_lem now automatic probe s m none =
      inl (λ b h. absurd (ground (arith, h)), _, refl, inl refl)
  send_head_block_result_lem now automatic probe s m (some none) =
      elim (Option-cases s.head_block) [
        | inl gone ↦ inl (
          λ b h. absurd (ground (arith, h)),
          record { state = s; block_map = m; message = none },
          simp (send_head_block_result, gone),
          inr (refl, gone, refl),
        )
        | inr (b, e) ↦ inl (
          λ b h. absurd (ground (arith, h)),
          clear_head hashes s m,
          simp (send_head_block_result, e),
          inl refl,
        )
      ]
  send_head_block_result_lem now automatic probe s m (some (some b)) = elim (try_new_cases now b) [
    | inr (bad, inl gone) ↦ inr (b, refl, bad, rw (gone, keep_head) refl)
    | inr (bad, inr refused) ↦ inr (b, refl, bad, rw (refused, keep_head) refl)
    | inl (x, e, good) ↦
        rw (e, keep_head)
          (inl (
            λ c h bad. let same' : b ≡ c = ground (arith, h) in good (rw same' bad),
            _,
            refl,
            inl (ap some (sym (kept now automatic probe s _))),
          ))
  ]
