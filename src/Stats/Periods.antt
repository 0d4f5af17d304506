-- ===== src/Stats/Periods.antt =====
-- Where a period starts.
use native.Mathlib.Nat.{mod-lt, div-add-mod'}
use web3_proxy.Prelude.{
  ℕ, ◌+◌, ◌-◌, ◌*◌, ◌/◌, ◌%◌, ◌^◌, ◌≤◌, ◌<◌, ◌≡◌, refl, ◌⊎◌, inl, inr, Bool, true, false, none,
  some, arith, ◌==◌, Bool-cases,
}
use web3_proxy.Stats.Emitter.{StatEmitter, Start, start_at, start}

-- The period that is taken as the current one began at most `period` nanoseconds ago, and the first
-- tick comes after a whole period less that time.
pub record IsRecent (e : StatEmitter) (now : ℕ) (s : Start) : Type 0 where
  pub begun : s.current_period ≤ now
  pub recent : now < s.current_period + e.period_seconds % 2 ^ 32
  pub wait : s.duration_to_next_period + (now - s.current_period) ≡ e.period_seconds * 1_000_000_000

-- The start panics exactly for a period whose low 32 bits are 0, and if the clock cannot represent the first tick.
-- Otherwise the division of the duration rounds in nanoseconds and not in periods: the period that is
-- taken as the current one began fewer nanoseconds ago than a period has seconds, and the first tick
-- comes a whole period after it.
pub start-IsRecent :
    (can_add : ℕ → Bool) (e : StatEmitter) (now : ℕ)
    → ((e.period_seconds % 2 ^ 32 ≡ 0) × (start can_add e now ≡ none))
      ⊎ ((s : Start) × IsRecent e now s
          × (((can_add s.duration_to_next_period ≡ false) × (start can_add e now ≡ none))
              ⊎ ((can_add s.duration_to_next_period ≡ true) × (start can_add e now ≡ some s))))
unfolding start start_at
start-IsRecent can_add e now =
    let period : ℕ = e.period_seconds % 2 ^ 32 in
    elim (Bool-cases (period == 0)) [
      | inl z ↦ inl (ground arith, rw z refl)
      | inr p ↦
          let positive : 0 < period = ground arith in
          let small : period ≤ e.period_seconds = omega arith in
          let split : now / period * period + now % period ≡ now = div-add-mod' now period in
          let rest : now % period < period = mod-lt now positive in
          let s = start_at e period now in
          inr (
            s,
            record {
              begun = omega (arith, split);
              recent = omega (arith, split, rest);
              wait = omega (arith, split, rest, small);
            },
            elim (Bool-cases (can_add s.duration_to_next_period)) [
              | inl c ↦ inr (c, rw (p, c) refl)
              | inr c ↦ inl (c, rw (p, c) refl)
            ],
          )
    ]
