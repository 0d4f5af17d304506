-- ===== src/Connection/Backoff.antt =====
-- `retrying_connect` of web3_proxy/src/rpcs/one.rs: sleeps that grow at random between attempts. The random
-- numbers are the interface `Rng`; the attempts that follow are given by their success, since the error of one is
-- only logged. Times are in milliseconds.
use web3_proxy.Prelude.{
  ℕ, ◌*◌, ◌≤◌, ◌<◌, min, ◌≡◌, refl, Bool, true, false, Option, none, some, List, [], ◌∷◌, arith,
}

-- `gen_range` panics on an empty range.
pub record Rng : Type 1 where
  pub Seed : Type 0
  pub gen_range : Seed → (from to : ℕ) → Option ℕ × Seed

-- What rand says of it: from a range that is not empty comes a number of that range.
pub record RngLaws (rng : Rng) : Type 0 where
  pub in_range :
      (seed : rng.Seed) (from to : ℕ)
      → from < to
      → (x : ℕ) × ((rng.gen_range seed from to).0 ≡ some x) × (from ≤ x) × (x < to)

abbrev pub base_ms : ℕ
base_ms = 500

abbrev pub cap_ms : ℕ
cap_ms = 30_000

abbrev pub range_multiplier : ℕ
range_multiplier = 3

pub data Retried : Type 0 where
  connected : Retried
  -- The attempts so far have failed.
  retrying : Retried
  panicked : Retried

module _ (rng : Rng) where
  unfoldable pub sleep_time : rng.Seed → (last_ms : ℕ) → Option ℕ × rng.Seed
  sleep_time seed last_ms =
      let (drawn, seed') = rng.gen_range seed base_ms (last_ms * range_multiplier) in
      (elim drawn [ none ↦ none | some x ↦ some (min cap_ms x) ], seed')

  -- The sleeps of the loop, and how it stands after the attempts.
  unfoldable pub retry : rng.Seed → (sleep_ms : ℕ) → List Bool → List ℕ × Retried
  retry seed sleep_ms [] = ([], retrying)
  retry seed sleep_ms (true ∷ attempts) = ([], connected)
  retry seed sleep_ms (false ∷ attempts) =
      let (slept, seed') = sleep_time seed sleep_ms in
      elim slept [
        | none ↦ ([], panicked)
        | some ms ↦ let (sleeps, end) = retry seed' ms attempts in (ms ∷ sleeps, end)
      ]

  -- With `delay_start` the first sleep comes before the first attempt.
  unfoldable pub retrying_connect : (delay_start : Bool) → rng.Seed → List Bool → List ℕ × Retried
  retrying_connect false seed attempts = retry seed base_ms attempts
  retrying_connect true seed attempts =
      let (slept, seed') = sleep_time seed base_ms in
      elim slept [
        | none ↦ ([], panicked)
        | some ms ↦ let (sleeps, end) = retry seed' ms attempts in (ms ∷ sleeps, end)
      ]

  -- A sleep after one of `last_ms`: it is a number that was drawn between half a second and three times
  -- the last sleep, cut off at half a minute.
  pub record IsBackoff (seed : rng.Seed) (last_ms ms : ℕ) : Type 0 where
    pub drawn : ℕ
    pub draws : (rng.gen_range seed 500 (last_ms * 3)).0 ≡ some drawn
    pub capped : ms ≡ min drawn 30_000
    pub least : 500 ≤ ms
    pub grows : ms < last_ms * 3

  -- The state of the random numbers after a draw.
  abbrev pub next_seed : rng.Seed → (last_ms : ℕ) → rng.Seed
  next_seed seed last_ms = (rng.gen_range seed 500 (last_ms * 3)).1

  -- A sleep for every attempt that fails before the first that succeeds, and no other, each drawn after the
  -- one before; then the loop has connected, or it goes on while every attempt fails.
  abbrev pub Backs : rng.Seed → (last_ms : ℕ) → List Bool → List ℕ → Retried → Type 0
  Backs seed last_ms [] [] end = end ≡ retrying
  Backs seed last_ms [] (ms ∷ sleeps) end = ⊥
  Backs seed last_ms (true ∷ attempts) [] end = end ≡ connected
  Backs seed last_ms (true ∷ attempts) (ms ∷ sleeps) end = ⊥
  Backs seed last_ms (false ∷ attempts) [] end = ⊥
  Backs seed last_ms (false ∷ attempts) (ms ∷ sleeps) end =
      IsBackoff seed last_ms ms × Backs (next_seed seed last_ms) ms attempts sleeps end

  -- A delayed start sleeps once more, before the first attempt.
  abbrev pub AreBackoffs : rng.Seed → (delay_start : Bool) → List Bool → List ℕ → Retried → Type 0
  AreBackoffs seed false attempts sleeps end = Backs seed 500 attempts sleeps end
  AreBackoffs seed true attempts [] end = ⊥
  AreBackoffs seed true attempts (ms ∷ sleeps) end =
      IsBackoff seed 500 ms × Backs (next_seed seed 500) ms attempts sleeps end

  sleep_time-IsBackoff :
      RngLaws rng
      → (seed : rng.Seed) (last_ms : ℕ) → 500 ≤ last_ms
      → (ms : ℕ) × ((sleep_time seed last_ms).0 ≡ some ms) × IsBackoff seed last_ms ms
  unfolding sleep_time
  sleep_time-IsBackoff laws seed last_ms high =
      let (x, e, low, below) =
        laws.in_range seed base_ms (last_ms * range_multiplier) (omega (arith, high)) in
      (
        min cap_ms x,
        rw e refl,
        record {
          drawn = x;
          draws = e;
          capped = omega arith;
          least = omega (arith, low);
          grows = omega (arith, below, high);
        },
      )

  retry-Backs :
      RngLaws rng
      → (seed : rng.Seed) (last_ms : ℕ) (attempts : List Bool) → 500 ≤ last_ms
      → let (sleeps, end) = retry seed last_ms attempts in Backs seed last_ms attempts sleeps end
  unfolding retry sleep_time
  retry-Backs laws seed last_ms [] high = refl
  retry-Backs laws seed last_ms (true ∷ attempts) high = refl
  retry-Backs laws seed last_ms (false ∷ attempts) high =
      let (ms, e, b) = sleep_time-IsBackoff laws seed last_ms high in
      rw (retry, e) (b, retry-Backs laws (sleep_time seed last_ms).1 ms attempts b.least)

  -- If random numbers come from their range: the draws never panic. There is a sleep for every attempt that
  -- fails before the first that succeeds, with which the loop ends, one more with a delayed start, and no
  -- other. Each is a number drawn between 500 and three times the sleep before, 500 for the first, and
  -- cut off at 30000 milliseconds; so it is at least 500 and below three times the sleep before.
  pub retrying_connect-AreBackoffs :
      RngLaws rng
      → (delay_start : Bool) (seed : rng.Seed) (attempts : List Bool)
      → let (sleeps, end) = retrying_connect delay_start seed attempts in
        AreBackoffs seed delay_start attempts sleeps end
  unfolding retrying_connect sleep_time
  retrying_connect-AreBackoffs laws false seed attempts =
      retry-Backs laws seed base_ms attempts (omega arith)
  retrying_connect-AreBackoffs laws true seed attempts =
      let (ms, e, b) = sleep_time-IsBackoff laws seed base_ms (omega arith) in
      rw (retrying_connect, e) (b, retry-Backs laws (sleep_time seed base_ms).1 ms attempts b.least)
