-- ===== src/App/Gas.antt =====
-- The increase of a gas estimate in `proxy_cached_request` of web3_proxy/src/app/mod.rs. A sum or a product past 256
-- bits is a panic, which is `none`.
use web3_proxy.Prelude.{
  ℕ, ◌+◌, ◌*◌, ◌/◌, ◌^◌, ◌≤◌, ◌<◌, max, ◌≡◌, ◌⊎◌, inl, inr, Bool-cases, ltb→lt, Option, none, some,
  arith, ltb, if◌then◌else◌,
}

abbrev pub or_zero : Option ℕ → ℕ
or_zero none = 0
or_zero (some n) = n

-- `gas_increase_percent` and `gas_increase_min` of the configuration.
unfoldable pub gas_increase : (percent min_increase : Option ℕ) → (gas_estimate : ℕ) → Option ℕ
gas_increase none min_increase gas_estimate = some (or_zero min_increase)
gas_increase (some percent) min_increase gas_estimate =
    if ltb (gas_estimate * percent) (2 ^ 256)
    then some (max (gas_estimate * percent / 100) (or_zero min_increase))
    else none

abbrev plus_increase : ℕ → Option ℕ → Option ℕ
plus_increase gas_estimate none = none
plus_increase gas_estimate (some increase) =
    if ltb (gas_estimate + increase) (2 ^ 256) then some (gas_estimate + increase) else none

unfoldable pub increased_gas : (percent min_increase : Option ℕ) → (gas_estimate : ℕ) → Option ℕ
increased_gas percent min_increase gas_estimate =
    plus_increase gas_estimate (gas_increase percent min_increase gas_estimate)

-- The increase is the greater one of the configured minimum and the percentage, rounded down.
pub record IsIncrease (percent min_increase gas_estimate increase : ℕ) : Type 0 where
  pub least : min_increase ≤ increase
  pub reached : gas_estimate * percent < (increase + 1) * 100
  pub tight : (increase ≡ min_increase) ⊎ (increase * 100 ≤ gas_estimate * percent)

-- If the estimate, the estimate times the percentage and the minimum stay below 2 ^ 255: there is no
-- panic, and the answer is the estimate and an increase that fits 256 bits. The increase is the greater one
-- of the configured minimum and the percentage of the estimate, which is rounded down.
pub increased_gas-IsIncrease :
    (percent min_increase gas_estimate : ℕ)
    → gas_estimate < 2 ^ 255
    → gas_estimate * percent < 2 ^ 255
    → min_increase < 2 ^ 255
    → (increase : ℕ) × (increased_gas (some percent) (some min_increase) gas_estimate
        ≡ some (gas_estimate + increase))
      × IsIncrease percent min_increase gas_estimate increase
      × (gas_estimate + increase < 2 ^ 256)
unfolding increased_gas gas_increase
increased_gas-IsIncrease percent min_increase gas_estimate hest hpercent hmin = (
  max (gas_estimate * percent / 100) min_increase,
  ground (arith, hest, hpercent, hmin),
  record { least = omega arith; reached = omega arith; tight = greater_cases },
  omega (arith, hest, hpercent, hmin),
)
  where
    greater_cases :
        (max (gas_estimate * percent / 100) min_increase ≡ min_increase)
        ⊎ (max (gas_estimate * percent / 100) min_increase * 100 ≤ gas_estimate * percent)
    greater_cases = elim (Bool-cases (ltb min_increase (gas_estimate * percent / 100))) [
      | inl lt ↦
          let lt' : min_increase < gas_estimate * percent / 100 = ltb→lt _ _ lt in
          inr (omega (arith, lt'))
      | inr ge ↦
          let ge' : gas_estimate * percent / 100 ≤ min_increase = ground (arith, ge) in
          inl (omega (arith, ge'))
    ]
