-- ===== src/Prelude/Results.antt =====
-- Fallible code: a result with an error type, its bind, and `Context::context`.
use mathlib.Core.Path.{◌≡◌, refl}
use mathlib.Core.Option.{Option, none, some}

pub data Result {ℓ} (E A : Type ℓ) : Type ℓ where
  err : E → Result E A
  ok : A → Result E A

infixl 5 ◌>>=◌
abbrev pub ◌>>=◌ {ℓ} : {E A B : Type ℓ} → Result E A → (A → Result E B) → Result E B
err failure >>= next = err failure
ok value >>= next = next value

-- `Option::context`: the missing value becomes the given error.
abbrev pub context {ℓ} : {E A : Type ℓ} → Option A → E → Result E A
context (some a) e = ok a
context none e = err e

-- When a chain gives a value, its first step gave one, and the rest goes on from there.
pub >>=-eq-ok {ℓ} :
    {E A B : Type ℓ} (step : Result E A) (next : A → Result E B) {final : B}
    → (step >>= next) ≡ ok final
    → (mid : A) × (step ≡ ok mid) × (next mid ≡ ok final)
>>=-eq-ok (err failure) next made = cc
>>=-eq-ok (ok mid) next made = (mid, refl, made)

pub context-eq-ok {ℓ} :
    {E A : Type ℓ} (o : Option A) (e : E) {a : A} → context o e ≡ ok a → o ≡ some a
context-eq-ok (some b) e h = cc
context-eq-ok none e h = cc
