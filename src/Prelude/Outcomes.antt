-- ===== src/Prelude/Outcomes.antt =====
-- Code that may return an error and may also panic: `?` passes both on, a handler of errors sees
-- only the errors.
use mathlib.Core.Option.{Option, none, some}

pub data Outcome {ℓ} (E A : Type ℓ) : Type ℓ where
  done : A → Outcome E A
  failed : E → Outcome E A
  panics : Outcome E A

infixl 5 ◌>>=◌
abbrev pub ◌>>=◌ {ℓ} : {E A B : Type ℓ} → Outcome E A → (A → Outcome E B) → Outcome E B
done a >>= f = f a
failed e >>= f = failed e
panics >>= f = panics

-- The value of code that can panic and has no error.
abbrev pub or_panic {ℓ} : {E A : Type ℓ} → Option A → Outcome E A
or_panic (some a) = done a
or_panic none = panics

abbrev pub or_fail {ℓ} : {E A : Type ℓ} → Option A → E → Outcome E A
or_fail (some a) e = done a
or_fail none e = failed e
