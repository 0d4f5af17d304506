-- ===== src/App/Yields.antt =====
-- What holds of every value that a step gives.
use web3_proxy.Prelude.Outcomes.{Outcome, done, failed, panics}
use web3_proxy.Authorization.{RequestMetadata}
use web3_proxy.App.{AppError, Step, continue, ◌>>=◌}

abbrev pub Holds : {A : Type 0} → (A → Type 0) → Outcome AppError A → Type 0
Holds P (done a) = P a
Holds P (failed e) = Unit
Holds P panics = Unit

module _ {S : Type 0} where
  -- Whatever value the step gives has the property.
  pub record Yields {A : Type 0} (P : A → Type 0) (step : Step S A) : Type 0 where
    pub all : (s : S) (m : RequestMetadata) → Holds P (step s m).2

  continue-Holds :
      {A B : Type 0} (Q : A → Type 0) (P : B → Type 0) (f : A → Step S B)
      (x : S × RequestMetadata × Outcome AppError A)
      → Holds Q x.2
      → ((a : A) → Q a → Yields P (f a))
      → Holds P (continue f x).2
  continue-Holds Q P f (s, m, done a) h k = (k a h).all s m
  continue-Holds Q P f (s, m, failed e) h k = tt
  continue-Holds Q P f (s, m, panics) h k = tt

  pub >>=-Yields :
      {A B : Type 0} {Q : A → Type 0} {P : B → Type 0} {step : Step S A} {f : A → Step S B}
      → Yields Q step
      → ((a : A) → Q a → Yields P (f a))
      → Yields P (step >>= f)
  unfolding ◌>>=◌
  >>=-Yields {Q = Q} {P = P} {step = step} {f = f} y k = record {
    all = λ s m. continue-Holds Q P f (step s m) (y.all s m) k;
  }

  -- A step of which nothing is known.
  any_step : {A : Type 0} {step : Step S A} → Yields (λ a. Unit {0}) step
  any_step {step = step} = record { all = λ s m. trivial (step s m).2 }
    where
      trivial : {A : Type 0} (o : Outcome AppError A) → Holds (λ a. Unit {0}) o
      trivial (done a) = tt
      trivial (failed e) = tt
      trivial panics = tt

  -- After a step of which nothing is known.
  pub then_Yields :
      {A B : Type 0} {P : B → Type 0} (step : Step S A) {f : A → Step S B}
      → ((a : A) → Yields P (f a))
      → Yields P (step >>= f)
  then_Yields step k = >>=-Yields any_step (λ a u. k a)
