-- ===== src/Payments/Session/Yields.antt =====
-- What holds of the value of an action, if it returns, one rule for each way to build an action.
use synaptica_web.Prelude.{Bool, true, false, ◌≡◌, refl, Option, none, some}
use synaptica_web.Payments.Errors.{Error, Result, ok, err}
use synaptica_web.Payments.Session.{
  World, Action, pure, or_raise, raise_if, ◌>>=◌, continue, OnOk, OnOk-eq,
}

pub record Yields {A : Type 0} (P : A → Type 0) (m : Action A) : Type 0 where
  pub at : (w : World) → OnOk (λ a _. P a) (m w)

module _ {A : Type 0} {P : A → Type 0} where
  pub Yields-pure : {a : A} → P a → Yields P (pure a)
  Yields-pure h = record { at = λ w. h }

  pub Yields-or_raise :
      (e : Error) (o : Option A) → ((a : A) → o ≡ some a → P a) → Yields P (or_raise e o)
  Yields-or_raise e none h = record { at = λ w. tt }
  Yields-or_raise e (some a) h = record { at = λ w. h a refl }

  pub Yields-eq : {m : Action A} {w u : World} {a : A} → Yields P m → m w ≡ (ok a, u) → P a
  Yields-eq {m} {w} h e = OnOk-eq (λ a _. P a) (m w) e (h.at w)

-- nothing is asked of the value
pub Yields-any : {A : Type 0} (m : Action A) → Yields (λ _. Unit {0}) m
Yields-any {A} m = record { at = λ w. any_result (m w) }
  where
    any_result : (r : Result A × World) → OnOk (λ _ _. Unit {0}) r
    any_result (ok a, u) = tt
    any_result (err e, u) = tt

pub Yields-raise_if : (b : Bool) (e : Error) → Yields (λ _. b ≡ false) (raise_if b e)
Yields-raise_if true e = record { at = λ w. tt }
Yields-raise_if false e = record { at = λ w. refl }

module _ {A B : Type 0} {P : A → Type 0} {Q : B → Type 0} where
  pub Yields-bind :
      {m : Action A} {f : A → Action B}
      → Yields P m
      → ((a : A) → P a → Yields Q (f a))
      → Yields Q (m >>= f)
  Yields-bind {m} {f} hm hf = record { at = λ w. by_result (m w) (hm.at w) }
    where
      by_result :
          (r : Result A × World) → OnOk (λ a _. P a) r → OnOk (λ b _. Q b) (continue r.0 f r.1)
      by_result (ok a, u) h = (hf a h).at u
      by_result (err e, u) h = tt
