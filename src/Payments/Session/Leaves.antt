-- ===== src/Payments/Session/Leaves.antt =====
-- What an action leaves alone, one rule for each way to build an action.
use synaptica_web.Prelude.{Bool, true, false, ◌≡◌, refl, sym, ap, ◌∙◌, Option, none, some}
use synaptica_web.Payments.Errors.{Error, Result, ok, err}
use synaptica_web.Payments.Session.{
  OnOk, OnOk-bind, World, Action, pure, raise, gets, or_raise, asks, raise_if, ◌>>=◌, continue,
}

-- a part of the state that the action does not change, whether it returns or raises
pub record Leaves {A B : Type 0} (part : World → B) (m : Action A) : Type 0 where
  pub at : (w : World) → part (m w).1 ≡ part w

module _ {A B : Type 0} {part : World → B} where
  pub Leaves-pure : (a : A) → Leaves part (pure a)
  Leaves-pure a = record { at = λ w. refl }

  pub Leaves-raise : (e : Error) → Leaves part (raise {A = A} e)
  Leaves-raise e = record { at = λ w. refl }

  pub Leaves-or_raise : (e : Error) (o : Option A) → Leaves part (or_raise e o)
  Leaves-or_raise e none = record { at = λ w. refl }
  Leaves-or_raise e (some a) = record { at = λ w. refl }

  pub Leaves-asks : (e : Error) (f : World → Option A) → Leaves part (asks e f)
  Leaves-asks e f = record { at = λ w. (Leaves-or_raise e (f w)).at w }

  pub Leaves-gets : (f : World → A) → Leaves part (gets f)
  Leaves-gets f = record { at = λ w. refl }

module _ {B : Type 0} {part : World → B} where
  pub Leaves-raise_if : (b : Bool) (e : Error) → Leaves part (raise_if b e)
  Leaves-raise_if true e = record { at = λ w. refl }
  Leaves-raise_if false e = record { at = λ w. refl }

module _ {A C B : Type 0} {part : World → B} where
  pub Leaves-bind :
      (m : Action A) (f : A → Action C)
      → Leaves part m
      → ((a : A) → Leaves part (f a))
      → Leaves part (m >>= f)
  Leaves-bind m f hm hf = record { at = λ w. by_result (m w) w (hm.at w) }
    where
      by_result :
          (r : Result A × World) (w : World)
          → part r.1 ≡ part w
          → part (continue r.0 f r.1).1 ≡ part w
      by_result (ok a, u) w h = (hf a).at u ∙ h
      by_result (err e, u) w h = h

-- a part of a part is left alone too
pub Leaves-part :
    {A B C : Type 0} {part : World → B} (f : B → C) {m : Action A}
    → Leaves part m
    → Leaves (λ w. f (part w)) m
Leaves-part f h = record { at = λ w. ap f (h.at w) }

pub ruleset leaves_rules = (
  Leaves-pure, Leaves-raise, Leaves-or_raise, Leaves-asks, Leaves-gets, Leaves-raise_if,
  Leaves-bind,
)

-- the rule for a bind whose first action leaves a part alone
pub OnOk-after :
    {A B C : Type 0} {part : World → C} (P : B → World → Type 0) (m : Action A) (f : A → Action B)
    (w : World)
    → Leaves part m
    → ((a : A) (u : World) → part u ≡ part w → OnOk P (f a u))
    → OnOk P ((m >>= f) w)
OnOk-after {part} P m f w kept next =
    OnOk-bind P m f w λ a u e. next a u (sym (ap (λ p. part p.1) e) ∙ kept.at w)
