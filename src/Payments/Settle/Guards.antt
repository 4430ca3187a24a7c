-- ===== src/Payments/Settle/Guards.antt =====
-- When `release_payment` and `reject_and_refund` (agents/verifier/tools/payment_tools.py) go through,
-- and what they never do.
use synaptica_web.Prelude.{
  String, Bool, true, false, ◌≡◌, refl, sym, ap, ◌∙◌, subst, subst₂, Option, none, some, ◌⊎◌, inl,
  inr, arith, not,
}
use synaptica_web.Json.{Json, Fields}
use synaptica_web.Payments.Contracts.{
  PaymentMode, PaymentAction, release, PaymentStatus, pending, authorized, completed, failed,
  refunded, same_status, PaymentActionContext,
}
use synaptica_web.Payments.Errors.{value_error, other_error, Result, ok, err}
use synaptica_web.Payments.Db.{Payment, find_payment}
use synaptica_web.Payments.Session.{
  Env, World, raise_if, asks, open_session, OnOk, OnOk-intro, OnOk-eq, OnOk-bind,
}
use synaptica_web.Payments.Service.{get_payment_mode, get_completed_transition_result}
use synaptica_web.Payments.Run.Returns.{Grounds, run_returned}
use synaptica_web.Payments.Context.{ActionPayload, build_action_context, context_in_mode}
use synaptica_web.Payments.Notify.{released}
use synaptica_web.Payments.Receipts.{payment_row, task_of_payment}
use synaptica_web.Payments.Settle.{lift, settle_row, settle_runner, settle, release_payment}
use synaptica_web.Payments.Settle.Frame.{settle_runner-IsRunner}

same_status_eq : (a b : PaymentStatus) → same_status a b ≡ true → a ≡ b
same_status_eq pending pending h = refl
same_status_eq authorized authorized h = refl
same_status_eq completed completed h = refl
same_status_eq failed failed h = refl
same_status_eq refunded refunded h = refl
same_status_eq pending b h = cc
same_status_eq authorized b h = cc
same_status_eq completed b h = cc
same_status_eq failed b h = cc
same_status_eq refunded b h = cc

pub payment_row_found :
    (payment_id : String) (w : World) {payment : Payment} {u : World}
    → payment_row payment_id w ≡ (ok payment, u)
    → find_payment payment_id w.db ≡ some payment
unfolding payment_row
payment_row_found payment_id w h = by_payment (find_payment payment_id w.db) h
  where
    by_payment :
        (o : Option Payment) {payment : Payment} {u : World}
        → asks {A = Payment} (other_error "NoResultFound") (λ _. o) w ≡ (ok payment, u)
        → o ≡ some payment
    by_payment none e = absurd (ground arith)
    by_payment (some p) e = ground arith

guard_passed :
    (notes : String) (payment : Payment) (w : World) {r : Unit {0}} {u : World}
    → raise_if (not (same_status payment.status authorized)) (value_error "not authorized") w
      ≡ (ok r, u)
    → payment.status ≡ authorized
guard_passed notes payment w h =
    same_status_eq payment.status authorized (by_test (same_status payment.status authorized) h)
  where
    by_test :
        (b : Bool) {r : Unit {0}} {u : World}
        → raise_if (not b) (value_error "not authorized") w ≡ (ok r, u)
        → b ≡ true
    by_test true e = refl
    by_test false e = absurd (ground arith)

-- the payment is there and authorized
abbrev pub IsAuthorized : String → World → Type 0
IsAuthorized payment_id w =
    (payment : Payment) × (find_payment payment_id w.committed ≡ some payment)
    × (payment.status ≡ authorized)

module _ (env : Env) (payment_id : String) where
  runner-IsAuthorized :
      (mode : PaymentMode) (notes : String) (w : World)
      → w.db ≡ w.committed
      → OnOk
          (λ _ _. IsAuthorized payment_id w)
          (settle_runner env payment_id mode (released notes) w)
  unfolding settle_runner
  runner-IsAuthorized mode notes w same =
      OnOk-bind (λ _ _. IsAuthorized payment_id w) (payment_row payment_id) _ w
        λ payment u e.
          OnOk-bind (λ _ _. IsAuthorized payment_id w)
            (raise_if (not (same_status payment.status authorized)) (value_error "not authorized"))
            _ u
            λ _ u' e'. whatever (settle_row env payment_id mode (released notes) payment u') (
              payment,
              subst (λ d. find_payment payment_id d ≡ some payment) same
                  (payment_row_found payment_id w e),
              guard_passed notes payment u e',
            )
    where
      whatever :
          (r : Result Json × World)
          → IsAuthorized payment_id w
          → OnOk (λ _ _. IsAuthorized payment_id w) r
      whatever (ok answer, v) h = h
      whatever (err x, v) h = tt

pub task_committed :
    (payment_id : String) (w : World) {r : Result String} {u : World}
    → task_of_payment payment_id w ≡ (r, u)
    → (u.committed ≡ w.committed) × (u.calls ≡ w.calls)
unfolding task_of_payment
task_committed payment_id w h = (ground arith, ground arith)

pub context_action :
    (env : Env) (payment_id : Option String) (task_id : String) (action : PaymentAction)
    (payload : Option ActionPayload) {context : PaymentActionContext}
    → build_action_context env payment_id task_id action payload ≡ ok context
    → (context.action ≡ action) × (get_payment_mode env ≡ some context.mode)
unfolding build_action_context context_in_mode
context_action env payment_id task_id action none h = (ground arith, ground arith)
context_action env payment_id task_id action (some payload) h = (ground arith, ground arith)

module _ (env : Env) (payment_id : String) where
  -- A release returns only if its payment is authorized, or if its result is stored under a key
  -- of the payment already.
  pub release-IsAuthorized :
      (notes : String) (payload : Option ActionPayload) (w v : World) (result : Fields)
      → release_payment env payment_id notes payload w ≡ (ok result, v)
      → ((key : String) × (get_completed_transition_result w.committed payment_id release key
            ≡ some result))
        ⊎ IsAuthorized payment_id w
  unfolding release_payment settle
  release-IsAuthorized notes payload w v result h = OnOk-eq Why _ h (
      OnOk-bind Why (task_of_payment payment_id) _ w λ task_id u e.
        OnOk-bind Why (lift (build_action_context env (some payment_id) task_id release payload)) _
          u
          λ context u' e'.
            let same : u'.committed ≡ w.committed =
              ap (λ (p : Result PaymentActionContext × World). p.1.committed) (sym e')
              ∙ (task_committed payment_id w e).0 in
            let built =
              context_action env (some payment_id) task_id release payload {context = context}
                (ap (λ (p : Result PaymentActionContext × World). p.0) e') in
            OnOk-intro Why _ λ r v' ran. why context u' same built.0 r v' (
              run_returned payment_id context
                (settle_runner env payment_id context.mode (released notes)) u' env
                (settle_runner-IsRunner env payment_id context.mode (released notes)) ran))
    where
      Why : Fields → World → Type 0
      Why r _ =
          ((key : String) × (get_completed_transition_result w.committed payment_id release key
              ≡ some r))
          ⊎ IsAuthorized payment_id w

      why :
          (context : PaymentActionContext) (u : World)
          → u.committed ≡ w.committed
          → context.action ≡ release
          → (r : Fields) (v : World)
          → Grounds payment_id context
              (settle_runner env payment_id context.mode (released notes))
              u
              r
              v
          → Why r u
      why context u same is_release r v (inl stored) = inl (
        context.idempotency_key,
        subst₂
            (λ d a. get_completed_transition_result d payment_id a context.idempotency_key ≡ some r)
            same is_release stored,
      )
      why context u same is_release r v (inr (answer, u', ran, is_dict, ends)) = inr (
          subst
            (λ d.
              (payment : Payment) × (find_payment payment_id d ≡ some payment)
              × (payment.status ≡ authorized))
            same
            (OnOk-eq (λ _ _. IsAuthorized payment_id (open_session u)) _ ran
              (runner-IsAuthorized env payment_id context.mode notes (open_session u) refl)))
