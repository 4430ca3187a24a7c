-- ===== src/Payments/Authorize/Reopens.antt =====
-- What `authorize_payment` (agents/negotiator/tools/payment_tools.py) leaves in the payment's row.
use synaptica_web.Prelude.{
  String, ◌≡◌, refl, sym, ap, ◌∙◌, subst, subst₂, Option, some, List, ◌⊎◌, inl, inr, find,
}
use synaptica_web.Json.{Json, Fields, put, str}
use synaptica_web.Payments.Contracts.{PaymentMode, authorize, authorized, PaymentActionContext}
use synaptica_web.Payments.Errors.{Result, ok}
use synaptica_web.Payments.Db.{Db, Payment, has_id, find_payment}
use synaptica_web.Payments.Db.Find.{map_option, find-update_self}
use synaptica_web.Payments.Session.{
  Env, World, Action, OnOk, OnOk-eq, OnOk-bind, OnOk-intro, open_session,
}
use synaptica_web.Payments.Session.Leaves.{Leaves, Leaves-part, leaves_rules}
use synaptica_web.Payments.Service.{get_completed_transition_result, ensure_payment_action_context}
use synaptica_web.Payments.Run.{check}
use synaptica_web.Payments.Run.Attempt.{IsRunner, checked}
use synaptica_web.Payments.Run.Returns.{Grounds, run_returned}
use synaptica_web.Payments.Context.{ActionPayload, build_action_context}
use synaptica_web.Payments.Messages.{A2AMessage, build_payment_authorized_message, publish_message}
use synaptica_web.Payments.Notify.{settled}
use synaptica_web.Payments.Receipts.{
  payment_row, assign, task_of_payment, worker_address, thread_of,
}
use synaptica_web.Payments.Settle.{lift}
use synaptica_web.Payments.Settle.Frame.{service_part}
use synaptica_web.Payments.Settle.Guards.{
  IsAuthorized, payment_row_found, task_committed, context_action,
}
use synaptica_web.Payments.Authorize.{
  payment_request, authorization, authorize_columns, authorized_meta, apply_authorization,
  authorize_runner, authorize_payment,
}
use synaptica_web.Payments.Authorize.Reads.{
  Reads, same_tables, authorization-Reads, worker_address-Reads, payment_row-Reads, message-Reads,
}

-- the payment is there and authorized
abbrev AuthorizedIn : String → Db → Type 0
AuthorizedIn payment_id db =
    (payment : Payment) × (find_payment payment_id db ≡ some payment)
    × (payment.status ≡ authorized)

module _ (env : Env) (payment_id : String) where
  apply_authorization-Authorized :
      (mode : PaymentMode) (payment row : Payment) (meta : Fields) (auth_id : String) (w : World)
      → find_payment payment_id w.db ≡ some row
      → OnOk
          (λ _ v. AuthorizedIn payment_id v.db)
          (apply_authorization env payment_id mode payment meta auth_id w)
  unfolding apply_authorization assign publish_message find_payment
  apply_authorization-Authorized mode payment row meta auth_id w found =
      OnOk-bind (λ _ v. AuthorizedIn payment_id v.db)
        (build_payment_authorized_message env (settled payment) payment.from_agent_id
          payment.to_agent_id (thread_of payment payment.meta) auth_id)
        _ _
        λ message u e.
          let f : Payment → Payment = λ r. record r {
            meta = authorized_meta mode (thread_of payment payment.meta) message meta;
          } in
          (
            f (authorize_columns auth_id row),
            find-update_self (has_id payment_id) f (λ _. refl) u.db.payments
                ∙ ap (λ (d : Db). map_option f (find (has_id payment_id) d.payments))
                    (same_tables (message-Reads env _ _ _ _ _) e).0
                ∙ ap (map_option f) (
                    find-update_self (has_id payment_id) (authorize_columns auth_id) (λ _. refl)
                      w.db.payments
                    ∙ ap (map_option (authorize_columns auth_id)) found),
            refl,
          )

  authorize_runner-Authorized :
      (mode : PaymentMode) (w : World)
      → OnOk (λ _ v. AuthorizedIn payment_id v.db) (authorize_runner env payment_id mode w)
  unfolding authorize_runner
  authorize_runner-Authorized mode w =
      let Q : Json → World → Type 0 = λ _ v. AuthorizedIn payment_id v.db in
      OnOk-bind Q (payment_row payment_id) _ w λ payment u e.
        OnOk-bind Q (worker_address env payment.meta) _ u λ address u₁ e₁.
          OnOk-bind Q
            (authorization env mode
              (payment_request payment address (put "worker_address" (str address) payment.meta)))
            _ u₁
            λ auth_id u₂ e₂. apply_authorization-Authorized mode payment payment _ auth_id u₂ (
              ap (find_payment payment_id) (
                (same_tables (authorization-Reads env mode _) e₂).0
                ∙ (same_tables (worker_address-Reads env payment.meta) e₁).0
                ∙ (same_tables (payment_row-Reads env payment_id) e).0)
              ∙ payment_row_found payment_id w e)

abbrev Serves : {A : Type 0} → Action A → Type 0
Serves m = Leaves service_part m

Reads-Serves : {A : Type 0} (m : Action A) → Reads m → Serves m
Reads-Serves m h = Leaves-part (λ (p : Db × Db). (p.1, p.0.transitions)) h

module _ (env : Env) (payment_id : String) where
  assign-Serves : (f : Payment → Payment) → Serves (assign payment_id f)
  unfolding assign
  assign-Serves f = record { at = λ w. refl }

  publish_message-Serves :
      (m : A2AMessage) (tags : List String) → Serves (publish_message env m tags)
  unfolding publish_message
  publish_message-Serves m tags = record { at = λ w. refl }

  apply_authorization-Serves :
      (mode : PaymentMode) (payment : Payment) (meta : Fields) (auth_id : String)
      → Serves (apply_authorization env payment_id mode payment meta auth_id)
  unfolding apply_authorization
  apply_authorization-Serves mode payment meta auth_id =
      search (leaves_rules, assign-Serves, publish_message-Serves, Reads-Serves, message-Reads)
        depth 9

  authorize_runner-Serves : (mode : PaymentMode) → Serves (authorize_runner env payment_id mode)
  unfolding authorize_runner
  authorize_runner-Serves mode =
      search
        (
          leaves_rules, Reads-Serves, payment_row-Reads, worker_address-Reads, authorization-Reads,
          apply_authorization-Serves,
        )
        depth 9

  authorize_runner-IsRunner : (mode : PaymentMode) → IsRunner (authorize_runner env payment_id mode)
  authorize_runner-IsRunner mode = record {
    commits = λ w. ap (λ p. p.0) ((authorize_runner-Serves mode).at w);
    transitions = λ w. ap (λ p. p.1) ((authorize_runner-Serves mode).at w);
  }

  -- An authorization that returns has returned a result that was stored before under a key of the
  -- payment, or has left the payment authorized, whatever its status was before.
  pub authorize_payment-IsAuthorized :
      (payload : Option ActionPayload) (w v : World) (result : Fields)
      → authorize_payment env payment_id payload w ≡ (ok result, v)
      → ((key : String) × (get_completed_transition_result w.committed payment_id authorize key
            ≡ some result))
        ⊎ IsAuthorized payment_id v
  unfolding authorize_payment find_payment
  authorize_payment-IsAuthorized payload w v result h = OnOk-eq Why _ h (
      OnOk-bind Why (task_of_payment payment_id) _ w λ task_id u e.
        OnOk-bind Why (lift (build_action_context env (some payment_id) task_id authorize payload))
          _ u
          λ context u₁ e₁.
            OnOk-bind Why (check (ensure_payment_action_context context)) _ u₁ λ _ u₂ e₂.
              let same : u₂.committed ≡ w.committed =
                ap (λ x. x.committed) (checked (ensure_payment_action_context context) e₂)
                ∙ ap (λ (p : Result PaymentActionContext × World). p.1.committed) (sym e₁)
                ∙ (task_committed payment_id w e).0 in
              let built =
                context_action env (some payment_id) task_id authorize payload {context = context}
                  (ap (λ (p : Result PaymentActionContext × World). p.0) e₁) in
              OnOk-intro Why _ λ r v' ran. why context u₂ same built.0 r v' (
                run_returned payment_id context (authorize_runner env payment_id context.mode) u₂
                  env (authorize_runner-IsRunner context.mode) ran))
    where
      Why : Fields → World → Type 0
      Why r v =
          ((key : String) × (get_completed_transition_result w.committed payment_id authorize key
              ≡ some r))
          ⊎ IsAuthorized payment_id v

      why :
          (context : PaymentActionContext) (u : World)
          → u.committed ≡ w.committed
          → context.action ≡ authorize
          → (r : Fields) (v : World)
          → Grounds payment_id context (authorize_runner env payment_id context.mode) u r v
          → Why r v
      why context u same is_authorize r v (inl stored) = inl (
        context.idempotency_key,
        subst₂
            (λ d a. get_completed_transition_result d payment_id a context.idempotency_key ≡ some r)
            same is_authorize stored,
      )
      why context u same is_authorize r v (inr (answer, u', ran, is_dict, ends)) = inr (
          subst (λ (d : Db). AuthorizedIn payment_id d) (sym ends)
            (OnOk-eq (λ _ v. AuthorizedIn payment_id v.db) _ ran
              (authorize_runner-Authorized env payment_id context.mode (open_session u))))
