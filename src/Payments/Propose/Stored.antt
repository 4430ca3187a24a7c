-- ===== src/Payments/Propose/Stored.antt =====
-- The writes of `create_payment_request` (agents/negotiator/tools/payment_tools.py) store its result.
use synaptica_web.Prelude.{
  String, ◌≡◌, refl, sym, ap, ◌∙◌, subst, none, some, List, [], ◌∷◌, ◌++◌, ◌⊎◌, inl, inr, find,
  arith, Option-cases, eq_refl,
}
use synaptica_web.Json.{Fields, obj}
use synaptica_web.Security.{redact_sensitive_payload, redact_fields}
use synaptica_web.Payments.Contracts.{proposal, PaymentActionContext}
use synaptica_web.Payments.Errors.{ok}
use synaptica_web.Payments.Db.{Db, Payment, Transition, TransitionState, by_payment, by_task}
use synaptica_web.Payments.Db.Find.{find-append_none}
use synaptica_web.Payments.Session.{Env, World, OnOk, OnOk-bind}
use synaptica_web.Payments.Session.Leaves.{Leaves, OnOk-after}
use synaptica_web.Payments.Service.{
  get_existing_transition_by_task, transitions_after, new_transition, record_transition,
}
use synaptica_web.Payments.Messages.{A2AMessage, publish_message}
use synaptica_web.Payments.Offer.{ProposalRequest, Proposal, proposal_result, proposed_payment}
use synaptica_web.Payments.Propose.{add_payment, write_proposal, existing_result}
use synaptica_web.Payments.Propose.Steps.{session_rows}

-- no row of transitions names the payment and the key
abbrev pub IsFresh : String → String → List Transition → Type 0
IsFresh payment_id key rows = find (by_payment payment_id proposal key) rows ≡ none

module _ (task_id key : String) where
  -- the result, as it is or redacted, is found for the task and the key
  abbrev pub StoredIn : Fields → Db → Type 0
  StoredIn result db =
      (existing_result db task_id key ≡ some result)
      ⊎ (existing_result db task_id key ≡ some (redact_fields result))

  record_transition-StoredIn :
      (payment_id : String) (result : Fields) (w : World) {v : World}
      → IsFresh payment_id key w.db.transitions
      → record_transition payment_id task_id proposal key TransitionState.completed result none w
        ≡ (ok tt, v)
      → existing_result v.db task_id key ≡ some (redact_fields result)
  unfolding record_transition transitions_after existing_result get_existing_transition_by_task
      redact_sensitive_payload
  record_transition-StoredIn payment_id result w {v} fresh h =
      elim (Option-cases (find (by_task task_id proposal key) w.db.transitions)) [
        | inr (t, e) ↦ absurd (ground arith)
        | inl e ↦
            let new : Transition =
              new_transition payment_id task_id proposal key TransitionState.completed
                (redact_sensitive_payload (obj result)) none in
            let same : v.db.transitions ≡ w.db.transitions ++ new ∷ [] = ground arith in
            let found : find (by_task task_id proposal key) v.db.transitions ≡ some new =
              ap (find (by_task task_id proposal key)) same
              ∙ find-append_none (by_task task_id proposal key) w.db.transitions new e
              ∙ rw (eq_refl task_id, eq_refl key) refl in
            ground (arith, found)
      ]

-- what a stored answer needs of the transitions
existing_alike :
    (task_id key : String) (d e : Db)
    → d.transitions ≡ e.transitions
    → existing_result d task_id key ≡ existing_result e task_id key
unfolding existing_result get_existing_transition_by_task
existing_alike task_id key d e same =
    ap (λ rows. existing_result (record d { transitions = rows }) task_id key) same

module _ (env : Env) (request : ProposalRequest) (context : PaymentActionContext) where
  -- the answer is stored, and the session sees what is committed
  abbrev pub Stores : Fields → World → Type 0
  Stores result v = StoredIn request.task_id context.idempotency_key result v.committed

  add_payment-session_rows : (payment : Payment) → Leaves session_rows (add_payment payment)
  unfolding add_payment
  add_payment-session_rows payment = record { at = λ w. ground arith }

  publish_message-session_rows :
      (m : A2AMessage) (tags : List String) → Leaves session_rows (publish_message env m tags)
  unfolding publish_message
  publish_message-session_rows m tags = record { at = λ w. refl }

  pub write_proposal-Stores :
      (p : Proposal) (message : A2AMessage) (w : World)
      → IsFresh p.payment_id context.idempotency_key w.db.transitions
      → OnOk Stores (write_proposal env request context p message w)
  unfolding write_proposal
  write_proposal-Stores p message w fresh =
      let result = proposal_result request context p message in
      OnOk-after {part = session_rows} Stores
        (add_payment (proposed_payment request context p message)) _ w (add_payment-session_rows _)
        λ _ u same.
          OnOk-bind Stores
            (record_transition p.payment_id request.task_id proposal context.idempotency_key
              TransitionState.completed result none)
            _ u
            λ _ u₁ e₁.
              OnOk-after {part = session_rows} Stores
                (publish_message env message ("payment" ∷ "proposal" ∷ [])) _ u₁
                (publish_message-session_rows _ _)
                λ _ u₂ same₂. inr (
                  existing_alike request.task_id context.idempotency_key u₂.db u₁.db same₂
                  ∙ record_transition-StoredIn request.task_id context.idempotency_key p.payment_id
                      result u
                      (subst (IsFresh p.payment_id context.idempotency_key) (sym same) fresh) e₁)
