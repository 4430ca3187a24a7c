-- ===== src/Payments/Propose/Replay.antt =====
-- Retries of `create_payment_request` (agents/negotiator/tools/payment_tools.py).
use synaptica_web.Prelude.{
  String, ◌≡◌, refl, sym, ap, ◌∙◌, Option, none, some, List, [], ◌∷◌, ◌⊎◌, inl, inr, find, arith,
}
use synaptica_web.Json.{Fields}
use synaptica_web.Security.{redact_fields}
use synaptica_web.Payments.Contracts.{proposal, PaymentActionContext}
use synaptica_web.Payments.Errors.{
  payment_mode_error, payment_conflict_error, sensitive_payload_error, value_error, other_error,
  payment_mode_error, value_error, Error, integrity_error, Result, ok, err,
}
use synaptica_web.Payments.Db.{Db, Transition}
use synaptica_web.Payments.Session.{
  Env, World, Action, or_raise, OnOk, OnOk-eq, OnOk-bind, open_session, close_session, rollback,
  ◌>>=◌, ◌>>◌,
}
use synaptica_web.Payments.Session.Leaves.{OnOk-after}
use synaptica_web.Payments.Service.{
  as_dict, get_existing_transition_by_task, get_completed_transition_result_by_task,
  completed_transition_result, ensure_payment_action_context,
}
use synaptica_web.Payments.Run.{check, unless_stored}
use synaptica_web.Payments.Context.{ActionPayload, build_action_context}
use synaptica_web.Payments.Settle.{lift}
use synaptica_web.Payments.Offer.{ProposalRequest, Proposal, build_payment_proposal_message}
use synaptica_web.Payments.Propose.{
  work_out, propose_new, existing_result, handle_proposal, propose_in_session,
  create_payment_request,
}
use synaptica_web.Payments.Propose.Steps.{
  session_rows, work_out-session_rows, message-session_rows, work_out-IsNamed,
}
use synaptica_web.Payments.Propose.Stored.{IsFresh, Stores, write_proposal-Stores}
use synaptica_web.Prelude.{subst₂, ◌==◌}

-- no stored transition is of the payment
abbrev pub HasNoTransition : String → List Transition → Type 0
HasNoTransition payment_id rows = find (λ t. t.payment_id == payment_id) rows ≡ none

HasNoTransition-IsFresh :
    (payment_id key : String) (rows : List Transition)
    → HasNoTransition payment_id rows
    → IsFresh payment_id key rows
unfolding find
HasNoTransition-IsFresh payment_id key [] h = refl
HasNoTransition-IsFresh payment_id key (t ∷ rows) h =
    ground (arith, HasNoTransition-IsFresh payment_id key rows)

completed-existing :
    (db : Db) (task_id key : String) (r : Fields)
    → get_completed_transition_result_by_task db task_id proposal key ≡ some r
    → existing_result db task_id key ≡ some r
unfolding get_completed_transition_result_by_task completed_transition_result existing_result
completed-existing db task_id key r h =
    by_row (get_existing_transition_by_task db task_id proposal key) h
  where
    by_row :
        (o : Option Transition)
        → completed_transition_result o ≡ some r
        → elim o as (λ _. Option Fields) [ none ↦ none | some t ↦ as_dict t.result ] ≡ some r
    by_row none h = absurd (ground arith)
    by_row (some t) h = ground arith

module _ (env : Env) (request : ProposalRequest) (context : PaymentActionContext) where
  propose_new-Stores :
      (w : World)
      → IsFresh (env.uuid4 w.uuids) context.idempotency_key w.db.transitions
      → OnOk (Stores env request context) (propose_new env request context w)
  unfolding propose_new
  propose_new-Stores w fresh =
      OnOk-bind (Stores env request context) (work_out env request context) _ w λ p u e.
        OnOk-after {part = session_rows} (Stores env request context)
          (build_payment_proposal_message env request p) _ u
          (message-session_rows env request context p)
          λ message u₁ same. write_proposal-Stores env request context p message u₁ (
            subst₂ (λ id rows. IsFresh id context.idempotency_key rows)
              (sym (
                OnOk-eq (λ p _. p.payment_id ≡ env.uuid4 w.uuids) _ e
                  ((work_out-IsNamed env request context).at w)))
              (sym (
                same
                ∙ sym (ap (λ (x : Result Proposal × World). session_rows x.1) e)
                ∙ (work_out-session_rows env request context).at w))
              fresh)

  -- what the `except` clauses answer is stored
  handle-Stores :
      (r : Result Fields × World)
      → OnOk (Stores env request context) r
      → OnOk (Stores env request context) (handle_proposal request context r.0 r.1)
  unfolding handle_proposal
  handle-Stores (ok result, u) h = h
  handle-Stores (err integrity_error, u) h =
      by_stored
        (get_completed_transition_result_by_task u.committed request.task_id proposal
          context.idempotency_key)
        (completed-existing u.committed request.task_id context.idempotency_key)
    where
      by_stored :
          (o : Option Fields)
          → ((r : Fields)
              → o ≡ some r
              → existing_result u.committed request.task_id context.idempotency_key ≡ some r)
          → OnOk (Stores env request context) (or_raise integrity_error o (rollback u))
      by_stored none found = tt
      by_stored (some r) found = inl (found r refl)
  handle-Stores (err (payment_mode_error x), u) h = tt
  handle-Stores (err (payment_conflict_error x), u) h = tt
  handle-Stores (err (sensitive_payload_error x), u) h = tt
  handle-Stores (err (value_error x), u) h = tt
  handle-Stores (err (other_error x), u) h = tt

  -- and the session is closed
  abbrev Closes : Fields → World → Type 0
  Closes result v = Stores env request context result v × (v.db ≡ v.committed)

  session-Closes :
      (w : World)
      → IsFresh (env.uuid4 w.uuids) context.idempotency_key w.committed.transitions
      → OnOk Closes (propose_in_session env request context w)
  unfolding propose_in_session
  session-Closes w fresh =
      by_stored (existing_result w.committed request.task_id context.idempotency_key) refl
    where
      closed :
          (r : Result Fields × World)
          → OnOk (Stores env request context) r
          → OnOk Closes (r.0, close_session r.1)
      closed (ok result, v) h = (h, refl)
      closed (err e, v) h = tt

      by_stored :
          (o : Option Fields)
          → existing_result w.committed request.task_id context.idempotency_key ≡ o
          → OnOk Closes (
              let (r, w₁) = unless_stored o (propose_new env request context) (open_session w) in
              let (r', w₂) = handle_proposal request context r w₁ in (r', close_session w₂))
      by_stored none e = closed _ (
          handle-Stores (propose_new env request context (open_session w))
            (propose_new-Stores (open_session w) fresh))
      by_stored (some r) e = closed _ (handle-Stores (ok r, open_session w) (inl e))

  session_again :
      (v : World) (r : Fields)
      → existing_result v.committed request.task_id context.idempotency_key ≡ some r
      → v.db ≡ v.committed
      → propose_in_session env request context v ≡ (ok r, v)
  unfolding propose_in_session handle_proposal
  session_again v r found closed = rw found (λ i. (ok r, record v { db = sym closed i }))

-- the context of a call that returned is built and checked again
context_again :
    (o : Result PaymentActionContext) (m : PaymentActionContext → Action Fields) (w : World)
    {r : Fields} {v : World}
    → (lift o >>= λ c. check (ensure_payment_action_context c) >> m c) w ≡ (ok r, v)
    → (c : PaymentActionContext) × (m c w ≡ (ok r, v))
      × ((w' : World)
          → (lift o >>= λ c. check (ensure_payment_action_context c) >> m c) w' ≡ m c w')
context_again (err e) m w h = absurd (ground arith)
context_again (ok c) m w {r} {v} h =
    let (ran, again) = passed (ensure_payment_action_context c) h in (c, ran, again)
  where
    passed :
        (o : Option Error)
        → (check o >> m c) w ≡ (ok r, v)
        → (m c w ≡ (ok r, v)) × ((w' : World) → (check o >> m c) w' ≡ m c w')
    passed none e = (e, λ w'. refl)
    passed (some x) e = absurd (ground arith)

module _ (env : Env) where
  -- Asking once more for a payment that was proposed, in the same words, returns the first answer
  -- as it is or redacted and changes nothing: no second payment, no second proposal message. The
  -- uuid that the first call may draw must not be the payment of a stored transition.
  pub create_payment_request_replay :
      (request : ProposalRequest) (payload : Option ActionPayload) (w v : World) (result : Fields)
      → HasNoTransition (env.uuid4 w.uuids) w.committed.transitions
      → create_payment_request env request payload w ≡ (ok result, v)
      → (r : Fields) × (create_payment_request env request payload v ≡ (ok r, v))
        × ((r ≡ result) ⊎ (r ≡ redact_fields result))
  unfolding create_payment_request
  create_payment_request_replay request payload w v result unused h =
      let (context, ran, again) =
        context_again (build_action_context env none request.task_id proposal payload)
          (propose_in_session env request) w h in
      let (stores, closed) = OnOk-eq (Closes env request context) _ ran (
        session-Closes env request context w (
          HasNoTransition-IsFresh (env.uuid4 w.uuids) context.idempotency_key
            w.committed.transitions unused)) in
      elim stores [
        | inl e ↦ (result, again v ∙ session_again env request context v result e closed, inl refl)
        | inr e ↦ (
          redact_fields result,
          again v ∙ session_again env request context v (redact_fields result) e closed,
          inr refl,
        )
      ]
