-- ===== src/Payments/Propose.antt =====
-- `create_payment_request` of agents/negotiator/tools/payment_tools.py.
pub mod Steps
pub mod Stored
pub mod Replay
use synaptica_web.Prelude.{
  pos, String, Bool, true, false, not, ◌&&◌, Option, none, some, [], ◌∷◌, ◌++◌,
}
use synaptica_web.Json.{Fields}
use synaptica_web.Payments.Contracts.{PaymentMode, offline, proposal, PaymentActionContext}
use synaptica_web.Payments.Errors.{
  integrity_error, payment_mode_error, value_error, Result, ok, err,
}
use synaptica_web.Payments.Db.{Db, Payment, TransitionState, find_payment}
use synaptica_web.Payments.Session.{
  Env, Action, pure, raise_if, or_raise, modify, new_uuid, ◌>>=◌, ◌>>◌, open_session, close_session,
  commit, rollback,
}
use synaptica_web.Payments.Service.{
  as_dict, get_existing_transition_by_task, get_completed_transition_result_by_task,
  ensure_payment_action_context, validate_payment_mode, record_transition,
}
use synaptica_web.Payments.Run.{check, unless_stored}
use synaptica_web.Payments.Context.{ActionPayload, build_action_context}
use synaptica_web.Payments.Messages.{A2AMessage, new_thread_id, publish_message}
use synaptica_web.Payments.Escrow.{env_int}
use synaptica_web.Payments.Settle.{lift}
use synaptica_web.Payments.Offer.{
  ProposalRequest, is_blank, to_evm, getenv_text, normalize_verifier_addresses, cut_approvals,
  Proposal, build_payment_proposal_message, proposed_payment, proposal_result,
}

-- `db.add(payment)` and the flush, which meets the primary key
unfoldable pub add_payment : Payment → Action (Unit {0})
add_payment payment w =
    let rest = modify (λ db. record db { payments = db.payments ++ payment ∷ [] }) w in
    elim (find_payment payment.id w.db) [ none ↦ rest | some p ↦ (err integrity_error, w) ]

abbrev pub is_offline : PaymentMode → Bool
is_offline offline = true
is_offline _ = false

-- the checks of the `try` block, and what it works out before it writes
unfoldable pub work_out : Env → ProposalRequest → PaymentActionContext → Action Proposal
work_out env request context = do
  check (validate_payment_mode env context.mode)
  raise_if (not (is_offline context.mode) && is_blank (getenv_text env "HEDERA_ACCOUNT_ID"))
      (payment_mode_error "HEDERA_ACCOUNT_ID")
  raise_if (is_blank request.to_hedera_account) (value_error "Payee Hedera account is required")
  worker_address ← to_evm env request.to_hedera_account
  verifiers ← normalize_verifier_addresses env
  approvals ← env_int env "TASK_ESCROW_DEFAULT_APPROVALS" (pos 1)
  payment_id ← new_uuid env
  marketplace_fee_bps ← env_int env "TASK_ESCROW_MARKETPLACE_FEE_BPS" (pos 0)
  verifier_fee_bps ← env_int env "TASK_ESCROW_VERIFIER_FEE_BPS" (pos 0)
  pure (record {
    payment_id = payment_id;
    thread_id = new_thread_id request.task_id payment_id;
    worker_address = worker_address;
    verifier_addresses = verifiers.0;
    treasury_address = verifiers.1;
    approvals_required = cut_approvals approvals verifiers.0;
    marketplace_fee_bps = marketplace_fee_bps;
    verifier_fee_bps = verifier_fee_bps;
  })

-- the writes of the `try` block
unfoldable pub write_proposal :
    Env → ProposalRequest → PaymentActionContext → Proposal → A2AMessage → Action Fields
write_proposal env request context p message = do
  add_payment (proposed_payment request context p message)
  record_transition p.payment_id request.task_id proposal context.idempotency_key
      TransitionState.completed (proposal_result request context p message) none
  publish_message env message ("payment" ∷ "proposal" ∷ [])
  (λ w. (ok tt, commit w))
  pure (proposal_result request context p message)

unfoldable pub propose_new : Env → ProposalRequest → PaymentActionContext → Action Fields
propose_new env request context = do
  p ← work_out env request context
  message ← build_payment_proposal_message env request p
  write_proposal env request context p message

-- the stored result that is returned at once, in whatever state its transition is
unfoldable pub existing_result : Db → String → String → Option Fields
existing_result db task_id key = elim (get_existing_transition_by_task db task_id proposal key) [
  | none ↦ none
  | some t ↦ as_dict t.result
]

-- the `except` clauses
unfoldable pub handle_proposal :
    ProposalRequest → PaymentActionContext → Result Fields → Action Fields
handle_proposal request context (ok result) w = (ok result, w)
handle_proposal request context (err integrity_error) w =
    or_raise integrity_error
      (get_completed_transition_result_by_task (rollback w).db request.task_id proposal
        context.idempotency_key)
      (rollback w)
handle_proposal request context (err e) w = (err e, rollback w)

-- the `try` statement, with its `finally: db.close()`
unfoldable pub propose_in_session : Env → ProposalRequest → PaymentActionContext → Action Fields
propose_in_session env request context w =
    let s = open_session w in
    let (r, w₁) =
      unless_stored (existing_result s.db request.task_id context.idempotency_key)
        (propose_new env request context) s in
    let (r', w₂) = handle_proposal request context r w₁ in (r', close_session w₂)

-- `create_payment_request`
unfoldable pub create_payment_request : Env → ProposalRequest → Option ActionPayload → Action Fields
create_payment_request env request payload = do
  context ← lift (build_action_context env none request.task_id proposal payload)
  check (ensure_payment_action_context context)
  propose_in_session env request context
