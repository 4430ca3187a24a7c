-- ===== src/Payments/Tests/Proposals.antt =====
-- Runs of the negotiator's payment tools, and the theorems about them there.
use synaptica_web.Prelude.{String, none, some, [], ◌≡◌, refl, ◌⊎◌, find, any}
use synaptica_web.Text.{lower, strip}
use synaptica_web.Json.{to_int, Fields, end, get, put}
use synaptica_web.Security.{
  assert_no_sensitive_payload, redact_sensitive_payload, redact_fields, is_secret_name,
  looks_like_secret_key,
}
use synaptica_web.Payments.Contracts.{completed, authorize, to_payment_mode}
use synaptica_web.Payments.Errors.{Result, ok, err}
use synaptica_web.Payments.Db.{find_payment, update}
use synaptica_web.Payments.Session.{World, new_uuid, now}
use synaptica_web.Payments.Service.{
  validate_payment_mode, ensure_payment_action_context, ensure_no_terminal_conflict,
  transitions_after, record_transition, model_dump, get_payment_mode,
  get_completed_transition_result, completed_transition_result, get_existing_transition,
  get_existing_transition_by_task,
}
use synaptica_web.Payments.Run.{
  run_idempotent_payment_action, run_in_session, try_block, run_new, handle, payment_or_raise,
}
use synaptica_web.Payments.Context.{build_idempotency_key, build_action_context, context_in_mode}
use synaptica_web.Payments.Messages.{
  new_message, new_thread_id, to_dict, publish_message, build_payment_authorized_message,
}
use synaptica_web.Payments.Escrow.{get_text, load, open_x402, send_transaction, escrow_key}
use synaptica_web.Payments.Escrow.Create.{
  PaymentRequest, checksum_verifiers, verifiers_or, iterated, resolve_verifiers,
  resolve_worker_address, clamp_approvals, resolve_approvals, resolve_fee_configuration, check_wei,
  to_wei, resolve_terms, create_payment, authorize_with_x402,
}
use synaptica_web.Payments.Escrow.Funded.{Funded, authorize_with_x402-Funded}
use synaptica_web.Payments.Receipts.{payment_row, assign, task_of_payment, worker_address}
use synaptica_web.Payments.Settle.Guards.{IsAuthorized}
use synaptica_web.Payments.Authorize.{
  authorization, apply_authorization, authorize_runner, authorize_payment, payment_request,
}
use synaptica_web.Payments.Authorize.Reopens.{authorize_payment-IsAuthorized}
use synaptica_web.Payments.Offer.{
  ProposalRequest, split_commas, evm_addresses, normalize_verifier_addresses,
  build_payment_proposal_message,
}
use synaptica_web.Payments.Propose.{
  add_payment, work_out, write_proposal, propose_new, existing_result, handle_proposal,
  propose_in_session, create_payment_request,
}
use synaptica_web.Payments.Propose.Replay.{HasNoTransition, create_payment_request_replay}
use synaptica_web.Payments.Tests.Data.{offline_env, mining_env, payment_in, tables, world}

abbrev answer_of : Result Fields → Fields
answer_of (ok fs) = fs
answer_of (err e) = end

-- a completed payment, authorized once more
abbrev authorized_again : Result Fields × World
unfolding authorize_payment task_of_payment run_idempotent_payment_action run_in_session try_block
    payment_or_raise get_completed_transition_result completed_transition_result
    get_existing_transition handle run_new ensure_no_terminal_conflict authorize_runner payment_row
    worker_address get_text authorization apply_authorization assign
    build_payment_authorized_message ensure_payment_action_context model_dump
    assert_no_sensitive_payload is_secret_name looks_like_secret_key validate_payment_mode
    get_payment_mode to_payment_mode lower strip build_action_context context_in_mode
    build_idempotency_key any find update put get new_uuid now new_message to_dict new_thread_id
    publish_message record_transition transitions_after redact_sensitive_payload find_payment
authorized_again = authorize_payment offline_env "p1" none (world completed)

authorizes :
    authorize_payment offline_env "p1" none (world completed)
    ≡ (ok (answer_of authorized_again.0), authorized_again.1)
unfolding authorize_payment task_of_payment run_idempotent_payment_action run_in_session try_block
    payment_or_raise get_completed_transition_result completed_transition_result
    get_existing_transition handle run_new ensure_no_terminal_conflict authorize_runner payment_row
    worker_address get_text authorization apply_authorization assign
    build_payment_authorized_message ensure_payment_action_context model_dump
    assert_no_sensitive_payload is_secret_name looks_like_secret_key validate_payment_mode
    get_payment_mode to_payment_mode lower strip build_action_context context_in_mode
    build_idempotency_key any find update put get new_uuid now new_message to_dict new_thread_id
    publish_message record_transition transitions_after redact_sensitive_payload find_payment
authorizes = refl

authorize_payment-IsAuthorized_example :
    ((key : String) × (get_completed_transition_result (tables completed) "p1" authorize key
        ≡ some (answer_of authorized_again.0)))
    ⊎ IsAuthorized "p1" authorized_again.1
authorize_payment-IsAuthorized_example =
    authorize_payment-IsAuthorized offline_env "p1" none (world completed) authorized_again.1
      (answer_of authorized_again.0) authorizes

abbrev request : PaymentRequest
request = payment_request (payment_in completed) "0xabc" (payment_in completed).meta

abbrev text_of_run : Result String → String
text_of_run (ok s) = s
text_of_run (err e) = ""

abbrev funded : Result String × World
unfolding authorize_with_x402 open_x402 load create_payment resolve_terms resolve_worker_address
    resolve_verifiers checksum_verifiers verifiers_or iterated resolve_approvals clamp_approvals
    resolve_fee_configuration to_wei check_wei to_int send_transaction now get_text get put any
    escrow_key
funded = authorize_with_x402 mining_env request (world completed)

funds :
    authorize_with_x402 mining_env request (world completed) ≡ (ok (text_of_run funded.0), funded.1)
unfolding authorize_with_x402 open_x402 load create_payment resolve_terms resolve_worker_address
    resolve_verifiers checksum_verifiers verifiers_or iterated resolve_approvals clamp_approvals
    resolve_fee_configuration to_wei check_wei to_int send_transaction now get_text get put any
    escrow_key
funds = refl

authorize_with_x402-Funded_example : Funded mining_env request [] funded.1
authorize_with_x402-Funded_example =
    authorize_with_x402-Funded mining_env request (world completed) funded.1 (text_of_run funded.0)
      funds

abbrev proposal_request : ProposalRequest
proposal_request = record {
  task_id = "t2";
  from_agent_id = "payer-agent";
  to_agent_id = "payee-agent";
  to_hedera_account = "0.0.5";
  amount = "2.0";
  description = "a task";
}

abbrev proposed : Result Fields × World
unfolding create_payment_request propose_in_session existing_result get_existing_transition_by_task
    propose_new handle_proposal work_out normalize_verifier_addresses evm_addresses split_commas
    build_payment_proposal_message write_proposal add_payment ensure_payment_action_context
    model_dump assert_no_sensitive_payload is_secret_name looks_like_secret_key
    validate_payment_mode get_payment_mode to_payment_mode lower strip build_action_context
    context_in_mode build_idempotency_key any find update put get new_uuid now new_message to_dict
    new_thread_id publish_message record_transition transitions_after redact_sensitive_payload
    find_payment
proposed = create_payment_request offline_env proposal_request none (world completed)

proposes :
    create_payment_request offline_env proposal_request none (world completed)
    ≡ (ok (answer_of proposed.0), proposed.1)
unfolding create_payment_request propose_in_session existing_result get_existing_transition_by_task
    propose_new handle_proposal work_out normalize_verifier_addresses evm_addresses split_commas
    build_payment_proposal_message write_proposal add_payment ensure_payment_action_context
    model_dump assert_no_sensitive_payload is_secret_name looks_like_secret_key
    validate_payment_mode get_payment_mode to_payment_mode lower strip build_action_context
    context_in_mode build_idempotency_key any find update put get new_uuid now new_message to_dict
    new_thread_id publish_message record_transition transitions_after redact_sensitive_payload
    find_payment
proposes = refl

unused : HasNoTransition (offline_env.uuid4 0) (tables completed).transitions
unfolding find
unused = refl

create_payment_request_replay_example :
    (r : Fields) × (create_payment_request offline_env proposal_request none proposed.1
      ≡ (ok r, proposed.1))
    × ((r ≡ answer_of proposed.0) ⊎ (r ≡ redact_fields (answer_of proposed.0)))
create_payment_request_replay_example =
    create_payment_request_replay offline_env proposal_request none (world completed) proposed.1
      (answer_of proposed.0) unused proposes
