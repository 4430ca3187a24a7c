-- ===== src/Payments/Tests/Settlements.antt =====
-- Runs of the settlements and of the idempotent runner, and the theorems about them there.
use synaptica_web.Prelude.{◌⊎◌, String, true, Option, none, some, [], ◌∷◌, ◌≡◌, refl, find, any}
use synaptica_web.Text.{lower, strip}
use synaptica_web.Json.{Json, Fields, str, bool, end, field, obj, put, get}
use synaptica_web.Security.{
  assert_no_sensitive_payload, redact_fields, redact_sensitive_payload, is_secret_name,
  looks_like_secret_key,
}
use synaptica_web.Payments.Contracts.{
  authorized, refunded, managed, release, offline, to_payment_mode,
}
use synaptica_web.Payments.Errors.{Result, ok, err, Error, value_error}
use synaptica_web.Payments.Db.{find_payment, update}
use synaptica_web.Payments.Session.{World, new_uuid, now}
use synaptica_web.Payments.Service.{
  validate_payment_mode, ensure_payment_action_context, ensure_no_terminal_conflict,
  transitions_after, record_transition, model_dump, get_payment_mode,
  get_completed_transition_result, completed_transition_result, get_existing_transition,
}
use synaptica_web.Payments.Run.{
  run_idempotent_payment_action, run_in_session, try_block, run_new, handle, on_exception,
  record_failure, payment_or_raise,
}
use synaptica_web.Payments.Session.{Action, pure, raise, approve_refund}
use synaptica_web.Payments.Run.Replay.{run_replay}
use synaptica_web.Payments.Run.Attempt.{KeepsResults}
use synaptica_web.Payments.Run.Safety.{run-KeepsResults, run_failure_rolls_back}
use synaptica_web.Payments.Run.Conflict.{settled_other_way}
use synaptica_web.Payments.Settle.Guards.{IsAuthorized, release-IsAuthorized}
use synaptica_web.Payments.Settle.Chain.{offline_sends_nothing, refund_sends_again}
use synaptica_web.Payments.Context.{build_idempotency_key, build_action_context, context_in_mode}
use synaptica_web.Payments.Messages.{
  new_message, new_thread_id, to_dict, publish_message, build_payment_release_message,
}
use synaptica_web.Payments.Notify.{
  refused, notification_role_for_recipient, store_payment_notification, build_terminal_message,
  emit_terminal_notification, emit_terminal_payment_notifications,
}
use synaptica_web.Payments.Escrow.{get_text, escrow_key}
use synaptica_web.Payments.Receipts.{
  payment_row, assign, task_of_payment, worker_address, offline_receipt, build_receipt,
}
use synaptica_web.Payments.Settle.{
  apply_receipt, settle_row, settle_runner, settle, release_payment,
}
use synaptica_web.Payments.Tests.Data.{
  offline_env, mining_env, receipt, payment_in, tables, world, context,
}
use synaptica_web.Payments.Escrow.{TaskEscrowConfig, open_x402, load}
use synaptica_web.Prelude.{pos}

abbrev outcome : Result Fields × World → Option Json
outcome (ok fs, w) = get "status" fs
outcome (err e, w) = none

test_release :
    outcome (release_payment offline_env "p1" "fine" none (world authorized))
    ≡ some (str "completed")
unfolding apply_receipt release_payment settle task_of_payment find_payment build_action_context
    context_in_mode get_payment_mode lower strip to_payment_mode build_idempotency_key
    run_idempotent_payment_action ensure_payment_action_context model_dump
    assert_no_sensitive_payload is_secret_name looks_like_secret_key validate_payment_mode
    run_in_session try_block payment_or_raise get_completed_transition_result
    completed_transition_result get_existing_transition handle run_new ensure_no_terminal_conflict
    settle_runner payment_row settle_row worker_address get_text build_receipt offline_receipt
    new_uuid now assign update new_thread_id emit_terminal_payment_notifications
    emit_terminal_notification build_terminal_message build_payment_release_message new_message
    publish_message store_payment_notification notification_role_for_recipient to_dict any find
    record_transition transitions_after redact_sensitive_payload put get
test_release = refl

-- the transactions of the runs below
abbrev echo : Action Json
echo = pure (obj (field "success" (bool true) end))

abbrev fails : Action Json
fails = raise (value_error "down")

abbrev echo_answer : Fields
echo_answer = field "success" (bool true) end

abbrev run : Action Json → World → Result Fields × World
run runner = run_idempotent_payment_action "p1" context offline_env runner

abbrev ran : Result Fields × World
unfolding run_idempotent_payment_action ensure_payment_action_context model_dump
    assert_no_sensitive_payload is_secret_name looks_like_secret_key validate_payment_mode
    get_payment_mode to_payment_mode lower strip run_in_session try_block payment_or_raise
    find_payment get_completed_transition_result completed_transition_result get_existing_transition
    handle on_exception record_failure run_new ensure_no_terminal_conflict record_transition
    transitions_after redact_sensitive_payload any find update
ran = run echo (world authorized)

echo_runs : run echo (world authorized) ≡ (ok echo_answer, ran.1)
unfolding run_idempotent_payment_action ensure_payment_action_context model_dump
    assert_no_sensitive_payload is_secret_name looks_like_secret_key validate_payment_mode
    get_payment_mode to_payment_mode lower strip run_in_session try_block payment_or_raise
    find_payment get_completed_transition_result completed_transition_result get_existing_transition
    handle on_exception record_failure run_new ensure_no_terminal_conflict record_transition
    transitions_after redact_sensitive_payload any find update
echo_runs = refl

echo_found : find_payment "p1" ran.1.committed ≡ some (payment_in authorized)
unfolding run_idempotent_payment_action ensure_payment_action_context model_dump
    assert_no_sensitive_payload is_secret_name looks_like_secret_key validate_payment_mode
    get_payment_mode to_payment_mode lower strip run_in_session try_block payment_or_raise
    find_payment get_completed_transition_result completed_transition_result get_existing_transition
    handle on_exception record_failure run_new ensure_no_terminal_conflict record_transition
    transitions_after redact_sensitive_payload any find update
echo_found = refl

run_replay_example :
    (r : Fields) × (run fails ran.1 ≡ (ok r, ran.1))
    × ((r ≡ echo_answer) ⊎ (r ≡ redact_fields echo_answer))
run_replay_example =
    run_replay offline_env "p1" context echo fails (world authorized) ran.1 echo_answer
      (payment_in authorized) echo_runs echo_found

run-KeepsResults_example :
    KeepsResults ran.1.committed.transitions (run fails ran.1).1.committed.transitions
run-KeepsResults_example =
    run-KeepsResults offline_env "p1" context fails ran.1
      (record { commits = λ _. refl; transitions = λ _. refl })

abbrev failed : Result Fields × World
unfolding run_idempotent_payment_action ensure_payment_action_context model_dump
    assert_no_sensitive_payload is_secret_name looks_like_secret_key validate_payment_mode
    get_payment_mode to_payment_mode lower strip run_in_session try_block payment_or_raise
    find_payment get_completed_transition_result completed_transition_result get_existing_transition
    handle on_exception record_failure run_new ensure_no_terminal_conflict record_transition
    transitions_after redact_sensitive_payload any find update
failed = run fails (world authorized)

fails_runs : run fails (world authorized) ≡ (err (value_error "down"), failed.1)
unfolding run_idempotent_payment_action ensure_payment_action_context model_dump
    assert_no_sensitive_payload is_secret_name looks_like_secret_key validate_payment_mode
    get_payment_mode to_payment_mode lower strip run_in_session try_block payment_or_raise
    find_payment get_completed_transition_result completed_transition_result get_existing_transition
    handle on_exception record_failure run_new ensure_no_terminal_conflict record_transition
    transitions_after redact_sensitive_payload any find update
fails_runs = refl

run_failure_rolls_back_example :
    failed.1.committed ≡ record (tables authorized) { transitions = failed.1.committed.transitions }
run_failure_rolls_back_example =
    run_failure_rolls_back offline_env "p1" context fails (world authorized) failed.1
      (value_error "down") (record { commits = λ _. refl; transitions = λ _. refl }) fails_runs

refunded_found : find_payment "p1" (tables refunded) ≡ some (payment_in refunded)
unfolding find_payment find
refunded_found = refl

nothing_stored :
    get_completed_transition_result (tables refunded) "p1" release "t1:todo_0:attempt_0:release"
    ≡ none
unfolding get_completed_transition_result get_existing_transition find
nothing_stored = refl

settled_other_way_example :
    (e : Error) × (v : World) × (run echo (world refunded) ≡ (err e, v))
    × (v.calls ≡ [])
    × (v.committed ≡ record (tables refunded) { transitions = v.committed.transitions })
settled_other_way_example =
    settled_other_way offline_env "p1" context echo (world refunded) (payment_in refunded)
      refunded_found nothing_stored refl

abbrev answer_of : Result Fields → Fields
answer_of (ok fs) = fs
answer_of (err e) = end

abbrev release_run : Result Fields × World
unfolding apply_receipt release_payment settle task_of_payment find_payment build_action_context
    context_in_mode get_payment_mode lower strip to_payment_mode build_idempotency_key
    run_idempotent_payment_action ensure_payment_action_context model_dump
    assert_no_sensitive_payload is_secret_name looks_like_secret_key validate_payment_mode
    run_in_session try_block payment_or_raise get_completed_transition_result
    completed_transition_result get_existing_transition handle run_new ensure_no_terminal_conflict
    settle_runner payment_row settle_row worker_address get_text build_receipt offline_receipt
    new_uuid now assign update new_thread_id emit_terminal_payment_notifications
    emit_terminal_notification build_terminal_message build_payment_release_message new_message
    publish_message store_payment_notification notification_role_for_recipient to_dict any find
    record_transition transitions_after redact_sensitive_payload put get
release_run = release_payment offline_env "p1" "fine" none (world authorized)

release_runs :
    release_payment offline_env "p1" "fine" none (world authorized)
    ≡ (ok (answer_of release_run.0), release_run.1)
unfolding apply_receipt release_payment settle task_of_payment find_payment build_action_context
    context_in_mode get_payment_mode lower strip to_payment_mode build_idempotency_key
    run_idempotent_payment_action ensure_payment_action_context model_dump
    assert_no_sensitive_payload is_secret_name looks_like_secret_key validate_payment_mode
    run_in_session try_block payment_or_raise get_completed_transition_result
    completed_transition_result get_existing_transition handle run_new ensure_no_terminal_conflict
    settle_runner payment_row settle_row worker_address get_text build_receipt offline_receipt
    new_uuid now assign update new_thread_id emit_terminal_payment_notifications
    emit_terminal_notification build_terminal_message build_payment_release_message new_message
    publish_message store_payment_notification notification_role_for_recipient to_dict any find
    record_transition transitions_after redact_sensitive_payload put get
release_runs = refl

release-IsAuthorized_example :
    ((key : String) × (get_completed_transition_result (tables authorized) "p1" release key
        ≡ some (answer_of release_run.0)))
    ⊎ IsAuthorized "p1" (world authorized)
release-IsAuthorized_example =
    release-IsAuthorized offline_env "p1" "fine" none (world authorized) release_run.1
      (answer_of release_run.0) release_runs

offline_mode : get_payment_mode offline_env ≡ some offline
unfolding get_payment_mode to_payment_mode strip lower
offline_mode = refl

offline_sends_nothing_example :
    (settle offline_env "p1" (refused "late") none (world authorized)).1.calls ≡ []
offline_sends_nothing_example =
    offline_sends_nothing offline_env "p1" (refused "late") none (world authorized) offline_mode

refund_found : find_payment "p1" (world refunded).db ≡ some (payment_in refunded)
unfolding find_payment find
refund_found = refl

refund_address :
    worker_address mining_env (payment_in refunded).meta (world refunded)
    ≡ (ok "0xabc", world refunded)
unfolding worker_address get_text get
refund_address = refl

abbrev config : TaskEscrowConfig
config = record {
  contract_address = "0xescrow";
  marketplace_treasury = "0xtreasury";
  default_approvals = pos 1;
  marketplace_fee_bps = pos 0;
  verifier_fee_bps = pos 0;
}

opened : open_x402 mining_env (world refunded) ≡ (ok config, world refunded)
unfolding open_x402 load
opened = refl

refund_sends_again_example :
    (settle_runner mining_env "p1" managed (refused "late") (world refunded)).1.calls
    ≡ approve_refund (escrow_key (payment_in refunded)) ∷ []
refund_sends_again_example =
    refund_sends_again mining_env "p1" managed "late" "0xabc" (payment_in refunded) config receipt 3
      (world refunded) refl refund_found refund_address opened refl refl
