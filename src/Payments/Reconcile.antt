-- ===== src/Payments/Reconcile.antt =====
-- `reconcile_payment` of shared/payments/runtime.py.
pub mod Again
pub mod Both
pub mod Twice
use synaptica_web.Prelude.{
  String, Bool, true, false, ◌&&◌, ◌==◌, Option, none, some, List, [], ◌∷◌, ◌++◌, length, find, any,
  keep, if◌then◌else◌,
}
use synaptica_web.Payments.Contracts.{
  PaymentAction, release, refund, PaymentStatus, completed, failed, refunded, same_action,
}
use synaptica_web.Payments.Errors.{integrity_error, Result, ok, err}
use synaptica_web.Payments.Db.{
  Payment, Transition, TransitionState, Notification, Event, Reconciliation, ReconciliationStatus,
  matched, mismatch, repaired, manual_review, Issue, missing_release_transition,
  missing_refund_transition, missing_notification, unexpected_notifications, find_payment,
}
use synaptica_web.Payments.Session.{
  Env, World, Action, pure, modify, now, ◌>>=◌, ◌>>◌, open_session, close_session, commit, rollback,
}
use synaptica_web.Payments.Notify.{notification_role_for_recipient, is_notification}
use synaptica_web.Payments.Escrow.{get_text}

-- `_expected_terminal_notification_type`
unfoldable pub expected_terminal_notification_type : PaymentStatus → Option String
expected_terminal_notification_type completed = some "payment/released"
expected_terminal_notification_type refunded = some "payment/refunded"
expected_terminal_notification_type _ = none

abbrev is_completed : TransitionState → Bool
is_completed TransitionState.completed = true
is_completed TransitionState.failed = false

-- whether the payment has a completed transition of the action
abbrev pub has_completed : Payment → PaymentAction → List Transition → Bool
has_completed payment action rows =
    any (λ t. t.payment_id == payment.id && same_action t.action action && is_completed t.state)
      rows

-- the issues about transitions
unfoldable pub transition_issues : Payment → List Transition → List Issue
unfolding any
transition_issues payment rows = elim payment.status [
  | completed ↦ if has_completed payment release rows then [] else missing_release_transition ∷ []
  | refunded ↦ if has_completed payment refund rows then [] else missing_refund_transition ∷ []
  | _ ↦ []
]

-- `(recipient, type) in existing_by_recipient`, over the rows of the payment
unfoldable pub notified : Payment → String → String → List Notification → Bool
unfolding any
notified payment type recipient rows =
    any
      (λ n.
        n.payment_id == payment.id
        && n.recipient_agent_id == recipient
        && n.notification_type == type)
      rows

-- a row put among rows that are in order, after those that are no later
abbrev insert_event : Env → Event → List Event → List Event
insert_event env e [] = e ∷ []
insert_event env e (x ∷ xs) =
    let rest = insert_event env e xs in
    if env.is_before e.timestamp x.timestamp then e ∷ x ∷ xs else x ∷ rest

-- `ORDER BY timestamp, id` of rows in the order of their ids
abbrev ordered : Env → List Event → List Event → List Event
ordered env done [] = done
ordered env done (e ∷ es) = ordered env (insert_event env e done) es

-- the events on the payment's thread
unfoldable pub thread_events : Env → Payment → List Event → List Event
thread_events env payment events =
    if get_text "a2a_thread_id" payment.meta == ""
    then []
    else ordered env [] (keep (λ e. e.thread_id == get_text "a2a_thread_id" payment.meta) events)

abbrev pub matches : String → String → Event → Bool
matches type recipient e = e.message_type == type && e.to_agent == recipient

-- the row of `_rebuild_notification_from_event`
abbrev pub rebuilt : Payment → Event → Notification
rebuilt payment e = record {
  payment_id = payment.id;
  task_id = payment.task_id;
  message_id = e.message_id;
  notification_type = e.message_type;
  recipient_agent_id = e.to_agent;
  recipient_role = notification_role_for_recipient payment e.to_agent;
  status = "delivered";
  thread_id = e.thread_id;
  delivered_at = e.timestamp;
  payload = e.body;
}

-- `_rebuild_notification_from_event`, whose flush meets the unique message
unfoldable pub rebuild_notification_from_event : Payment → Event → Action (Unit {0})
unfolding any
rebuild_notification_from_event payment e w =
    let added =
      modify (λ db. record db { notifications = db.notifications ++ rebuilt payment e ∷ [] }) w in
    if any (is_notification e.message_id) w.db.notifications
    then (err integrity_error, w)
    else added

-- what the loop gathers
pub record Review : Type 0 where
  pub issues : List Issue
  pub repaired_notifications : List String

abbrev pub note_missing : String → Review → Review
note_missing recipient review = record review {
  issues = review.issues ++ missing_notification recipient ∷ [];
}

abbrev pub note_repaired : String → Review → Review
note_repaired recipient review = record review {
  repaired_notifications = review.repaired_notifications ++ recipient ∷ [];
}

abbrev pub repair_from : Payment → String → Review → Option Event → Action Review
repair_from payment recipient review none = pure (note_missing recipient review)
repair_from payment recipient review (some e) = do
  rebuild_notification_from_event payment e
  pure (note_repaired recipient review)

-- the body of the loop, over the rows and the events that were read before it
unfoldable pub review_recipient :
    Payment → String → Bool → List Notification → List Event → String → Review → Action Review
unfolding find
review_recipient payment type repair existing events recipient review =
    if notified payment type recipient existing
    then pure review
    else repair_from payment recipient review
        (if repair then find (matches type recipient) events else none)

abbrev pub has_notification : Payment → List Notification → Bool
has_notification payment rows = any (λ n. n.payment_id == payment.id) rows

-- the review of a payment whose terminal type is known
unfoldable pub review_payment :
    Payment → Bool → List Notification → List Event → Review → Option String → Action Review
review_payment payment repair existing events review none = pure (
    if has_notification payment existing
    then record review { issues = review.issues ++ unexpected_notifications ∷ [] }
    else review)
review_payment payment repair existing events review (some type) = do
  paid ← review_recipient payment type repair existing events payment.from_agent_id review
  review_recipient payment type repair existing events payment.to_agent_id paid

-- `status`
unfoldable pub reconciliation_status : Review → ReconciliationStatus
reconciliation_status review = status review.issues review.repaired_notifications
  where
    status : List Issue → List String → ReconciliationStatus
    status (i ∷ is) (r ∷ rs) = manual_review
    status (i ∷ is) [] = mismatch
    status [] (r ∷ rs) = repaired
    status [] [] = matched

abbrev pub resolution_time : Env → ReconciliationStatus → Action (Option String)
resolution_time env matched = do time ← now env; pure (some time)
resolution_time env repaired = do time ← now env; pure (some time)
resolution_time env _ = pure none

-- the row that is added, and the commit
unfoldable pub conclude : Env → Payment → Review → Action Reconciliation
conclude env payment review = do
  resolved_at ← resolution_time env (reconciliation_status review)
  add_row (record {
    payment_id = payment.id;
    task_id = payment.task_id;
    status = reconciliation_status review;
    mismatch_count = length review.issues;
    issues = review.issues;
    repaired_notifications = review.repaired_notifications;
    expected_terminal_notification_type = expected_terminal_notification_type payment.status;
    resolved_at = resolved_at;
  })
  where
    add_row : Reconciliation → Action Reconciliation
    add_row row = do
      modify λ db. record db { reconciliations = db.reconciliations ++ row ∷ [] }
      (λ w. (ok tt, commit w))
      pure row

-- the `try` block, once the payment is there
unfoldable pub reconcile_row : Env → Bool → Payment → Action Reconciliation
reconcile_row env repair payment w =
    (review_payment payment repair w.db.notifications (thread_events env payment w.db.events)
          (record {
            issues = transition_issues payment w.db.transitions;
            repaired_notifications = [];
          })
          (expected_terminal_notification_type payment.status)
        >>= conclude env payment)
      w

-- the `except` clause and the `finally` clause
abbrev pub end_reconcile : Result Reconciliation × World → Result (Option Reconciliation) × World
end_reconcile (ok row, w) = (ok (some row), close_session w)
end_reconcile (err e, w) = (err e, close_session (rollback w))

-- `reconcile_payment`; `none` is an unknown payment
unfoldable pub reconcile_payment : Env → String → Bool → Action (Option Reconciliation)
reconcile_payment env payment_id repair w =
    let s = open_session w in
    elim (find_payment payment_id s.db) [
      | none ↦ (ok none, close_session s)
      | some payment ↦ end_reconcile (reconcile_row env repair payment s)
    ]
