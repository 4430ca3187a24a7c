-- ===== src/Payments/Tests/Reconciliations.antt =====
-- Runs of the reconciliation, and the theorem about it there.
use synaptica_web.Prelude.{true, Option, none, some, [], ◌≡◌, refl, find, any, keep}
use synaptica_web.Json.{get}
use synaptica_web.Payments.Contracts.{completed}
use synaptica_web.Payments.Errors.{Result, ok}
use synaptica_web.Payments.Db.{Reconciliation, matched, find_payment}
use synaptica_web.Payments.Session.{World, now}
use synaptica_web.Payments.Escrow.{get_text}
use synaptica_web.Payments.Reconcile.{
  expected_terminal_notification_type, transition_issues, notified, thread_events, review_recipient,
  review_payment, reconciliation_status, conclude, reconcile_row, reconcile_payment,
}
use synaptica_web.Payments.Reconcile.Twice.{reconcile_payment_twice}
use synaptica_web.Payments.Tests.Data.{offline_env, world}

abbrev reconciled : Result (Option Reconciliation) × World
unfolding reconcile_payment find_payment find reconcile_row review_payment transition_issues any
    keep thread_events get_text get expected_terminal_notification_type review_recipient notified
    conclude reconciliation_status now
reconciled = reconcile_payment offline_env "p1" true (world completed)

abbrev row_of : Result (Option Reconciliation) → Reconciliation
row_of (ok (some row)) = row
row_of _ = record {
  payment_id = "";
  task_id = "";
  status = matched;
  mismatch_count = 0;
  issues = [];
  repaired_notifications = [];
  expected_terminal_notification_type = none;
  resolved_at = none;
}

reconciles :
    reconcile_payment offline_env "p1" true (world completed)
    ≡ (ok (some (row_of reconciled.0)), reconciled.1)
unfolding reconcile_payment find_payment find reconcile_row review_payment transition_issues any
    keep thread_events get_text get expected_terminal_notification_type review_recipient notified
    conclude reconciliation_status now
reconciles = refl

reconcile_payment_twice_example :
    (row : Reconciliation) × (v : World) × (reconcile_payment offline_env "p1" true reconciled.1
      ≡ (ok (some row), v))
    × (row.repaired_notifications ≡ [])
    × (row.issues ≡ (row_of reconciled.0).issues)
    × (v.committed.notifications ≡ reconciled.1.committed.notifications)
reconcile_payment_twice_example =
    reconcile_payment_twice offline_env "p1" (row_of reconciled.0) (world completed) reconciled.1
      reconciles
