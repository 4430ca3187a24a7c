-- ===== src/Payments/Reconcile/Twice.antt =====
-- Two runs of `reconcile_payment` (shared/payments/runtime.py), one after the other.
use synaptica_web.Prelude.{
  String, true, ◌≡◌, refl, sym, ap, ◌∙◌, subst, Option, none, some, List, [], arith, Option-cases,
  inl, inr,
}
use synaptica_web.Payments.Errors.{Result, ok, err}
use synaptica_web.Payments.Db.{Db, Payment, Issue, Reconciliation, find_payment}
use synaptica_web.Payments.Session.{
  Env, World, Action, OnOk, OnOk-bind, open_session, close_session,
}
use synaptica_web.Payments.Reconcile.{
  Review, review_payment, expected_terminal_notification_type, thread_events, transition_issues,
  conclude, reconcile_row, end_reconcile, reconcile_payment,
}
use synaptica_web.Payments.Reconcile.Both.{review_twice, conclude_ok}

module _ (env : Env) (payment_id : String) where
  -- the outcome of a run that repairs nothing
  abbrev RepairsNothing : List Issue → World → Type 0
  RepairsNothing issues v =
      (row : Reconciliation) × (v' : World) × (reconcile_payment env payment_id true v
        ≡ (ok (some row), v'))
      × (row.repaired_notifications ≡ [])
      × (row.issues ≡ issues)
      × (v'.committed.notifications ≡ v.committed.notifications)

  -- where the review of a payment begins
  abbrev first_review : Payment → Db → Review
  first_review payment db = record {
    issues = transition_issues payment db.transitions;
    repaired_notifications = [];
  }

  abbrev review_in : Payment → Db → Action Review
  review_in payment db =
      review_payment payment true db.notifications (thread_events env payment db.events)
        (first_review payment db) (expected_terminal_notification_type payment.status)

  run_found :
      (payment : Payment) (v : World)
      → find_payment payment_id v.committed ≡ some payment
      → reconcile_payment env payment_id true v
        ≡ end_reconcile (reconcile_row env true payment (open_session v))
  unfolding reconcile_payment
  run_found payment v found = rw (found, reconcile_payment) refl

  run_missing :
      (v : World)
      → find_payment payment_id v.committed ≡ none
      → reconcile_payment env payment_id true v ≡ (ok none, close_session (open_session v))
  unfolding reconcile_payment
  run_missing v missing = rw (missing, reconcile_payment) refl

  row_reviewed :
      (payment : Payment) (s : World) (review : Review)
      → review_in payment s.db s ≡ (ok review, s)
      → reconcile_row env true payment s ≡ conclude env payment review s
  unfolding reconcile_row
  row_reviewed payment s review h = rw h refl

  second_run :
      (payment : Payment) (issues : List Issue) (v : World)
      → find_payment payment_id v.committed ≡ some payment
      → ((u : World)
          → review_in payment v.committed u
            ≡ (ok (record { issues = issues; repaired_notifications = [] }), u))
      → RepairsNothing issues v
  second_run payment issues v found reviewed =
      let review : Review = record { issues = issues; repaired_notifications = [] } in
      let (row, u, ran, same, none_repaired, kept) =
        conclude_ok env payment review (open_session v) in
      (
        row,
        close_session u,
        run_found payment v found
            ∙ ap end_reconcile
                (row_reviewed payment (open_session v) review (reviewed (open_session v)) ∙ ran),
        none_repaired,
        same,
        ap (λ (d : Db). d.notifications) kept,
      )

  after_row :
      (payment : Payment) (w : World)
      → find_payment payment_id w.committed ≡ some payment
      → OnOk
          (λ row u. RepairsNothing row.issues (close_session u))
          (reconcile_row env true payment (open_session w))
  unfolding reconcile_row find_payment
  after_row payment w found =
      let Repairs : Reconciliation → World → Type 0 =
        λ row u. RepairsNothing row.issues (close_session u) in
      OnOk-bind Repairs (review_in payment w.committed) (conclude env payment) (open_session w)
        λ review m e.
          let (frame, again) =
            review_twice payment (thread_events env payment w.committed.events)
              (expected_terminal_notification_type payment.status)
              (first_review payment w.committed) (open_session w) m e in
          let (row, u, ran, same, repaired_same, kept) = conclude_ok env payment review m in
          let tables : u.committed ≡ record w.committed {
            notifications = m.db.notifications;
            reconciliations = u.committed.reconciliations;
          } =
            kept
            ∙ ap (λ (d : Db). record d { reconciliations = u.committed.reconciliations }) frame in
          subst (OnOk Repairs) (sym ran) (
            subst (λ is. RepairsNothing is (close_session u)) (sym same)
              (second_run payment review.issues (close_session u)
                (ap (find_payment payment_id) tables ∙ found)
                (λ x. ap (λ (d : Db). review_in payment d x) tables ∙ again x)))

  -- Reconciling a payment once more, right after a reconciliation that was to repair it, goes
  -- through, repairs nothing, notes the same issues, and adds no notification.
  pub reconcile_payment_twice :
      (row : Reconciliation) (w v : World)
      → reconcile_payment env payment_id true w ≡ (ok (some row), v)
      → (row' : Reconciliation) × (v' : World) × (reconcile_payment env payment_id true v
          ≡ (ok (some row'), v'))
        × (row'.repaired_notifications ≡ [])
        × (row'.issues ≡ row.issues)
        × (v'.committed.notifications ≡ v.committed.notifications)
  reconcile_payment_twice row w v h = elim (Option-cases (find_payment payment_id w.committed)) [
    | inl missing ↦ absurd (nothing (sym (run_missing w missing) ∙ h))
    | inr (payment, found) ↦
        ended (reconcile_row env true payment (open_session w)) (after_row payment w found)
          (sym (run_found payment w found) ∙ h)
  ]
    where
      nothing :
          ◌≡◌ {A = Result (Option Reconciliation) × World}
            (ok none, close_session (open_session w))
            (ok (some row), v)
          → ⊥
      nothing e = ground arith

      ended :
          (r : Result Reconciliation × World)
          → OnOk (λ row u. RepairsNothing row.issues (close_session u)) r
          → end_reconcile r ≡ (ok (some row), v)
          → RepairsNothing row.issues v
      ended (ok first, u) next e =
          subst (λ (p : Result (Option Reconciliation) × World). issued p) e next
        where
          issued : Result (Option Reconciliation) × World → Type 0
          issued (ok (some r), u) = RepairsNothing r.issues u
          issued _ = Unit
      ended (err x, u) next e = absurd (ground arith)
