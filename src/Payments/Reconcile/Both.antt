-- ===== src/Payments/Reconcile/Both.antt =====
-- Both recipients of a reconciliation (shared/payments/runtime.py), reviewed one after the other.
use synaptica_web.Prelude.{
  String, Bool, true, false, ◌||◌, ◌≡◌, refl, sym, ap, ◌∙◌, Option, none, some, List, [], ◌∷◌, ◌++◌,
  arith, if◌then◌else◌, length,
}
use synaptica_web.Payments.Errors.{Result, ok}
use synaptica_web.Payments.Db.{
  Db, Payment, Notification, Event, Issue, Reconciliation, ReconciliationStatus,
  unexpected_notifications, matched, mismatch, repaired, manual_review,
}
use synaptica_web.Payments.Session.{
  Env, World, pure, now, OnOk, OnOk-bind, OnOk-eq, OnOk-intro, ◌>>=◌,
}
use synaptica_web.Payments.Reconcile.{
  notified, Review, review_recipient, review_payment, expected_terminal_notification_type,
  has_notification, reconciliation_status, resolution_time, conclude,
}
use synaptica_web.Payments.Reconcile.Again.{
  add_missing, covered, Reviewed, review_recipient-Reviewed, review_again, covered_by, gained_self,
  gained,
}

or_swap : (n a b : Bool) → ((n || a) || b) ≡ ((n || b) || a)
or_swap true a b = refl
or_swap false true true = refl
or_swap false true false = refl
or_swap false false true = refl
or_swap false false false = refl

module _ (payment : Payment) (type : String) (events : List Event) where
  -- the issues that end up noted for the two recipients
  abbrev noted : List Notification → List Issue → List Issue
  noted existing issues =
      add_missing (covered payment type existing events payment.to_agent_id) payment.to_agent_id (
        add_missing (covered payment type existing events payment.from_agent_id)
          payment.from_agent_id issues)

  -- every covered recipient has a notification
  abbrev Covers : List Notification → List Notification → Type 0
  Covers existing later =
      (notified payment type payment.from_agent_id later
        ≡ covered payment type existing events payment.from_agent_id)
      × (notified payment type payment.to_agent_id later
          ≡ covered payment type existing events payment.to_agent_id)

  review_both :
      (review : Review) (w : World)
      → OnOk
          (λ review' v.
            (review'.issues ≡ noted w.db.notifications review.issues)
            × (v.db ≡ record w.db { notifications = v.db.notifications })
            × Covers w.db.notifications v.db.notifications)
          (review_payment payment true w.db.notifications events review (some type) w)
  unfolding review_payment
  review_both review w =
      let ns = w.db.notifications in
      let P = payment.from_agent_id in
      let Q = payment.to_agent_id in
      OnOk-bind
        (λ review' v.
          (review'.issues ≡ noted w.db.notifications review.issues)
          × (v.db ≡ record w.db { notifications = v.db.notifications })
          × Covers w.db.notifications v.db.notifications)
        (review_recipient payment type true ns events P review) _ w
        λ paid u e.
          let (issues, frame, gain) =
            OnOk-eq (λ review' v. Reviewed payment type ns events P review w review' v) _ e
              (review_recipient-Reviewed payment type ns events P review w) in
          OnOk-intro _ _ λ review' v e'.
            let (issues', frame', gain') =
              OnOk-eq (λ review' v. Reviewed payment type ns events Q paid u review' v) _ e'
                (review_recipient-Reviewed payment type ns events Q paid u) in
            (
              issues' ∙ ap (add_missing (covered payment type ns events Q) Q) issues,
              frame' ∙ ap (λ (d : Db). record d { notifications = v.db.notifications }) frame,
              (
                gain' P
                    ∙ covered_by payment type ns events Q P _
                        (gain P ∙ gained_self payment type ns events P),
                gain' Q
                    ∙ ap (λ x. x || gained payment type ns events Q Q) (gain Q)
                    ∙ or_swap (notified payment type Q ns) (gained payment type ns events P Q)
                        (gained payment type ns events Q Q)
                    ∙ covered_by payment type ns events P Q _
                        (gained_self payment type ns events Q),
              ),
            )

  again_both :
      (existing later : List Notification) (review : Review) (w : World)
      → Covers existing later
      → review_payment payment true later events review (some type) w
        ≡ (ok (record review { issues = noted existing review.issues }), w)
  unfolding review_payment
  again_both existing later review w (payer, payee) =
      rw (review_again payment type existing events later payment.from_agent_id review w payer)
        (review_again payment type existing events later payment.to_agent_id _ w payee)

-- what a second review answers, of a payment with any status
pub review_twice :
    (payment : Payment) (events : List Event) (expected : Option String) (review : Review)
    (w v : World) {review' : Review}
    → review_payment payment true w.db.notifications events review expected w ≡ (ok review', v)
    → (v.db ≡ record w.db { notifications = v.db.notifications })
      × ((u : World)
          → review_payment payment true v.db.notifications events review expected u
            ≡ (ok (record review { issues = review'.issues }), u))
unfolding review_payment
review_twice payment events none review w v {review'} h =
    let here : v ≡ w = sym (ap (λ (p : Result Review × World). p.1) h) in
    (
      rw here refl,
      λ u.
          rw here
            (ap (λ r. (ok r, u)) (unexpected (has_notification payment w.db.notifications) h)),
    )
  where
    unexpected :
        (b : Bool)
        → pure
            (if b
              then record review { issues = review.issues ++ unexpected_notifications ∷ [] }
              else review)
            w
          ≡ (ok review', v)
        → (if b
            then record review { issues = review.issues ++ unexpected_notifications ∷ [] }
            else review)
          ≡ record review { issues = review'.issues }
    unexpected true h = ground arith
    unexpected false h = ground arith
review_twice payment events (some type) review w v {review'} h =
    let (issues, frame, covers) =
      OnOk-eq
        (λ review' v.
          (review'.issues ≡ noted payment type events w.db.notifications review.issues)
          × (v.db ≡ record w.db { notifications = v.db.notifications })
          × Covers payment type events w.db.notifications v.db.notifications)
        _ h (review_both payment type events review w) in
    (
      frame,
      λ u.
          again_both payment type events w.db.notifications v.db.notifications review u covers
          ∙ ap (λ is. (ok (record review { issues = is }), u)) (sym issues),
    )

-- the row is added and committed
pub conclude_ok :
    (env : Env) (payment : Payment) (review : Review) (w : World)
    → (row : Reconciliation) × (u : World) × (conclude env payment review w ≡ (ok row, u))
      × (row.issues ≡ review.issues)
      × (row.repaired_notifications ≡ review.repaired_notifications)
      × (u.committed ≡ record w.db { reconciliations = u.committed.reconciliations })
unfolding conclude now
conclude_ok env payment review w = by_status (reconciliation_status review)
  where
    added : ReconciliationStatus → Option String → World → Result Reconciliation × World
    added st time w' =
        let row : Reconciliation = record {
          payment_id = payment.id;
          task_id = payment.task_id;
          status = st;
          mismatch_count = length review.issues;
          issues = review.issues;
          repaired_notifications = review.repaired_notifications;
          expected_terminal_notification_type = expected_terminal_notification_type payment.status;
          resolved_at = time;
        } in
        let d : Db = record w'.db { reconciliations = w'.db.reconciliations ++ row ∷ [] } in
        (ok row, record w' { db = d; committed = d })

    by_status :
        (st : ReconciliationStatus)
        → (row : Reconciliation) × (u : World) × ((resolution_time env st >>= λ time.
                added (reconciliation_status review) time)
              w
            ≡ (ok row, u))
          × (row.issues ≡ review.issues)
          × (row.repaired_notifications ≡ review.repaired_notifications)
          × (u.committed ≡ record w.db { reconciliations = u.committed.reconciliations })
    by_status matched = (_, _, refl, refl, refl, refl)
    by_status mismatch = (_, _, refl, refl, refl, refl)
    by_status repaired = (_, _, refl, refl, refl, refl)
    by_status manual_review = (_, _, refl, refl, refl, refl)
