-- ===== src/Payments/Reconcile/Again.antt =====
-- What a second `reconcile_payment` (shared/payments/runtime.py) finds and repairs.
use synaptica_web.Prelude.{
  String, Bool, true, false, not, ◌&&◌, ◌||◌, ◌==◌, ◌≡◌, refl, ap, ◌∙◌, Option, none, some, List,
  [], ◌∷◌, ◌++◌, find, any, arith, eq_iff, eq_refl, if◌then◌else◌,
}
use synaptica_web.Payments.Errors.{integrity_error, ok, err}
use synaptica_web.Payments.Db.{Payment, Notification, Event, Issue, missing_notification}
use synaptica_web.Payments.Db.Find.{find_sound}
use synaptica_web.Payments.Session.{World, pure, OnOk, ◌>>=◌}
use synaptica_web.Payments.Notify.{is_notification}
use synaptica_web.Payments.Reconcile.{
  notified, matches, rebuilt, rebuild_notification_from_event, Review, note_repaired, repair_from,
  review_recipient,
}

abbrev is_some : Option Event → Bool
is_some none = false
is_some (some e) = true

-- an issue is added for a recipient who is not covered
abbrev pub add_missing : Bool → String → List Issue → List Issue
add_missing true recipient issues = issues
add_missing false recipient issues = issues ++ missing_notification recipient ∷ []

notified-append :
    (payment : Payment) (type recipient : String) (rows more : List Notification)
    → notified payment type recipient (rows ++ more)
      ≡ (notified payment type recipient rows || notified payment type recipient more)
unfolding notified any
notified-append payment type recipient [] more = refl
notified-append payment type recipient (n ∷ rows) more =
    ground (arith, notified-append payment type recipient rows more)

module _ (payment : Payment) (type : String) (existing : List Notification)
    (events : List Event) where
  -- the recipient has a notification, or an event to rebuild it from
  abbrev pub covered : String → Bool
  covered r = notified payment type r existing || is_some (find (matches type r) events)

  -- who gains a notification where recipient `r` is reviewed
  abbrev pub gained : String → String → Bool
  gained r s = r == s && not (notified payment type r existing) && covered r

  -- what the review of a recipient does
  abbrev pub Reviewed : String → Review → World → Review → World → Type 0
  Reviewed r review w review' v =
      (review'.issues ≡ add_missing (covered r) r review.issues)
      × (v.db ≡ record w.db { notifications = v.db.notifications })
      × ((s : String)
          → notified payment type s v.db.notifications
            ≡ (notified payment type s w.db.notifications || gained r s))

  rebuilt-notified :
      (r s : String) (e : Event)
      → matches type r e ≡ true
      → notified payment type s (rebuilt payment e ∷ []) ≡ (r == s)
  unfolding notified any
  rebuilt-notified r s e h = ground (
    arith,
    eq_refl payment.id,
    eq_refl type,
    eq_refl r,
    eq_iff e.message_type type,
    eq_iff e.to_agent r,
  )

  by_flush :
      (r : String) (review : Review) (w : World) (event : Event)
      → notified payment type r existing ≡ false
      → find (matches type r) events ≡ some event
      → (b : Bool)
      → OnOk
          (λ review' v. Reviewed r review w review' v)
          (((λ w'. if b then (err integrity_error, w) else (
            ok tt,
            record w {
              db = record w.db { notifications = w.db.notifications ++ rebuilt payment event ∷ [] };
            },
          ))
              >>= λ (_ : Unit {0}). pure (note_repaired r review))
            w)
  by_flush r review w event h e true = tt
  by_flush r review w event h e false = (
    rw h (rw e refl),
    refl,
    λ s.
        notified-append payment type s w.db.notifications (rebuilt payment event ∷ [])
        ∙ ap (λ b. notified payment type s w.db.notifications || b)
            (rebuilt-notified r s event (find_sound (matches type r) events event e)
              ∙ rw h (rw e (ground arith))),
  )

  pub review_recipient-Reviewed :
      (r : String) (review : Review) (w : World)
      → OnOk
          (λ review' v. Reviewed r review w review' v)
          (review_recipient payment type true existing events r review w)
  unfolding review_recipient rebuild_notification_from_event
  review_recipient-Reviewed r review w =
      by_case (notified payment type r existing) (find (matches type r) events) refl refl
    where
      by_case :
          (b : Bool) (o : Option Event)
          → notified payment type r existing ≡ b
          → find (matches type r) events ≡ o
          → OnOk
              (λ review' v. Reviewed r review w review' v)
              ((if b then pure review else repair_from payment r review o) w)
      by_case true o h e = (rw h refl, refl, λ s. ground (arith, h))
      by_case false none h e = (rw h (rw e refl), refl, λ s. ground (arith, h, e))
      by_case false (some event) h e =
          by_flush r review w event h e (any (is_notification event.message_id) w.db.notifications)

  -- a review over rows in which every covered recipient has a notification repairs nothing
  pub review_again :
      (later : List Notification) (r : String) (review : Review) (w : World)
      → notified payment type r later ≡ covered r
      → review_recipient payment type true later events r review w
        ≡ (ok (record review { issues = add_missing (covered r) r review.issues }), w)
  unfolding review_recipient
  review_again later r review w same =
      by_case (notified payment type r later) (covered r) (find (matches type r) events) refl refl
        refl same
    where
      by_case :
          (b c : Bool) (o : Option Event)
          → notified payment type r later ≡ b
          → covered r ≡ c
          → find (matches type r) events ≡ o
          → b ≡ c
          → (if b then pure review else repair_from payment r review o) w
            ≡ (ok (record review { issues = add_missing c r review.issues }), w)
      by_case true true o h k e same' = refl
      by_case false false none h k e same' = refl
      by_case false false (some event) h k e same' = absurd (ground (arith, k, e))
      by_case true false o h k e same' = absurd (ground arith)
      by_case false true o h k e same' = absurd (ground arith)

  -- what is gained for one recipient is no more than what covers another
  pub covered_by : (r s : String) (x : Bool) → x ≡ covered s → (x || gained r s) ≡ covered s
  covered_by r s x h = by_test (r == s) refl
    where
      twice : (a b : Bool) → (a || (true && b && a)) ≡ a
      twice true true = refl
      twice true false = refl
      twice false true = refl
      twice false false = refl

      by_test : (b : Bool) → (r == s) ≡ b → (x || gained r s) ≡ covered s
      by_test false e = rw e (rw h (ground arith))
      by_test true e =
          let same : r ≡ s = (eq_iff r s).0 e in
          rw same
            (rw (eq_refl s) (rw h (twice (covered s) (not (notified payment type s existing)))))

  -- a recipient who is reviewed is covered at the end
  pub gained_self : (s : String) → (notified payment type s existing || gained s s) ≡ covered s
  gained_self s =
      rw (eq_refl s)
        (absorb (notified payment type s existing) (is_some (find (matches type s) events)))
    where
      absorb : (a b : Bool) → (a || (true && not a && (a || b))) ≡ (a || b)
      absorb true true = refl
      absorb true false = refl
      absorb false true = refl
      absorb false false = refl
