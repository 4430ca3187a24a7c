-- ===== src/Payments/Db.antt =====
-- The rows of shared/database/models.py that the payment code reads and writes, each table as the
-- list of its rows in order of insertion, which is the order of the autoincremented ids.
pub mod Find
use synaptica_web.Prelude.{ℕ, String, Bool, ◌&&◌, Option, List, [], ◌∷◌, ◌==◌, if◌then◌else◌, find}
use synaptica_web.Json.{Json, Fields}
use synaptica_web.Payments.Contracts.{PaymentAction, PaymentStatus, same_action}
use synaptica_web.Payments.Errors.{Error}

-- `Payment`. `amount` is the text of the number, `str(payment.amount)`; a time is its ISO text.
pub record Payment : Type 0 where
  pub id : String
  pub task_id : String
  pub from_agent_id : String
  pub to_agent_id : String
  pub amount : String
  pub currency : String
  pub status : PaymentStatus
  pub transaction_id : Option String
  pub authorization_id : Option String
  pub completed_at : Option String
  pub meta : Fields

-- the two texts that the code writes to `PaymentStateTransition.state`
pub data TransitionState : Type 0 where
  completed failed : TransitionState

-- `PaymentStateTransition`; `error` is the exception whose text is stored
pub record Transition : Type 0 where
  pub payment_id : String
  pub task_id : String
  pub action : PaymentAction
  pub idempotency_key : String
  pub state : TransitionState
  pub result : Json
  pub error : Option Error

-- `PaymentNotification`, without the columns `meta` and `last_error`
pub record Notification : Type 0 where
  pub payment_id : String
  pub task_id : String
  pub message_id : String
  pub notification_type : String
  pub recipient_agent_id : String
  pub recipient_role : String
  pub status : String
  pub thread_id : String
  pub delivered_at : String
  pub payload : Json

-- `A2AEvent`
pub record Event : Type 0 where
  pub message_id : String
  pub protocol : String
  pub message_type : String
  pub from_agent : String
  pub to_agent : String
  pub thread_id : String
  pub timestamp : String
  pub tags : List String
  pub body : Json

-- the four texts that the code writes to `PaymentReconciliation.status`
pub data ReconciliationStatus : Type 0 where
  matched mismatch repaired manual_review : ReconciliationStatus

-- the three texts of `details["issues"]`
pub data Issue : Type 0 where
  missing_release_transition missing_refund_transition : Issue
  missing_notification : String → Issue
  unexpected_notifications : Issue

-- `PaymentReconciliation`
pub record Reconciliation : Type 0 where
  pub payment_id : String
  pub task_id : String
  pub status : ReconciliationStatus
  pub mismatch_count : ℕ
  pub issues : List Issue
  pub repaired_notifications : List String
  pub expected_terminal_notification_type : Option String
  pub resolved_at : Option String

-- the tables
pub record Db : Type 0 where
  pub payments : List Payment
  pub transitions : List Transition
  pub notifications : List Notification
  pub events : List Event
  pub reconciliations : List Reconciliation

-- Assigning to the columns of the first row that passes the test.
unfoldable pub update {ℓ} : {A : Type ℓ} → (A → Bool) → (A → A) → List A → List A
update p f [] = []
update p f (x ∷ xs) = if p x then f x ∷ xs else x ∷ update p f xs

abbrev pub has_id : String → Payment → Bool
has_id payment_id p = p.id == payment_id

-- `db.query(Payment).filter(Payment.id == payment_id).one_or_none()`; `id` is the primary key
unfoldable pub find_payment : String → Db → Option Payment
unfolding find
find_payment payment_id db = find (has_id payment_id) db.payments

-- the filter of `get_existing_transition`
abbrev pub by_payment : String → PaymentAction → String → Transition → Bool
by_payment payment_id action key t =
    t.payment_id == payment_id && same_action t.action action && t.idempotency_key == key

-- the filter of `get_existing_transition_by_task`
abbrev pub by_task : String → PaymentAction → String → Transition → Bool
by_task task_id action key t =
    t.task_id == task_id && same_action t.action action && t.idempotency_key == key
