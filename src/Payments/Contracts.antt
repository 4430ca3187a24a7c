-- ===== src/Payments/Contracts.antt =====
-- shared/runtime/contracts.py and the payment enums of shared/database/models.py.
use synaptica_web.Prelude.{ℕ, List, String, Bool, true, false, Option, none, some, if◌then◌else◌}
use synaptica_web.Text.{codes, equals}
use synaptica_web.Json.{Fields}

-- `PaymentMode`
pub data PaymentMode : Type 0 where
  managed dev_env offline : PaymentMode

-- `PaymentMode.value`
abbrev pub mode_value : PaymentMode → String
mode_value managed = "managed"
mode_value dev_env = "dev_env"
mode_value offline = "offline"

-- the call `PaymentMode(text)`, on code points; `none` is its ValueError
unfoldable pub to_payment_mode : List ℕ → Option PaymentMode
unfolding equals
to_payment_mode text =
    if equals text (codes "managed")
    then some managed
    else if equals text (codes "dev_env")
    then some dev_env
    else if equals text (codes "offline")
    then some offline
    else none

-- `PaymentAction`
pub data PaymentAction : Type 0 where
  proposal authorize release refund : PaymentAction

-- `PaymentAction.value`
abbrev pub action_value : PaymentAction → String
action_value proposal = "proposal"
action_value authorize = "authorize"
action_value release = "release"
action_value refund = "refund"

abbrev pub same_action : PaymentAction → PaymentAction → Bool
same_action proposal proposal = true
same_action authorize authorize = true
same_action release release = true
same_action refund refund = true
same_action _ _ = false

-- `PaymentStatus`; shared/protocols/x402.py declares the same five values
pub data PaymentStatus : Type 0 where
  pending authorized completed failed refunded : PaymentStatus

-- `PaymentStatus.value`
abbrev pub status_value : PaymentStatus → String
status_value pending = "pending"
status_value authorized = "authorized"
status_value completed = "completed"
status_value failed = "failed"
status_value refunded = "refunded"

abbrev pub same_status : PaymentStatus → PaymentStatus → Bool
same_status pending pending = true
same_status authorized authorized = true
same_status completed completed = true
same_status failed failed = true
same_status refunded refunded = true
same_status _ _ = false

-- `PaymentActionContext`
pub record PaymentActionContext : Type 0 where
  pub payment_id : Option String
  pub task_id : String
  pub todo_id : String
  pub attempt_id : String
  pub action : PaymentAction
  pub idempotency_key : String
  pub mode : PaymentMode
  pub thread_id : Option String
  pub metadata : Fields
