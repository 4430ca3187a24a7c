-- ===== src/Payments/Notify.antt =====
-- The terminal notifications of shared/payments/runtime.py.
use synaptica_web.Prelude.{String, Bool, some, [], ◌∷◌, ◌++◌, ◌==◌, any, if◌then◌else◌}
use synaptica_web.Payments.Contracts.{status_value}
use synaptica_web.Payments.Db.{Payment, Notification, update}
use synaptica_web.Payments.Session.{Env, Action, pure, modify, ◌>>=◌, ◌>>◌}
use synaptica_web.Payments.Messages.{
  A2AMessage, Settled, to_dict, publish_message, build_payment_release_message,
  build_payment_refund_message,
}

-- `_notification_role_for_recipient`
unfoldable pub notification_role_for_recipient : Payment → String → String
notification_role_for_recipient payment recipient =
    if recipient == payment.from_agent_id
    then "payer"
    else if recipient == payment.to_agent_id
    then "payee"
    else "observer"

-- the columns that `_store_payment_notification` writes to a new row and to one that is there
abbrev pub notification_of : Env → Payment → A2AMessage → String → Notification
notification_of env payment m type = record {
  payment_id = payment.id;
  task_id = payment.task_id;
  message_id = m.id;
  notification_type = type;
  recipient_agent_id = m.to_agent;
  recipient_role = notification_role_for_recipient payment m.to_agent;
  status = "delivered";
  thread_id = m.thid;
  delivered_at = env.naive_utc m.timestamp;
  payload = to_dict m;
}

abbrev pub is_notification : String → Notification → Bool
is_notification message_id n = n.message_id == message_id

-- a row that is there keeps its payment and its task
abbrev pub renotify : Notification → Notification → Notification
renotify new old = record new { payment_id = old.payment_id; task_id = old.task_id }

-- `_store_payment_notification`
unfoldable pub store_payment_notification : Env → Payment → A2AMessage → String → Action (Unit {0})
store_payment_notification env payment m type = modify λ db. record db {
  notifications =
      if any (is_notification m.id) db.notifications
      then update (is_notification m.id) (renotify (notification_of env payment m type))
          db.notifications
      else db.notifications ++ notification_of env payment m type ∷ [];
}

-- how a payment is settled, with the notes of the verifier or the reason of the refusal
pub data Settlement : Type 0 where
  released : String → Settlement
  refused : String → Settlement

abbrev pub notification_type : Settlement → String
notification_type (released notes) = "payment/released"
notification_type (refused reason) = "payment/refunded"

abbrev pub terminal_action : Settlement → String
terminal_action (released notes) = "release"
terminal_action (refused reason) = "refund"

-- the fields of the payment that the builders are given
abbrev pub settled : Payment → Settled
settled payment = record {
  payment_id = payment.id;
  task_id = payment.task_id;
  amount = payment.amount;
  currency = payment.currency;
  status = status_value payment.status;
}

-- `reason or "Rejected"`
abbrev or_rejected : String → String
or_rejected reason = if reason == "" then "Rejected" else reason

-- the call of `message_builder`; both callers pass the receipt's transaction
unfoldable pub build_terminal_message :
    Env → Payment → String → String → String → Settlement → String → Action A2AMessage
build_terminal_message env payment verifier recipient thread_id (released notes) transaction_id =
    build_payment_release_message env (settled payment) verifier recipient thread_id transaction_id
      (some notes)
build_terminal_message env payment verifier recipient thread_id (refused reason) transaction_id =
    build_payment_refund_message env (settled payment) verifier recipient thread_id
      (some transaction_id) (or_rejected reason)

-- the body of the loop of `emit_terminal_payment_notifications`
unfoldable pub emit_terminal_notification :
    Env → Payment → String → String → Settlement → String → String → String → Action A2AMessage
emit_terminal_notification env payment verifier thread_id how transaction_id role recipient = do
  message ← build_terminal_message env payment verifier recipient thread_id how transaction_id
  publish_message env message ("payment" ∷ terminal_action how ∷ role ∷ [])
  store_payment_notification env payment message (notification_type how)
  pure message

-- `emit_terminal_payment_notifications`: the messages to the payer and to the payee
unfoldable pub emit_terminal_payment_notifications :
    Env → Payment → String → String → Settlement → String → Action (A2AMessage × A2AMessage)
emit_terminal_payment_notifications env payment verifier thread_id how transaction_id = do
  payer ←
      emit_terminal_notification env payment verifier thread_id how transaction_id "payer"
        payment.from_agent_id
  payee ←
      emit_terminal_notification env payment verifier thread_id how transaction_id "payee"
        payment.to_agent_id
  pure (payer, payee)
