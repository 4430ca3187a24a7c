-- ===== src/Payments/Messages.antt =====
-- shared/protocols/a2a.py, and what shared/protocols/a2a_transport.py stores of a message. The
-- webhooks that `_dispatch_webhooks` calls change nothing that the payment code reads; a failure
-- there is logged and dropped.
use Prim.Native.String.{◌++◌ as concat}
use synaptica_web.Prelude.{
  String, Bool, Option, none, some, List, [], ◌∷◌, ◌++◌, ◌==◌, any, if◌then◌else◌,
}
use synaptica_web.Json.{Json, Fields, str, obj, end, field}
use synaptica_web.Payments.Db.{Event, update}
use synaptica_web.Payments.Session.{Env, Action, pure, modify, new_uuid, now, ◌>>=◌}

-- `A2A_PAYMENT_PROTOCOL_URI`
abbrev pub payment_protocol : String
payment_protocol = "a2a://x402-payment/1.0"

-- `A2AMessage`
pub record A2AMessage : Type 0 where
  pub id : String
  pub type : String
  pub from_agent : String
  pub to_agent : String
  pub thid : String
  pub timestamp : String
  pub body : Fields

-- `new_thread_id`
unfoldable pub new_thread_id : String → String → String
new_thread_id task_id payment_id = concat "a2a:" (concat task_id (concat ":" payment_id))

-- `A2AMessage.to_dict`
unfoldable pub to_dict : A2AMessage → Json
to_dict m = obj (
    field "id" (str m.id) (
      field "protocol" (str payment_protocol) (
        field "type" (str m.type) (
          field "from" (str m.from_agent) (
            field "to" (str m.to_agent) (
              field "thid" (str m.thid)
                (field "timestamp" (str m.timestamp) (field "body" (obj m.body) end))))))))

-- an optional entry at the end of a body: `if text: body[key] = text`
abbrev pub optional : String → Option String → Fields
optional key none = end
optional key (some text) = if text == "" then end else field key (str text) end

-- the envelope that each builder makes: a fresh identifier, then the time
unfoldable pub new_message : Env → String → String → String → String → Fields → Action A2AMessage
new_message env type from_agent to_agent thid body = do
  id ← new_uuid env
  timestamp ← now env
  pure (record {
    id = id;
    type = type;
    from_agent = from_agent;
    to_agent = to_agent;
    thid = thid;
    timestamp = timestamp;
    body = body;
  })

-- what the settlement builders are given of the payment
pub record Settled : Type 0 where
  pub payment_id : String
  pub task_id : String
  pub amount : String
  pub currency : String
  pub status : String

-- `build_payment_release_message`
unfoldable pub build_payment_release_message :
    Env → Settled → String → String → String → String → Option String → Action A2AMessage
build_payment_release_message env p from_agent to_agent thread_id transaction_id notes =
    new_message env "payment/released" from_agent to_agent thread_id (
      field "payment_id" (str p.payment_id) (
        field "task_id" (str p.task_id) (
          field "amount" (str (env.format_amount p.amount)) (
            field "currency" (str p.currency) (
              field "transaction_id" (str transaction_id)
                (field "status" (str p.status) (optional "verification_notes" notes)))))))

-- `build_payment_refund_message`
unfoldable pub build_payment_refund_message :
    Env → Settled → String → String → String → Option String → String → Action A2AMessage
build_payment_refund_message env p from_agent to_agent thread_id transaction_id reason =
    new_message env "payment/refunded" from_agent to_agent thread_id (
      field "payment_id" (str p.payment_id) (
        field "task_id" (str p.task_id) (
          field "amount" (str (env.format_amount p.amount)) (
            field "currency" (str p.currency) (
              field "status" (str p.status) (
                field "rejection_reason" (str reason)
                  (optional "transaction_id" transaction_id)))))))

-- `build_payment_authorized_message`
unfoldable pub build_payment_authorized_message :
    Env → Settled → String → String → String → String → Action A2AMessage
build_payment_authorized_message env p from_agent to_agent thread_id transaction_id =
    new_message env "payment/authorized" from_agent to_agent thread_id (
      field "payment_id" (str p.payment_id) (
        field "task_id" (str p.task_id) (
          field "amount" (str (env.format_amount p.amount)) (
            field "currency" (str p.currency) (
              field "transaction_id" (str transaction_id)
                (field "status" (str "authorized") end))))))

-- the row that `_persist_event` writes for a message
abbrev pub event_of : Env → A2AMessage → List String → Event
event_of env m tags = record {
  message_id = m.id;
  protocol = payment_protocol;
  message_type = m.type;
  from_agent = m.from_agent;
  to_agent = m.to_agent;
  thread_id = m.thid;
  timestamp = env.naive_utc m.timestamp;
  tags = tags;
  body = to_dict m;
}

abbrev pub is_event : String → Event → Bool
is_event message_id e = e.message_id == message_id

-- `publish_message` with a session: the row is rewritten where the message is known, and added
-- where it is not
unfoldable pub publish_message : Env → A2AMessage → List String → Action (Unit {0})
publish_message env m tags = modify λ db. record db {
  events =
      if any (is_event m.id) db.events
      then update (is_event m.id) (λ _. event_of env m tags) db.events
      else db.events ++ event_of env m tags ∷ [];
}
