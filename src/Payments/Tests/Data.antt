-- ===== src/Payments/Tests/Data.antt =====
-- States and environments for the runs of the payment code.
use Prim.Native.String.{◌++◌ as concat}
use synaptica_web.Prelude.{
  Option, none, false, ℕ, zero, suc, String, true, none, some, [], ◌∷◌, ◌==◌, if◌then◌else◌,
}
use synaptica_web.Json.{Json, str, end, field}
use synaptica_web.Payments.Contracts.{PaymentStatus, release, offline, PaymentActionContext}
use synaptica_web.Payments.Db.{Db, Payment}
use synaptica_web.Payments.Session.{Env, World}
use synaptica_web.Payments.Session.{Mined, mined, unsent}
use synaptica_web.Prelude.{pos}
use synaptica_web.Json.{integer}

abbrev pub tally : ℕ → String
tally zero = "#"
tally (suc n) = concat "i" (tally n)

abbrev address_of : Json → Option String
address_of (str a) = some a
address_of _ = none

abbrev pub offline_env : Env
offline_env = record {
  getenv = λ name. if name == "PAYMENT_MODE" then some "offline" else none;
  uuid4 = λ n. concat "uuid-" (tally n);
  utcnow = λ n. concat "time-" (tally n);
  naive_utc = λ t. t;
  is_before = λ a b. false;
  format_amount = λ a. a;
  wei = λ a. pos 1500000000000000000;
  connects = true;
  to_evm_address = λ a. some a;
  to_checksum_address = address_of;
  task_id_hex = λ k. k;
  send_transaction = λ sent call. unsent;
  get_escrow_status = λ sent key. some 3;
}

abbrev pub payment_in : PaymentStatus → Payment
payment_in status = record {
  id = "p1";
  task_id = "t1";
  from_agent_id = "payer-agent";
  to_agent_id = "payee-agent";
  amount = "1.5";
  currency = "HBAR";
  status = status;
  transaction_id = none;
  authorization_id = none;
  completed_at = none;
  meta = field "worker_address" (str "0xabc") end;
}

abbrev pub tables : PaymentStatus → Db
tables status = record {
  payments = payment_in status ∷ [];
  transitions = [];
  notifications = [];
  events = [];
  reconciliations = [];
}

abbrev pub world : PaymentStatus → World
world status = record {
  db = tables status;
  committed = tables status;
  calls = [];
  uuids = 0;
  ticks = 0;
}

abbrev pub context : PaymentActionContext
context = record {
  payment_id = some "p1";
  task_id = "t1";
  todo_id = "todo_0";
  attempt_id = "attempt_0";
  action = release;
  idempotency_key = "t1:todo_0:attempt_0:release";
  mode = offline;
  thread_id = none;
  metadata = end;
}

-- an environment in managed mode, whose contract mines every transaction
abbrev pub receipt : Mined
receipt = record {
  transaction_hash = "0xhash";
  succeeded = true;
  block_number = integer (pos 7);
  gas_used = integer (pos 21000);
}

abbrev pub mining_env : Env
mining_env = record offline_env {
  getenv = λ name.
      if name == "PAYMENT_MODE"
      then some "managed"
      else if name == "TASK_ESCROW_ADDRESS"
      then some "0xescrow"
      else if name == "TASK_ESCROW_MARKETPLACE_TREASURY"
      then some "0xtreasury"
      else if name == "TASK_ESCROW_OPERATOR_PRIVATE_KEY"
      then some "0xoperator"
      else none;
  send_transaction = λ sent call. mined receipt;
}
