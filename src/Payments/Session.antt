-- ===== src/Payments/Session.antt =====
-- A database session (sqlalchemy's `SessionLocal()`), the escrow contract and the clock, as one state,
-- and the actions of the payment code over it. What was written before a raise stays written, so
-- the state comes back beside the error too.
pub mod Leaves
pub mod Yields
use mathlib.Core.Path.{◌≡◌, refl}
use synaptica_web.Prelude.{ℤ, ◌∷◌, ℕ, suc, String, Bool, true, false, Option, none, some, List}
use synaptica_web.Json.{Json}
use synaptica_web.Payments.Errors.{Error, Result, ok, err}
use synaptica_web.Payments.Db.{Db}

-- the arguments of `createEscrow` after the identifier, and the value that is sent with it
pub record EscrowTerms : Type 0 where
  pub worker_address : String
  pub verifier_addresses : List String
  pub approvals_required : ℕ
  pub marketplace_fee_bps : ℤ
  pub verifier_fee_bps : ℤ
  pub amount_wei : ℕ

-- A transaction that is sent to the TaskEscrow contract, for the escrow of a task.
pub data ChainCall : Type 0 where
  create_escrow : String → EscrowTerms → ChainCall
  approve_release approve_refund : String → ChainCall

-- what `_send_transaction` returns: the hash, whether the receipt's `status` is 1, and two more
-- entries of the receipt
pub record Mined : Type 0 where
  pub transaction_hash : String
  pub succeeded : Bool
  pub block_number : Json
  pub gas_used : Json

-- How the web3 calls of `_send_transaction` end: a raise before the transaction is out, a raise
-- while its receipt is awaited, or the receipt.
pub data Delivery : Type 0 where
  unsent lost : Delivery
  mined : Mined → Delivery

-- What the process runs in, none of it in the repository: the environment variables, the n-th
-- `uuid.uuid4()`, the n-th reading of the clock, `datetime` and `Decimal` on texts (`wei` is an
-- amount times 10^18, rounded down), whether the Hedera client and the RPC node can be reached,
-- the address functions and the hash of web3, and the escrow contract. The contract is given the
-- transactions sent before, newest first.
pub record Env : Type 0 where
  pub getenv : String → Option String
  pub uuid4 : ℕ → String
  pub utcnow : ℕ → String
  pub naive_utc : String → String
  pub is_before : String → String → Bool
  pub format_amount : String → String
  pub wei : String → ℤ
  pub connects : Bool
  pub to_evm_address : String → Option String
  pub to_checksum_address : Json → Option String
  pub task_id_hex : String → String
  pub send_transaction : List ChainCall → ChainCall → Delivery
  pub get_escrow_status : List ChainCall → String → Option ℕ

-- The open session (`db`, with what it has not committed), what is committed, the transactions
-- sent so far, and how many identifiers and clock readings were taken.
pub record World : Type 0 where
  pub db : Db
  pub committed : Db
  pub calls : List ChainCall
  pub uuids : ℕ
  pub ticks : ℕ

abbrev pub Action : Type 0 → Type 0
Action A = World → Result A × World

module _ {A : Type 0} where
  abbrev pub pure : A → Action A
  pure a w = (ok a, w)

  abbrev pub raise : Error → Action A
  raise e w = (err e, w)

  abbrev pub gets : (World → A) → Action A
  gets f w = (ok (f w), w)

  abbrev pub or_raise : Error → Option A → Action A
  or_raise e none w = (err e, w)
  or_raise e (some a) w = (ok a, w)

  -- a query whose missing answer raises
  abbrev pub asks : Error → (World → Option A) → Action A
  asks e f w = or_raise e (f w) w

module _ {A B : Type 0} where
  abbrev pub continue : Result A → (A → Action B) → Action B
  continue (ok a) f w = f a w
  continue (err e) f w = (err e, w)

  infixl 5 ◌>>=◌ ◌>>◌
  abbrev pub ◌>>=◌ : Action A → (A → Action B) → Action B
  ◌>>=◌ m f w = let (r, w') = m w in continue r f w'

  abbrev pub ◌>>◌ : Action A → Action B → Action B
  m >> n = m >>= λ _. n

-- an `if … : raise …`
abbrev pub raise_if : Bool → Error → Action (Unit {0})
raise_if true e w = (err e, w)
raise_if false e w = (ok tt, w)

-- `SessionLocal()`, and the `db.close()` that drops what was not committed
abbrev pub open_session : World → World
open_session w = record w { db = w.committed }

abbrev pub close_session : World → World
close_session w = record w { db = w.committed }

abbrev pub commit : World → World
commit w = record w { committed = w.db }

abbrev pub rollback : World → World
rollback w = record w { db = w.committed }

-- a transaction goes out to the contract, and no rollback takes it back
abbrev pub sends : ChainCall → Action (Unit {0})
sends call w = (ok tt, record w { calls = call ∷ w.calls })

abbrev pub modify : (Db → Db) → Action (Unit {0})
modify f w = (ok tt, record w { db = f w.db })

-- `str(uuid.uuid4())` and `datetime.utcnow()`
unfoldable pub new_uuid : Env → Action String
new_uuid env w = (ok (env.uuid4 w.uuids), record w { uuids = suc w.uuids })

unfoldable pub now : Env → Action String
now env w = (ok (env.utcnow w.ticks), record w { ticks = suc w.ticks })

-- What holds of the answer and the state, if the action returned.
abbrev pub OnOk {ℓ} : {A : Type 0} → (A → World → Type ℓ) → Result A × World → Type ℓ
OnOk P (ok a, w) = P a w
OnOk P (err e, w) = Unit

pub OnOk-eq {ℓ} :
    {A : Type 0} (P : A → World → Type ℓ) (r : Result A × World) {a : A} {w : World}
    → r ≡ (ok a, w)
    → OnOk P r
    → P a w
OnOk-eq P r e h = rw e at h

pub OnOk-bind {ℓ} :
    {A B : Type 0} (P : B → World → Type ℓ) (m : Action A) (f : A → Action B) (w : World)
    → ((a : A) (u : World) → m w ≡ (ok a, u) → OnOk P (f a u))
    → OnOk P ((m >>= f) w)
OnOk-bind {A} {B} P m f w h = by_result (m w) refl
  where
    by_result : (r : Result A × World) → m w ≡ r → OnOk P (continue r.0 f r.1)
    by_result (ok a, u) e = h a u e
    by_result (err x, u) e = tt

-- The rule for a bind, with what holds of its end whether it returns or raises.
pub bind_rule {ℓ} :
    {A B : Type 0} (Q : Result B × World → Type ℓ) (m : Action A) (f : A → Action B) (w : World)
    → ((a : A) (u : World) → m w ≡ (ok a, u) → Q (f a u))
    → ((e : Error) (u : World) → m w ≡ (err e, u) → Q (err e, u))
    → Q ((m >>= f) w)
bind_rule {A} {B} Q m f w hok herr = by_result (m w) refl
  where
    by_result : (r : Result A × World) → m w ≡ r → Q (continue r.0 f r.1)
    by_result (ok a, u) e = hok a u e
    by_result (err x, u) e = herr x u e

pub OnOk-intro {ℓ} :
    {A : Type 0} (P : A → World → Type ℓ) (r : Result A × World)
    → ((a : A) (w : World) → r ≡ (ok a, w) → P a w)
    → OnOk P r
OnOk-intro P (ok a, w) h = h a w refl
OnOk-intro P (err e, w) h = tt
