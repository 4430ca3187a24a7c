-- ===== src/Lib.antt =====
-- A model of Synaptica, a marketplace in which agents hire and pay each other: the guardrails on
-- payloads, the payment core, the credits and the research runs of the Python server.
--
-- The parts and their files:
--   Json, Text        JSON values and texts as the server handles them.
--   Security          shared/runtime/security.py: `assert_no_sensitive_payload` and
--                     `redact_sensitive_payload`, with Security/Spec as the abstract view (the keys
--                     and texts at any depth).
--   Payments          the payment core. A tool (release, refund) looks up its payment, builds the
--                     context that names the idempotency key, and passes a runner to
--                     `run_idempotent_payment_action`, which stores the runner's result in the
--                     table of state transitions; the runner calls the escrow contract, writes
--                     the row of the payment and emits notifications as A2A messages.
--     Contracts, Errors, Db   the enums, exceptions and rows of shared/runtime/contracts.py and
--                     shared/database/models.py.
--     Session         the database session, the contract and the clock as one state (`World`), and
--                     the actions over it. An action gives a result or an error, and the state in
--                     both cases, as a raise undoes no write. `db` is what the session sees and
--                     `committed` what is committed; `commit`, `rollback` and `close` move between
--                     the two. A flush is part of `record_transition`.
--     Service, Run    shared/payments/service.py. `run_idempotent_payment_action` is in Run, its
--                     `try` block and each `except` clause a definition of its own.
--     Context         `build_idempotency_key`, and `_build_action_context` of the payment tools.
--     Messages        shared/protocols/a2a.py and a2a_transport.py.
--     Notify          the terminal notifications of shared/payments/runtime.py.
--     Reconcile       `reconcile_payment` of shared/payments/runtime.py.
--     Escrow          the calls of shared/protocols/x402.py on the escrow contract.
--     Escrow/Create   `create_payment` and `authorize_payment` of `X402Payment`.
--     Authorize, Offer, Propose  `authorize_payment` and `create_payment_request` of
--                     agents/negotiator/tools/payment_tools.py.
--     Receipts, Settle  `release_payment` and `reject_and_refund` of
--                     agents/verifier/tools/payment_tools.py. The two functions have the same
--                     shape and are one definition, `settle`, whose argument says which.
--
--   Credits           api/routes/credits.py. Credits/Webhook has the webhook, in which what a delivery
--                     has read and writes is a value (`Prepared`) that is committed onto whatever
--                     is committed by then; Credits/Once has the interleavings as a step relation.
--
--   Research          shared/research_runs/service.py: runs of a graph of nodes. `Store` is the rows of
--                     one run. The rows' times, the session state of a run and the rows that only the
--                     API shows are left out.
--     Policy          the policy of a run, and the counts of rounds (Policy/Rounds).
--     Requests        `request_pause_research_run`, `request_resume_research_run` and
--                     `request_cancel_research_run`, and `_wait_for_control_state`.
--     Report          the result that `_mark_completed` stores.
--     Executor, Finish, Retry the transactions of `ResearchRunExecutor`.
--     Evidence        the artifacts of a run, its claims and their links; Evidence/Upsert merges sources
--                     into them, up to the flush; Evidence/Scores has the scores of claims.
--     Plan            shared/research_runs/planner.py; Plan/Create has `create_research_run`, and
--                     Plan/Whole the runs that it makes.
--     Steps           `run` and `execute_node`, as a relation in which each step is a transaction of
--                     the executor or of the user. `Stage` says where the executor stands, and has
--                     the schedule in which the graph executes the nodes that are left. Steps/Diagram
--                     has the statuses of a run without the rest of it, as the API shows them, and Steps/Overruns a run that the
--                     time limit of its graph ends.
--
-- Bounds: there is no loop in this code that needs fuel; the walks over payloads and lists are
-- structural. Integers are Python's, of any size: ℕ where the code keeps a number from being
-- negative, ℤ elsewhere. A decimal amount is kept as its text, and its value in wei is a parameter.
--
-- Parameters: what is not in the repository is the record `Env` of Payments/Session: environment
-- variables, uuid4, the clock, the address functions and the hash of web3, the formats of time and
-- of decimals, the escrow contract as a function of the transactions sent before; and the record
-- `Env` of Credits/Webhook: Stripe's check of a payload at a time, the Hedera network and the database's
-- commit. The agent that works on an attempt and the graph library are steps of the relation in
-- Research/Steps that may give any result, raise at any point, and order the nodes in any way. The
-- graph comes to its end when each node of the schedule has been executed, or, before any node, at its
-- time limit, where it returns without an exception. The conversion of a Hedera account to an address, of shared/hedera/utils.py, is one of
-- the address functions. No law of them is assumed.
--
-- Concurrency: in the payment core one call runs at a time. What another session commits between
-- two calls is covered by starting from any state; an interleaving inside a call shows only as the
-- IntegrityError of a flush, whose handler is modelled. In Credits deliveries interleave, and in
-- Research the requests of a user with the executor; one executor works on a run.
--
-- Parameters of Evidence are the libraries for URLs, JSON and SHA-1 (`Library`), and whether the order
-- in which SQLAlchemy sends the changes of a flush meets a duplicate key on the way. Queries see the
-- table, and not what the session has changed since its last flush (`Session`).
--
-- The ranking of agents for a node (shared/research/catalog.py) is an argument of Plan/Create.
--
-- Not modelled: the texts of the nodes of a plan, the payloads that the API makes of them, the payment
-- profiles, the other HTTP routes, language model agents, registry and marketplace clients, and the
-- user interface.
mod Prelude
pub mod Json
pub mod Text
pub mod Security
pub mod Payments
pub mod Credits
pub mod Research
