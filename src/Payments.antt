-- ===== src/Payments.antt =====
-- The payment core: shared/payments, the payment tools of the negotiator and the verifier.
mod Tests
pub mod Contracts
pub mod Errors
pub mod Db
pub mod Session
pub mod Service
pub mod Run
pub mod Messages
pub mod Notify
pub mod Escrow
pub mod Context
pub mod Receipts
pub mod Settle
pub mod Authorize
pub mod Offer
pub mod Propose
pub mod Reconcile
