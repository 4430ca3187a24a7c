-- ===== src/Payments/Tests.antt =====
-- Runs of the payment code at concrete states.
mod Data
mod Settlements
mod Proposals
mod Reconciliations
