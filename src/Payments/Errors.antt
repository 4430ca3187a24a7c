-- ===== src/Payments/Errors.antt =====
-- The exceptions that the code of shared/payments and the payment tools raises.
use synaptica_web.Prelude.{String}
use synaptica_web.Security.{SensitivePayloadError}

pub data Error : Type 0 where
  -- sqlalchemy's IntegrityError: a unique constraint is violated
  integrity_error : Error
  -- `PaymentModeError` and `PaymentConflictError` of shared/payments/service.py, with the text
  payment_mode_error : String → Error
  payment_conflict_error : String → Error
  -- `SensitivePayloadError` of shared/runtime/security.py
  sensitive_payload_error : SensitivePayloadError → Error
  value_error : String → Error
  -- whatever a foreign library raises
  other_error : String → Error

pub data Result (A : Type 0) : Type 0 where
  ok : A → Result A
  err : Error → Result A
