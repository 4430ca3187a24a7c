-- ===== src/Security.antt =====
-- shared/runtime/security.py: secret names and values, rejection and redaction of payloads.
pub mod Spec
pub mod Accepts
pub mod Redacts
mod Tests
use synaptica_web.Prelude.{
  ℕ, suc, String, Bool, false, ◌&&◌, ◌||◌, Option, none, some, List, [], ◌∷◌, any, length, leb,
  nat_eq, if◌then◌else◌,
}
use synaptica_web.Json.{
  Json, Items, Fields, null, bool, integer, number, str, arr, obj, nil, cons, end, field,
}
use synaptica_web.Text.{codes, within, is_hex, strip, lower, equals, starts_with, ends_with, every}

-- `SECRET_KEY_NAMES`
abbrev secret_key_names : List String
secret_key_names =
    "private_key" ∷ "funding_private_key" ∷ "verifier_private_key"
    ∷ "task_escrow_operator_private_key" ∷ "secret" ∷ "api_key" ∷ []

-- the test on `key_lower` that both walks make
unfoldable pub is_secret_name : String → Bool
unfolding lower equals ends_with any
is_secret_name key =
    let key_lower = lower (codes key) in
    any (λ name. equals key_lower (codes name)) secret_key_names
    || ends_with (codes "_private_key") key_lower

-- `HEX_PRIVATE_KEY_PATTERN`: 0x and 64 hexadecimal digits
unfoldable pub is_hex_key : List ℕ → Bool
unfolding starts_with every
is_hex_key [] = false
is_hex_key (_ ∷ []) = false
is_hex_key (c ∷ x ∷ rest) =
    nat_eq c b'0' && nat_eq x b'x' && every is_hex rest && nat_eq (length rest) 64

-- the class [1-9A-HJ-NP-Za-km-z]
abbrev is_base58 : ℕ → Bool
is_base58 c =
    within b'1' b'9' c
    || within b'A' b'H' c
    || within b'J' b'N' c
    || within b'P' b'Z' c
    || within b'a' b'k' c
    || within b'm' b'z' c

-- `BASE58_LIKE_KEY_PATTERN`: 48 or more characters of the class
unfoldable pub is_base58_key : List ℕ → Bool
unfolding every
is_base58_key s = every is_base58 s && leb 48 (length s)

-- `_looks_like_secret_key`; neither pattern matches the empty text
unfoldable pub looks_like_secret_key : Json → Bool
unfolding is_hex_key is_base58_key strip
looks_like_secret_key (str value) =
    let stripped = strip (codes value) in is_hex_key stripped || is_base58_key stripped
looks_like_secret_key _ = false

-- Where a walk stands: `payload`, then `.key` or `[index]`.
pub data Place : Type 0 where
  payload : Place
  at_key : Place → String → Place
  at_index : Place → ℕ → Place

-- `SensitivePayloadError`, with its two messages
pub data SensitivePayloadError : Type 0 where
  field_not_allowed : Place → SensitivePayloadError
  value_detected : Place → SensitivePayloadError

-- `assert_no_sensitive_payload`: `none` when it returns, the error that it raises otherwise.
unfoldable mutual
  pub assert_no_sensitive_payload : Json → Place → Option SensitivePayloadError
  assert_no_sensitive_payload (obj fs) path = assert_fields fs path
  assert_no_sensitive_payload (arr xs) path = assert_items xs path 0
  assert_no_sensitive_payload (str s) path =
      if looks_like_secret_key (str s) then some (value_detected path) else none
  assert_no_sensitive_payload null path = none
  assert_no_sensitive_payload (bool b) path = none
  assert_no_sensitive_payload (number n) path = none
  assert_no_sensitive_payload (integer z) path = none

  pub assert_fields : Fields → Place → Option SensitivePayloadError
  assert_fields end path = none
  assert_fields (field key value fs) path =
      let inner = assert_no_sensitive_payload value (at_key path key) in
      let rest = assert_fields fs path in
      if is_secret_name key
      then some (field_not_allowed (at_key path key))
      else if looks_like_secret_key value
      then some (value_detected (at_key path key))
      else elim inner [ some e ↦ some e | none ↦ rest ]

  pub assert_items : Items → Place → ℕ → Option SensitivePayloadError
  assert_items nil path index = none
  assert_items (cons value xs) path index =
      let inner = assert_no_sensitive_payload value (at_index path index) in
      let rest = assert_items xs path (suc index) in elim inner [ some e ↦ some e | none ↦ rest ]

abbrev pub redacted : Json
redacted = str "[REDACTED]"

-- `redact_sensitive_payload`
unfoldable mutual
  pub redact_sensitive_payload : Json → Json
  redact_sensitive_payload (obj fs) = obj (redact_fields fs)
  redact_sensitive_payload (arr xs) = arr (redact_items xs)
  redact_sensitive_payload (str s) = if looks_like_secret_key (str s) then redacted else str s
  redact_sensitive_payload null = null
  redact_sensitive_payload (bool b) = bool b
  redact_sensitive_payload (number n) = number n
  redact_sensitive_payload (integer z) = integer z

  pub redact_fields : Fields → Fields
  redact_fields end = end
  redact_fields (field key value fs) =
      field key (if is_secret_name key then redacted else redact_sensitive_payload value)
        (redact_fields fs)

  pub redact_items : Items → Items
  redact_items nil = nil
  redact_items (cons value xs) = cons (redact_sensitive_payload value) (redact_items xs)
