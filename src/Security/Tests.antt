-- ===== src/Security/Tests.antt =====
-- Runs of the guardrails.
use synaptica_web.Prelude.{◌≡◌, refl, true, false, none, ◌↔◌}
use synaptica_web.Json.{Json, Fields, str, obj, arr, cons, nil, end, field, get}
use synaptica_web.Security.{
  is_secret_name, looks_like_secret_key, payload, assert_no_sensitive_payload,
  redact_sensitive_payload, redact_fields,
}
use synaptica_web.Security.Spec.{keys, texts, PlainKeys, PlainTexts}
use synaptica_web.Security.Accepts.{accepted_iff}
use synaptica_web.Security.Redacts.{
  redact_hides_texts, get-redact_fields, redact_entry, redact-accepted,
}

name_test : is_secret_name "My_Private_Key" ≡ true
unfolding is_secret_name
name_test = refl

name_test2 : is_secret_name "api_key2" ≡ false
unfolding is_secret_name
name_test2 = refl

key_test :
    looks_like_secret_key
      (str " 0xaaaaaaaaaaaaaaaaaaaaaaaaaaaaaaaaaaaaaaaaaaaaaaaaaaaaaaaaaaaaaaaa\n")
    ≡ true
unfolding looks_like_secret_key
key_test = refl

abbrev secrets : Fields
secrets = field "api_key" (str "1234") (
    field "notes"
      (arr (
        cons (str "0xaaaaaaaaaaaaaaaaaaaaaaaaaaaaaaaaaaaaaaaaaaaaaaaaaaaaaaaaaaaaaaaa")
          (cons (str "hello") nil)))
      end)

abbrev plain : Json
plain = obj (field "status" (str "ok") end)

accepted_iff_example :
    (assert_no_sensitive_payload (obj secrets) payload ≡ none)
    ↔ (PlainKeys (keys (obj secrets)) × PlainTexts (texts (obj secrets)))
accepted_iff_example = accepted_iff (obj secrets) payload

redact_hides_texts_example : PlainTexts (texts (redact_sensitive_payload (obj secrets)))
redact_hides_texts_example = redact_hides_texts (obj secrets)

get-redact_fields_example :
    get "api_key" (redact_fields secrets)
    ≡ redact_entry (is_secret_name "api_key") (get "api_key" secrets)
get-redact_fields_example = get-redact_fields "api_key" secrets

plain_accepted : assert_no_sensitive_payload plain payload ≡ none
unfolding assert_no_sensitive_payload is_secret_name looks_like_secret_key
plain_accepted = refl

redact-accepted_example : redact_sensitive_payload plain ≡ plain
redact-accepted_example = redact-accepted plain payload plain_accepted
