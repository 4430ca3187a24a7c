-- ===== src/Security/Redacts.antt =====
-- What `redact_sensitive_payload` (shared/runtime/security.py) leaves in a payload.
use synaptica_web.Prelude.{
  String, Bool, ◌≡◌, refl, ap, Option, none, some, All-append, All-split, Bool-cases, inl, inr,
  arith, if◌then◌else◌, eq_iff,
}
use synaptica_web.Json.{
  Json, Items, Fields, null, bool, number, integer, str, arr, obj, nil, cons, end, field, get,
}
use synaptica_web.Security.{
  Place, is_secret_name, looks_like_secret_key, assert_no_sensitive_payload, redacted,
  redact_sensitive_payload, redact_fields, redact_items,
}
use synaptica_web.Security.Spec.{
  keys, keys_fields, keys_items, texts, texts_fields, texts_items, PlainKey, PlainText, PlainKeys,
  PlainTexts,
}
use synaptica_web.Security.Accepts.{accepted-plain}

texts-redacted : PlainTexts (texts redacted)
unfolding texts looks_like_secret_key
texts-redacted = (refl, tt)

mutual
  unfolding redact_sensitive_payload texts

  redact-plain : (p : Json) → PlainTexts (texts (redact_sensitive_payload p))
  redact-plain null = tt
  redact-plain (bool b) = tt
  redact-plain (number n) = tt
  redact-plain (integer z) = tt
  redact-plain (str s) = elim (Bool-cases (looks_like_secret_key (str s))) [
    | inl e ↦ rw e texts-redacted
    | inr e ↦ rw e (e, tt)
  ]
  redact-plain (arr xs) = redact_items-plain xs
  redact-plain (obj fs) = redact_fields-plain fs

  redact_items-plain : (xs : Items) → PlainTexts (texts_items (redact_items xs))
  redact_items-plain nil = tt
  redact_items-plain (cons v xs) =
      All-append PlainText (texts (redact_sensitive_payload v)) _ (redact-plain v)
        (redact_items-plain xs)

  redact_fields-plain : (fs : Fields) → PlainTexts (texts_fields (redact_fields fs))
  redact_fields-plain end = tt
  redact_fields-plain (field k v fs) = elim (Bool-cases (is_secret_name k)) [
    | inl e ↦ rw e (All-append PlainText (texts redacted) _ texts-redacted (redact_fields-plain fs))
    | inr e ↦ rw e (
        All-append PlainText (texts (redact_sensitive_payload v)) _ (redact-plain v)
          (redact_fields-plain fs))
  ]

-- After redaction no text at any depth of the payload looks like a secret.
pub redact_hides_texts : (p : Json) → PlainTexts (texts (redact_sensitive_payload p))
redact_hides_texts p = redact-plain p

-- what redaction leaves under a key of a dict
abbrev pub redact_entry : Bool → Option Json → Option Json
redact_entry secret none = none
redact_entry secret (some v) = some (if secret then redacted else redact_sensitive_payload v)

-- Redaction keeps the keys of a dict. Under a secret name it leaves the marker, whatever stood
-- there, and under another key the redacted value.
pub get-redact_fields :
    (k : String) (fs : Fields)
    → get k (redact_fields fs) ≡ redact_entry (is_secret_name k) (get k fs)
unfolding get redact_sensitive_payload
get-redact_fields k end = refl
get-redact_fields k (field j v fs) = ground (arith, eq_iff j k, get-redact_fields k fs)

mutual
  unfolding redact_sensitive_payload keys texts

  redact-unchanged :
      (p : Json) → PlainKeys (keys p) → PlainTexts (texts p) → redact_sensitive_payload p ≡ p
  redact-unchanged null hk ht = refl
  redact-unchanged (bool b) hk ht = refl
  redact-unchanged (number n) hk ht = refl
  redact-unchanged (integer z) hk ht = refl
  redact-unchanged (str s) hk ht = rw ht.0 refl
  redact-unchanged (arr xs) hk ht = ap arr (redact_items-unchanged xs hk ht)
  redact-unchanged (obj fs) hk ht = ap obj (redact_fields-unchanged fs hk ht)

  redact_items-unchanged :
      (xs : Items) → PlainKeys (keys_items xs) → PlainTexts (texts_items xs) → redact_items xs ≡ xs
  redact_items-unchanged nil hk ht = refl
  redact_items-unchanged (cons v xs) hk ht =
      let (kv, kxs) = All-split PlainKey (keys v) _ hk in
      let (tv, txs) = All-split PlainText (texts v) _ ht in
      cc (redact-unchanged v kv tv, redact_items-unchanged xs kxs txs)

  redact_fields-unchanged :
      (fs : Fields)
      → PlainKeys (keys_fields fs)
      → PlainTexts (texts_fields fs)
      → redact_fields fs ≡ fs
  redact_fields-unchanged end hk ht = refl
  redact_fields-unchanged (field k v fs) hk ht =
      let (kv, kfs) = All-split PlainKey (keys v) _ hk.1 in
      let (tv, tfs) = All-split PlainText (texts v) _ ht in
      rw hk.0 (cc (redact-unchanged v kv tv, redact_fields-unchanged fs kfs tfs))

-- A payload that the guard accepts is stored as it is: redaction changes nothing in it.
pub redact-accepted :
    (p : Json) (path : Place)
    → assert_no_sensitive_payload p path ≡ none
    → redact_sensitive_payload p ≡ p
redact-accepted p path h = let (hk, ht) = accepted-plain p path h in redact-unchanged p hk ht
