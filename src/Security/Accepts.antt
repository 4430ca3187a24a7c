-- ===== src/Security/Accepts.antt =====
-- When `assert_no_sensitive_payload` (shared/runtime/security.py) accepts a payload.
use synaptica_web.Prelude.{
  ℕ, suc, String, false, ◌≡◌, refl, ◌↔◌, none, All-append, All-split, arith,
}
use synaptica_web.Json.{
  Json, Items, Fields, null, bool, number, integer, str, arr, obj, nil, cons, end, field,
}
use synaptica_web.Security.{
  Place, at_key, at_index, looks_like_secret_key, assert_no_sensitive_payload, assert_fields,
  assert_items,
}
use synaptica_web.Security.Spec.{
  keys, keys_fields, keys_items, texts, texts_fields, texts_items, PlainKey, PlainText, PlainKeys,
  PlainTexts,
}

field_accepted :
    (key : String) (value : Json) (fs : Fields) (path : Place)
    → assert_fields (field key value fs) path ≡ none
    → PlainKey key
      × (assert_no_sensitive_payload value (at_key path key) ≡ none)
      × (assert_fields fs path ≡ none)
unfolding assert_no_sensitive_payload
field_accepted key value fs path h = ground arith

item_accepted :
    (value : Json) (xs : Items) (path : Place) (index : ℕ)
    → assert_items (cons value xs) path index ≡ none
    → (assert_no_sensitive_payload value (at_index path index) ≡ none)
      × (assert_items xs path (suc index) ≡ none)
unfolding assert_no_sensitive_payload
item_accepted value xs path index h = ground arith

mutual
  unfolding assert_no_sensitive_payload keys texts

  pub accepted-plain :
      (p : Json) (path : Place)
      → assert_no_sensitive_payload p path ≡ none
      → PlainKeys (keys p) × PlainTexts (texts p)
  accepted-plain null path h = (tt, tt)
  accepted-plain (bool b) path h = (tt, tt)
  accepted-plain (number n) path h = (tt, tt)
  accepted-plain (integer z) path h = (tt, tt)
  accepted-plain (str s) path h = (tt, (ground arith, tt))
  accepted-plain (arr xs) path h = accepted_items-plain xs path 0 h
  accepted-plain (obj fs) path h = accepted_fields-plain fs path h

  accepted_items-plain :
      (xs : Items) (path : Place) (index : ℕ)
      → assert_items xs path index ≡ none
      → PlainKeys (keys_items xs) × PlainTexts (texts_items xs)
  accepted_items-plain nil path index h = (tt, tt)
  accepted_items-plain (cons v xs) path index h =
      let (hv, hxs) = item_accepted v xs path index h in
      let (kv, tv) = accepted-plain v (at_index path index) hv in
      let (kxs, txs) = accepted_items-plain xs path (suc index) hxs in
      (All-append PlainKey (keys v) _ kv kxs, All-append PlainText (texts v) _ tv txs)

  accepted_fields-plain :
      (fs : Fields) (path : Place)
      → assert_fields fs path ≡ none
      → PlainKeys (keys_fields fs) × PlainTexts (texts_fields fs)
  accepted_fields-plain end path h = (tt, tt)
  accepted_fields-plain (field k v fs) path h =
      let (hk, hv, hfs) = field_accepted k v fs path h in
      let (kv, tv) = accepted-plain v (at_key path k) hv in
      let (kfs, tfs) = accepted_fields-plain fs path hfs in
      ((hk, All-append PlainKey (keys v) _ kv kfs), All-append PlainText (texts v) _ tv tfs)

looks_like-plain : (p : Json) → PlainTexts (texts p) → looks_like_secret_key p ≡ false
unfolding texts looks_like_secret_key
looks_like-plain (str s) h = h.0
looks_like-plain null h = refl
looks_like-plain _ h = refl

item_accepts :
    (value : Json) (xs : Items) (path : Place) (index : ℕ)
    → assert_no_sensitive_payload value (at_index path index) ≡ none
    → assert_items xs path (suc index) ≡ none
    → assert_items (cons value xs) path index ≡ none
unfolding assert_no_sensitive_payload
item_accepts value xs path index hv hxs = ground arith

field_accepts :
    (key : String) (value : Json) (fs : Fields) (path : Place)
    → PlainKey key
    → looks_like_secret_key value ≡ false
    → assert_no_sensitive_payload value (at_key path key) ≡ none
    → assert_fields fs path ≡ none
    → assert_fields (field key value fs) path ≡ none
unfolding assert_no_sensitive_payload
field_accepts key value fs path hk hl hv hfs = ground arith

mutual
  unfolding assert_no_sensitive_payload keys texts

  plain-accepted :
      (p : Json) (path : Place)
      → PlainKeys (keys p)
      → PlainTexts (texts p)
      → assert_no_sensitive_payload p path ≡ none
  plain-accepted null path hk ht = refl
  plain-accepted (bool b) path hk ht = refl
  plain-accepted (number n) path hk ht = refl
  plain-accepted (integer z) path hk ht = refl
  plain-accepted (str s) path hk ht = ground arith
  plain-accepted (arr xs) path hk ht = plain_items-accepted xs path 0 hk ht
  plain-accepted (obj fs) path hk ht = plain_fields-accepted fs path hk ht

  plain_items-accepted :
      (xs : Items) (path : Place) (index : ℕ)
      → PlainKeys (keys_items xs)
      → PlainTexts (texts_items xs)
      → assert_items xs path index ≡ none
  plain_items-accepted nil path index hk ht = refl
  plain_items-accepted (cons v xs) path index hk ht =
      let (kv, kxs) = All-split PlainKey (keys v) _ hk in
      let (tv, txs) = All-split PlainText (texts v) _ ht in
      item_accepts v xs path index (plain-accepted v (at_index path index) kv tv)
        (plain_items-accepted xs path (suc index) kxs txs)

  plain_fields-accepted :
      (fs : Fields) (path : Place)
      → PlainKeys (keys_fields fs)
      → PlainTexts (texts_fields fs)
      → assert_fields fs path ≡ none
  plain_fields-accepted end path hk ht = refl
  plain_fields-accepted (field k v fs) path hk ht =
      let (kv, kfs) = All-split PlainKey (keys v) _ hk.1 in
      let (tv, tfs) = All-split PlainText (texts v) _ ht in
      field_accepts k v fs path hk.0 (looks_like-plain v tv)
        (plain-accepted v (at_key path k) kv tv) (plain_fields-accepted fs path kfs tfs)

-- A payload is accepted exactly when no key of a dict at any depth is a secret name, and no text
-- at any depth looks like a secret; where the walk starts does not matter.
pub accepted_iff :
    (p : Json) (path : Place)
    → (assert_no_sensitive_payload p path ≡ none) ↔ (PlainKeys (keys p) × PlainTexts (texts p))
accepted_iff p path = (accepted-plain p path, λ h. plain-accepted p path h.0 h.1)
