-- ===== src/Security/Spec.antt =====
-- The keys and the texts that stand anywhere in a payload, by which the guardrails of
-- shared/runtime/security.py are judged.
use synaptica_web.Prelude.{String, false, ◌≡◌, List, [], ◌∷◌, ◌++◌, All}
use synaptica_web.Json.{Json, Items, Fields, str, arr, obj, nil, cons, end, field}
use synaptica_web.Security.{is_secret_name, looks_like_secret_key}

-- every key of every dict in the payload
unfoldable mutual
  pub keys : Json → List String
  keys (obj fs) = keys_fields fs
  keys (arr xs) = keys_items xs
  keys _ = []

  pub keys_fields : Fields → List String
  keys_fields end = []
  keys_fields (field k v fs) = k ∷ (keys v ++ keys_fields fs)

  pub keys_items : Items → List String
  keys_items nil = []
  keys_items (cons v xs) = keys v ++ keys_items xs

-- every text value in the payload
unfoldable mutual
  pub texts : Json → List String
  texts (str s) = s ∷ []
  texts (obj fs) = texts_fields fs
  texts (arr xs) = texts_items xs
  texts _ = []

  pub texts_fields : Fields → List String
  texts_fields end = []
  texts_fields (field k v fs) = texts v ++ texts_fields fs

  pub texts_items : Items → List String
  texts_items nil = []
  texts_items (cons v xs) = texts v ++ texts_items xs

abbrev pub PlainKey : String → Type 0
PlainKey k = is_secret_name k ≡ false

abbrev pub PlainText : String → Type 0
PlainText s = looks_like_secret_key (str s) ≡ false

abbrev pub PlainKeys : List String → Type 0
PlainKeys = All PlainKey

abbrev pub PlainTexts : List String → Type 0
PlainTexts = All PlainText
