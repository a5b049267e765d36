-- ===== src/Metadata.antt =====
-- packages/utils/src/metadata.ts: `sanitizeMetadata`. Values that JSON cannot hold (`undefined`,
-- functions) are dropped by the source and are not among the values here.
pub mod Laws
mod Tests
use auto_ops.Prelude.{
  ℕ, zero, suc, ◌+◌, Bool, String, Option, none, some, List, [], ◌∷◌, ◌==◌, ◌<>◌, if◌then◌else◌,
  trim, is_empty, take_units,
}
use auto_ops.Prelude.Search.{matches_any}
use auto_ops.Prelude.Decimal.{decimal}
use auto_ops.Json.{
  Json, null, bool, num, str, arr, obj, Items, nil, cons, Fields, end, field, set_field,
}

abbrev pub redacted : String
redacted = "[REDACTED]"

abbrev pub max_string_length : ℕ
max_string_length = 500

abbrev pub max_keys : ℕ
max_keys = 25

-- The alternatives of `SENSITIVE_KEY_PATTERN`.
abbrev pub sensitive_words : List String
sensitive_words =
    "token" ∷ "secret" ∷ "password" ∷ "credential" ∷ "authorization" ∷ "cookie" ∷ "kubeconfig"
    ∷ "accesskey" ∷ "access_key" ∷ "secretkey" ∷ "secret_key" ∷ "apitoken" ∷ "api_token"
    ∷ "privatekey" ∷ "private_key" ∷ "clientsecret" ∷ "client_secret" ∷ "session" ∷ "bearer" ∷ []

-- `SENSITIVE_KEY_PATTERN.test(text)`
unfoldable pub is_sensitive : String → Bool
unfolding matches_any
is_sensitive = matches_any sensitive_words

-- `entries.slice(0, n)`
unfoldable pub take_fields : ℕ → Fields → Fields
take_fields zero fs = end
take_fields (suc n) end = end
take_fields (suc n) (field k v fs) = field k v (take_fields n fs)

abbrev count_items : Items → ℕ
count_items nil = 0
count_items (cons v vs) = suc (count_items vs)

-- `[${rawValue.length} items]`
pub items_text : Items → String
unfolding decimal
items_text vs = "[" <> decimal (count_items vs) <> " items]"

-- What is kept of a value under a key that is not sensitive.
unfoldable pub curate : Json → Json
unfolding is_sensitive items_text
curate null = null
curate (bool b) = bool b
curate (num n) = num n
curate (str s) = if is_sensitive s then str redacted else str (take_units max_string_length s)
curate (arr vs) = str (items_text vs)
curate (obj fs) = str "[object]"

-- `summary[key] = value` at a value that is no object: an object's `__proto__` takes none.
unfoldable pub assign : String → Json → Fields → Fields
assign key value summary = if key == "__proto__" then summary else set_field key value summary

-- One round of the loop.
unfoldable pub add_entry : String → Json → Fields → Fields
unfolding assign curate is_sensitive
add_entry raw_key value summary =
    let key = take_units 80 (trim raw_key) in
    if is_empty key
    then summary
    else assign key (if is_sensitive key then str redacted else curate value) summary

unfoldable pub add_entries : Fields → Fields → Fields
unfolding add_entry
add_entries end summary = summary
add_entries (field raw_key value rest) summary = add_entries rest (add_entry raw_key value summary)

unfoldable pub sanitize_metadata : Json → Fields
unfolding add_entries take_fields
sanitize_metadata (obj fs) = add_entries (take_fields max_keys fs) end
sanitize_metadata _ = end
