-- ===== src/Redact.antt =====
-- packages/utils/src/redact.ts: `redactSecrets`. Objects are the nodes of a heap, which may share parts
-- and point back; a reference that leads nowhere stands for `undefined`.
pub mod Laws
mod Tests
use auto_ops.Prelude.{
  ℕ, zero, suc, ◌+◌, Bool, true, false, ◌||◌, String, Option, none, some, List, [], ◌∷◌,
  if◌then◌else◌, any, nat_eq, codes, length,
}
use auto_ops.Prelude.Search.{includes_any}
use auto_ops.Paging.{get_elem?}
use auto_ops.Urn.{to_lower_case}

-- A string, number, Boolean, null and the like, or a reference to an object. What a primitive is does
-- not matter here.
pub data Value : Type 0 where
  primitive : String → Value
  ref : ℕ → Value

-- An object: a `SecretValue`, a `URL` with what it prints as once its credentials are redacted, an
-- `Error` with its name, an array, or a record with its entries in order.
pub data Node : Type 0 where
  secret_value : Node
  url : (redacted_text : String) → Node
  error : (name : String) → Node
  array : List Value → Node
  entries : List (String × Value) → Node

abbrev pub Heap : Type 0
Heap = List Node

mutual
  -- What comes out.
  pub data Out : Type 0 where
    kept : String → Out
    redacted : Out
    circular : Out
    url_text : String → Out
    error_out : (name : String) (message : Out) → Out
    array_out : Outs → Out
    record_out : OutFields → Out

  pub data Outs : Type 0 where
    nil : Outs
    cons : Out → Outs → Outs

  pub data OutFields : Type 0 where
    end : OutFields
    field : String → Out → OutFields → OutFields

-- `SENSITIVE_KEY_PARTS`
abbrev pub sensitive_key_parts : List String
sensitive_key_parts =
    "token" ∷ "secret" ∷ "password" ∷ "authorization" ∷ "api_key" ∷ "apikey" ∷ "access_key"
    ∷ "private_key" ∷ "kubeconfig" ∷ "cookie" ∷ "session" ∷ "credential" ∷ []

-- `isSensitiveKey`
unfoldable pub is_sensitive_key : String → Bool
unfolding includes_any to_lower_case
is_sensitive_key key = includes_any sensitive_key_parts (to_lower_case (codes key))

-- The references that were visited.
abbrev pub Seen : Type 0
Seen = List ℕ

abbrev pub has_seen : Seen → ℕ → Bool
has_seen seen r = any (λ s. nat_eq s r) seen

-- What a visit returns, with the references visited by then; `none` where the fuel ran out.
abbrev pub Visit : Type 0 → Type 0
Visit A = Option (A × Seen)

infixl 10 ◌>>=◌
abbrev pub ◌>>=◌ : {A B : Type 0} → Visit A → (A × Seen → Visit B) → Visit B
none >>= f = none
some p >>= f = f p

-- `input.map((item) => visit(item))`
unfoldable pub visit_items : (Value → Seen → Visit Out) → List Value → Seen → Visit Outs
visit_items visit [] seen = some (nil, seen)
visit_items visit (v ∷ vs) seen = do
  (out, seen_1) ← visit v seen
  (outs, seen_2) ← visit_items visit vs seen_1
  some (cons out outs, seen_2)

-- `isSensitiveKey(key) ? REDACTED : visit(item)`
abbrev pub visit_entry : (Value → Seen → Visit Out) → String → Value → Seen → Visit Out
visit_entry visit key v seen = if is_sensitive_key key then some (redacted, seen) else visit v seen

unfoldable pub visit_entries :
    (Value → Seen → Visit Out) → List (String × Value) → Seen → Visit OutFields
unfolding is_sensitive_key
visit_entries visit [] seen = some (end, seen)
visit_entries visit ((key, v) ∷ rest) seen = do
  (out, seen_1) ← visit_entry visit key v seen
  (outs, seen_2) ← visit_entries visit rest seen_1
  some (field key out outs, seen_2)

abbrev into_array : Outs × Seen → Visit Out
into_array (outs, seen) = some (array_out outs, seen)

abbrev into_record : OutFields × Seen → Visit Out
into_record (outs, seen) = some (record_out outs, seen)

-- An object that is visited for the first time; the second argument visits what it holds.
abbrev pub visit_node : (Value → Seen → Visit Out) → Node → Seen → Visit Out
visit_node visit secret_value seen = some (redacted, seen)
visit_node visit (url text) seen = some (url_text text, seen)
visit_node visit (error name) seen = some (error_out name redacted, seen)
visit_node visit (array vs) seen = visit_items visit vs seen >>= into_array
visit_node visit (entries fs) seen = visit_entries visit fs seen >>= into_record

-- The tests of `visit`, in order.
abbrev pub visit_ref : (Value → Seen → Visit Out) → ℕ → Option Node → Seen → Visit Out
visit_ref visit r none seen = some (kept "undefined", seen)
visit_ref visit r (some secret_value) seen = some (redacted, seen)
visit_ref visit r (some node) seen =
    let first = visit_node visit node (r ∷ seen) in
    if has_seen seen r then some (circular, seen) else first

unfoldable pub visit : (fuel : ℕ) → Heap → Value → Seen → Visit Out
unfolding visit_items visit_entries any get_elem?
visit zero heap v seen = none
visit (suc fuel) heap (primitive text) seen = some (kept text, seen)
visit (suc fuel) heap (ref r) seen = visit_ref (visit fuel heap) r (get_elem? heap r) seen

-- `redactSecrets`: the fuel is one more than the objects that there are.
unfoldable pub redact_secrets : Heap → Value → Visit Out
unfolding visit
redact_secrets heap v = visit (suc (length heap)) heap v []
