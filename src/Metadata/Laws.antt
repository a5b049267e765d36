-- ===== src/Metadata/Laws.antt =====
-- metadata.ts: what `sanitizeMetadata` lets through.
use auto_ops.Prelude.{
  ℕ, zero, suc, ◌+◌, ◌≤◌, ◌≡◌, ◌⊎◌, inl, inr, refl, sym, subst, true, false, String, ◌==◌,
  if◌then◌else◌, arith, eq_iff, Bool-cases, trim, is_empty, take_units, lower_codes,
}
use auto_ops.Prelude.Units.{units, units-take_units, take_units_prefix}
use auto_ops.Prelude.Search.{matches_any, includes_any-append}
use auto_ops.Json.{Json, null, bool, num, str, arr, obj, Items, Fields, end, field, set_field}
use auto_ops.Metadata.{
  redacted, max_string_length, max_keys, is_sensitive, sensitive_words, take_fields, items_text,
  curate, assign, add_entry, add_entries, sanitize_metadata,
}

abbrev pub count_fields : Fields → ℕ
count_fields end = 0
count_fields (field k v fs) = suc (count_fields fs)

-- A text that may be shown: one of the two marks, the count of an array, or at most 500 units without a
-- sensitive word.
abbrev pub IsShown : String → Type 0
IsShown s =
    (s ≡ redacted)
    ⊎ (s ≡ "[object]")
    ⊎ ((vs : Items) × (s ≡ items_text vs))
    ⊎ ((units s ≤ max_string_length) × (is_sensitive s ≡ false))

abbrev pub IsCurated : Json → Type 0
IsCurated (str s) = IsShown s
IsCurated (arr vs) = ⊥
IsCurated (obj fs) = ⊥
IsCurated _ = Unit

-- A sensitive key has the mark for its value, and any other a curated value.
abbrev pub IsSafe : String → Json → Type 0
IsSafe key value = IsCurated value × (is_sensitive key ≡ true → value ≡ str redacted)

abbrev pub AllSafe : Fields → Type 0
AllSafe end = Unit
AllSafe (field k v fs) = IsSafe k v × AllSafe fs

-- What is cut from a text without a sensitive word has none.
cut-clean : (n : ℕ) (s : String) → is_sensitive s ≡ false → is_sensitive (take_units n s) ≡ false
unfolding is_sensitive matches_any
cut-clean n s clean = elim (Bool-cases (is_sensitive (take_units n s))) [
  | inl dirty ↦
      let (rest, same) = take_units_prefix n s in
      let whole = includes_any-append sensitive_words (lower_codes (take_units n s)) rest dirty in
      let bad = rw (← same) at whole in cc
  | inr c ↦ c
]

curate-IsCurated : (v : Json) → IsCurated (curate v)
unfolding curate
curate-IsCurated null = tt
curate-IsCurated (bool b) = tt
curate-IsCurated (num n) = tt
curate-IsCurated (str s) = elim (Bool-cases (is_sensitive s)) [
  | inl e ↦ rw e (inl refl)
  | inr e ↦ rw e (inr (inr (inr (units-take_units 500 s, cut-clean 500 s e))))
]
curate-IsCurated (arr vs) = inr (inr (inl (vs, refl)))
curate-IsCurated (obj fs) = inr (inl refl)

entry-IsSafe :
    (key : String) (value : Json)
    → IsSafe key (if is_sensitive key then str redacted else curate value)
entry-IsSafe key value = elim (Bool-cases (is_sensitive key)) [
  | inl e ↦ rw e (inl refl, λ _. refl)
  | inr e ↦ rw e (curate-IsCurated value, λ bad. absurd (cc))
]

set_field-AllSafe :
    (key : String) (value : Json) (fs : Fields)
    → IsSafe key value
    → AllSafe fs
    → AllSafe (set_field key value fs)
unfolding set_field
set_field-AllSafe key value end safe h = (safe, tt)
set_field-AllSafe key value (field j w fs) safe (head, h) = elim (Bool-cases (j == key)) [
  | inl e ↦ rw e (subst (λ k. IsSafe k value) (sym ((eq_iff j key).0 e)) safe, h)
  | inr e ↦ rw e (head, set_field-AllSafe key value fs safe h)
]

count-set_field :
    (key : String) (value : Json) (fs : Fields)
    → count_fields (set_field key value fs) ≤ count_fields fs + 1
unfolding set_field
count-set_field key value end = omega arith
count-set_field key value (field j w fs) = elim (Bool-cases (j == key)) [
  | inl e ↦ rw e (omega arith)
  | inr e ↦ rw e (omega (arith, count-set_field key value fs))
]

assign_lem :
    (key : String) (value : Json) (fs : Fields)
    → IsSafe key value
    → AllSafe fs
    → AllSafe (assign key value fs) × (count_fields (assign key value fs) ≤ count_fields fs + 1)
unfolding assign
assign_lem key value fs safe h = elim (Bool-cases (key == "__proto__")) [
  | inl e ↦ rw e (h, omega arith)
  | inr e ↦ rw e (set_field-AllSafe key value fs safe h, count-set_field key value fs)
]

add_entry_lem :
    (raw_key : String) (value : Json) (fs : Fields)
    → AllSafe fs
    → AllSafe (add_entry raw_key value fs)
      × (count_fields (add_entry raw_key value fs) ≤ count_fields fs + 1)
unfolding add_entry
add_entry_lem raw_key value fs h =
    let key = take_units 80 (trim raw_key) in
    elim (Bool-cases (is_empty key)) [
      | inl e ↦ rw e (h, omega arith)
      | inr e ↦ rw e (assign_lem key _ fs (entry-IsSafe key value) h)
    ]

add_entries_lem :
    (entries fs : Fields)
    → AllSafe fs
    → AllSafe (add_entries entries fs)
      × (count_fields (add_entries entries fs) ≤ count_fields fs + count_fields entries)
unfolding add_entries
add_entries_lem end fs h = (h, omega arith)
add_entries_lem (field k v rest) fs h =
    let (safe, one) = add_entry_lem k v fs h in
    let (all_safe, others) = add_entries_lem rest (add_entry k v fs) safe in
    (all_safe, omega (arith, one, others))

count-take_fields : (n : ℕ) (fs : Fields) → count_fields (take_fields n fs) ≤ n
unfolding take_fields
count-take_fields zero fs = omega arith
count-take_fields (suc n) end = omega arith
count-take_fields (suc n) (field k v fs) = omega (arith, count-take_fields n fs)

-- Sanitized metadata has at most 25 keys. A key with a sensitive word has the mark for its value. Every
-- other value is null, a Boolean, a number or a text, and the text is one of the marks, the count of an
-- array's items, or at most 500 units long and without a sensitive word.
pub sanitize_metadata-AllSafe :
    (value : Json)
    → AllSafe (sanitize_metadata value) × (count_fields (sanitize_metadata value) ≤ max_keys)
unfolding sanitize_metadata
sanitize_metadata-AllSafe (obj fs) =
    let (safe, added) = add_entries_lem (take_fields max_keys fs) end tt in
    (safe, omega (arith, added, count-take_fields max_keys fs))
sanitize_metadata-AllSafe null = (tt, omega arith)
sanitize_metadata-AllSafe (bool b) = (tt, omega arith)
sanitize_metadata-AllSafe (num n) = (tt, omega arith)
sanitize_metadata-AllSafe (str s) = (tt, omega arith)
sanitize_metadata-AllSafe (arr vs) = (tt, omega arith)
