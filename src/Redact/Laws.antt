-- ===== src/Redact/Laws.antt =====
-- redact.ts: `redactSecrets` ends, whatever points where, and shows no secret.
use auto_ops.Prelude.{
  ℕ, zero, suc, ◌+◌, ◌≤◌, ◌<◌, ◌≡◌, refl, subst, Bool, true, false, ◌&&◌, String, Option, none,
  some, List, [], ◌∷◌, if◌then◌else◌, any, arith, nat_eq, length, Bool-cases, inl, inr,
}
use auto_ops.Paging.{get_elem?}
use auto_ops.Redact.{
  Value, primitive, ref, Node, secret_value, url, error, array, entries, Heap, Out, kept, redacted,
  circular, url_text, error_out, array_out, record_out, Outs, nil, cons, OutFields, end, field,
  Seen, has_seen, Visit, ◌>>=◌, is_sensitive_key, visit_items, visit_entries, into_array,
  into_record, visit_entry, visit_node, visit_ref, visit, redact_secrets,
}

abbrev pub is_redacted : Out → Bool
is_redacted redacted = true
is_redacted _ = false

mutual
  -- Every error's message, and every entry under a sensitive key, is redacted, at any depth.
  pub shows_no_secret : Out → Bool
  shows_no_secret (kept s) = true
  shows_no_secret redacted = true
  shows_no_secret circular = true
  shows_no_secret (url_text s) = true
  shows_no_secret (error_out name message) = is_redacted message
  shows_no_secret (array_out outs) = show_no_secret outs
  shows_no_secret (record_out fs) = fields_show_no_secret fs

  pub show_no_secret : Outs → Bool
  show_no_secret nil = true
  show_no_secret (cons o os) = shows_no_secret o && show_no_secret os

  pub fields_show_no_secret : OutFields → Bool
  fields_show_no_secret end = true
  fields_show_no_secret (field key o fs) =
      (if is_sensitive_key key then is_redacted o else shows_no_secret o)
      && fields_show_no_secret fs

-- The references below a bound that were not visited yet.
unfoldable unseen : ℕ → Seen → ℕ
unseen zero seen = zero
unseen (suc n) seen = (if has_seen seen n then 0 else 1) + unseen n seen

unseen-more : (n r : ℕ) (seen : Seen) → unseen n (r ∷ seen) ≤ unseen n seen
unfolding unseen any
unseen-more zero r seen = omega arith
unseen-more (suc n) r seen =
    let rest = unseen-more n r seen in
    elim (Bool-cases (nat_eq r n)) [
      | inl e ↦ rw e (omega (arith, rest))
      | inr e ↦ rw e (omega (arith, rest))
    ]

unseen-less :
    (n r : ℕ) (seen : Seen) → r < n → has_seen seen r ≡ false → unseen n (r ∷ seen) < unseen n seen
unfolding unseen any
unseen-less zero r seen below new = absurd (omega (arith, below))
unseen-less (suc n) r seen below new = elim (Bool-cases (nat_eq r n)) [
  | inl e ↦
      let same : r ≡ n = ground (arith, e) in
      let rest = unseen-more n r seen in
      let here = subst (λ k. has_seen seen k ≡ false) same new in rw (e, here) (omega (arith, rest))
  | inr e ↦
      let rest = unseen-less n r seen (ground (arith, e, below)) new in rw e (omega (arith, rest))
]

-- A visit ends with a result that passes, and leaves fewer than so many references unvisited.
abbrev EndsWithin : {A : Type 0} → (A → Bool) → (n m : ℕ) → Visit A → Type 0
EndsWithin passes n m none = ⊥
EndsWithin passes n m (some (out, seen)) = (passes out ≡ true) × (unseen n seen < m)

within-bind :
    {A B : Type 0} (p : A → Bool) (q : B → Bool) (n m : ℕ) (x : Visit A) (f : A × Seen → Visit B)
    → EndsWithin p n m x
    → ((a : A) (seen : Seen) → p a ≡ true → unseen n seen < m → EndsWithin q n m (f (a, seen)))
    → EndsWithin q n m (x >>= f)
within-bind p q n m none f h next = absurd h
within-bind p q n m (some (a, seen)) f (passes, left) next = next a seen passes left

within-le :
    {A : Type 0} (p : A → Bool) (n l m : ℕ) (x : Visit A)
    → l ≤ m
    → EndsWithin p n l x
    → EndsWithin p n m x
within-le p n l m none le h = absurd h
within-le p n l m (some (a, seen)) le (passes, left) = (passes, omega (arith, le, left))

-- What is known of a visit with less fuel.
abbrev Visits : (n m : ℕ) → (Value → Seen → Visit Out) → Type 0
Visits n m visit =
    (v : Value) (seen : Seen) → unseen n seen < m → EndsWithin shows_no_secret n m (visit v seen)

module _ (n m : ℕ) (visit : Value → Seen → Visit Out) (visits : Visits n m visit) where
  visit_items-EndsWithin :
      (vs : List Value) (seen : Seen)
      → unseen n seen < m
      → EndsWithin show_no_secret n m (visit_items visit vs seen)
  unfolding visit_items show_no_secret
  visit_items-EndsWithin [] seen left = (refl, left)
  visit_items-EndsWithin (v ∷ vs) seen left =
      within-bind shows_no_secret show_no_secret n m (visit v seen) _ (visits v seen left)
        (λ o seen_1 shown left_1.
          within-bind show_no_secret show_no_secret n m (visit_items visit vs seen_1) _
            (visit_items-EndsWithin vs seen_1 left_1)
            (λ os seen_2 rest left_2. (ground (arith, shown, rest), left_2)))

  abbrev entry_shows_no_secret : String → Out → Bool
  entry_shows_no_secret key o = if is_sensitive_key key then is_redacted o else shows_no_secret o

  visit_entry-EndsWithin :
      (key : String) (v : Value) (seen : Seen)
      → unseen n seen < m
      → EndsWithin (entry_shows_no_secret key) n m (visit_entry visit key v seen)
  visit_entry-EndsWithin key v seen left = go (is_sensitive_key key)
    where
      go :
          (b : Bool)
          → EndsWithin
              (λ o. if b then is_redacted o else shows_no_secret o)
              n
              m
              (if b then some (redacted, seen) else visit v seen)
      go true = (refl, left)
      go false = visits v seen left

  visit_entries-EndsWithin :
      (fs : List (String × Value)) (seen : Seen)
      → unseen n seen < m
      → EndsWithin fields_show_no_secret n m (visit_entries visit fs seen)
  unfolding visit_entries fields_show_no_secret
  visit_entries-EndsWithin [] seen left = (refl, left)
  visit_entries-EndsWithin ((key, v) ∷ fs) seen left =
      within-bind (entry_shows_no_secret key) fields_show_no_secret n m
        (visit_entry visit key v seen) _ (visit_entry-EndsWithin key v seen left)
        (λ o seen_1 shown left_1.
          within-bind fields_show_no_secret fields_show_no_secret n m
            (visit_entries visit fs seen_1) _ (visit_entries-EndsWithin fs seen_1 left_1)
            (λ os seen_2 rest left_2. (rw (shown, rest) refl, left_2)))

  visit_node-EndsWithin :
      (node : Node) (seen : Seen)
      → unseen n seen < m
      → EndsWithin shows_no_secret n m (visit_node visit node seen)
  unfolding shows_no_secret
  visit_node-EndsWithin secret_value seen left = (refl, left)
  visit_node-EndsWithin (url text) seen left = (refl, left)
  visit_node-EndsWithin (error name) seen left = (refl, left)
  visit_node-EndsWithin (array vs) seen left =
      within-bind show_no_secret shows_no_secret n m (visit_items visit vs seen) into_array
        (visit_items-EndsWithin vs seen left) (λ os seen_1 shown left_1. (shown, left_1))
  visit_node-EndsWithin (entries fs) seen left =
      within-bind fields_show_no_secret shows_no_secret n m (visit_entries visit fs seen)
        into_record (visit_entries-EndsWithin fs seen left)
        (λ os seen_1 shown left_1. (shown, left_1))

  -- An object other than a `SecretValue`, visited with one more reference left.
  first_or_circular :
      (r : ℕ) (node : Node) (seen : Seen)
      → r < n
      → unseen n seen < suc m
      → EndsWithin shows_no_secret n
          (suc m)
          (if has_seen seen r then some (circular, seen) else visit_node visit node (r ∷ seen))
  unfolding shows_no_secret
  first_or_circular r node seen below left = elim (Bool-cases (has_seen seen r)) [
    | inl e ↦ rw e (refl, left)
    | inr e ↦
        let fewer = unseen-less n r seen below e in
        rw e (
          within-le shows_no_secret n m (suc m) (visit_node visit node (r ∷ seen)) (omega arith)
            (visit_node-EndsWithin node (r ∷ seen) (omega (arith, fewer, left))))
  ]

  visit_ref-EndsWithin :
      (r : ℕ) (found : Option Node) (seen : Seen)
      → ((node : Node) → found ≡ some node → r < n)
      → unseen n seen < suc m
      → EndsWithin shows_no_secret n (suc m) (visit_ref visit r found seen)
  unfolding shows_no_secret
  visit_ref-EndsWithin r none seen below left = (refl, left)
  visit_ref-EndsWithin r (some secret_value) seen below left = (refl, left)
  visit_ref-EndsWithin r (some (url text)) seen below left =
      first_or_circular r (url text) seen (below _ refl) left
  visit_ref-EndsWithin r (some (error name)) seen below left =
      first_or_circular r (error name) seen (below _ refl) left
  visit_ref-EndsWithin r (some (array vs)) seen below left =
      first_or_circular r (array vs) seen (below _ refl) left
  visit_ref-EndsWithin r (some (entries fs)) seen below left =
      first_or_circular r (entries fs) seen (below _ refl) left

get_elem?-below :
    {A : Type 0} (xs : List A) (n : ℕ) (x : A) → get_elem? xs n ≡ some x → n < length xs
unfolding get_elem?
get_elem?-below [] n x h = absurd (cc)
get_elem?-below (y ∷ xs) zero x h = omega arith
get_elem?-below (y ∷ xs) (suc n) x h = let rest = get_elem?-below xs n x h in omega (arith, rest)

visit-EndsWithin : (heap : Heap) (fuel : ℕ) → Visits (length heap) fuel (visit fuel heap)
unfolding visit shows_no_secret
visit-EndsWithin heap zero v seen left = absurd (omega (arith, left))
visit-EndsWithin heap (suc fuel) (primitive text) seen left = (refl, left)
visit-EndsWithin heap (suc fuel) (ref r) seen left =
    visit_ref-EndsWithin (length heap) fuel (visit fuel heap) (visit-EndsWithin heap fuel) r
      (get_elem? heap r) seen (λ node found. get_elem?-below heap r node found) left

unseen-bound : (n : ℕ) (seen : Seen) → unseen n seen ≤ n
unfolding unseen
unseen-bound zero seen = omega arith
unseen-bound (suc n) seen =
    let rest = unseen-bound n seen in
    elim (Bool-cases (has_seen seen n)) [
      | inl e ↦ rw e (omega (arith, rest))
      | inr e ↦ rw e (omega (arith, rest))
    ]

returned :
    {A : Type 0} (p : A → Bool) (n m : ℕ) (x : Visit A)
    → EndsWithin p n m x
    → (a : A) × (seen : Seen) × (x ≡ some (a, seen)) × (p a ≡ true)
returned p n m none h = absurd h
returned p n m (some (a, seen)) (passes, left) = (a, seen, refl, passes)

-- `redactSecrets` returns for every value, whatever its objects point to, themselves included; and in
-- what it returns, at any depth, the value of each entry with a sensitive key and the message of each
-- error are redacted.
pub redact_secrets-shows_no_secret :
    (heap : Heap) (v : Value)
    → (out : Out) × (seen : Seen) × (redact_secrets heap v ≡ some (out, seen))
      × (shows_no_secret out ≡ true)
unfolding redact_secrets
redact_secrets-shows_no_secret heap v =
    let n = length heap in
    let bound = unseen-bound n [] in
    returned shows_no_secret n (suc n) (visit (suc n) heap v [])
      (visit-EndsWithin heap (suc n) v [] (omega (arith, bound)))
