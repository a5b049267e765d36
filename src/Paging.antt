-- ===== src/Paging.antt =====
-- Pages by cursor, as the database serves them: the ordered rows from the row of the cursor on, some of
-- them skipped, and at most so many of them. A cursor that names no row of the listing serves nothing.
use auto_ops.Prelude.{
  ℕ, zero, suc, ◌≡◌, ◌≢◌, refl, ap, Bool, false, String, Option, none, some, List, [], ◌∷◌, ◌++◌,
  ◌==◌, if◌then◌else◌, length, take, arith, eq_iff, ==_self, All, Distinct, ltb,
}

module _ {ℓ} {A : Type ℓ} where
  unfoldable pub drop : ℕ → List A → List A
  drop zero xs = xs
  drop (suc n) [] = []
  drop (suc n) (x ∷ xs) = drop n xs

  -- `items[n]`
  unfoldable pub get_elem? : List A → ℕ → Option A
  get_elem? [] n = none
  get_elem? (x ∷ xs) zero = some x
  get_elem? (x ∷ xs) (suc n) = get_elem? xs n

  -- `items.at(-1)`
  unfoldable pub last_elem? : List A → Option A
  last_elem? [] = none
  last_elem? (x ∷ []) = some x
  last_elem? (x ∷ y ∷ xs) = last_elem? (y ∷ xs)

  insert_by : (A → A → Bool) → A → List A → List A
  insert_by before x [] = x ∷ []
  insert_by before x (y ∷ ys) = if before y x then y ∷ insert_by before x ys else x ∷ y ∷ ys

  -- `orderBy`: rows of which neither comes before the other keep their order.
  unfoldable pub sort_by : (A → A → Bool) → List A → List A
  unfolding insert_by
  sort_by before [] = []
  sort_by before (x ∷ xs) = insert_by before x (sort_by before xs)

-- What holds of all rows holds of each.
All-middle {ℓ κ} :
    {A : Type ℓ} (P : A → Type κ) (xs : List A) (x : A) (ys : List A) → All P (xs ++ x ∷ ys) → P x
All-middle P [] x ys (p, h) = p
All-middle P (z ∷ zs) x ys (p, h) = All-middle P zs x ys h

module _ {ℓ} {A : Type ℓ} (key : A → String) where
  -- The rows from the one with this key on.
  unfoldable pub from_key : String → List A → List A
  from_key k [] = []
  from_key k (x ∷ xs) = if key x == k then x ∷ xs else from_key k xs

  -- `cursor`, `skip`, `take` of a query.
  unfoldable pub serve : Option String → (skip count : ℕ) → List A → List A
  unfolding from_key drop
  serve none skip count rows = take count rows
  serve (some k) skip count rows = take count (drop skip (from_key k rows))

  -- The rows from a key on are those that stand there.
  pub from_key-append :
      (xs : List A) (x : A) (ys : List A)
      → Distinct key (xs ++ x ∷ ys)
      → from_key (key x) (xs ++ x ∷ ys) ≡ x ∷ ys
  unfolding from_key
  from_key-append [] x ys d = rw (==_self (key x)) refl
  from_key-append (y ∷ xs) x ys (apart, d) =
      let ne : key x ≢ key y = All-middle (λ z. key z ≢ key y) xs x ys apart in
      let unlike : (key y == key x) ≡ false =
        ground (arith, eq_iff (key y) (key x), eq_iff (key x) (key y), ne) in
      rw unlike (from_key-append xs x ys d)

module _ {ℓ} {A : Type ℓ} where
  pub take-append : (n : ℕ) (xs ys : List A) → length xs ≡ n → take n (xs ++ ys) ≡ xs
  take-append zero [] ys h = refl
  take-append zero (x ∷ xs) ys h = absurd (omega (arith, h))
  take-append (suc n) [] ys h = absurd (omega (arith, h))
  take-append (suc n) (x ∷ xs) ys h = ap (λ r. x ∷ r) (take-append n xs ys (omega (arith, h)))

  -- One more than fit on a page.
  pub take-suc-append :
      (n : ℕ) (xs : List A) (x : A) (ys : List A)
      → length xs ≡ n
      → take (suc n) (xs ++ x ∷ ys) ≡ xs ++ x ∷ []
  take-suc-append zero [] x ys h = refl
  take-suc-append zero (y ∷ xs) x ys h = absurd (omega (arith, h))
  take-suc-append (suc n) [] x ys h = absurd (omega (arith, h))
  take-suc-append (suc n) (y ∷ xs) x ys h =
      ap (λ r. y ∷ r) (take-suc-append n xs x ys (omega (arith, h)))

  pub get_elem?-append :
      (xs : List A) (x : A) (ys : List A) → get_elem? (xs ++ x ∷ ys) (length xs) ≡ some x
  unfolding get_elem?
  get_elem?-append [] x ys = refl
  get_elem?-append (y ∷ xs) x ys = get_elem?-append xs x ys

  pub last_elem?-append : (xs : List A) (x : A) → last_elem? (xs ++ x ∷ []) ≡ some x
  unfolding last_elem?
  last_elem?-append [] x = refl
  last_elem?-append (y ∷ []) x = refl
  last_elem?-append (y ∷ z ∷ xs) x = last_elem?-append (z ∷ xs) x

  pub length-suc : (xs : List A) (x : A) → length (xs ++ x ∷ []) ≡ suc (length xs)
  length-suc [] x = refl
  length-suc (y ∷ xs) x = ap suc (length-suc xs x)

  pub take-take-suc : (n : ℕ) (xs : List A) → take n (take (suc n) xs) ≡ take n xs
  take-take-suc zero xs = refl
  take-take-suc (suc n) [] = refl
  take-take-suc (suc n) (x ∷ xs) = ap (λ r. x ∷ r) (take-take-suc n xs)

  -- Where one more was asked for and is not there, there are no more than fit.
  pub take-short :
      (n : ℕ) (xs : List A) → ltb n (length (take (suc n) xs)) ≡ false → take (suc n) xs ≡ take n xs
  take-short zero [] h = refl
  take-short zero (x ∷ xs) h = absurd (ground (arith, h))
  take-short (suc n) [] h = refl
  take-short (suc n) (x ∷ xs) h = ap (λ r. x ∷ r) (take-short n xs (ground (arith, h)))
