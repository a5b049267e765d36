-- ===== src/Prelude/Tables.antt =====
-- Laws of queries and updates of tables, and of tables whose rows have distinct keys.
use Prim.Native.Nat.{◌≤◌}
use Prim.Native.String.{String}
use mathlib.Core.Path.{◌≡◌, refl, sym, ap, ◌∙◌, subst}
use mathlib.Core.Bool.{Bool, true, false, ◌&&◌}
use mathlib.Core.Logic.{◌≢◌, inl, inr}
use mathlib.Core.Option
use mathlib.Core.Option.{Option, none, some}
use mathlib.Core.List.{List, [], ◌∷◌}
use native.Mathlib.Omega.{arith}
use text.Mathlib.TextEquality.{eq_iff}
use auto_ops.Prelude.Tests.{if◌then◌else◌, Bool-cases, ◌==◌}
use auto_ops.Prelude.Lists.{
  filter_where, find_first, update_where, any, count_where, All, All-update_where, All-find_first,
  All-map,
}

module _ {ℓ} {A : Type ℓ} where
  -- An update that keeps its own test changes the row that the query finds, and no other.
  pub find_first-update_where :
      (p : A → Bool) (f : A → A) (xs : List A)
      → ((x : A) → p x ≡ true → p (f x) ≡ true)
      → find_first p (update_where p f xs) ≡ Option.map f (find_first p xs)
  unfolding find_first update_where
  find_first-update_where p f [] stays = refl
  find_first-update_where p f (x ∷ xs) stays = elim (Bool-cases (p x)) [
    | inl e ↦ rw (e, stays x e)
    | inr e ↦ rw (e, e) (find_first-update_where p f xs stays)
  ]

  -- An update that changes no answer of another query changes only what that query returns.
  pub find_first-update_where_other :
      (q p : A → Bool) (f : A → A) (xs : List A) {x : A}
      → ((x : A) → q (f x) ≡ q x)
      → find_first q xs ≡ some x
      → find_first q (update_where p f xs) ≡ some (if p x then f x else x)
  unfolding find_first update_where
  find_first-update_where_other q p f [] same h = cc
  find_first-update_where_other q p f (y ∷ ys) {x} same h = elim (Bool-cases (q y)) [
    | inl here ↦ let e : y ≡ x = ground arith in rw (← e) (rw (changed (p y)) (rw here refl))
    | inr there ↦
        rw (changed (p y))
          (rw there (find_first-update_where_other q p f ys {x = x} same (ground arith)))
  ]
    where
      changed : (b : Bool) → q (if b then f y else y) ≡ q y
      changed true = same y
      changed false = refl

  -- An update of rows that a query does not return changes nothing of what it returns.
  pub find_first-update_where_apart :
      (q p : A → Bool) (f : A → A) (xs : List A)
      → ((x : A) → q (f x) ≡ q x)
      → ((x : A) → p x ≡ true → q x ≡ false)
      → find_first q (update_where p f xs) ≡ find_first q xs
  unfolding find_first update_where
  find_first-update_where_apart q p f [] same apart = refl
  find_first-update_where_apart q p f (x ∷ xs) same apart = elim (Bool-cases (p x)) [
    | inl e ↦ rw (e, same x, apart x e) (find_first-update_where_apart q p f xs same apart)
    | inr e ↦
        rw e
          (ap (λ r. if q x then some x else r) (find_first-update_where_apart q p f xs same apart))
  ]

  pub count_where-update_where :
      (q p : A → Bool) (f : A → A) (xs : List A)
      → ((x : A) → q (f x) ≡ q x)
      → count_where q (update_where p f xs) ≡ count_where q xs
  unfolding count_where update_where
  count_where-update_where q p f [] same = refl
  count_where-update_where q p f (x ∷ xs) same = elim (Bool-cases (p x)) [
    | inl e ↦ rw (e, same x, count_where-update_where q p f xs same) refl
    | inr e ↦ rw (e, count_where-update_where q p f xs same) refl
  ]

  pub count_of_not_found :
      (q : A → Bool) (xs : List A) → find_first q xs ≡ none → count_where q xs ≡ 0
  unfolding find_first count_where
  count_of_not_found q [] h = refl
  count_of_not_found q (x ∷ xs) h = elim (Bool-cases (q x)) [
    | inl e ↦ let bad = rw e at h in cc
    | inr e ↦ let rest = rw e at h in rw e (omega (arith, count_of_not_found q xs rest))
  ]

  -- No row passes a test that the update makes fail.
  pub any-update_where :
      (p : A → Bool) (f : A → A) (xs : List A)
      → ((x : A) → p x ≡ true → p (f x) ≡ false)
      → any p (update_where p f xs) ≡ false
  unfolding any update_where
  any-update_where p f [] fails = refl
  any-update_where p f (x ∷ xs) fails = elim (Bool-cases (p x)) [
    | inl e ↦ rw (e, fails x e) (any-update_where p f xs fails)
    | inr e ↦ rw (e, e) (any-update_where p f xs fails)
  ]

  pub any-All : (p : A → Bool) (xs : List A) → any p xs ≡ false → All (λ x. p x ≡ false) xs
  unfolding any
  any-All p [] h = tt
  any-All p (x ∷ xs) h = (ground arith, any-All p xs (ground arith))

  pub All-any : (p : A → Bool) (xs : List A) → All (λ x. p x ≡ false) xs → any p xs ≡ false
  unfolding any
  All-any p [] h = refl
  All-any p (x ∷ xs) (e, h) = rw e (All-any p xs h)

  -- A row that passes is found.
  pub find_first_of_any :
      (p : A → Bool) (xs : List A) → any p xs ≡ true → (x : A) × (find_first p xs ≡ some x)
  unfolding any find_first
  find_first_of_any p [] h = cc
  find_first_of_any p (x ∷ xs) h = elim (Bool-cases (p x)) [
    | inl e ↦ (x, rw e)
    | inr e ↦ let (y, found) = find_first_of_any p xs (ground arith) in (y, rw e found)
  ]

  pub any_of_find_first :
      (p : A → Bool) (xs : List A) {x : A} → find_first p xs ≡ some x → any p xs ≡ true
  unfolding any find_first
  any_of_find_first p [] h = cc
  any_of_find_first p (y ∷ ys) {x} h = elim (Bool-cases (p y)) [
    | inl e ↦ rw e
    | inr e ↦ rw e (any_of_find_first p ys {x = x} (ground arith))
  ]

module _ {ℓ} {A : Type ℓ} (p q : A → Bool) where
  -- A row that one query finds and that passes another test.
  pub any_of_found : (xs : List A) {x : A} → find_first p xs ≡ some x → q x ≡ true → any q xs ≡ true
  unfolding any find_first
  any_of_found [] e h = cc
  any_of_found (y ∷ ys) {x} e h = elim (Bool-cases (p y)) [
    | inl here ↦ let same : y ≡ x = ground arith in rw (ap q same ∙ h) refl
    | inr there ↦ let rest = any_of_found ys {x = x} (ground arith) h in ground arith
  ]

  -- An update that reaches the row that a query finds, and changes none of its answers.
  pub found_by :
      (f : A → A) (xs : List A) {x : A}
      → ((y : A) → p (f y) ≡ p y)
      → find_first p xs ≡ some x
      → q x ≡ true
      → find_first p (update_where q f xs) ≡ some (f x)
  found_by f xs {x} same e h = find_first-update_where_other p q f xs {x = x} same e ∙ rw h refl

module _ {ℓ} {A : Type ℓ} (p : A → Bool) where
  pub count_of_none : (xs : List A) → any p xs ≡ false → count_where p xs ≡ 0
  unfolding any count_where
  count_of_none [] h = refl
  count_of_none (x ∷ xs) h = ground (arith, count_of_none xs (ground arith))

  pub count_of_any : (xs : List A) → any p xs ≡ true → 1 ≤ count_where p xs
  unfolding any count_where
  count_of_any [] h = cc
  count_of_any (x ∷ xs) h = elim (Bool-cases (p x)) [
    | inl e ↦ ground arith
    | inr e ↦ ground (arith, count_of_any xs (ground arith))
  ]

module _ {ℓ} {A : Type ℓ} (key : A → String) where
  -- The rows have distinct keys.
  abbrev pub Distinct : List A → Type 0
  Distinct [] = Unit
  Distinct (x ∷ xs) = All (λ y. key y ≢ key x) xs × Distinct xs

  pub Distinct-update_where :
      (p : A → Bool) (f : A → A) (xs : List A)
      → ((x : A) → key (f x) ≡ key x)
      → Distinct xs
      → Distinct (update_where p f xs)
  unfolding update_where
  Distinct-update_where p f [] same h = tt
  Distinct-update_where p f (x ∷ xs) same (apart, h) = (
    rw head_key (All-update_where (λ y. key y ≢ key x) p f xs (λ y _ ne. rw (same y) ne) apart),
    Distinct-update_where p f xs same h,
  )
    where
      at : (b : Bool) → key (if b then f x else x) ≡ key x
      at true = same x
      at false = refl

      head_key : key (if p x then f x else x) ≡ key x
      head_key = at (p x)

  -- A row that passes no test is left alone.
  update_where_of_none :
      (p : A → Bool) (f : A → A) (xs : List A)
      → All (λ x. p x ≡ false) xs
      → update_where p f xs ≡ xs
  unfolding update_where
  update_where_of_none p f [] h = refl
  update_where_of_none p f (x ∷ xs) (e, h) = rw (e, update_where_of_none p f xs h)

  differs : (x y : A) → key y ≢ key x → (key y == key x) ≡ false
  differs x y ne = ground (arith, eq_iff (key y) (key x))

module _ {ℓ κ} {A : Type ℓ} (key : A → String) (P : A → Type κ) where
  update_head :
      (f : A → A) (y : A) (ys : List A)
      → All (λ z. key z ≢ key y) ys
      → P (f y)
      → All P ys
      → All P (update_where (λ z. key z == key y) f (y ∷ ys))
  unfolding update_where
  update_head f y ys apart q h = rw ((eq_iff (key y) (key y)).1 refl) (
    q,
    rw
        (update_where_of_none key (λ z. key z == key y) f ys
          (All-map ys (λ z ne. differs key y z ne) apart))
        h,
  )

  -- An update by the key of a row that a query found changes that row only.
  pub All-update_found :
      (p : A → Bool) (f : A → A) (xs : List A) {x : A}
      → Distinct key xs
      → find_first p xs ≡ some x
      → (P x → P (f x))
      → All P xs
      → All P (update_where (λ y. key y == key x) f xs)
  unfolding find_first update_where
  All-update_found p f [] d e step h = tt
  All-update_found p f (y ∷ ys) {x} (apart, d) e step (q, h) = elim (Bool-cases (p y)) [
    | inl here ↦
        let same : y ≡ x = ground arith in
        subst (λ z. (P z → P (f z)) → All P (update_where (λ w. key w == key z) f (y ∷ ys))) same
          (λ change. update_head f y ys apart (change q) h) step
    | inr there ↦
        let found : find_first p ys ≡ some x = ground arith in
        let ne : key x ≢ key y = All-find_first (λ z. key z ≢ key y) p ys {x = x} found apart in
        rw (differs key x y (λ e'. ne (sym e'))) (q, All-update_found p f ys {x = x} d found step h)
  ]

module _ {ℓ} {A : Type ℓ} (key : A → String) where
  -- A row that some query finds is the one that its key finds.
  pub find_first_by_key :
      (p : A → Bool) (xs : List A) {x : A}
      → Distinct key xs
      → find_first p xs ≡ some x
      → find_first (λ y. key y == key x) xs ≡ some x
  unfolding find_first
  find_first_by_key p [] d e = cc
  find_first_by_key p (y ∷ ys) {x} (apart, d) e = elim (Bool-cases (p y)) [
    | inl here ↦
        let same : y ≡ x = ground arith in
        subst (λ z. find_first (λ w. key w == key z) (y ∷ ys) ≡ some z) same
          (rw ((eq_iff (key y) (key y)).1 refl) refl)
    | inr there ↦
        let found : find_first p ys ≡ some x = ground arith in
        let ne : key x ≢ key y = All-find_first (λ z. key z ≢ key y) p ys {x = x} found apart in
        rw (differs key x y (λ e'. ne (sym e'))) (find_first_by_key p ys {x = x} d found)
  ]

module _ {ℓ} {A : Type ℓ} where
  -- Tests that agree on the rows select the same rows.
  pub count_where_agree :
      (p q : A → Bool) (xs : List A) → All (λ x. p x ≡ q x) xs → count_where p xs ≡ count_where q xs
  unfolding count_where
  count_where_agree p q [] h = refl
  count_where_agree p q (x ∷ xs) (e, h) = rw (e, count_where_agree p q xs h) refl

  pub update_where_agree :
      (p q : A → Bool) (f : A → A) (xs : List A)
      → All (λ x. p x ≡ q x) xs
      → update_where p f xs ≡ update_where q f xs
  unfolding update_where
  update_where_agree p q f [] h = refl
  update_where_agree p q f (x ∷ xs) (e, h) = rw (e, update_where_agree p q f xs h) refl

  pub All-every {κ} : {P : A → Type κ} → ((x : A) → P x) → (xs : List A) → All P xs
  All-every h [] = tt
  All-every h (x ∷ xs) = (h x, All-every h xs)

  -- A filter of a filter.
  pub filter_where_twice :
      (p q : A → Bool) (xs : List A)
      → filter_where p (filter_where q xs) ≡ filter_where (λ x. q x && p x) xs
  unfolding filter_where
  filter_where_twice p q [] = refl
  filter_where_twice p q (x ∷ xs) = elim (Bool-cases (q x)) [
    | inl e ↦ rw e (ap (λ rest. if p x then x ∷ rest else rest) (filter_where_twice p q xs))
    | inr e ↦ rw e (filter_where_twice p q xs)
  ]

  pub count_where-false : (xs : List A) → count_where (λ _. false) xs ≡ 0
  unfolding count_where
  count_where-false [] = refl
  count_where-false (x ∷ xs) = omega (arith, count_where-false xs)

  pub update_where-false : (f : A → A) (xs : List A) → update_where (λ _. false) f xs ≡ xs
  unfolding update_where
  update_where-false f [] = refl
  update_where-false f (x ∷ xs) = ap (λ rest. x ∷ rest) (update_where-false f xs)
