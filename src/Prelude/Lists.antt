-- ===== src/Prelude/Lists.antt =====
-- Lists as tables: the first row that passes a test, an update of the rows that pass, and predicates
-- of every row.
use Prim.Native.Nat.{ℕ, zero, suc, ◌+◌}
use mathlib.Core.Path.{◌≡◌, refl, subst}
use mathlib.Core.Bool.{Bool, true, false, ◌||◌}
use mathlib.Core.Logic.{inl, inr}
use mathlib.Core.Option.{Option, none, some}
use mathlib.Core.List.{List, [], ◌∷◌, ◌++◌}
use native.Mathlib.Omega.{arith}
use auto_ops.Prelude.Tests.{if◌then◌else◌, Bool-cases}

module _ {ℓ} {A : Type ℓ} where
  abbrev pub length : List A → ℕ
  length [] = 0
  length (x ∷ xs) = suc (length xs)

  abbrev pub take : ℕ → List A → List A
  take zero xs = []
  take (suc n) [] = []
  take (suc n) (x ∷ xs) = x ∷ take n xs

  -- `findFirst`, `findUnique` and `find`: the first row that passes.
  unfoldable pub find_first : (A → Bool) → List A → Option A
  find_first p [] = none
  find_first p (x ∷ xs) = if p x then some x else find_first p xs

  -- `update` and `updateMany`: `f` on every row that passes.
  unfoldable pub update_where : (A → Bool) → (A → A) → List A → List A
  update_where p f [] = []
  update_where p f (x ∷ xs) = (if p x then f x else x) ∷ update_where p f xs

  unfoldable pub count_where : (A → Bool) → List A → ℕ
  count_where p [] = 0
  count_where p (x ∷ xs) = (if p x then 1 else 0) + count_where p xs

  unfoldable pub filter_where : (A → Bool) → List A → List A
  filter_where p [] = []
  filter_where p (x ∷ xs) = let rest = filter_where p xs in if p x then x ∷ rest else rest

  unfoldable pub any : (A → Bool) → List A → Bool
  any p [] = false
  any p (x ∷ xs) = p x || any p xs

module _ {ℓ κ} {A : Type ℓ} (P : A → Type κ) where
  abbrev pub All : List A → Type κ
  All [] = Unit
  All (x ∷ xs) = P x × All xs

  pub All-append : (xs ys : List A) → All xs → All ys → All (xs ++ ys)
  All-append [] ys h k = k
  All-append (x ∷ xs) ys (p, h) k = (p, All-append xs ys h k)

  pub All-update_where :
      (p : A → Bool) (f : A → A) (xs : List A)
      → ((x : A) → p x ≡ true → P x → P (f x))
      → All xs
      → All (update_where p f xs)
  unfolding update_where
  All-update_where p f [] step h = tt
  All-update_where p f (x ∷ xs) step (q, h) = (at (p x) refl, All-update_where p f xs step h)
    where
      at : (b : Bool) → p x ≡ b → P (if b then f x else x)
      at true e = step x e q
      at false e = q

  pub All-find_first :
      (p : A → Bool) (xs : List A) {x : A} → find_first p xs ≡ some x → All xs → P x
  unfolding find_first
  All-find_first p (y ∷ ys) {x} e (q, h) = elim (Bool-cases (p y)) [
    | inl here ↦ let same : y ≡ x = ground arith in subst P same q
    | inr there ↦ All-find_first p ys (ground arith) h
  ]
  All-find_first p [] e h = cc

-- What every row satisfies follows from what every row satisfied.
pub All-map {ℓ κ μ} :
    {A : Type ℓ} {P : A → Type κ} {Q : A → Type μ} (xs : List A)
    → ((x : A) → P x → Q x)
    → All P xs
    → All Q xs
All-map [] f h = tt
All-map (x ∷ xs) f (p, h) = (f x p, All-map xs f h)

pub All-both {ℓ κ μ ν} :
    {A : Type ℓ} {P : A → Type κ} {Q : A → Type μ} {R : A → Type ν} (xs : List A)
    → ((x : A) → P x → Q x → R x)
    → All P xs
    → All Q xs
    → All R xs
All-both [] f h k = tt
All-both (x ∷ xs) f (p, h) (q, k) = (f x p q, All-both xs f h k)

module _ {ℓ} {A : Type ℓ} where
  -- The row that a query returns passes its test.
  pub find_first_passes :
      (p : A → Bool) (xs : List A) {x : A} → find_first p xs ≡ some x → p x ≡ true
  unfolding find_first
  find_first_passes p (y ∷ ys) {x} e = elim (Bool-cases (p y)) [
    | inl here ↦ ground arith
    | inr there ↦ find_first_passes p ys (ground arith)
  ]
  find_first_passes p [] e = cc

  pub length-update_where :
      (p : A → Bool) (f : A → A) (xs : List A) → length (update_where p f xs) ≡ length xs
  unfolding update_where
  length-update_where p f [] = refl
  length-update_where p f (x ∷ xs) = omega (arith, length-update_where p f xs)

  pub length-append : (xs ys : List A) → length (xs ++ ys) ≡ length xs + length ys
  length-append [] ys = omega arith
  length-append (x ∷ xs) ys = omega (arith, length-append xs ys)

-- An update after which every row satisfies another predicate.
pub All-update_to {ℓ κ μ} :
    {A : Type ℓ} {P : A → Type κ} {Q : A → Type μ} (p : A → Bool) (f : A → A) (xs : List A)
    → ((x : A) → p x ≡ true → P x → Q (f x))
    → ((x : A) → p x ≡ false → P x → Q x)
    → All P xs
    → All Q (update_where p f xs)
unfolding update_where
All-update_to p f [] step keep h = tt
All-update_to {Q} p f (x ∷ xs) step keep (q, h) = (at (p x) refl, All-update_to p f xs step keep h)
  where
    at : (b : Bool) → p x ≡ b → Q (if b then f x else x)
    at true e = step x e q
    at false e = keep x e q
