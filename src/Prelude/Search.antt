-- ===== src/Prelude/Search.antt =====
-- Searching texts: `startsWith` and `includes` on code points, and a test for a word of a list in any
-- case, which is what a regular expression of literal alternatives with the flag `i` tests.
use Prim.Native.Nat.{ℕ}
use Prim.Native.String.{String}
use mathlib.Core.Path.{◌≡◌, refl, ap}
use mathlib.Core.Bool.{Bool, true, false, ◌&&◌, ◌||◌}
use mathlib.Core.List.{List, [], ◌∷◌, ◌++◌}
use native.Mathlib.Omega.{arith}
use auto_ops.Prelude.Tests.{nat_eq}
use auto_ops.Prelude.Lists.{All}
use auto_ops.Prelude.Text.{codes, lower_codes}

-- `text.startsWith(word)`
unfoldable pub starts_with : List ℕ → List ℕ → Bool
starts_with text [] = true
starts_with [] (c ∷ word) = false
starts_with (a ∷ text) (c ∷ word) = nat_eq a c && starts_with text word

-- `text.includes(word)`
unfoldable pub includes : List ℕ → List ℕ → Bool
unfolding starts_with
includes [] word = starts_with [] word
includes (a ∷ text) word = starts_with (a ∷ text) word || includes text word

unfoldable pub includes_any : List String → List ℕ → Bool
unfolding includes
includes_any [] text = false
includes_any (word ∷ words) text = includes text (codes word) || includes_any words text

-- Whether a text holds one of these lower-case words, in any case.
unfoldable pub matches_any : List String → String → Bool
unfolding includes_any
matches_any words text = includes_any words (lower_codes text)

-- A word that a part holds is in the whole.
starts_with-append :
    (text rest word : List ℕ)
    → starts_with text word ≡ true
    → starts_with (text ++ rest) word ≡ true
unfolding starts_with
starts_with-append text rest [] h = refl
starts_with-append [] rest (c ∷ word) h = absurd (ground (arith, h))
starts_with-append (a ∷ text) rest (c ∷ word) h = ground (arith, starts_with-append text rest word)

pub includes-append :
    (text rest word : List ℕ) → includes text word ≡ true → includes (text ++ rest) word ≡ true
unfolding includes
includes-append [] [] word h = h
includes-append [] (b ∷ rest) word h = ground (arith, starts_with-append [] (b ∷ rest) word)
includes-append (a ∷ text) rest word h =
    ground (arith, starts_with-append (a ∷ text) rest word, includes-append text rest word)

pub includes_any-append :
    (words : List String) (text rest : List ℕ)
    → includes_any words text ≡ true
    → includes_any words (text ++ rest) ≡ true
unfolding includes_any
includes_any-append [] text rest h = h
includes_any-append (word ∷ words) text rest h =
    ground (arith, includes-append text rest (codes word), includes_any-append words text rest)

-- A text that another character ends.
pub starts_with_before :
    (s word rest : List ℕ) (c : ℕ)
    → All (λ d. nat_eq c d ≡ false) word
    → starts_with (s ++ c ∷ rest) word ≡ starts_with s word
unfolding starts_with
starts_with_before s [] rest c h = elim s [ [] ↦ refl | d ∷ t ↦ refl ]
starts_with_before [] (d ∷ word) rest c (e, h) = rw e refl
starts_with_before (a ∷ s) (d ∷ word) rest c (e, h) =
    ap (λ b. nat_eq a d && b) (starts_with_before s word rest c h)

pub includes-between :
    (s word rest : List ℕ) (c : ℕ)
    → All (λ d. nat_eq c d ≡ false) word
    → includes (s ++ c ∷ rest) word ≡ (includes s word || includes rest word)
unfolding includes
includes-between [] word rest c h =
    ap (λ b. b || includes rest word) (starts_with_before [] word rest c h)
includes-between (a ∷ s) word rest c h =
    let here = starts_with_before (a ∷ s) word rest c h in
    let later = includes-between s word rest c h in
    rw (here, later) (or_assoc (starts_with (a ∷ s) word) (includes s word) (includes rest word))
  where
    or_assoc : (x y z : Bool) → (x || (y || z)) ≡ ((x || y) || z)
    or_assoc true y z = refl
    or_assoc false y z = refl
