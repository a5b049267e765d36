-- ===== src/Prelude/Units.antt =====
-- `slice(0, n)` of texts in UTF-16 units: what it keeps is a prefix, of at most n units.
use Prim.Native.Nat.{ℕ, ◌+◌, ◌-◌, ◌≤◌}
use Prim.Native.Char.{Char, code}
use Prim.Native.String.{String, [], ◌∷◌}
use mathlib.Core.Path.{◌≡◌, refl, ap}
use mathlib.Core.Bool.{Bool, true, false}
use mathlib.Core.List.{List, ◌++◌}
use native.Mathlib.Omega.{arith}
use auto_ops.Prelude.Tests.{leb, if◌then◌else◌}
use auto_ops.Prelude.Text.{lower_code, lower_codes, take_units}

-- `text.length`
unfoldable pub units : String → ℕ
units [] = 0
units (c ∷ s) = (if leb 65536 (code c) then 2 else 1) + units s

abbrev width : Char → ℕ
width c = if leb 65536 (code c) then 2 else 1

units_step :
    (fits : Bool) (c : Char) (kept : String) (n : ℕ)
    → leb (width c) n ≡ fits
    → units kept ≤ n - width c
    → units (if fits then c ∷ kept else []) ≤ n
unfolding units
units_step true c kept n h below = ground (arith, h, below)
units_step false c kept n h below = omega arith

pub units-take_units : (n : ℕ) (s : String) → units (take_units n s) ≤ n
unfolding units take_units
units-take_units n [] = omega arith
units-take_units n (c ∷ s) =
    units_step (leb (width c) n) c (take_units (n - width c) s) n refl
      (units-take_units (n - width c) s)

prefix_step :
    (fits : Bool) (c : Char) (s kept : String) (rest : List ℕ)
    → lower_codes s ≡ lower_codes kept ++ rest
    → (others : List ℕ) × (List.◌∷◌ (lower_code (code c)) (lower_codes s)
        ≡ lower_codes (if fits then c ∷ kept else []) ++ others)
prefix_step true c s kept rest same = (rest, ap (List.◌∷◌ (lower_code (code c))) same)
prefix_step false c s kept rest same = (List.◌∷◌ (lower_code (code c)) (lower_codes s), refl)

pub take_units_prefix :
    (n : ℕ) (s : String) → (rest : List ℕ) × (lower_codes s ≡ lower_codes (take_units n s) ++ rest)
unfolding take_units
take_units_prefix n [] = (List.[], refl)
take_units_prefix n (c ∷ s) =
    let (rest, same) = take_units_prefix (n - width c) s in
    prefix_step (leb (width c) n) c s (take_units (n - width c) s) rest same
