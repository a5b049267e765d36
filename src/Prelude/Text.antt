-- ===== src/Prelude/Text.antt =====
-- The string methods of the language that the program calls: `trim`, `toLowerCase`, `includes`,
-- `startsWith`, `join`, over native strings. `toLowerCase` maps the letters A to Z; the texts that the
-- program compares its result with are ASCII.
use Prim.Native.Nat.{ℕ, ◌+◌, ◌-◌}
use Prim.Native.Char.{Char, code}
use Prim.Native.String
use Prim.Native.String.{String, [], ◌∷◌}
use mathlib.Core.Bool.{Bool, true, false, ◌&&◌, ◌||◌}
use mathlib.Core.List.{List}
use auto_ops.Prelude.Tests.{leb, nat_eq, if◌then◌else◌}

-- White space and line ends, by code point.
abbrev pub is_white : Char → Bool
is_white c =
    leb 9 (code c) && leb (code c) 13
    || nat_eq (code c) 32
    || nat_eq (code c) 160
    || nat_eq (code c) 5760
    || leb 8192 (code c) && leb (code c) 8202
    || nat_eq (code c) 8232
    || nat_eq (code c) 8233
    || nat_eq (code c) 8239
    || nat_eq (code c) 8287
    || nat_eq (code c) 12288
    || nat_eq (code c) 65279

abbrev pub is_empty : String → Bool
is_empty [] = true
is_empty (c ∷ s) = false

pub trim_start : String → String
trim_start [] = []
trim_start (c ∷ s) = if is_white c then trim_start s else c ∷ s

pub trim_end : String → String
trim_end [] = []
trim_end (c ∷ s) = let rest = trim_end s in if is_white c && is_empty rest then [] else c ∷ rest

unfoldable pub trim : String → String
unfolding trim_start trim_end
trim s = trim_end (trim_start s)

abbrev starts_white : String → Bool
starts_white [] = false
starts_white (c ∷ s) = is_white c

-- The code points of a text.
abbrev pub codes : String → List ℕ
codes [] = List.[]
codes (c ∷ s) = List.◌∷◌ (code c) (codes s)

abbrev pub lower_code : ℕ → ℕ
lower_code c = if leb b'A' c && leb c b'Z' then c + 32 else c

abbrev pub lower_codes : String → List ℕ
lower_codes [] = List.[]
lower_codes (c ∷ s) = List.◌∷◌ (lower_code (code c)) (lower_codes s)

abbrev pub codes_eq : List ℕ → List ℕ → Bool
codes_eq List.[] List.[] = true
codes_eq (List.◌∷◌ a s) (List.◌∷◌ b t) = nat_eq a b && codes_eq s t
codes_eq _ _ = false

infixl 65 ◌<>◌
abbrev pub ◌<>◌ : String → String → String
s <> t = String.◌++◌ s t

-- `parts.join(separator)`
abbrev pub join : String → List String → String
join separator List.[] = ""
join separator (List.◌∷◌ s List.[]) = s
join separator (List.◌∷◌ s (List.◌∷◌ t rest)) = s <> separator <> join separator (List.◌∷◌ t rest)

-- `replace(/\s+/g, ' ')`: each run of white space becomes one space.
unfoldable pub collapse_white : String → String
collapse_white [] = []
collapse_white (c ∷ s) =
    let rest = collapse_white s in
    if is_white c then (if starts_white s then rest else " " <> rest) else c ∷ rest

-- `slice(0, n)` over UTF-16 units; a pair of which only one half would be kept is left out.
unfoldable pub take_units : ℕ → String → String
take_units n [] = []
take_units n (c ∷ s) =
    let width : ℕ = if leb 65536 (code c) then 2 else 1 in
    let rest = take_units (n - width) s in if leb width n then c ∷ rest else []
