-- ===== src/CommandOutput/Laws.antt =====
-- infrastructure-catalog.ts: what is shown of an output holds no secret-like word.
use auto_ops.Prelude.{
  ℕ, zero, suc, ◌≡◌, refl, ap, ◌∙◌, Bool, true, false, not, String, List, [], ◌∷◌, ◌++◌,
  if◌then◌else◌, nat_eq, codes, lower_code, take, filter_where, map, arith, All, Bool-cases, inl,
  inr,
}
use auto_ops.Prelude.Search.{includes_any, includes_any-append, includes-between}
use auto_ops.Urn.{Text, is_space, drop_end, map_codes, map_codes-append}
use auto_ops.CommandOutput.{
  secret_words, shows_secret, shown_line, is_blank, join_lines, or_default,
  summarize_command_output, strip_ansi, split_lines,
}

-- No word has a line end.
abbrev OneLine : List String → Type 0
OneLine = All (λ word. All (λ d. nat_eq b'\n' d ≡ false) (codes word))

abbrev one_line : Text → Bool
one_line [] = true
one_line (c ∷ s) = if nat_eq b'\n' c then false else one_line s

abbrev all_one_line : List String → Bool
all_one_line [] = true
all_one_line (word ∷ words) = if one_line (codes word) then all_one_line words else false

one_line-holds : (s : Text) → one_line s ≡ true → All (λ d. nat_eq b'\n' d ≡ false) s
one_line-holds [] h = tt
one_line-holds (c ∷ s) h = (ground (arith, h), one_line-holds s (ground (arith, h)))

all_one_line-OneLine : (words : List String) → all_one_line words ≡ true → OneLine words
all_one_line-OneLine [] h = tt
all_one_line-OneLine (word ∷ words) h = (
  one_line-holds (codes word) (ground (arith, h)),
  all_one_line-OneLine words (ground (arith, h)),
)

includes_any-between :
    (words : List String) (s rest : Text)
    → OneLine words
    → includes_any words s ≡ false
    → includes_any words rest ≡ false
    → includes_any words (s ++ b'\n' ∷ rest) ≡ false
unfolding includes_any
includes_any-between [] s rest h a b = refl
includes_any-between (word ∷ words) s rest (w, h) a b =
    let here = includes-between s (codes word) rest b'\n' w in
    let later = includes_any-between words s rest h (ground (arith, a)) (ground (arith, b)) in
    ground (arith, here, later, a, b)

join-clean :
    (s rest : Text)
    → shows_secret s ≡ false
    → shows_secret rest ≡ false
    → shows_secret (s ++ b'\n' ∷ rest) ≡ false
unfolding shows_secret map_codes
join-clean s rest a b = rw (map_codes-append lower_code s (b'\n' ∷ rest)) (
    includes_any-between secret_words (map_codes lower_code s) (map_codes lower_code rest)
      (all_one_line-OneLine secret_words refl) a b)

redacted-clean : shows_secret (codes "[REDACTED LINE]") ≡ false
unfolding shows_secret
redacted-clean = refl

nothing-clean : shows_secret [] ≡ false
unfolding shows_secret
nothing-clean = refl

shown_line-clean : (line : Text) → shows_secret (shown_line line) ≡ false
unfolding shown_line
shown_line-clean line = elim (Bool-cases (shows_secret (drop_end is_space line))) [
  | inl e ↦ rw e redacted-clean
  | inr e ↦ rw e e
]

lines-clean : (lines : List Text) → All (λ s. shows_secret s ≡ false) (map shown_line lines)
lines-clean [] = tt
lines-clean (line ∷ lines) = (shown_line-clean line, lines-clean lines)

kept-clean :
    (p : Text → Bool) (lines : List Text)
    → All (λ s. shows_secret s ≡ false) lines
    → All (λ s. shows_secret s ≡ false) (filter_where p lines)
unfolding filter_where
kept-clean p [] h = tt
kept-clean p (line ∷ lines) (e, h) = elim (Bool-cases (p line)) [
  | inl q ↦ rw q (e, kept-clean p lines h)
  | inr q ↦ rw q (kept-clean p lines h)
]

join_lines-clean :
    (lines : List Text)
    → All (λ s. shows_secret s ≡ false) lines
    → shows_secret (join_lines lines) ≡ false
unfolding join_lines
join_lines-clean [] h = nothing-clean
join_lines-clean (line ∷ []) (e, h) = e
join_lines-clean (line ∷ next ∷ lines) (e, h) =
    join-clean line (join_lines (next ∷ lines)) e (join_lines-clean (next ∷ lines) h)

take_prefix : (n : ℕ) (s : Text) → (rest : Text) × (s ≡ take n s ++ rest)
take_prefix zero s = (s, refl)
take_prefix (suc n) [] = ([], refl)
take_prefix (suc n) (c ∷ s) = let (rest, same) = take_prefix n s in (rest, ap (λ r. c ∷ r) same)

take-clean : (n : ℕ) (s : Text) → shows_secret s ≡ false → shows_secret (take n s) ≡ false
unfolding shows_secret
take-clean n s clean = elim (Bool-cases (shows_secret (take n s))) [
  | inl dirty ↦
      let (rest, same) = take_prefix n s in
      let split = ap (map_codes lower_code) same ∙ map_codes-append lower_code (take n s) rest in
      let whole =
        includes_any-append secret_words (map_codes lower_code (take n s))
          (map_codes lower_code rest) dirty in
      let bad = rw (← split) at whole in cc
  | inr e ↦ e
]

default-clean : (s : Text) → shows_secret s ≡ false → shows_secret (or_default s) ≡ false
unfolding shows_secret
default-clean [] h = refl
default-clean (c ∷ s) h = h

-- What is shown of an output, whatever it was and wherever it is cut, holds no secret-like word, in any
-- case.
pub summarize_command_output-shows_secret :
    (output : Text) (limit : ℕ) → shows_secret (summarize_command_output output limit) ≡ false
unfolding summarize_command_output
summarize_command_output-shows_secret output limit =
    let cleaned = filter_where (λ c. not (nat_eq c b'\r')) (strip_ansi output) in
    let lines = map shown_line (split_lines [] cleaned) in
    let kept = filter_where (λ line. not (is_blank line)) lines in
    let clean =
      kept-clean (λ line. not (is_blank line)) lines (lines-clean (split_lines [] cleaned)) in
    default-clean (take limit (join_lines kept))
      (take-clean limit (join_lines kept) (join_lines-clean kept clean))
