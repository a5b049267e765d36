-- ===== src/PlanSummary/Matching.antt =====
-- terraform-plan-summary.ts: the line of a plan matches, with its numbers.
use auto_ops.Prelude.{
  ℕ, ◌+◌, ◌*◌, ◌-◌, ◌≡◌, refl, ap, ◌∙◌, Bool, true, false, some, List, [], ◌∷◌, ◌++◌, codes,
  lower_code, arith, All,
}
use auto_ops.Prelude.Search.{starts_with}
use auto_ops.Paging.{drop}
use auto_ops.Urn.{Text, is_nil, is_space, drop_start, map_codes}
use auto_ops.Guardrails.Reading.{is_digit, head_passes, leading_number}
use auto_ops.PlanSummary.{Part, word, blanks, number, plan_parts, with_number, match_plan}

-- At least one digit, and nothing else.
pub record IsNumeral (s : Text) : Type 0 where
  pub present : is_nil s ≡ false
  pub digits : All (λ c. is_digit c ≡ true) s

abbrev pub value : Text → ℕ
value s = leading_number 0 s

drop_start-append :
    (p : ℕ → Bool) (s rest : Text)
    → All (λ c. p c ≡ true) s
    → head_passes p rest ≡ false
    → drop_start p (s ++ rest) ≡ rest
unfolding drop_start
drop_start-append p [] [] h other = refl
drop_start-append p [] (c ∷ rest) h other = rw other refl
drop_start-append p (c ∷ s) rest (e, h) other = rw e (drop_start-append p s rest h other)

leading_number-append :
    (read : ℕ) (s rest : Text)
    → All (λ c. is_digit c ≡ true) s
    → head_passes is_digit rest ≡ false
    → leading_number read (s ++ rest) ≡ leading_number read s
unfolding leading_number
leading_number-append read [] [] h other = refl
leading_number-append read [] (c ∷ rest) h other = rw other refl
leading_number-append read (c ∷ s) rest (e, h) other =
    rw e (leading_number-append (read * 10 + (c - b'0')) s rest h other)

head-append : (s rest : Text) → IsNumeral s → head_passes is_digit (s ++ rest) ≡ true
head-append [] rest h = absurd (let bad = h.present in cc)
head-append (c ∷ s) rest h = h.digits.0

-- A number matches a numeral before something else.
pub match_plan-number :
    (parts : List Part) (s rest : Text)
    → IsNumeral s
    → head_passes is_digit rest ≡ false
    → match_plan (number ∷ parts) (s ++ rest) ≡ with_number (value s) (match_plan parts rest)
unfolding match_plan
match_plan-number parts s rest h other =
    rw
      (
        head-append s rest h,
        drop_start-append is_digit s rest h.digits other,
        leading_number-append 0 s rest h.digits other,
      )
      refl

pub lower-digits : (s : Text) → All (λ c. is_digit c ≡ true) s → map_codes lower_code s ≡ s
unfolding map_codes
lower-digits [] h = refl
lower-digits (c ∷ s) (e, h) =
    let same : lower_code c ≡ c = ground (arith, e) in rw (same, lower-digits s h) refl

-- No digit is white space.
digit_no_space : (c : ℕ) → is_digit c ≡ true → is_space c ≡ false
digit_no_space c h = ground (arith, h)

no_space-append : (s rest : Text) → IsNumeral s → head_passes is_space (s ++ rest) ≡ false
no_space-append [] rest h = absurd (let bad = h.present in cc)
no_space-append (c ∷ s) rest h = digit_no_space c (h.digits.0)

-- A blank before a numeral.
pub match_plan-blank :
    (parts : List Part) (s rest : Text)
    → IsNumeral s
    → match_plan (blanks false ∷ parts) (b' ' ∷ (s ++ rest)) ≡ match_plan parts (s ++ rest)
unfolding match_plan drop_start
match_plan-blank parts s rest h =
    rw (drop_start-append is_space [] (s ++ rest) tt (no_space-append s rest h)) refl

-- The line with its numerals, in small letters.
abbrev pub line_of : (added changed destroyed after : Text) → Text
line_of added changed destroyed after =
    codes "plan: "
    ++ (added
        ++ (codes " to add, "
            ++ (changed
                ++ (codes " to change, " ++ (destroyed ++ (codes " to destroy." ++ after))))))

abbrev destroyed_parts : List Part
destroyed_parts = number ∷ blanks true ∷ word "to destroy." ∷ []

abbrev pub changed_parts : List Part
changed_parts = number ∷ blanks true ∷ word "to change," ∷ blanks false ∷ destroyed_parts

match_plan-destroyed :
    (destroyed after : Text)
    → IsNumeral destroyed
    → match_plan destroyed_parts (destroyed ++ (codes " to destroy." ++ after))
      ≡ some (value destroyed ∷ [])
unfolding match_plan starts_with drop drop_start
match_plan-destroyed destroyed after d =
    match_plan-number (blanks true ∷ word "to destroy." ∷ []) destroyed
      (codes " to destroy." ++ after) d refl

match_plan-changed :
    (changed destroyed after : Text)
    → IsNumeral changed
    → IsNumeral destroyed
    → match_plan changed_parts
        (changed ++ (codes " to change, " ++ (destroyed ++ (codes " to destroy." ++ after))))
      ≡ some (value changed ∷ value destroyed ∷ [])
unfolding match_plan starts_with drop drop_start
match_plan-changed changed destroyed after c d =
    let rest : Text = destroyed ++ (codes " to destroy." ++ after) in
    match_plan-number (blanks true ∷ word "to change," ∷ blanks false ∷ destroyed_parts) changed
      (codes " to change, " ++ rest) c refl
    ∙ ap (with_number (value changed)) (
        match_plan-blank destroyed_parts destroyed (codes " to destroy." ++ after) d
        ∙ match_plan-destroyed destroyed after d)

pub match_plan-line :
    (added changed destroyed after : Text)
    → IsNumeral added
    → IsNumeral changed
    → IsNumeral destroyed
    → match_plan plan_parts (line_of added changed destroyed after)
      ≡ some (value added ∷ value changed ∷ value destroyed ∷ [])
unfolding match_plan starts_with drop drop_start
match_plan-line added changed destroyed after a c d =
    let rest : Text =
      changed ++ (codes " to change, " ++ (destroyed ++ (codes " to destroy." ++ after))) in
    match_plan-blank (number ∷ blanks true ∷ word "to add," ∷ blanks false ∷ changed_parts) added
      (codes " to add, " ++ rest) a
    ∙ match_plan-number (blanks true ∷ word "to add," ∷ blanks false ∷ changed_parts) added
        (codes " to add, " ++ rest) a refl
    ∙ ap (with_number (value added)) (
        match_plan-blank changed_parts changed
          (codes " to change, " ++ (destroyed ++ (codes " to destroy." ++ after))) c
        ∙ match_plan-changed changed destroyed after c d)
