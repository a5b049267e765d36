-- ===== src/Guardrails/Reading.antt =====
-- aws-guardrails.ts: what is read from the text of a plan, its cost and the masked account.
use auto_ops.Prelude.{
  ℕ, zero, suc, ◌+◌, ◌-◌, ◌*◌, ◌/◌, Bool, false, ◌&&◌, ◌||◌, String, Option, none, some, List, [],
  ◌∷◌, ◌++◌, if◌then◌else◌, leb, nat_eq, codes, length, get_or, or_else, filter_where,
}
use auto_ops.Prelude.Search.{starts_with, includes, includes_any}
use auto_ops.Paging.{drop}
use auto_ops.Urn.{Text, is_space, drop_start}

-- `value.split(needle).length - 1`; the first argument counts the units of an occurrence that are left.
unfoldable pub count_occurrences : ℕ → Text → (needle : Text) → ℕ
unfolding starts_with
count_occurrences left [] needle = 0
count_occurrences (suc left) (c ∷ s) needle = count_occurrences left s needle
count_occurrences zero (c ∷ s) needle =
    let behind = suc (count_occurrences (length needle - 1) s needle) in
    let later = count_occurrences zero s needle in
    if starts_with (c ∷ s) needle then behind else later

unfoldable pub count_matches : Text → (needles : List String) → ℕ
unfolding count_occurrences
count_matches value [] = 0
count_matches value (needle ∷ needles) =
    count_occurrences 0 value (codes needle) + count_matches value needles

abbrev pub is_digit : ℕ → Bool
is_digit c = leb b'0' c && leb c b'9'

-- `["\s:=]`
abbrev pub is_separator : ℕ → Bool
is_separator c = nat_eq c b'"' || is_space c || nat_eq c b':' || nat_eq c b'='

abbrev pub head_passes : (ℕ → Bool) → Text → Bool
head_passes p [] = false
head_passes p (c ∷ s) = p c

-- The number at the start of a text.
unfoldable pub leading_number : (read : ℕ) → Text → ℕ
leading_number read [] = read
leading_number read (c ∷ s) =
    let more = leading_number (read * 10 + (c - b'0')) s in if is_digit c then more else read

-- `["\s:=]+(\d+)` at the start of a text.
unfoldable pub separated_number : Text → Option ℕ
unfolding drop_start leading_number
separated_number s =
    if head_passes is_separator s && head_passes is_digit (drop_start is_separator s)
    then some (leading_number 0 (drop_start is_separator s))
    else none

-- The first match of a key with its number.
unfoldable pub number_of_key : (key : Text) → Text → Option ℕ
unfolding starts_with drop separated_number
number_of_key key [] = none
number_of_key key (c ∷ s) =
    let later = number_of_key key s in
    let here = separated_number (drop (length key) (c ∷ s)) in
    if starts_with (c ∷ s) key then or_else here later else later

unfoldable pub number_from_text : Text → (keys : List String) → Option ℕ
unfolding number_of_key
number_from_text value [] = none
number_from_text value (key ∷ keys) =
    or_else (number_of_key (codes key) value) (number_from_text value keys)

abbrev pub high_impact_names : List String
high_impact_names =
    "aws_db_instance" ∷ "aws_rds_cluster" ∷ "aws_eks_cluster" ∷ "aws_elasticache_cluster" ∷ []

unfoldable pub high_impact_resources : Text → List String
unfolding filter_where includes
high_impact_resources value = filter_where (λ name. includes value (codes name)) high_impact_names

-- A quotient rounded to the nearest number, halves up.
abbrev pub round_quotient : (n d : ℕ) → ℕ
round_quotient n d = (2 * n + d) / (2 * d)

-- Cents: 4 a month for each hour's vCPU, 0.45 for each hour's GB, and the surcharges.
unfoldable pub estimate_monthly_cost_delta :
    (desired_count fargate_cpu fargate_memory_mb : Option ℕ)
    → (public_load_balancer network : Bool) → (output : Text) → ℕ
unfolding includes_any
estimate_monthly_cost_delta desired_count fargate_cpu fargate_memory_mb public_load_balancer network
      output =
    let desired = get_or desired_count 1 in
    let cpu = get_or fargate_cpu 512 in
    let memory = get_or fargate_memory_mb 1024 in
    let tasks = round_quotient (desired * (cpu * 400 + memory * 45) * 730) 102400 in
    let nat = network && includes_any ("nat_gateway" ∷ "aws_nat_gateway" ∷ []) output in
    let logs = includes_any ("aws_cloudwatch_log_group" ∷ "log_group" ∷ []) output in
    tasks
    + (if public_load_balancer then 1800 else 0)
    + (if nat then 3200 else 0)
    + (if logs then 300 else 0)

unfoldable pub stars : ℕ → Text
stars zero = []
stars (suc n) = b'*' ∷ stars n

unfoldable pub mask_account_id : Text → Text
unfolding stars drop
mask_account_id value =
    if leb (length value) 4
    then codes "****"
    else stars (length value - 4) ++ drop (length value - 4) value
