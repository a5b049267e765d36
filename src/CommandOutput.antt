-- ===== src/CommandOutput.antt =====
-- packages/utils/src/infrastructure-catalog.ts: what is shown of a tool's output. A text is the list of its
-- UTF-16 units.
pub mod Laws
mod Tests
use auto_ops.Prelude.{
  ℕ, zero, suc, Bool, true, false, not, ◌&&◌, String, List, [], ◌∷◌, ◌++◌, if◌then◌else◌, leb,
  nat_eq, codes, lower_code, take, filter_where, map,
}
use auto_ops.Prelude.Search.{includes_any}
use auto_ops.Urn.{Text, is_nil, is_space, drop_end, strip, map_codes}

-- The characters of `[0-9;]*m` up to the `m`, which count it; `zero` where there is no `m` behind them.
unfoldable pub sequence_length : Text → ℕ
sequence_length [] = zero
sequence_length (c ∷ s) =
    let rest = sequence_length s in
    let longer = if nat_eq rest 0 then zero else suc rest in
    if nat_eq c b'm'
    then suc zero
    else if nat_eq c b';'
    then longer
    else if leb b'0' c && leb c b'9'
    then longer
    else zero

-- How much follows the first character of an escape sequence, which is the second argument's start.
abbrev pub escape_length : ℕ → Text → ℕ
escape_length c [] = zero
escape_length c (d ∷ s) =
    let length = sequence_length s in
    if nat_eq c 27 && nat_eq d b'[' then (if nat_eq length 0 then zero else suc length) else zero

-- `stripAnsi`; the first argument counts the characters of a sequence that are left.
unfoldable pub strip_ansi_from : ℕ → Text → Text
unfolding sequence_length
strip_ansi_from left [] = []
strip_ansi_from (suc left) (c ∷ s) = strip_ansi_from left s
strip_ansi_from zero (c ∷ s) =
    let inside = strip_ansi_from (escape_length c s) s in
    let outside = c ∷ strip_ansi_from zero s in
    if nat_eq (escape_length c s) 0 then outside else inside

unfoldable pub strip_ansi : Text → Text
unfolding strip_ansi_from
strip_ansi = strip_ansi_from zero

-- `split('\n')`; the first argument is the line that has begun.
unfoldable pub split_lines : Text → Text → List Text
split_lines line [] = line ∷ []
split_lines line (c ∷ s) =
    let ended = line ∷ split_lines [] s in
    let begun = split_lines (line ++ c ∷ []) s in if nat_eq c b'\n' then ended else begun

-- The alternatives of the regular expression, those with an optional character written out.
abbrev pub secret_words : List String
secret_words =
    "token" ∷ "secret" ∷ "password" ∷ "authorization" ∷ "apikey" ∷ "api_key" ∷ "api-key"
    ∷ "accesskey" ∷ "access_key" ∷ "access-key" ∷ "privatekey" ∷ "private_key" ∷ "private-key"
    ∷ "kubeconfig" ∷ "credential" ∷ []

-- The test of the regular expression, which ignores case.
unfoldable pub shows_secret : Text → Bool
unfolding includes_any map_codes
shows_secret s = includes_any secret_words (map_codes lower_code s)

unfoldable pub shown_line : Text → Text
unfolding drop_end shows_secret
shown_line line =
    let trimmed = drop_end is_space line in
    if shows_secret trimmed then codes "[REDACTED LINE]" else trimmed

abbrev pub is_blank : Text → Bool
is_blank line = is_nil (strip is_space line)

-- `join('\n')`
unfoldable pub join_lines : List Text → Text
join_lines [] = []
join_lines (line ∷ []) = line
join_lines (line ∷ next ∷ lines) = line ++ b'\n' ∷ join_lines (next ∷ lines)

abbrev pub or_default : Text → Text
or_default [] = codes "Command completed without output."
or_default (c ∷ s) = c ∷ s

-- `summarizeCommandOutput`
unfoldable pub summarize_command_output : Text → (limit : ℕ) → Text
unfolding strip_ansi filter_where split_lines shown_line strip join_lines
summarize_command_output value limit =
    let cleaned = filter_where (λ c. not (nat_eq c b'\r')) (strip_ansi value) in
    let lines = map shown_line (split_lines [] cleaned) in
    or_default (take limit (join_lines (filter_where (λ line. not (is_blank line)) lines)))
