-- ===== src/Urn.antt =====
-- packages/utils/src/resource-urn.ts: names of resources. A text is the list of its code points.
pub mod Segment
pub mod Names
mod Tests
use auto_ops.Prelude.{
  ℕ, ◌+◌, ◌≡◌, refl, ap, Bool, true, false, not, ◌&&◌, ◌||◌, String, List, [], ◌∷◌, ◌++◌,
  if◌then◌else◌, leb, nat_eq, codes, lower_code,
}
use auto_ops.Prelude.Search.{includes_any, starts_with}
use auto_ops.Errors.{Thrown, plain}
use auto_ops.Exec.{Result, ok, err}

abbrev pub Text : Type 0
Text = List ℕ

infixl 10 ◌>>=◌
abbrev pub ◌>>=◌ : {A B : Type 0} → Result A → (A → Result B) → Result B
ok a >>= f = f a
err e >>= f = err e

-- White space and line ends.
abbrev pub is_space : ℕ → Bool
is_space c =
    leb 9 c && leb c 13
    || nat_eq c 32
    || nat_eq c 160
    || nat_eq c 5760
    || leb 8192 c && leb c 8202
    || nat_eq c 8232
    || nat_eq c 8233
    || nat_eq c 8239
    || nat_eq c 8287
    || nat_eq c 12288
    || nat_eq c 65279

abbrev pub is_nil : Text → Bool
is_nil [] = true
is_nil (c ∷ s) = false

module _ (p : ℕ → Bool) where
  unfoldable pub drop_start : Text → Text
  drop_start [] = []
  drop_start (c ∷ s) = if p c then drop_start s else c ∷ s

  unfoldable pub drop_end : Text → Text
  drop_end [] = []
  drop_end (c ∷ s) = let rest = drop_end s in if p c && is_nil rest then [] else c ∷ rest

  -- `replace(/[...]+/g, by)`: each run becomes one character; the second argument tells whether a run
  -- has begun.
  unfoldable pub squeeze_from : (by : ℕ) → Bool → Text → Text
  squeeze_from by begun [] = []
  squeeze_from by begun (c ∷ s) =
      let inside = squeeze_from by true s in
      let outside = c ∷ squeeze_from by false s in
      if p c then (if begun then inside else by ∷ inside) else outside

-- What a text becomes when both its ends lose the characters that pass.
unfoldable pub strip : (ℕ → Bool) → Text → Text
unfolding drop_start drop_end
strip p s = drop_end p (drop_start p s)

unfoldable pub squeeze : (ℕ → Bool) → (by : ℕ) → Text → Text
unfolding squeeze_from
squeeze p by = squeeze_from p by false

-- `toLowerCase`, as far as its result is kept: besides A to Z, the Kelvin sign and the capital I with a
-- dot become ASCII letters, the latter with a combining dot.
unfoldable pub to_lower_case : Text → Text
to_lower_case [] = []
to_lower_case (c ∷ s) =
    let rest = to_lower_case s in
    if nat_eq c 8490
    then b'k' ∷ rest
    else if nat_eq c 304
    then b'i' ∷ 775 ∷ rest
    else lower_code c ∷ rest

-- `replace(/\\/g, '-')`
abbrev pub dash_for_backslash : ℕ → ℕ
dash_for_backslash c = if nat_eq c 92 then b'-' else c

unfoldable pub map_codes : (ℕ → ℕ) → Text → Text
map_codes f [] = []
map_codes f (c ∷ s) = f c ∷ map_codes f s

pub map_codes-append :
    (f : ℕ → ℕ) (s t : Text) → map_codes f (s ++ t) ≡ map_codes f s ++ map_codes f t
unfolding map_codes
map_codes-append f [] t = refl
map_codes-append f (c ∷ s) t = ap (λ r. f c ∷ r) (map_codes-append f s t)

unfoldable pub is_reserved : ℕ → Bool
is_reserved c =
    nat_eq c b':'
    || nat_eq c b'?'
    || nat_eq c b'#'
    || nat_eq c b'['
    || nat_eq c b']'
    || nat_eq c b'@'
    || nat_eq c b'!'
    || nat_eq c b'$'
    || nat_eq c b'&'
    || nat_eq c b'\''
    || nat_eq c b'('
    || nat_eq c b')'
    || nat_eq c b'*'
    || nat_eq c b'+'
    || nat_eq c b','
    || nat_eq c b';'
    || nat_eq c b'='

-- `[a-z0-9._/-]`
unfoldable pub is_allowed : ℕ → Bool
is_allowed c =
    leb b'a' c && leb c b'z'
    || leb b'0' c && leb c b'9'
    || nat_eq c b'.'
    || nat_eq c b'_'
    || nat_eq c b'/'
    || nat_eq c b'-'

abbrev pub is_dash : ℕ → Bool
is_dash c = nat_eq c b'-'

abbrev pub is_slash : ℕ → Bool
is_slash c = nat_eq c b'/'

-- `[./-]`
unfoldable pub is_edge : ℕ → Bool
is_edge c = nat_eq c b'.' || nat_eq c b'/' || nat_eq c b'-'

-- The alternatives of `SECRET_LIKE_PATTERN`, those with an optional character written out.
abbrev pub secret_like_words : List String
secret_like_words =
    "authorization" ∷ "bearer" ∷ "password" ∷ "passwd" ∷ "secret" ∷ "apikey" ∷ "api_key" ∷ "api-key"
    ∷ "accesskey" ∷ "access_key" ∷ "access-key" ∷ "privatekey" ∷ "private_key" ∷ "private-key"
    ∷ "token" ∷ []

-- `SECRET_LIKE_PATTERN.test(text)`
unfoldable pub looks_secret : Text → Bool
unfolding includes_any map_codes
looks_secret s = includes_any secret_like_words (map_codes lower_code s)

-- The replacements, in order.
unfoldable pub replaced : Text → Text
unfolding to_lower_case map_codes squeeze is_reserved is_allowed strip is_edge
replaced s = strip is_edge (
    squeeze is_slash b'/' (
      squeeze is_dash b'-' (
        squeeze (λ c. not (is_allowed c)) b'-'
          (squeeze is_reserved b'-' (map_codes dash_for_backslash (to_lower_case s))))))

-- `sanitizeUrnSegment`
unfoldable pub sanitize_urn_segment : Text → Result Text
unfolding strip looks_secret replaced
sanitize_urn_segment input =
    let trimmed = strip is_space input in
    if is_nil trimmed
    then err (plain "Resource URN segment cannot be empty.")
    else if looks_secret trimmed
    then err (plain "Resource URN segment looks secret-like and cannot be used.")
    else if is_nil (replaced trimmed)
    then err (plain "Resource URN segment cannot be sanitized to an empty value.")
    else ok (replaced trimmed)
