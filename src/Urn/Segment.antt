-- ===== src/Urn/Segment.antt =====
-- resource-urn.ts: what `sanitizeUrnSegment` returns.
use auto_ops.Prelude.{
  ℕ, ◌≡◌, refl, subst, Bool, true, false, not, ◌&&◌, [], ◌∷◌, arith, All, Bool-cases, inl, inr,
}
use auto_ops.Exec.{ok}
use auto_ops.Urn.{
  Text, is_nil, drop_start, drop_end, squeeze_from, squeeze, strip, is_allowed, is_edge, is_dash,
  is_slash, is_reserved, map_codes, dash_for_backslash, to_lower_case, replaced,
  sanitize_urn_segment, is_space, looks_secret,
}

abbrev pub head_is : (ℕ → Bool) → Text → Bool
head_is p [] = false
head_is p (c ∷ s) = p c

abbrev pub last_is : (ℕ → Bool) → Text → Bool
last_is p [] = false
last_is p (c ∷ []) = p c
last_is p (c ∷ d ∷ s) = last_is p (d ∷ s)

-- Small letters, digits and four marks, at least one, and at neither end a dot, a slash or a dash.
pub record IsSegment (s : Text) : Type 0 where
  pub allowed : All (λ c. is_allowed c ≡ true) s
  pub present : is_nil s ≡ false
  pub head : head_is is_edge s ≡ false
  pub last : last_is is_edge s ≡ false

module _ (P : ℕ → Type 0) where
  drop_start-All : (p : ℕ → Bool) (s : Text) → All P s → All P (drop_start p s)
  unfolding drop_start
  drop_start-All p [] h = tt
  drop_start-All p (c ∷ s) (q, h) = elim (Bool-cases (p c)) [
    | inl e ↦ rw e (drop_start-All p s h)
    | inr e ↦ rw e (q, h)
  ]

  drop_end-All : (p : ℕ → Bool) (s : Text) → All P s → All P (drop_end p s)
  unfolding drop_end
  drop_end-All p [] h = tt
  drop_end-All p (c ∷ s) (q, h) = elim (Bool-cases (p c && is_nil (drop_end p s))) [
    | inl e ↦ rw e tt
    | inr e ↦ rw e (q, drop_end-All p s h)
  ]

  squeeze_from-All :
      (p : ℕ → Bool) (by : ℕ) (begun : Bool) (s : Text)
      → P by
      → ((c : ℕ) → p c ≡ false → P c)
      → All P (squeeze_from p by begun s)
  unfolding squeeze_from
  squeeze_from-All p by begun [] q rest = tt
  squeeze_from-All p by true (c ∷ s) q rest = elim (Bool-cases (p c)) [
    | inl e ↦ rw e (squeeze_from-All p by true s q rest)
    | inr e ↦ rw e (rest c e, squeeze_from-All p by false s q rest)
  ]
  squeeze_from-All p by false (c ∷ s) q rest = elim (Bool-cases (p c)) [
    | inl e ↦ rw e (q, squeeze_from-All p by true s q rest)
    | inr e ↦ rw e (rest c e, squeeze_from-All p by false s q rest)
  ]

  -- A squeeze of a text of such characters.
  squeeze_from-keeps :
      (p : ℕ → Bool) (by : ℕ) (begun : Bool) (s : Text)
      → P by
      → All P s
      → All P (squeeze_from p by begun s)
  unfolding squeeze_from
  squeeze_from-keeps p by begun [] q h = tt
  squeeze_from-keeps p by true (c ∷ s) q (r, h) = elim (Bool-cases (p c)) [
    | inl e ↦ rw e (squeeze_from-keeps p by true s q h)
    | inr e ↦ rw e (r, squeeze_from-keeps p by false s q h)
  ]
  squeeze_from-keeps p by false (c ∷ s) q (r, h) = elim (Bool-cases (p c)) [
    | inl e ↦ rw e (q, squeeze_from-keeps p by true s q h)
    | inr e ↦ rw e (r, squeeze_from-keeps p by false s q h)
  ]

head-drop_start : (p : ℕ → Bool) (s : Text) → head_is p (drop_start p s) ≡ false
unfolding drop_start
head-drop_start p [] = refl
head-drop_start p (c ∷ s) = elim (Bool-cases (p c)) [
  | inl e ↦ rw e (head-drop_start p s)
  | inr e ↦ rw e e
]

head-drop_end : (p : ℕ → Bool) (s : Text) → head_is p s ≡ false → head_is p (drop_end p s) ≡ false
unfolding drop_end
head-drop_end p [] h = refl
head-drop_end p (c ∷ s) h = elim (Bool-cases (p c && is_nil (drop_end p s))) [
  | inl e ↦ rw e refl
  | inr e ↦ rw e h
]

last_cons :
    (p : ℕ → Bool) (c : ℕ) (s : Text)
    → last_is p s ≡ false
    → (p c && is_nil s) ≡ false
    → last_is p (c ∷ s) ≡ false
last_cons p c [] h e = ground (arith, e)
last_cons p c (d ∷ s) h e = h

last-drop_end : (p : ℕ → Bool) (s : Text) → last_is p (drop_end p s) ≡ false
unfolding drop_end
last-drop_end p [] = refl
last-drop_end p (c ∷ s) = elim (Bool-cases (p c && is_nil (drop_end p s))) [
  | inl e ↦ rw e refl
  | inr e ↦ rw e (last_cons p c (drop_end p s) (last-drop_end p s) e)
]

abbrev IsAllowed : ℕ → Type 0
IsAllowed c = is_allowed c ≡ true

dash-IsAllowed : IsAllowed b'-'
unfolding is_allowed
dash-IsAllowed = refl

slash-IsAllowed : IsAllowed b'/'
unfolding is_allowed
slash-IsAllowed = refl

replaced-IsAllowed : (s : Text) → All IsAllowed (replaced s)
unfolding replaced strip squeeze
replaced-IsAllowed s =
    let reserved = squeeze is_reserved b'-' (map_codes dash_for_backslash (to_lower_case s)) in
    let dashed = squeeze (λ c. not (is_allowed c)) b'-' reserved in
    let single = squeeze is_dash b'-' dashed in
    let whole = squeeze is_slash b'/' single in
    let h0 : All IsAllowed dashed =
      squeeze_from-All IsAllowed (λ c. not (is_allowed c)) b'-' false reserved dash-IsAllowed
        (λ c e. ground (arith, e)) in
    let h1 : All IsAllowed single =
      squeeze_from-keeps IsAllowed is_dash b'-' false dashed dash-IsAllowed h0 in
    let h2 : All IsAllowed whole =
      squeeze_from-keeps IsAllowed is_slash b'/' false single slash-IsAllowed h1 in
    drop_end-All IsAllowed is_edge (drop_start is_edge whole)
      (drop_start-All IsAllowed is_edge whole h2)

replaced_ends :
    (s : Text) → (head_is is_edge (replaced s) ≡ false) × (last_is is_edge (replaced s) ≡ false)
unfolding replaced strip
replaced_ends s =
    let whole = squeeze is_slash b'/' (
      squeeze is_dash b'-' (
        squeeze (λ c. not (is_allowed c)) b'-'
          (squeeze is_reserved b'-' (map_codes dash_for_backslash (to_lower_case s))))) in
    (
      head-drop_end is_edge (drop_start is_edge whole) (head-drop_start is_edge whole),
      last-drop_end is_edge (drop_start is_edge whole),
    )

-- Where a segment is returned, it has only small letters, digits, dots, underscores, slashes and dashes,
-- at least one of them, and no dot, slash or dash at an end.
pub sanitize_urn_segment-IsSegment :
    (input s : Text) → sanitize_urn_segment input ≡ ok s → IsSegment s
unfolding sanitize_urn_segment
sanitize_urn_segment-IsSegment input s h =
    let t = strip is_space input in
    elim (Bool-cases (is_nil t)) [
      | inl e ↦ let bad = rw e at h in absurd (ground (arith, bad))
      | inr e ↦ elim (Bool-cases (looks_secret t)) [
        | inl f ↦ let bad = rw (e, f) at h in absurd (ground (arith, bad))
        | inr f ↦ elim (Bool-cases (is_nil (replaced t))) [
          | inl g ↦ let bad = rw (e, f, g) at h in absurd (ground (arith, bad))
          | inr g ↦
              let same : replaced t ≡ s = let ran = rw (e, f, g) at h in ground (arith, ran) in
              let (first, last) = replaced_ends t in
              subst IsSegment same
                (record { allowed = replaced-IsAllowed t; present = g; head = first; last = last })
        ]
      ]
    ]
