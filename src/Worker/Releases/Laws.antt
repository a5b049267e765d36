-- ===== src/Worker/Releases/Laws.antt =====
-- operations.queue.ts: the versions and the active release of each target and environment.
use auto_ops.Prelude.{
  ℕ, suc, ◌+◌, ◌≤◌, ◌≡◌, refl, ap, subst, Bool, true, false, List, [], ◌∷◌, ◌++◌, if◌then◌else◌,
  any, update_where, filter_where, find_first, count_where, count_of_none, any-update_where, length,
  arith, eq_iff, Bool-cases, inl, inr, some,
}
use mathlib.Core.List.{append-nil}
use auto_ops.Worker.Releases.{
  AwsRelease, Registry, ReleaseScope, is_active_for, is_for, same_scope, supersede, supersede_row,
  add_release,
}

-- The versions count up from a number, in the order of the rows.
abbrev pub Numbered : ℕ → List AwsRelease → Type 0
Numbered n [] = Unit
Numbered n (r ∷ rs) = (r.release_version ≡ n) × Numbered (suc n) rs

abbrev pub releases_of : ReleaseScope → Registry → List AwsRelease
releases_of scope w = filter_where (is_for scope) w.releases

abbrev pub active_count : ReleaseScope → Registry → ℕ
active_count scope w = count_where (is_active_for scope) w.releases

-- In each target and environment, the versions are 1, 2, 3 and so on, and at most one release is active.
pub record IsOrdered (w : Registry) : Type 0 where
  pub numbered : (scope : ReleaseScope) → Numbered 1 (releases_of scope w)
  pub single : (scope : ReleaseScope) → active_count scope w ≤ 1

same_scope-equal : (s t : ReleaseScope) → same_scope s t ≡ true → s ≡ t
same_scope-equal s t h =
    let a : s.organization_id ≡ t.organization_id =
      (eq_iff s.organization_id t.organization_id).0 (ground (arith, h)) in
    let b : s.target_slug ≡ t.target_slug =
      (eq_iff s.target_slug t.target_slug).0 (ground (arith, h)) in
    let c : s.environment_slug ≡ t.environment_slug =
      (eq_iff s.environment_slug t.environment_slug).0 (ground (arith, h)) in
    cc

pub same_scope_self : (s : ReleaseScope) → same_scope s s ≡ true
same_scope_self s =
    rw
      (
        (eq_iff s.organization_id s.organization_id).1 refl,
        (eq_iff s.target_slug s.target_slug).1 refl,
        (eq_iff s.environment_slug s.environment_slug).1 refl,
      )
      refl

Numbered-append :
    (n : ℕ) (rs : List AwsRelease) (r : AwsRelease)
    → Numbered n rs
    → r.release_version ≡ n + length rs
    → Numbered n (rs ++ r ∷ [])
Numbered-append n [] r h e = (omega (arith, e), tt)
Numbered-append n (s ∷ rs) r (q, h) e = (q, Numbered-append (suc n) rs r h (omega (arith, e)))

pub length-filter_where :
    (p : AwsRelease → Bool) (rs : List AwsRelease) → length (filter_where p rs) ≡ count_where p rs
unfolding filter_where count_where
length-filter_where p [] = refl
length-filter_where p (r ∷ rs) = elim (Bool-cases (p r)) [
  | inl e ↦ rw e (omega (arith, length-filter_where p rs))
  | inr e ↦ rw e (omega (arith, length-filter_where p rs))
]

-- An update keeps the versions.
Numbered-update :
    (n : ℕ) (scope : ReleaseScope) (p : AwsRelease → Bool) (rs : List AwsRelease)
    → Numbered n (filter_where (is_for scope) rs)
    → Numbered n (filter_where (is_for scope) (update_where p supersede_row rs))
unfolding filter_where update_where
Numbered-update n scope p [] h = tt
Numbered-update n scope p (r ∷ rs) h = elim (Bool-cases (is_for scope r)) [
  | inl e ↦
      let (q, rest) = rw e at h in
      elim (Bool-cases (p r)) [
        | inl f ↦ rw (f, e) (q, Numbered-update (suc n) scope p rs rest)
        | inr f ↦ rw (f, e) (q, Numbered-update (suc n) scope p rs rest)
      ]
  | inr e ↦
      let rest = rw e at h in
      elim (Bool-cases (p r)) [
        | inl f ↦ rw (f, e) (Numbered-update n scope p rs rest)
        | inr f ↦ rw (f, e) (Numbered-update n scope p rs rest)
      ]
]

filter_where-append :
    (p : AwsRelease → Bool) (rs : List AwsRelease) (r : AwsRelease)
    → filter_where p (rs ++ r ∷ []) ≡ filter_where p rs ++ (if p r then r ∷ [] else [])
unfolding filter_where
filter_where-append p [] r = refl
filter_where-append p (s ∷ rs) r = elim (Bool-cases (p s)) [
  | inl e ↦ rw e (ap (λ t. s ∷ t) (filter_where-append p rs r))
  | inr e ↦ rw e (filter_where-append p rs r)
]

pub count_where-append :
    (p : AwsRelease → Bool) (rs : List AwsRelease) (r : AwsRelease)
    → count_where p (rs ++ r ∷ []) ≡ count_where p rs + (if p r then 1 else 0)
unfolding count_where
count_where-append p [] r = elim (Bool-cases (p r)) [ inl e ↦ rw e refl | inr e ↦ rw e refl ]
count_where-append p (s ∷ rs) r = omega (arith, count_where-append p rs r)

-- An update after which no row passes raises no count.
pub count_where-fewer :
    (q p : AwsRelease → Bool) (f : AwsRelease → AwsRelease) (rs : List AwsRelease)
    → ((r : AwsRelease) → q (f r) ≡ false)
    → count_where q (update_where p f rs) ≤ count_where q rs
unfolding count_where update_where
count_where-fewer q p f [] off = omega arith
count_where-fewer q p f (r ∷ rs) off = elim (Bool-cases (p r)) [
  | inl e ↦ rw (e, off r) (omega (arith, count_where-fewer q p f rs off))
  | inr e ↦ rw e (omega (arith, count_where-fewer q p f rs off))
]

pub superseded-inactive :
    (scope : ReleaseScope) (r : AwsRelease) → is_active_for scope (supersede_row r) ≡ false
superseded-inactive scope r = ground arith

pub none_active : (scope : ReleaseScope) (w : Registry) → active_count scope (supersede scope w) ≡ 0
none_active scope w =
    count_of_none (is_active_for scope)
      (update_where (is_active_for scope) supersede_row w.releases)
      (any-update_where (is_active_for scope) supersede_row w.releases
        (λ r _. superseded-inactive scope r))

pub supersede-IsOrdered :
    (scope : ReleaseScope) (w : Registry) → IsOrdered w → IsOrdered (supersede scope w)
supersede-IsOrdered scope w h = record {
  numbered = λ s. Numbered-update 1 s (is_active_for scope) w.releases (h.numbered s);
  single = λ s.
      let fewer =
        count_where-fewer (is_active_for s) (is_active_for scope) supersede_row w.releases
          (λ r. superseded-inactive s r) in
      let one = h.single s in omega (arith, fewer, one);
}

-- A row behind rows of which none passes is the one that a query finds.
pub find_first-last :
    (p : AwsRelease → Bool) (rs : List AwsRelease) (r : AwsRelease)
    → any p rs ≡ false
    → p r ≡ true
    → find_first p (rs ++ r ∷ []) ≡ some r
unfolding find_first any
find_first-last p [] r h e = rw e refl
find_first-last p (s ∷ rs) r h e =
    let other : p s ≡ false = ground (arith, h) in
    rw other (find_first-last p rs r (ground (arith, h)) e)

module _ (r : AwsRelease) (w : Registry) (h : IsOrdered w)
    (version : r.release_version ≡ 1 + length (releases_of r.scope w))
    (inactive : active_count r.scope w ≡ 0) where
  add-Numbered : (scope : ReleaseScope) → Numbered 1 (releases_of scope (add_release r w))
  add-Numbered scope =
      rw (filter_where-append (is_for scope) w.releases r) (elim (Bool-cases (is_for scope r)) [
        | inl e ↦
            let same = same_scope-equal r.scope scope e in
            rw e (
              Numbered-append 1 (releases_of scope w) r (h.numbered scope)
                (subst (λ s. r.release_version ≡ 1 + length (releases_of s w)) same version))
        | inr e ↦ rw (e, append-nil (releases_of scope w)) (h.numbered scope)
      ])

  add-single : (scope : ReleaseScope) → active_count scope (add_release r w) ≤ 1
  add-single scope =
      let counted = count_where-append (is_active_for scope) w.releases r in
      let one = h.single scope in
      elim (Bool-cases (is_for scope r)) [
        | inl e ↦
            let same = same_scope-equal r.scope scope e in
            let zero_before = subst (λ s. active_count s w ≡ 0) same inactive in
            ground (arith, counted, zero_before)
        | inr e ↦ let after = rw e at counted in omega (arith, after, one)
      ]

  pub add-IsOrdered : IsOrdered (add_release r w)
  add-IsOrdered = record { numbered = add-Numbered; single = add-single }
