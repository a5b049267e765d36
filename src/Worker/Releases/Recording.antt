-- ===== src/Worker/Releases/Recording.antt =====
-- operations.queue.ts: what a recording of a release leaves, alone and beside another.
use auto_ops.Prelude.{
  ℕ, ◌+◌, ◌≡◌, refl, ap, List, sym, ◌∙◌, subst, true, String, [], ◌∷◌, ◌++◌, find_first,
  any-update_where, count_where-update_where, length, arith, some,
}
use auto_ops.Exec.{ok, ◌>>=◌}
use auto_ops.Operation.World.{has_id}
use auto_ops.Worker.Releases.{
  AwsRelease, NewAwsRelease, Registry, ReleaseScope, is_active_for, is_for, same_scope, supersede,
  supersede_row, next_version, new_release, add_release, requester_of, record_new_aws_release,
  record_both,
}
use auto_ops.Worker.Releases.Laws.{
  IsOrdered, releases_of, active_count, length-filter_where, same_scope_self, count_where-append,
  count_where-fewer, superseded-inactive, none_active, supersede-IsOrdered, find_first-last,
  add-IsOrdered,
}

-- The row that a recording adds, and what it leaves.
abbrev pub recorded_row : (id : String) (now : ℕ) → NewAwsRelease → Registry → AwsRelease
recorded_row id now d w =
    new_release id now d (next_version d.scope (supersede d.scope w))
      (requester_of (find_first (has_id d.apply_operation_id) w.operations))

abbrev pub recorded : (id : String) (now : ℕ) → NewAwsRelease → Registry → Registry
recorded id now d w = add_release (recorded_row id now d w) (supersede d.scope w)

next_version-supersede :
    (scope : ReleaseScope) (w : Registry)
    → next_version scope (supersede scope w) ≡ 1 + length (releases_of scope w)
next_version-supersede scope w =
    let same =
      count_where-update_where (is_for scope) (is_active_for scope) supersede_row w.releases
        (λ r. refl) in
    omega (arith, same, length-filter_where (is_for scope) w.releases)

-- The count of a second recording for the same target and environment.
later_version :
    (scope other : ReleaseScope) (w : Registry)
    → other ≡ scope
    → next_version other (supersede other (supersede scope w)) ≡ 1 + length (releases_of scope w)
later_version scope other w same =
    let kept =
      count_where-update_where (is_for other) (is_active_for other) supersede_row
        (supersede scope w).releases (λ r. refl) in
    let once = next_version-supersede scope w in
    let here : next_version other (supersede scope w) ≡ next_version scope (supersede scope w) =
      ap (λ s. next_version s (supersede scope w)) same in
    omega (arith, kept, once, here)

-- A recording returns its release with the next version of the target and environment. It keeps the order
-- of all versions and at most one active release everywhere, and the release that it returns is the one
-- active release of its target and environment.
pub record_new_aws_release-IsOrdered :
    (id : String) (now : ℕ) (d : NewAwsRelease) (w : Registry)
    → IsOrdered w
    → (r : AwsRelease) × (v : Registry) × (record_new_aws_release id now d w ≡ (ok r, v))
      × (r.release_version ≡ 1 + length (releases_of d.scope w))
      × IsOrdered v
      × (active_count d.scope v ≡ 1)
      × (find_first (is_active_for d.scope) v.releases ≡ some r)
unfolding record_new_aws_release ◌>>=◌
record_new_aws_release-IsOrdered id now d w h =
    let r = recorded_row id now d w in
    let v = supersede d.scope w in
    let version = next_version-supersede d.scope w in
    let behind : r.release_version ≡ 1 + length (releases_of d.scope v) =
      omega (arith, length-filter_where (is_for d.scope) v.releases) in
    let own = same_scope_self d.scope in
    let none_left = none_active d.scope w in
    let counted = count_where-append (is_active_for d.scope) v.releases r in
    let off =
      any-update_where (is_active_for d.scope) supersede_row w.releases
        (λ x _. superseded-inactive d.scope x) in
    let active : is_active_for d.scope r ≡ true = ground (arith, own) in
    (
      r,
      recorded id now d w,
      refl,
      version,
      add-IsOrdered r v (supersede-IsOrdered d.scope w h) behind none_left,
      counted ∙ rw active (omega (arith, none_left)),
      find_first-last (is_active_for d.scope) v.releases r off active,
    )

-- When two recordings for one target and environment both supersede and count before either creates its
-- row, both return, and the rows that they return are the last two of the table. The two rows have the
-- same version, the one that the next release should have, and both are active releases of that target
-- and environment: two are active there afterwards.
pub record_new_aws_release-races :
    (id other : String) (now : ℕ) (d e : NewAwsRelease) (w : Registry)
    → e.scope ≡ d.scope
    → (r : AwsRelease) × (q : AwsRelease) × (v : Registry) × (rest : List AwsRelease) × (record_both
          id other now d e w
        ≡ (ok (r, q), v))
      × (v.releases ≡ (rest ++ r ∷ []) ++ q ∷ [])
      × (r.release_version ≡ 1 + length (releases_of d.scope w))
      × (q.release_version ≡ 1 + length (releases_of d.scope w))
      × (is_active_for d.scope r ≡ true)
      × (is_active_for d.scope q ≡ true)
      × (active_count d.scope v ≡ 2)
unfolding record_both ◌>>=◌
record_new_aws_release-races id other now d e w same =
    let first = supersede d.scope w in
    let second = supersede e.scope first in
    let off =
      count_where-fewer (is_active_for d.scope) (is_active_for e.scope) supersede_row first.releases
        (λ r. superseded-inactive d.scope r) in
    let none_left = none_active d.scope w in
    let own = same_scope_self d.scope in
    let theirs : same_scope e.scope d.scope ≡ true =
      subst (λ s. same_scope s d.scope ≡ true) (sym same) own in
    let r =
      new_release id now d (next_version d.scope first)
        (requester_of (find_first (has_id d.apply_operation_id) w.operations)) in
    let q =
      new_release other now e (next_version e.scope second)
        (requester_of (find_first (has_id e.apply_operation_id) w.operations)) in
    let r_active : is_active_for d.scope r ≡ true = ground (arith, own) in
    let q_active : is_active_for d.scope q ≡ true = ground (arith, theirs) in
    let counted = count_where-append (is_active_for d.scope) second.releases r in
    let counted_again = count_where-append (is_active_for d.scope) (second.releases ++ r ∷ []) q in
    let one = rw r_active at counted in
    let two = rw q_active at counted_again in
    (
      r,
      q,
      add_release q (add_release r second),
      second.releases,
      refl,
      refl,
      next_version-supersede d.scope w,
      later_version d.scope e.scope w same,
      r_active,
      q_active,
      omega (arith, off, none_left, one, two),
    )
