-- ===== src/Worker/Releases/Tests.antt =====
-- A second release of a service.
use auto_ops.Prelude.{
  ◌≡◌, refl, ◌+◌, none, some, List, ◌++◌, true, [], ◌∷◌, String, find_first, filter_where,
  count_where, update_where, length, arith,
}
use auto_ops.Exec.{ok, ◌>>=◌}
use auto_ops.Worker.Releases.{
  AwsRelease, AwsReleaseStatus, NewAwsRelease, Registry, ReleaseScope, is_active_for, new_release,
  record_new_aws_release, record_both,
}
use auto_ops.Worker.Releases.Laws.{IsOrdered, releases_of, active_count, add-IsOrdered}
use auto_ops.Worker.Releases.Recording.{
  record_new_aws_release-IsOrdered, record_new_aws_release-races,
}

abbrev api : ReleaseScope
api = record { organization_id = "org1"; target_slug = "api"; environment_slug = "dev" }

abbrev release_of : (apply : String) → NewAwsRelease
release_of apply = record {
  scope = api;
  source_operation_id = none;
  plan_operation_id = some "plan1";
  apply_operation_id = apply;
  image_uri = "repo/api:1";
  image_digest = none;
  promoted_from_release_id = none;
  rolled_back_from_release_id = none;
  approved_by_user_id = some "admin";
}

abbrev nothing : Registry
nothing = record { operations = []; releases = [] }

nothing-IsOrdered : IsOrdered nothing
unfolding filter_where count_where
nothing-IsOrdered = record { numbered = λ s. tt; single = λ s. omega arith }

abbrev one_release : Registry
one_release = record {
  operations = [];
  releases = new_release "r1" 5 (release_of "op1") 1 none ∷ [];
}

one_release-IsOrdered : IsOrdered one_release
unfolding filter_where count_where
one_release-IsOrdered =
    add-IsOrdered (new_release "r1" 5 (release_of "op1") 1 none) nothing nothing-IsOrdered refl refl

record_new_aws_release-IsOrdered_example :
    (r : AwsRelease) × (v : Registry) × (record_new_aws_release "r2" 6
        (release_of "op2")
        one_release
      ≡ (ok r, v))
    × (r.release_version ≡ 1 + length (releases_of api one_release))
    × IsOrdered v
    × (active_count api v ≡ 1)
    × (find_first (is_active_for api) v.releases ≡ some r)
record_new_aws_release-IsOrdered_example =
    record_new_aws_release-IsOrdered "r2" 6 (release_of "op2") one_release one_release-IsOrdered

supersedes : record_new_aws_release "r2" 6 (release_of "op2") one_release ≡ (
  ok (new_release "r2" 6 (release_of "op2") 2 none),
  record {
    operations = [];
    releases =
        record (new_release "r1" 5 (release_of "op1") 1 none) {
          status = AwsReleaseStatus.superseded;
        }
        ∷ new_release "r2" 6 (release_of "op2") 2 none
        ∷ [];
  },
)
unfolding record_new_aws_release ◌>>=◌ count_where find_first update_where
supersedes = refl

record_new_aws_release-races_example :
    (r : AwsRelease) × (q : AwsRelease) × (v : Registry) × (rest : List AwsRelease) × (record_both
        "r2" "r3" 6
        (release_of "op2")
        (release_of "op3")
        one_release
      ≡ (ok (r, q), v))
    × (v.releases ≡ (rest ++ r ∷ []) ++ q ∷ [])
    × (r.release_version ≡ 1 + length (releases_of api one_release))
    × (q.release_version ≡ 1 + length (releases_of api one_release))
    × (is_active_for api r ≡ true)
    × (is_active_for api q ≡ true)
    × (active_count api v ≡ 2)
record_new_aws_release-races_example =
    record_new_aws_release-races "r2" "r3" 6 (release_of "op2") (release_of "op3") one_release refl
