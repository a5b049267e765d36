-- ===== src/Worker/Releases.antt =====
-- apps/worker/src/queues/operations.queue.ts: `recordNewAwsRelease`, which the executor of an ECS apply,
-- promotion or rollback calls. It is given the database, not a transaction, so that others can run between
-- its three steps.
pub mod Laws
pub mod Recording
mod Tests
use auto_ops.Prelude.{
  ℕ, ◌+◌, Bool, true, false, ◌&&◌, String, Option, none, some, List, [], ◌∷◌, ◌++◌, ◌==◌,
  if◌then◌else◌, find_first, update_where, count_where,
}
use auto_ops.Exec.{Exec, pure, gets, modify, ◌>>=◌, ◌>>◌}
use auto_ops.Operation.World.{OperationRow, has_id}

pub data AwsReleaseStatus : Type 0 where
  active superseded rolled_back failed : AwsReleaseStatus

-- The target and the environment of an organization that a release is for.
pub record ReleaseScope : Type 0 where
  pub organization_id : String
  pub target_slug : String
  pub environment_slug : String

pub record AwsRelease : Type 0 where
  pub id : String
  pub scope : ReleaseScope
  pub source_operation_id : Option String
  pub plan_operation_id : Option String
  pub apply_operation_id : String
  pub image_uri : String
  pub image_digest : Option String
  pub release_version : ℕ
  pub status : AwsReleaseStatus
  pub promoted_from_release_id : Option String
  pub rolled_back_from_release_id : Option String
  pub created_by_user_id : Option String
  pub approved_by_user_id : Option String
  pub created_at : ℕ

pub record NewAwsRelease : Type 0 where
  pub scope : ReleaseScope
  pub source_operation_id : Option String
  pub plan_operation_id : Option String
  pub apply_operation_id : String
  pub image_uri : String
  pub image_digest : Option String
  pub promoted_from_release_id : Option String
  pub rolled_back_from_release_id : Option String
  pub approved_by_user_id : Option String

-- The tables that a recording reads and writes.
pub record Registry : Type 0 where
  pub operations : List OperationRow
  pub releases : List AwsRelease

abbrev pub is_active : AwsReleaseStatus → Bool
is_active active = true
is_active _ = false

abbrev pub same_scope : ReleaseScope → ReleaseScope → Bool
same_scope s t =
    (s.organization_id == t.organization_id)
    && (s.target_slug == t.target_slug)
    && (s.environment_slug == t.environment_slug)

abbrev pub is_for : ReleaseScope → AwsRelease → Bool
is_for scope r = same_scope r.scope scope

abbrev pub is_active_for : ReleaseScope → AwsRelease → Bool
is_active_for scope r = is_for scope r && is_active r.status

abbrev pub supersede_row : AwsRelease → AwsRelease
supersede_row r = record r { status = AwsReleaseStatus.superseded }

abbrev pub supersede : ReleaseScope → Registry → Registry
supersede scope w = record w {
  releases = update_where (is_active_for scope) supersede_row w.releases;
}

abbrev pub next_version : ReleaseScope → Registry → ℕ
next_version scope w = count_where (is_for scope) w.releases + 1

abbrev pub requester_of : Option OperationRow → Option String
requester_of none = none
requester_of (some operation) = operation.requested_by

abbrev pub new_release :
    (id : String) (now : ℕ)
    → NewAwsRelease
    → (version : ℕ) → (created_by : Option String) → AwsRelease
new_release id now d version created_by = record {
  id = id;
  scope = d.scope;
  source_operation_id = d.source_operation_id;
  plan_operation_id = d.plan_operation_id;
  apply_operation_id = d.apply_operation_id;
  image_uri = d.image_uri;
  image_digest = d.image_digest;
  release_version = version;
  status = AwsReleaseStatus.active;
  promoted_from_release_id = d.promoted_from_release_id;
  rolled_back_from_release_id = d.rolled_back_from_release_id;
  created_by_user_id = created_by;
  approved_by_user_id = d.approved_by_user_id;
  created_at = now;
}

abbrev pub add_release : AwsRelease → Registry → Registry
add_release r w = record w { releases = w.releases ++ r ∷ [] }

-- What a recording knows when it creates its row.
pub record Begun : Type 0 where
  pub version : ℕ
  pub created_by : Option String

-- A recording up to its creation: the operation is read, the active releases are superseded, and the
-- releases are counted.
unfoldable pub begin_release : NewAwsRelease → Exec Registry Begun
begin_release d = do
  operation ← gets (λ w. find_first (has_id d.apply_operation_id) w.operations)
  modify (supersede d.scope)
  version ← gets (next_version d.scope)
  pure (record { version = version; created_by = requester_of operation })

-- The creation. The identifier and the time of the new row are arguments.
unfoldable pub create_release :
    (id : String) (now : ℕ) → NewAwsRelease → Begun → Exec Registry AwsRelease
create_release id now d b = do
  let release = new_release id now d b.version b.created_by
  modify (add_release release)
  pure release

unfoldable pub record_new_aws_release :
    (id : String) (now : ℕ) → NewAwsRelease → Exec Registry AwsRelease
unfolding begin_release create_release
record_new_aws_release id now d = do begun ← begin_release d; create_release id now d begun

-- Two recordings whose steps alternate: both begin, and then both create. It returns both rows.
unfoldable pub record_both :
    (id other : String) (now : ℕ) (d e : NewAwsRelease) → Exec Registry (AwsRelease × AwsRelease)
unfolding begin_release create_release
record_both id other now d e = do
  begun ← begin_release d
  also_begun ← begin_release e
  release ← create_release id now d begun
  also ← create_release other now e also_begun
  pure (release, also)
