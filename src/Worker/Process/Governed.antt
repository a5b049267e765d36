-- ===== src/Worker/Process/Governed.antt =====
-- operations.queue.ts, `processOperation`: its steps against the invariant of the table of operations.
use auto_ops.Prelude.{
  ℕ, ◌≡◌, refl, true, String, some, List, All, All-update_where, Distinct-update_where, find_first,
  any, update_where, arith, is_some, ◌∙◌, find_first_of_any, find_first_by_key, find_first_passes,
  All-find_first, All-update_found, subst, ◌==◌, eq_iff,
}
use auto_ops.Json.{Fields}
use auto_ops.Exec.{Result, ok, err}
use auto_ops.Exec.Triple.{
  Triple, keeps, Triple-bind, Triple-pure, Triple-gets, Triple-or_throw, Triple-modify, Keeps,
  Keeps-bind, Keeps-gets, Keeps-or_throw, Keeps-pure, Keeps-modify, Keeps-throw, Keeps-catch,
}
use auto_ops.Operation.World.{World, OperationRow, OperationJobData, has_id}
use auto_ops.Operation.Governed.{
  IsGoverned, Governed, GovernedWorld, Holding, Holding-update, row_id, requires_approval,
}
use auto_ops.Worker.Incidents.Laws.{incident-Keeps}
use auto_ops.Worker.Process.{
  update_operation, claim, look_up, finish, is_claimable, claim_row, succeed_row, fail_row,
  message_of,
}

-- An operation that may be executed: it needs no approval, or has one.
abbrev pub IsCleared : OperationRow → Type 0
IsCleared r = requires_approval r ≡ true → is_some r.approved_by ≡ true

claim_row-IsGoverned :
    (now : ℕ) (id organization : String) (r : OperationRow)
    → is_claimable id organization r ≡ true
    → IsGoverned r
    → IsGoverned (claim_row now r)
claim_row-IsGoverned now id organization r c g = ground arith

succeed_row-IsGoverned :
    (now : ℕ) (result : Fields) (r : OperationRow)
    → IsCleared r
    → IsGoverned r
    → IsGoverned (succeed_row now result r)
succeed_row-IsGoverned now result r c g = ground arith

fail_row-IsGoverned :
    (now : ℕ) (message : String) (r : OperationRow)
    → IsCleared r
    → IsGoverned r
    → IsGoverned (fail_row now message r)
fail_row-IsGoverned now message r c g = ground arith

claimable-IsCleared :
    (id organization : String) (r : OperationRow)
    → is_claimable id organization r ≡ true
    → IsGoverned r
    → IsCleared r
claimable-IsCleared id organization r c g = ground arith

module _ (id organization : String) where
  -- An operation that may be claimed is released and so needs no further approval.
  claimable-Holding :
      (w : World)
      → GovernedWorld w
      → any (is_claimable id organization) w.operations ≡ true
      → Holding id IsCleared w.operations
  claimable-Holding w g h =
      let (row, found) = find_first_of_any (is_claimable id organization) w.operations h in
      let passes : is_claimable id organization row ≡ true =
        find_first_passes (is_claimable id organization) w.operations {x = row} found in
      let same : row.id ≡ id = ground (arith, eq_iff row.id id) in
      record {
        row = row;
        found =
            subst (λ i. find_first (has_id i) w.operations ≡ some row) same
              (find_first_by_key row_id (is_claimable id organization) w.operations {x = row}
                g.distinct found);
        holds = claimable-IsCleared id organization row passes (
            All-find_first IsGoverned (is_claimable id organization) w.operations {x = row} found
              g.each);
      }

  claim_update :
      (now : ℕ) (w : World)
      → GovernedWorld w
      → Governed (update_where (is_claimable id organization) (claim_row now) w.operations)
  claim_update now w g = record {
    distinct = Distinct-update_where row_id _ (claim_row now) w.operations (λ r. refl) g.distinct;
    each =
        All-update_where IsGoverned _ (claim_row now) w.operations
          (λ r c h. claim_row-IsGoverned now id organization r c h) g.each;
  }

  pub claim-Governed :
      (now : ℕ)
      → Triple GovernedWorld
          (claim now id organization)
          (λ claimed w. GovernedWorld w × (claimed ≡ true → Holding id IsCleared w.operations))
          GovernedWorld
  unfolding claim
  claim-Governed now = Triple-bind (Triple-gets _) λ claimed.
      Triple-bind
        (Triple-modify _
          {Q = λ w. GovernedWorld w × (claimed ≡ true → Holding id IsCleared w.operations)}
          (λ w (g, e). (
            claim_update now w g,
            λ c.
                Holding-update id IsCleared _ (claim_row now) w.operations (λ r. refl) (λ r _ h. h)
                  (claimable-Holding w g (e ∙ c)),
          )))
        λ _. Triple-pure claimed (λ w h. h)

  pub claim-Holding :
      (other : String) (Q : OperationRow → Type 0) (now : ℕ)
      → ((r : OperationRow) → Q r → Q (claim_row now r))
      → Keeps (λ w. Holding other Q w.operations) (claim now id organization)
  unfolding claim
  claim-Holding other Q now keep = Keeps-bind (Keeps-gets _) λ _.
      Keeps-bind
        (Keeps-modify _ (λ w h.
          Holding-update other Q _ (claim_row now) w.operations (λ r. refl) (λ r _. keep r) h))
        λ _. Keeps-pure _

-- An update of a row that is cleared.
update_cleared :
    (id : String) (f : OperationRow → OperationRow) (rows : List OperationRow)
    → ((r : OperationRow) → (f r).id ≡ r.id)
    → ((r : OperationRow) → IsCleared r → IsGoverned r → IsGoverned (f r))
    → Holding id IsCleared rows
    → Governed rows
    → Governed (update_where (has_id id) f rows)
update_cleared id f rows same step q g = record {
  distinct = Distinct-update_where row_id (has_id id) f rows same g.distinct;
  each =
      subst (λ i. All IsGoverned (update_where (λ r. r.id == i) f rows)) known
        (All-update_found row_id IsGoverned (has_id id) f rows {x = q.row} g.distinct q.found
          (step q.row q.holds) g.each);
}
  where
    known : q.row.id ≡ id
    known = (eq_iff q.row.id id).0 (find_first_passes (has_id id) rows {x = q.row} q.found)

update-Governed :
    (id : String) (f : OperationRow → OperationRow)
    → ((r : OperationRow) → (f r).id ≡ r.id)
    → ((r : OperationRow) → IsCleared r → IsGoverned r → IsGoverned (f r))
    → Triple
        (λ w. GovernedWorld w × Holding id IsCleared w.operations)
        (update_operation id f)
        (λ _. GovernedWorld)
        GovernedWorld
unfolding update_operation
update-Governed id f same step = Triple-bind (Triple-gets _) λ found.
    Triple-bind (Triple-or_throw found _ (λ w h. h.0.0)) λ stored.
      Triple-bind
        (Triple-modify _ {Q = GovernedWorld}
          (λ w (((g, q), _), _). update_cleared id f w.operations same step q g))
        λ _. Triple-pure (f stored) (λ w h. h)

update-Holding :
    (other : String) (Q : OperationRow → Type 0) (id : String) (f : OperationRow → OperationRow)
    → ((r : OperationRow) → (f r).id ≡ r.id)
    → ((r : OperationRow) → Q r → Q (f r))
    → Keeps (λ w. Holding other Q w.operations) (update_operation id f)
unfolding update_operation
update-Holding other Q id f same keep = Keeps-bind (Keeps-gets _) λ _.
    Keeps-bind (Keeps-or_throw _ _) λ _.
      Keeps-bind
        (Keeps-modify _ (λ w h. Holding-update other Q _ f w.operations same (λ r _. keep r) h))
        λ _. Keeps-pure _

pub finish-Governed :
    (now : ℕ) (incident : String) (operation : OperationRow) (outcome : Result Fields)
    → Triple
        (λ w. GovernedWorld w × Holding operation.id IsCleared w.operations)
        (finish now incident operation outcome)
        (λ _. GovernedWorld)
        GovernedWorld
unfolding finish
finish-Governed now incident operation (ok result) =
    Triple-bind
      (update-Governed operation.id (succeed_row now result) (λ r. refl)
        (λ r. succeed_row-IsGoverned now result r))
      λ _. Keeps-pure _
finish-Governed now incident operation (err e) =
    Triple-bind
      (update-Governed operation.id (fail_row now (message_of e)) (λ r. refl)
        (λ r. fail_row-IsGoverned now (message_of e) r))
      λ failed.
        Keeps-bind (Keeps-catch (incident-Keeps Governed now incident failed) (λ _. Keeps-pure _))
          λ _. Keeps-throw e

pub finish-Holding :
    (other : String) (Q : OperationRow → Type 0) (now : ℕ) (incident : String)
    (operation : OperationRow) (outcome : Result Fields)
    → ((result : Fields) (r : OperationRow) → Q r → Q (succeed_row now result r))
    → ((message : String) (r : OperationRow) → Q r → Q (fail_row now message r))
    → Keeps (λ w. Holding other Q w.operations) (finish now incident operation outcome)
unfolding finish
finish-Holding other Q now incident operation (ok result) keep keep_failed =
    Keeps-bind
      (update-Holding other Q operation.id (succeed_row now result) (λ r. refl) (keep result))
      λ _. Keeps-pure _
finish-Holding other Q now incident operation (err e) keep keep_failed =
    Keeps-bind
      (update-Holding other Q operation.id (fail_row now (message_of e)) (λ r. refl)
        (keep_failed (message_of e)))
      λ failed.
        Keeps-bind
          (Keeps-catch (incident-Keeps (Holding other Q) now incident failed) (λ _. Keeps-pure _))
          λ _. Keeps-throw e

-- The look-up reads only.
pub look_up-Keeps : (P : World → Type 0) (job : OperationJobData) → Keeps P (look_up job)
unfolding look_up
look_up-Keeps P job = search keeps depth 12
