-- ===== src/Incident/Listing/Tests.antt =====
-- Pages of three incidents.
use auto_ops.Prelude.{filter_where}
use auto_ops.Prelude.{ℕ, ◌≡◌, refl, Bool, true, false, String, none, [], ◌∷◌, Distinct, ne-of_test}
use auto_ops.Incident.{IncidentRow}
use auto_ops.Incident.Desk.{Desk}
use auto_ops.Incident.Listing.{IncidentFilter, listing, page}
use auto_ops.Incident.Listing.Laws.{list_incidents-stalls}
use auto_ops.Samples.{incident, desk_with}

abbrev at_time : String → ℕ → IncidentRow
at_time id opened = record incident { id = id; opened_at = opened }

abbrev desk : Desk
desk = record (desk_with incident) {
  incidents = at_time "inc-1" 10 ∷ at_time "inc-2" 30 ∷ at_time "inc-3" 20 ∷ [];
}

abbrev all_by : ℕ → IncidentFilter
all_by limit = record {
  status = none;
  severity = none;
  source = none;
  primary_resource_node_id = none;
  project_id = none;
  environment_id = none;
  deployment_id = none;
  operation_id = none;
  search = none;
  from = none;
  to = none;
  limit = limit;
  cursor = none;
}

abbrev never : String → String → Bool
never s t = false

abbrev tie : IncidentRow → IncidentRow → Bool
tie i j = false

in_order :
    (n : ℕ)
    → listing never tie "acme" (all_by n) desk
      ≡ at_time "inc-2" 30 ∷ at_time "inc-3" 20 ∷ at_time "inc-1" 10 ∷ []
unfolding listing filter_where
in_order n = refl

ids_differ :
    Distinct (λ i. i.id) (at_time "inc-2" 30 ∷ at_time "inc-3" 20 ∷ at_time "inc-1" 10 ∷ [])
ids_differ = (
  (ne-of_test "inc-3" "inc-2" refl, (ne-of_test "inc-1" "inc-2" refl, tt)),
  ((ne-of_test "inc-1" "inc-3" refl, tt), (tt, tt)),
)

list_incidents-stalls_example :
    let first = page never tie "acme" (all_by 1) desk in
    (first.incidents ≡ at_time "inc-2" 30 ∷ [])
    × (first.has_more ≡ true)
    × (page never tie "acme" (record (all_by 1) { cursor = first.next_cursor }) desk ≡ first)
list_incidents-stalls_example =
    list_incidents-stalls never tie "acme" (all_by 1) desk (at_time "inc-2" 30) (at_time "inc-3" 20)
      (at_time "inc-1" 10 ∷ []) refl refl (in_order 1) ids_differ refl
