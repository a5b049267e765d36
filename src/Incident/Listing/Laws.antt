-- ===== src/Incident/Listing/Laws.antt =====
-- incident.service.ts: the pages of `listIncidents`.
use auto_ops.Prelude.{
  ℕ, suc, ◌+◌, ◌≡◌, refl, sym, ap, ◌∙◌, Bool-cases, inl, inr, Bool, true, String, Option, none,
  some, List, [], ◌∷◌, ◌++◌, length, take, arith, Distinct, is_truthy, count_where, ltb,
}
use mathlib.Core.List.{append_assoc}
use auto_ops.Paging.{
  serve, from_key-append, drop, take-append, take-suc-append, take-take-suc, take-short,
  last_elem?-append, length-suc,
}
use auto_ops.Incident.{IncidentRow}
use auto_ops.Incident.Desk.{Desk}
use auto_ops.Incident.Listing.{
  IncidentFilter, IncidentListResponse, listing, page, page_of, cursor_of, is_listed,
}

-- The page of a query that returned one row more.
page_full :
    (total n : ℕ) (xs : List IncidentRow) (last x : IncidentRow)
    → suc (length xs) ≡ n
    → page_of n total ((xs ++ last ∷ []) ++ x ∷ []) ≡ record {
      incidents = xs ++ last ∷ [];
      total = total;
      limit = n;
      has_more = true;
      next_cursor = some last.id;
    }
page_full total n xs last x h =
    let size : length (xs ++ last ∷ []) ≡ n = length-suc xs last ∙ h in
    let more : ltb n (length ((xs ++ last ∷ []) ++ x ∷ [])) ≡ true =
      rw (length-suc (xs ++ last ∷ []) x, size) (ground arith) in
    let kept : take n ((xs ++ last ∷ []) ++ x ∷ []) ≡ xs ++ last ∷ [] =
      take-append n (xs ++ last ∷ []) (x ∷ []) size in
    rw (more, kept, last_elem?-append xs last) refl

first_rows :
    (n : ℕ) (xs : List IncidentRow) (last x : IncidentRow) (ys : List IncidentRow)
    → suc (length xs) ≡ n
    → take (n + 1) (xs ++ last ∷ x ∷ ys) ≡ (xs ++ last ∷ []) ++ x ∷ []
first_rows n xs last x ys h =
    let one_more : n + 1 ≡ suc n = omega arith in
    rw (one_more, ← append_assoc xs (last ∷ []) (x ∷ ys))
      (take-suc-append n (xs ++ last ∷ []) x ys (length-suc xs last ∙ h))

page_items :
    (total n : ℕ) (rows : List IncidentRow)
    → (page_of n total (take (n + 1) rows)).incidents ≡ take n rows
page_items total n rows =
    let one_more : n + 1 ≡ suc n = omega arith in
    rw one_more (elim (Bool-cases (ltb n (length (take (suc n) rows)))) [
      | inl more ↦ rw more (take-take-suc n rows)
      | inr fits ↦ rw fits (take-short n rows fits)
    ])

module _ (contains : String → String → Bool) (ties : IncidentRow → IncidentRow → Bool)
    (organization : String) (filter : IncidentFilter) (d : Desk) where
  first_page :
      (xs : List IncidentRow) (last x : IncidentRow) (ys : List IncidentRow)
      → cursor_of filter.cursor ≡ none
      → suc (length xs) ≡ filter.limit
      → listing contains ties organization filter d ≡ xs ++ last ∷ x ∷ ys
      → page contains ties organization filter d ≡ record {
        incidents = xs ++ last ∷ [];
        total = count_where (is_listed contains organization filter) d.incidents;
        limit = filter.limit;
        has_more = true;
        next_cursor = some last.id;
      }
  unfolding page serve
  first_page xs last x ys start size rows =
      rw (start, rows, first_rows filter.limit xs last x ys size)
        (page_full _ filter.limit xs last x size)

  -- The rows that the query for a cursor returns.
  cursor_rows :
      (xs : List IncidentRow) (last x : IncidentRow) (ys : List IncidentRow)
      → listing contains ties organization filter d ≡ xs ++ last ∷ x ∷ ys
      → Distinct (λ i. i.id) (xs ++ last ∷ x ∷ ys)
      → is_truthy (some last.id) ≡ true
      → page contains ties organization (record filter { cursor = some last.id }) d
        ≡ page_of filter.limit
            (count_where (is_listed contains organization filter) d.incidents)
            (take (filter.limit + 1) (last ∷ x ∷ ys))
  unfolding page serve drop
  cursor_rows xs last x ys rows distinct named =
      rw (named, rows, from_key-append (λ i. i.id) xs last (x ∷ ys) distinct) refl

  -- With pages of one incident, a listing of more than one never gets past its first: the page for the
  -- cursor that a page returns is that page again, with the same cursor.
  pub list_incidents-stalls :
      (i j : IncidentRow) (ys : List IncidentRow)
      → cursor_of filter.cursor ≡ none
      → filter.limit ≡ 1
      → listing contains ties organization filter d ≡ i ∷ j ∷ ys
      → Distinct (λ r. r.id) (i ∷ j ∷ ys)
      → is_truthy (some i.id) ≡ true
      → let first = page contains ties organization filter d in
        (first.incidents ≡ i ∷ [])
        × (first.has_more ≡ true)
        × (page contains ties organization (record filter { cursor = first.next_cursor }) d ≡ first)
  list_incidents-stalls i j ys start one rows distinct named =
      let first = first_page [] i j ys start (sym one) rows in
      let total = count_where (is_listed contains organization filter) d.incidents in
      let next = ap (λ (r : IncidentListResponse). r.next_cursor) first in
      let again =
        cursor_rows [] i j ys rows distinct named
        ∙ rw (first_rows filter.limit [] i j ys (sym one))
            (page_full total filter.limit [] i j (sym one)) in
      (
        ap (λ (r : IncidentListResponse). r.incidents) first,
        ap (λ (r : IncidentListResponse). r.has_more) first,
        ap (λ (c : Option String). page contains ties organization (record filter { cursor = c }) d)
              next
            ∙ again
            ∙ sym first,
      )

  -- A listing that has more rows than a page holds: the page for the cursor that the first page returns
  -- begins with the last row of the first page again.
  pub list_incidents-repeats :
      (xs : List IncidentRow) (last x : IncidentRow) (ys : List IncidentRow)
      → cursor_of filter.cursor ≡ none
      → suc (length xs) ≡ filter.limit
      → listing contains ties organization filter d ≡ xs ++ last ∷ x ∷ ys
      → Distinct (λ r. r.id) (xs ++ last ∷ x ∷ ys)
      → is_truthy (some last.id) ≡ true
      → let first = page contains ties organization filter d in
        let second =
          page contains ties organization (record filter { cursor = first.next_cursor }) d in
        (first.incidents ≡ xs ++ last ∷ []) × (second.incidents ≡ take filter.limit (last ∷ x ∷ ys))
  list_incidents-repeats xs last x ys start size rows distinct named =
      let first = first_page xs last x ys start size rows in
      let total = count_where (is_listed contains organization filter) d.incidents in
      let next = ap (λ (r : IncidentListResponse). r.next_cursor) first in
      (
        ap (λ (r : IncidentListResponse). r.incidents) first,
        rw next (
            ap (λ (r : IncidentListResponse). r.incidents)
              (cursor_rows xs last x ys rows distinct named)
            ∙ page_items total filter.limit (last ∷ x ∷ ys)),
      )
