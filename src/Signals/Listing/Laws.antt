-- ===== src/Signals/Listing/Laws.antt =====
-- signal.service.ts: the pages of `listSignals`.
use auto_ops.Prelude.{
  ℕ, suc, ◌+◌, ◌≡◌, refl, ap, Bool, true, String, none, some, List, [], ◌∷◌, ◌++◌, length, take,
  arith, Distinct, is_truthy, count_where, get_or, ltb,
}
use auto_ops.Paging.{
  serve, from_key-append, drop, take-append, take-suc-append, get_elem?, take-take-suc,
  get_elem?-append, length-suc,
}
use auto_ops.Signals.{SignalStore, ResourceSignal}
use auto_ops.Signals.Listing.{
  SignalFilter, SignalListResponse, listing, list_signals, page_of, cursor_of, is_listed,
}

-- A page of a query that returned one row more.
page_full :
    (total n : ℕ) (xs : List ResourceSignal) (x : ResourceSignal)
    → length xs ≡ n
    → page_of n total (xs ++ x ∷ []) ≡ record { items = xs; next_cursor = some x.id; total = total }
page_full total n xs x h =
    let more : ltb n (length (xs ++ x ∷ [])) ≡ true = rw (length-suc xs x, h) (ground arith) in
    let chosen : get_elem? (xs ++ x ∷ []) n ≡ some x = rw (← h) (get_elem?-append xs x []) in
    let kept : take n (xs ++ x ∷ []) ≡ xs = take-append n xs (x ∷ []) h in
    rw (more, chosen, kept) refl

-- The rows of a listing that has more rows than a page holds: the first page has the first of them, and
-- its cursor is the first row that it leaves out. The page for that cursor begins behind that row, so
-- that the row is on neither page.
pub list_signals-loses :
    (contains : String → String → Bool) (organization : String) (filters : SignalFilter)
    (w : SignalStore) (xs : List ResourceSignal) (x : ResourceSignal) (ys : List ResourceSignal)
    → cursor_of filters.cursor ≡ none
    → length xs ≡ get_or filters.limit 50
    → listing contains organization filters w ≡ xs ++ x ∷ ys
    → Distinct (λ s. s.id) (xs ++ x ∷ ys)
    → is_truthy (some x.id) ≡ true
    → let first = list_signals contains organization filters w in
      let second =
        list_signals contains organization (record filters { cursor = first.next_cursor }) w in
      (first.items ≡ xs)
      × (first.next_cursor ≡ some x.id)
      × (second.items ≡ take (get_or filters.limit 50) ys)
unfolding list_signals serve drop
list_signals-loses contains organization filters w xs x ys from_start size rows d named =
    let n = get_or filters.limit 50 in
    let one_more : n + 1 ≡ suc n = omega arith in
    let asked : serve (λ (s : ResourceSignal). s.id) none 1 (n + 1) (xs ++ x ∷ ys) ≡ xs ++ x ∷ [] =
      rw one_more (take-suc-append n xs x ys size) in
    let first =
      page_full (count_where (is_listed contains organization filters) w.signals) n xs x size in
    let truthy : cursor_of (some x.id) ≡ some x.id = rw named refl in
    rw (from_start, rows, asked)
      (
        ap (λ (r : SignalListResponse). r.items) first,
        ap (λ (r : SignalListResponse). r.next_cursor) first,
        rw (ap (λ (r : SignalListResponse). r.next_cursor) first)
            (rw (truthy, from_key-append (λ s. s.id) xs x ys d, one_more) (take-take-suc n ys)),
      )
