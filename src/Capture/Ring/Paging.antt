-- ===== src/Capture/Ring/Paging.antt =====
-- Following the cursors of `query` lists what the filter matches: every record once, newest first.
use pporlock.Base.{
  ℕ, suc, zero, ◌-◌, ◌<◌, ◌≡◌, refl, ◌∙◌, sym, ap, Bool, some, none, Option, List, [], ◌∷◌, ◌++◌,
  append_assoc, text_eq, length, filter, arith, inl, inr, length-append, get_last?, min, max,
}
use pporlock.Base.Text.{Text}
use pporlock.Capture.Records.{FlowRecord}
use pporlock.Capture.Ring.{RingBuffer, newest_first, start_at, scan, query, cursor_for}
use pporlock.Capture.Ring.Bounds.{IsValid}
use pporlock.Capture.Ring.Distinct.{Others-split, after_cursor-found, Distinct-newest}
use pporlock.Capture.Ring.Scan.{Stops, Halts, scan-filter, scan-Halts}

cursor_for-last :
    (flows : List FlowRecord) (x : FlowRecord) (rest : List FlowRecord) (last : FlowRecord)
    → get_last? flows ≡ some last
    → cursor_for flows (x ∷ rest) ≡ some last.flow_id
cursor_for-last flows x rest last h = ground arith

abbrev follow : (Text → List FlowRecord) → Option Text → List FlowRecord
follow next none = []
follow next (some cursor) = next cursor

module _ (matches : FlowRecord → Bool) (limit : ℕ) (r : RingBuffer) where
  abbrev page_size : ℕ
  page_size = max 1 (min limit 1000)

  abbrev page_of : List FlowRecord → List FlowRecord × List FlowRecord
  page_of = scan matches page_size

  -- the client: one call for each cursor, the pages put together
  pub pages : ℕ → Option Text → List FlowRecord
  pages zero cursor = []
  pages (suc fuel) cursor =
      let q = query matches limit cursor r in
      q.flows ++ follow (λ next. pages fuel (some next)) q.next_cursor

  page-Halts : (l : List FlowRecord) → Halts matches l (page_of l)
  page-Halts l =
      let e : page_size ≡ suc (page_size - 1) = omega arith in
      rw e (scan-Halts matches (page_size - 1) l)

  -- `query` by the place in the listing where its cursor points
  query-At :
      (cursor : Option Text) (l : List FlowRecord)
      → start_at cursor (newest_first r) ≡ l
      → query matches limit cursor r ≡ record {
        flows = (page_of l).0;
        next_cursor = cursor_for (page_of l).0 (page_of l).1;
        total_estimate = length r.records;
      }
  unfolding query
  query-At cursor l e = rw e refl

  module _ (v : IsValid r) where
    module _ (pre l : List FlowRecord) (e : newest_first r ≡ pre ++ l) where
      whole :
          (s : Stops matches l (page_of l).0 (page_of l).1)
          → newest_first r ≡ (pre ++ s.pre) ++ s.last ∷ (page_of l).1
      whole s =
          e ∙ ap (λ t. pre ++ t) s.splits ∙ sym (append_assoc pre s.pre (s.last ∷ (page_of l).1))

      start_after :
          (s : Stops matches l (page_of l).0 (page_of l).1)
          → start_at (some s.last.flow_id) (newest_first r) ≡ (page_of l).1
      unfolding start_at
      start_after s =
          let rest = (page_of l).1 in
          let others =
            Others-split (pre ++ s.pre) s.last rest (rw (whole s) at (Distinct-newest r v)) in
          rw (whole s, after_cursor-found (pre ++ s.pre) s.last rest others, start_at) refl

      shorter : Stops matches l (page_of l).0 (page_of l).1 → length (page_of l).1 < length l
      shorter s = omega (arith, ap length s.splits, length-append s.pre (s.last ∷ (page_of l).1))

      last_page :
          (next : Text → List FlowRecord)
          → (page_of l).1 ≡ []
          → (page_of l).0 ++ follow next (cursor_for (page_of l).0 (page_of l).1) ≡ filter matches l
      last_page next done =
          let f : (page_of l).0 ++ filter matches [] ≡ filter matches l =
            rw done at (scan-filter matches page_size l) in
          rw done f

      more_pages :
          (next : Text → List FlowRecord) (x : FlowRecord) (rest : List FlowRecord)
          → (page_of l).1 ≡ x ∷ rest
          → (s : Stops matches l (page_of l).0 (page_of l).1)
          → next s.last.flow_id ≡ filter matches (page_of l).1
          → (page_of l).0 ++ follow next (cursor_for (page_of l).0 (page_of l).1) ≡ filter matches l
      more_pages next x rest more s ih =
          let cursor : cursor_for (page_of l).0 (page_of l).1 ≡ some s.last.flow_id =
            rw more (cursor_for-last (page_of l).0 x rest s.last s.is_last) in
          rw (cursor, ih) (scan-filter matches page_size l)

      turn :
          (next : Text → List FlowRecord) (rest : List FlowRecord)
          → (page_of l).1 ≡ rest
          → Halts matches l (page_of l)
          → ((s : Stops matches l (page_of l).0 (page_of l).1)
              → next s.last.flow_id ≡ filter matches (page_of l).1)
          → (page_of l).0 ++ follow next (cursor_for (page_of l).0 (page_of l).1) ≡ filter matches l
      turn next [] done h ih = last_page next done
      turn next (x ∷ rest) more (inl done) ih = last_page next done
      turn next (x ∷ rest) more (inr s) ih = more_pages next x rest more s (ih s)

    -- at a cursor that points into the listing
    pages_from :
        (fuel : ℕ) (cursor : Option Text) (pre l : List FlowRecord)
        → newest_first r ≡ pre ++ l
        → start_at cursor (newest_first r) ≡ l
        → length l < fuel
        → pages fuel cursor ≡ filter matches l
    unfolding pages
    pages_from zero cursor pre l e s lt = absurd (omega arith)
    pages_from (suc fuel) cursor pre l e s lt = rw (query-At cursor l s) (
        turn pre l e (λ next. pages fuel (some next)) _ refl (page-Halts l)
          (λ stop.
            pages_from fuel (some stop.last.flow_id) ((pre ++ stop.pre) ++ stop.last ∷ []) _
              (whole pre l e stop ∙ sym (append_assoc (pre ++ stop.pre) (stop.last ∷ []) _))
              (start_after pre l e stop) (omega (arith, shorter pre l e stop))))

-- From a valid ring, following the cursors of query from the first page on, for as many calls as
-- there are records and one more, lists exactly the records that the filter matches, each once and
-- newest first, whatever the limit asked for.
pub pages_complete :
    (matches : FlowRecord → Bool) (limit : ℕ) (r : RingBuffer)
    → IsValid r
    → (fuel : ℕ) → length (newest_first r) < fuel
    → pages matches limit r fuel none ≡ filter matches (newest_first r)
pages_complete matches limit r v fuel enough =
    pages_from matches limit r v fuel none [] (newest_first r) refl (unfold start_at in refl) enough
