-- ===== src/Capture/Session/Pages.antt =====
-- The pages of a session: following the cursors gives every flow that matches, once and in order.
use pporlock.Base.{
  ℕ, zero, suc, ◌<◌, ◌≡◌, refl, sym, ap, ◌∙◌, subst, Bool, Option, none, some, List, [], ◌++◌, map,
  length, filter, ltb, if◌then◌else◌, min, max, arith, Bool-cases, inl, inr, length-filter-le,
  ltb→lt,
}
use pporlock.Base.Text.{Text}
use pporlock.Capture.Records.{FlowRecord}
use pporlock.Capture.Session.Rows.{FlowRow}
use pporlock.Capture.Session.Writer.{Coder, Database}
use pporlock.Capture.Session.Table.{Rising}
use pporlock.Capture.Session.Reader.{query, read_row, start_of}
use pporlock.Capture.Session.OnePass.{
  At, above-Rising, chunks_lem, in_order-Rising, nil_of, pick, pick-At, pick_progress, pick_rest,
  pick-wanted, wanted,
}

module _ (c : Coder) (db : Database) (int : Text → Option ℕ) (str : ℕ → Text)
    (int-str : (n : ℕ) → int (str n) ≡ some n) (matches : FlowRecord → Bool) (limit : ℕ) where
  abbrev page_size : ℕ
  page_size = max 1 (min limit 1000)

  abbrev on_page : ℕ → List FlowRow → List FlowRecord × ℕ × List FlowRow
  on_page = pick (read_row c db) matches page_size []

  -- the client: one call for each cursor, the pages put together
  pub pages : ℕ → Option Text → List FlowRecord
  pages zero cursor = []
  pages (suc fuel) cursor =
      let page = query c db int str matches limit cursor in
      page.flows ++ elim page.next_cursor [ none ↦ [] | some next ↦ pages fuel (some next) ]

  module _ (high : ℕ) (rising : Rising 0 high db.flows) where
    query-At :
        (cursor : Option Text) (l : List FlowRow)
        → At high db.flows (start_of int cursor) l
        → query c db int str matches limit cursor ≡ record {
          flows = (on_page (start_of int cursor) l).0;
          next_cursor =
              if ltb 0 (length (on_page (start_of int cursor) l).2)
              then some (str (on_page (start_of int cursor) l).1)
              else none;
          total_estimate = length db.flows;
        }
    unfolding query
    query-At cursor l h =
        let fits : length l < suc (length db.flows) = omega (
          arith,
          ap length h.0,
          length-filter-le (λ r. ltb (start_of int cursor) r.seq) db.flows,
        ) in
        let a =
          chunks_lem (read_row c db) matches page_size high db.flows
            (in_order-Rising 0 high db.flows rising) (omega arith) (suc (length db.flows)) l []
            (start_of int cursor) h fits in
        λ i. record {
          flows = a.0 i;
          next_cursor = if a.2 i then some (str (a.1 i)) else none;
          total_estimate = length db.flows;
        }

    -- one page and the rest by induction
    turn :
        (fuel last : ℕ) (l : List FlowRow)
        → At high db.flows last l
        → length l < suc fuel
        → ((next : ℕ) (left : List FlowRow)
            → At high db.flows next left
            → length left < fuel
            → pages fuel (some (str next)) ≡ wanted (read_row c db) matches page_size left)
        → (on_page last l).0
            ++ (elim (if ltb 0 (length (on_page last l).2)
                then some (str (on_page last l).1)
                else none) [ none ↦ [] | some next ↦ pages fuel (some next) ])
          ≡ wanted (read_row c db) matches page_size l
    turn fuel last l h lt ih = elim (Bool-cases (ltb 0 (length (on_page last l).2))) [
      | inl b ↦
          let rest = pick_rest (read_row c db) matches page_size [] last l in
          let shorter =
            pick_progress (read_row c db) matches page_size last l (omega arith)
              (omega (arith, ltb→lt _ _ b)) in
          rw b (
            ap (λ t. (on_page last l).0 ++ t)
              (ih (on_page last l).1 (on_page last l).2
                (pick-At (read_row c db) matches page_size high db.flows [] last l h) (omega arith))
            ∙ sym (pick-wanted (read_row c db) matches page_size [] last l))
      | inr b ↦ rw b (
          ap (λ t. (on_page last l).0 ++ wanted (read_row c db) matches page_size t)
            (sym (nil_of (on_page last l).2 b))
          ∙ sym (pick-wanted (read_row c db) matches page_size [] last l))
    ]

    pages_from :
        (fuel : ℕ) (cursor : Option Text) (l : List FlowRow)
        → At high db.flows (start_of int cursor) l
        → length l < fuel
        → pages fuel cursor ≡ wanted (read_row c db) matches page_size l
    unfolding pages
    pages_from zero cursor l h lt = absurd (omega arith)
    pages_from (suc fuel) cursor l h lt = rw (query-At cursor l h) (
        turn fuel (start_of int cursor) l h lt (λ next left here lt'.
          pages_from fuel (some (str next)) left
            (subst (λ n. At high db.flows n left) (rw (int-str next, start_of) refl) here) lt'))

  -- Where the rows rise, as the writer leaves them, and `int` reads what `str` writes: following the
  -- cursors from the first page, for one call more than there are rows, gives exactly the flows that
  -- match, each once and in the order in which they were written, whatever the limit asked for.
  pub session_pages_complete :
      (high fuel : ℕ)
      → Rising 0 high db.flows
      → length db.flows < fuel
      → pages fuel none ≡ map (read_row c db) (filter (λ r. matches (read_row c db r)) db.flows)
  session_pages_complete high fuel rising lt =
      pages_from high rising fuel none db.flows
        (above-Rising 0 0 high db.flows (omega arith) rising, rising) lt
