-- ===== src/Capture/Session/Reader.antt =====
-- Reading a recorded session (capture/session.py, SessionReader). A SELECT is its WHERE, ORDER BY and
-- LIMIT over the rows of a table; `int` and `str` of a cursor are arguments, where a negative number
-- reads as 0, below every row's number. The version check and the metadata are not modelled.
use pporlock.Base.{
  ℕ, zero, suc, ◌*◌, Bool, true, false, Option, none, some, List, [], ◌∷◌, ◌++◌, ◌==◌, text_eq,
  nat_eq, map, length, take, filter, find, ltb, leb, eqb, if◌then◌else◌, min, max,
}
use pporlock.Base.Sort.{sort}
use pporlock.Base.Text.{Text}
use pporlock.Capture.Records.{FlowRecord}
use pporlock.Capture.Session.Rows.{FlowRow, MessageRow, record_of}
use pporlock.Capture.Session.Writer.{Coder, Database}

-- `QueryResult`
pub record Page : Type 0 where
  pub flows : List FlowRecord
  pub next_cursor : Option Text
  pub total_estimate : ℕ

-- `SELECT … FROM flows ORDER BY seq ASC`
unfoldable pub in_order : List FlowRow → List FlowRow
in_order = sort (λ r. (r.seq, 0))

-- `… WHERE seq > ?`
abbrev pub above : ℕ → List FlowRow → List FlowRow
above n = filter (λ r. ltb n r.seq)

-- `_SELECT_FLOWS_AFTER`
unfoldable pub select_after : ℕ → ℕ → List FlowRow → List FlowRow
unfolding in_order
select_after n limit rows = take limit (above n (in_order rows))

-- the rows of a flow's frames, `ORDER BY idx ASC`
unfoldable pub messages_of : Text → Database → List MessageRow
messages_of flow_id db = sort (λ m. (m.idx, 0)) (filter (λ m. m.flow_id == flow_id) db.messages)

-- `_record` with the SELECT that it makes
abbrev pub read_row : Coder → Database → FlowRow → FlowRecord
read_row c db row =
    record_of c.utf8_decode c.utf8_encode c.b64_encode c.b64_decode row (messages_of row.flow_id db)

-- `get`
unfoldable pub get : Coder → Database → Text → Option FlowRecord
unfolding record_of messages_of
get c db flow_id = elim (find (λ r. r.flow_id == flow_id) db.flows) [
  | none ↦ none
  | some row ↦ some (read_row c db row)
]

-- `iter_all`
unfoldable pub iter_all : Coder → Database → List FlowRecord
unfolding in_order record_of messages_of
iter_all c db = map (read_row c db) (in_order db.flows)

-- where a page has got to: what matched, the number of the last row read, and whether the page was
-- full before a row
abbrev pub Place : Type 0
Place = List FlowRecord × ℕ × Bool

module _ (read : FlowRow → FlowRecord) (matches : FlowRecord → Bool) (limit : ℕ) where
  -- the `for` loop of `query`
  unfoldable pub read_rows : List FlowRow → List FlowRecord → ℕ → Place
  read_rows [] matched last = (matched, last, false)
  read_rows (r ∷ rows) matched last =
      let on =
        read_rows rows (if matches (read r) then matched ++ read r ∷ [] else matched) r.seq in
      if leb limit (length matched) then (matched, last, true) else on

  -- the `while` loop, over at most as many chunks as the fuel; it asks for four pages of rows at once
  unfoldable pub read_chunks : ℕ → List FlowRow → List FlowRecord → ℕ → Place
  unfolding read_rows select_after
  read_chunks zero rows matched last = (matched, last, false)
  read_chunks (suc fuel) rows matched last =
      let chunk = select_after last (limit * 4) rows in
      let place = read_rows chunk matched last in
      let on = read_chunks fuel rows place.0 place.1 in
      if leb limit (length matched)
      then (matched, last, false)
      else if eqb (length chunk) 0
      then (matched, last, false)
      else if place.2
      then place
      else on

-- `int(cursor)`, or 0
abbrev pub start_of : (Text → Option ℕ) → Option Text → ℕ
start_of int none = 0
start_of int (some cursor) = elim (int cursor) [ none ↦ 0 | some n ↦ n ]

-- whether rows are left after the page, which is counted only where the loop did not see one
abbrev pub more_rows : List FlowRow → Place → Bool
more_rows rows place = if place.2 then true else ltb 0 (length (above place.1 rows))

-- `query`; one chunk more than there are rows is always enough
unfoldable pub query :
    Coder → Database → (Text → Option ℕ) → (ℕ → Text) → (FlowRecord → Bool) → ℕ → Option Text → Page
unfolding read_chunks record_of messages_of
query c db int str matches limit cursor =
    let place =
      read_chunks (read_row c db) matches (max 1 (min limit 1000)) (suc (length db.flows)) db.flows
        [] (start_of int cursor) in
    record {
      flows = place.0;
      next_cursor = if more_rows db.flows place then some (str place.1) else none;
      total_estimate = length db.flows;
    }
