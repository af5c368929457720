-- ===== src/Capture/Session/Inserted.antt =====
-- What the replacing INSERTs of `_flush` leave of one flow's rows (capture/session.py).
use pporlock.Base.{
  ℕ, ◌<◌, ◌≡◌, refl, sym, ap, ap₂, ◌∙◌, Bool, true, false, not, ◌&&◌, some, List, [], ◌∷◌, ◌++◌,
  ◌==◌, text_eq, map, filter, filter-append, find, any, All, eqb, arith, append_assoc, All-append,
}
use pporlock.Base.Text.{Text}
use pporlock.Capture.Session.Rows.{Encoded, FlowRow, MessageRow}
use pporlock.Capture.Session.Writer.{
  all_messages, insert_flow, insert_flows, insert_message, insert_messages,
}

abbrev pub Ascending : List ℕ → Type 0
Ascending [] = Unit
Ascending (n ∷ ns) = All (λ k. n < k) ns × Ascending ns

abbrev pub of_id : Text → MessageRow → Bool
of_id id m = m.flow_id == id

-- a row of the flow that none of the frames replaces
abbrev pub is_stale : Text → List MessageRow → MessageRow → Bool
is_stale id frames m = m.flow_id == id && not (any (λ x. eqb x.idx m.idx) frames)

-- none of it is of that flow
abbrev pub Elsewhere : Text → Encoded → Type 0
Elsewhere id e =
    ((e.flow.flow_id == id) ≡ false) × All (λ (m : MessageRow). (m.flow_id == id) ≡ false) e.ws

find-append_absent :
    (id : Text) (row : FlowRow) (rows : List FlowRow)
    → (row.flow_id == id) ≡ true
    → find (λ r. r.flow_id == id) (filter (λ r. not (r.flow_id == row.flow_id)) rows ++ row ∷ [])
      ≡ some row
find-append_absent id row [] h = rw h refl
find-append_absent id row (r ∷ rows) h = ground (
  arith,
  find-append_absent id row rows h,
  text_eq.beq_iff row.flow_id id,
  text_eq.beq_iff r.flow_id id,
  text_eq.beq_iff r.flow_id row.flow_id,
)

find-append_other :
    (id : Text) (row : FlowRow) (rows : List FlowRow)
    → (row.flow_id == id) ≡ false
    → find (λ r. r.flow_id == id) (filter (λ r. not (r.flow_id == row.flow_id)) rows ++ row ∷ [])
      ≡ find (λ r. r.flow_id == id) rows
find-append_other id row [] h = rw h refl
find-append_other id row (r ∷ rows) h = ground (
  arith,
  find-append_other id row rows h,
  text_eq.beq_iff row.flow_id id,
  text_eq.beq_iff r.flow_id id,
  text_eq.beq_iff r.flow_id row.flow_id,
)

find-insert_flows :
    (id : Text) (es : List Encoded) (rows : List FlowRow)
    → All (Elsewhere id) es
    → find (λ r. r.flow_id == id) (insert_flows es rows) ≡ find (λ r. r.flow_id == id) rows
unfolding insert_flows insert_flow
find-insert_flows id [] rows h = refl
find-insert_flows id (e ∷ es) rows h =
    find-insert_flows id es (insert_flow e.flow rows) h.1 ∙ find-append_other id e.flow rows h.0.0

pub find_written :
    (id : Text) (before : List Encoded) (e : Encoded) (after : List Encoded) (rows : List FlowRow)
    → (e.flow.flow_id == id) ≡ true
    → All (Elsewhere id) after
    → find (λ r. r.flow_id == id) (insert_flows (before ++ e ∷ after) rows) ≡ some e.flow
unfolding insert_flows insert_flow
find_written id [] e after rows h away =
    find-insert_flows id after (insert_flow e.flow rows) away ∙ find-append_absent id e.flow rows h
find_written id (b ∷ before) e after rows h away =
    find_written id before e after (insert_flow b.flow rows) h away

filter-filter_stale :
    (id : Text) (m : MessageRow) (ms rows : List MessageRow)
    → (m.flow_id == id) ≡ true
    → filter (is_stale id ms) (filter (λ r. not (r.flow_id == m.flow_id && eqb r.idx m.idx)) rows)
      ≡ filter (is_stale id (m ∷ ms)) rows
filter-filter_stale id m ms [] h = refl
filter-filter_stale id m ms (r ∷ rows) h = ground (
  arith,
  filter-filter_stale id m ms rows h,
  text_eq.beq_iff m.flow_id id,
  text_eq.beq_iff r.flow_id id,
  text_eq.beq_iff r.flow_id m.flow_id,
)

above_absent :
    (n : ℕ) (ms : List MessageRow)
    → All (λ k. n < k) (map (λ (m : MessageRow). m.idx) ms)
    → any (λ (x : MessageRow). eqb x.idx n) ms ≡ false
above_absent n [] h = refl
above_absent n (m ∷ ms) h = ground (arith, h.0, above_absent n ms h.1)

stale_nil :
    (id : Text) (rows : List MessageRow)
    → filter (of_id id) rows ≡ filter (is_stale id []) rows ++ []
stale_nil id [] = refl
stale_nil id (r ∷ rows) = ground (arith, stale_nil id rows)

stale_own :
    (id : Text) (m : MessageRow) (ms : List MessageRow)
    → of_id id m ≡ true
    → any (λ (x : MessageRow). eqb x.idx m.idx) ms ≡ false
    → filter (is_stale id ms) (m ∷ []) ≡ m ∷ []
stale_own id m ms h out = rw (h, out) refl

-- inserting a flow's frames leaves of its rows those that none of them replaces, and the frames
filter-insert_messages :
    (id : Text) (ms rows : List MessageRow)
    → All (λ m. of_id id m ≡ true) ms
    → Ascending (map (λ (m : MessageRow). m.idx) ms)
    → filter (of_id id) (insert_messages ms rows) ≡ filter (is_stale id ms) rows ++ ms
unfolding insert_messages insert_message
filter-insert_messages id [] rows h up = stale_nil id rows
filter-insert_messages id (m ∷ ms) rows h up =
    let others = filter (λ r. not (r.flow_id == m.flow_id && eqb r.idx m.idx)) rows in
    filter-insert_messages id ms (insert_message m rows) h.1 up.1
    ∙ ap (λ kept. kept ++ ms)
        (filter-append (is_stale id ms) others (m ∷ [])
          ∙ ap₂ (λ kept own. kept ++ own) (filter-filter_stale id m ms rows h.0)
              (stale_own id m ms h.0 (above_absent m.idx ms up.0)))
    ∙ append_assoc (filter (is_stale id (m ∷ ms)) rows) (m ∷ []) ms

insert_messages-append :
    (ms ns rows : List MessageRow)
    → insert_messages (ms ++ ns) rows ≡ insert_messages ns (insert_messages ms rows)
unfolding insert_messages
insert_messages-append [] ns rows = refl
insert_messages-append (m ∷ ms) ns rows = insert_messages-append ms ns (insert_message m rows)

all_messages-append :
    (before after : List Encoded)
    → all_messages (before ++ after) ≡ all_messages before ++ all_messages after
unfolding all_messages
all_messages-append [] after = refl
all_messages-append (e ∷ before) after =
    ap (λ rest. e.ws ++ rest) (all_messages-append before after)
    ∙ sym (append_assoc e.ws (all_messages before) (all_messages after))

filter_others :
    (id : Text) (m : MessageRow) (rows : List MessageRow)
    → (m.flow_id == id) ≡ false
    → filter (of_id id) (insert_message m rows) ≡ filter (of_id id) rows
unfolding insert_message
filter_others id m [] h = rw h refl
filter_others id m (r ∷ rows) h = ground (
  arith,
  filter_others id m rows h,
  text_eq.beq_iff m.flow_id id,
  text_eq.beq_iff r.flow_id id,
  text_eq.beq_iff r.flow_id m.flow_id,
)

filter-insert_others :
    (id : Text) (ms rows : List MessageRow)
    → All (λ (m : MessageRow). (m.flow_id == id) ≡ false) ms
    → filter (of_id id) (insert_messages ms rows) ≡ filter (of_id id) rows
unfolding insert_messages
filter-insert_others id [] rows h = refl
filter-insert_others id (m ∷ ms) rows h =
    filter-insert_others id ms (insert_message m rows) h.1 ∙ filter_others id m rows h.0

All-all_messages :
    (id : Text) (es : List Encoded)
    → All (Elsewhere id) es
    → All (λ (m : MessageRow). (m.flow_id == id) ≡ false) (all_messages es)
unfolding all_messages
All-all_messages id [] h = tt
All-all_messages id (e ∷ es) h =
    All-append _ e.ws (all_messages es) h.0.1 (All-all_messages id es h.1)

-- the rows of the flow after the batch
pub written_messages :
    (id : Text) (before : List Encoded) (e : Encoded) (after : List Encoded)
    (rows : List MessageRow)
    → All (λ m. of_id id m ≡ true) e.ws
    → Ascending (map (λ (m : MessageRow). m.idx) e.ws)
    → All (Elsewhere id) after
    → filter (is_stale id e.ws) (insert_messages (all_messages before) rows) ≡ []
    → filter (of_id id) (insert_messages (all_messages (before ++ e ∷ after)) rows) ≡ e.ws
unfolding all_messages
written_messages id before e after rows own up away fresh =
    ap (λ ms. filter (of_id id) (insert_messages ms rows)) (all_messages-append before (e ∷ after))
    ∙ ap (filter (of_id id)) (
        insert_messages-append (all_messages before) (e.ws ++ all_messages after) rows
        ∙ insert_messages-append e.ws (all_messages after) _)
    ∙ filter-insert_others id (all_messages after) _ (All-all_messages id after away)
    ∙ filter-insert_messages id e.ws (insert_messages (all_messages before) rows) own up
    ∙ ap (λ kept. kept ++ e.ws) fresh
