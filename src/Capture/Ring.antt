-- ===== src/Capture/Ring.antt =====
-- The bounded ring buffer (capture/ring.py). The byte counter is Python's signed integer.
pub mod Totals
pub mod Bounds
pub mod Held
mod Distinct
mod Scan
pub mod Paging
use pporlock.Base.{
  zero, ℕ, suc, ◌+◌, ◌≤◌, ◌≡◌, Bool, true, false, ◌||◌, Option, none, some, List, [], ◌∷◌, reverse,
  ◌==◌, text_eq, length, ltb, min, max, get_last?, if◌then◌else◌,
}
use pporlock.Base.Int.{ℤ, pos, ◌+ℤ◌, ◌-ℤ◌, ltb_ℤ, eqb_ℤ}
use pporlock.Base.Text.{Text}
use pporlock.Base.Dict
use pporlock.Base.Dict.{Dict}
use pporlock.Capture.Records.{FlowRecord, size_bytes}

pub record RingBuffer : Type 0 where
  pub records : Dict Text FlowRecord
  pub bytes : ℤ
  pub max_flows : ℕ
  pub max_bytes : ℕ
  pub evicted : ℕ

unfoldable pub init : ℕ → ℕ → RingBuffer
init max_flows max_bytes = record {
  records = [];
  bytes = pos 0;
  max_flows = max_flows;
  max_bytes = max_bytes;
  evicted = 0;
}

-- the test of the loop of `_evict`, at a ring that is not empty
abbrev pub over : RingBuffer → Bool
over r = ltb r.max_flows (length r.records) || ltb_ℤ (pos r.max_bytes) r.bytes

-- one round of the loop: `popitem(last=False)`
abbrev pub pop_oldest : RingBuffer → FlowRecord → Dict Text FlowRecord → RingBuffer
pop_oldest r oldest rest = record r {
  records = rest;
  bytes = r.bytes -ℤ pos (size_bytes oldest);
  evicted = r.evicted + 1;
}

-- `_evict` by the list of records; each round takes its first
unfoldable pub evict_from : Dict Text FlowRecord → RingBuffer → RingBuffer
evict_from [] r = r
evict_from ((_, oldest) ∷ rest) r =
    let smaller = evict_from rest (pop_oldest r oldest rest) in if over r then smaller else r

unfoldable pub evict : RingBuffer → RingBuffer
unfolding evict_from
evict r = evict_from r.records r

-- the `if` of `add`: the old record of the id goes first
unfoldable pub forget : Text → RingBuffer → RingBuffer
unfolding Dict.get Dict.remove
forget flow_id r = elim (Dict.get flow_id r.records) [
  | none ↦ r
  | some old ↦ record r {
    records = Dict.remove flow_id r.records;
    bytes = r.bytes -ℤ pos (size_bytes old);
  }
]

unfoldable pub add : FlowRecord → RingBuffer → RingBuffer
unfolding forget Dict.set evict
add record' r =
    let base = forget record'.flow_id r in
    evict (record base {
      records = Dict.set record'.flow_id record' base.records;
      bytes = base.bytes +ℤ pos (size_bytes record');
    })

-- `update` where the patch is a function on records
unfoldable pub update :
    Text → (FlowRecord → FlowRecord) → RingBuffer → RingBuffer × Option FlowRecord
unfolding Dict.get Dict.set evict
update flow_id change r = elim (Dict.get flow_id r.records) [
  | none ↦ (r, none)
  | some old ↦ (
    evict (record r {
      records = Dict.set flow_id (change old) r.records;
      bytes = r.bytes -ℤ pos (size_bytes old) +ℤ pos (size_bytes (change old));
    }),
    some (change old),
  )
]

-- `adjust`: the record itself was changed by its holder
unfoldable pub adjust : Text → ℤ → RingBuffer → RingBuffer
unfolding Dict.get evict
adjust flow_id delta r = elim (Dict.get flow_id r.records) [
  | none ↦ r
  | some _ ↦ if eqb_ℤ delta (pos 0) then r else evict (record r { bytes = r.bytes +ℤ delta })
]

unfoldable pub clear : RingBuffer → RingBuffer
clear r = record r { records = []; bytes = pos 0 }

unfoldable pub get : Text → RingBuffer → Option FlowRecord
unfolding Dict.get
get flow_id r = Dict.get flow_id r.records

-- `list(reversed(self._records.values()))`
unfoldable pub newest_first : RingBuffer → List FlowRecord
newest_first r = reverse (Dict.values r.records)

-- the loop that looks for the cursor: what follows its record, if that is there
unfoldable pub after_cursor : Text → List FlowRecord → Option (List FlowRecord)
after_cursor cursor [] = none
after_cursor cursor (r ∷ rest) =
    let later = after_cursor cursor rest in if r.flow_id == cursor then some rest else later

-- a cursor that is gone starts from the top
unfoldable pub start_at : Option Text → List FlowRecord → List FlowRecord
unfolding after_cursor
start_at none records = records
start_at (some cursor) records = elim (after_cursor cursor records) [
  | none ↦ records
  | some rest ↦ rest
]

-- the scan of `query`: at most so many matches, and the records not reached
unfoldable pub scan : (FlowRecord → Bool) → ℕ → List FlowRecord → List FlowRecord × List FlowRecord
scan matches limit [] = ([], [])
scan matches zero (r ∷ rest) = ([], r ∷ rest)
scan matches (suc limit) (r ∷ rest) =
    let taken = scan matches limit rest in
    let skipped = scan matches (suc limit) rest in
    if matches r then (r ∷ taken.0, taken.1) else skipped

pub record QueryResult : Type 0 where
  pub flows : List FlowRecord
  pub next_cursor : Option Text
  pub total_estimate : ℕ

abbrev pub flow_id_of_last : List FlowRecord → Option Text
flow_id_of_last flows = elim (get_last? flows) [ none ↦ none | some last ↦ some last.flow_id ]

abbrev pub cursor_for : List FlowRecord → List FlowRecord → Option Text
cursor_for flows [] = none
cursor_for flows (_ ∷ _) = flow_id_of_last flows

-- `query` with the filter as a test
unfoldable pub query : (FlowRecord → Bool) → ℕ → Option Text → RingBuffer → QueryResult
unfolding newest_first start_at scan
query matches limit cursor r =
    let page = scan matches (max 1 (min limit 1000)) (start_at cursor (newest_first r)) in
    record {
      flows = page.0;
      next_cursor = cursor_for page.0 page.1;
      total_estimate = length r.records;
    }
