-- ===== src/Tests/Ring.antt =====
-- The ring buffer at two small records.
use pporlock.Base.{◌<◌, ◌≡◌, refl, true, false, some, none, [], ◌∷◌, length, filter, arith, text_eq}
use pporlock.Base.Int.{pos, ◌-ℤ◌, ◌+ℤ◌}
use pporlock.Base.Text.{codes}
use pporlock.Base.Dict
use pporlock.Engine.Models.{WebSocketMessage, WsDirection, WsOpcode}
use pporlock.Capture.Records.{FlowRecord, FlowKind, new_record, size_bytes}
use pporlock.Capture.Ring.{RingBuffer, evict, add, adjust, get, newest_first, query}
use pporlock.Capture.Ring.Bounds.{IsValid, IsBounded, Evicts, evict-IsBounded, add-IsBounded}
use pporlock.Capture.Ring.Held.{changed_in_place, growth, adjust-IsBounded, get-add}
use pporlock.Capture.Ring.Paging.{pages, pages_complete}

abbrev frame : WebSocketMessage
frame = record {
  flow_id = codes "b";
  index = 0;
  timestamp = codes "t";
  direction = WsDirection.inbound;
  opcode = WsOpcode.text;
  payload = 1 ∷ 2 ∷ 3 ∷ [];
  truncated = false;
}

abbrev flow_a : FlowRecord
flow_a = new_record (codes "a") FlowKind.http (codes "t")

abbrev flow_b : FlowRecord
flow_b = new_record (codes "b") FlowKind.websocket (codes "t")

abbrev flow_b' : FlowRecord
flow_b' = record flow_b { ws_messages = frame ∷ [] }

abbrev ring : RingBuffer
ring = record {
  records = (codes "a", flow_a) ∷ (codes "b", flow_b) ∷ [];
  bytes = pos 1024;
  max_flows = 2;
  max_bytes = 1024;
  evicted = 0;
}

ring-IsValid : IsValid ring
unfolding Dict.get size_bytes text_eq
ring-IsValid = record { distinct = (refl, (refl, tt)); named = (refl, (refl, tt)); counted = refl }

ring-IsBounded : IsBounded ring
unfolding size_bytes
ring-IsBounded = record {
  valid = ring-IsValid;
  fits = record { flows = omega arith; bytes = omega arith };
}

-- one more record drops the oldest
add_evicts : (add (new_record (codes "c") FlowKind.http (codes "t")) ring).evicted ≡ 1
unfolding add size_bytes text_eq ◌+ℤ◌ ◌-ℤ◌
add_evicts = refl

-- a page of one record names the next
first_page : (query (λ _. true) 1 none ring).next_cursor ≡ some (codes "b")
unfolding query text_eq
first_page = refl

evict-IsBounded_example : IsBounded (evict ring) × Evicts ring.records ring (evict ring)
evict-IsBounded_example = evict-IsBounded ring ring-IsValid

add-IsBounded_example : IsBounded (add flow_b' ring)
add-IsBounded_example = add-IsBounded flow_b' ring ring-IsValid

get_b : Dict.get (codes "b") ring.records ≡ some flow_b
unfolding Dict.get text_eq
get_b = refl

adjust-IsBounded_example : IsBounded (
    adjust
      (codes "b")
      (growth (codes "b") flow_b flow_b' ring)
      (changed_in_place (codes "b") flow_b flow_b' ring))
adjust-IsBounded_example =
    adjust-IsBounded (codes "b") flow_b flow_b' ring ring-IsBounded get_b refl

flow_a_fits : size_bytes flow_a < 1025
unfolding size_bytes
flow_a_fits = omega arith

get-add_example : get (codes "a") (add flow_a ring) ≡ some flow_a
get-add_example = get-add flow_a ring ring-IsValid (omega arith) (omega (arith, flow_a_fits))

two_records : length (newest_first ring) < 3
unfolding newest_first
two_records = omega arith

pages_complete_example : pages (λ _. true) 1 ring 3 none ≡ filter (λ _. true) (newest_first ring)
pages_complete_example = pages_complete (λ _. true) 1 ring ring-IsValid 3 two_records
