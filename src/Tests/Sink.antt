-- ===== src/Tests/Sink.antt =====
-- The sink at two small records.
use pporlock.Base.{ℕ, ◌≡◌, refl, true, false, some, none, Option, [], ◌∷◌, arith, text_eq}
use pporlock.Base.Int.{ℤ, pos, ◌-ℤ◌, ◌+ℤ◌}
use pporlock.Base.Text.{Text, codes}
use pporlock.Base.Dict
use pporlock.Engine.Models.{
  NormalizedRequest, NormalizedResponse, WebSocketMessage, WsDirection, WsOpcode,
}
use pporlock.Engine.Provenance.{Provenance, build, new_builder}
use pporlock.Capture.Records.{FlowRecord, FlowKind, new_record, size_bytes}
use pporlock.Capture.Ring
use pporlock.Capture.Ring.{RingBuffer}
use pporlock.Capture.Ring.Bounds.{IsValid, IsBounded}
use pporlock.Capture.Sink.{
  RingSink, append_frame, capped_frame, ensure, holder, http_record, record_websocket_message,
}
use pporlock.Capture.Sink.Frames.{Retains}
use pporlock.Capture.Sink.Retention.{record_websocket_message-Retains}
use pporlock.Capture.Sink.Caps.{Capped, http_record-Capped}
use pporlock.Tests.Data.{page, script}

abbrev frame : WebSocketMessage
frame = record {
  flow_id = codes "b";
  index = 0;
  timestamp = codes "t";
  direction = WsDirection.inbound;
  opcode = WsOpcode.text;
  payload = 1 ∷ 2 ∷ 3 ∷ [];
  truncated = false;
}

abbrev flow_a : FlowRecord
flow_a = new_record (codes "a") FlowKind.http (codes "t")

abbrev flow_b : FlowRecord
flow_b = new_record (codes "b") FlowKind.websocket (codes "t")

abbrev flow_b' : FlowRecord
flow_b' = record flow_b { ws_messages = frame ∷ [] }

abbrev ring : RingBuffer
ring = record {
  records = (codes "a", flow_a) ∷ (codes "b", flow_b) ∷ [];
  bytes = pos 1024;
  max_flows = 2;
  max_bytes = 1024;
  evicted = 0;
}

ring-IsValid : IsValid ring
unfolding Dict.get size_bytes text_eq
ring-IsValid = record { distinct = (refl, (refl, tt)); named = (refl, (refl, tt)); counted = refl }

ring-IsBounded : IsBounded ring
unfolding size_bytes
ring-IsBounded = record {
  valid = ring-IsValid;
  fits = record { flows = omega arith; bytes = omega arith };
}

abbrev sink : RingSink
sink = record {
  ring = ring;
  max_body_bytes = 2;
  max_ws_bytes = 4;
  recording = true;
  enqueued = [];
  emitted = [];
}

abbrev nobody : Text → Text → Option ℤ
nobody method url = none

abbrev provenance : Provenance
provenance = build 1 (new_builder (codes "default") [])

http_record-Capped_example :
    (q' : NormalizedRequest) × (a' : NormalizedResponse) × ((http_record 1
        (codes "t")
        (codes "f")
        nobody
        (some page)
        (some script)
        provenance).request
      ≡ some q')
    × ((http_record 1 (codes "t") (codes "f") nobody (some page) (some script) provenance).response
        ≡ some a')
    × Capped 1 page.body q'.body page.body_truncated q'.body_truncated
    × Capped 1 script.body a'.body script.body_truncated a'.body_truncated
http_record-Capped_example =
    http_record-Capped 1 (codes "t") (codes "f") nobody page script provenance

abbrev after_frame : FlowRecord
after_frame = record flow_b {
  ws_messages = record frame { payload = 1 ∷ 2 ∷ []; truncated = true } ∷ [];
}

still_there : Ring.get (codes "b") (record_websocket_message frame sink).ring ≡ some after_frame
unfolding Ring.get record_websocket_message Dict.get Dict.set text_eq ◌-ℤ◌ ◌+ℤ◌ size_bytes
still_there = refl

record_websocket_message-Retains_example :
    (released : ℕ) × Retains 4
      (append_frame (capped_frame 2 frame) (holder frame (ensure frame ring)))
      (after_frame, released)
record_websocket_message-Retains_example =
    record_websocket_message-Retains frame sink after_frame ring-IsBounded still_there
