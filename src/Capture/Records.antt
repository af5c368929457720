-- ===== src/Capture/Records.antt =====
-- The record of one flow (capture/records.py). Its `timing` is not modelled.
use pporlock.Base.{
  ℕ, ◌+◌, Bool, true, false, Option, none, some, List, [], map, length, take, sum_by, leb,
  if◌then◌else◌,
}
use pporlock.Base.Int.{ℤ}
use pporlock.Base.Text.{Text}
use pporlock.Engine.Models.{
  Bytes, NormalizedRequest, NormalizedResponse, WebSocketMessage, body_size, content_type,
}
use pporlock.Engine.Provenance
use pporlock.Engine.Provenance.{Provenance, NoteCode}

pub data FlowKind : Type 0 where
  http websocket passthrough : FlowKind

pub record FlowError : Type 0 where
  pub message : Text
  pub from_client : Bool

pub record FlowRecord : Type 0 where
  pub flow_id : Text
  pub kind : FlowKind
  pub started_at : Text
  pub completed_at : Option Text
  pub tab_id : Option ℤ
  pub request : Option NormalizedRequest
  pub response : Option NormalizedResponse
  pub provenance : Option Provenance
  pub modified : Bool
  pub blocked : Bool
  pub short_circuit : Option Provenance.Action
  pub error : Option FlowError
  pub passthrough_host : Option Text
  pub passthrough_ip : Option Text
  pub passthrough_pattern : Option Text
  pub passthrough_reason : Option Text
  pub ws_messages : List WebSocketMessage
  pub ws_closed : Bool
  pub ws_close_code : Option ℕ
  pub ws_dropped : ℕ

-- a record with the fields that the dataclass does not default
abbrev pub new_record : Text → FlowKind → Text → FlowRecord
new_record flow_id kind started_at = record {
  flow_id = flow_id;
  kind = kind;
  started_at = started_at;
  completed_at = none;
  tab_id = none;
  request = none;
  response = none;
  provenance = none;
  modified = false;
  blocked = false;
  short_circuit = none;
  error = none;
  passthrough_host = none;
  passthrough_ip = none;
  passthrough_pattern = none;
  passthrough_reason = none;
  ws_messages = [];
  ws_closed = false;
  ws_close_code = none;
  ws_dropped = 0;
}

-- the property `host`
unfoldable pub host : FlowRecord → Option Text
host r = elim r.request [ none ↦ r.passthrough_host | some request ↦ some request.host ]

-- the property `status`
unfoldable pub status : FlowRecord → Option ℕ
status r = elim r.response [ none ↦ none | some response ↦ some response.status ]

-- the property `content_type`
unfoldable pub content_type_of : FlowRecord → Option Text
unfolding content_type
content_type_of r = elim r.response [ none ↦ none | some s ↦ content_type s.headers ]

-- the property `streamed`
unfoldable pub streamed : FlowRecord → Bool
streamed r = elim r.response [ none ↦ false | some response ↦ response.streamed ]

unfoldable pub payload_bytes : List WebSocketMessage → ℕ
payload_bytes = sum_by (λ m. length m.payload)

-- the property `size_bytes`
unfoldable pub size_bytes : FlowRecord → ℕ
unfolding body_size payload_bytes
size_bytes r =
    512
    + elim r.request [ none ↦ 0 | some request ↦ body_size request.body ]
    + elim r.response [ none ↦ 0 | some response ↦ body_size response.body ]
    + payload_bytes r.ws_messages

-- the method `modules_fired`
unfoldable pub modules_fired : FlowRecord → List Text
unfolding Provenance.modules_fired
modules_fired r = elim r.provenance [ none ↦ [] | some p ↦ Provenance.modules_fired p ]

-- the method `note_codes`
unfoldable pub note_codes : FlowRecord → List NoteCode
note_codes r = elim r.provenance [ none ↦ [] | some p ↦ map (λ n. n.code) p.notes ]

-- `truncate`: the body, and whether it was cut
unfoldable pub truncate : Option Bytes → ℕ → Option Bytes × Bool
truncate none cap = (none, false)
truncate (some body) cap =
    if leb (length body) cap then (some body, false) else (some (take cap body), true)
