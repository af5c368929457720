-- ===== src/Capture/Sink.antt =====
-- The sink that turns flows into ring records (capture/sink.py). Times, fresh identifiers and the
-- answer of the tab join are arguments. `enqueued` is what the session store was handed, `emitted`
-- what `on_flow` was called with.
pub mod Frames
pub mod Retention
pub mod Caps
use pporlock.Base.{
  ℕ, ◌+◌, ◌-◌, ◌≡◌, Bool, true, false, ◌&&◌, ◌||◌, Option, none, some, List, [], ◌∷◌, ◌++◌, ◌==◌,
  text_eq, length, any, ltb, if◌then◌else◌, or_else, is_some,
}
use pporlock.Base.Int.{ℤ, pos, ◌-ℤ◌}
use pporlock.Base.Text
use pporlock.Base.Text.{Text, codes}
use pporlock.Base.Dict
use pporlock.Engine.Models.{Bytes, NormalizedRequest, NormalizedResponse, WebSocketMessage}
use pporlock.Engine.Provenance.{
  Provenance, ProvenanceEntry, ProvenanceNote, Action, NoteCode, is_applied,
}
use pporlock.Capture.Records.{FlowRecord, FlowKind, new_record, truncate, payload_bytes}
use pporlock.Capture.Ring
use pporlock.Capture.Ring.{RingBuffer}

pub record RingSink : Type 0 where
  pub ring : RingBuffer
  pub max_body_bytes : ℕ
  pub max_ws_bytes : ℕ
  pub recording : Bool
  pub enqueued : List FlowRecord
  pub emitted : List FlowRecord

-- `if self.session is not None: self.session.enqueue(record)`
unfoldable pub enqueue : FlowRecord → RingSink → RingSink
enqueue r s = if s.recording then record s { enqueued = s.enqueued ++ r ∷ [] } else s

-- `_emit`
unfoldable pub emit : FlowRecord → RingSink → RingSink
unfolding Ring.add enqueue
emit r s =
    let s' = enqueue r (record s { ring = Ring.add r s.ring }) in
    record s' { emitted = s'.emitted ++ r ∷ [] }

-- the loop of `_trim_ws_messages`: the frames kept, the bytes released and the frames dropped
unfoldable pub trim_from : ℕ → ℕ → ℕ → ℕ → List WebSocketMessage → List WebSocketMessage × ℕ × ℕ
trim_from total max_bytes released dropped [] = ([], released, dropped)
trim_from total max_bytes released dropped (m ∷ rest) =
    let fewer = trim_from total max_bytes (released + length m.payload) (dropped + 1) rest in
    if ltb max_bytes (total - released) then fewer else (m ∷ rest, released, dropped)

-- `_trim_ws_messages`: the record, and the bytes released
unfoldable pub trim_ws_messages : ℕ → FlowRecord → FlowRecord × ℕ
unfolding trim_from payload_bytes
trim_ws_messages max_bytes r =
    let kept = trim_from (payload_bytes r.ws_messages) max_bytes 0 0 r.ws_messages in
    (record r { ws_messages = kept.0; ws_dropped = r.ws_dropped + kept.2 }, kept.1)

abbrev pub bytes_or_empty : Option Bytes → Bytes
bytes_or_empty none = []
bytes_or_empty (some b) = b

-- the frame as it is kept
unfoldable pub capped_frame : ℕ → WebSocketMessage → WebSocketMessage
unfolding truncate
capped_frame cap m =
    let cut = truncate (some m.payload) cap in
    record m { payload = bytes_or_empty cut.0; truncated = cut.1 }

-- the record of the connection is in the ring, unless the ring cannot hold it
unfoldable pub ensure : WebSocketMessage → RingBuffer → RingBuffer
unfolding Ring.get Ring.add
ensure m r = elim (Ring.get m.flow_id r) [
  | none ↦ Ring.add (new_record m.flow_id FlowKind.websocket m.timestamp) r
  | some _ ↦ r
]

-- the object that was looked up or just made
unfoldable pub holder : WebSocketMessage → RingBuffer → FlowRecord
unfolding Ring.get
holder m r = or_else (Ring.get m.flow_id r) (new_record m.flow_id FlowKind.websocket m.timestamp)

-- The object changes in place: so does the ring, where it holds the object.
unfoldable pub write_back : Text → FlowRecord → RingBuffer → RingBuffer
unfolding Dict.get Dict.set
write_back k new r = elim (Dict.get k r.records) [
  | none ↦ r
  | some _ ↦ record r { records = Dict.set k new r.records }
]

-- the frame is appended to the record
unfoldable pub append_frame : WebSocketMessage → FlowRecord → FlowRecord
append_frame m r = record r { kind = FlowKind.websocket; ws_messages = r.ws_messages ++ m ∷ [] }

unfoldable pub record_websocket_message : WebSocketMessage → RingSink → RingSink
unfolding ensure holder capped_frame append_frame trim_ws_messages write_back Ring.adjust enqueue
record_websocket_message m s =
    let ring = ensure m s.ring in
    let frame = capped_frame s.max_body_bytes m in
    let trimmed = trim_ws_messages s.max_ws_bytes (append_frame frame (holder m ring)) in
    let delta = pos (length frame.payload) -ℤ pos trimmed.1 in
    enqueue trimmed.0
      (record s { ring = Ring.adjust m.flow_id delta (write_back m.flow_id trimmed.0 ring) })

unfoldable pub record_websocket_close : Text → Option ℕ → RingSink → RingSink
unfolding Ring.get write_back enqueue
record_websocket_close flow_id close_code s = elim (Ring.get flow_id s.ring) [
  | none ↦ s
  | some old ↦
      let closed = record old { ws_closed = true; ws_close_code = close_code } in
      enqueue closed (record s { ring = write_back flow_id closed s.ring })
]

abbrev is_modifying : Action → Bool
is_modifying Action.headers = true
is_modifying Action.body = true
is_modifying _ = false

-- `_was_modified`
unfoldable pub was_modified : Provenance → Bool
was_modified p = any (λ e. is_applied e.outcome && is_modifying e.action) p.entries

-- the loop of `_short_circuit_action`
unfoldable pub action_of_rule : Text → List ProvenanceEntry → Option Action
action_of_rule rule_id [] = none
action_of_rule rule_id (e ∷ entries) =
    if e.rule_id == rule_id then some e.action else action_of_rule rule_id entries

-- `_short_circuit_action`
unfoldable pub short_circuit_action : Provenance → Option Action
unfolding action_of_rule
short_circuit_action p = elim p.short_circuited_by [
  | none ↦ none
  | some rule_id ↦ action_of_rule rule_id p.entries
]

abbrev pub is_block : Option Action → Bool
is_block (some Action.block) = true
is_block _ = false

abbrev pub is_substituted : Option Action → Bool
is_substituted (some Action.map_local) = true
is_substituted (some Action.redirect) = true
is_substituted _ = false

-- `_flow_id_of`; `fresh` is the unique identifier
unfoldable pub flow_id_of : Text → Option NormalizedRequest → Option NormalizedResponse → Text
flow_id_of fresh (some request) response = request.flow_id
flow_id_of fresh none (some response) = response.flow_id
flow_id_of fresh none none = fresh

unfoldable pub cap_request : ℕ → NormalizedRequest → NormalizedRequest
cap_request cap request =
    let cut = truncate request.body cap in
    if cut.1 then record request { body = cut.0; body_truncated = true } else request

unfoldable pub cap_response : ℕ → NormalizedResponse → NormalizedResponse
cap_response cap response =
    let cut = truncate response.body cap in
    if cut.1 then record response { body = cut.0; body_truncated = true } else response

-- the tab that the request carries, else the answer of the join
unfoldable pub tab_of : (Text → Text → Option ℤ) → Option NormalizedRequest → Option ℤ
tab_of resolve_tab none = none
tab_of resolve_tab (some request) = elim request.tab_id [
  | none ↦ resolve_tab request.method request.url
  | some tab ↦ some tab
]

abbrev pub started_of : Text → Option NormalizedRequest → Text
started_of now none = now
started_of now (some request) = request.timestamp

abbrev pub map_option {ℓ κ} : {A : Type ℓ} {B : Type κ} → (A → B) → Option A → Option B
map_option f none = none
map_option f (some a) = some (f a)

-- the record that `record_http` emits
unfoldable pub http_record :
    ℕ
    → Text
    → Text
    → (Text → Text → Option ℤ)
    → Option NormalizedRequest
    → Option NormalizedResponse
    → Provenance
    → FlowRecord
unfolding flow_id_of cap_request cap_response tab_of short_circuit_action was_modified
http_record cap now fresh resolve_tab request response provenance =
    let short_circuit = short_circuit_action provenance in
    record (new_record (flow_id_of fresh request response) FlowKind.http (started_of now request)) {
      completed_at = some now;
      tab_id = tab_of resolve_tab request;
      request = map_option (cap_request cap) request;
      response = map_option (cap_response cap) response;
      provenance = some provenance;
      modified = was_modified provenance || is_substituted short_circuit;
      blocked = is_block short_circuit;
      short_circuit = short_circuit;
    }

unfoldable pub record_http :
    Text
    → Text
    → (Text → Text → Option ℤ)
    → Option NormalizedRequest
    → Option NormalizedResponse
    → Provenance
    → RingSink
    → RingSink
record_http now fresh resolve_tab request response provenance s =
    emit (http_record s.max_body_bytes now fresh resolve_tab request response provenance) s

-- the record that `record_error` emits
unfoldable pub error_record :
    Text
    → Text
    → (Text → Text → Option ℤ)
    → Option NormalizedRequest
    → Provenance
    → Text
    → Bool
    → FlowRecord
unfolding flow_id_of tab_of
error_record now fresh resolve_tab request provenance message from_client =
    record (new_record (flow_id_of fresh request none) FlowKind.http (started_of now request)) {
      completed_at = some now;
      tab_id = tab_of resolve_tab request;
      request = request;
      provenance = some provenance;
      error = some (record { message = message; from_client = from_client });
    }

unfoldable pub record_error :
    Text
    → Text
    → (Text → Text → Option ℤ)
    → Option NormalizedRequest
    → Provenance
    → Text
    → Bool
    → RingSink
    → RingSink
record_error now fresh resolve_tab request provenance message from_client s =
    emit (error_record now fresh resolve_tab request provenance message from_client) s

abbrev is_exclusion : NoteCode → Bool
is_exclusion NoteCode.passthrough_excluded = true
is_exclusion _ = false

-- the first note that says why the connection was tunneled
unfoldable pub exclusion_note : List ProvenanceNote → Option ProvenanceNote
exclusion_note [] = none
exclusion_note (n ∷ notes) =
    let later = exclusion_note notes in if is_exclusion n.code then some n else later

abbrev detail_of : Text → Option ProvenanceNote → Option Text
detail_of key none = none
detail_of key (some n) = Dict.get key n.detail

abbrev host_text : Option Text → Option Text → Text
host_text (some host) ip = if Text.non_empty host then host else or_else ip (codes "None")
host_text none ip = or_else ip (codes "None")

unfoldable pub record_passthrough :
    Text → Option Text → Option Text → Provenance → RingSink → RingSink
unfolding exclusion_note emit Dict.get
record_passthrough now host ip provenance s =
    let found = exclusion_note provenance.notes in
    emit
      (record (new_record (codes "pt-" ++ host_text host ip ++ codes "-" ++ now)
        FlowKind.passthrough now) {
          completed_at = some now;
          passthrough_host = host;
          passthrough_ip = ip;
          passthrough_pattern = detail_of (codes "pattern") found;
          passthrough_reason = detail_of (codes "reason") found;
          provenance = some provenance;
        })
      s
