-- ===== src/Capture/Session/Rows.antt =====
-- The rows of a session's database (capture/session.py): `_redact_and_encode` after redaction, and
-- `_record`, which reads a flow back. A column that holds JSON is the value that its text stands for.
-- The codecs of texts and of base64 are arguments. `timing` and `http_version` are not modelled.
use pporlock.Base.{
  ℕ, ◌+◌, Bool, true, false, Option, none, some, List, [], map, length, take, sum_by, if◌then◌else◌,
}
use pporlock.Base.Int.{ℤ}
use pporlock.Base.Text.{Text, codes, non_empty}
use pporlock.Base.Dict.{Dict}
use pporlock.Engine.Models.{
  Bytes, HeaderPairs, NormalizedRequest, NormalizedResponse, Scheme, WebSocketMessage, WsDirection,
  WsOpcode, content_type,
}
use pporlock.Engine.Provenance.{NoteCode, Provenance, Severity}
use pporlock.Capture.Records.{FlowKind, FlowRecord}

pub data Encoding : Type 0 where
  utf8 base64 : Encoding

-- the columns of `flows`, in the order of `_FLOW_COLUMNS`
pub record FlowRow : Type 0 where
  pub flow_id : Text
  pub seq : ℕ
  pub kind : FlowKind
  pub started_at : Text
  pub completed_at : Option Text
  pub tab_id : Option ℤ
  pub method : Option Text
  pub scheme : Option Scheme
  pub host : Option Text
  pub port : Option ℕ
  pub path : Option Text
  pub query : Option (List (Text × Text))
  pub url : Option Text
  pub dest : Option Text
  pub status : Option ℕ
  pub reason : Option Text
  pub media : Option Text
  pub req_headers : HeaderPairs
  pub resp_headers : Option HeaderPairs
  pub req_body : Option Text
  pub req_body_encoding : Option Encoding
  pub req_body_truncated : Bool
  pub resp_body : Option Text
  pub resp_body_encoding : Option Encoding
  pub resp_body_truncated : Bool
  pub provenance : Option Provenance
  pub modified : Bool
  pub blocked : Bool
  pub streamed : Bool
  pub ws_closed : Bool
  pub ws_close_code : Option ℕ
  pub passthrough_host : Option Text
  pub passthrough_ip : Option Text
  pub passthrough_pattern : Option Text
  pub passthrough_reason : Option Text

-- a row of `ws_messages`
pub record MessageRow : Type 0 where
  pub flow_id : Text
  pub idx : ℕ
  pub ts : Text
  pub direction : WsDirection
  pub opcode : WsOpcode
  pub size : ℕ
  pub payload : Option Text
  pub payload_encoding : Option Encoding
  pub truncated : Bool

-- a row of `notes`
pub record NoteRow : Type 0 where
  pub flow_id : Text
  pub code : NoteCode
  pub severity : Severity
  pub module_name : Option Text
  pub detail : Dict Text Text

-- `_Encoded`
pub record Encoded : Type 0 where
  pub flow : FlowRow
  pub ws : List MessageRow
  pub notes : List NoteRow
  pub approx_bytes : ℕ

-- `_cap`
unfoldable pub capped : Option Bytes → ℕ → Option Bytes
capped none cap = none
capped (some body) cap = some (take cap body)

abbrev stored_length : Option Text → ℕ
stored_length none = 0
stored_length (some text) = length text

-- what `Provenance.from_dict` makes of an empty object
abbrev pub no_provenance : Provenance
no_provenance = record {
  profile = codes "default";
  evaluated_modules = [];
  entries = [];
  notes = [];
  total = 0;
  short_circuited_by = none;
}

abbrev pub notes_of : Text → Option Provenance → List NoteRow
notes_of flow_id none = []
notes_of flow_id (some p) =
    map
      (λ n. record {
        flow_id = flow_id;
        code = n.code;
        severity = n.severity;
        module_name = n.module_name;
        detail = n.detail;
      })
      p.notes

abbrev pub of_option {ℓ κ} : {A : Type ℓ} {B : Type κ} → (A → B) → Option A → Option B
of_option f none = none
of_option f (some a) = some (f a)

abbrev pub or_else {ℓ} : {A : Type ℓ} → A → Option A → A
or_else default none = default
or_else default (some a) = a

-- `value or default` of a text
abbrev pub or_text : Text → Option Text → Text
or_text default none = default
or_text default (some text) = if non_empty text then text else default

abbrev and_then {ℓ κ} : {A : Type ℓ} {B : Type κ} → (A → Option B) → Option A → Option B
and_then f none = none
and_then f (some a) = f a

module _ (utf8_decode : Bytes → Option Text) (utf8_encode : Text → Bytes)
    (b64_encode : Bytes → Text) (b64_decode : Text → Option Bytes) where
  abbrev pub decoded_or_base64 : Bytes → Option Text → Option Text × Option Encoding
  decoded_or_base64 body (some text) = (some text, some Encoding.utf8)
  decoded_or_base64 body none = (some (b64_encode body), some Encoding.base64)

  -- `encode_body` (capture/ring.py)
  unfoldable pub encode_body : Option Bytes → Option Text × Option Encoding
  encode_body none = (none, none)
  encode_body (some body) = decoded_or_base64 body (utf8_decode body)

  -- `_decode_body`
  unfoldable pub decode_body : Option Text → Option Encoding → Option Bytes
  decode_body none encoding = none
  decode_body (some stored) (some Encoding.base64) = b64_decode stored
  decode_body (some stored) (some Encoding.utf8) = some (utf8_encode stored)
  decode_body (some stored) none = some (utf8_encode stored)

  module _ (max_body_bytes : ℕ) where
    abbrev pub stored_body : Option Bytes → Option Text × Option Encoding
    stored_body body = encode_body (capped body max_body_bytes)

    abbrev pub message_row : Text → WebSocketMessage → MessageRow
    message_row flow_id m =
        let body = stored_body (some m.payload) in
        record {
          flow_id = flow_id;
          idx = m.index;
          ts = m.timestamp;
          direction = m.direction;
          opcode = m.opcode;
          size = length m.payload;
          payload = body.0;
          payload_encoding = body.1;
          truncated = m.truncated;
        }

    abbrev pub host_column : FlowRecord → Option Text
    host_column r = elim r.request [ none ↦ r.passthrough_host | some q ↦ some q.host ]

    abbrev pub flow_row : ℕ → FlowRecord → FlowRow
    flow_row seq r =
        let req = stored_body (and_then (λ q. q.body) r.request) in
        let resp = stored_body (and_then (λ s. s.body) r.response) in
        record {
          flow_id = r.flow_id;
          seq = seq;
          kind = r.kind;
          started_at = r.started_at;
          completed_at = r.completed_at;
          tab_id = r.tab_id;
          method = of_option (λ q. q.method) r.request;
          scheme = of_option (λ q. q.scheme) r.request;
          host = host_column r;
          port = of_option (λ q. q.port) r.request;
          path = of_option (λ q. q.path) r.request;
          query = of_option (λ q. q.query) r.request;
          url = of_option (λ q. q.url) r.request;
          dest = and_then (λ q. q.dest) r.request;
          status = of_option (λ s. s.status) r.response;
          reason = of_option (λ s. s.reason) r.response;
          media = and_then (λ s. content_type s.headers) r.response;
          req_headers = or_else [] (of_option (λ q. q.headers) r.request);
          resp_headers = of_option (λ s. s.headers) r.response;
          req_body = req.0;
          req_body_encoding = req.1;
          req_body_truncated = or_else false (of_option (λ q. q.body_truncated) r.request);
          resp_body = resp.0;
          resp_body_encoding = resp.1;
          resp_body_truncated = or_else false (of_option (λ s. s.body_truncated) r.response);
          provenance = r.provenance;
          modified = r.modified;
          blocked = r.blocked;
          streamed = or_else false (of_option (λ s. s.streamed) r.response);
          ws_closed = r.ws_closed;
          ws_close_code = r.ws_close_code;
          passthrough_host = r.passthrough_host;
          passthrough_ip = r.passthrough_ip;
          passthrough_pattern = r.passthrough_pattern;
          passthrough_reason = r.passthrough_reason;
        }

    -- `_redact_and_encode`, where `redact` is the redactor's `redact_record`
    unfoldable pub redact_and_encode : (FlowRecord → FlowRecord) → ℕ → FlowRecord → Encoded
    unfolding capped encode_body content_type
    redact_and_encode redact seq record' =
        let r = redact record' in
        let row = flow_row seq r in
        let messages = map (message_row r.flow_id) r.ws_messages in
        record {
          flow = row;
          ws = messages;
          notes = notes_of r.flow_id r.provenance;
          approx_bytes =
              512
              + stored_length row.req_body
              + stored_length row.resp_body
              + sum_by (λ m. stored_length m.payload) messages;
        }

  abbrev pub request_of : FlowRow → Option Text → Option NormalizedRequest
  request_of row none = none
  request_of row (some method) = some (record {
    flow_id = row.flow_id;
    timestamp = row.started_at;
    scheme = or_else Scheme.https row.scheme;
    method = method;
    host = or_else [] row.host;
    port = or_else 0 row.port;
    path = or_text (codes "/") row.path;
    url = or_else [] row.url;
    query = or_else [] row.query;
    headers = row.req_headers;
    dest = row.dest;
    body = decode_body row.req_body row.req_body_encoding;
    body_truncated = row.req_body_truncated;
    tab_id = row.tab_id;
  })

  abbrev pub response_of : FlowRow → Option ℕ → Option NormalizedResponse
  response_of row none = none
  response_of row (some status) = some (record {
    flow_id = row.flow_id;
    timestamp = or_text row.started_at row.completed_at;
    status = status;
    reason = or_else [] row.reason;
    headers = or_else [] row.resp_headers;
    body = decode_body row.resp_body row.resp_body_encoding;
    body_truncated = row.resp_body_truncated;
    streamed = row.streamed;
    encoding = none;
  })

  abbrev pub message_of : Text → MessageRow → WebSocketMessage
  message_of flow_id row = record {
    flow_id = flow_id;
    index = row.idx;
    timestamp = row.ts;
    direction = row.direction;
    opcode = row.opcode;
    payload = or_else [] (decode_body row.payload row.payload_encoding);
    truncated = row.truncated;
  }

  abbrev pub is_websocket : FlowKind → Bool
  is_websocket FlowKind.websocket = true
  is_websocket _ = false

  -- `_record`; the rows of `ws_messages` under the flow's id come in the order of their index
  unfoldable pub record_of : FlowRow → List MessageRow → FlowRecord
  unfolding decode_body
  record_of row messages = record {
    flow_id = row.flow_id;
    kind = row.kind;
    started_at = row.started_at;
    completed_at = row.completed_at;
    tab_id = row.tab_id;
    request = request_of row row.method;
    response = response_of row row.status;
    provenance = some (or_else no_provenance row.provenance);
    modified = row.modified;
    blocked = row.blocked;
    short_circuit = none;
    error = none;
    passthrough_host = row.passthrough_host;
    passthrough_ip = row.passthrough_ip;
    passthrough_pattern = row.passthrough_pattern;
    passthrough_reason = row.passthrough_reason;
    ws_messages = if is_websocket row.kind then map (message_of row.flow_id) messages else [];
    ws_closed = row.ws_closed;
    ws_close_code = row.ws_close_code;
    ws_dropped = 0;
  }
