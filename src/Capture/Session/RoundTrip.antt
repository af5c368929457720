-- ===== src/Capture/Session/RoundTrip.antt =====
-- What is read of the rows that a flow is encoded to (capture/session.py).
use pporlock.Base.{
  ℕ, ◌≡◌, refl, ap, ap₂, Option, none, some, List, [], ◌∷◌, map, take, if◌then◌else◌,
}
use pporlock.Base.Text.{Text, codes, non_empty}
use pporlock.Engine.Models.{Bytes, NormalizedRequest, NormalizedResponse, WebSocketMessage}
use pporlock.Capture.Records.{FlowRecord}
use pporlock.Capture.Session.Rows.{
  capped, decode_body, encode_body, flow_row, is_websocket, message_of, message_row, no_provenance,
  of_option, or_else, or_text, record_of, redact_and_encode, request_of, response_of,
  decoded_or_base64,
}

module _ (utf8_decode : Bytes → Option Text) (utf8_encode : Text → Bytes)
    (b64_encode : Bytes → Text) (b64_decode : Text → Option Bytes)
    (utf8_exact : (body : Bytes) (text : Text)
      → utf8_decode body ≡ some text
      → utf8_encode text ≡ body)
    (b64_exact : (body : Bytes) → b64_decode (b64_encode body) ≡ some body)
    (max_body_bytes : ℕ) where
  decoded_body :
      (body : Bytes) (o : Option Text)
      → utf8_decode body ≡ o
      → decode_body utf8_decode utf8_encode b64_encode b64_decode
          (decoded_or_base64 utf8_decode utf8_encode b64_encode b64_decode body o).0
          (decoded_or_base64 utf8_decode utf8_encode b64_encode b64_decode body o).1
        ≡ some body
  unfolding decode_body
  decoded_body body (some text) e = ap some (utf8_exact body text e)
  decoded_body body none e = b64_exact body

  decode_body-encode_body :
      (body : Option Bytes)
      → decode_body utf8_decode utf8_encode b64_encode b64_decode
          (encode_body utf8_decode utf8_encode b64_encode b64_decode body).0
          (encode_body utf8_decode utf8_encode b64_encode b64_decode body).1
        ≡ body
  unfolding encode_body
  decode_body-encode_body none = unfold decode_body in refl
  decode_body-encode_body (some body) = decoded_body body (utf8_decode body) refl

  abbrev pub restored_request : FlowRecord → NormalizedRequest → NormalizedRequest
  restored_request r q = record q {
    flow_id = r.flow_id;
    timestamp = r.started_at;
    path = if non_empty q.path then q.path else codes "/";
    tab_id = r.tab_id;
    body = capped q.body max_body_bytes;
  }

  abbrev pub restored_response : FlowRecord → NormalizedResponse → NormalizedResponse
  restored_response r s = record s {
    flow_id = r.flow_id;
    timestamp = or_text r.started_at r.completed_at;
    body = capped s.body max_body_bytes;
    encoding = none;
  }

  abbrev pub restored_message : FlowRecord → WebSocketMessage → WebSocketMessage
  restored_message r m = record m { flow_id = r.flow_id; payload = take max_body_bytes m.payload }

  -- what a session keeps of a record
  abbrev pub restored : FlowRecord → FlowRecord
  restored r = record r {
    request = of_option (restored_request r) r.request;
    response = of_option (restored_response r) r.response;
    provenance = some (or_else no_provenance r.provenance);
    short_circuit = none;
    error = none;
    ws_messages =
        if is_websocket utf8_decode utf8_encode b64_encode b64_decode r.kind
        then map (restored_message r) r.ws_messages
        else [];
    ws_dropped = 0;
  }

  request_back :
      (seq : ℕ) (r : FlowRecord) (o : Option NormalizedRequest)
      → request_of utf8_decode utf8_encode b64_encode b64_decode
          (flow_row utf8_decode utf8_encode b64_encode b64_decode max_body_bytes seq
            (record r { request = o }))
          (flow_row utf8_decode utf8_encode b64_encode b64_decode max_body_bytes seq
            (record r { request = o })).method
        ≡ of_option (restored_request r) o
  unfolding capped
  request_back seq r none = refl
  request_back seq r (some q) =
      ap (λ body. some (record (restored_request r q) { body = body }))
        (decode_body-encode_body (capped q.body max_body_bytes))

  response_back :
      (seq : ℕ) (r : FlowRecord) (o : Option NormalizedResponse)
      → response_of utf8_decode utf8_encode b64_encode b64_decode
          (flow_row utf8_decode utf8_encode b64_encode b64_decode max_body_bytes seq
            (record r { response = o }))
          (flow_row utf8_decode utf8_encode b64_encode b64_decode max_body_bytes seq
            (record r { response = o })).status
        ≡ of_option (restored_response r) o
  unfolding capped
  response_back seq r none = refl
  response_back seq r (some s) =
      ap (λ body. some (record (restored_response r s) { body = body }))
        (decode_body-encode_body (capped s.body max_body_bytes))

  message_back :
      (r : FlowRecord) (ms : List WebSocketMessage)
      → map (message_of utf8_decode utf8_encode b64_encode b64_decode r.flow_id) (
          map
            (message_row utf8_decode utf8_encode b64_encode b64_decode max_body_bytes r.flow_id)
            ms)
        ≡ map (restored_message r) ms
  unfolding capped
  message_back r [] = refl
  message_back r (m ∷ ms) =
      ap₂
        (λ (body : Option Bytes) rest.
          record m { flow_id = r.flow_id; payload = or_else [] body } ∷ rest)
        (decode_body-encode_body (some (take max_body_bytes m.payload))) (message_back r ms)

  -- The rows that a flow is encoded to are read as the redacted flow, but for what they do not hold:
  -- bodies and frames are cut at the session's bound, the flow's own id, start, end and tab stand in
  -- its messages, an empty path is the root, and the error, the short circuit, the encoding and the
  -- count of dropped frames are gone. UTF-8 and base64 are exact on what they encode.
  pub record_of-redact_and_encode :
      (redact : FlowRecord → FlowRecord) (seq : ℕ) (r : FlowRecord)
      → record_of utf8_decode utf8_encode b64_encode b64_decode
          (redact_and_encode utf8_decode utf8_encode b64_encode b64_decode max_body_bytes redact seq
            r).flow
          (redact_and_encode utf8_decode utf8_encode b64_encode b64_decode max_body_bytes redact seq
            r).ws
        ≡ restored (redact r)
  unfolding record_of redact_and_encode
  record_of-redact_and_encode redact seq r0 =
      let r = redact r0 in
      ap₂
        (λ (q : Option NormalizedRequest)
            (rest : Option NormalizedResponse × List WebSocketMessage).
          record (restored r) {
            request = q;
            response = rest.0;
            ws_messages =
                if is_websocket utf8_decode utf8_encode b64_encode b64_decode r.kind
                then rest.1
                else [];
          })
        (request_back seq r r.request)
        (ap₂ (λ s ms. (s, ms)) (response_back seq r r.response) (message_back r r.ws_messages))
