-- ===== src/Capture/Redact/Whole.antt =====
-- The redaction of whole messages and records (capture/redact.py). `quote_plus`, the JSON codec and
-- the masked form are arguments.
use pporlock.Base.{
  Bool, true, false, not, ◌&&◌, ◌||◌, Option, none, some, List, [], ◌∷◌, ◌++◌, map, contains,
  nat_eq, if◌then◌else◌,
}
use pporlock.Base.Text.{Text, before, after}
use pporlock.Engine.Models.{Bytes, NormalizedRequest, NormalizedResponse, WebSocketMessage}
use pporlock.Capture.Records.{FlowRecord}
use pporlock.Capture.Redact.{
  Json, RedactionConfig, header_matches, redact_headers, redact_json_body, redact_query,
}

-- `"&".join(parts)`
unfoldable pub join_parts : List Text → Text
join_parts [] = []
join_parts (part ∷ []) = part
join_parts (part ∷ other ∷ rest) = part ++ b'&' ∷ join_parts (other ∷ rest)

-- the separator of `partition`, where it is there
abbrev fragment_mark : Text → Text
fragment_mark text = if contains text b'#' then b'#' ∷ [] else []

module _ (mask : Text → Text) (is_masked : Text → Bool) (quote_plus : Text → Text)
    (loads : Bytes → Option Json) (dumps : Json → Bytes) (blank : Bytes → Bool) where
  abbrev url_part : Text × Text → Text
  url_part (name, value) =
      quote_plus name ++ b'=' ∷ (if is_masked value then value else quote_plus value)

  -- `_rebuild_url`
  unfoldable pub rebuild_url : Text → List (Text × Text) → Text
  unfolding join_parts
  rebuild_url url query =
      if not (contains url b'?')
      then url
      else before b'?' url
        ++ b'?' ∷ join_parts (map url_part query)
        ++ fragment_mark (after b'?' url)
        ++ after b'#' (after b'?' url)

  -- `Redactor.redact_request`
  unfoldable pub redact_request : RedactionConfig → NormalizedRequest → NormalizedRequest × Bool
  unfolding redact_headers redact_json_body redact_query rebuild_url
  redact_request cfg request =
      let headers = redact_headers mask is_masked cfg request.headers in
      let body = redact_json_body mask is_masked loads dumps blank cfg request.body in
      let query = redact_query mask is_masked cfg request.query in
      if not (headers.1 || body.1 || query.1) then (request, false) else (
        record request {
          headers = headers.0;
          body = body.0;
          query = query.0;
          url = if query.1 then rebuild_url request.url query.0 else request.url;
        },
        true,
      )

  -- `Redactor.redact_response`
  unfoldable pub redact_response : RedactionConfig → NormalizedResponse → NormalizedResponse × Bool
  unfolding redact_headers redact_json_body
  redact_response cfg response =
      let headers = redact_headers mask is_masked cfg response.headers in
      let body = redact_json_body mask is_masked loads dumps blank cfg response.body in
      if not (headers.1 || body.1)
      then (response, false)
      else (record response { headers = headers.0; body = body.0 }, true)

  abbrev pub or_empty : Option Bytes → Bytes
  or_empty none = []
  or_empty (some payload) = payload

  -- `Redactor.redact_ws_message`
  unfoldable pub redact_ws_message : RedactionConfig → WebSocketMessage → WebSocketMessage × Bool
  unfolding redact_json_body
  redact_ws_message cfg message =
      let payload = redact_json_body mask is_masked loads dumps blank cfg (some message.payload) in
      if not payload.1
      then (message, false)
      else (record message { payload = or_empty payload.0 }, true)

  abbrev pub over {ℓ} : {A : Type ℓ} → (A → A × Bool) → Option A → Option A
  over redact none = none
  over redact (some a) = some (redact a).0

  -- `Redactor.redact_record`
  unfoldable pub redact_record : RedactionConfig → FlowRecord → FlowRecord
  unfolding redact_request redact_response redact_ws_message
  redact_record cfg r = if not cfg.enabled then r else record r {
    request = over (redact_request cfg) r.request;
    response = over (redact_response cfg) r.response;
    ws_messages = map (λ m. (redact_ws_message cfg m).0) r.ws_messages;
  }

-- `Redactor.masks_header`
unfoldable pub masks_header : RedactionConfig → Text → Bool
unfolding header_matches
masks_header cfg name = cfg.enabled && header_matches name cfg.header_patterns
