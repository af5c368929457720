-- ===== src/Capture/Redact/Hidden.antt =====
-- What redaction leaves of a whole record: no header, query value or JSON field that a pattern names.
use pporlock.Base.{
  ◌≡◌, refl, sym, ap, ap₂, subst, Bool, true, false, not, ◌&&◌, ◌||◌, Option, none, some, List, [],
  ◌∷◌, map, All, arith, Bool-cases, inl, inr, ◌⊎◌, if◌then◌else◌,
}
use pporlock.Base.Text.{Text, non_empty}
use pporlock.Engine.Models.{
  Bytes, HeaderPairs, NormalizedRequest, NormalizedResponse, WebSocketMessage,
}
use pporlock.Capture.Records.{FlowRecord}
use pporlock.Capture.Redact.{
  Elements, Json, Members, RedactionConfig, header_matches, key_matches, mask_pairs, redact_headers,
  redact_json_body, redact_query, rewritten, walk, walk_elements, walk_members, written,
}
use pporlock.Capture.Redact.Masked.{IsClean, IsHidden, walk-IsClean, pairs-IsHidden}
use pporlock.Capture.Redact.Whole.{
  over, or_empty, redact_record, redact_request, redact_response, redact_ws_message,
}

module _ (mask : Text → Text) (is_masked : Text → Bool) where
  pairs_same :
      (hit : Text → Bool) (pairs : List (Text × Text))
      → (mask_pairs mask is_masked hit pairs).1 ≡ false
      → (mask_pairs mask is_masked hit pairs).0 ≡ pairs
  unfolding mask_pairs
  pairs_same hit [] h = refl
  pairs_same hit ((name, value) ∷ rest) h =
      elim (Bool-cases ((non_empty value && not (is_masked value)) && hit name)) [
        | inl e ↦ absurd (cc (rw e at h))
        | inr e ↦ rw e (ap (◌∷◌ (name, value)) (pairs_same hit rest (rw e at h)))
      ]

  or_false : (a b : Bool) → (a || b) ≡ false → (a ≡ false) × (b ≡ false)
  or_false a b h = ground arith

  string_same :
      (patterns : List Text) (hit : Bool) (text : Text)
      → (walk mask is_masked patterns hit (Json.string text)).1 ≡ false
      → (walk mask is_masked patterns hit (Json.string text)).0 ≡ Json.string text
  unfolding walk
  string_same patterns true text h = elim (Bool-cases (is_masked text)) [
    | inl e ↦ rw e refl
    | inr e ↦ absurd (cc (rw e at h))
  ]
  string_same patterns false text h = refl

  mutual
    unfolding walk

    -- a value that no mask was put into is as it was
    walk_same :
        (patterns : List Text) (hit : Bool) (j : Json)
        → (walk mask is_masked patterns hit j).1 ≡ false
        → (walk mask is_masked patterns hit j).0 ≡ j
    walk_same patterns hit Json.nothing h = refl
    walk_same patterns true (Json.literal text) h = absurd (cc h)
    walk_same patterns false (Json.literal text) h = refl
    walk_same patterns hit (Json.string text) h = string_same patterns hit text h
    walk_same patterns hit (Json.array items) h = ap Json.array (elements_same patterns hit items h)
    walk_same patterns hit (Json.object members) h =
        ap Json.object (members_same patterns members h)

    elements_same :
        (patterns : List Text) (hit : Bool) (items : Elements)
        → (walk_elements mask is_masked patterns hit items).1 ≡ false
        → (walk_elements mask is_masked patterns hit items).0 ≡ items
    elements_same patterns hit Elements.done h = refl
    elements_same patterns hit (Elements.element j items) h =
        let both =
          or_false (walk mask is_masked patterns hit j).1
            (walk_elements mask is_masked patterns hit items).1 h in
        ap₂ Elements.element (walk_same patterns hit j both.0)
          (elements_same patterns hit items both.1)

    members_same :
        (patterns : List Text) (members : Members)
        → (walk_members mask is_masked patterns members).1 ≡ false
        → (walk_members mask is_masked patterns members).0 ≡ members
    members_same patterns Members.close h = refl
    members_same patterns (Members.member key j members) h =
        let both =
          or_false (walk mask is_masked patterns (key_matches key patterns) j).1
            (walk_members mask is_masked patterns members).1 h in
        ap₂ (Members.member key) (walk_same patterns (key_matches key patterns) j both.0)
          (members_same patterns members both.1)

module _ (mask : Text → Text) (is_masked : Text → Bool)
    (masked : (v : Text) → is_masked (mask v) ≡ true) (quote_plus : Text → Text)
    (loads : Bytes → Option Json) (dumps : Json → Bytes) (blank : Bytes → Bool)
    (cfg : RedactionConfig)
    (read_back : (body : Bytes) (j : Json)
      → loads body ≡ some j
      → loads (dumps (walk mask is_masked cfg.json_key_patterns false j).0)
        ≡ some (walk mask is_masked cfg.json_key_patterns false j).0) where
  -- a body that is JSON holds no text in the clear under a key that names a secret
  abbrev pub BodyIsClean : Option Bytes → Type 0
  BodyIsClean none = Unit
  BodyIsClean (some body) =
      blank body ≡ false
      → (j : Json) → loads body ≡ some j
      → IsClean mask is_masked masked cfg.json_key_patterns false j

  abbrev pub HeadersAreHidden : HeaderPairs → Type 0
  HeadersAreHidden =
      All (IsHidden mask is_masked masked (λ name. header_matches name cfg.header_patterns))

  abbrev pub QueryIsHidden : List (Text × Text) → Type 0
  QueryIsHidden = All (IsHidden mask is_masked masked (λ name. key_matches name cfg.query_patterns))

  abbrev pub RequestIsRedacted : Option NormalizedRequest → Type 0
  RequestIsRedacted none = Unit
  RequestIsRedacted (some request) =
      HeadersAreHidden request.headers × QueryIsHidden request.query × BodyIsClean request.body

  abbrev pub ResponseIsRedacted : Option NormalizedResponse → Type 0
  ResponseIsRedacted none = Unit
  ResponseIsRedacted (some response) = HeadersAreHidden response.headers × BodyIsClean response.body

  abbrev pub IsRedacted : FlowRecord → Type 0
  IsRedacted r =
      RequestIsRedacted r.request
      × ResponseIsRedacted r.response
      × All (λ m. BodyIsClean (some m.payload)) r.ws_messages

  reads-BodyIsClean :
      (body : Bytes) (j : Json)
      → loads body ≡ some j
      → IsClean mask is_masked masked cfg.json_key_patterns false j
      → BodyIsClean (some body)
  reads-BodyIsClean body j read clean _ k r =
      let q : j ≡ k = cc (read, r) in
      subst (IsClean mask is_masked masked cfg.json_key_patterns false) q clean

  written-BodyIsClean :
      (body : Bytes) (j : Json)
      → loads body ≡ some j
      → BodyIsClean
          (written mask is_masked dumps body (walk mask is_masked cfg.json_key_patterns false j)).0
  written-BodyIsClean body j read =
      let clean = (walk-IsClean mask is_masked masked cfg.json_key_patterns false j).0 in
      elim (Bool-cases (walk mask is_masked cfg.json_key_patterns false j).1) [
        | inl b ↦ rw b (
            reads-BodyIsClean (dumps (walk mask is_masked cfg.json_key_patterns false j).0) _
              (read_back body j read) clean)
        | inr b ↦ rw b (
            reads-BodyIsClean body j read (
              subst (IsClean mask is_masked masked cfg.json_key_patterns false)
                (walk_same mask is_masked cfg.json_key_patterns false j b) clean))
      ]

  rewritten-BodyIsClean :
      (body : Bytes) (o : Option Json)
      → loads body ≡ o
      → BodyIsClean (rewritten mask is_masked dumps cfg.json_key_patterns body o).0
  rewritten-BodyIsClean body none read = λ _ j r. absurd (cc (read, r))
  rewritten-BodyIsClean body (some j) read = written-BodyIsClean body j read

  module _ (on : cfg.enabled ≡ true) where
    body-BodyIsClean :
        (body : Option Bytes)
        → BodyIsClean (redact_json_body mask is_masked loads dumps blank cfg body).0
    unfolding redact_json_body
    body-BodyIsClean none = tt
    body-BodyIsClean (some body) = elim (Bool-cases (blank body)) [
      | inl b ↦ rw (on, b, redact_json_body) (λ h. absurd (cc (b, h)))
      | inr b ↦ rw (on, b, redact_json_body) (rewritten-BodyIsClean body (loads body) refl)
    ]

    headers-AreHidden :
        (headers : HeaderPairs) → HeadersAreHidden (redact_headers mask is_masked cfg headers).0
    unfolding redact_headers
    headers-AreHidden headers =
        rw (on, redact_headers) (pairs-IsHidden mask is_masked masked _ headers)

    headers_same :
        (headers : HeaderPairs)
        → (redact_headers mask is_masked cfg headers).1 ≡ false
        → (redact_headers mask is_masked cfg headers).0 ≡ headers
    unfolding redact_headers
    headers_same headers h =
        rw (on, redact_headers) (pairs_same mask is_masked _ headers (rw (on, redact_headers) at h))

    query-IsHidden :
        (query : List (Text × Text)) → QueryIsHidden (redact_query mask is_masked cfg query).0
    unfolding redact_query
    query-IsHidden query = rw (on, redact_query) (pairs-IsHidden mask is_masked masked _ query)

    query_same :
        (query : List (Text × Text))
        → (redact_query mask is_masked cfg query).1 ≡ false
        → (redact_query mask is_masked cfg query).0 ≡ query
    unfolding redact_query
    query_same query h =
        rw (on, redact_query) (pairs_same mask is_masked _ query (rw (on, redact_query) at h))

    written_same :
        (body : Bytes) (o : Option Json)
        → (rewritten mask is_masked dumps cfg.json_key_patterns body o).1 ≡ false
        → (rewritten mask is_masked dumps cfg.json_key_patterns body o).0 ≡ some body
    written_same body none h = refl
    written_same body (some j) h =
        elim (Bool-cases (walk mask is_masked cfg.json_key_patterns false j).1) [
          | inl b ↦ absurd (cc (rw b at h))
          | inr b ↦ rw b refl
        ]

    body_same :
        (body : Option Bytes)
        → (redact_json_body mask is_masked loads dumps blank cfg body).1 ≡ false
        → (redact_json_body mask is_masked loads dumps blank cfg body).0 ≡ body
    unfolding redact_json_body
    body_same none h = refl
    body_same (some body) h = elim (Bool-cases (blank body)) [
      | inl b ↦ rw (on, b, redact_json_body) refl
      | inr b ↦
          rw (on, b, redact_json_body)
            (written_same body (loads body) (rw (on, b, redact_json_body) at h))
    ]

    rewritten-some :
        (body : Bytes) (o : Option Json)
        → (rewritten mask is_masked dumps cfg.json_key_patterns body o).0
          ≡ some (
              or_empty mask is_masked quote_plus loads dumps blank
                (rewritten mask is_masked dumps cfg.json_key_patterns body o).0)
    rewritten-some body none = refl
    rewritten-some body (some j) =
        elim (Bool-cases (walk mask is_masked cfg.json_key_patterns false j).1) [
          | inl b ↦ rw b refl
          | inr b ↦ rw b refl
        ]

    json_body_some :
        (body : Bytes)
        → (redact_json_body mask is_masked loads dumps blank cfg (some body)).0
          ≡ some (
              or_empty mask is_masked quote_plus loads dumps blank
                (redact_json_body mask is_masked loads dumps blank cfg (some body)).0)
    unfolding redact_json_body
    json_body_some body = elim (Bool-cases (not cfg.enabled || blank body)) [
      | inl b ↦ rw b refl
      | inr b ↦ rw b (rewritten-some body (loads body))
    ]

    or_cases : (a b c : Bool) → ((a || b || c) ≡ true) ⊎ ((a ≡ false) × (b ≡ false) × (c ≡ false))
    or_cases true b c = inl refl
    or_cases false true c = inl refl
    or_cases false false true = inl refl
    or_cases false false false = inr (refl, refl, refl)

    two_of_three : (a b : Bool) → (a || b || false) ≡ true → (a || b) ≡ true
    two_of_three a b e = ground (arith, e)

    request-IsRedacted :
        (request : NormalizedRequest)
        → RequestIsRedacted
            (some (redact_request mask is_masked quote_plus loads dumps blank cfg request).0)
    unfolding redact_request
    request-IsRedacted request =
        let h = headers-AreHidden request.headers in
        let q = query-IsHidden request.query in
        let b = body-BodyIsClean request.body in
        elim (or_cases (redact_headers mask is_masked cfg request.headers).1
          (redact_json_body mask is_masked loads dumps blank cfg request.body).1
          (redact_query mask is_masked cfg request.query).1) [
            | inl e ↦ rw e (h, q, b)
            | inr e ↦ rw e.0 (
                rw e.1 (
                  rw e.2 (
                    subst HeadersAreHidden (headers_same request.headers e.0) h,
                    subst QueryIsHidden (query_same request.query e.2) q,
                    subst BodyIsClean (body_same request.body e.1) b,
                  )))
          ]

    response-IsRedacted :
        (response : NormalizedResponse)
        → ResponseIsRedacted
            (some (redact_response mask is_masked quote_plus loads dumps blank cfg response).0)
    unfolding redact_response
    response-IsRedacted response =
        let h = headers-AreHidden response.headers in
        let b = body-BodyIsClean response.body in
        elim (or_cases (redact_headers mask is_masked cfg response.headers).1
          (redact_json_body mask is_masked loads dumps blank cfg response.body).1 false) [
            | inl e ↦ rw (two_of_three _ _ e) (h, b)
            | inr e ↦ rw e.0 (
                rw e.1 (
                  subst HeadersAreHidden (headers_same response.headers e.0) h,
                  subst BodyIsClean (body_same response.body e.1) b,
                ))
          ]

    message-BodyIsClean :
        (m : WebSocketMessage)
        → BodyIsClean
            (some (redact_ws_message mask is_masked quote_plus loads dumps blank cfg m).0.payload)
    unfolding redact_ws_message
    message-BodyIsClean m =
        let b = body-BodyIsClean (some m.payload) in
        elim (Bool-cases
          (redact_json_body mask is_masked loads dumps blank cfg (some m.payload)).1) [
            | inl e ↦ rw e (subst BodyIsClean (json_body_some m.payload) b)
            | inr e ↦ rw e (subst BodyIsClean (body_same (some m.payload) e) b)
          ]

    messages-AreClean :
        (ms : List WebSocketMessage)
        → All
            (λ m. BodyIsClean (some m.payload))
            (map (λ m. (redact_ws_message mask is_masked quote_plus loads dumps blank cfg m).0) ms)
    messages-AreClean [] = tt
    messages-AreClean (m ∷ ms) = (message-BodyIsClean m, messages-AreClean ms)

    when_on : (x y : FlowRecord) → (if not cfg.enabled then x else y) ≡ y
    when_on x y = ap (λ b. if not b then x else y) on

    over_request :
        (o : Option NormalizedRequest)
        → RequestIsRedacted (
            over mask is_masked quote_plus loads dumps blank
              (redact_request mask is_masked quote_plus loads dumps blank cfg)
              o)
    over_request none = tt
    over_request (some request) = request-IsRedacted request

    over_response :
        (o : Option NormalizedResponse)
        → ResponseIsRedacted (
            over mask is_masked quote_plus loads dumps blank
              (redact_response mask is_masked quote_plus loads dumps blank cfg)
              o)
    over_response none = tt
    over_response (some response) = response-IsRedacted response

    -- With redaction on, no header and no query value of a redacted record that a pattern names
    -- is left in the clear, nor is a text, number or boolean of its JSON bodies that stands
    -- under a key that a pattern names, itself or in lists; of an object that stands there,
    -- only what its own keys name is masked. It is so in the request, in the response and in
    -- websocket frames. The test for a masked value knows a mask, and what is read of a
    -- redacted body is what was written.
    pub redact_record-IsRedacted :
        (r : FlowRecord)
        → IsRedacted (redact_record mask is_masked quote_plus loads dumps blank cfg r)
    unfolding redact_record
    redact_record-IsRedacted r =
        subst IsRedacted (sym (when_on _ _))
          (over_request r.request, over_response r.response, messages-AreClean r.ws_messages)
