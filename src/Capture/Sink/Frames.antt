-- ===== src/Capture/Sink/Frames.antt =====
-- The retention of WebSocket frames: what `_trim_ws_messages` keeps, and the ring's accounting for
-- a record that grows frame by frame.
use pporlock.Base.{
  ℕ, zero, suc, subst, ◌+◌, ◌-◌, ◌≤◌, ◌<◌, ◌≡◌, refl, ◌∙◌, sym, none, some, List, [], ◌∷◌, length,
  drop, ltb, arith, Bool-cases, Option-cases, inl, inr, sum_by-append, text_eq,
}
use pporlock.Base.Int.{pos, ◌-ℤ◌}
use pporlock.Base.Text.{Text}
use pporlock.Base.Dict
use pporlock.Base.Dict.{Dict, NodupKeys, get-set}
use pporlock.Engine.Models.{WebSocketMessage}
use pporlock.Capture.Records.{FlowRecord, size_bytes, payload_bytes}
use pporlock.Capture.Ring
use pporlock.Capture.Ring.{RingBuffer}
use pporlock.Capture.Ring.Totals.{get-Named}
use pporlock.Capture.Ring.Bounds.{IsBounded, add-IsBounded}
use pporlock.Capture.Ring.Held.{growth, adjust-IsBounded, adjust_absent}
use pporlock.Capture.Sink.{
  RingSink, trim_from, trim_ws_messages, capped_frame, ensure, holder, write_back, append_frame,
  record_websocket_message,
}

-- What the loop keeps: the frames from the `n`-th on, for the least `n` that fits.
pub record Trims (max_bytes released dropped : ℕ) (msgs : List WebSocketMessage)
    (t : List WebSocketMessage × ℕ × ℕ) : Type 0 where
  pub n : ℕ
  pub suffix : t.0 ≡ drop n msgs
  pub counted : t.2 ≡ dropped + n
  pub balanced : t.1 + payload_bytes t.0 ≡ released + payload_bytes msgs
  pub fits : payload_bytes t.0 ≤ max_bytes
  pub needed : (m : ℕ) → m < n → max_bytes < payload_bytes (drop m msgs)

module _ (max_bytes total : ℕ) where
  trim_done :
      (released dropped : ℕ) (msgs : List WebSocketMessage)
      → payload_bytes msgs ≤ max_bytes
      → Trims max_bytes released dropped msgs (msgs, released, dropped)
  trim_done released dropped msgs h = record {
    n = 0;
    suffix = refl;
    counted = omega arith;
    balanced = refl;
    fits = h;
    needed = λ m lt. absurd (omega arith);
  }

  trim_more :
      (released dropped : ℕ) (m : WebSocketMessage) (rest : List WebSocketMessage)
      (t : List WebSocketMessage × ℕ × ℕ)
      → max_bytes < payload_bytes (m ∷ rest)
      → Trims max_bytes (released + length m.payload) (dropped + 1) rest t
      → Trims max_bytes released dropped (m ∷ rest) t
  unfolding payload_bytes
  trim_more released dropped m rest t over h = record {
    n = suc h.n;
    suffix = h.suffix;
    counted = omega (arith, h.counted);
    balanced = omega (arith, h.balanced);
    fits = h.fits;
    needed = elim [ zero ↦ λ _. over | suc k ↦ λ lt. h.needed k (omega arith) ];
  }

  trim_from-Trims :
      (released dropped : ℕ) (msgs : List WebSocketMessage)
      → released + payload_bytes msgs ≡ total
      → Trims max_bytes released dropped msgs (trim_from total max_bytes released dropped msgs)
  unfolding trim_from payload_bytes
  trim_from-Trims released dropped [] e = trim_done released dropped [] (omega arith)
  trim_from-Trims released dropped (m ∷ rest) e =
      elim (Bool-cases (ltb max_bytes (total - released))) [
        | inl over ↦ rw over (
            trim_more released dropped m rest _ (ground arith)
              (trim_from-Trims (released + length m.payload) (dropped + 1) rest (omega arith)))
        | inr fits ↦ rw fits (trim_done released dropped (m ∷ rest) (ground arith))
      ]

-- What `_trim_ws_messages` makes of a record: the `n` oldest frames are gone and counted, and the
-- released bytes are theirs.
pub record Retains (max_bytes : ℕ) (r : FlowRecord) (t : FlowRecord × ℕ) : Type 0 where
  pub n : ℕ
  pub suffix : t.0.ws_messages ≡ drop n r.ws_messages
  pub counted : t.0.ws_dropped ≡ r.ws_dropped + n
  pub balanced : t.1 + payload_bytes t.0.ws_messages ≡ payload_bytes r.ws_messages
  pub fits : payload_bytes t.0.ws_messages ≤ max_bytes
  pub needed : (m : ℕ) → m < n → max_bytes < payload_bytes (drop m r.ws_messages)

-- `_trim_ws_messages` drops as few of the oldest frames as bring the payload within the bound,
-- counts each, and returns exactly the bytes that went.
pub trim_ws_messages-Retains :
    (max_bytes : ℕ) (r : FlowRecord) → Retains max_bytes r (trim_ws_messages max_bytes r)
unfolding trim_ws_messages
trim_ws_messages-Retains max_bytes r =
    let h =
      trim_from-Trims max_bytes (payload_bytes r.ws_messages) 0 0 r.ws_messages (omega arith) in
    record {
      n = h.n;
      suffix = h.suffix;
      counted = omega (arith, h.counted);
      balanced = omega (arith, h.balanced);
      fits = h.fits;
      needed = h.needed;
    }

module _ (m : WebSocketMessage) (max_body max_ws : ℕ) (old : FlowRecord) where
  abbrev pub frame : WebSocketMessage
  frame = capped_frame max_body m

  abbrev pub trimmed : FlowRecord × ℕ
  trimmed = trim_ws_messages max_ws (append_frame frame old)

  payload-append :
      payload_bytes (append_frame frame old).ws_messages
      ≡ payload_bytes old.ws_messages + length frame.payload
  unfolding append_frame payload_bytes
  payload-append = sum_by-append (λ f. length f.payload) old.ws_messages (frame ∷ []) ∙ omega arith

  -- only the frames of the record differ
  size_of_rest :
      size_bytes trimmed.0 + payload_bytes old.ws_messages
      ≡ size_bytes old + payload_bytes trimmed.0.ws_messages
  unfolding size_bytes trim_ws_messages append_frame
  size_of_rest = omega arith

  size-trimmed : size_bytes trimmed.0 + trimmed.1 ≡ size_bytes old + length frame.payload
  size-trimmed =
      let h = trim_ws_messages-Retains max_ws (append_frame frame old) in
      omega (arith, h.balanced, payload-append, size_of_rest)

  delta-growth :
      (k : Text) (r : RingBuffer)
      → pos (length frame.payload) -ℤ pos trimmed.1 ≡ growth k old trimmed.0 r
  unfolding ◌-ℤ◌
  delta-growth k r = ground (arith, size-trimmed)

  flow_id-trimmed : trimmed.0.flow_id ≡ old.flow_id
  unfolding trim_ws_messages append_frame
  flow_id-trimmed = refl

pub ensure-IsBounded :
    (m : WebSocketMessage) (r : RingBuffer) → IsBounded r → IsBounded (ensure m r)
unfolding ensure
ensure-IsBounded m r b = elim (Option-cases (Ring.get m.flow_id r)) [
  | inl e ↦ rw (e, ensure) (add-IsBounded _ r b.valid)
  | inr (old, e) ↦ rw (e, ensure) b
]

module _ (m : WebSocketMessage) (max_body max_ws : ℕ) (r : RingBuffer) where
  -- the rest of the call for the object `held`
  abbrev pub stored_with : FlowRecord → RingBuffer
  stored_with held =
      let t = trimmed m max_body max_ws held in
      Ring.adjust m.flow_id (pos (length (capped_frame max_body m).payload) -ℤ pos t.1)
        (write_back m.flow_id t.0 r)

  stored_absent :
      (held : FlowRecord)
      → Dict.get m.flow_id r.records ≡ none
      → IsBounded r
      → IsBounded (stored_with held)
  unfolding write_back
  stored_absent held e b = rw (e, write_back) (rw (adjust_absent m.flow_id _ r e) b)

  stored_present :
      (old : FlowRecord)
      → Dict.get m.flow_id r.records ≡ some old
      → IsBounded r
      → IsBounded (stored_with old)
  unfolding write_back
  stored_present old e b =
      let same =
        flow_id-trimmed m max_body max_ws old ∙ get-Named m.flow_id old r.records b.valid.named e in
      rw (e, write_back)
        (rw (delta-growth m max_body max_ws old m.flow_id r)
          (adjust-IsBounded m.flow_id old (trimmed m max_body max_ws old).0 r b e same))

  stored-IsBounded : IsBounded r → IsBounded (stored_with (holder m r))
  unfolding holder
  stored-IsBounded b = elim (Option-cases (Dict.get m.flow_id r.records)) [
    | inl e ↦ stored_absent (holder m r) e b
    | inr (old, e) ↦
        let found : holder m r ≡ old = rw (e, holder) in
        subst (λ held. IsBounded (stored_with held)) (sym found) (stored_present old e b)
  ]

pub ring-record_websocket_message :
    (m : WebSocketMessage) (s : RingSink)
    → (record_websocket_message m s).ring
      ≡ stored_with m s.max_body_bytes s.max_ws_bytes (ensure m s.ring) (holder m (ensure m s.ring))
unfolding record_websocket_message
ring-record_websocket_message m s = elim (Bool-cases s.recording) [ inl e ↦ rw e | inr e ↦ rw e ]

-- A frame of any size keeps the ring's byte counter exact and both bounds met, whether its flow was
-- in the ring or not.
pub record_websocket_message-IsBounded :
    (m : WebSocketMessage) (s : RingSink)
    → IsBounded s.ring
    → IsBounded (record_websocket_message m s).ring
record_websocket_message-IsBounded m s b = rw (ring-record_websocket_message m s) (
    stored-IsBounded m s.max_body_bytes s.max_ws_bytes (ensure m s.ring)
      (ensure-IsBounded m s.ring b))
