-- ===== src/Capture/Sink/Retention.antt =====
-- What the ring shows of a socket after a frame: the newest frames that fit the bound.
use pporlock.Base.{
  ℕ, ◌≡◌, refl, sym, subst, some, [], ◌∷◌, arith, Bool-cases, Option-cases, inl, inr, text_eq,
}
use pporlock.Base.Int.{ℤ, pos, eqb_ℤ}
use pporlock.Base.Text.{Text}
use pporlock.Base.Dict
use pporlock.Base.Dict.{Dict, NodupKeys, get-set, set-NodupKeys}
use pporlock.Engine.Models.{WebSocketMessage}
use pporlock.Capture.Records.{FlowRecord}
use pporlock.Capture.Ring
use pporlock.Capture.Ring.{RingBuffer, over, pop_oldest, evict_from, evict, adjust}
use pporlock.Capture.Ring.Bounds.{IsBounded}
use pporlock.Capture.Sink.{
  RingSink, capped_frame, ensure, holder, write_back, append_frame, record_websocket_message,
}
use pporlock.Capture.Sink.Frames.{
  trimmed, stored_with, Retains, trim_ws_messages-Retains, ring-record_websocket_message,
  ensure-IsBounded,
}

module _ (k : Text) (x : FlowRecord) where
  -- what is held after an eviction was held before
  get-evict_from :
      (d : Dict Text FlowRecord) (r : RingBuffer)
      → r.records ≡ d
      → NodupKeys d
      → Dict.get k (evict_from d r).records ≡ some x
      → Dict.get k d ≡ some x
  unfolding evict_from Dict.get
  get-evict_from [] r e u h = rw e at h
  get-evict_from ((j, w) ∷ d) r e u h = elim (Bool-cases (over r)) [
    | inl more ↦
        let h' : Dict.get k (evict_from d (pop_oldest r w d)).records ≡ some x = rw more at h in
        let later = get-evict_from d (pop_oldest r w d) refl u.1 h' in
        ground (arith, text_eq.beq_iff j k)
    | inr done ↦ let h' : Dict.get k r.records ≡ some x = rw done at h in rw e at h'
  ]

  get-adjust :
      (delta : ℤ) (r : RingBuffer)
      → NodupKeys r.records
      → Dict.get k (adjust k delta r).records ≡ some x
      → Dict.get k r.records ≡ some x
  unfolding adjust
  get-adjust delta r u h = elim (Option-cases (Dict.get k r.records)) [
    | inl e ↦ rw (e, adjust) at h
    | inr (old, e) ↦ elim (Bool-cases (eqb_ℤ delta (pos 0))) [
      | inl still ↦ rw (e, still, adjust) at h
      | inr moved ↦ get-evict_from r.records _ refl u (rw (e, moved, adjust) at h)
    ]
  ]

module _ (m : WebSocketMessage) (max_body max_ws : ℕ) (r : RingBuffer) (b : IsBounded r) where
  get-stored :
      (held x : FlowRecord)
      → Dict.get m.flow_id (stored_with m max_body max_ws r held).records ≡ some x
      → x ≡ (trimmed m max_body max_ws held).0
  unfolding write_back
  get-stored held x h = elim (Option-cases (Dict.get m.flow_id r.records)) [
    | inl e ↦
        let later : Dict.get m.flow_id r.records ≡ some x =
          get-adjust m.flow_id x _ r b.valid.distinct (rw (e, write_back) at h) in
        ground arith
    | inr (old, e) ↦
        let new = (trimmed m max_body max_ws held).0 in
        let kept =
          get-adjust m.flow_id x _ _ (set-NodupKeys m.flow_id new r.records b.valid.distinct)
            (rw (e, write_back) at h) in
        ground (
          arith,
          kept,
          get-set {V = FlowRecord} m.flow_id m.flow_id new r.records,
          text_eq.beq_iff m.flow_id m.flow_id,
        )
  ]

pub record_websocket_message-Retains :
    (m : WebSocketMessage) (s : RingSink) (x : FlowRecord)
    → IsBounded s.ring
    → Ring.get m.flow_id (record_websocket_message m s).ring ≡ some x
    → (released : ℕ) × Retains s.max_ws_bytes
        (append_frame (capped_frame s.max_body_bytes m) (holder m (ensure m s.ring)))
        (x, released)
unfolding Ring.get
record_websocket_message-Retains m s x b h =
    let r = ensure m s.ring in
    let held = holder m r in
    let t = trimmed m s.max_body_bytes s.max_ws_bytes held in
    let e =
      get-stored m s.max_body_bytes s.max_ws_bytes r (ensure-IsBounded m s.ring b) held x
        (rw (ring-record_websocket_message m s) at h) in
    let whole = append_frame (capped_frame s.max_body_bytes m) held in
    (
      t.1,
      subst (λ y. Retains s.max_ws_bytes whole (y, t.1)) (sym e)
          (trim_ws_messages-Retains s.max_ws_bytes whole),
    )
