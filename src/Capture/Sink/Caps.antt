-- ===== src/Capture/Sink/Caps.antt =====
-- Body caps and the flags of a completed flow.
use pporlock.Base.{
  ℕ, zero, suc, ◌≤◌, ◌≡◌, refl, ap, Bool, true, false, ◌||◌, Option, none, some, [], ◌∷◌, length,
  take, ltb, arith, Bool-cases, inl, inr, ◌↔◌, ◌⊎◌,
}
use pporlock.Base.Int.{ℤ}
use pporlock.Base.Text.{Text}
use pporlock.Engine.Models.{Bytes, NormalizedRequest, NormalizedResponse}
use pporlock.Engine.Provenance.{Provenance, Action}
use pporlock.Capture.Records.{FlowRecord, truncate}
use pporlock.Capture.Ring
use pporlock.Capture.Ring.Bounds.{IsBounded, IsValid, add-IsBounded}
use pporlock.Capture.Sink.{
  RingSink, cap_request, cap_response, map_option, http_record, record_http, emit,
  short_circuit_action, was_modified, is_block, is_substituted,
}

take_all : (cap : ℕ) (b : Bytes) → length b ≤ cap → take cap b ≡ b
take_all zero [] h = refl
take_all zero (x ∷ b) h = absurd (omega arith)
take_all (suc cap) [] h = refl
take_all (suc cap) (x ∷ b) h = ap (◌∷◌ x) (take_all cap b (omega arith))

-- `truncate` in one equation: the first `cap` bytes, flagged exactly where some are gone
abbrev longer : ℕ → Option Bytes → Bool
longer cap none = false
longer cap (some b) = ltb cap (length b)

truncate_lem :
    (b : Option Bytes) (cap : ℕ) → truncate b cap ≡ (map_option (take cap) b, longer cap b)
unfolding truncate
truncate_lem none cap = refl
truncate_lem (some b) cap = ground (arith, take_all cap b)

no_cut : (cap : ℕ) (b : Option Bytes) → longer cap b ≡ false → map_option (take cap) b ≡ b
no_cut cap none h = refl
no_cut cap (some b) h = ap some (take_all cap b (ground arith))

pub record Capped (cap : ℕ) (before after : Option Bytes) (flag_before flag_after : Bool)
    : Type 0 where
  pub body : after ≡ map_option (take cap) before
  pub flag : flag_after ≡ (longer cap before || flag_before)

module _ (cap : ℕ) where
  cap_request-Capped :
      (r : NormalizedRequest)
      → Capped cap r.body
          (cap_request cap r).body
          r.body_truncated
          (cap_request cap r).body_truncated
  unfolding cap_request
  cap_request-Capped r = ground (arith, truncate_lem r.body cap, no_cut cap r.body)

  cap_response-Capped :
      (r : NormalizedResponse)
      → Capped cap r.body
          (cap_response cap r).body
          r.body_truncated
          (cap_response cap r).body_truncated
  unfolding cap_response
  cap_response-Capped r = ground (arith, truncate_lem r.body cap, no_cut cap r.body)

  -- Both bodies of a recorded flow are the first `cap` bytes of what came, and each is flagged as
  -- truncated exactly where bytes are gone now or were gone before.
  pub http_record-Capped :
      (now fresh : Text) (resolve_tab : Text → Text → Option ℤ) (q : NormalizedRequest)
      (a : NormalizedResponse) (p : Provenance)
      → (q' : NormalizedRequest) × (a' : NormalizedResponse) × ((http_record cap now fresh
            resolve_tab
            (some q)
            (some a)
            p).request
          ≡ some q')
        × ((http_record cap now fresh resolve_tab (some q) (some a) p).response ≡ some a')
        × Capped cap q.body q'.body q.body_truncated q'.body_truncated
        × Capped cap a.body a'.body a.body_truncated a'.body_truncated
  unfolding http_record
  http_record-Capped now fresh resolve_tab q a p = (
    cap_request cap q,
    cap_response cap a,
    refl,
    refl,
    cap_request-Capped q,
    cap_response-Capped a,
  )

flags :
    (modified : Bool) (o : Option Action)
    → ((is_block o ≡ true) ↔ (o ≡ some Action.block))
      × (((modified || is_substituted o) ≡ true)
          ↔ ((modified ≡ true) ⊎ (o ≡ some Action.map_local) ⊎ (o ≡ some Action.redirect)))
flags modified o = ground arith

-- `blocked` is set exactly for a short circuit by a block. A flow that a file or another address
-- answered is not blocked, and counts as modified.
pub http_record_flags :
    (cap : ℕ) (now fresh : Text) (resolve_tab : Text → Text → Option ℤ)
    (q : Option NormalizedRequest) (a : Option NormalizedResponse) (p : Provenance)
    → let r = http_record cap now fresh resolve_tab q a p in
      ((r.blocked ≡ true) ↔ (short_circuit_action p ≡ some Action.block))
      × ((r.modified ≡ true) ↔ (
          (was_modified p ≡ true)
          ⊎ (short_circuit_action p ≡ some Action.map_local)
          ⊎ (short_circuit_action p ≡ some Action.redirect)))
unfolding http_record
http_record_flags cap now fresh resolve_tab q a p = flags (was_modified p) (short_circuit_action p)

ring-emit : (r : FlowRecord) (s : RingSink) → (emit r s).ring ≡ Ring.add r s.ring
unfolding emit
ring-emit r s = elim (Bool-cases s.recording) [ inl e ↦ rw e | inr e ↦ rw e ]

-- Recording a completed flow keeps the ring's counter exact and both bounds met.
pub record_http-IsBounded :
    (now fresh : Text) (resolve_tab : Text → Text → Option ℤ) (q : Option NormalizedRequest)
    (a : Option NormalizedResponse) (p : Provenance) (s : RingSink)
    → IsValid s.ring
    → IsBounded (record_http now fresh resolve_tab q a p s).ring
unfolding record_http
record_http-IsBounded now fresh resolve_tab q a p s v =
    rw (ring-emit (http_record s.max_body_bytes now fresh resolve_tab q a p) s)
      (add-IsBounded _ s.ring v)
