-- ===== src/Engine/Evaluator/Buffering.antt =====
-- When a response is buffered, and what is left of that decision in provenance.
use pporlock.Base.{
  ℕ, ◌+◌, ◌≡◌, refl, Bool, not, ◌&&◌, Option, contains, length, text_eq, arith, Bool-cases, inl,
  inr, if◌then◌else◌, length-append,
}
use pporlock.Base.Text.{Text, non_empty}
use pporlock.Engine.Provenance.{Builder, note, record_entry}
use pporlock.Engine.Evaluator.{Evaluator}
use pporlock.Engine.Evaluator.Response.{bare_media, decide_buffering, over}

-- the response may be held in memory
abbrev pub may_buffer : Evaluator → Option Text → Option ℕ → Bool → Bool
may_buffer e content_type content_length wanted =
    wanted
    && not (over content_length e.max_buffer_bytes)
    && not (
        non_empty (bare_media content_type)
        && not (contains e.buffer_types (bare_media content_type)))

-- A response is buffered exactly when some transform wants its body, its declared length, if any, is
-- within the bound and its media type, if any, is on the list; the decision leaves one entry and no
-- note when it is, and one note and no entry when it is streamed.
pub decide_buffering_lem :
    (e : Evaluator) (content_type : Option Text) (content_length : Option ℕ) (wanted : Bool)
    (b : Builder)
    → ((decide_buffering e content_type content_length wanted b).0
        ≡ may_buffer e content_type content_length wanted)
      × (length ((decide_buffering e content_type content_length wanted b).1).entries
          ≡ length b.entries + (if may_buffer e content_type content_length wanted then 1 else 0))
      × (length ((decide_buffering e content_type content_length wanted b).1).notes
          ≡ length b.notes + (if may_buffer e content_type content_length wanted then 0 else 1))
unfolding decide_buffering note record_entry
decide_buffering_lem e content_type content_length wanted b = elim (Bool-cases wanted) [
  | inr e₁ ↦ rw e₁ (refl, omega arith, length-append b.notes _)
  | inl e₁ ↦ rw e₁ (elim (Bool-cases (over content_length e.max_buffer_bytes)) [
    | inl e₂ ↦ rw e₂ (refl, omega arith, length-append b.notes _)
    | inr e₂ ↦
        rw e₂
          (elim (Bool-cases (
            non_empty (bare_media content_type)
            && not (contains e.buffer_types (bare_media content_type)))) [
              | inl e₃ ↦ rw e₃ (refl, omega arith, length-append b.notes _)
              | inr e₃ ↦ rw e₃ (refl, length-append b.entries _, omega arith)
            ])
  ])
]
