-- ===== src/Capture/Session/Bounds.antt =====
-- The bounds of the queue, of a batch and of the file.
use pporlock.Base.{
  ◌≤◌, ◌<◌, ◌≡◌, refl, ap, Bool, true, false, Option, none, some, List, [], ◌∷◌, length,
  length-append, ltb, arith, Bool-cases, inl, inr, ltb→lt,
}
use pporlock.Capture.Records.{FlowRecord}
use pporlock.Capture.Session.Rows.{Encoded}
use pporlock.Capture.Session.Writer.{
  Coder, Event, Machine, SessionWriter, Stage, ask_stop, commit, commit_batch, committed,
  encode_head, encode_one, end_collection, enqueue, run, step, take_one, taken,
}

-- the bounds of the writer: a bound of 0 on the queue is none; the session is full exactly from its
-- bound on
pub record InBounds (w : SessionWriter) : Type 0 where
  pub queue : 0 < w.queue_max → length w.queue ≤ w.queue_max
  pub open_below : w.capped ≡ false → 0 < w.max_bytes → w.bytes_written < w.max_bytes
  pub full_above : w.capped ≡ true → w.max_bytes ≤ w.bytes_written

pub record IsBounded (m : Machine) : Type 0 where
  pub writer : InBounds m.writer
  pub batch : length m.batch ≤ m.writer.batch_size

enqueue-InBounds : (r : FlowRecord) (w : SessionWriter) → InBounds w → InBounds (enqueue r w)
unfolding enqueue
enqueue-InBounds r w h = ground (arith, length-append w.queue (some r ∷ []))

ask_stop-InBounds : (w : SessionWriter) → InBounds w → InBounds (ask_stop w)
unfolding ask_stop
ask_stop-InBounds w h = ground (arith, length-append w.queue (none ∷ []))

batch_size-enqueue : (r : FlowRecord) (w : SessionWriter) → (enqueue r w).batch_size ≡ w.batch_size
unfolding enqueue
batch_size-enqueue r w = ground arith

batch_size-ask_stop : (w : SessionWriter) → (ask_stop w).batch_size ≡ w.batch_size
unfolding ask_stop
batch_size-ask_stop w = ground arith

taken-IsBounded :
    (q : List (Option FlowRecord)) (m : Machine)
    → m.writer.queue ≡ q
    → length m.batch < m.writer.batch_size
    → IsBounded m
    → IsBounded (taken q m)
taken-IsBounded [] m e lt h = h
taken-IsBounded (none ∷ q) m e lt h = ground (arith, ap length e)
taken-IsBounded (some r ∷ q) m e lt h = ground (arith, ap length e, length-append m.batch (r ∷ []))

take-IsBounded : (s : Stage) (m : Machine) → IsBounded m → IsBounded (take_one s m)
take-IsBounded Stage.collecting m h = elim (Bool-cases (ltb (length m.batch) m.writer.batch_size)) [
  | inl b ↦ rw b (taken-IsBounded m.writer.queue m refl (ltb→lt _ _ b) h)
  | inr b ↦ rw b h
]
take-IsBounded Stage.flushing m h = h
take-IsBounded Stage.finished m h = h

committed-IsBounded :
    (ok : Bool) (es : List Encoded) (m : Machine) → IsBounded m → IsBounded (committed ok es m)
committed-IsBounded ok [] m h = record { writer = h.writer; batch = h.batch }
committed-IsBounded true (e ∷ es) m h = record {
  writer = record {
    queue = h.writer.queue;
    open_below = h.writer.open_below;
    full_above = h.writer.full_above;
  };
  batch = h.batch;
}
committed-IsBounded false (e ∷ es) m h = record {
  writer = record {
    queue = h.writer.queue;
    open_below = h.writer.open_below;
    full_above = h.writer.full_above;
  };
  batch = h.batch;
}

commit_batch-IsBounded :
    (ok : Bool) (rs : List FlowRecord) (m : Machine)
    → IsBounded m
    → IsBounded (commit_batch ok rs m)
commit_batch-IsBounded ok [] m h = committed-IsBounded ok m.encoded m h
commit_batch-IsBounded ok (r ∷ rs) m h = h

commit-IsBounded : (ok : Bool) (s : Stage) (m : Machine) → IsBounded m → IsBounded (commit ok s m)
commit-IsBounded ok Stage.flushing m h = commit_batch-IsBounded ok m.batch m h
commit-IsBounded ok Stage.collecting m h = h
commit-IsBounded ok Stage.finished m h = h

end-IsBounded : (s : Stage) (m : Machine) → IsBounded m → IsBounded (end_collection s m)
end-IsBounded Stage.collecting m h = record { writer = h.writer; batch = h.batch }
end-IsBounded Stage.flushing m h = h
end-IsBounded Stage.finished m h = h

module _ (c : Coder) where
  encode-IsBounded :
      (rs : List FlowRecord) (m : Machine)
      → m.batch ≡ rs
      → IsBounded m
      → IsBounded (encode_head c rs m)
  encode-IsBounded [] m e h = h
  encode-IsBounded (r ∷ rs) m e h = ground (arith, ap length e)

  encode_one-IsBounded : (s : Stage) (m : Machine) → IsBounded m → IsBounded (encode_one c s m)
  encode_one-IsBounded Stage.collecting m h = h
  encode_one-IsBounded Stage.flushing m h = encode-IsBounded m.batch m refl h
  encode_one-IsBounded Stage.finished m h = h

  step-IsBounded : (e : Event) (m : Machine) → IsBounded m → IsBounded (step c e m)
  unfolding step
  step-IsBounded (Event.enqueued r) m h = record {
    writer = enqueue-InBounds r m.writer h.writer;
    batch = omega (arith, batch_size-enqueue r m.writer, h.batch);
  }
  step-IsBounded Event.stop_asked m h = record {
    writer = ask_stop-InBounds m.writer h.writer;
    batch = omega (arith, batch_size-ask_stop m.writer, h.batch);
  }
  step-IsBounded Event.take_turn m h = take-IsBounded m.stage m h
  step-IsBounded Event.interval_over m h = end-IsBounded m.stage m h
  step-IsBounded Event.encode_turn m h = encode_one-IsBounded m.stage m h
  step-IsBounded (Event.commit_turn ok) m h = commit-IsBounded ok m.stage m h

  pub run-IsBounded : (es : List Event) (m : Machine) → IsBounded m → IsBounded (run c es m)
  unfolding run
  run-IsBounded [] m h = h
  run-IsBounded (e ∷ es) m h = run-IsBounded es (step c e m) (step-IsBounded e m h)
