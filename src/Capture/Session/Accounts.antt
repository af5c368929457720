-- ===== src/Capture/Session/Accounts.antt =====
-- Every flow that was handed to the writer is committed, counted as dropped, or still on its way.
use pporlock.Base.{
  ℕ, suc, ◌+◌, ◌≡◌, refl, ap, Bool, true, false, Option, none, some, List, [], ◌∷◌, ◌++◌, length,
  length-append, ltb, if◌then◌else◌, arith, Bool-cases, inl, inr,
}
use pporlock.Capture.Records.{FlowRecord}
use pporlock.Capture.Session.Rows.{Encoded}
use pporlock.Capture.Session.Writer.{
  Coder, Event, Machine, SessionWriter, Stage, ask_stop, commit, commit_batch, committed,
  encode_head, encode_one, encode_with, end_collection, enqueue, run, step, take_one, taken,
}

-- the flows that an event hands over
abbrev pub offers : Event → ℕ
offers (Event.enqueued r) = 1
offers _ = 0

abbrev pub all_offers : List Event → ℕ
all_offers [] = 0
all_offers (e ∷ es) = offers e + all_offers es

-- the flows among what waits in the queue
abbrev pub waiting : List (Option FlowRecord) → ℕ
waiting [] = 0
waiting (none ∷ rest) = waiting rest
waiting (some r ∷ rest) = suc (waiting rest)

-- what was counted as dropped, and what is on its way
abbrev pub load : Machine → ℕ
load m = m.writer.dropped + waiting m.writer.queue + length m.batch + length m.encoded

abbrev stored_batch : List FlowRecord → Machine → List Encoded
stored_batch [] m = m.encoded
stored_batch (_ ∷ _) m = []

abbrev stored_stage : Stage → Machine → List Encoded
stored_stage Stage.flushing m = stored_batch m.batch m
stored_stage _ m = []

-- what a step commits
abbrev pub stored : Event → Machine → List Encoded
stored (Event.commit_turn true) m = stored_stage m.stage m
stored _ m = []

waiting-append :
    (q : List (Option FlowRecord)) (o : Option FlowRecord)
    → waiting (q ++ o ∷ []) ≡ waiting q + waiting (o ∷ [])
waiting-append [] o = omega arith
waiting-append (none ∷ q) o = waiting-append q o
waiting-append (some r ∷ q) o = omega (arith, waiting-append q o)

enqueue_load :
    (r : FlowRecord) (w : SessionWriter)
    → 1 + (w.dropped + waiting w.queue) ≡ (enqueue r w).dropped + waiting (enqueue r w).queue
unfolding enqueue
enqueue_load r w = ground (arith, waiting-append w.queue (some r))

ask_stop_load :
    (w : SessionWriter)
    → w.dropped + waiting w.queue ≡ (ask_stop w).dropped + waiting (ask_stop w).queue
unfolding ask_stop
ask_stop_load w = ground (arith, waiting-append w.queue none)

load-taken :
    (q : List (Option FlowRecord)) (m : Machine) → m.writer.queue ≡ q → load m ≡ load (taken q m)
load-taken [] m e = refl
load-taken (none ∷ q) m e = omega (arith, ap waiting e)
load-taken (some r ∷ q) m e = omega (arith, ap waiting e, length-append m.batch (r ∷ []))

take_load : (s : Stage) (m : Machine) → load m ≡ load (take_one s m)
take_load Stage.collecting m = elim (Bool-cases (ltb (length m.batch) m.writer.batch_size)) [
  | inl b ↦ rw b (load-taken m.writer.queue m refl)
  | inr b ↦ rw b refl
]
take_load Stage.flushing m = refl
take_load Stage.finished m = refl

load-committed :
    (ok : Bool) (es : List Encoded) (m : Machine)
    → m.encoded ≡ es
    → load m ≡ load (committed ok es m) + (if ok then length es else 0)
load-committed true [] m e = omega arith
load-committed false [] m e = omega arith
load-committed true (x ∷ es) m e = omega (arith, ap length e)
load-committed false (x ∷ es) m e = omega (arith, ap length e)

batch_load :
    (ok : Bool) (rs : List FlowRecord) (m : Machine)
    → load m ≡ load (commit_batch ok rs m) + (if ok then length (stored_batch rs m) else 0)
batch_load ok [] m = load-committed ok m.encoded m refl
batch_load true (r ∷ rs) m = omega arith
batch_load false (r ∷ rs) m = omega arith

load-commit :
    (ok : Bool) (s : Stage) (m : Machine)
    → load m ≡ load (commit ok s m) + (if ok then length (stored_stage s m) else 0)
load-commit ok Stage.flushing m = batch_load ok m.batch m
load-commit true Stage.collecting m = omega arith
load-commit false Stage.collecting m = omega arith
load-commit true Stage.finished m = omega arith
load-commit false Stage.finished m = omega arith

end_load : (s : Stage) (m : Machine) → load m ≡ load (end_collection s m)
end_load Stage.collecting m = refl
end_load Stage.flushing m = refl
end_load Stage.finished m = refl

module _ (c : Coder) where
  encode_load :
      (rs : List FlowRecord) (m : Machine) → m.batch ≡ rs → load m ≡ load (encode_head c rs m)
  encode_load [] m e = refl
  encode_load (r ∷ rs) m e = elim (Bool-cases m.writer.capped) [
    | inl b ↦ rw b (omega (arith, ap length e))
    | inr b ↦ rw b (
        omega
          (arith, ap length e, length-append m.encoded (encode_with c (m.writer.seq + 1) r ∷ [])))
  ]

  load-encode_one : (s : Stage) (m : Machine) → load m ≡ load (encode_one c s m)
  load-encode_one Stage.collecting m = refl
  load-encode_one Stage.flushing m = encode_load m.batch m refl
  load-encode_one Stage.finished m = refl

  step-load :
      (e : Event) (m : Machine) → offers e + load m ≡ load (step c e m) + length (stored e m)
  unfolding step
  step-load (Event.enqueued r) m = omega (arith, enqueue_load r m.writer)
  step-load Event.stop_asked m = omega (arith, ask_stop_load m.writer)
  step-load Event.take_turn m = omega (arith, take_load m.stage m)
  step-load Event.interval_over m = omega (arith, end_load m.stage m)
  step-load Event.encode_turn m = omega (arith, load-encode_one m.stage m)
  step-load (Event.commit_turn true) m = omega (arith, load-commit true m.stage m)
  step-load (Event.commit_turn false) m = omega (arith, load-commit false m.stage m)

  -- what a run commits, in its order
  abbrev pub history : List Event → Machine → List Encoded
  history [] m = []
  history (e ∷ es) m = stored e m ++ history es (step c e m)

  pub run-load :
      (es : List Event) (m : Machine)
      → all_offers es + load m ≡ load (run c es m) + length (history es m)
  unfolding run
  run-load [] m = omega arith
  run-load (e ∷ es) m = omega (
    arith,
    step-load e m,
    run-load es (step c e m),
    length-append (stored e m) (history es (step c e m)),
  )
