-- ===== src/Capture/Session/Settled.antt =====
-- What is left when the thread has finished: nothing but what came after the request to stop.
use pporlock.Base.{
  ℕ, zero, suc, ◌+◌, ◌<◌, ◌≡◌, refl, ap, Bool, true, false, Option, none, some, List, [], ◌∷◌,
  length, ltb, if◌then◌else◌, arith, subst, Bool-cases, inl, inr,
}
use pporlock.Capture.Records.{FlowRecord}
use pporlock.Capture.Session.Rows.{Encoded}
use pporlock.Capture.Session.Writer.{
  Coder, Event, Machine, Stage, commit, commit_batch, committed, encode_head, encode_one,
  end_collection, next_stage, run, step, take_one, taken,
}
use pporlock.Capture.Session.Accounts.{all_offers, history, load, offers, run-load, waiting}
use pporlock.Capture.Session.Drain.{Stopping, finishes, left, taking, thread, turn_at, writing}

-- what is on its way, where the thread begins to collect or has finished
abbrev pub Settles : Stage → List FlowRecord → List Encoded → Type 0
Settles Stage.collecting batch encoded = encoded ≡ []
Settles Stage.flushing batch encoded = Unit
Settles Stage.finished batch encoded = (batch ≡ []) × (encoded ≡ [])

abbrev pub IsSettled : Machine → Type 0
IsSettled m = Settles m.stage m.batch m.encoded

abbrev collecting_now : Machine → Machine
collecting_now m = record m { stage = Stage.collecting }

taken-IsSettled :
    (q : List (Option FlowRecord)) (m : Machine)
    → m.encoded ≡ []
    → IsSettled (taken q (collecting_now m))
taken-IsSettled [] m e = e
taken-IsSettled (none ∷ q) m e = tt
taken-IsSettled (some r ∷ q) m e = e

take-IsSettled :
    (s : Stage) (m : Machine)
    → Settles s m.batch m.encoded
    → IsSettled (take_one s (record m { stage = s }))
take-IsSettled Stage.collecting m h = elim (Bool-cases (ltb (length m.batch) m.writer.batch_size)) [
  | inl b ↦ rw b (taken-IsSettled m.writer.queue m h)
  | inr b ↦ rw b h
]
take-IsSettled Stage.flushing m h = h
take-IsSettled Stage.finished m h = h

end-IsSettled :
    (s : Stage) (m : Machine)
    → Settles s m.batch m.encoded
    → IsSettled (end_collection s (record m { stage = s }))
end-IsSettled Stage.collecting m h = tt
end-IsSettled Stage.flushing m h = h
end-IsSettled Stage.finished m h = h

next-Settles : (done : Bool) → Settles (next_stage done) [] []
next-Settles true = (refl, refl)
next-Settles false = refl

committed-IsSettled :
    (ok : Bool) (es : List Encoded) (m : Machine)
    → IsSettled (committed ok es (record m { batch = []; encoded = es }))
committed-IsSettled ok [] m = next-Settles m.done
committed-IsSettled true (e ∷ es) m = next-Settles m.done
committed-IsSettled false (e ∷ es) m = next-Settles m.done

commit_batch-IsSettled :
    (ok : Bool) (rs : List FlowRecord) (m : Machine)
    → IsSettled (commit_batch ok rs (record m { stage = Stage.flushing; batch = rs }))
commit_batch-IsSettled ok [] m =
    committed-IsSettled ok m.encoded (record m { stage = Stage.flushing })
commit_batch-IsSettled ok (r ∷ rs) m = tt

commit-IsSettled :
    (ok : Bool) (s : Stage) (m : Machine)
    → Settles s m.batch m.encoded
    → IsSettled (commit ok s (record m { stage = s }))
commit-IsSettled ok Stage.flushing m h = commit_batch-IsSettled ok m.batch m
commit-IsSettled ok Stage.collecting m h = h
commit-IsSettled ok Stage.finished m h = h

IsSettled-if :
    (b : Bool) (m k : Machine) → IsSettled m → IsSettled k → IsSettled (if b then m else k)
IsSettled-if true m k h h' = h
IsSettled-if false m k h h' = h'

offers-taking : (room : Bool) (q : List (Option FlowRecord)) → offers (taking room q) ≡ 0
offers-taking room [] = refl
offers-taking true (o ∷ q) = refl
offers-taking false (o ∷ q) = refl

offers-writing : (rs : List FlowRecord) → offers (writing rs) ≡ 0
offers-writing [] = refl
offers-writing (r ∷ rs) = refl

turn_offers : (s : Stage) (m : Machine) → offers (turn_at s m) ≡ 0
turn_offers Stage.collecting m =
    offers-taking (ltb (length m.batch) m.writer.batch_size) m.writer.queue
turn_offers Stage.flushing m = offers-writing m.batch
turn_offers Stage.finished m = refl

module _ (c : Coder) where
  encode-IsSettled :
      (rs : List FlowRecord) (m : Machine)
      → IsSettled (encode_head c rs (record m { stage = Stage.flushing }))
  encode-IsSettled [] m = tt
  encode-IsSettled (r ∷ rs) m = IsSettled-if m.writer.capped _ _ tt tt

  encode_one-IsSettled :
      (s : Stage) (m : Machine)
      → Settles s m.batch m.encoded
      → IsSettled (encode_one c s (record m { stage = s }))
  encode_one-IsSettled Stage.collecting m h = h
  encode_one-IsSettled Stage.flushing m h = encode-IsSettled m.batch m
  encode_one-IsSettled Stage.finished m h = h

  step-IsSettled : (e : Event) (m : Machine) → IsSettled m → IsSettled (step c e m)
  unfolding step
  step-IsSettled (Event.enqueued r) m h = h
  step-IsSettled Event.stop_asked m h = h
  step-IsSettled Event.take_turn m h = take-IsSettled m.stage m h
  step-IsSettled Event.interval_over m h = end-IsSettled m.stage m h
  step-IsSettled Event.encode_turn m h = encode_one-IsSettled m.stage m h
  step-IsSettled (Event.commit_turn ok) m h = commit-IsSettled ok m.stage m h

  pub run-IsSettled : (es : List Event) (m : Machine) → IsSettled m → IsSettled (run c es m)
  unfolding run
  run-IsSettled [] m h = h
  run-IsSettled (e ∷ es) m h = run-IsSettled es (step c e m) (step-IsSettled e m h)

  finished-IsSettled :
      (m : Machine) → m.stage ≡ Stage.finished → IsSettled m → (m.batch ≡ []) × (m.encoded ≡ [])
  finished-IsSettled m e h = subst (λ s. Settles s m.batch m.encoded) e h

  thread_offers : (fuel : ℕ) (m : Machine) → all_offers (thread c fuel m) ≡ 0
  thread_offers zero m = refl
  thread_offers (suc fuel) m =
      omega (arith, turn_offers m.stage m, thread_offers fuel (step c (turn_at m.stage m) m))

  -- Once a stop was asked for, a thread whose commits go through finishes, within four steps for each
  -- flow before the request, three for each of its batch and two more. Then the queue holds just what
  -- was handed over after the request, and all else that was handed over is committed or counted.
  pub stop_finishes :
      (rest : List (Option FlowRecord)) (m : Machine)
      → Stopping rest m
      → 0 < m.writer.batch_size
      → IsSettled m
      → ((run c (thread c (left m) m) m).stage ≡ Stage.finished)
        × ((run c (thread c (left m) m) m).writer.queue ≡ rest)
        × (load m
            ≡ (run c (thread c (left m) m) m).writer.dropped
              + waiting rest
              + length (history c (thread c (left m) m) m))
  stop_finishes rest m h p s =
      let es = thread c (left m) m in
      let f = finishes c rest (left m) m h p (omega arith) in
      let z = finished-IsSettled (run c es m) f.0 (run-IsSettled es m s) in
      (
        f.0,
        f.1,
        omega (
          arith,
          run-load c es m,
          thread_offers (left m) m,
          ap length z.0,
          ap length z.1,
          ap waiting f.1,
        ),
      )
