-- ===== src/Capture/Session/Drain.antt =====
-- A writer that was asked to stop comes to its end: the thread takes what came before the request,
-- writes it and finishes.
use pporlock.Base.{
  ℕ, zero, suc, ◌+◌, ◌*◌, ◌≤◌, ◌<◌, ◌≡◌, refl, sym, Bool, true, false, Option, none, some, List, [],
  ◌∷◌, length, length-append, ltb, eqb, if◌then◌else◌, arith, subst, Bool-cases, inl, inr, ltb→le,
}
use pporlock.Capture.Records.{FlowRecord}
use pporlock.Capture.Session.Rows.{Encoded}
use pporlock.Capture.Session.Writer.{Coder, Event, Machine, Stage, committed, run, step, taken}

-- a stop was asked for
abbrev pub Asked : List (Option FlowRecord) → Type 0
Asked [] = ⊥
Asked (none ∷ rest) = Unit
Asked (some r ∷ rest) = Asked rest

-- the flows that came before the request
abbrev pub ahead : List (Option FlowRecord) → ℕ
ahead [] = 0
ahead (none ∷ rest) = 0
ahead (some r ∷ rest) = suc (ahead rest)

-- what came after the request
abbrev pub behind : List (Option FlowRecord) → List (Option FlowRecord)
behind [] = []
behind (none ∷ rest) = rest
behind (some r ∷ rest) = behind rest

-- the thread's next step where commits go through
abbrev pub taking : Bool → List (Option FlowRecord) → Event
taking room [] = Event.interval_over
taking room (_ ∷ _) = if room then Event.take_turn else Event.interval_over

abbrev pub writing : List FlowRecord → Event
writing [] = Event.commit_turn true
writing (_ ∷ _) = Event.encode_turn

abbrev pub turn_at : Stage → Machine → Event
turn_at Stage.collecting m = taking (ltb (length m.batch) m.writer.batch_size) m.writer.queue
turn_at Stage.flushing m = writing m.batch
turn_at Stage.finished m = Event.interval_over

-- an upper bound on the steps left
abbrev pub steps_left : Stage → Bool → ℕ → ℕ → ℕ
steps_left Stage.collecting done q b = 4 * q + 3 * b + 2
steps_left Stage.flushing true q b = b + 1
steps_left Stage.flushing false q b = 4 * q + b + 3
steps_left Stage.finished done q b = 0

abbrev pub left : Machine → ℕ
left m = steps_left m.stage m.done (ahead m.writer.queue) (length m.batch)

-- the thread is collecting or writing, and a stop was asked for or seen; what will stay in the queue
-- is given
abbrev pub Stops : Stage → Bool → List (Option FlowRecord) → List (Option FlowRecord) → Type 0
Stops Stage.collecting done q rest = (done ≡ false) × Asked q × (behind q ≡ rest)
Stops Stage.flushing true q rest = q ≡ rest
Stops Stage.flushing false q rest = Asked q × (behind q ≡ rest)
Stops Stage.finished done q rest = q ≡ rest

abbrev pub Stopping : List (Option FlowRecord) → Machine → Type 0
Stopping rest m = Stops m.stage m.done m.writer.queue rest

module _ (c : Coder) where
  -- the thread's steps, for as long as the fuel lasts
  abbrev pub thread : ℕ → Machine → List Event
  thread zero m = []
  thread (suc fuel) m = turn_at m.stage m ∷ thread fuel (step c (turn_at m.stage m) m)

  module _ (rest : List (Option FlowRecord)) where
    -- stopping, with fewer steps left than n
    abbrev Nearer : ℕ → Machine → Type 0
    Nearer n m = Stopping rest m × (left m + 1 ≤ n) × (0 < m.writer.batch_size)

    Nearer-if :
        (b : Bool) (n : ℕ) (m k : Machine) → Nearer n m → Nearer n k → Nearer n (if b then m else k)
    Nearer-if true n m k h h' = h
    Nearer-if false n m k h h' = h'

    abbrev collecting_at : List (Option FlowRecord) → Machine → Machine
    collecting_at q m = record m {
      stage = Stage.collecting;
      done = false;
      writer = record m.writer { queue = q };
    }

    abbrev flushing_at : Bool → List (Option FlowRecord) → List FlowRecord → Machine → Machine
    flushing_at d q rs m = record m {
      stage = Stage.flushing;
      done = d;
      batch = rs;
      writer = record m.writer { queue = q };
    }

    take-Nearer :
        (o : Option FlowRecord) (q : List (Option FlowRecord)) (m : Machine)
        → Asked (o ∷ q) × (behind (o ∷ q) ≡ rest)
        → 0 < m.writer.batch_size
        → Nearer
            (4 * ahead (o ∷ q) + 3 * length m.batch + 2)
            (taken (o ∷ q) (collecting_at (o ∷ q) m))
    take-Nearer none q m h p = (h.1, omega arith, p)
    take-Nearer (some r) q m h p =
        ((refl, h.0, h.1), omega (arith, length-append m.batch (r ∷ [])), p)

    collect-Nearer :
        (q : List (Option FlowRecord)) (m : Machine)
        → Asked q × (behind q ≡ rest)
        → 0 < m.writer.batch_size
        → Nearer
            (4 * ahead q + 3 * length m.batch + 2)
            (step c (taking (ltb (length m.batch) m.writer.batch_size) q) (collecting_at q m))
    unfolding step
    collect-Nearer [] m h p = absurd (h.0)
    collect-Nearer (o ∷ q) m h p = elim (Bool-cases (ltb (length m.batch) m.writer.batch_size)) [
      | inl b ↦ rw (b, step) (rw b (take-Nearer o q m h p))
      | inr b ↦ rw b ((h.0, h.1), omega (arith, ltb→le _ _ b), p)
    ]

    committed-Nearer :
        (d : Bool) (q : List (Option FlowRecord)) (es : List Encoded) (m : Machine)
        → Stops Stage.flushing d q rest
        → 0 < m.writer.batch_size
        → Nearer
            (steps_left Stage.flushing d (ahead q) 0)
            (committed true es (flushing_at d q [] m))
    committed-Nearer true q [] m h p = (h, omega arith, p)
    committed-Nearer true q (e ∷ es) m h p = (h, omega arith, p)
    committed-Nearer false q [] m h p = ((refl, h.0, h.1), omega arith, p)
    committed-Nearer false q (e ∷ es) m h p = ((refl, h.0, h.1), omega arith, p)

    write-Nearer :
        (d : Bool) (q : List (Option FlowRecord)) (rs : List FlowRecord) (m : Machine)
        → Stops Stage.flushing d q rest
        → 0 < m.writer.batch_size
        → Nearer
            (steps_left Stage.flushing d (ahead q) (length rs))
            (step c (writing rs) (flushing_at d q rs m))
    unfolding step
    write-Nearer true q (r ∷ rs) m h p =
        Nearer-if m.writer.capped _ _ _ (h, omega arith, p) (h, omega arith, p)
    write-Nearer false q (r ∷ rs) m h p =
        Nearer-if m.writer.capped _ _ _ (h, omega arith, p) (h, omega arith, p)
    write-Nearer d q [] m h p = committed-Nearer d q m.encoded m h p

    turn-Nearer :
        (s : Stage) (d : Bool) (m : Machine)
        → Stops s d m.writer.queue rest
        → 0 < m.writer.batch_size
        → 0 < steps_left s d (ahead m.writer.queue) (length m.batch)
        → Nearer
            (steps_left s d (ahead m.writer.queue) (length m.batch))
            (step c (turn_at s m) (record m { stage = s; done = d }))
    turn-Nearer Stage.collecting true m h p left = absurd (cc (h.0))
    turn-Nearer Stage.collecting false m h p left = collect-Nearer m.writer.queue m (h.1, h.2) p
    turn-Nearer Stage.flushing d m h p left = write-Nearer d m.writer.queue m.batch m h p
    turn-Nearer Stage.finished d m h p left = absurd (omega arith)

    -- once no steps are left the thread has finished
    at_end :
        (s : Stage) (d : Bool) (q : List (Option FlowRecord)) (n : ℕ)
        → steps_left s d (ahead q) n ≡ 0
        → Stops s d q rest
        → (s ≡ Stage.finished) × (q ≡ rest)
    at_end Stage.collecting d q n e h = absurd (omega arith)
    at_end Stage.flushing true q n e h = absurd (omega arith)
    at_end Stage.flushing false q n e h = absurd (omega arith)
    at_end Stage.finished d q n e h = (refl, h)

    idle :
        (s : Stage) (m : Machine)
        → s ≡ Stage.finished
        → step c (turn_at s m) (record m { stage = s }) ≡ record m { stage = s }
    unfolding step
    idle Stage.collecting m e = absurd (cc e)
    idle Stage.flushing m e = absurd (cc e)
    idle Stage.finished m e = refl

    pub finishes :
        (fuel : ℕ) (m : Machine)
        → Stopping rest m
        → 0 < m.writer.batch_size
        → left m ≤ fuel
        → ((run c (thread fuel m) m).stage ≡ Stage.finished)
          × ((run c (thread fuel m) m).writer.queue ≡ rest)
    unfolding run
    finishes zero m h p le = at_end m.stage m.done m.writer.queue (length m.batch) (omega arith) h
    finishes (suc fuel) m h p le = elim (Bool-cases (eqb (left m) 0)) [
      | inl b ↦
          let z : left m ≡ 0 = ground (arith, b) in
          let e = (at_end m.stage m.done m.writer.queue (length m.batch) z h).0 in
          subst
            (λ k.
              ((run c (thread fuel k) k).stage ≡ Stage.finished)
              × ((run c (thread fuel k) k).writer.queue ≡ rest))
            (sym (idle m.stage m e)) (finishes fuel m h p (omega arith))
      | inr b ↦
          let n = turn-Nearer m.stage m.done m h p (ground (arith, b)) in
          finishes fuel (step c (turn_at m.stage m) m) n.0 n.2 (omega arith)
    ]
