-- ===== src/Capture/Session/Table.antt =====
-- The rows of a session: each is the encoding of a flow after redaction, no flow stands twice, and they
-- are in the order of their numbers.
use pporlock.Base.{
  ℕ, ◌+◌, ◌≤◌, ◌<◌, ◌≡◌, refl, sym, ap, subst, Bool, true, false, not, Option, none, some, List, [],
  ◌∷◌, ◌++◌, ◌==◌, text_eq, length, filter, ltb, if◌then◌else◌, arith, Bool-cases, inl, inr, All,
  append_assoc, append-nil,
}
use pporlock.Base.Text.{Text}
use pporlock.Capture.Records.{FlowRecord}
use pporlock.Capture.Session.Rows.{Encoded, FlowRow, redact_and_encode}
use pporlock.Capture.Session.Writer.{
  Coder, Event, Machine, SessionWriter, Stage, ask_stop, commit, commit_batch, committed,
  count_drop, encode_head, encode_one, encode_with, end_collection, enqueue, insert_all,
  insert_flow, insert_flows, run, start, step, take_one, taken,
}

-- numbers that rise from above one bound to at most another
abbrev pub Rising : ℕ → ℕ → List FlowRow → Type 0
Rising low high [] = low ≤ high
Rising low high (row ∷ rows) = (low < row.seq) × Rising row.seq high rows

abbrev pub Other : Text → FlowRow → Type 0
Other flow_id row = not (row.flow_id == flow_id) ≡ true

-- no flow stands twice
abbrev pub Distinct : List FlowRow → Type 0
Distinct [] = Unit
Distinct (row ∷ rows) = All (Other row.flow_id) rows × Distinct rows

Rising-lower :
    (low low' high : ℕ) (rows : List FlowRow)
    → low' ≤ low
    → Rising low high rows
    → Rising low' high rows
Rising-lower low low' high [] p h = omega arith
Rising-lower low low' high (row ∷ rows) p h = (omega arith, h.1)

Rising-higher :
    (low high high' : ℕ) (rows : List FlowRow)
    → high ≤ high'
    → Rising low high rows
    → Rising low high' rows
Rising-higher low high high' [] p h = omega arith
Rising-higher low high high' (row ∷ rows) p h = (h.0, Rising-higher row.seq high high' rows p h.1)

Rising-concat :
    (low high : ℕ) (rows : List FlowRow) (row : FlowRow)
    → high < row.seq
    → Rising low high rows
    → Rising low row.seq (rows ++ row ∷ [])
Rising-concat low high [] row p h = (omega arith, omega arith)
Rising-concat low high (r ∷ rows) row p h = (h.0, Rising-concat r.seq high rows row p h.1)

-- dropping rows from the front part
Rising-filter :
    (test : FlowRow → Bool) (low high : ℕ) (rows rest : List FlowRow)
    → Rising low high (rows ++ rest)
    → Rising low high (filter test rows ++ rest)
Rising-filter test low high [] rest h = h
Rising-filter test low high (r ∷ rows) rest h = elim (Bool-cases (test r)) [
  | inl b ↦ rw b (h.0, Rising-filter test r.seq high rows rest h.1)
  | inr b ↦ rw b (
      Rising-lower r.seq low high (filter test rows ++ rest) (omega arith)
        (Rising-filter test r.seq high rows rest h.1))
]

All-filter :
    (P : FlowRow → Type 0) (test : FlowRow → Bool) (rows : List FlowRow)
    → All P rows
    → All P (filter test rows)
All-filter P test [] h = tt
All-filter P test (r ∷ rows) h = elim (Bool-cases (test r)) [
  | inl b ↦ rw b (h.0, All-filter P test rows h.1)
  | inr b ↦ rw b (All-filter P test rows h.1)
]

All-concat :
    (P : FlowRow → Type 0) (rows : List FlowRow) (row : FlowRow)
    → All P rows
    → P row
    → All P (rows ++ row ∷ [])
All-concat P [] row h p = (p, tt)
All-concat P (r ∷ rows) row h p = (h.0, All-concat P rows row h.1 p)

Distinct-insert_flow :
    (row : FlowRow) (rows : List FlowRow) → Distinct rows → Distinct (insert_flow row rows)
unfolding insert_flow
Distinct-insert_flow row [] h = (tt, tt)
Distinct-insert_flow row (r ∷ rows) h = elim (Bool-cases (not (r.flow_id == row.flow_id))) [
  | inl b ↦ rw b (
    All-concat (Other r.flow_id) (filter (λ q. not (q.flow_id == row.flow_id)) rows) row
        (All-filter _ _ rows h.0)
        (ground
          (arith, b, text_eq.beq_iff r.flow_id row.flow_id, text_eq.beq_iff row.flow_id r.flow_id)),
    Distinct-insert_flow row rows h.1,
  )
  | inr b ↦ rw b (Distinct-insert_flow row rows h.1)
]

abbrev pub rows_of : List Encoded → List FlowRow
rows_of [] = []
rows_of (e ∷ es) = e.flow ∷ rows_of es

rows_of-concat :
    (es : List Encoded) (e : Encoded) → rows_of (es ++ e ∷ []) ≡ rows_of es ++ e.flow ∷ []
rows_of-concat [] e = refl
rows_of-concat (x ∷ es) e = ap (◌∷◌ x.flow) (rows_of-concat es e)

Rising-insert_flows :
    (low high : ℕ) (es : List Encoded) (rows : List FlowRow)
    → Rising low high (rows ++ rows_of es)
    → Rising low high (insert_flows es rows)
unfolding insert_flows
Rising-insert_flows low high [] rows h = rw append-nil at h
Rising-insert_flows low high (e ∷ es) rows h =
    Rising-insert_flows low high es (insert_flow e.flow rows) (
      subst (Rising low high)
        (sym (
          append_assoc (filter (λ r. not (r.flow_id == e.flow.flow_id)) rows) (e.flow ∷ [])
            (rows_of es)))
        (Rising-filter (λ r. not (r.flow_id == e.flow.flow_id)) low high rows (e.flow ∷ rows_of es)
          h))

Distinct-insert_flows :
    (es : List Encoded) (rows : List FlowRow) → Distinct rows → Distinct (insert_flows es rows)
unfolding insert_flows
Distinct-insert_flows [] rows h = h
Distinct-insert_flows (e ∷ es) rows h =
    Distinct-insert_flows es (insert_flow e.flow rows) (Distinct-insert_flow e.flow rows h)

All-insert_flows :
    (P : FlowRow → Type 0) (es : List Encoded) (rows : List FlowRow)
    → All P (rows_of es)
    → All P rows
    → All P (insert_flows es rows)
unfolding insert_flows
All-insert_flows P [] rows a h = h
All-insert_flows P (e ∷ es) rows a h =
    All-insert_flows P es (insert_flow e.flow rows) a.1
      (All-concat P _ e.flow (All-filter P _ rows h) a.0)

Rising-le : (low high : ℕ) (rows : List FlowRow) → Rising low high rows → low ≤ high
Rising-le low high [] h = h
Rising-le low high (r ∷ rows) h = omega (arith, h.0, Rising-le r.seq high rows h.1)

Rising-front :
    (low high : ℕ) (rows rest : List FlowRow)
    → Rising low high (rows ++ rest)
    → Rising low high rows
Rising-front low high [] rest h = Rising-le low high rest h
Rising-front low high (r ∷ rows) rest h = (h.0, Rising-front r.seq high rows rest h.1)

module _ (c : Coder) where
  -- the row is what `_redact_and_encode` makes of some flow
  abbrev pub IsEncoding : FlowRow → Type 0
  IsEncoding row = (n : ℕ) × (r : FlowRecord) × (row ≡ (encode_with c n r).flow)

  pub record IsTable (m : Machine) : Type 0 where
    pub distinct : Distinct m.database.flows
    pub numbered : Rising 0 m.writer.seq (m.database.flows ++ rows_of m.encoded)
    pub redacted : All IsEncoding m.database.flows
    pub coming : All IsEncoding (rows_of m.encoded)

  seq-enqueue : (r : FlowRecord) (w : SessionWriter) → (enqueue r w).seq ≡ w.seq
  unfolding enqueue
  seq-enqueue r w = ground arith

  seq-ask_stop : (w : SessionWriter) → (ask_stop w).seq ≡ w.seq
  unfolding ask_stop
  seq-ask_stop w = ground arith

  -- a step that leaves the rows and the numbers
  IsTable-kept :
      (w : SessionWriter) (s : Stage) (rs : List FlowRecord) (done : Bool) (m : Machine)
      → w.seq ≡ m.writer.seq
      → IsTable m
      → IsTable (record m { writer = w; stage = s; batch = rs; done = done })
  IsTable-kept w s rs done m e h = record {
    distinct = h.distinct;
    numbered = subst (λ n. Rising 0 n (m.database.flows ++ rows_of m.encoded)) (sym e) h.numbered;
    redacted = h.redacted;
    coming = h.coming;
  }

  taken-IsTable : (q : List (Option FlowRecord)) (m : Machine) → IsTable m → IsTable (taken q m)
  taken-IsTable [] m h = h
  taken-IsTable (none ∷ q) m h = IsTable-kept _ _ _ _ m refl h
  taken-IsTable (some r ∷ q) m h = IsTable-kept _ _ _ _ m refl h

  take-IsTable : (s : Stage) (m : Machine) → IsTable m → IsTable (take_one s m)
  take-IsTable Stage.collecting m h = elim (Bool-cases (ltb (length m.batch) m.writer.batch_size)) [
    | inl b ↦ rw b (taken-IsTable m.writer.queue m h)
    | inr b ↦ rw b h
  ]
  take-IsTable Stage.flushing m h = h
  take-IsTable Stage.finished m h = h

  end-IsTable : (s : Stage) (m : Machine) → IsTable m → IsTable (end_collection s m)
  end-IsTable Stage.collecting m h = IsTable-kept _ _ _ _ m refl h
  end-IsTable Stage.flushing m h = h
  end-IsTable Stage.finished m h = h

  committed-IsTable :
      (ok : Bool) (es : List Encoded) (m : Machine)
      → m.encoded ≡ es
      → IsTable m
      → IsTable (committed ok es m)
  unfolding insert_all
  committed-IsTable ok [] m e h = IsTable-kept _ _ _ _ m refl h
  committed-IsTable true (x ∷ es) m e h = record {
    distinct = Distinct-insert_flows (x ∷ es) m.database.flows h.distinct;
    numbered = subst (Rising 0 m.writer.seq) (sym (append-nil _)) (
        Rising-insert_flows 0 m.writer.seq (x ∷ es) m.database.flows
          (subst (λ es. Rising 0 m.writer.seq (m.database.flows ++ rows_of es)) e h.numbered));
    redacted =
        All-insert_flows IsEncoding (x ∷ es) m.database.flows
          (subst (λ es. All IsEncoding (rows_of es)) e h.coming) h.redacted;
    coming = tt;
  }
  committed-IsTable false (x ∷ es) m e h = record {
    distinct = h.distinct;
    numbered =
        subst (Rising 0 m.writer.seq) (sym (append-nil _))
          (Rising-front 0 m.writer.seq m.database.flows (rows_of m.encoded) h.numbered);
    redacted = h.redacted;
    coming = tt;
  }

  commit_batch-IsTable :
      (ok : Bool) (rs : List FlowRecord) (m : Machine) → IsTable m → IsTable (commit_batch ok rs m)
  commit_batch-IsTable ok [] m h = committed-IsTable ok m.encoded m refl h
  commit_batch-IsTable ok (r ∷ rs) m h = h

  commit-IsTable : (ok : Bool) (s : Stage) (m : Machine) → IsTable m → IsTable (commit ok s m)
  commit-IsTable ok Stage.flushing m h = commit_batch-IsTable ok m.batch m h
  commit-IsTable ok Stage.collecting m h = h
  commit-IsTable ok Stage.finished m h = h

  All-rows :
      (es : List Encoded) (n : ℕ) (r : FlowRecord)
      → All IsEncoding (rows_of es)
      → All IsEncoding (rows_of (es ++ encode_with c n r ∷ []))
  All-rows [] n r h = ((n, r, refl), tt)
  All-rows (x ∷ es) n r h = (h.0, All-rows es n r h.1)

  seq_encoded : (n : ℕ) (r : FlowRecord) → (encode_with c n r).flow.seq ≡ n
  unfolding redact_and_encode
  seq_encoded n r = refl

  numbered_next :
      (flows : List FlowRow) (es : List Encoded) (seq : ℕ) (r : FlowRecord)
      → Rising 0 seq (flows ++ rows_of es)
      → Rising 0 (seq + 1) (flows ++ rows_of (es ++ encode_with c (seq + 1) r ∷ []))
  numbered_next flows es seq r h =
      let item = encode_with c (seq + 1) r in
      rw (rows_of-concat es item) (
        subst (Rising 0 (seq + 1)) (append_assoc flows (rows_of es) (item.flow ∷ [])) (
          subst (λ n. Rising 0 n ((flows ++ rows_of es) ++ item.flow ∷ []))
            (seq_encoded (seq + 1) r)
            (Rising-concat 0 seq (flows ++ rows_of es) item.flow
              (omega (arith, seq_encoded (seq + 1) r)) h)))

  IsTable-if : (b : Bool) {m n : Machine} → IsTable m → IsTable n → IsTable (if b then m else n)
  IsTable-if true h k = h
  IsTable-if false h k = k

  encode-IsTable : (rs : List FlowRecord) (m : Machine) → IsTable m → IsTable (encode_head c rs m)
  encode-IsTable [] m h = h
  encode-IsTable (r ∷ rs) m h =
      IsTable-if m.writer.capped (IsTable-kept (count_drop m.writer) m.stage rs m.done m refl h)
        (record {
          distinct = h.distinct;
          numbered = numbered_next m.database.flows m.encoded m.writer.seq r h.numbered;
          redacted = h.redacted;
          coming = All-rows m.encoded (m.writer.seq + 1) r h.coming;
        })

  encode_one-IsTable : (s : Stage) (m : Machine) → IsTable m → IsTable (encode_one c s m)
  encode_one-IsTable Stage.collecting m h = h
  encode_one-IsTable Stage.flushing m h = encode-IsTable m.batch m h
  encode_one-IsTable Stage.finished m h = h

  step-IsTable : (e : Event) (m : Machine) → IsTable m → IsTable (step c e m)
  unfolding step
  step-IsTable (Event.enqueued r) m h = IsTable-kept _ _ _ _ m (seq-enqueue r m.writer) h
  step-IsTable Event.stop_asked m h = IsTable-kept _ _ _ _ m (seq-ask_stop m.writer) h
  step-IsTable Event.take_turn m h = take-IsTable m.stage m h
  step-IsTable Event.interval_over m h = end-IsTable m.stage m h
  step-IsTable Event.encode_turn m h = encode_one-IsTable m.stage m h
  step-IsTable (Event.commit_turn ok) m h = commit-IsTable ok m.stage m h

  pub run-IsTable : (es : List Event) (m : Machine) → IsTable m → IsTable (run c es m)
  unfolding run
  run-IsTable [] m h = h
  run-IsTable (e ∷ es) m h = run-IsTable es (step c e m) (step-IsTable e m h)

  pub start-IsTable : (w : SessionWriter) → IsTable (start w)
  unfolding start
  start-IsTable w = record { distinct = tt; numbered = omega arith; redacted = tt; coming = tt }
