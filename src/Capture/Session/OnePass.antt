-- ===== src/Capture/Session/OnePass.antt =====
-- A page of a session in one pass over the rows, and that the loop over chunks of rows makes it.
use pporlock.Base.{
  ℕ, zero, suc, ◌*◌, ◌≤◌, ◌<◌, ◌≡◌, refl, sym, ap, ◌∙◌, subst, Bool, true, false, List, [], ◌∷◌,
  ◌++◌, append_assoc, map, length, take, drop, filter, ltb, leb, eqb, if◌then◌else◌, arith,
  Bool-cases, inl, inr, ◌⊎◌, All, length-append, length-take, length-drop, ltb→le, lt→ltb, le→ltb,
}
use pporlock.Base.Sort.{Key, sort, Sorted, Sorted-unique, sort-Sorted, with_key-sort, lex_le}
use pporlock.Capture.Records.{FlowRecord}
use pporlock.Capture.Session.Rows.{FlowRow}
use pporlock.Capture.Session.Table.{Rising}
use pporlock.Capture.Session.Reader.{
  Place, above, in_order, more_rows, read_chunks, read_rows, select_after,
}

-- rows that rise are in order already
All-Rising :
    (low n high : ℕ) (rows : List FlowRow)
    → n ≤ low
    → Rising low high rows
    → All (λ r. lex_le (n, 0) (r.seq, 0) ≡ true) rows
All-Rising low n high [] p h = tt
All-Rising low n high (r ∷ rows) p h =
    (ground (arith, h.0, p), All-Rising r.seq n high rows (omega arith) h.1)

Sorted-Rising :
    (low high : ℕ) (rows : List FlowRow) → Rising low high rows → Sorted (λ r. (r.seq, 0)) rows
Sorted-Rising low high [] h = tt
Sorted-Rising low high (r ∷ rows) h =
    (All-Rising r.seq r.seq high rows (omega arith) h.1, Sorted-Rising r.seq high rows h.1)

pub in_order-Rising :
    (low high : ℕ) (rows : List FlowRow) → Rising low high rows → in_order rows ≡ rows
unfolding in_order
in_order-Rising low high rows h =
    let key : FlowRow → Key = λ r. (r.seq, 0) in
    Sorted-unique key (sort key rows) rows (sort-Sorted key rows) (Sorted-Rising low high rows h)
      (λ k. with_key-sort key k rows)

-- all rows that rise from n are above it
pub above-Rising :
    (n low high : ℕ) (rows : List FlowRow) → n ≤ low → Rising low high rows → above n rows ≡ rows
above-Rising n low high [] p h = refl
above-Rising n low high (r ∷ rows) p h =
    rw (lt→ltb n r.seq (omega arith))
      (ap (◌∷◌ r) (above-Rising n r.seq high rows (omega arith) h.1))

above-above : (n m : ℕ) (rows : List FlowRow) → n ≤ m → above m (above n rows) ≡ above m rows
above-above n m [] p = refl
above-above n m (r ∷ rows) p = ground (arith, above-above n m rows p)

-- past the first of the rows above n
above_next :
    (n high : ℕ) (rows : List FlowRow) (r : FlowRow) (l : List FlowRow)
    → above n rows ≡ r ∷ l
    → Rising n high (r ∷ l)
    → above r.seq rows ≡ l
above_next n high rows r l e h =
    sym (above-above n r.seq rows (omega (arith, h.0)))
    ∙ ap (above r.seq) e
    ∙ rw (le→ltb r.seq r.seq (omega arith)) (above-Rising r.seq r.seq high l (omega arith) h.1)

take-nil : (n : ℕ) → ◌≡◌ {A = List FlowRow} (take n []) []
take-nil zero = refl
take-nil (suc n) = refl

pub nil_of : (l : List FlowRow) → ltb 0 (length l) ≡ false → l ≡ []
nil_of [] h = refl
nil_of (r ∷ l) h = absurd (omega (arith, ltb→le _ _ h))

-- a place in the rows: those that are left are those above the last number
abbrev pub At : ℕ → List FlowRow → ℕ → List FlowRow → Type 0
At high rows last l = (above last rows ≡ l) × Rising last high l

At-next :
    (high : ℕ) (rows : List FlowRow) (last : ℕ) (r : FlowRow) (l : List FlowRow)
    → At high rows last (r ∷ l)
    → At high rows r.seq l
At-next high rows last r l h = (above_next last high rows r l h.0 h.1, h.1.1)

module _ (read : FlowRow → FlowRecord) (matches : FlowRecord → Bool) (limit : ℕ) where
  abbrev pub with_row : FlowRow → List FlowRecord → List FlowRecord
  with_row r matched = if matches (read r) then matched ++ read r ∷ [] else matched

  -- a page in one pass: the flows, the last number, the rows left
  pub pick : List FlowRecord → ℕ → List FlowRow → List FlowRecord × ℕ × List FlowRow
  pick matched last [] = (matched, last, [])
  pick matched last (r ∷ l) =
      let on = pick (with_row r matched) r.seq l in
      if leb limit (length matched) then (matched, last, r ∷ l) else on

  abbrev pub wanted : List FlowRow → List FlowRecord
  wanted rows = map read (filter (λ r. matches (read r)) rows)

  pick_full :
      (matched : List FlowRecord) (last : ℕ) (l : List FlowRow)
      → leb limit (length matched) ≡ true
      → pick matched last l ≡ (matched, last, l)
  unfolding pick
  pick_full matched last [] h = refl
  pick_full matched last (r ∷ l) h = rw h refl

  pick_nil : (matched : List FlowRecord) (last : ℕ) → pick matched last [] ≡ (matched, last, [])
  unfolding pick
  pick_nil matched last = refl

  wanted_step :
      (matched : List FlowRecord) (r : FlowRow) (l : List FlowRow)
      → matched ++ wanted (r ∷ l) ≡ with_row r matched ++ wanted l
  wanted_step matched r l = elim (Bool-cases (matches (read r))) [
    | inl b ↦ rw b (sym (append_assoc matched (read r ∷ []) (wanted l)))
    | inr b ↦ rw b refl
  ]

  -- what a page takes and what it leaves are all that matches
  pub pick-wanted :
      (matched : List FlowRecord) (last : ℕ) (l : List FlowRow)
      → matched ++ wanted l ≡ (pick matched last l).0 ++ wanted (pick matched last l).2
  unfolding pick
  pick-wanted matched last [] = refl
  pick-wanted matched last (r ∷ l) = elim (Bool-cases (leb limit (length matched))) [
    | inl b ↦ rw b refl
    | inr b ↦ rw b (wanted_step matched r l ∙ pick-wanted (with_row r matched) r.seq l)
  ]

  length-with_row :
      (r : FlowRow) (matched : List FlowRecord)
      → leb limit (length matched) ≡ false
      → length (with_row r matched) ≤ limit
  length-with_row r matched h = ground (arith, length-append matched (read r ∷ []), h)

  pub length-pick :
      (matched : List FlowRecord) (last : ℕ) (l : List FlowRow)
      → length matched ≤ limit
      → length (pick matched last l).0 ≤ limit
  unfolding pick
  length-pick matched last [] h = h
  length-pick matched last (r ∷ l) h = elim (Bool-cases (leb limit (length matched))) [
    | inl b ↦ rw b h
    | inr b ↦ rw b (length-pick (with_row r matched) r.seq l (length-with_row r matched b))
  ]

  pub pick_rest :
      (matched : List FlowRecord) (last : ℕ) (l : List FlowRow)
      → length (pick matched last l).2 ≤ length l
  unfolding pick
  pick_rest matched last [] = omega arith
  pick_rest matched last (r ∷ l) = ground (arith, pick_rest (with_row r matched) r.seq l)

  -- a page that begins before a row reads it
  pub pick_progress :
      (last : ℕ) (l : List FlowRow)
      → 0 < limit
      → 0 < length l
      → length (pick [] last l).2 < length l
  unfolding pick
  pick_progress last [] p h = absurd (omega arith)
  pick_progress last (r ∷ l) p h =
      let open' : leb limit 0 ≡ false = ground arith in
      rw open' (omega (arith, pick_rest (with_row r []) r.seq l))

  module _ (high : ℕ) (rows : List FlowRow) where
    pub pick-At :
        (matched : List FlowRecord) (last : ℕ) (l : List FlowRow)
        → At high rows last l
        → At high rows (pick matched last l).1 (pick matched last l).2
    unfolding pick
    pick-At matched last [] h = h
    pick-At matched last (r ∷ l) h = elim (Bool-cases (leb limit (length matched))) [
      | inl b ↦ rw b h
      | inr b ↦ rw b (pick-At (with_row r matched) r.seq l (At-next high rows last r l h))
    ]

    abbrev Goes : List FlowRecord → ℕ → List FlowRow → List FlowRow → Place → Type 0
    Goes matched last l left p =
        ((p.2 ≡ true)
          × (x : FlowRow) × (xs : List FlowRow) × (pick matched last l ≡ (p.0, p.1, x ∷ xs)))
        ⊎ ((p.2 ≡ false) × (pick matched last l ≡ pick p.0 p.1 left) × At high rows p.1 left)

    chunk_lem :
        (k : ℕ) (l : List FlowRow) (matched : List FlowRecord) (last : ℕ)
        → At high rows last l
        → Goes matched last l (drop k l) (read_rows read matches limit (take k l) matched last)
    unfolding read_rows pick
    chunk_lem zero l matched last h = inr (refl, refl, h)
    chunk_lem (suc k) [] matched last h = inr (refl, refl, h)
    chunk_lem (suc k) (r ∷ l) matched last h = elim (Bool-cases (leb limit (length matched))) [
      | inl b ↦ rw b (inl (refl, r, l, refl))
      | inr b ↦ rw b (chunk_lem k l (with_row r matched) r.seq (At-next high rows last r l h))
    ]

    abbrev pub Agrees : Place → List FlowRecord × ℕ × List FlowRow → Type 0
    Agrees p q = (p.0 ≡ q.0) × (p.1 ≡ q.1) × (more_rows rows p ≡ ltb 0 (length q.2))

    module _ (ordered : in_order rows ≡ rows) (some_page : 0 < limit) where
      selected :
          (last : ℕ) (l : List FlowRow)
          → At high rows last l
          → select_after last (limit * 4) rows ≡ take (limit * 4) l
      unfolding select_after
      selected last l h =
          ap (λ rs. take (limit * 4) (above last rs)) ordered ∙ ap (take (limit * 4)) h.0

      chunk_length :
          (r : FlowRow) (l : List FlowRow) → eqb (length (take (limit * 4) (r ∷ l))) 0 ≡ false
      chunk_length r l = ground (arith, length-take (limit * 4) (r ∷ l), some_page)

      after_chunk :
          (fuel : ℕ) (matched : List FlowRecord) (last : ℕ) (r : FlowRow) (l : List FlowRow)
          (m : List FlowRecord) (n : ℕ) (full : Bool)
          → Goes matched last (r ∷ l) (drop (limit * 4) (r ∷ l)) (m, n, full)
          → (At high rows n (drop (limit * 4) (r ∷ l))
              → Agrees
                  (read_chunks read matches limit fuel rows m n)
                  (pick m n (drop (limit * 4) (r ∷ l))))
          → Agrees
              (if full then (m, n, full) else read_chunks read matches limit fuel rows m n)
              (pick matched last (r ∷ l))
      after_chunk fuel matched last r l m n true (inl (f, x, xs, e)) on =
          subst (Agrees (m, n, true)) (sym e) (refl, refl, ground arith)
      after_chunk fuel matched last r l m n true (inr (f, e, here)) on = absurd (cc f)
      after_chunk fuel matched last r l m n false (inl (f, x, xs, e)) on = absurd (cc f)
      after_chunk fuel matched last r l m n false (inr (f, e, here)) on =
          subst (Agrees (read_chunks read matches limit fuel rows m n)) (sym e) (on here)

      -- the loop makes the page of one pass
      pub chunks_lem :
          (fuel : ℕ) (l : List FlowRow) (matched : List FlowRecord) (last : ℕ)
          → At high rows last l
          → length l < fuel
          → Agrees (read_chunks read matches limit fuel rows matched last) (pick matched last l)
      unfolding read_chunks
      chunks_lem zero l matched last h lt = absurd (omega arith)
      chunks_lem (suc fuel) [] matched last h lt =
          let same : Agrees (matched, last, false) (pick matched last []) =
            subst (Agrees (matched, last, false)) (sym (pick_nil matched last))
              (refl, refl, ap (λ t. ltb 0 (length t)) h.0) in
          elim (Bool-cases (leb limit (length matched))) [
            | inl b ↦ rw (b, read_chunks) same
            | inr b ↦ rw (b, read_chunks) (rw (selected last [] h ∙ take-nil (limit * 4)) same)
          ]
      chunks_lem (suc fuel) (r ∷ l) matched last h lt =
          elim (Bool-cases (leb limit (length matched))) [
            | inl b ↦
                rw (b, read_chunks)
                  (subst (Agrees (matched, last, false)) (sym (pick_full matched last (r ∷ l) b))
                    (refl, refl, ap (λ t. ltb 0 (length t)) h.0))
            | inr b ↦
                rw (b, read_chunks)
                  (rw (selected last (r ∷ l) h) (
                    rw (chunk_length r l) (
                      let place =
                        read_rows read matches limit (take (limit * 4) (r ∷ l)) matched last in
                      after_chunk fuel matched last r l place.0 place.1 place.2
                        (chunk_lem (limit * 4) (r ∷ l) matched last h)
                        (λ here.
                          chunks_lem fuel (drop (limit * 4) (r ∷ l)) place.0 place.1 here
                            (omega (arith, length-drop (limit * 4) (r ∷ l), some_page))))))
          ]
