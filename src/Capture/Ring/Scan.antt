-- ===== src/Capture/Ring/Scan.antt =====
-- One scan of `query`: the page that it takes, and where it stops.
use pporlock.Base.{
  ℕ, suc, zero, ◌≡◌, refl, ap, Bool, true, false, some, List, [], ◌∷◌, ◌++◌, text_eq, filter, arith,
  if◌then◌else◌, inl, inr, ◌⊎◌, get_last?,
}
use pporlock.Capture.Records.{FlowRecord}
use pporlock.Capture.Ring.{scan}

get_last?-cons :
    (x y : FlowRecord) (l : List FlowRecord) → get_last? l ≡ some y → get_last? (x ∷ l) ≡ some y
get_last?-cons x y [] e = absurd (cc)
get_last?-cons x y (z ∷ l) e = e

module _ (matches : FlowRecord → Bool) where
  -- the page, and then the matches among the records not reached
  pub scan-filter :
      (n : ℕ) (l : List FlowRecord)
      → (scan matches n l).0 ++ filter matches (scan matches n l).1 ≡ filter matches l
  unfolding scan
  scan-filter n [] = refl
  scan-filter zero (x ∷ l) = refl
  scan-filter (suc n) (x ∷ l) = ground (arith, scan-filter n l, scan-filter (suc n) l)

  -- a scan that stops before the end has just taken a record
  pub record Stops (l flows rest : List FlowRecord) : Type 0 where
    pub pre : List FlowRecord
    pub last : FlowRecord
    pub splits : l ≡ pre ++ last ∷ rest
    pub is_last : get_last? flows ≡ some last

  abbrev pub Halts : List FlowRecord → List FlowRecord × List FlowRecord → Type 0
  Halts l p = (p.1 ≡ []) ⊎ Stops l p.0 p.1

  Halts-skip :
      (x : FlowRecord) (l : List FlowRecord) (p : List FlowRecord × List FlowRecord)
      → Halts l p
      → Halts (x ∷ l) p
  Halts-skip x l p (inl e) = inl e
  Halts-skip x l p (inr s) =
      inr (record {
        pre = x ∷ s.pre;
        last = s.last;
        splits = ap (◌∷◌ x) s.splits;
        is_last = s.is_last;
      })

  Halts-take :
      (x : FlowRecord) (l : List FlowRecord) (p : List FlowRecord × List FlowRecord)
      → Halts l p
      → Halts (x ∷ l) (x ∷ p.0, p.1)
  Halts-take x l p (inl e) = inl e
  Halts-take x l p (inr s) = inr (record {
    pre = x ∷ s.pre;
    last = s.last;
    splits = ap (◌∷◌ x) s.splits;
    is_last = get_last?-cons x s.last p.0 s.is_last;
  })

  Halts-full : (x : FlowRecord) (l : List FlowRecord) → Halts (x ∷ l) (x ∷ [], l)
  Halts-full x l = inr (record { pre = []; last = x; splits = refl; is_last = refl })

  Halts-if :
      (b : Bool) (l : List FlowRecord) (p q : List FlowRecord × List FlowRecord)
      → Halts l p
      → Halts l q
      → Halts l (if b then p else q)
  Halts-if true l p q hp hq = hp
  Halts-if false l p q hp hq = hq

  scan-zero : (l : List FlowRecord) → scan matches zero l ≡ ([], l)
  unfolding scan
  scan-zero [] = refl
  scan-zero (x ∷ l) = refl

  pub scan-Halts : (n : ℕ) (l : List FlowRecord) → Halts l (scan matches (suc n) l)
  unfolding scan
  scan-Halts n [] = inl refl
  scan-Halts zero (x ∷ l) =
      Halts-if (matches x) _ _ _ (rw (scan-zero l) (Halts-full x l))
        (Halts-skip x l _ (scan-Halts zero l))
  scan-Halts (suc n) (x ∷ l) =
      Halts-if (matches x) _ _ _ (Halts-take x l _ (scan-Halts n l))
        (Halts-skip x l _ (scan-Halts (suc n) l))
