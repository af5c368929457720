-- ===== src/Capture/Ring/Distinct.antt =====
-- The records of a ring's listing have different ids, so a cursor finds its own place in it.
use mathlib.Core.List.{reverse-cons}
use pporlock.Base.{
  ◌≡◌, sym, ◌≢◌, some, none, List, [], ◌∷◌, ◌++◌, reverse, text_eq, arith, All, All-append,
}
use pporlock.Base.Text.{Text}
use pporlock.Base.Dict
use pporlock.Base.Dict.{Dict, NodupKeys}
use pporlock.Capture.Records.{FlowRecord}
use pporlock.Capture.Ring.{RingBuffer, newest_first, after_cursor}
use pporlock.Capture.Ring.Totals.{Named}
use pporlock.Capture.Ring.Bounds.{IsValid}

abbrev pub Others : FlowRecord → List FlowRecord → Type 0
Others x = All (λ y. y.flow_id ≢ x.flow_id)

abbrev pub Distinct : List FlowRecord → Type 0
Distinct [] = Unit
Distinct (x ∷ l) = Others x l × Distinct l

Distinct-snoc :
    (l : List FlowRecord) (x : FlowRecord) → Distinct l → Others x l → Distinct (l ++ x ∷ [])
Distinct-snoc [] x d o = (tt, tt)
Distinct-snoc (y ∷ l) x d o =
    (All-append _ l (x ∷ []) d.0 ((λ e. o.0 (sym e)), tt), Distinct-snoc l x d.1 o.1)

Others-reverse : (x : FlowRecord) (l : List FlowRecord) → Others x l → Others x (reverse l)
Others-reverse x [] o = o
Others-reverse x (y ∷ l) o =
    rw (reverse-cons y l) (All-append _ (reverse l) (y ∷ []) (Others-reverse x l o.1) (o.0, tt))

Distinct-reverse : (l : List FlowRecord) → Distinct l → Distinct (reverse l)
Distinct-reverse [] d = d
Distinct-reverse (x ∷ l) d =
    rw (reverse-cons x l)
      (Distinct-snoc (reverse l) x (Distinct-reverse l d.1) (Others-reverse x l d.0))

All-middle {κ} :
    (P : FlowRecord → Type κ) (pre : List FlowRecord) (x : FlowRecord) (rest : List FlowRecord)
    → All P (pre ++ x ∷ rest)
    → P x
All-middle P [] x rest h = h.0
All-middle P (y ∷ pre) x rest h = All-middle P pre x rest h.1

pub Others-split :
    (pre : List FlowRecord) (x : FlowRecord) (rest : List FlowRecord)
    → Distinct (pre ++ x ∷ rest)
    → Others x pre
Others-split [] x rest d = tt
Others-split (y ∷ pre) x rest d =
    ((λ e. All-middle _ pre x rest d.0 (sym e)), Others-split pre x rest d.1)

pub after_cursor-found :
    (pre : List FlowRecord) (x : FlowRecord) (rest : List FlowRecord)
    → Others x pre
    → after_cursor x.flow_id (pre ++ x ∷ rest) ≡ some rest
unfolding after_cursor
after_cursor-found [] x rest o = ground (arith, text_eq.beq_iff x.flow_id x.flow_id)
after_cursor-found (y ∷ pre) x rest o =
    ground (arith, text_eq.beq_iff y.flow_id x.flow_id, after_cursor-found pre x rest o.1)

Others-values :
    (k : Text) (x : FlowRecord) (d : Dict Text FlowRecord)
    → x.flow_id ≡ k
    → Named d
    → Dict.get k d ≡ none
    → Others x (Dict.values d)
unfolding Dict.get
Others-values k x [] e n h = tt
Others-values k x ((j, w) ∷ d) e n h =
    (ground (arith, text_eq.beq_iff j k), Others-values k x d e n.1 (ground arith))

Distinct-values : (d : Dict Text FlowRecord) → Named d → NodupKeys d → Distinct (Dict.values d)
Distinct-values [] n u = tt
Distinct-values ((k, x) ∷ d) n u = (Others-values k x d n.0 n.1 u.0, Distinct-values d n.1 u.1)

pub Distinct-newest : (r : RingBuffer) → IsValid r → Distinct (newest_first r)
unfolding newest_first
Distinct-newest r v = Distinct-reverse _ (Distinct-values r.records v.named v.distinct)
