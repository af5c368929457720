-- ===== src/Capture/Ring/Held.antt =====
-- What the ring holds after a call: accounting for a record that its holder changed, and the
-- newest record.
use pporlock.Base.{
  ℕ, suc, zero, ◌+◌, ◌≤◌, ◌<◌, ◌≡◌, refl, true, some, none, [], ◌∷◌, ◌++◌, text_eq, length, drop,
  arith, Bool-cases, inl, inr, ◌⊎◌,
}
use native.Mathlib.Decide.{dec_lt}
use pporlock.Base.Int.{ℤ, pos, ◌+ℤ◌, ◌-ℤ◌, eqb_ℤ}
use pporlock.Base.Text.{Text}
use pporlock.Base.Dict
use pporlock.Base.Dict.{Dict, get-set, get-append, set_absent}
use pporlock.Capture.Records.{FlowRecord, size_bytes}
use pporlock.Capture.Ring.{RingBuffer, forget, add, adjust, get}
use pporlock.Capture.Ring.Totals.{total-ge, total-set_present, length-set_present}
use pporlock.Capture.Ring.Bounds.{
  IsValid, IsBounded, Evicts, evict-IsBounded, changed-IsValid, staged, add-Evicts, forget-IsValid,
}

module _ (k : Text) (old new : FlowRecord) (r : RingBuffer) where
  -- the record of `k` was changed in place: the counter does not know it yet
  abbrev pub changed_in_place : RingBuffer
  changed_in_place = record r { records = Dict.set k new r.records }

  abbrev pub growth : ℤ
  growth = pos (size_bytes new) -ℤ pos (size_bytes old)

  no_growth : eqb_ℤ growth (pos 0) ≡ true → size_bytes new ≡ size_bytes old
  unfolding ◌-ℤ◌
  no_growth h = ground arith

  same_bytes :
      IsValid r
      → Dict.get k r.records ≡ some old
      → r.bytes +ℤ growth ≡ r.bytes -ℤ pos (size_bytes old) +ℤ pos (size_bytes new)
  unfolding ◌+ℤ◌ ◌-ℤ◌
  same_bytes v e = ground (arith, v.counted, total-ge k old r.records e)

  pub got : Dict.get k (Dict.set k new r.records) ≡ some new
  got = ground (arith, get-set {V = FlowRecord} k k new r.records, text_eq.beq_iff k k)

  module _ (b : IsBounded r) (e : Dict.get k r.records ≡ some old) (same : new.flow_id ≡ k) where
    changed_in_place-IsBounded : size_bytes new ≡ size_bytes old → IsBounded changed_in_place
    changed_in_place-IsBounded still =
        let held = total-set_present k old new r.records e in
        let exchanged = changed-IsValid k old new r e same b.valid in
        record {
          valid = record {
            distinct = exchanged.distinct;
            named = exchanged.named;
            counted = ground (arith, held, b.valid.counted);
          };
          fits = record {
            flows = rw (length-set_present k old new r.records e) b.fits.flows;
            bytes = omega (arith, held, b.fits.bytes);
          };
        }

    -- `adjust` by what the record grew or shrank restores the exact count and both bounds.
    pub adjust-IsBounded : IsBounded (adjust k growth changed_in_place)
    unfolding adjust
    adjust-IsBounded = elim (Bool-cases (eqb_ℤ growth (pos 0))) [
      | inl still ↦ rw (got, adjust) (rw still (changed_in_place-IsBounded (no_growth still)))
      | inr moved ↦
          rw (got, adjust)
            (rw moved (
              rw (same_bytes b.valid e)
                (evict-IsBounded _ (changed-IsValid k old new r e same b.valid)).0))
    ]

drop-append_le :
    (n : ℕ) (d : Dict Text FlowRecord) (k : Text) (v : FlowRecord)
    → n ≤ length d
    → drop n (d ++ (k, v) ∷ []) ≡ drop n d ++ (k, v) ∷ []
drop-append_le zero d k v h = refl
drop-append_le (suc n) [] k v h = absurd (omega arith)
drop-append_le (suc n) (e ∷ d) k v h = drop-append_le n d k v (omega arith)

drop_all : (d : Dict Text FlowRecord) → drop (length d) d ≡ []
drop_all [] = refl
drop_all (e ∷ d) = drop_all d

get-drop-none :
    (n : ℕ) (k : Text) (d : Dict Text FlowRecord)
    → Dict.get k d ≡ none
    → Dict.get k (drop n d) ≡ none
unfolding Dict.get
get-drop-none zero k d h = h
get-drop-none (suc n) k [] h = h
get-drop-none (suc n) k ((j, w) ∷ d) h = get-drop-none n k d (ground arith)

module _ (new : FlowRecord) (r : RingBuffer) (v : IsValid r) where
  abbrev older : Dict Text FlowRecord
  older = (forget new.flow_id r).records

  gone : Dict.get new.flow_id older ≡ none
  gone = (forget-IsValid new.flow_id r v).1

  staged-records : (staged new r v).records ≡ older ++ (new.flow_id, new) ∷ []
  staged-records = set_absent new.flow_id new older gone

  forget-limits :
      ((forget new.flow_id r).max_flows ≡ r.max_flows)
      × ((forget new.flow_id r).max_bytes ≡ r.max_bytes)
  unfolding forget
  forget-limits = ground arith

  alone : drop (length older) (staged new r v).records ≡ (new.flow_id, new) ∷ []
  alone =
      rw
        (
          staged-records,
          drop-append_le (length older) older new.flow_id new (omega arith),
          drop_all older,
        )
        refl

  not_alone :
      0 < r.max_flows
      → size_bytes new ≤ r.max_bytes
      → ((forget new.flow_id r).max_flows < 1)
        ⊎ ((forget new.flow_id r).max_bytes < size_bytes new + 0)
      → ⊥
  not_alone flows bytes h = ground (arith, forget-limits)

  kept_few :
      0 < r.max_flows
      → size_bytes new ≤ r.max_bytes
      → (h : Evicts (staged new r v).records (staged new r v) (add new r)) → h.n ≤ length older
  kept_few flows bytes h = elim (dec_lt (length older) h.n) [
    | no few ↦ omega arith
    | yes all ↦ absurd (not_alone flows bytes (rw alone at (h.needed (length older) all)))
  ]

  -- A record that fits the ring by itself is there right after `add`.
  pub get-add :
      0 < r.max_flows → size_bytes new ≤ r.max_bytes → get new.flow_id (add new r) ≡ some new
  unfolding get
  get-add flows bytes =
      let h = (add-Evicts new r v).1 in
      rw
        (
          h.dropped,
          staged-records,
          drop-append_le h.n older new.flow_id new (kept_few flows bytes h),
          get-append,
        )
        (ground (
          arith,
          get-drop-none h.n new.flow_id older gone,
          text_eq.beq_iff new.flow_id new.flow_id,
        ))

pub adjust_absent :
    (k : Text) (delta : ℤ) (r : RingBuffer) → Dict.get k r.records ≡ none → adjust k delta r ≡ r
unfolding adjust
adjust_absent k delta r e = rw (e, adjust) refl
