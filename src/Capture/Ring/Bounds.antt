-- ===== src/Capture/Ring/Bounds.antt =====
-- The ring's invariant: every operation keeps the byte counter equal to what the records hold, and
-- leaves the ring within both bounds.
use pporlock.Base.{
  ℕ, zero, suc, ◌+◌, ◌≤◌, ◌<◌, ◌≡◌, refl, ◌∙◌, ◌⊎◌, true, false, some, none, [], ◌∷◌, text_eq,
  length, drop, arith, Bool-cases, Option-cases, inl, inr,
}
use pporlock.Base.Int.{pos, ◌+ℤ◌, ◌-ℤ◌, pos--ℤ}
use pporlock.Base.Text.{Text}
use pporlock.Base.Dict
use pporlock.Base.Dict.{Dict, NodupKeys, get-remove, set-NodupKeys, remove-NodupKeys}
use pporlock.Capture.Records.{FlowRecord, size_bytes}
use pporlock.Capture.Ring.{RingBuffer, over, pop_oldest, evict_from, evict, forget, add, update}
use pporlock.Capture.Ring.Totals.{
  total, Named, total-set_absent, total-remove, total-set_present, Named-set, Named-remove,
  get-Named, total-ge,
}

pub record IsValid (r : RingBuffer) : Type 0 where
  pub distinct : NodupKeys r.records
  pub named : Named r.records
  pub counted : r.bytes ≡ pos (total r.records)

pub record Fits (r : RingBuffer) : Type 0 where
  pub flows : length r.records ≤ r.max_flows
  pub bytes : total r.records ≤ r.max_bytes

-- both, the form in which the operations are stated
pub record IsBounded (r : RingBuffer) : Type 0 where
  pub valid : IsValid r
  pub fits : Fits r

abbrev pub SameLimits : RingBuffer → RingBuffer → Type 0
SameLimits r s = (s.max_flows ≡ r.max_flows) × (s.max_bytes ≡ r.max_bytes)

-- What the loop of `_evict` does: it drops the `n` oldest records, counts them, and stops at the
-- first point where the rest fits.
pub record Evicts (d : Dict Text FlowRecord) (r s : RingBuffer) : Type 0 where
  pub n : ℕ
  pub dropped : s.records ≡ drop n d
  pub tallied : s.evicted ≡ r.evicted + n
  pub needed :
      (m : ℕ) → m < n → (r.max_flows < length (drop m d)) ⊎ (r.max_bytes < total (drop m d))
  pub limits : SameLimits r s

module _ (r : RingBuffer) (k : Text) (oldest : FlowRecord) (rest : Dict Text FlowRecord) where
  pop_oldest-IsValid :
      r.records ≡ (k, oldest) ∷ rest → IsValid r → IsValid (pop_oldest r oldest rest)
  unfolding ◌-ℤ◌
  pop_oldest-IsValid e v = record {
    distinct = (rw e at v.distinct).1;
    named = (rw e at v.named).1;
    counted =
        let c : r.bytes ≡ pos (size_bytes oldest + total rest) = rw e at v.counted in
        rw c (pos--ℤ (size_bytes oldest) (total rest));
  }

  over-false : r.records ≡ (k, oldest) ∷ rest → IsValid r → over r ≡ false → Fits r
  over-false e v h = record { flows = ground arith; bytes = ground (arith, v.counted) }

  over-true :
      r.records ≡ (k, oldest) ∷ rest
      → IsValid r
      → over r ≡ true
      → (r.max_flows < length ((k, oldest) ∷ rest)) ⊎ (r.max_bytes < total ((k, oldest) ∷ rest))
  over-true e v h = ground (arith, v.counted)

evict_from-more :
    (k : Text) (oldest : FlowRecord) (rest : Dict Text FlowRecord) (r : RingBuffer)
    → r.records ≡ (k, oldest) ∷ rest
    → IsValid r
    → over r ≡ true
    → {s : RingBuffer} → IsBounded s × Evicts rest (pop_oldest r oldest rest) s
    → IsBounded s × Evicts ((k, oldest) ∷ rest) r s
evict_from-more k oldest rest r e v more (b, h) = (
  b,
  record {
    n = suc h.n;
    dropped = h.dropped;
    tallied = omega (arith, h.tallied);
    needed = elim [
      | zero ↦ λ _. over-true r k oldest rest e v more
      | suc m ↦ λ lt. h.needed m (omega arith)
    ];
    limits = h.limits;
  },
)

evict_from-IsBounded :
    (d : Dict Text FlowRecord) (r : RingBuffer)
    → r.records ≡ d
    → IsValid r
    → IsBounded (evict_from d r) × Evicts d r (evict_from d r)
unfolding evict_from
evict_from-IsBounded [] r e v = (
  record { valid = v; fits = record { flows = rw e (omega arith); bytes = rw e (omega arith) } },
  record {
    n = 0;
    dropped = e;
    tallied = omega arith;
    needed = λ m h. absurd (omega arith);
    limits = (refl, refl);
  },
)
evict_from-IsBounded ((k, oldest) ∷ rest) r e v = elim (Bool-cases (over r)) [
  | inl more ↦ rw more (
      evict_from-more k oldest rest r e v more (
        evict_from-IsBounded rest (pop_oldest r oldest rest) refl
          (pop_oldest-IsValid r k oldest rest e v)))
  | inr done ↦ rw done (
    record { valid = v; fits = over-false r k oldest rest e v done },
    record {
      n = 0;
      dropped = e;
      tallied = omega arith;
      needed = λ m h. absurd (omega arith);
      limits = (refl, refl);
    },
  )
]

-- `_evict`: from a valid ring the loop ends with both bounds met, having dropped as few of the
-- oldest records as that takes and nothing else.
pub evict-IsBounded :
    (r : RingBuffer) → IsValid r → IsBounded (evict r) × Evicts r.records r (evict r)
unfolding evict
evict-IsBounded r v = evict_from-IsBounded r.records r refl v

pub forget-IsValid :
    (k : Text) (r : RingBuffer)
    → IsValid r
    → IsValid (forget k r) × (Dict.get k (forget k r).records ≡ none)
unfolding forget ◌-ℤ◌
forget-IsValid k r v = elim (Option-cases (Dict.get k r.records)) [
  | inl e ↦ rw (e, forget) (v, e)
  | inr (old, e) ↦
      rw (e, forget)
        (
          record {
            distinct = remove-NodupKeys k r.records v.distinct;
            named = Named-remove k r.records v.named;
            counted = ground (arith, v.counted, total-remove k old r.records v.distinct e);
          },
          ground (arith, get-remove {V = FlowRecord} k k r.records, text_eq.beq_iff k k),
        )
]

abbrev pub put : FlowRecord → RingBuffer → RingBuffer
put new base = record base {
  records = Dict.set new.flow_id new base.records;
  bytes = base.bytes +ℤ pos (size_bytes new);
}

put-IsValid :
    (new : FlowRecord) (base : RingBuffer)
    → IsValid base
    → Dict.get new.flow_id base.records ≡ none
    → IsValid (put new base)
unfolding ◌+ℤ◌
put-IsValid new base v e = record {
  distinct = set-NodupKeys new.flow_id new base.records v.distinct;
  named = Named-set new.flow_id new base.records refl v.named;
  counted = ground (arith, v.counted, total-set_absent new.flow_id new base.records e);
}

-- the record of `k` is exchanged, and the counter follows
pub changed-IsValid :
    (k : Text) (old new : FlowRecord) (r : RingBuffer)
    → Dict.get k r.records ≡ some old
    → new.flow_id ≡ k
    → IsValid r
    → IsValid (record r {
      records = Dict.set k new r.records;
      bytes = r.bytes -ℤ pos (size_bytes old) +ℤ pos (size_bytes new);
    })
unfolding ◌+ℤ◌ ◌-ℤ◌
changed-IsValid k old new r e same v = record {
  distinct = set-NodupKeys k new r.records v.distinct;
  named = Named-set k new r.records same v.named;
  counted =
      ground
        (arith, v.counted, total-set_present k old new r.records e, total-ge k old r.records e);
}

module _ (new : FlowRecord) (r : RingBuffer) (v : IsValid r) where
  abbrev pub staged : RingBuffer
  staged = put new (forget new.flow_id r)

  pub staged-IsValid : IsValid staged
  staged-IsValid =
      let (fv, gone) = forget-IsValid new.flow_id r v in
      put-IsValid new (forget new.flow_id r) fv gone

  pub add-Evicts : IsBounded (add new r) × Evicts staged.records staged (add new r)
  unfolding add
  add-Evicts = evict-IsBounded staged staged-IsValid

-- `add` keeps the byte counter exact and both bounds met, whatever the record, and also where the
-- id was there before.
pub add-IsBounded : (new : FlowRecord) (r : RingBuffer) → IsValid r → IsBounded (add new r)
add-IsBounded new r v = (add-Evicts new r v).0

-- `update`: the same, for a patch that does not touch the id.
pub update-IsBounded :
    (k : Text) (change : FlowRecord → FlowRecord) (r : RingBuffer)
    → ((old : FlowRecord) → (change old).flow_id ≡ old.flow_id)
    → IsBounded r
    → IsBounded (update k change r).0
unfolding update
update-IsBounded k change r same b = elim (Option-cases (Dict.get k r.records)) [
  | inl e ↦ rw (e, update) b
  | inr (old, e) ↦
      rw (e, update)
        (evict-IsBounded _ (
          changed-IsValid k old (change old) r e
            (same old ∙ get-Named k old r.records b.valid.named e) b.valid)).0
]
