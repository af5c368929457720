-- ===== src/Capture/Attribution/Accounts.antt =====
-- The bound on the index, and what becomes of the observations submitted (capture/attribution.py).
use pporlock.Base.{
  ℕ, ◌+◌, ◌-◌, ◌≤◌, ◌≡◌, refl, ◌∙◌, subst, Bool, true, none, List, [], ◌∷◌, ◌++◌, text_eq, pair_eq,
  length, filter, ltb, arith, Bool-cases, inl, inr, length-append, length-filter-le, ◌==◌,
  if◌then◌else◌,
}
use pporlock.Base.Text.{Text}
use pporlock.Base.Dict
use pporlock.Base.Dict.{
  Dict, get-remove_same, NodupKeys, set_absent, set-NodupKeys, remove-NodupKeys, remove_absent,
}
use pporlock.Capture.Attribution.{
  AttributionEntry, AttributionIndex, entry_key, fresh, pop_oldest, submit, submit_all, evict,
}

abbrev Pending : Type 0
Pending = Dict (Text × Text) AttributionEntry

-- no key is pending twice, and no more observations are resolved, dropped or pending than were
-- submitted
pub record IsAccounted (s : AttributionIndex) : Type 0 where
  pub distinct : NodupKeys s.pending
  pub accounts : s.resolved + s.dropped + length s.pending ≤ s.submitted

abbrev one_if : Bool → ℕ
one_if b = if b then 1 else 0

-- how many pending observations the given ones replace, each by one of the same method and address
abbrev pub replaced : List AttributionEntry → Pending → ℕ
replaced [] d = 0
replaced (e ∷ entries) d =
    one_if (Dict.has (entry_key e) d)
    + replaced entries (Dict.remove (entry_key e) d ++ (entry_key e, e) ∷ [])

-- what a step took in is resolved, dropped or pending afterwards, or was replaced
pub record Submitted (entries : List AttributionEntry) (s : AttributionIndex) (t : AttributionIndex)
    : Type 0 where
  pub balance :
      t.resolved + t.dropped + length t.pending + replaced entries s.pending
      ≡ s.resolved + s.dropped + length s.pending + length entries
  pub counted : t.submitted ≡ s.submitted + length entries
  pub as_resolved : t.resolved ≡ s.resolved
  pub as_unresolved : t.unresolved ≡ s.unresolved
  pub distinct : NodupKeys t.pending

length_absent :
    (k j : Text × Text) (d : Pending)
    → (j == k) ≡ true
    → Dict.get j d ≡ none
    → length (Dict.remove k d) + 1 ≡ length d + 1
length_absent k j d same h =
    let at_k : Dict.get k d ≡ none =
      subst (λ (i : Text × Text). Dict.get i d ≡ none) ((pair_eq.beq_iff j k).0 same) h in
    rw (remove_absent k d at_k) refl

-- removing a key takes one entry, or none where it is not there
pub length-remove :
    (k : Text × Text) (d : Pending)
    → NodupKeys d
    → length (Dict.remove k d) + one_if (Dict.has k d) ≡ length d
unfolding Dict.remove Dict.get
length-remove k [] n = refl
length-remove k ((j, e) ∷ d) n = elim (Bool-cases (j == k)) [
  | inl same ↦ rw same (omega (arith, length_absent k j d same n.0))
  | inr other ↦ rw other (omega (arith, length-remove k d n.1))
]

moved-NodupKeys :
    (k : Text × Text) (e : AttributionEntry) (d : Pending)
    → NodupKeys d
    → NodupKeys (Dict.remove k d ++ (k, e) ∷ [])
moved-NodupKeys k e d n =
    subst (λ (c : Pending). NodupKeys c) (set_absent k e (Dict.remove k d) (get-remove_same k d))
      (set-NodupKeys k e (Dict.remove k d) (remove-NodupKeys k d n))

-- the observation at the end, in the place of one of the same method and address
abbrev taken : AttributionEntry → AttributionIndex → AttributionIndex
taken e s = record s {
  pending = Dict.remove (entry_key e) s.pending ++ (entry_key e, e) ∷ [];
  submitted = s.submitted + 1;
}

submit_all-Submitted :
    (entries : List AttributionEntry) (s : AttributionIndex)
    → NodupKeys s.pending
    → Submitted entries s (submit_all entries s)
unfolding submit_all
submit_all-Submitted [] s n = record {
  balance = omega arith;
  counted = omega arith;
  as_resolved = refl;
  as_unresolved = refl;
  distinct = n;
}
submit_all-Submitted (e ∷ entries) s n =
    let rest =
      submit_all-Submitted entries (taken e s) (moved-NodupKeys (entry_key e) e s.pending n) in
    record {
      balance = omega (
        arith,
        rest.balance,
        length-append (Dict.remove (entry_key e) s.pending) ((entry_key e, e) ∷ []),
        length-remove (entry_key e) s.pending n,
      );
      counted = omega (arith, rest.counted);
      as_resolved = rest.as_resolved;
      as_unresolved = rest.as_unresolved;
      distinct = rest.distinct;
    }

get-filter :
    (test : (Text × Text) × AttributionEntry → Bool) (k : Text × Text) (d : Pending)
    → Dict.get k d ≡ none
    → Dict.get k (filter test d) ≡ none
unfolding Dict.get
get-filter test k [] h = refl
get-filter test k ((j, e) ∷ d) h = ground (arith, get-filter test k d)

filter-NodupKeys :
    (test : (Text × Text) × AttributionEntry → Bool) (d : Pending)
    → NodupKeys d
    → NodupKeys (filter test d)
filter-NodupKeys test [] n = tt
filter-NodupKeys test ((j, e) ∷ d) n = elim (Bool-cases (test (j, e))) [
  | inl h ↦ rw h (get-filter test j d n.0, filter-NodupKeys test d n.1)
  | inr h ↦ rw h (filter-NodupKeys test d n.1)
]

-- what popping the oldest of `d` gives
record Popped (d : Pending) (s : AttributionIndex) (t : AttributionIndex) : Type 0 where
  pub dropped_all : t.dropped + length t.pending ≡ s.dropped + length d
  pub counted : t.submitted ≡ s.submitted
  pub as_resolved : t.resolved ≡ s.resolved
  pub as_unresolved : t.unresolved ≡ s.unresolved
  pub distinct : NodupKeys t.pending
  pub bounded : length t.pending ≤ s.max_pending

pop_oldest-Popped : (d : Pending) (s : AttributionIndex) → NodupKeys d → Popped d s (pop_oldest s d)
unfolding pop_oldest
pop_oldest-Popped [] s n = record {
  dropped_all = refl;
  counted = refl;
  as_resolved = refl;
  as_unresolved = refl;
  distinct = tt;
  bounded = omega arith;
}
pop_oldest-Popped (e ∷ d) s n = elim (Bool-cases (ltb s.max_pending (length (e ∷ d)))) [
  | inl h ↦
      let rest = pop_oldest-Popped d (record s { dropped = s.dropped + 1 }) n.1 in
      rw h (record {
        dropped_all = omega (arith, rest.dropped_all);
        counted = rest.counted;
        as_resolved = rest.as_resolved;
        as_unresolved = rest.as_unresolved;
        distinct = rest.distinct;
        bounded = rest.bounded;
      })
  | inr h ↦ rw h (record {
    dropped_all = refl;
    counted = refl;
    as_resolved = refl;
    as_unresolved = refl;
    distinct = n;
    bounded = ground (arith, h);
  })
]

max_kept :
    (entries : List AttributionEntry) (s : AttributionIndex)
    → (submit_all entries s).max_pending ≡ s.max_pending
unfolding submit_all
max_kept [] s = refl
max_kept (e ∷ entries) s = max_kept entries (taken e s)

-- Submitting observations keeps every one of them accounted for: what was resolved, dropped or
-- pending before, together with the observations submitted, is exactly what is resolved, dropped or
-- pending afterwards, together with the pending ones that a later observation of the same method
-- and address replaced. Nothing is resolved by it, all of them are counted as submitted and
-- reported as accepted, no key is pending twice, and no more are pending than the bound. No key is
-- pending twice before, and no more are accounted for than were submitted.
pub submit-IsAccounted :
    (now : ℕ) (entries : List AttributionEntry) (s : AttributionIndex)
    → IsAccounted s
    → Submitted entries s (submit now entries s).0
      × IsAccounted (submit now entries s).0
      × (length (submit now entries s).0.pending ≤ s.max_pending)
      × ((submit now entries s).1 ≡ length entries)
unfolding submit evict
submit-IsAccounted now entries s a =
    let b = submit_all-Submitted entries s a.distinct in
    let t = submit_all entries s in
    let kept = filter (fresh now t.window) t.pending in
    let p =
      pop_oldest-Popped kept (record t { dropped = t.dropped + (length t.pending - length kept) })
        (filter-NodupKeys (fresh now t.window) t.pending b.distinct) in
    let fits = length-filter-le (fresh now t.window) t.pending in
    (
      record {
        balance = omega (arith, b.balance, p.dropped_all, p.as_resolved, fits);
        counted = omega (arith, p.counted, b.counted);
        as_resolved = p.as_resolved ∙ b.as_resolved;
        as_unresolved = p.as_unresolved ∙ b.as_unresolved;
        distinct = p.distinct;
      },
      record {
        distinct = p.distinct;
        accounts = omega (
          arith, a.accounts, b.balance, b.counted, p.dropped_all, p.as_resolved, p.counted, fits,
        );
      },
      omega (arith, p.bounded, max_kept entries s),
      refl,
    )
