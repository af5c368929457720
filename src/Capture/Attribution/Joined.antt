-- ===== src/Capture/Attribution/Joined.antt =====
-- What resolving a request gives (capture/attribution.py).
use pporlock.Base.{
  ℕ, ◌+◌, ◌≤◌, ◌≡◌, refl, sym, subst, true, Option, none, some, text_eq, pair_eq, length, ltb,
  arith, Bool-cases, inl, inr, ◌↔◌,
}
use pporlock.Base.Int.{ℤ}
use pporlock.Base.Text.{Text, upper}
use pporlock.Base.Dict
use pporlock.Base.Dict.{
  Dict, get-remove_same, NodupKeys, set_absent, set-NodupKeys, remove-NodupKeys, remove_absent,
}
use pporlock.Capture.Attribution.{AttributionEntry, AttributionIndex, distance, join, resolve}
use pporlock.Capture.Attribution.Accounts.{IsAccounted, length-remove}

too_far :
    (moment window : ℕ) (e f : AttributionEntry)
    → ltb window (distance moment f.ts) ≡ true
    → distance moment e.ts ≤ window
    → f ≡ e
    → ⊥
too_far moment window e f far near same = absurd (
    ground
      (arith, far, subst (λ (x : AttributionEntry). distance moment x.ts ≤ window) (sym same) near))

-- an observation of the key is pending that was made within the window
abbrev pub Near : Text × Text → ℕ → AttributionIndex → AttributionEntry → Type 0
Near key moment s e = (Dict.get key s.pending ≡ some e) × (distance moment e.ts ≤ s.window)

-- What resolving a request gives. A hit names the tab of an observation that is near; one entry goes,
-- which is counted as resolved, and the same request is not joined again, whenever it comes. A miss
-- is counted, and changes nothing else.
pub data Resolved (method url : Text) (moment later : ℕ) (s : AttributionIndex)
    : AttributionIndex × Option ℤ → Type 0 where
  hit :
      {t : AttributionIndex} (e : AttributionEntry)
      → Near (upper method, url) moment s e
      → t ≡ record s { pending = t.pending; resolved = s.resolved + 1 }
      → length t.pending + 1 ≡ length s.pending
      → (resolve method url later t).1 ≡ none
      → Resolved method url moment later s (t, some e.tab_id)
  miss : Resolved method url moment later s (record s { unresolved = s.unresolved + 1 }, none)

-- what `join` gives for what was looked up
abbrev Joins : Text → Text → ℕ → ℕ → AttributionIndex → AttributionIndex × Option ℤ → Type 0
Joins method url moment later s done =
    (((tab : ℤ) × (done.1 ≡ some tab))
      ↔ ((e : AttributionEntry) × Near (upper method, url) moment s e))
    × Resolved method url moment later s done
    × IsAccounted done.0

join_lem :
    (method url : Text) (moment later : ℕ) (s : AttributionIndex) (o : Option AttributionEntry)
    → Dict.get (upper method, url) s.pending ≡ o
    → IsAccounted s
    → Joins method url moment later s (join (upper method, url) moment s o)
unfolding resolve
join_lem method url moment later s none g a = (
  ((λ h. absurd (cc (h.1))), (λ n. absurd (cc (g, n.1.0)))),
  Resolved.miss,
  record { distinct = a.distinct; accounts = a.accounts },
)
join_lem method url moment later s (some e) g a =
    let key : Text × Text = (upper method, url) in
    elim (Bool-cases (ltb s.window (distance moment e.ts))) [
      | inl far ↦ rw far (
        (
          (λ h. absurd (cc (h.1))),
          (λ n. absurd (too_far moment s.window n.0 e far n.1.1 (cc (g, n.1.0)))),
        ),
        Resolved.miss,
        record { distinct = a.distinct; accounts = a.accounts },
      )
      | inr near ↦
          let within : distance moment e.ts ≤ s.window = ground (arith, near) in
          let gone : length (Dict.remove key s.pending) + 1 ≡ length s.pending =
            rw g at (length-remove key s.pending a.distinct) in
          rw near (
            ((λ h. (e, (g, within))), (λ n. (e.tab_id, refl))),
            Resolved.hit e (g, within) refl gone (rw (get-remove_same key s.pending) refl),
            record {
              distinct = remove-NodupKeys key s.pending a.distinct;
              accounts = omega (arith, a.accounts, gone);
            },
          )
    ]

-- A request is joined to a tab exactly when an observation of its method and address is pending
-- that lies within the window. Then it is joined to that observation's tab; exactly one entry goes
-- and is counted as resolved, everything else but the pending entries stays, and the same request
-- is not joined again, whenever it comes. Otherwise the miss is counted and nothing else changes.
-- No key is pending twice afterwards, and no more are accounted for than were submitted, if it was
-- so before.
pub resolve_lem :
    (method url : Text) (moment later : ℕ) (s : AttributionIndex)
    → IsAccounted s
    → (((tab : ℤ) × ((resolve method url moment s).1 ≡ some tab))
        ↔ ((e : AttributionEntry) × Near (upper method, url) moment s e))
      × Resolved method url moment later s (resolve method url moment s)
      × IsAccounted (resolve method url moment s).0
unfolding resolve
resolve_lem method url moment later s a =
    join_lem method url moment later s (Dict.get (upper method, url) s.pending) refl a
