-- ===== src/Capture/Attribution.antt =====
-- Tab attribution (capture/attribution.py): joining the extension's observations to flows. Times are
-- whole units of the clock, which is an argument; reading wire entries is not modelled.
pub mod Accounts
pub mod Joined
use pporlock.Base.{
  ℕ, ◌+◌, ◌-◌, ◌*◌, ◌≡◌, Bool, true, false, not, Option, none, some, List, [], ◌∷◌, ◌++◌, text_eq,
  pair_eq, length, filter, leb, ltb, max, if◌then◌else◌, is_some,
}
use pporlock.Base.Int.{ℤ}
use pporlock.Base.Text.{Text, upper}
use pporlock.Base.Dict
use pporlock.Base.Dict.{Dict}
use pporlock.Capture.Records.{FlowKind, FlowRecord}

pub record AttributionEntry : Type 0 where
  pub method : Text
  pub url : Text
  pub ts : ℕ
  pub tab_id : ℤ

-- `AttributionEntry.key`
abbrev pub entry_key : AttributionEntry → Text × Text
entry_key e = (upper e.method, e.url)

-- `Coverage`
pub record Coverage : Type 0 where
  pub attributed : ℕ
  pub total : ℕ

abbrev is_http : FlowKind → Bool
is_http FlowKind.http = true
is_http _ = false

-- the loop of `coverage_of`
unfoldable pub coverage_from : Coverage → List FlowRecord → Coverage
coverage_from c [] = c
coverage_from c (r ∷ records) =
    coverage_from
      (if not (is_http r.kind)
        then c
        else if is_some r.tab_id
        then record { attributed = c.attributed + 1; total = c.total + 1 }
        else record c { total = c.total + 1 })
      records

-- `coverage_of`
unfoldable pub coverage_of : List FlowRecord → Coverage
unfolding coverage_from
coverage_of = coverage_from (record { attributed = 0; total = 0 })

-- `AttributionIndex`
pub record AttributionIndex : Type 0 where
  pub pending : Dict (Text × Text) AttributionEntry
  pub submitted : ℕ
  pub resolved : ℕ
  pub unresolved : ℕ
  pub dropped : ℕ
  pub window : ℕ
  pub max_pending : ℕ

unfoldable pub new_index : ℕ → ℕ → AttributionIndex
new_index window max_pending = record {
  pending = [];
  submitted = 0;
  resolved = 0;
  unresolved = 0;
  dropped = 0;
  window = window;
  max_pending = max_pending;
}

abbrev pub fresh : ℕ → ℕ → (Text × Text) × AttributionEntry → Bool
fresh now window (_, e) = leb (now - e.ts) (window * 2)

-- the `while` of `_evict`: the oldest go
unfoldable pub pop_oldest :
    AttributionIndex → Dict (Text × Text) AttributionEntry → AttributionIndex
pop_oldest s [] = record s { pending = [] }
pop_oldest s (e ∷ pending) =
    let rest = pop_oldest (record s { dropped = s.dropped + 1 }) pending in
    if ltb s.max_pending (length (e ∷ pending)) then rest else record s { pending = e ∷ pending }

-- `_evict`
unfoldable pub evict : ℕ → AttributionIndex → AttributionIndex
unfolding pop_oldest
evict now s =
    let kept = filter (fresh now s.window) s.pending in
    pop_oldest (record s { dropped = s.dropped + (length s.pending - length kept) }) kept

-- the loop of `submit`: `move_to_end` after the assignment
unfoldable pub submit_all : List AttributionEntry → AttributionIndex → AttributionIndex
unfolding Dict.remove
submit_all [] s = s
submit_all (e ∷ entries) s = submit_all entries (record s {
  pending = Dict.remove (entry_key e) s.pending ++ (entry_key e, e) ∷ [];
  submitted = s.submitted + 1;
})

-- `AttributionIndex.submit`, with the number accepted
unfoldable pub submit : ℕ → List AttributionEntry → AttributionIndex → AttributionIndex × ℕ
unfolding submit_all evict
submit now entries s = (evict now (submit_all entries s), length entries)

abbrev pub distance : ℕ → ℕ → ℕ
distance a b = max (a - b) (b - a)

-- what `resolve` does once it has looked the key up
abbrev pub join :
    Text × Text → ℕ → AttributionIndex → Option AttributionEntry → AttributionIndex × Option ℤ
join key moment s none = (record s { unresolved = s.unresolved + 1 }, none)
join key moment s (some e) =
    if ltb s.window (distance moment e.ts)
    then (record s { unresolved = s.unresolved + 1 }, none)
    else (
      record s { pending = Dict.remove key s.pending; resolved = s.resolved + 1 },
      some e.tab_id,
    )

-- `AttributionIndex.resolve`
unfoldable pub resolve : Text → Text → ℕ → AttributionIndex → AttributionIndex × Option ℤ
unfolding Dict.get Dict.remove
resolve method url moment s =
    join (upper method, url) moment s (Dict.get (upper method, url) s.pending)
