-- ===== src/Engine/Cost/Counts.antt =====
-- What one flow adds to the row of each module.
use pporlock.Base.{
  ◌≡◌, refl, ap, ap₂, ◌∙◌, Bool, true, false, ◌&&◌, ◌||◌, List, [], ◌∷◌, ◌==◌, text_eq, contains,
  any, arith, Bool-cases, inl, inr, if◌then◌else◌, or_else,
}
use pporlock.Base.Text.{Text}
use pporlock.Base.Dict
use pporlock.Base.Dict.{Dict, get-set}
use pporlock.Engine.Provenance.{ProvenanceEntry, is_applied}
use pporlock.Engine.Cost.{
  ModuleStat, Tally, attributed, bump, count_entry, new_stat, one_matched, one_modified,
  record_flow, tally, with_name,
}

abbrev pub row : Text → Dict Text ModuleStat → ModuleStat
row name stats = or_else (Dict.get name stats) new_stat

-- is the entry that module's?
abbrev pub of_module : Text → ProvenanceEntry → Bool
of_module name e = attributed e.module_name == name

-- the entries of one module, folded one after the other
unfoldable pub counted : Text → List ProvenanceEntry → ModuleStat → ModuleStat
counted name [] s = s
counted name (e ∷ entries) s =
    counted name entries (if of_module name e then count_entry e s else s)

row-set :
    (name other : Text) (s : ModuleStat) (stats : Dict Text ModuleStat)
    → row name (Dict.set other s stats) ≡ (if other == name then s else row name stats)
row-set name other s stats = ground (arith, get-set other name s stats)

Distinct : List Text → Type 0
Distinct [] = Unit
Distinct (n ∷ ns) = (contains ns n ≡ false) × Distinct ns

contains-with :
    (name other : Text) (names : List Text)
    → contains (with_name name names) other ≡ contains names other || name == other
contains-with name other names = ground (arith, text_eq.beq_iff name other)

Distinct-with : (name : Text) (names : List Text) → Distinct names → Distinct (with_name name names)
unfolding Distinct
Distinct-with name names d = elim (Bool-cases (contains names name)) [
  | inl e ↦ rw e d
  | inr e ↦ rw e (e, d)
]

Distinct-if :
    (c : Bool) (name : Text) (names : List Text)
    → Distinct names
    → Distinct (if c then with_name name names else names)
Distinct-if true name names d = Distinct-with name names d
Distinct-if false name names d = d

bump_lem :
    (f : ModuleStat → ModuleStat) (names : List Text) (stats : Dict Text ModuleStat) (name : Text)
    → Distinct names
    → row name (bump f names stats)
      ≡ (if contains names name then f (row name stats) else row name stats)
unfolding bump Distinct
bump_lem f [] stats name d = refl
bump_lem f (n ∷ ns) stats name d =
    bump_lem f ns (Dict.set n (f (row n stats)) stats) name d.1
    ∙ ground (arith, row-set name n (f (row n stats)) stats, text_eq.beq_iff n name, d.0)

row-tally :
    (entries : List ProvenanceEntry) (t : Tally) (name : Text)
    → row name (tally entries t).stats ≡ counted name entries (row name t.stats)
unfolding tally counted
row-tally [] t name = refl
row-tally (e ∷ entries) t name =
    row-tally entries _ name
    ∙ ap (counted name entries) (
        row-set name (attributed e.module_name)
          (count_entry e (row (attributed e.module_name) t.stats)) t.stats
        ∙ ground (arith, text_eq.beq_iff (attributed e.module_name) name))

tally_matched :
    (entries : List ProvenanceEntry) (t : Tally) (name : Text)
    → contains (tally entries t).matched name
      ≡ contains t.matched name || any (of_module name) entries
unfolding tally
tally_matched [] t name = ground arith
tally_matched (e ∷ entries) t name =
    tally_matched entries _ name
    ∙ ground (arith, contains-with (attributed e.module_name) name t.matched)

tally_modified :
    (entries : List ProvenanceEntry) (t : Tally) (name : Text)
    → contains (tally entries t).modified name
      ≡ contains t.modified name || any (λ e. is_applied e.outcome && of_module name e) entries
unfolding tally
tally_modified [] t name = ground arith
tally_modified (e ∷ entries) t name =
    tally_modified entries _ name
    ∙ ground (arith, contains-with (attributed e.module_name) name t.modified)

tally-Distinct :
    (entries : List ProvenanceEntry) (t : Tally)
    → Distinct t.matched
    → Distinct t.modified
    → Distinct (tally entries t).matched × Distinct (tally entries t).modified
unfolding tally
tally-Distinct [] t a b = (a, b)
tally-Distinct (e ∷ entries) t a b =
    tally-Distinct entries _ (Distinct-with _ t.matched a)
      (Distinct-if (is_applied e.outcome) _ t.modified b)

pub record_flow_lem :
    (entries : List ProvenanceEntry) (stats : Dict Text ModuleStat) (name : Text)
    → row name (record_flow entries stats) ≡ (
        let once =
          if any (of_module name) entries
          then one_matched (counted name entries (row name stats))
          else counted name entries (row name stats) in
        if any (λ e. is_applied e.outcome && of_module name e) entries
        then one_modified once
        else once)
unfolding record_flow Distinct
record_flow_lem entries stats name =
    let start : Tally = record { stats = stats; matched = []; modified = [] } in
    let t = tally entries start in
    let d = tally-Distinct entries start tt tt in
    bump_lem one_modified t.modified (bump one_matched t.matched t.stats) name d.1
    ∙ ap (λ s. if contains t.modified name then one_modified s else s)
        (bump_lem one_matched t.matched t.stats name d.0)
    ∙ ap₂
        (λ b c.
          let r = row name t.stats in
          let once = if c then one_matched r else r in if b then one_modified once else once)
        (tally_modified entries start name) (tally_matched entries start name)
    ∙ ap
        (λ r.
          let once = if any (of_module name) entries then one_matched r else r in
          if any (λ e. is_applied e.outcome && of_module name e) entries
          then one_modified once
          else once)
        (row-tally entries start name)
