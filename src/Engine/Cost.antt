-- ===== src/Engine/Cost.antt =====
-- Work classification and per-module statistics (engine/cost.py, and `record_provenance` of
-- engine/modules/registry.py). Durations are whole units; the reasons are not modelled.
pub mod Counts
use pporlock.Base.{
  ℕ, ◌+◌, ◌≡◌, Bool, true, false, not, Option, none, some, List, [], ◌∷◌, ◌++◌, ◌==◌, text_eq,
  contains, leb, max, if◌then◌else◌, or_else,
}
use pporlock.Base.Text.{Text, codes, non_empty}
use pporlock.Base.Dict
use pporlock.Base.Dict.{Dict}
use pporlock.Engine.Provenance.{Outcome, ProvenanceEntry, is_applied, is_error}

pub data Cost : Type 0 where
  cheap sized expensive : Cost

-- `TRANSFORM_COST`
abbrev transform_cost : Dict Text Cost
transform_cost =
    (codes "strip_integrity_attributes", Cost.expensive)
    ∷ (codes "inject_script", Cost.expensive)
    ∷ (codes "inject_style", Cost.expensive)
    ∷ (codes "strip_csp", Cost.cheap)
    ∷ (codes "regex_sub", Cost.sized)
    ∷ (codes "replace_literal", Cost.sized)
    ∷ (codes "json_patch", Cost.sized)
    ∷ []

-- `cost_of`
unfoldable pub cost_of : Text → Cost
unfolding Dict.get
cost_of kind = or_else (Dict.get kind transform_cost) Cost.expensive

-- the branches of `decide_offload` on a cost
abbrev pub offload_of : Cost → ℕ → ℕ → Bool
offload_of Cost.expensive body_bytes threshold = true
offload_of Cost.cheap body_bytes threshold = false
offload_of Cost.sized body_bytes threshold = leb threshold body_bytes

-- `decide_offload`
unfoldable pub decide_offload : Text → ℕ → ℕ → Bool
unfolding cost_of
decide_offload kind body_bytes threshold = offload_of (cost_of kind) body_bytes threshold

-- `ModuleStat`
pub record ModuleStat : Type 0 where
  pub flows_matched : ℕ
  pub flows_modified : ℕ
  pub entries : ℕ
  pub applied : ℕ
  pub errors : ℕ
  pub total : ℕ
  pub max_time : ℕ

abbrev pub new_stat : ModuleStat
new_stat = record {
  flows_matched = 0;
  flows_modified = 0;
  entries = 0;
  applied = 0;
  errors = 0;
  total = 0;
  max_time = 0;
}

abbrev pub one_if : Bool → ℕ
one_if true = 1
one_if false = 0

-- one entry folded into a module's row
unfoldable pub count_entry : ProvenanceEntry → ModuleStat → ModuleStat
count_entry entry s = record s {
  entries = s.entries + 1;
  applied = s.applied + one_if (is_applied entry.outcome);
  errors = s.errors + one_if (is_error entry.outcome);
  total = s.total + entry.duration;
  max_time = max s.max_time entry.duration;
}

abbrev pub attributed : Text → Text
attributed name = if non_empty name then name else codes "(unattributed)"

-- a set of names
abbrev pub with_name : Text → List Text → List Text
with_name name names = if contains names name then names else name ∷ names

-- what the loop of `record` builds: the rows, `matched` and `modified`
pub record Tally : Type 0 where
  pub stats : Dict Text ModuleStat
  pub matched : List Text
  pub modified : List Text

unfoldable pub tally : List ProvenanceEntry → Tally → Tally
unfolding count_entry Dict.get Dict.set
tally [] t = t
tally (entry ∷ entries) t =
    let name = attributed entry.module_name in
    tally entries (record {
      stats = Dict.set name (count_entry entry (or_else (Dict.get name t.stats) new_stat)) t.stats;
      matched = with_name name t.matched;
      modified = if is_applied entry.outcome then with_name name t.modified else t.modified;
    })

-- the rows whose names are in the set get one flow more
unfoldable pub bump :
    (ModuleStat → ModuleStat) → List Text → Dict Text ModuleStat → Dict Text ModuleStat
unfolding Dict.get Dict.set
bump f [] stats = stats
bump f (name ∷ names) stats =
    bump f names (Dict.set name (f (or_else (Dict.get name stats) new_stat)) stats)

abbrev pub one_matched : ModuleStat → ModuleStat
one_matched s = record s { flows_matched = s.flows_matched + 1 }

abbrev pub one_modified : ModuleStat → ModuleStat
one_modified s = record s { flows_modified = s.flows_modified + 1 }

-- `ModuleCostIndex.record`
unfoldable pub record_flow : List ProvenanceEntry → Dict Text ModuleStat → Dict Text ModuleStat
unfolding tally bump
record_flow entries stats =
    let t = tally entries (record { stats = stats; matched = []; modified = [] }) in
    bump one_modified t.modified (bump one_matched t.matched t.stats)
