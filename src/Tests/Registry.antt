-- ===== src/Tests/Registry.antt =====
-- Modules and their statistics at small inputs.
use pporlock.Base.{
  ◌≡◌, refl, ◌≢◌, Bool, true, ◌&&◌, none, some, List, [], ◌∷◌, text_eq, length, filter, All, any,
  arith, if◌then◌else◌,
}
use pporlock.Base.Text.{Text, codes}
use pporlock.Base.Dict
use pporlock.Base.Dict.{Dict, values}
use pporlock.Engine.Provenance.{Action, Outcome, Phase, ProvenanceEntry, is_applied}
use pporlock.Engine.Modules.Registry.{LoadedModule, ModuleRegistry, ModuleState, active}
use pporlock.Engine.Modules.Registry.Quarantine.{Failed, fail_times, get_module, quarantine_exact}
use pporlock.Engine.Modules.Registry.Active.{Active, Rising, active_lem, is_active}
use pporlock.Engine.Cost.{one_matched, one_modified, record_flow}
use pporlock.Engine.Cost.Counts.{counted, of_module, record_flow_lem, row}
use pporlock.Tests.Data.{builder}

abbrev failing : ModuleState → LoadedModule
failing state = record {
  name = codes "m";
  priority = 1;
  enabled = true;
  state = state;
  rules = [];
  failures = 2;
  quarantined_at = none;
  on_request = none;
  on_response = none;
}

abbrev registry : ModuleState → ModuleRegistry
registry state = record { modules = (codes "m", failing state) ∷ []; quarantine_after = 3 }

there : (state : ModuleState) → get_module (codes "m") (registry state) ≡ some (failing state)
unfolding Dict.get text_eq
there state = refl

-- one failure more than two, where three are the bound
quarantine_exact_example :
    ((m' : LoadedModule) × (get_module
          (codes "m")
          (fail_times (codes "t") (codes "m") 1 (registry ModuleState.loaded) builder).0
        ≡ some m')
      × Failed 3 1 (failing ModuleState.loaded) m')
    × ((other : Text)
        → other ≢ codes "m"
        → get_module other
            (fail_times (codes "t") (codes "m") 1 (registry ModuleState.loaded) builder).0
          ≡ get_module other (registry ModuleState.loaded))
quarantine_exact_example =
    quarantine_exact (codes "t") (codes "m") 1 (registry ModuleState.loaded) builder
      (failing ModuleState.loaded) (there ModuleState.loaded) refl (omega arith)

active_lem_example :
    Rising (active none (registry ModuleState.loaded))
    × All (Active none) (active none (registry ModuleState.loaded))
    × ((test : LoadedModule → Bool)
        → length (filter test (active none (registry ModuleState.loaded)))
          ≡ length (
              filter
                (λ m. is_active none m && test m)
                (values (registry ModuleState.loaded).modules)))
active_lem_example = active_lem none (registry ModuleState.loaded)

abbrev entry : Outcome → ProvenanceEntry
entry outcome = record {
  seq = 0;
  phase = Phase.request_headers;
  module_name = codes "m";
  rule_id = codes "m:0";
  action = Action.headers;
  outcome = outcome;
  duration = 4;
}

abbrev entries : List ProvenanceEntry
entries = entry Outcome.applied ∷ entry Outcome.no_change ∷ []

record_flow_lem_example : row (codes "m") (record_flow entries []) ≡ (
    let once =
      if any (of_module (codes "m")) entries
      then one_matched (counted (codes "m") entries (row (codes "m") []))
      else counted (codes "m") entries (row (codes "m") []) in
    if any (λ e. is_applied e.outcome && of_module (codes "m") e) entries
    then one_modified once
    else once)
record_flow_lem_example = record_flow_lem entries [] (codes "m")
