-- ===== src/Engine/Modules/Registry.antt =====
-- The set of loaded modules (engine/modules/registry.py): enablement, order and quarantine. A hook is
-- the module's own code, so it is a value that a module carries. Settings, stores, reports, statistics
-- and the sidecar file are not modelled here, nor the messages.
pub mod Quarantine
pub mod Active
use pporlock.Base.{
  ℕ, ◌+◌, ◌≡◌, Bool, true, false, not, ◌&&◌, ◌||◌, Option, none, some, List, [], ◌∷◌, ◌++◌, ◌==◌,
  text_eq, map, contains, filter, ltb, eqb, if◌then◌else◌,
}
use pporlock.Base.Text.{Text, text_leb}
use pporlock.Base.Dict
use pporlock.Base.Dict.{Dict, values}
use pporlock.Engine.Models.{
  Bytes, HeaderOp, NormalizedRequest, NormalizedResponse, RedirectSpec, SyntheticResponse,
}
use pporlock.Engine.Provenance.{Builder, NoteCode, Severity, note}
use pporlock.Engine.RuleSet.{CompiledRule, RuleSet, make_ruleset}

pub data ModuleState : Type 0 where
  loaded load_error quarantined : ModuleState

-- what a hook may hand back
pub record Mutation : Type 0 where
  pub ops : List HeaderOp
  pub status : Option ℕ
  pub body : Option Bytes
  pub redirect : Option RedirectSpec
  pub short_circuit : Option SyntheticResponse

-- one call of a hook: it raises, or returns, leaving notes
pub data HookResult : Type 0 where
  raises : HookResult
  returns : Option Mutation → List (NoteCode × Severity) → HookResult

abbrev pub Hook : Type 0
Hook = NormalizedRequest → Option NormalizedResponse → HookResult

-- `LoadedModule`; `on_request` and `on_response` are there when the module has the hook and a context
pub record LoadedModule : Type 0 where
  pub name : Text
  pub priority : ℕ
  pub enabled : Bool
  pub state : ModuleState
  pub rules : List CompiledRule
  pub failures : ℕ
  pub quarantined_at : Option Text
  pub on_request : Option Hook
  pub on_response : Option Hook

-- `ModuleRegistry`
pub record ModuleRegistry : Type 0 where
  pub modules : Dict Text LoadedModule
  pub quarantine_after : ℕ

abbrev pub is_loaded : ModuleState → Bool
is_loaded ModuleState.loaded = true
is_loaded _ = false

abbrev pub is_quarantined : ModuleState → Bool
is_quarantined ModuleState.quarantined = true
is_quarantined _ = false

-- the key of `modules`
abbrev pub module_le : LoadedModule → LoadedModule → Bool
module_le m n = ltb m.priority n.priority || (eqb m.priority n.priority && text_leb m.name n.name)

unfoldable pub insert_module : LoadedModule → List LoadedModule → List LoadedModule
insert_module m [] = m ∷ []
insert_module m (n ∷ ms) =
    let rest = insert_module m ms in if module_le m n then m ∷ n ∷ ms else n ∷ rest

unfoldable pub sort_modules : List LoadedModule → List LoadedModule
unfolding insert_module
sort_modules [] = []
sort_modules (m ∷ ms) = insert_module m (sort_modules ms)

-- the property `modules`
unfoldable pub modules_of : ModuleRegistry → List LoadedModule
unfolding sort_modules
modules_of r = sort_modules (values r.modules)

abbrev pub in_profile : Option (List Text) → Text → Bool
in_profile none name = true
in_profile (some names) name = contains names name

-- the tests of `active`, in their order
abbrev pub runs : Option (List Text) → LoadedModule → Bool
runs profile m =
    if not (is_loaded m.state) || not m.enabled
    then false
    else if not (in_profile profile m.name)
    then false
    else true

-- `ModuleRegistry.active`
unfoldable pub active : Option (List Text) → ModuleRegistry → List LoadedModule
unfolding modules_of
active profile r = filter (runs profile) (modules_of r)

unfoldable pub rules_of : List LoadedModule → List CompiledRule
rules_of [] = []
rules_of (m ∷ ms) = m.rules ++ rules_of ms

-- `ModuleRegistry.build_ruleset`
unfoldable pub build_ruleset : Option (List Text) → ModuleRegistry → RuleSet
unfolding active rules_of
build_ruleset profile r =
    make_ruleset (rules_of (active profile r)) (map (λ m. m.name) (active profile r))

-- a module that is there is changed in place
unfoldable pub change : Text → (LoadedModule → LoadedModule) → ModuleRegistry → ModuleRegistry
unfolding Dict.get Dict.set
change name f r = elim (Dict.get name r.modules) [
  | none ↦ r
  | some m ↦ record r { modules = Dict.set name (f m) r.modules }
]

-- what `set_enabled` does to the module: enabling lifts a quarantine
unfoldable pub enable : Bool → LoadedModule → LoadedModule
enable enabled m =
    if enabled && is_quarantined m.state
    then record m {
      enabled = enabled;
      state = ModuleState.loaded;
      failures = 0;
      quarantined_at = none;
    }
    else record m { enabled = enabled }

-- `ModuleRegistry.set_enabled`
unfoldable pub set_enabled : Text → Bool → ModuleRegistry → ModuleRegistry
unfolding change enable
set_enabled name enabled = change name (enable enabled)

-- `_recompile_priority`: the rules carry the priority too
unfoldable pub recompile_priority : ℕ → LoadedModule → LoadedModule
recompile_priority priority m = record m {
  priority = priority;
  rules = map {A = CompiledRule} (λ r. record r { priority = priority }) m.rules;
}

-- `ModuleRegistry.set_priority`
unfoldable pub set_priority : Text → ℕ → ModuleRegistry → ModuleRegistry
unfolding change recompile_priority
set_priority name priority = change name (recompile_priority priority)

-- `ModuleRegistry.quarantine`
unfoldable pub quarantine : Text → LoadedModule → LoadedModule
quarantine now m = record m { state = ModuleState.quarantined; quarantined_at = some now }

-- what `record_failure` does to the module
unfoldable pub fail : Text → ℕ → LoadedModule → LoadedModule
unfolding quarantine
fail now after m =
    if ltb (m.failures + 1) after
    then record m { failures = m.failures + 1 }
    else quarantine now (record m { failures = m.failures + 1 })

-- `ModuleRegistry.record_failure`
unfoldable pub record_failure : Text → Text → ModuleRegistry → Builder → ModuleRegistry × Builder
unfolding change fail note
record_failure now name r b = elim (Dict.get name r.modules) [
  | none ↦ (r, b)
  | some m ↦ (
    change name (fail now r.quarantine_after) r,
    (if ltb (m.failures + 1) r.quarantine_after
        then b
        else note NoteCode.module_quarantined (some name) [] b),
  )
]

-- `ModuleRegistry.record_success`
unfoldable pub record_success : Text → ModuleRegistry → ModuleRegistry
unfolding change
record_success name = change name (λ m. record m { failures = 0 })
