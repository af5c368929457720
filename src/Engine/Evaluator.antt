-- ===== src/Engine/Evaluator.antt =====
-- The evaluator (engine/evaluator.py): its configuration, the time budget and the hooks of modules.
-- The requests and the responses are in the child modules. Times are whole units of the clock, and
-- `took` gives what each provenance entry took, by its number.
pub mod Request
pub mod Response
pub mod Budget
pub mod Refusals
pub mod Charges
pub mod Bodies
pub mod Buffering
use pporlock.Base.{
  ℕ, ◌+◌, ◌-◌, ◌≡◌, Bool, true, false, not, ◌&&◌, ◌||◌, Option, none, some, List, [], ◌∷◌, ◌++◌,
  leb, if◌then◌else◌, any, is_some, map,
}
use pporlock.Base.Text.{Text, codes}
use pporlock.Base.Dict.{Dict}
use pporlock.Engine.Models.{
  Bytes, HeaderOp, set_op, add_op, remove_op, NormalizedRequest, NormalizedResponse,
  RequestMutation, ResponseMutation,
}
use pporlock.Engine.Provenance.{
  Action, Builder, NoteCode, Outcome, Phase, Severity, note, note_as, record_entry,
}
use pporlock.Engine.RuleSet
use pporlock.Engine.RuleSet.{RuleSet}
use pporlock.Engine.Modules.Registry.{
  Hook, HookResult, LoadedModule, ModuleRegistry, Mutation, active, record_failure, record_success,
}

-- `TimeBudget`
pub record TimeBudget : Type 0 where
  pub total : ℕ
  pub spent : ℕ

-- `TimeBudget.consume`
unfoldable pub consume : ℕ → TimeBudget → TimeBudget
consume time b = record b { spent = b.spent + time }

-- `TimeBudget.remaining`
unfoldable pub remaining : TimeBudget → ℕ
remaining b = b.total - b.spent

-- `TimeBudget.exhausted`
unfoldable pub exhausted : TimeBudget → Bool
exhausted b = leb b.total b.spent

-- a budget may be absent
abbrev pub spend : ℕ → Option TimeBudget → Option TimeBudget
spend time none = none
spend time (some b) = some (consume time b)

abbrev pub is_exhausted : Option TimeBudget → Bool
is_exhausted none = false
is_exhausted (some b) = exhausted b

-- `Evaluator`, less what is an argument where it is used
pub record Evaluator : Type 0 where
  pub rule_set : RuleSet
  pub registry : Option ModuleRegistry
  pub stubs : Dict Text Bytes
  pub buffer_types : List Text
  pub max_buffer_bytes : ℕ
  pub offload_threshold : ℕ

-- `None if not self.ruleset.modules else list(self.ruleset.modules)`
unfoldable pub profile_of : RuleSet → Option (List Text)
profile_of s = elim s.modules [ [] ↦ none | name ∷ names ↦ some (name ∷ names) ]

-- `Evaluator.has_response_hook`
unfoldable pub has_response_hook : Evaluator → Bool
unfolding active profile_of
has_response_hook e = elim e.registry [
  | none ↦ false
  | some r ↦ any (λ m. is_some m.on_response) (active (profile_of e.rule_set) r)
]

-- `Evaluator.wants_body`
unfoldable pub wants_body : Evaluator → NormalizedRequest → Bool
unfolding RuleSet.wants_body has_response_hook
wants_body e request = RuleSet.wants_body e.rule_set request || has_response_hook e

-- what a run of hooks threads: `M` is the mutation of the phase. `in_hooks` is the time spent in them.
pub record HookRun (M : Type 0) : Type 0 where
  pub registry : ModuleRegistry
  pub builder : Builder
  pub mutation : M
  pub budget : Option TimeBudget
  pub in_hooks : ℕ

abbrev pub outcome_of : Option Mutation → Outcome
outcome_of none = Outcome.no_change
outcome_of (some _) = Outcome.applied

-- `builder.note(code, ...)` for each of a context's notes
unfoldable pub note_all : Text → List (NoteCode × Severity) → Builder → Builder
unfolding note_as
note_all name [] b = b
note_all name ((code, severity) ∷ notes) b =
    note_all name notes (note_as severity code (some name) b)

abbrev pub python_rule : Text → Text
python_rule name = name ++ codes ":python"

module _ {M : Type 0} (merge : Mutation → M → M) (took : ℕ → ℕ) (now : Text) (phase : Phase)
    (action : Action) where
  abbrev pub merge_result : Option Mutation → M → M
  merge_result none m = m
  merge_result (some source) m = merge source m

  -- one module's hook, where the budget allows it
  unfoldable pub after_call : Text → HookResult → HookRun M → HookRun M
  unfolding record_failure record_success note record_entry note_all
  after_call name HookResult.raises s =
      let failed =
        record_failure now name s.registry (note NoteCode.module_error (some name) [] s.builder) in
      let time = took (failed.1).seq in
      record s {
        registry = failed.0;
        builder = record_entry phase name (python_rule name) action Outcome.error time failed.1;
        budget = spend time s.budget;
        in_hooks = s.in_hooks + time;
      }
  after_call name (HookResult.returns result notes) s =
      let noted = note_all name notes s.builder in
      let time = took noted.seq in
      record {
        registry = record_success name s.registry;
        builder = record_entry phase name (python_rule name) action (outcome_of result) time noted;
        mutation = merge_result result s.mutation;
        budget = spend time s.budget;
        in_hooks = s.in_hooks + time;
      }

  unfoldable pub over_budget : Text → HookRun M → HookRun M
  unfolding note record_entry
  over_budget name s = record s {
    builder =
        note NoteCode.transform_budget_exceeded (some name) []
          (record_entry phase name (python_rule name) action Outcome.skipped_budget 0 s.builder);
  }

  abbrev pub run_hook :
      Option Hook → Text → NormalizedRequest → Option NormalizedResponse → HookRun M → HookRun M
  run_hook none name request response s = s
  run_hook (some fn) name request response s =
      if is_exhausted s.budget then over_budget name s else after_call name (fn request response) s

  -- the loop of `_run_python_hooks`
  unfoldable pub run_hooks :
      (LoadedModule → Option Hook)
      → NormalizedRequest
      → Option NormalizedResponse
      → List LoadedModule
      → HookRun M
      → HookRun M
  unfolding after_call over_budget
  run_hooks hook request response [] s = s
  run_hooks hook request response (m ∷ ms) s =
      run_hooks hook request response ms (run_hook (hook m) m.name request response s)

abbrev pub or_keep {ℓ} : {A : Type ℓ} → Option A → Option A → Option A
or_keep none old = old
or_keep (some new) old = some new

-- `target.set`, `.add` and `.remove` lower the name
abbrev pub lowered : HeaderOp → HeaderOp
lowered (HeaderOp.set name value) = set_op name value
lowered (HeaderOp.add name value) = add_op name value
lowered (HeaderOp.remove name) = remove_op name

-- `_merge_mutation` into a request's mutation, which has no status
unfoldable pub merge_request : Mutation → RequestMutation → RequestMutation
merge_request source m = record {
  ops = m.ops ++ map lowered source.ops;
  redirect = or_keep source.redirect m.redirect;
  short_circuit = or_keep source.short_circuit m.short_circuit;
  body = or_keep source.body m.body;
}

-- `_merge_mutation` into a response's, which has neither redirect nor short circuit
unfoldable pub merge_response : Mutation → ResponseMutation → ResponseMutation
merge_response source m = record {
  ops = m.ops ++ map lowered source.ops;
  status = or_keep source.status m.status;
  body = or_keep source.body m.body;
}
