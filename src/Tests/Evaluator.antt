-- ===== src/Tests/Evaluator.antt =====
-- The evaluator at small inputs.
use pporlock.Base.{ℕ, ◌+◌, ◌≡◌, refl, true, false, Option, none, some, [], ◌∷◌, text_eq}
use pporlock.Base.Text.{Text, codes}
use pporlock.Engine.Models.{Bytes, no_response_mutation, ResponseMutation}
use pporlock.Engine.Provenance.{new_builder}
use pporlock.Engine.RuleSet.{CompiledRule, Transform, first_short_circuit, make_ruleset}
use pporlock.Engine.Modules.Registry.{HookResult, LoadedModule, ModuleRegistry, ModuleState, active}
use pporlock.Engine.Evaluator.{Evaluator, HookRun, TimeBudget, exhausted, run_hooks}
use pporlock.Engine.Evaluator.Request.{evaluate_request, hooked, new_decision}
use pporlock.Engine.Evaluator.Refusals.{answering, short_circuit_named}
use pporlock.Engine.Evaluator.Charges.{hook_phase, hooks_charged_twice}
use pporlock.Engine.Evaluator.Response.{BodyRun, Ran, run_body_rules}
use pporlock.Engine.Evaluator.Bodies.{body_rules_fold, fold_rules, fold_transforms}
use pporlock.Tests.Data.{blocking, builder, page, rewriting, tracing}

abbrev took : ℕ → ℕ
took n = 3

abbrev hooking : LoadedModule
hooking = record {
  name = codes "m";
  priority = 1;
  enabled = true;
  state = ModuleState.loaded;
  rules = [];
  failures = 0;
  quarantined_at = none;
  on_request = some (λ q a. HookResult.returns none []);
  on_response = some (λ q a. HookResult.raises);
}

abbrev registry : ModuleRegistry
registry = record { modules = (codes "m", hooking) ∷ []; quarantine_after = 3 }

abbrev evaluator : Evaluator
evaluator = record {
  rule_set = make_ruleset (tracing ∷ blocking ∷ rewriting ∷ []) [];
  registry = some registry;
  stubs = [];
  buffer_types = codes "text/html" ∷ [];
  max_buffer_bytes = 100;
  offload_threshold = 10;
}

abbrev no_page : Text → Text → Bytes
no_page url rule = []

abbrev no_asset : CompiledRule → Option (Bytes × Text)
no_asset rule = none

short_circuit_named_example :
    (((evaluate_request evaluator no_page no_asset took (codes "t") 1 page builder none).builder
        ).short_circuited_by
      ≡ answering no_page no_asset evaluator.stubs page
          (λ rule. rule.rule_id)
          (first_short_circuit evaluator.rule_set page))
    × (((evaluate_request evaluator no_page no_asset took (codes "t") 1 page builder none).decision
          ).short_circuit_action
        ≡ answering no_page no_asset evaluator.stubs page
            (λ rule. rule.action)
            (first_short_circuit evaluator.rule_set page))
unfolding new_builder
short_circuit_named_example =
    short_circuit_named evaluator no_page no_asset took (codes "t") 1 page builder none refl

abbrev budget : TimeBudget
budget = record { total = 10; spent = 2 }

hooks_charged_twice_example :
    (hooked took
      (codes "t")
      1
      none
      (some registry)
      page
      (some budget)
      (new_decision, builder)).budget
    ≡ some (record budget {
      spent =
          2
          + (hook_phase took (codes "t") none registry page budget new_decision builder).in_hooks
          + (1
              + (hook_phase took
                  (codes "t")
                  none
                  registry
                  page
                  budget
                  new_decision
                  builder).in_hooks);
    })
hooks_charged_twice_example =
    hooks_charged_twice took (codes "t") 1 none registry page budget new_decision builder

-- a hook of three units costs six
three_twice :
    (hook_phase took (codes "t") none registry page budget new_decision builder).in_hooks ≡ 3
unfolding run_hooks active exhausted
three_twice = refl

abbrev tired : HookRun ResponseMutation
tired = record {
  registry = registry;
  builder = builder;
  mutation = no_response_mutation;
  budget = some (record { total = 10; spent = 10 });
  in_hooks = 0;
}

tired-exhausted : exhausted (record { total = 10; spent = 10 }) ≡ true
unfolding exhausted
tired-exhausted = refl

-- a transform that puts a mark in front
abbrev marking : Transform → Text → Ran
marking t text = Ran.ran (33 ∷ text) []

abbrev body_run : BodyRun
body_run = record { text = 104 ∷ 105 ∷ []; builder = builder; budget = none }

body_rules_fold_example :
    (run_body_rules took marking false (rewriting ∷ []) body_run).text
    ≡ fold_rules marking (rewriting ∷ []) (104 ∷ 105 ∷ [])
body_rules_fold_example = body_rules_fold took marking (rewriting ∷ []) body_run refl

marked : fold_rules marking (rewriting ∷ []) (104 ∷ 105 ∷ []) ≡ 33 ∷ 104 ∷ 105 ∷ []
unfolding fold_rules fold_transforms text_eq
marked = refl
