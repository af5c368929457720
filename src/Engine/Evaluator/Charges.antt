-- ===== src/Engine/Evaluator/Charges.antt =====
-- What the request phases charge to the budget.
use pporlock.Base.{ℕ, ◌+◌, ◌≡◌, ap, Option, none, some, List, arith}
use pporlock.Base.Text.{Text}
use pporlock.Engine.Models.{NormalizedRequest}
use pporlock.Engine.Provenance.{Action, Builder, Phase}
use pporlock.Engine.Modules.Registry.{ModuleRegistry, active}
use pporlock.Engine.Evaluator.{HookRun, TimeBudget, consume, run_hooks, spend}
use pporlock.Engine.Evaluator.Budget.{hooks-Charged}
use pporlock.Engine.Evaluator.Request.{RequestDecision, hooked, merge_decision}

-- The hooks of a request phase
abbrev pub hook_phase :
    (ℕ → ℕ)
    → Text
    → Option (List Text)
    → ModuleRegistry
    → NormalizedRequest
    → TimeBudget
    → RequestDecision
    → Builder
    → HookRun RequestDecision
hook_phase took now profile r request b d builder =
    run_hooks merge_decision took now Phase.request_headers Action.headers (λ m. m.on_request)
      request none (active profile r)
      (record { registry = r; builder = builder; mutation = d; budget = some b; in_hooks = 0 })

-- The request phases charge the time spent in hooks twice: once as each hook returns, and once more
-- in the time since the start of the evaluation, which is charged at its end.
pub hooks_charged_twice :
    (took : ℕ → ℕ) (now : Text) (elsewhere : ℕ) (profile : Option (List Text)) (r : ModuleRegistry)
    (request : NormalizedRequest) (b : TimeBudget) (d : RequestDecision) (builder : Builder)
    → (hooked took now elsewhere profile (some r) request (some b) (d, builder)).budget
      ≡ some (record b {
        spent =
            b.spent
            + (hook_phase took now profile r request b d builder).in_hooks
            + (elsewhere + (hook_phase took now profile r request b d builder).in_hooks);
      })
unfolding consume
hooks_charged_twice took now elsewhere profile r request b d builder =
    ap (spend (elsewhere + (hook_phase took now profile r request b d builder).in_hooks)) (
      hooks-Charged merge_decision took now Phase.request_headers Action.headers (λ m. m.on_request)
        request none b (active profile r)
        (record { registry = r; builder = builder; mutation = d; budget = some b; in_hooks = 0 })
        (ap {A = ℕ} (λ n. some (record b { spent = n })) (omega arith)))
