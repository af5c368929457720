-- ===== src/Engine/Evaluator/Budget.antt =====
-- The time budget across the hooks of a phase.
use pporlock.Base.{
  ℕ, ◌+◌, ◌≡◌, refl, ap, ◌∙◌, true, Option, none, some, List, [], ◌∷◌, arith, Bool-cases, inl, inr,
}
use pporlock.Base.Text.{Text}
use pporlock.Engine.Models.{NormalizedRequest, NormalizedResponse}
use pporlock.Engine.Provenance.{Action, Phase}
use pporlock.Engine.Modules.Registry.{Hook, HookResult, LoadedModule, Mutation}
use pporlock.Engine.Evaluator.{
  HookRun, TimeBudget, after_call, consume, over_budget, run_hook, run_hooks, spend, is_exhausted,
}

module _ {M : Type 0} (merge : Mutation → M → M) (took : ℕ → ℕ) (now : Text) (phase : Phase)
    (action : Action) (hook : LoadedModule → Option Hook) (request : NormalizedRequest)
    (response : Option NormalizedResponse) where
  -- the budget has been charged what the hooks took
  abbrev pub Charged : TimeBudget → HookRun M → Type 0
  Charged b s = s.budget ≡ some (record b { spent = b.spent + s.in_hooks })

  charge :
      (b : TimeBudget) (h time : ℕ) (o : Option TimeBudget)
      → o ≡ some (record b { spent = b.spent + h })
      → spend time o ≡ some (record b { spent = b.spent + (h + time) })
  unfolding consume
  charge b h time o c =
      ap (spend time) c ∙ ap {A = ℕ} (λ n. some (record b { spent = n })) (omega arith)

  call-Charged :
      (b : TimeBudget) (name : Text) (r : HookResult) (s : HookRun M)
      → Charged b s
      → Charged b (after_call merge took now phase action name r s)
  unfolding after_call
  call-Charged b name HookResult.raises s c = charge b s.in_hooks _ s.budget c
  call-Charged b name (HookResult.returns result notes) s c = charge b s.in_hooks _ s.budget c

  over-Charged :
      (b : TimeBudget) (name : Text) (s : HookRun M)
      → Charged b s
      → Charged b (over_budget merge took now phase action name s)
  unfolding over_budget
  over-Charged b name s c = c

  hook-Charged :
      (b : TimeBudget) (fn : Option Hook) (name : Text) (s : HookRun M)
      → Charged b s
      → Charged b (run_hook merge took now phase action fn name request response s)
  hook-Charged b none name s c = c
  hook-Charged b (some fn) name s c = elim (Bool-cases (is_exhausted s.budget)) [
    | inl e ↦ rw e (over-Charged b name s c)
    | inr e ↦ rw e (call-Charged b name (fn request response) s c)
  ]

  pub hooks-Charged :
      (b : TimeBudget) (ms : List LoadedModule) (s : HookRun M)
      → Charged b s
      → Charged b (run_hooks merge took now phase action hook request response ms s)
  unfolding run_hooks
  hooks-Charged b [] s c = c
  hooks-Charged b (m ∷ ms) s c = hooks-Charged b ms _ (hook-Charged b (hook m) m.name s c)

  -- what a phase of hooks leaves alone when the budget is spent
  abbrev pub Untouched : HookRun M → HookRun M → Type 0
  Untouched s t =
      (t.registry ≡ s.registry)
      × (t.mutation ≡ s.mutation)
      × (t.budget ≡ s.budget)
      × (t.in_hooks ≡ s.in_hooks)

  hook-Untouched :
      (fn : Option Hook) (name : Text) (s : HookRun M)
      → is_exhausted s.budget ≡ true
      → Untouched s (run_hook merge took now phase action fn name request response s)
  unfolding over_budget
  hook-Untouched none name s e = (refl, refl, refl, refl)
  hook-Untouched (some fn) name s e = rw e (refl, refl, refl, refl)

  -- Once the budget is spent no hook runs: whatever the modules are, the mutation, the registry with
  -- its counts of failures, the budget and the time spent in hooks are as they were.
  pub exhausted_skips :
      (ms : List LoadedModule) (s : HookRun M)
      → is_exhausted s.budget ≡ true
      → Untouched s (run_hooks merge took now phase action hook request response ms s)
  unfolding run_hooks
  exhausted_skips [] s e = (refl, refl, refl, refl)
  exhausted_skips (m ∷ ms) s e =
      let one = hook-Untouched (hook m) m.name s e in
      let rest = exhausted_skips ms _ (ap is_exhausted one.2 ∙ e) in
      (rest.0 ∙ one.0, rest.1 ∙ one.1, rest.2 ∙ one.2, rest.3 ∙ one.3)
