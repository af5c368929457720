-- ===== src/Engine/Evaluator/Refusals.antt =====
-- What the provenance of a request says of its short circuit, against what the decision does.
use pporlock.Base.{
  ℕ, ◌≡◌, refl, ap, ◌∙◌, false, Option, none, some, List, [], ◌∷◌, arith, Bool, true, Bool-cases,
  inl, inr, if◌then◌else◌, is_some, Option-cases, text_eq,
}
use pporlock.Base.Text.{Text}
use pporlock.Base.Dict
use pporlock.Base.Dict.{Dict}
use pporlock.Engine.Models.{Bytes, SyntheticResponse, NormalizedRequest, NormalizedResponse}
use pporlock.Engine.Provenance.{
  Action, Builder, NoteCode, Phase, Severity, note, note_as, record_entry, set_modules,
  short_circuit,
}
use pporlock.Engine.RuleSet.{BlockMode, CompiledRule, first_short_circuit, matching_request_headers}
use pporlock.Engine.Stubs.{resolve}
use pporlock.Engine.HeaderRules.{
  HeaderPhase, Side, apply_header_rule, apply_header_rules, state_from,
}
use pporlock.Engine.Modules.Registry.{
  Hook, HookResult, LoadedModule, ModuleRegistry, record_failure, active,
}
use pporlock.Engine.Evaluator.{
  Evaluator, HookRun, TimeBudget, after_call, over_budget, run_hook, run_hooks, note_all,
  is_exhausted, profile_of,
}
use pporlock.Engine.Evaluator.Request.{
  RequestDecision, circuit, evaluate_request, apply_short_circuit, apply_block, apply_map_local,
  apply_redirect, merge_decision, hooked, new_decision, claim, took_effect, block_by, mapped,
  act_by,
}

-- the rule that provenance names
abbrev named : Builder → Option Text
named b = b.short_circuited_by

note_all_named :
    (name : Text) (notes : List (NoteCode × Severity)) (b : Builder)
    → named (note_all name notes b) ≡ named b
unfolding note_all note_as
note_all_named name [] b = refl
note_all_named name ((code, severity) ∷ notes) b =
    note_all_named name notes (note_as severity code (some name) b)

failure_named :
    (now name : Text) (r : ModuleRegistry) (b : Builder)
    → named (record_failure now name r b).1 ≡ named b
unfolding record_failure note
failure_named now name r b = elim (Option-cases (Dict.get name r.modules)) [
  | inl e ↦ rw (e, record_failure) refl
  | inr (m, e) ↦ rw (e, record_failure) (ground arith)
]

module _ (took : ℕ → ℕ) (now : Text) (phase : Phase) (action : Action) (request : NormalizedRequest)
    (response : Option NormalizedResponse) where
  -- hooks leave both the name and the claim alone
  abbrev Same : HookRun RequestDecision → HookRun RequestDecision → Type 0
  Same s t =
      (named t.builder ≡ named s.builder)
      × ((t.mutation).short_circuit_action ≡ (s.mutation).short_circuit_action)

  call-Same :
      (name : Text) (r : HookResult) (s : HookRun RequestDecision)
      → Same s (after_call merge_decision took now phase action name r s)
  unfolding after_call record_entry note merge_decision
  call-Same name HookResult.raises s = (
    failure_named now name s.registry (note NoteCode.module_error (some name) [] s.builder),
    refl,
  )
  call-Same name (HookResult.returns none notes) s = (note_all_named name notes s.builder, refl)
  call-Same name (HookResult.returns (some m) notes) s = (note_all_named name notes s.builder, refl)

  over-Same :
      (name : Text) (s : HookRun RequestDecision)
      → Same s (over_budget merge_decision took now phase action name s)
  unfolding over_budget record_entry note
  over-Same name s = (refl, refl)

  hook-Same :
      (fn : Option Hook) (name : Text) (s : HookRun RequestDecision)
      → Same s (run_hook merge_decision took now phase action fn name request response s)
  hook-Same none name s = (refl, refl)
  hook-Same (some fn) name s = elim (Bool-cases (is_exhausted s.budget)) [
    | inl e ↦ rw e (over-Same name s)
    | inr e ↦ rw e (call-Same name (fn request response) s)
  ]

  hooks-Same :
      (hook : LoadedModule → Option Hook) (ms : List LoadedModule) (s : HookRun RequestDecision)
      → Same s (run_hooks merge_decision took now phase action hook request response ms s)
  unfolding run_hooks
  hooks-Same hook [] s = (refl, refl)
  hooks-Same hook (m ∷ ms) s =
      let one = hook-Same (hook m) m.name s in
      let rest =
        hooks-Same hook ms
          (run_hook merge_decision took now phase action (hook m) m.name request response s) in
      (rest.0 ∙ one.0, rest.1 ∙ one.1)

rule_named :
    (rule : CompiledRule) (side : Side) (phase : Phase) (time : ℕ) (p : HeaderPhase)
    → named (apply_header_rule rule side phase time p).builder ≡ named p.builder
unfolding apply_header_rule record_entry note
rule_named rule side phase time p = ground arith

rules_named :
    (took : ℕ → ℕ) (side : Side) (phase : Phase) (rules : List CompiledRule) (p : HeaderPhase)
    → named (apply_header_rules took side phase rules p).builder ≡ named p.builder
unfolding apply_header_rules
rules_named took side phase [] p = refl
rules_named took side phase (rule ∷ rules) p =
    rules_named took side phase rules _ ∙ rule_named rule side phase (took p.builder.seq) p

-- what an action of the short-circuit phase leaves alone
abbrev Quiet : RequestDecision × Builder → RequestDecision × Builder → Type 0
Quiet s t = (named t.1 ≡ named s.1) × ((t.0).short_circuit_action ≡ (s.0).short_circuit_action)

-- a block needs a stub, unless it kills
abbrev blocks : BlockMode → Bool → Bool
blocks BlockMode.kill stub = true
blocks BlockMode.stub stub = stub

module _ (page : Text → Text → Bytes) (asset : CompiledRule → Option (Bytes × Text))
    (stubs : Dict Text Bytes) (request : NormalizedRequest) where
  block-Quiet :
      (rule : CompiledRule) (time : ℕ) (mode : BlockMode) (o : Option SyntheticResponse)
      (s : RequestDecision × Builder)
      → Quiet s (block_by rule time mode o s)
  unfolding record_entry note
  block-Quiet rule time BlockMode.kill o (d, b) = (refl, refl)
  block-Quiet rule time BlockMode.stub none (d, b) = (refl, refl)
  block-Quiet rule time BlockMode.stub (some r) (d, b) = (refl, refl)

  map-Quiet :
      (rule : CompiledRule) (time : ℕ) (o : Option (Bytes × Text)) (s : RequestDecision × Builder)
      → Quiet s (mapped rule time o s)
  unfolding record_entry note
  map-Quiet rule time none (d, b) = (refl, refl)
  map-Quiet rule time (some (body, guessed)) (d, b) = (refl, refl)

  act-Quiet :
      (rule : CompiledRule) (time : ℕ) (action : Action) (s : RequestDecision × Builder)
      → Quiet s (act_by page asset stubs rule request time action s)
  unfolding apply_block apply_map_local apply_redirect record_entry
  act-Quiet rule time Action.block s = block-Quiet rule time rule.params.mode _ s
  act-Quiet rule time Action.map_local s = map-Quiet rule time (asset rule) s
  act-Quiet rule time Action.redirect (d, b) = (refl, refl)
  act-Quiet rule time Action.passthrough s = (refl, refl)
  act-Quiet rule time Action.headers s = (refl, refl)
  act-Quiet rule time Action.body s = (refl, refl)

  -- whether what a rule says can be done: the stub is there that it answers with, or the file
  abbrev pub can_act : CompiledRule → Action → Bool
  can_act rule Action.block =
      blocks rule.params.mode
        (is_some (resolve page stubs rule.rule_id rule.name rule.params.stub request))
  can_act rule Action.map_local = is_some (asset rule)
  can_act rule Action.redirect = true
  can_act rule _ = false

  -- what the rule that took effect says of itself, where there is one
  abbrev pub answering {ℓ} : {A : Type ℓ} → (CompiledRule → A) → Option CompiledRule → Option A
  answering f none = none
  answering f (some rule) = if can_act rule rule.action then some (f rule) else none

  block_took :
      (rule : CompiledRule) (time : ℕ) (mode : BlockMode) (o : Option SyntheticResponse)
      (b : Builder)
      → took_effect (block_by rule time mode o (new_decision, b)).0 ≡ blocks mode (is_some o)
  block_took rule time BlockMode.kill o b = refl
  block_took rule time BlockMode.stub none b = refl
  block_took rule time BlockMode.stub (some r) b = refl

  map_took :
      (rule : CompiledRule) (time : ℕ) (o : Option (Bytes × Text)) (b : Builder)
      → took_effect (mapped rule time o (new_decision, b)).0 ≡ is_some o
  map_took rule time none b = refl
  map_took rule time (some (body, guessed)) b = refl

  act_took :
      (rule : CompiledRule) (time : ℕ) (action : Action) (b : Builder)
      → took_effect (act_by page asset stubs rule request time action (new_decision, b)).0
        ≡ can_act rule action
  unfolding apply_block apply_map_local apply_redirect
  act_took rule time Action.block b = block_took rule time rule.params.mode _ b
  act_took rule time Action.map_local b = map_took rule time (asset rule) b
  act_took rule time Action.redirect b = refl
  act_took rule time Action.passthrough b = refl
  act_took rule time Action.headers b = refl
  act_took rule time Action.body b = refl

  -- a rule is named, and its action claimed, exactly where it took effect
  abbrev Told : Text → Action → RequestDecision × Builder → RequestDecision × Builder → Type 0
  Told rule_id action s t =
      (named t.1 ≡ (if took_effect s.0 then some rule_id else none))
      × ((t.0).short_circuit_action ≡ (if took_effect s.0 then some action else none))

  claim-Told :
      (rule_id : Text) (action : Action) (s : RequestDecision × Builder)
      → named s.1 ≡ none
      → (s.0).short_circuit_action ≡ none
      → Told rule_id action s (
          if is_some ((claim action s).0).short_circuit_action
          then ((claim action s).0, short_circuit rule_id (claim action s).1)
          else claim action s)
  unfolding short_circuit
  claim-Told rule_id action (d, b) n a = elim (Bool-cases (took_effect d)) [
    | inl e ↦ rw e (refl, refl)
    | inr e ↦
        let quiet : is_some d.short_circuit_action ≡ false = ap is_some a in rw (e, quiet) (n, a)
  ]

  circuit_told :
      (took : ℕ → ℕ) (o : Option CompiledRule) (b : Builder)
      → named b ≡ none
      → (named (circuit page asset stubs took o request (new_decision, b)).1
          ≡ answering (λ rule. rule.rule_id) o)
        × (((circuit page asset stubs took o request (new_decision, b)).0).short_circuit_action
            ≡ answering (λ rule. rule.action) o)
  unfolding apply_short_circuit
  circuit_told took none b n = (n, refl)
  circuit_told took (some rule) b n =
      let quiet = act-Quiet rule (took b.seq) rule.action (new_decision, b) in
      let told =
        claim-Told rule.rule_id rule.action
          (act_by page asset stubs rule request (took b.seq) rule.action (new_decision, b))
          (quiet.0 ∙ n) quiet.1 in
      let acted = act_took rule (took b.seq) rule.action b in
      (
        told.0 ∙ ap (λ t. if t then some rule.rule_id else none) acted,
        told.1 ∙ ap (λ t. if t then some rule.action else none) acted,
      )

hooked_same :
    (took : ℕ → ℕ) (now : Text) (elsewhere : ℕ) (profile : Option (List Text))
    (r : Option ModuleRegistry) (request : NormalizedRequest) (budget : Option TimeBudget)
    (s : RequestDecision × Builder)
    → (named (hooked took now elsewhere profile r request budget s).builder ≡ named s.1)
      × (((hooked took now elsewhere profile r request budget s).decision).short_circuit_action
          ≡ (s.0).short_circuit_action)
hooked_same took now elsewhere profile none request budget (d, b) = (refl, refl)
hooked_same took now elsewhere profile (some r) request budget (d, b) =
    hooks-Same took now Phase.request_headers Action.headers request none (λ m. m.on_request)
      (active profile r) _

-- The provenance of an evaluated request names as the one that short-circuited it the rule that the
-- set short-circuits it with, and the decision claims that rule's action, exactly when the rule
-- could act: it redirects, or kills, or the stub resolves or the file is found that it answers
-- with. A rule that failed for want of these is not named nor is its action claimed, and without a
-- rule neither is there. No rule may be named before.
pub short_circuit_named :
    (e : Evaluator) (page : Text → Text → Bytes) (asset : CompiledRule → Option (Bytes × Text))
    (took : ℕ → ℕ) (now : Text) (elsewhere : ℕ) (request : NormalizedRequest) (b : Builder)
    (budget : Option TimeBudget)
    → b.short_circuited_by ≡ none
    → (((evaluate_request e page asset took now elsewhere request b budget).builder
          ).short_circuited_by
        ≡ answering page asset e.stubs request
            (λ rule. rule.rule_id)
            (first_short_circuit e.rule_set request))
      × (((evaluate_request e page asset took now elsewhere request b budget).decision
            ).short_circuit_action
          ≡ answering page asset e.stubs request
              (λ rule. rule.action)
              (first_short_circuit e.rule_set request))
unfolding evaluate_request set_modules
short_circuit_named e page asset took now elsewhere request b budget h =
    let begun = set_modules e.rule_set.modules b in
    let cut =
      circuit page asset e.stubs took (first_short_circuit e.rule_set request) request
        (new_decision, begun) in
    let told =
      circuit_told page asset e.stubs request took (first_short_circuit e.rule_set request) begun
        h in
    let rules = matching_request_headers e.rule_set request in
    let start : HeaderPhase = record {
      ops = (cut.0).mutation.ops;
      state = state_from [] request.headers;
      builder = cut.1;
    } in
    let edited = apply_header_rules took Side.request_side Phase.request_headers rules start in
    let d = record cut.0 { mutation = record (cut.0).mutation { ops = edited.ops } } in
    let same =
      hooked_same took now elsewhere (profile_of e.rule_set) e.registry request budget
        (d, edited.builder) in
    (
      same.0 ∙ rules_named took Side.request_side Phase.request_headers rules start ∙ told.0,
      same.1 ∙ told.1,
    )
