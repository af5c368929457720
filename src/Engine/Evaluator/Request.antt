-- ===== src/Engine/Evaluator/Request.antt =====
-- The request phases of the evaluator: the first short circuit, the header rules, the hooks. Finding
-- an asset and reading it (`_asset_root_for`, `_resolve_asset`, `is_file`, `read_bytes`) is the
-- argument `asset`, whose failures all end in the same way; it gives the bytes and the guessed type.
use pporlock.Base.{
  ℕ, ◌+◌, Bool, true, false, ◌||◌, Option, none, some, List, [], ◌∷◌, ◌==◌, text_eq, if◌then◌else◌,
  is_some, or_else, eqb,
}
use pporlock.Base.Text.{Text, codes, non_empty}
use pporlock.Base.Dict.{Dict}
use pporlock.Engine.Models.{
  Bytes, NormalizedRequest, RedirectSpec, RequestMutation, Scheme, SyntheticResponse,
  no_request_mutation,
}
use pporlock.Engine.Provenance.{
  Action, Builder, NoteCode, Outcome, Phase, note, record_entry, set_modules, short_circuit,
}
use pporlock.Engine.RuleSet.{
  BlockMode, CompiledRule, RedirectTarget, first_short_circuit, matching_request_headers,
}
use pporlock.Engine.Stubs.{resolve}
use pporlock.Engine.HeaderRules.{Side, apply_header_rules, state_from}
use pporlock.Engine.Modules.Registry.{ModuleRegistry, Mutation, active}
use pporlock.Engine.Evaluator.{
  Evaluator, TimeBudget, merge_request, or_keep, profile_of, run_hooks, spend, wants_body,
}

-- `RequestDecision`
pub record RequestDecision : Type 0 where
  pub mutation : RequestMutation
  pub short_circuit : Option SyntheticResponse
  pub kill : Bool
  pub wants_body : Bool
  pub short_circuit_action : Option Action

abbrev pub new_decision : RequestDecision
new_decision = record {
  mutation = no_request_mutation;
  short_circuit = none;
  kill = false;
  wants_body = true;
  short_circuit_action = none;
}

abbrev is_block : Option Action → Bool
is_block (some Action.block) = true
is_block _ = false

-- `RequestDecision.blocked`
unfoldable pub blocked : RequestDecision → Bool
blocked d = d.kill || is_block d.short_circuit_action

abbrev substituted : SyntheticResponse → RequestDecision → RequestDecision
substituted synthetic d = record d {
  short_circuit = some synthetic;
  mutation = record d.mutation { short_circuit = some synthetic };
}

-- an entry of the short-circuit phase
abbrev circuit_entry : CompiledRule → Action → Outcome → ℕ → Builder → Builder
circuit_entry rule action outcome took b =
    record_entry Phase.request_short_circuit rule.module_name rule.rule_id action outcome took b

abbrev pub stubbed :
    CompiledRule
    → ℕ
    → Option SyntheticResponse
    → RequestDecision × Builder
    → RequestDecision × Builder
stubbed rule took none (d, b) = (
  d,
  note NoteCode.module_error (some rule.module_name) []
      (circuit_entry rule Action.block Outcome.error took b),
)
stubbed rule took (some synthetic) (d, b) =
    (substituted synthetic d, circuit_entry rule Action.block Outcome.applied took b)

abbrev pub block_by :
    CompiledRule
    → ℕ
    → BlockMode
    → Option SyntheticResponse
    → RequestDecision × Builder
    → RequestDecision × Builder
block_by rule took BlockMode.kill synthetic (d, b) =
    (record d { kill = true }, circuit_entry rule Action.block Outcome.applied took b)
block_by rule took BlockMode.stub synthetic (d, b) = stubbed rule took synthetic (d, b)

-- `_apply_block`; the stub is looked at in the mode that needs it
unfoldable pub apply_block :
    (Text → Text → Bytes)
    → Dict Text Bytes
    → CompiledRule
    → NormalizedRequest
    → ℕ
    → RequestDecision × Builder
    → RequestDecision × Builder
unfolding note record_entry
apply_block page stubs rule request took =
    block_by rule took rule.params.mode
      (resolve page stubs rule.rule_id rule.name rule.params.stub request)

abbrev local_response : CompiledRule → Bytes → Text → SyntheticResponse
local_response rule body guessed = record {
  status = rule.params.status;
  body = body;
  headers =
      (codes "content-type", or_else rule.params.content_type guessed)
      ∷ (codes "cache-control", codes "no-store")
      ∷ (codes "x-pporlock", codes "map_local")
      ∷ [];
  origin = rule.rule_id;
}

abbrev pub mapped :
    CompiledRule → ℕ → Option (Bytes × Text) → RequestDecision × Builder → RequestDecision × Builder
mapped rule took none (d, b) = (
  d,
  note NoteCode.map_local_missing (some rule.module_name) ((codes "file", rule.params.file) ∷ [])
      (circuit_entry rule Action.map_local Outcome.error took b),
)
mapped rule took (some (body, guessed)) (d, b) = (
  substituted (local_response rule body guessed) d,
  circuit_entry rule Action.map_local Outcome.applied took b,
)

-- `_apply_map_local`
unfoldable pub apply_map_local :
    (CompiledRule → Option (Bytes × Text))
    → CompiledRule
    → ℕ
    → RequestDecision × Builder
    → RequestDecision × Builder
unfolding note record_entry
apply_map_local asset rule took = mapped rule took (asset rule)

abbrev scheme_of : Option Text → Option Scheme
scheme_of none = none
scheme_of (some scheme) =
    if scheme == codes "https"
    then some Scheme.https
    else if scheme == codes "http"
    then some Scheme.http
    else none

-- `str(x) if x else None`
abbrev truthy_text : Option Text → Option Text
truthy_text none = none
truthy_text (some text) = if non_empty text then some text else none

abbrev truthy_port : Option ℕ → Option ℕ
truthy_port none = none
truthy_port (some port) = if eqb port 0 then none else some port

unfoldable pub redirect_of : RedirectTarget → RedirectSpec
redirect_of target = record {
  scheme = scheme_of target.scheme;
  host = truthy_text target.host;
  port = truthy_port target.port;
  path = truthy_text target.path;
  query = target.query;
}

-- `_apply_redirect`
unfoldable pub apply_redirect :
    CompiledRule → ℕ → RequestDecision × Builder → RequestDecision × Builder
unfolding redirect_of record_entry
apply_redirect rule took (d, b) = (
  record d { mutation = record d.mutation { redirect = some (redirect_of rule.params.to) } },
  circuit_entry rule Action.redirect Outcome.applied took b,
)

abbrev pub took_effect : RequestDecision → Bool
took_effect d = (d.kill || is_some d.short_circuit) || is_some d.mutation.redirect

-- the last lines of `_apply_short_circuit`
abbrev pub claim : Action → RequestDecision × Builder → RequestDecision × Builder
claim action (d, b) =
    (if took_effect d then record d { short_circuit_action = some action } else d, b)

abbrev pub act_by :
    (Text → Text → Bytes)
    → (CompiledRule → Option (Bytes × Text))
    → Dict Text Bytes
    → CompiledRule
    → NormalizedRequest
    → ℕ
    → Action
    → RequestDecision × Builder
    → RequestDecision × Builder
act_by page asset stubs rule request took Action.block s =
    apply_block page stubs rule request took s
act_by page asset stubs rule request took Action.map_local s = apply_map_local asset rule took s
act_by page asset stubs rule request took Action.redirect s = apply_redirect rule took s
act_by page asset stubs rule request took _ s = s

-- `_apply_short_circuit`
unfoldable pub apply_short_circuit :
    (Text → Text → Bytes)
    → (CompiledRule → Option (Bytes × Text))
    → Dict Text Bytes
    → CompiledRule
    → NormalizedRequest
    → ℕ
    → RequestDecision × Builder
    → RequestDecision × Builder
unfolding apply_block apply_map_local apply_redirect
apply_short_circuit page asset stubs rule request took s =
    claim rule.action (act_by page asset stubs rule request took rule.action s)

-- the first stage of `evaluate_request`, where a rule matches
abbrev pub circuit :
    (Text → Text → Bytes)
    → (CompiledRule → Option (Bytes × Text))
    → Dict Text Bytes
    → (ℕ → ℕ)
    → Option CompiledRule
    → NormalizedRequest
    → RequestDecision × Builder
    → RequestDecision × Builder
circuit page asset stubs took none request s = s
circuit page asset stubs took (some rule) request s =
    let done = apply_short_circuit page asset stubs rule request (took (s.1).seq) s in
    if is_some (done.0).short_circuit_action
    then (done.0, short_circuit rule.rule_id done.1)
    else done

-- a hook's mutation, and the answer that it gives
unfoldable pub merge_decision : Mutation → RequestDecision → RequestDecision
unfolding merge_request
merge_decision source d = record d {
  mutation = merge_request source d.mutation;
  short_circuit = or_keep source.short_circuit d.short_circuit;
}

-- what `evaluate_request` leaves
pub record RequestOutcome : Type 0 where
  pub decision : RequestDecision
  pub builder : Builder
  pub budget : Option TimeBudget
  pub registry : Option ModuleRegistry

-- The last stage: the hooks, where there is a registry; at the end, the whole time since the start is
-- charged: what was spent outside the hooks is `elsewhere`.
abbrev pub hooked :
    (ℕ → ℕ)
    → Text
    → ℕ
    → Option (List Text)
    → Option ModuleRegistry
    → NormalizedRequest
    → Option TimeBudget
    → RequestDecision × Builder
    → RequestOutcome
hooked took now elsewhere profile none request budget (d, b) = record {
  decision = d;
  builder = b;
  budget = spend elsewhere budget;
  registry = none;
}
hooked took now elsewhere profile (some r) request budget (d, b) =
    let done =
      run_hooks merge_decision took now Phase.request_headers Action.headers (λ m. m.on_request)
        request none (active profile r)
        (record { registry = r; builder = b; mutation = d; budget = budget; in_hooks = 0 }) in
    record {
      decision = done.mutation;
      builder = done.builder;
      budget = spend (elsewhere + done.in_hooks) done.budget;
      registry = some done.registry;
    }

-- `evaluate_request`
unfoldable pub evaluate_request :
    Evaluator
    → (Text → Text → Bytes)
    → (CompiledRule → Option (Bytes × Text))
    → (ℕ → ℕ)
    → Text
    → ℕ
    → NormalizedRequest
    → Builder
    → Option TimeBudget
    → RequestOutcome
unfolding first_short_circuit matching_request_headers apply_header_rules state_from merge_decision
    run_hooks profile_of apply_short_circuit set_modules short_circuit active wants_body
evaluate_request e page asset took now elsewhere request b budget =
    let cut =
      circuit page asset e.stubs took (first_short_circuit e.rule_set request) request
        (new_decision, set_modules e.rule_set.modules b) in
    let edited =
      apply_header_rules took Side.request_side Phase.request_headers
        (matching_request_headers e.rule_set request)
        (record {
          ops = (cut.0).mutation.ops;
          state = state_from [] request.headers;
          builder = cut.1;
        }) in
    let d = record cut.0 { mutation = record (cut.0).mutation { ops = edited.ops } } in
    let done =
      hooked took now elsewhere (profile_of e.rule_set) e.registry request budget
        (d, edited.builder) in
    record done {
      decision = record done.decision {
        wants_body = wants_body (record e { registry = done.registry }) request;
      };
    }
