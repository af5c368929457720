-- ===== src/Engine/RuleSet.antt =====
-- Rules and rule sets (engine/ruleset.py): what a compiled rule is, and how a set partitions them.
-- `Params` holds the parameters that the engine reads, once a rule has been validated.
-- Priorities are natural numbers, where the source takes any integer.
pub mod Order
pub mod First
pub mod Compile
pub mod Sound
pub mod Each
use pporlock.Base.{
  ℕ, ◌+◌, ◌≡◌, Bool, true, false, not, ◌&&◌, Option, none, some, List, [], ◌∷◌, ◌++◌, ◌==◌, text_eq,
  any, contains, if◌then◌else◌, is_some, length, find, filter,
}
use pporlock.Base.Text.{Text, codes}
use pporlock.Base.Sort.{Key, sort}
use pporlock.Engine.Models.{Bytes, NormalizedRequest, NormalizedResponse, RedirectSpec}
use pporlock.Engine.Provenance.{Action, Phase}
use pporlock.Engine.Matcher.{CompiledMatcher, matches_request, matches_response}

-- one side of a headers rule
pub record HeaderBlock : Type 0 where
  pub removes : List Text
  pub sets : List (Text × Text)
  pub adds : List (Text × Text)

-- a transform block: its kind, what strip_csp reads, and the rest as one text
pub record Transform : Type 0 where
  pub kind : Text
  pub report_only : Bool
  pub options : Text

pub data BlockMode : Type 0 where
  stub kill : BlockMode

-- a rule's `stub:`, which is a name, an inline response, or neither
pub data StubSpec : Type 0 where
  named : Text → StubSpec
  inline : ℕ → Option Text → Bytes → StubSpec
  invalid : StubSpec

-- the components of a redirect's `to`, as written
pub record RedirectTarget : Type 0 where
  pub scheme : Option Text
  pub host : Option Text
  pub port : Option ℕ
  pub path : Option Text
  pub query : Option Text

pub record Params : Type 0 where
  pub mode : BlockMode
  pub stub : Option StubSpec
  pub file : Text
  pub status : ℕ
  pub content_type : Option Text
  pub to : RedirectTarget
  pub request : Option HeaderBlock
  pub response : Option HeaderBlock
  pub transform : Option Transform
  pub transforms : List Transform

-- `CompiledRule`
pub record CompiledRule : Type 0 where
  pub rule_id : Text
  pub module_name : Text
  pub name : Text
  pub action : Action
  pub matcher : CompiledMatcher
  pub priority : ℕ
  pub index : ℕ
  pub enabled : Bool
  pub params : Params

-- `phase_for`
unfoldable pub phase_for : Action → Params → Phase
phase_for Action.passthrough params = Phase.clienthello
phase_for Action.block params = Phase.request_short_circuit
phase_for Action.map_local params = Phase.request_short_circuit
phase_for Action.redirect params = Phase.request_short_circuit
phase_for Action.headers params =
    if is_some params.response then Phase.response_headers else Phase.request_headers
phase_for Action.body params = Phase.response_body

-- `CompiledRule.is_short_circuit`
unfoldable pub is_short_circuit : Action → Bool
is_short_circuit Action.block = true
is_short_circuit Action.map_local = true
is_short_circuit Action.redirect = true
is_short_circuit _ = false

abbrev pub is_passthrough : Action → Bool
is_passthrough Action.passthrough = true
is_passthrough _ = false

abbrev pub is_headers : Action → Bool
is_headers Action.headers = true
is_headers _ = false

abbrev pub is_body : Action → Bool
is_body Action.body = true
is_body _ = false

-- `CompiledRule.sort_key`
abbrev pub sort_key : CompiledRule → Key
sort_key r = (r.priority, r.index)

-- `transforms_of`: the single block, then the list
unfoldable pub transforms_of : Params → List Transform
transforms_of params = elim params.transform [
  | none ↦ params.transforms
  | some single ↦ single ∷ params.transforms
]

abbrev pub strip_csp : Text
strip_csp = codes "strip_csp"

-- `needs_body`
unfoldable pub needs_body : CompiledRule → Bool
unfolding transforms_of
needs_body r =
    if not (is_body r.action)
    then false
    else any (λ t. not (t.kind == strip_csp)) (transforms_of r.params)

-- `RuleSet`
pub record RuleSet : Type 0 where
  pub passthrough : List CompiledRule
  pub short_circuit : List CompiledRule
  pub request_headers : List CompiledRule
  pub response_headers : List CompiledRule
  pub response_body : List CompiledRule
  pub modules : List Text
  pub rules : List CompiledRule

-- `RuleSet.__init__`
unfoldable pub make_ruleset : List CompiledRule → List Text → RuleSet
unfolding is_short_circuit
make_ruleset rules modules =
    let enabled = sort sort_key (filter (λ r. r.enabled) rules) in
    record {
      passthrough = filter (λ r. is_passthrough r.action) enabled;
      short_circuit = filter (λ r. is_short_circuit r.action) enabled;
      request_headers = filter (λ r. is_headers r.action && is_some r.params.request) enabled;
      response_headers = filter (λ r. is_headers r.action && is_some r.params.response) enabled;
      response_body = filter (λ r. is_body r.action) enabled;
      modules = modules;
      rules = enabled;
    }

-- `tuple(dict.fromkeys(names))`, after those already seen
unfoldable pub distinct : List Text → List Text → List Text
distinct seen [] = []
distinct seen (name ∷ names) =
    let later = distinct (name ∷ seen) names in
    let same = distinct seen names in if contains seen name then same else name ∷ later

unfoldable pub all_rules : List RuleSet → List CompiledRule
all_rules [] = []
all_rules (s ∷ sets) = s.rules ++ all_rules sets

unfoldable pub all_modules : List RuleSet → List Text
all_modules [] = []
all_modules (s ∷ sets) = s.modules ++ all_modules sets

-- `RuleSet.combine`
unfoldable pub combine : List RuleSet → RuleSet
unfolding all_rules all_modules distinct
combine sets = make_ruleset (all_rules sets) (distinct [] (all_modules sets))

-- `RuleSet.wants_body`
unfoldable pub wants_body : RuleSet → NormalizedRequest → Bool
wants_body s request = any (λ r. needs_body r && matches_request r.matcher request) s.response_body

-- `RuleSet.first_short_circuit`
unfoldable pub first_short_circuit : RuleSet → NormalizedRequest → Option CompiledRule
first_short_circuit s request = find (λ r. matches_request r.matcher request) s.short_circuit

-- `RuleSet.matching_request_headers`
unfoldable pub matching_request_headers : RuleSet → NormalizedRequest → List CompiledRule
matching_request_headers s request =
    filter (λ r. matches_request r.matcher request) s.request_headers

-- `RuleSet.matching_response_headers`
unfoldable pub matching_response_headers :
    RuleSet → NormalizedRequest → NormalizedResponse → List CompiledRule
matching_response_headers s request response =
    filter (λ r. matches_response r.matcher request response) s.response_headers

-- `RuleSet.matching_response_body`
unfoldable pub matching_response_body :
    RuleSet → NormalizedRequest → NormalizedResponse → List CompiledRule
matching_response_body s request response =
    filter (λ r. matches_response r.matcher request response) s.response_body
