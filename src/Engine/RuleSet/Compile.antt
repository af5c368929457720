-- ===== src/Engine/RuleSet/Compile.antt =====
-- `compile_rule` and `RuleSet.from_rules` (engine/ruleset.py): a declared rule is validated and
-- compiled, or the first error in it is raised. The parameters stay as they were declared; `Params`
-- of the parent holds what the engine reads of them. `show` writes an index, `registry` is the check
-- of the transform registry, where one was given, and the other arguments are those of
-- `compile_matcher`.
use pporlock.Base.{
  ℕ, suc, Bool, true, false, not, ◌&&◌, ◌||◌, Option, none, some, List, [], ◌∷◌, ◌++◌, ◌==◌,
  text_eq, any, contains, filter, if◌then◌else◌, or_else,
}
use pporlock.Base.Text.{Text, codes, non_empty, strip, starts_with}
use pporlock.Base.Int.{ℤ}
use pporlock.Base.Dict
use pporlock.Base.Dict.{Dict}
use pporlock.Base.Result.{Result, ok, err, ◌>>=◌, ◌>>◌, refuse_if}
use pporlock.Base.Values.{Value, Fields, items, fields, str_or, truthy}
use pporlock.Engine.Provenance.{Action}
use pporlock.Engine.Matcher.{Pattern, CompiledMatcher}
use pporlock.Engine.Matcher.Compile.{RuleError, compile_matcher}
use pporlock.Engine.RuleSet.{is_body, strip_csp}

-- `CompiledRule`
pub record DeclaredRule : Type 0 where
  pub rule_id : Text
  pub module_name : Text
  pub name : Text
  pub action : Action
  pub matcher : CompiledMatcher
  pub priority : ℕ
  pub index : ℕ
  pub enabled : Bool
  pub params : Dict Text Value

-- what is raised: `unhashable_mode` and `no_block` are a TypeError or an AttributeError
pub data CompileError : Type 0 where
  no_name unhashable_mode bad_mode no_file no_target no_headers no_transform no_block : CompileError
  reserved : Text → CompileError
  unknown_action : Text → CompileError
  bad_transform : CompileError
  bad_match : RuleError → CompileError

abbrev pub action_of : Text → Option Action
action_of t =
    if t == codes "passthrough"
    then some Action.passthrough
    else if t == codes "block"
    then some Action.block
    else if t == codes "map_local"
    then some Action.map_local
    else if t == codes "redirect"
    then some Action.redirect
    else if t == codes "headers"
    then some Action.headers
    else if t == codes "body"
    then some Action.body
    else none

abbrev pub given : Text → Dict Text Value → Value
given key d = or_else (Dict.get key d) Value.null

abbrev pub own_keys : List Text
own_keys = codes "name" ∷ codes "action" ∷ codes "match" ∷ codes "enabled" ∷ []

abbrev pub params_of : Dict Text Value → Dict Text Value
params_of raw = filter (λ entry. not (contains own_keys entry.0)) raw

abbrev pub check_mode : Option Value → Result CompileError (Unit {0})
check_mode none = ok tt
check_mode (some (Value.text t)) =
    refuse_if (not (t == codes "stub" || t == codes "kill")) CompileError.bad_mode
check_mode (some (Value.sequence _)) = err CompileError.unhashable_mode
check_mode (some (Value.mapping _)) = err CompileError.unhashable_mode
check_mode (some _) = err CompileError.bad_mode

abbrev pub is_target : Value → Bool
is_target (Value.mapping (Fields.field _ _ _)) = true
is_target _ = false

-- `_validate_params`
abbrev pub validate_params : Action → Dict Text Value → Result CompileError (Unit {0})
validate_params Action.passthrough params = ok tt
validate_params Action.block params = check_mode (Dict.get (codes "mode") params)
validate_params Action.map_local params =
    refuse_if (not (truthy (given (codes "file") params))) CompileError.no_file
validate_params Action.redirect params =
    refuse_if (not (is_target (given (codes "to") params))) CompileError.no_target
validate_params Action.headers params =
    refuse_if
      (not (truthy (given (codes "request") params) || truthy (given (codes "response") params)))
      CompileError.no_headers
validate_params Action.body params =
    refuse_if
      (not
        (truthy (given (codes "transform") params) || truthy (given (codes "transforms") params)))
      CompileError.no_transform

-- `transforms_of`, of the parameters as declared
abbrev pub block_of : Value → List (Dict Text Value)
block_of (Value.mapping fs) = fields fs ∷ []
block_of _ = []

abbrev pub blocks_in : List Value → List (Dict Text Value)
blocks_in [] = []
blocks_in (v ∷ vs) = block_of v ++ blocks_in vs

abbrev pub list_of : Value → List Value
list_of (Value.sequence vs) = items vs
list_of _ = []

abbrev pub declared_transforms : Dict Text Value → List (Dict Text Value)
declared_transforms params =
    block_of (given (codes "transform") params)
    ++ blocks_in (list_of (given (codes "transforms") params))

-- `phase_for(action, params) in REQUEST_PHASES or` a headers rule with a request side
abbrev pub request_phase : Action → Dict Text Value → Bool
request_phase Action.headers params =
    not (Dict.has (codes "response") params) || Dict.has (codes "request") params
request_phase Action.body params = false
request_phase _ params = true

abbrev pub match_of : Value → Result CompileError (Dict Text Value)
match_of (Value.mapping fs) = ok (fields fs)
match_of v = if truthy v then err CompileError.no_block else ok []

abbrev pub matched : Result RuleError CompiledMatcher → Result CompileError CompiledMatcher
matched (ok m) = ok m
matched (err why) = err (CompileError.bad_match why)

abbrev pub known_action : Text → Result CompileError Action
known_action t = elim (action_of t) [ none ↦ err (CompileError.unknown_action t) | some a ↦ ok a ]

module _ (repr : Value → Text) (regex : Text → Option Pattern) (glob : Text → Pattern)
    (int : Text → Option ℤ) (show : ℕ → Text) (registry : Option (Dict Text Value → Bool)) where
  -- `validate_transforms`
  abbrev pub refused_transform : (Dict Text Value → Bool) → Dict Text Value → Bool
  refused_transform accepts params =
      any (λ t. not (str_or repr (given (codes "kind") t) [] == strip_csp || accepts t))
        (declared_transforms params)

  abbrev pub validate_transforms : Action → Dict Text Value → Result CompileError (Unit {0})
  validate_transforms action params = elim registry [
    | none ↦ ok tt
    | some accepts ↦
        refuse_if (is_body action && refused_transform accepts params) CompileError.bad_transform
  ]

  abbrev pub word_of : Text → Dict Text Value → Text
  word_of key raw = strip (str_or repr (given key raw) [])

  -- `compile_rule`
  unfoldable pub compile_rule : Text → ℕ → ℕ → Dict Text Value → Result CompileError DeclaredRule
  unfolding str_or
  compile_rule module_name index priority raw = do
    let name = word_of (codes "name") raw
    refuse_if (not (non_empty name)) CompileError.no_name
    let named = word_of (codes "action") raw
    refuse_if (starts_with named (codes "ws_")) (CompileError.reserved named)
    action ← known_action named
    let params = params_of raw
    validate_params action params
    validate_transforms action params
    block ← match_of (given (codes "match") raw)
    matcher ← matched (compile_matcher repr regex glob int (request_phase action params) block)
    ok (record {
      rule_id = module_name ++ b':' ∷ show index;
      module_name = module_name;
      name = name;
      action = action;
      matcher = matcher;
      priority = priority;
      index = index;
      enabled = truthy (or_else (Dict.get (codes "enabled") raw) (Value.boolean true));
      params = params;
    })

  -- the list of `RuleSet.from_rules`
  unfoldable pub compile_rules :
      Text → ℕ → ℕ → List (Dict Text Value) → Result CompileError (List DeclaredRule)
  unfolding compile_rule
  compile_rules module_name index priority [] = ok []
  compile_rules module_name index priority (raw ∷ raws) = do
    rule ← compile_rule module_name index priority raw
    rest ← compile_rules module_name (suc index) priority raws
    ok (rule ∷ rest)
