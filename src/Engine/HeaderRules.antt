-- ===== src/Engine/HeaderRules.antt =====
-- Header rules (engine/evaluator.py): the state that a phase's rules edit, and one rule's run. Both
-- callers of `_apply_header_rule` pass a state, so its case without one is left out; of a note's
-- detail, the rule's name is kept. A rule's duration is an argument.
use pporlock.Base.{
  ℕ, Bool, true, false, ◌&&◌, ◌||◌, Option, none, some, List, [], ◌∷◌, ◌++◌, ◌==◌, text_eq,
  contains, if◌then◌else◌, is_some, or_else,
}
use pporlock.Base.Text.{Text, codes, lower}
use pporlock.Base.Dict
use pporlock.Base.Dict.{Dict}
use pporlock.Engine.Models.{HeaderPairs, HeaderOp, set_op, add_op, remove_op}
use pporlock.Engine.Provenance.{Builder, Phase, Action, Outcome, NoteCode, record_entry, note}
use pporlock.Engine.RuleSet.{CompiledRule, HeaderBlock, Params}

-- `_HeaderState`: the values under each lowered name
abbrev pub HeaderState : Type 0
HeaderState = Dict Text (List Text)

-- `setdefault(name.lower(), []).append(value)`
unfoldable pub add_value : Text → Text → HeaderState → HeaderState
unfolding Dict.get Dict.set
add_value name value s =
    Dict.set (lower name) (or_else (Dict.get (lower name) s) [] ++ value ∷ []) s

-- `_HeaderState.__init__`
unfoldable pub state_from : HeaderState → HeaderPairs → HeaderState
unfolding add_value
state_from s [] = s
state_from s ((name, value) ∷ headers) = state_from (add_value name value s) headers

-- `_HeaderState.remove`
unfoldable pub remove_name : Text → HeaderState → HeaderState × Bool
unfolding Dict.get Dict.remove
remove_name name s = (Dict.remove (lower name) s, is_some (Dict.get (lower name) s))

abbrev pub holds_only : Text → Option (List Text) → Bool
holds_only value (some (held ∷ [])) = held == value
holds_only value _ = false

-- `_HeaderState.set`
unfoldable pub set_value : Text → Text → HeaderState → HeaderState × Bool
unfolding Dict.get Dict.set
set_value name value s =
    if holds_only value (Dict.get (lower name) s)
    then (s, false)
    else (Dict.set (lower name) (value ∷ []) s, true)

-- `CSP_HEADERS`
abbrev pub csp_headers : List Text
csp_headers = codes "content-security-policy" ∷ codes "content-security-policy-report-only" ∷ []

-- `_is_csp_header`
unfoldable pub is_csp_header : Text → Bool
is_csp_header name = contains csp_headers (lower name)

-- what the loops of `_apply_header_rule` build
pub record Edits : Type 0 where
  pub ops : List HeaderOp
  pub state : HeaderState
  pub changed : Bool
  pub touched_csp : Bool

unfoldable pub run_removes : List Text → Edits → Edits
unfolding remove_name is_csp_header
run_removes [] e = e
run_removes (name ∷ names) e =
    let removed = remove_name name e.state in
    run_removes names (record {
      ops = e.ops ++ remove_op name ∷ [];
      state = removed.0;
      changed = e.changed || removed.1;
      touched_csp = e.touched_csp || is_csp_header name;
    })

unfoldable pub run_sets : List (Text × Text) → Edits → Edits
unfolding set_value is_csp_header
run_sets [] e = e
run_sets ((name, value) ∷ sets) e =
    let moved = set_value name value e.state in
    run_sets sets (record {
      ops = e.ops ++ set_op name value ∷ [];
      state = moved.0;
      changed = e.changed || moved.1;
      touched_csp = e.touched_csp || is_csp_header name;
    })

unfoldable pub run_adds : List (Text × Text) → Edits → Edits
unfolding add_value
run_adds [] e = e
run_adds ((name, value) ∷ adds) e = run_adds adds (record {
  ops = e.ops ++ add_op name value ∷ [];
  state = add_value name value e.state;
  changed = true;
  touched_csp = e.touched_csp;
})

abbrev pub block_or_empty : Option HeaderBlock → HeaderBlock
block_or_empty none = record { removes = []; sets = []; adds = [] }
block_or_empty (some block) = block

unfoldable pub run_block : HeaderBlock → Edits → Edits
unfolding run_removes run_sets run_adds
run_block block e = run_adds block.adds (run_sets block.sets (run_removes block.removes e))

pub data Side : Type 0 where
  request_side response_side : Side

abbrev pub side_of : Side → Params → Option HeaderBlock
side_of Side.request_side params = params.request
side_of Side.response_side params = params.response

abbrev pub is_response : Side → Bool
is_response Side.request_side = false
is_response Side.response_side = true

-- a phase's work: the operations so far, the state they leave, and the provenance
pub record HeaderPhase : Type 0 where
  pub ops : List HeaderOp
  pub state : HeaderState
  pub builder : Builder

-- `_apply_header_rule`
unfoldable pub apply_header_rule : CompiledRule → Side → Phase → ℕ → HeaderPhase → HeaderPhase
unfolding run_block note record_entry
apply_header_rule rule side phase took p =
    let e =
      run_block (block_or_empty (side_of side rule.params))
        (record { ops = p.ops; state = p.state; changed = false; touched_csp = false }) in
    let noted =
      if e.touched_csp && is_response side
      then note NoteCode.csp_modified (some rule.module_name) ((codes "rule", rule.name) ∷ [])
          p.builder
      else p.builder in
    record {
      ops = e.ops;
      state = e.state;
      builder =
          record_entry phase rule.module_name rule.rule_id Action.headers
            (if e.changed then Outcome.applied else Outcome.no_change) took noted;
    }

-- every rule of a phase, in order; a duration is read from the clock at each entry
unfoldable pub apply_header_rules :
    (ℕ → ℕ) → Side → Phase → List CompiledRule → HeaderPhase → HeaderPhase
unfolding apply_header_rule
apply_header_rules took side phase [] p = p
apply_header_rules took side phase (rule ∷ rules) p =
    apply_header_rules took side phase rules
      (apply_header_rule rule side phase (took p.builder.seq) p)
