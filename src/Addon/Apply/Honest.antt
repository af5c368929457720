-- ===== src/Addon/Apply/Honest.antt =====
-- The provenance of a phase of header rules against what the adapter does with its operations.
use pporlock.Base.{
  ℕ, ◌≡◌, refl, sym, subst, ap, ap₂, ◌∙◌, Bool, true, false, ◌||◌, ◌&&◌, Option, some, List, [],
  ◌∷◌, ◌++◌, All, arith, if◌then◌else◌, any, text_eq,
}
use pporlock.Base.Text.{Text, codes, lower, lower-lower}
use pporlock.Engine.Models.{HeaderOp, set_op, add_op, remove_op}
use pporlock.Engine.Provenance.{
  Phase, Action, Outcome, NoteCode, ProvenanceEntry, is_applied, Builder, record_entry, note,
}
use pporlock.Engine.RuleSet.{CompiledRule, HeaderBlock}
use pporlock.Engine.HeaderRules.{
  HeaderState, add_value, remove_name, set_value, Edits, run_removes, run_sets, run_adds, run_block,
  Side, side_of, block_or_empty, is_response, HeaderPhase, apply_header_rule, apply_header_rules,
  is_csp_header,
}
use pporlock.Addon.Apply.{WireHeaders, apply_header_ops}
use pporlock.Addon.Apply.Refines.{state_op, state_ops, Plain, Models, ops-Models}

state_ops-snoc :
    (ops : List HeaderOp) (op : HeaderOp) (c : Bool) (s : HeaderState)
    → state_ops c (ops ++ op ∷ []) s ≡ (
      (state_op op (state_ops c ops s).0).0,
      (state_ops c ops s).1 || (state_op op (state_ops c ops s).0).1,
    )
unfolding state_ops
state_ops-snoc [] op c s = refl
state_ops-snoc (o ∷ ops) op c s = state_ops-snoc ops op (c || (state_op o s).1) (state_op o s).0

or_assoc : (a b c : Bool) → (a || b) || c ≡ a || (b || c)
or_assoc a b c = ground arith

or_true : (a : Bool) → a || true ≡ true
or_true a = ground arith

remove_lowered : (name : Text) (s : HeaderState) → remove_name (lower name) s ≡ remove_name name s
unfolding remove_name
remove_lowered name s = rw (lower-lower name) refl

set_lowered :
    (name value : Text) (s : HeaderState) → set_value (lower name) value s ≡ set_value name value s
unfolding set_value
set_lowered name value s = rw (lower-lower name) refl

add_lowered :
    (name value : Text) (s : HeaderState) → add_value (lower name) value s ≡ add_value name value s
unfolding add_value
add_lowered name value s = rw (lower-lower name) refl

module _ (s₀ : HeaderState) (c : Bool) where
  -- the edits are what their operations do to the state at the start of the phase
  abbrev Follows : Edits → Type 0
  Follows e = state_ops false e.ops s₀ ≡ (e.state, c || e.changed)

  follow :
      (e : Edits) (op : HeaderOp) (t : HeaderState) (b touched : Bool)
      → state_op op e.state ≡ (t, b)
      → Follows e
      → Follows (record {
        ops = e.ops ++ op ∷ [];
        state = t;
        changed = e.changed || b;
        touched_csp = touched;
      })
  follow e op t b touched h f =
      state_ops-snoc e.ops op false s₀
      ∙ ap (λ r. ((state_op op r.0).0, r.1 || (state_op op r.0).1)) f
      ∙ ap (λ r. (r.0, (c || e.changed) || r.1)) h
      ∙ ap (λ d. (t, d)) (or_assoc c e.changed b)

  removes-Follows : (names : List Text) (e : Edits) → Follows e → Follows (run_removes names e)
  unfolding run_removes state_op
  removes-Follows [] e f = f
  removes-Follows (name ∷ names) e f = removes-Follows names _ (
      follow e (remove_op name) _ _ (e.touched_csp || is_csp_header name)
        (remove_lowered name e.state) f)

  sets-Follows : (sets : List (Text × Text)) (e : Edits) → Follows e → Follows (run_sets sets e)
  unfolding run_sets state_op
  sets-Follows [] e f = f
  sets-Follows ((name, value) ∷ sets) e f = sets-Follows sets _ (
      follow e (set_op name value) _ _ (e.touched_csp || is_csp_header name)
        (set_lowered name value e.state) f)

  adds-Follows : (adds : List (Text × Text)) (e : Edits) → Follows e → Follows (run_adds adds e)
  unfolding run_adds state_op
  adds-Follows [] e f = f
  adds-Follows ((name, value) ∷ adds) e f = adds-Follows adds _ (
      subst
        (λ d. Follows (record {
          ops = e.ops ++ add_op name value ∷ [];
          state = add_value name value e.state;
          changed = d;
          touched_csp = e.touched_csp;
        }))
        (or_true e.changed)
        (follow e (add_op name value) _ true e.touched_csp
          (ap (λ t. (t, true)) (add_lowered name value e.state)) f))

  block-Follows : (block : HeaderBlock) (e : Edits) → Follows e → Follows (run_block block e)
  unfolding run_block
  block-Follows block e f =
      adds-Follows block.adds _ (sets-Follows block.sets _ (removes-Follows block.removes e f))

abbrev pub any_applied : List ProvenanceEntry → Bool
any_applied = any (λ e. is_applied e.outcome)

any_applied-snoc :
    (l : List ProvenanceEntry) (e : ProvenanceEntry)
    → any_applied (l ++ e ∷ []) ≡ any_applied l || is_applied e.outcome
any_applied-snoc [] e = ground arith
any_applied-snoc (f ∷ l) e = ground (arith, any_applied-snoc l e)

-- how a phase stands against its start: the operations explain the state, and the provenance
-- says whether they moved it
abbrev Explained : HeaderState → Bool → HeaderPhase → Type 0
Explained s₀ b₀ p =
    (c : Bool) × (state_ops false p.ops s₀ ≡ (p.state, c))
    × (any_applied p.builder.entries ≡ b₀ || c)

or_false : (a : Bool) → a || false ≡ a
or_false a = ground arith

pub recorded :
    (phase : Phase) (module_name rule_id : Text) (action : Action) (outcome : Outcome) (took : ℕ)
    (b : Builder)
    → any_applied (record_entry phase module_name rule_id action outcome took b).entries
      ≡ any_applied b.entries || is_applied outcome
unfolding record_entry
recorded phase module_name rule_id action outcome took b = any_applied-snoc b.entries (record {
  seq = b.seq;
  phase = phase;
  module_name = module_name;
  rule_id = rule_id;
  action = action;
  outcome = outcome;
  duration = took;
})

recorded_noted :
    (t : Bool) (code : NoteCode) (name : Option Text) (detail : List (Text × Text)) (phase : Phase)
    (module_name rule_id : Text) (action : Action) (outcome : Outcome) (took : ℕ) (b : Builder)
    → any_applied
        (record_entry phase module_name rule_id action outcome took
          (if t then note code name detail b else b)).entries
      ≡ any_applied b.entries || is_applied outcome
unfolding note
recorded_noted true code name detail phase module_name rule_id action outcome took b =
    recorded phase module_name rule_id action outcome took (note code name detail b)
recorded_noted false code name detail phase module_name rule_id action outcome took b =
    recorded phase module_name rule_id action outcome took b

outcome_applied : (b : Bool) → is_applied (if b then Outcome.applied else Outcome.no_change) ≡ b
outcome_applied true = refl
outcome_applied false = refl

rule-Explained :
    (s₀ : HeaderState) (b₀ : Bool) (rule : CompiledRule) (side : Side) (phase : Phase) (took : ℕ)
    (p : HeaderPhase)
    → Explained s₀ b₀ p
    → Explained s₀ b₀ (apply_header_rule rule side phase took p)
unfolding apply_header_rule
rule-Explained s₀ b₀ rule side phase took p (c, f, a) =
    let block = block_or_empty (side_of side rule.params) in
    let e₀ : Edits = record {
      ops = p.ops;
      state = p.state;
      changed = false;
      touched_csp = false;
    } in
    let e = run_block block e₀ in
    (
      c || e.changed,
      block-Follows s₀ c block e₀ (f ∙ ap (λ d. (p.state, d)) (sym (or_false c))),
      recorded_noted (e.touched_csp && is_response side) NoteCode.csp_modified
            (some rule.module_name) ((codes "rule", rule.name) ∷ []) phase rule.module_name
            rule.rule_id Action.headers (if e.changed then Outcome.applied else Outcome.no_change)
            took p.builder
          ∙ ap₂ (λ x y. x || y) a (outcome_applied e.changed)
          ∙ or_assoc b₀ c e.changed,
    )

rules-Explained :
    (s₀ : HeaderState) (b₀ : Bool) (took : ℕ → ℕ) (side : Side) (phase : Phase)
    (rules : List CompiledRule) (p : HeaderPhase)
    → Explained s₀ b₀ p
    → Explained s₀ b₀ (apply_header_rules took side phase rules p)
unfolding apply_header_rules
rules-Explained s₀ b₀ took side phase [] p x = x
rules-Explained s₀ b₀ took side phase (rule ∷ rules) p x =
    rules-Explained s₀ b₀ took side phase rules _
      (rule-Explained s₀ b₀ rule side phase (took p.builder.seq) p x)

start_ops : (s : HeaderState) → state_ops false [] s ≡ (s, false)
unfolding state_ops
start_ops s = refl

-- the phase as the evaluator starts it
abbrev pub fresh : HeaderState → Builder → HeaderPhase
fresh s b = record { ops = []; state = s; builder = b }

-- When the state holds the headers on the wire and no rule sets a value with a comma in it, then
-- after the adapter has carried out the operations of a phase of header rules, the wire holds what
-- the phase's state says, and the adapter reports a change exactly when the phase has recorded a
-- rule as applied.
pub provenance_honest :
    {H : Type 0} ⦃wire : WireHeaders H⦄
    → (took : ℕ → ℕ) (side : Side) (phase : Phase) (rules : List CompiledRule) (s : HeaderState)
      (b : Builder) (h : H)
    → Models s h
    → All Plain (apply_header_rules took side phase rules (fresh s b)).ops
    → Models
        (apply_header_rules took side phase rules (fresh s b)).state
        (apply_header_ops false (apply_header_rules took side phase rules (fresh s b)).ops h).0
      × (any_applied (apply_header_rules took side phase rules (fresh s b)).builder.entries
          ≡ any_applied b.entries
            || (apply_header_ops false
                (apply_header_rules took side phase rules (fresh s b)).ops
                h).1)
provenance_honest took side phase rules s b h m plain =
    let p = apply_header_rules took side phase rules (fresh s b) in
    let x =
      rules-Explained s (any_applied b.entries) took side phase rules (fresh s b)
        (false, start_ops s, sym (or_false _)) in
    let y = ops-Models p.ops false s h plain m in
    (
      subst (λ t. Models t (apply_header_ops false p.ops h).0) (ap (λ r. r.0) x.1) y.0,
      x.2 ∙ ap (λ d. any_applied b.entries || d) (sym (ap (λ r. r.1) x.1) ∙ y.1),
    )
