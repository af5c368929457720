-- ===== src/Engine/RuleSet/Sound.antt =====
-- What is known of a rule that was compiled.
use pporlock.Base.{
  ◌≡◌, refl, ap, Bool, true, false, not, ◌||◌, Option, none, some, ◌==◌, text_eq, ◌⊎◌, inl, inr,
}
use pporlock.Base.Text.{Text, codes}
use pporlock.Base.Dict
use pporlock.Base.Dict.{Dict}
use pporlock.Base.Result.{Result, ok, err, refuse_if, ok_inj}
use pporlock.Base.Values.{Value, Fields, truthy}
use pporlock.Engine.Provenance.{Action}
use pporlock.Engine.Matcher.{CompiledMatcher}
use pporlock.Engine.Matcher.Compile.{RuleError}
use pporlock.Engine.RuleSet.Compile.{
  CompileError, check_mode, given, is_target, matched, validate_params,
}

-- what an action needs of its parameters
abbrev pub Valid : Action → Dict Text Value → Type 0
Valid Action.passthrough params = Unit
Valid Action.block params =
    (Dict.get (codes "mode") params ≡ none)
    ⊎ ((Dict.get (codes "mode") params ≡ some (Value.text (codes "stub")))
        ⊎ (Dict.get (codes "mode") params ≡ some (Value.text (codes "kill"))))
Valid Action.map_local params = truthy (given (codes "file") params) ≡ true
Valid Action.redirect params =
    (key : Text) × (v : Value) × (fs : Fields) × (given (codes "to") params
      ≡ Value.mapping (Fields.field key v fs))
Valid Action.headers params =
    (truthy (given (codes "request") params) ≡ true)
    ⊎ (truthy (given (codes "response") params) ≡ true)
Valid Action.body params =
    (truthy (given (codes "transform") params) ≡ true)
    ⊎ (truthy (given (codes "transforms") params) ≡ true)

not_refused : {E : Type 0} (b : Bool) (e : E) (u : Unit {0}) → refuse_if (not b) e ≡ ok u → b ≡ true
not_refused true e u h = refl
not_refused false e u h = cc

one_of : (a b : Bool) → (a || b) ≡ true → (a ≡ true) ⊎ (b ≡ true)
one_of true b h = inl refl
one_of false b h = inr h

mode_lem :
    (o : Option Value) (u : Unit {0})
    → check_mode o ≡ ok u
    → (o ≡ none) ⊎ ((o ≡ some (Value.text (codes "stub"))) ⊎ (o ≡ some (Value.text (codes "kill"))))
mode_lem none u h = inl refl
mode_lem (some (Value.text t)) u h =
    elim (one_of (t == codes "stub") (t == codes "kill") (not_refused _ _ u h)) [
      | inl b ↦ inr (inl (ap (λ s. some (Value.text s)) ((text_eq.beq_iff t (codes "stub")).0 b)))
      | inr b ↦ inr (inr (ap (λ s. some (Value.text s)) ((text_eq.beq_iff t (codes "kill")).0 b)))
    ]
mode_lem (some Value.null) u h = cc
mode_lem (some (Value.boolean _)) u h = cc
mode_lem (some (Value.integer _)) u h = cc
mode_lem (some (Value.scalar _ _)) u h = cc
mode_lem (some (Value.sequence _)) u h = cc
mode_lem (some (Value.mapping _)) u h = cc

target_lem :
    (v : Value)
    → is_target v ≡ true
    → (key : Text) × (w : Value) × (fs : Fields) × (v ≡ Value.mapping (Fields.field key w fs))
target_lem (Value.mapping (Fields.field key w fs)) h = (key, w, fs, refl)
target_lem (Value.mapping Fields.end) h = cc
target_lem Value.null h = cc
target_lem (Value.boolean _) h = cc
target_lem (Value.integer _) h = cc
target_lem (Value.scalar _ _) h = cc
target_lem (Value.text _) h = cc
target_lem (Value.sequence _) h = cc

pub valid_lem :
    (action : Action) (params : Dict Text Value) (u : Unit {0})
    → validate_params action params ≡ ok u
    → Valid action params
valid_lem Action.passthrough params u h = tt
valid_lem Action.block params u h = mode_lem (Dict.get (codes "mode") params) u h
valid_lem Action.map_local params u h = not_refused _ _ u h
valid_lem Action.redirect params u h = target_lem (given (codes "to") params) (not_refused _ _ u h)
valid_lem Action.headers params u h = one_of _ _ (not_refused _ _ u h)
valid_lem Action.body params u h = one_of _ _ (not_refused _ _ u h)

pub known_action_lem :
    (o : Option Action) (t : Text) (a : Action)
    → elim o as (λ _. Result CompileError Action) [
      | none ↦ err (CompileError.unknown_action t)
      | some b ↦ ok b
    ]
      ≡ ok a
    → o ≡ some a
known_action_lem none t a h = cc
known_action_lem (some b) t a h = ap some (ok_inj b a h)

pub matched_lem :
    (r : Result RuleError CompiledMatcher) (m : CompiledMatcher) → matched r ≡ ok m → r ≡ ok m
matched_lem (ok n) m h = ap ok (ok_inj n m h)
matched_lem (err why) m h = cc
