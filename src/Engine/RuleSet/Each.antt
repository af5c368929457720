-- ===== src/Engine/RuleSet/Each.antt =====
-- The rules that are compiled from a list, all of them or none.
use pporlock.Base.{
  ℕ, suc, ◌≡◌, refl, subst, Bool, true, false, not, ◌||◌, Option, some, List, [], ◌∷◌, ◌++◌,
  text_eq, ◌⊎◌, inl, inr,
}
use pporlock.Base.Text.{Text, codes, non_empty, starts_with}
use pporlock.Base.Int.{ℤ}
use pporlock.Base.Dict
use pporlock.Base.Dict.{Dict}
use pporlock.Base.Result.{ok, ok_inj, >>=-eq-ok, >>-eq-ok}
use pporlock.Base.Values.{Value}
use pporlock.Engine.Models.{NormalizedRequest, NormalizedResponse}
use pporlock.Engine.Provenance.{Action}
use pporlock.Engine.Matcher.{Pattern, matches_request, matches_response}
use pporlock.Engine.Matcher.Compile.{compile_matcher}
use pporlock.Engine.Matcher.Exact.{request_phase_lem}
use pporlock.Engine.RuleSet.Compile.{
  DeclaredRule, CompileError, action_of, compile_rule, compile_rules, given, known_action, match_of,
  matched, params_of, request_phase, validate_params, validate_transforms, word_of,
}
use pporlock.Engine.RuleSet.Sound.{Valid, valid_lem, known_action_lem, matched_lem}

not-false : (b : Bool) → not b ≡ false → b ≡ true
not-false true h = refl
not-false false h = cc

or_true : (a b : Bool) → b ≡ true → (a || b) ≡ true
or_true true b e = refl
or_true false b e = e

-- a rule that acts before the response exists
abbrev pub Early : Action → Dict Text Value → Type 0
Early Action.headers params =
    (Dict.has (codes "response") params ≡ false) ⊎ (Dict.has (codes "request") params ≡ true)
Early Action.body params = ⊥
Early _ params = Unit

request_phase-Early :
    (action : Action) (params : Dict Text Value)
    → Early action params
    → request_phase action params ≡ true
request_phase-Early Action.headers params (inl e) = rw e refl
request_phase-Early Action.headers params (inr e) =
    or_true (not (Dict.has (codes "response") params)) (Dict.has (codes "request") params) e
request_phase-Early Action.passthrough params e = refl
request_phase-Early Action.block params e = refl
request_phase-Early Action.map_local params e = refl
request_phase-Early Action.redirect params e = refl
request_phase-Early Action.body params e = absurd e

module _ (repr : Value → Text) (regex : Text → Option Pattern) (glob : Text → Pattern)
    (int : Text → Option ℤ) (show : ℕ → Text) (registry : Option (Dict Text Value → Bool)) where
  -- the rule that stands at an index of a module's list
  pub record IsCompiled (module_name : Text) (at level : ℕ) (raw : Dict Text Value)
      (r : DeclaredRule) : Type 0 where
    pub rule_id : r.rule_id ≡ module_name ++ b':' ∷ show at
    pub index : r.index ≡ at
    pub priority : r.priority ≡ level
    pub params : r.params ≡ params_of raw
    pub named : non_empty r.name ≡ true
    pub action :
        action_of (word_of repr regex glob int show registry (codes "action") raw) ≡ some r.action
    pub valid : Valid r.action r.params
    pub block : Dict Text Value
    pub given_block : match_of (given (codes "match") raw) ≡ ok block
    pub matcher :
        compile_matcher repr regex glob int (request_phase r.action r.params) block ≡ ok r.matcher

  compile_rule-IsCompiled :
      (module_name : Text) (index priority : ℕ) (raw : Dict Text Value) (r : DeclaredRule)
      → compile_rule repr regex glob int show registry module_name index priority raw ≡ ok r
      → IsCompiled module_name index priority raw r
  unfolding compile_rule
  compile_rule-IsCompiled module_name index priority raw r h =
      let name = word_of repr regex glob int show registry (codes "name") raw in
      let named = word_of repr regex glob int show registry (codes "action") raw in
      let params = params_of raw in
      let (n, h₁) = >>-eq-ok (not (non_empty name)) CompileError.no_name _ h in
      let (_, h₂) = >>-eq-ok (starts_with named (codes "ws_")) (CompileError.reserved named) _ h₁ in
      let (action, a, h₃) = >>=-eq-ok (known_action named) _ h₂ in
      let (u, v, h₄) = >>=-eq-ok (validate_params action params) _ h₃ in
      let (_, _, h₅) =
        >>=-eq-ok (validate_transforms repr regex glob int show registry action params) _ h₄ in
      let (block, b, h₆) = >>=-eq-ok (match_of (given (codes "match") raw)) _ h₅ in
      let (matcher, m, h₇) =
        >>=-eq-ok
          (matched (compile_matcher repr regex glob int (request_phase action params) block)) _
          h₆ in
      subst (IsCompiled module_name index priority raw) (ok_inj _ r h₇) (record {
        rule_id = refl;
        index = refl;
        priority = refl;
        params = refl;
        named = not-false (non_empty name) n;
        action = known_action_lem (action_of named) named action a;
        valid = valid_lem action params u v;
        block = block;
        given_block = b;
        matcher = matched_lem _ matcher m;
      })

  -- each of them is the one at its place in the list
  pub Each : Text → ℕ → ℕ → List (Dict Text Value) → List DeclaredRule → Type 0
  Each module_name index priority [] [] = Unit
  Each module_name index priority (raw ∷ raws) (r ∷ rs) =
      IsCompiled module_name index priority raw r × Each module_name (suc index) priority raws rs
  Each module_name index priority _ _ = ⊥

  -- A list of rules that is compiled gives a rule for each, in order: it is named by its module and its
  -- place, has a name, the action that is declared, with the parameters that this action needs, and the
  -- matcher of its own block, compiled for the phase that it runs in.
  pub compile_rules-Each :
      (module_name : Text) (index priority : ℕ) (raws : List (Dict Text Value))
      (rs : List DeclaredRule)
      → compile_rules repr regex glob int show registry module_name index priority raws ≡ ok rs
      → Each module_name index priority raws rs
  unfolding compile_rules Each
  compile_rules-Each module_name index priority [] rs h =
      subst (Each module_name index priority []) (ok_inj [] rs h) tt
  compile_rules-Each module_name index priority (raw ∷ raws) rs h =
      let (r, e, k) =
        >>=-eq-ok (compile_rule repr regex glob int show registry module_name index priority raw) _
          h in
      let (rest, e', k') =
        >>=-eq-ok
          (compile_rules repr regex glob int show registry module_name (suc index) priority raws) _
          k in
      subst (Each module_name index priority (raw ∷ raws)) (ok_inj (r ∷ rest) rs k') (
        compile_rule-IsCompiled module_name index priority raw r e,
        compile_rules-Each module_name (suc index) priority raws rest e',
      )

  -- A rule that acts before the response exists, as one that also adds a header to the request does,
  -- matches on any response exactly the requests that it matches before there is one.
  pub compile_rule-Early :
      (module_name : Text) (index priority : ℕ) (raw : Dict Text Value) (r : DeclaredRule)
      (q : NormalizedRequest) (p : NormalizedResponse)
      → compile_rule repr regex glob int show registry module_name index priority raw ≡ ok r
      → Early r.action r.params
      → matches_response r.matcher q p ≡ matches_request r.matcher q
  compile_rule-Early module_name index priority raw r q p h early =
      let compiled = compile_rule-IsCompiled module_name index priority raw r h in
      request_phase_lem repr regex glob int compiled.block r.matcher q p (
        subst (λ b. compile_matcher repr regex glob int b compiled.block ≡ ok r.matcher)
          (request_phase-Early r.action r.params early) compiled.matcher)
