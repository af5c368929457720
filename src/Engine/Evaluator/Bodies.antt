-- ===== src/Engine/Evaluator/Bodies.antt =====
-- What the body rules make of a response, against a plain fold of their transforms.
use pporlock.Base.{
  ℕ, ◌+◌, ◌≡◌, refl, ap, ◌∙◌, Bool, true, false, none, List, [], ◌∷◌, ◌==◌, text_eq, length, arith,
  if◌then◌else◌, length-append,
}
use pporlock.Base.Text.{Text}
use pporlock.Engine.Provenance.{note, record_entry}
use pporlock.Engine.RuleSet.{CompiledRule, Transform, strip_csp, transforms_of}
use pporlock.Engine.Evaluator.{is_exhausted, spend}
use pporlock.Engine.Evaluator.Response.{
  BodyRun, Ran, after_run, run_body_rule, run_body_rules, run_transforms,
}

abbrev pub text_after : Text → Ran → Text
text_after text (Ran.ran new notes) = new
text_after text (Ran.broke notes) = text

module _ (run : Transform → Text → Ran) where
  -- the reference: one transform after the other, where one that fails changes nothing
  unfoldable pub fold_transforms : List Transform → Text → Text
  fold_transforms [] text = text
  fold_transforms (t ∷ ts) text =
      fold_transforms ts (if t.kind == strip_csp then text else text_after text (run t text))

  unfoldable pub fold_rules : List CompiledRule → Text → Text
  unfolding transforms_of
  fold_rules [] text = text
  fold_rules (rule ∷ rules) text =
      fold_rules rules (fold_transforms (transforms_of rule.params) text)

module _ (took : ℕ → ℕ) (run : Transform → Text → Ran) where
  after_text :
      (rule : CompiledRule) (r : Ran) (s : BodyRun)
      → (after_run took run rule r s).text ≡ text_after s.text r
  after_text rule (Ran.ran text notes) s = refl
  after_text rule (Ran.broke notes) s = refl

  after_budget :
      (rule : CompiledRule) (r : Ran) (s : BodyRun)
      → s.budget ≡ none
      → (after_run took run rule r s).budget ≡ none
  after_budget rule (Ran.ran text notes) s h = ap (spend (took s.builder.seq)) h
  after_budget rule (Ran.broke notes) s h = ap (spend (took s.builder.seq)) h

  step_text :
      (rule : CompiledRule) (c : Bool) (r : Ran) (s : BodyRun)
      → (if c then s else after_run took run rule r s).text
        ≡ (if c then s.text else text_after s.text r)
  step_text rule true r s = refl
  step_text rule false r s = after_text rule r s

  step_budget :
      (rule : CompiledRule) (c : Bool) (r : Ran) (s : BodyRun)
      → s.budget ≡ none
      → (if c then s else after_run took run rule r s).budget ≡ none
  step_budget rule true r s h = h
  step_budget rule false r s h = after_budget rule r s h

  transforms_text :
      (rule : CompiledRule) (ts : List Transform) (s : BodyRun)
      → s.budget ≡ none
      → ((run_transforms took run rule ts s).text ≡ fold_transforms run ts s.text)
        × ((run_transforms took run rule ts s).budget ≡ none)
  unfolding run_transforms fold_transforms
  transforms_text rule [] s h = (refl, h)
  transforms_text rule (t ∷ ts) s h =
      let c = t.kind == strip_csp in
      let next = if c then s else after_run took run rule (run t s.text) s in
      let rest = transforms_text rule ts next (step_budget rule c (run t s.text) s h) in
      (rest.0 ∙ ap (fold_transforms run ts) (step_text rule c (run t s.text) s), rest.1)

  rule_text :
      (rule : CompiledRule) (s : BodyRun)
      → s.budget ≡ none
      → ((run_body_rule took run false rule s).text
          ≡ fold_transforms run (transforms_of rule.params) s.text)
        × ((run_body_rule took run false rule s).budget ≡ none)
  unfolding run_body_rule
  rule_text rule s h = rw (ap is_exhausted h) (transforms_text rule (transforms_of rule.params) s h)

  -- Without a time budget, the text that the body rules make of a buffered response is the fold of
  -- all their transforms in order, strip_csp left out, where a transform that fails changes nothing.
  pub body_rules_fold :
      (rules : List CompiledRule) (s : BodyRun)
      → s.budget ≡ none
      → (run_body_rules took run false rules s).text ≡ fold_rules run rules s.text
  unfolding run_body_rules fold_rules
  body_rules_fold [] s h = refl
  body_rules_fold (rule ∷ rules) s h =
      let one = rule_text rule s h in
      body_rules_fold rules (run_body_rule took run false rule s) one.1
      ∙ ap (fold_rules run rules) one.0

  skip_one :
      (streamed : Bool) (rule : CompiledRule) (s : BodyRun)
      → (if streamed then true else is_exhausted s.budget) ≡ true
      → ((run_body_rule took run streamed rule s).text ≡ s.text)
        × ((run_body_rule took run streamed rule s).budget ≡ s.budget)
        × (length (run_body_rule took run streamed rule s).builder.entries
            ≡ length s.builder.entries + 1)
  unfolding run_body_rule record_entry note
  skip_one true rule s h = (refl, refl, length-append s.builder.entries _)
  skip_one false rule s h = rw h (refl, refl, length-append s.builder.entries _)

  -- On a streamed response, or once the budget is spent, no body rule changes the text or spends
  -- time, and each of them leaves exactly one entry that says so.
  pub skipped_rules :
      (streamed : Bool) (rules : List CompiledRule) (s : BodyRun)
      → (if streamed then true else is_exhausted s.budget) ≡ true
      → ((run_body_rules took run streamed rules s).text ≡ s.text)
        × ((run_body_rules took run streamed rules s).budget ≡ s.budget)
        × (length (run_body_rules took run streamed rules s).builder.entries
            ≡ length s.builder.entries + length rules)
  unfolding run_body_rules
  skipped_rules streamed [] s h = (refl, refl, omega arith)
  skipped_rules streamed (rule ∷ rules) s h =
      let one = skip_one streamed rule s h in
      let rest =
        skipped_rules streamed rules (run_body_rule took run streamed rule s)
          (ap (λ b. if streamed then true else is_exhausted b) one.1 ∙ h) in
      (rest.0 ∙ one.0, rest.1 ∙ one.1, omega (arith, rest.2, one.2))
