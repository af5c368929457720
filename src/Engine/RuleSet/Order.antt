-- ===== src/Engine/RuleSet/Order.antt =====
-- The order of the rules in a set, and the set made of several sources.
use pporlock.Base.{
  ◌≡◌, refl, sym, ap, ap₂, ◌∙◌, Bool, true, List, [], ◌∷◌, ◌++◌, filter, filter-append, All, arith,
  Bool-cases, inl, inr, append-nil,
}
use pporlock.Base.Text.{Text}
use pporlock.Base.Sort.{
  Key, sort, Sorted, sort-Sorted, All-sort, with_key, with_key-sort, sort-append_sorted,
}
use pporlock.Engine.RuleSet.{CompiledRule, make_ruleset, combine, all_rules, all_modules, sort_key}

pub rules_in_order :
    (rules : List CompiledRule) (modules : List Text)
    → Sorted sort_key (make_ruleset rules modules).rules
      × ((k : Key)
          → with_key sort_key k (make_ruleset rules modules).rules
            ≡ with_key sort_key k (filter (λ r. r.enabled) rules))
unfolding make_ruleset
rules_in_order rules modules = (
  sort-Sorted sort_key (filter (λ r. r.enabled) rules),
  λ k. with_key-sort sort_key k (filter (λ r. r.enabled) rules),
)

abbrev IsEnabled : CompiledRule → Type 0
IsEnabled r = r.enabled ≡ true

abbrev enabled_rules : List CompiledRule → List CompiledRule
enabled_rules = filter (λ r. r.enabled)

filter-All : {A : Type 0} (test : A → Bool) (l : List A) → All (λ x. test x ≡ true) (filter test l)
filter-All test [] = tt
filter-All test (x ∷ l) = elim (Bool-cases (test x)) [
  | inl e ↦ rw e (e, filter-All test l)
  | inr e ↦ rw e (filter-All test l)
]

enabled_rules_lem : (l : List CompiledRule) → All IsEnabled l → enabled_rules l ≡ l
enabled_rules_lem [] h = refl
enabled_rules_lem (r ∷ l) h = ground (arith, h.0, enabled_rules_lem l h.1)

sorted_enabled :
    (l : List CompiledRule)
    → enabled_rules (sort sort_key (enabled_rules l)) ≡ sort sort_key (enabled_rules l)
sorted_enabled l =
    enabled_rules_lem _
      (All-sort sort_key IsEnabled (enabled_rules l) (filter-All (λ r. r.enabled) l))

-- Combining the sets built from two sources gives the rules of the set built from both at once, in
-- the same order: the rules of one source are never lost to the other's.
pub combine_lem :
    (xs ys : List CompiledRule) (ms ns : List Text)
    → (combine (make_ruleset xs ms ∷ make_ruleset ys ns ∷ [])).rules
      ≡ (make_ruleset (xs ++ ys) (ms ++ ns)).rules
unfolding combine make_ruleset all_rules all_modules
combine_lem xs ys ms ns =
    let a = sort sort_key (enabled_rules xs) in
    let b = sort sort_key (enabled_rules ys) in
    ap (λ l. sort sort_key (enabled_rules (a ++ l))) (append-nil b)
    ∙ ap (sort sort_key)
        (filter-append _ a b ∙ ap₂ (λ x y. x ++ y) (sorted_enabled xs) (sorted_enabled ys))
    ∙ sort-append_sorted sort_key (enabled_rules xs) (enabled_rules ys)
    ∙ ap (sort sort_key) (sym (filter-append _ xs ys))
