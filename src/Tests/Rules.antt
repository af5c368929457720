-- ===== src/Tests/Rules.antt =====
-- Rules, header phases and bodies at small inputs.
use pporlock.Base.{ℕ, ◌≡◌, refl, none, some, List, [], ◌∷◌, text_eq, filter, nat_eq}
use pporlock.Base.Text.{Text, codes}
use pporlock.Base.Sort.{Key, Sorted, with_key}
use pporlock.Engine.RuleSet.{combine, first_short_circuit, make_ruleset, sort_key}
use pporlock.Engine.RuleSet.Order.{combine_lem, rules_in_order}
use pporlock.Engine.RuleSet.First.{Wins, first_short_circuit_lem}
use pporlock.Engine.Stubs.{IsUncached, auto_for, resolve}
use pporlock.Engine.Stubs.Uncached.{resolve-IsUncached}
use pporlock.Tests.Data.{blocking, page, tracing}

combine_lem_example :
    (combine (make_ruleset (tracing ∷ []) [] ∷ make_ruleset (blocking ∷ []) [] ∷ [])).rules
    ≡ (make_ruleset (tracing ∷ blocking ∷ []) []).rules
combine_lem_example = combine_lem (tracing ∷ []) (blocking ∷ []) [] []

rules_in_order_example :
    Sorted sort_key (make_ruleset (tracing ∷ blocking ∷ []) []).rules
    × ((k : Key)
        → with_key sort_key k (make_ruleset (tracing ∷ blocking ∷ []) []).rules
          ≡ with_key sort_key k (filter (λ r. r.enabled) (tracing ∷ blocking ∷ [])))
rules_in_order_example = rules_in_order (tracing ∷ blocking ∷ []) []

first_short_circuit_lem_example :
    Wins page
      (make_ruleset (tracing ∷ blocking ∷ []) []).rules
      (first_short_circuit (make_ruleset (tracing ∷ blocking ∷ []) []) page)
first_short_circuit_lem_example = first_short_circuit_lem (tracing ∷ blocking ∷ []) [] page

abbrev no_page : Text → Text → List ℕ
no_page url rule = []

resolved :
    resolve no_page [] (codes "m:0") (codes "r") none page
    ≡ some (auto_for no_page (codes "m:0") (codes "r") page)
unfolding resolve
resolved = refl

resolve-IsUncached_example :
    IsUncached (codes "m:0") (auto_for no_page (codes "m:0") (codes "r") page)
resolve-IsUncached_example =
    resolve-IsUncached no_page [] (codes "m:0") (codes "r") none page
      (auto_for no_page (codes "m:0") (codes "r") page) resolved
