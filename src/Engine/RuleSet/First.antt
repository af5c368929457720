-- ===== src/Engine/RuleSet/First.antt =====
-- The first match of the short-circuit class, which wins over every other module's.
use pporlock.Base.{
  ◌≡◌, refl, ap, true, ◌++◌, Option, none, some, List, [], ◌∷◌, filter, find, All, arith,
  Bool-cases, inl, inr,
}
use pporlock.Base.Text.{Text}
use pporlock.Base.Sort.{lex_le, Sorted, sort-Sorted}
use pporlock.Engine.Models.{NormalizedRequest}
use pporlock.Engine.Matcher.{matches_request}
use pporlock.Engine.RuleSet.{
  CompiledRule, make_ruleset, first_short_circuit, is_short_circuit, sort_key,
}

-- the rule could be the one that answers the request
abbrev pub Competes : NormalizedRequest → CompiledRule → Type 0
Competes request r = (is_short_circuit r.action ≡ true) × (matches_request r.matcher request ≡ true)

-- what the first match is among sorted rules: one of them, with none that competes before it
pub data Wins (request : NormalizedRequest) (rules : List CompiledRule)
    : Option CompiledRule → Type 0 where
  nobody : All (λ r. Competes request r → ⊥) rules → Wins request rules none
  winner :
      (earlier : List CompiledRule) (r : CompiledRule) (later : List CompiledRule)
      → rules ≡ earlier ++ r ∷ later
      → All (λ s. Competes request s → ⊥) earlier
      → Competes request r
      → All (λ s. Competes request s → lex_le (sort_key r) (sort_key s) ≡ true) rules
      → Wins request rules (some r)

passed_over :
    (request : NormalizedRequest) (r : CompiledRule) (rules : List CompiledRule)
    (o : Option CompiledRule)
    → (Competes request r → ⊥)
    → Wins request rules o
    → Wins request (r ∷ rules) o
passed_over request r rules none out (nobody h) = nobody (out, h)
passed_over request r rules (some _) out (winner earlier s later e before c h) =
    winner (r ∷ earlier) s later (ap (λ l. r ∷ l) e) (out, before) c ((λ d. absurd (out d)), h)

All-give :
    (P Q : CompiledRule → Type 0) → (l : List CompiledRule) → All P l → All (λ s. Q s → P s) l
All-give P Q [] h = tt
All-give P Q (s ∷ l) h = ((λ _. h.0), All-give P Q l h.1)

lex_refl : (r : CompiledRule) → lex_le (sort_key r) (sort_key r) ≡ true
lex_refl r = ground arith

find_wins :
    (request : NormalizedRequest) (rules : List CompiledRule)
    → Sorted sort_key rules
    → Wins request rules (
        find
          (λ r. matches_request r.matcher request)
          (filter (λ r. is_short_circuit r.action) rules))
find_wins request [] s = nobody tt
find_wins request (r ∷ rules) s = elim (Bool-cases (is_short_circuit r.action)) [
  | inr e ↦
      rw e (passed_over request r rules _ (λ c. absurd (cc (e, c.0))) (find_wins request rules s.1))
  | inl e ↦ rw e (elim (Bool-cases (matches_request r.matcher request)) [
    | inl m ↦ rw m (
        winner [] r rules refl tt (e, m)
          ((λ _. lex_refl r), All-give _ (Competes request) rules s.0))
    | inr m ↦
        rw m
          (passed_over request r rules _ (λ c. absurd (cc (m, c.1))) (find_wins request rules s.1))
  ])
]

-- The rule that a set short-circuits a request with is a short-circuit rule of the set that matches
-- it: no such rule stands before it in the set, and none has a smaller priority and index; where
-- there is none, no short-circuit rule of the set matches.
pub first_short_circuit_lem :
    (rules : List CompiledRule) (modules : List Text) (request : NormalizedRequest)
    → Wins request
        (make_ruleset rules modules).rules
        (first_short_circuit (make_ruleset rules modules) request)
unfolding first_short_circuit make_ruleset
first_short_circuit_lem rules modules request =
    find_wins request _ (sort-Sorted sort_key (filter (λ r. r.enabled) rules))
