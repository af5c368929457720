-- ===== src/Tests/Compile.antt =====
-- Tests and examples on the compilation of `match` blocks (engine/matcher.py). A pattern is a text
-- that is looked for, and a glob one that is met exactly.
use pporlock.Base.{
  inr, ℕ, ◌+◌, ◌-◌, ◌*◌, ◌≡◌, refl, true, false, Option, none, some, List, [], ◌∷◌, ◌&&◌, ◌==◌,
  text_eq, nat_eq,
}
use pporlock.Base.Text.{Text, codes, has_part, upper, strip, before, after, starts_with}
use pporlock.Base.Int.{ℤ}
use pporlock.Base.Dict
use pporlock.Base.Dict.{Dict}
use pporlock.Base.Result.{ok, err}
use pporlock.Base.Values.{Value, Items, Fields, fields}
use pporlock.Engine.Matcher.{Pattern, CompiledMatcher, matches_request, matches_response}
use pporlock.Engine.Matcher.Compile.{RuleError, compile_matcher}
use pporlock.Engine.Matcher.Compiled.{request_says, response_says}
use pporlock.Engine.Matcher.Exact
use pporlock.Engine.Provenance.{Action}
use pporlock.Engine.RuleSet.Compile.{DeclaredRule, compile_rule, compile_rules}
use pporlock.Engine.RuleSet.Each
use pporlock.Tests.Data.{everything, page, script}

abbrev words : Value → Text
words v = codes "0"

abbrev regex : Text → Option Pattern
regex t = some (λ s. has_part s t)

abbrev glob : Text → Pattern
glob t s = s == t

abbrev number : ℕ → Text → ℕ
number n [] = n
number n (c ∷ s) = number (n * 10 + (c - 48)) s

abbrev int : Text → Option ℤ
int t = some (ℤ.pos (number 0 t))

abbrev on_get_block : Fields
on_get_block =
    Fields.field (codes "method") (Value.sequence (Items.item (Value.text (codes "get")) Items.nil))
      (Fields.field (codes "path") (Value.text (codes ".js")) Fields.end)

abbrev on_get : Dict Text Value
on_get = fields on_get_block

abbrev on_success : Dict Text Value
on_success = (codes "status", Value.text (codes "200-299")) ∷ on_get

abbrev getting : Option (List (ℤ × ℤ)) → CompiledMatcher
getting statuses = record {
  host_glob = none;
  path_re = some (λ s. has_part s (codes ".js"));
  methods = some (codes "GET" ∷ []);
  dests = none;
  query_res = [];
  request_header_res = [];
  statuses = statuses;
  content_type_re = none;
  matches_everything = false;
}

get_compiled : compile_matcher words regex glob int true on_get ≡ ok (getting none)
unfolding compile_matcher text_eq Dict.get upper
get_compiled = refl

success_compiled :
    compile_matcher words regex glob int false on_success
    ≡ ok (getting (some ((ℤ.pos 200, ℤ.pos 299) ∷ [])))
unfolding compile_matcher text_eq Dict.get upper strip before after
success_compiled = refl

-- a status asks for a response
success_too_early :
    compile_matcher words regex glob int true on_success
    ≡ err (RuleError.misplaced (codes "status" ∷ []))
unfolding compile_matcher text_eq Dict.get
success_too_early = refl

-- a list of no methods is as good as no list
no_methods :
    compile_matcher words regex glob int true ((codes "method", Value.sequence Items.nil) ∷ [])
    ≡ ok (record everything { matches_everything = false })
unfolding compile_matcher text_eq Dict.get
no_methods = refl

matches_response_lem_example :
    matches_response (getting (some ((ℤ.pos 200, ℤ.pos 299) ∷ []))) page script ≡ (
      request_says words regex glob int on_success page
      && response_says words regex glob int on_success script)
matches_response_lem_example =
    Exact.matches_response_lem words regex glob int false on_success
      (getting (some ((ℤ.pos 200, ℤ.pos 299) ∷ []))) page script success_compiled

abbrev show : ℕ → Text
show n = (48 + n) ∷ []

abbrev edits : Value
edits = Value.mapping (
    Fields.field (codes "remove") (Value.sequence (Items.item (Value.text (codes "x")) Items.nil))
      Fields.end)

-- a headers rule of both sides, on requests by their method and path
abbrev both_sides : Dict Text Value
both_sides =
    (codes "name", Value.text (codes " tag "))
    ∷ (codes "action", Value.text (codes "headers"))
    ∷ (codes "request", edits)
    ∷ (codes "response", edits)
    ∷ (codes "match", Value.mapping on_get_block)
    ∷ []

abbrev tagging : DeclaredRule
tagging = record {
  rule_id = codes "m:0";
  module_name = codes "m";
  name = codes "tag";
  action = Action.headers;
  matcher = getting none;
  priority = 100;
  index = 0;
  enabled = true;
  params = (codes "request", edits) ∷ (codes "response", edits) ∷ [];
}

tagging_compiled :
    compile_rule words regex glob int show none (codes "m") 0 100 both_sides ≡ ok tagging
unfolding compile_rule compile_matcher text_eq Dict.get upper strip starts_with
tagging_compiled = refl

tagging_is_Early : Each.Early tagging.action tagging.params
unfolding Dict.get text_eq
tagging_is_Early = inr refl

compile_rule-Early_example :
    matches_response tagging.matcher page script ≡ matches_request tagging.matcher page
compile_rule-Early_example =
    Each.compile_rule-Early words regex glob int show none (codes "m") 0 100 both_sides tagging page
      script tagging_compiled tagging_is_Early

all_compiled :
    compile_rules words regex glob int show none (codes "m") 0 100 (both_sides ∷ [])
    ≡ ok (tagging ∷ [])
unfolding compile_rules compile_matcher text_eq Dict.get upper strip starts_with
all_compiled = refl

compile_rules-Each_example :
    Each.Each words regex glob int show none (codes "m") 0 100 (both_sides ∷ []) (tagging ∷ [])
compile_rules-Each_example =
    Each.compile_rules-Each words regex glob int show none (codes "m") 0 100 (both_sides ∷ [])
      (tagging ∷ []) all_compiled
