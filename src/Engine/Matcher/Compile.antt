-- ===== src/Engine/Matcher/Compile.antt =====
-- `compile_matcher` (engine/matcher.py): a rule's `match` block becomes a matcher, or the first error
-- in it. A block is the dict of its entries, and an error says what is wrong, without its message.
-- `regex` is the search of the pattern that `re.compile` makes of a text, or nothing where it raises,
-- `glob` the test of `fnmatchcase`, `int` what `int` reads, and `repr` what `str` makes of no text.
use pporlock.Base.{
  Bool, true, false, not, ◌&&◌, Option, none, some, List, [], ◌∷◌, map, text_eq, nat_eq, any,
  contains, filter, if◌then◌else◌,
}
use pporlock.Base.Text.{Text, codes, lower, upper, strip, before, after}
use pporlock.Base.Int.{ℤ}
use pporlock.Base.Dict
use pporlock.Base.Dict.{Dict, keys}
use pporlock.Base.Result.{Result, ok, err, ◌>>=◌, ◌>>◌, refuse_if}
use pporlock.Base.Values.{Value, items, fields, str, truthy}
use pporlock.Engine.Matcher.{Pattern, CompiledMatcher}

-- `RuleValidationError` by what it is about; `no_mapping` is the AttributeError of `.items()`
pub data RuleError : Type 0 where
  unknown_criteria : List Text → RuleError
  misplaced : List Text → RuleError
  bad_regex : Text → RuleError
  bad_status : Text → RuleError
  no_mapping : RuleError

-- `RESPONSE_ONLY`
abbrev pub response_only : List Text
response_only = codes "status" ∷ codes "content_type" ∷ []

-- `KNOWN_CRITERIA`
abbrev pub known_criteria : List Text
known_criteria =
    codes "host"
    ∷ codes "path"
    ∷ codes "method"
    ∷ codes "dest"
    ∷ codes "query"
    ∷ codes "request_headers"
    ∷ response_only

-- the keys of a block that are in a set, and those that are not
abbrev pub those_in : List Text → List Text → List Text
those_in names given = filter (λ key. contains names key) given

abbrev pub those_out : List Text → List Text → List Text
those_out names given = filter (λ key. not (contains names key)) given

abbrev pub listed : Value → List Value
listed (Value.sequence vs) = items vs
listed v = v ∷ []

abbrev pub or_nothing : List Text → Option (List Text)
or_nothing [] = none
or_nothing (t ∷ ts) = some (t ∷ ts)

-- `spec.get(key)`, where None is as good as nothing
abbrev pub present : Option Value → Option Value
present none = none
present (some Value.null) = none
present (some v) = some v

abbrev pub one_if : Bool → ℤ
one_if true = ℤ.pos 1
one_if false = ℤ.pos 0

abbrev pub range_of : Text → Option ℤ → Option ℤ → Result RuleError (ℤ × ℤ)
range_of spec (some low) (some high) = ok (low, high)
range_of spec _ _ = err (RuleError.bad_status spec)

abbrev pub mapping_of : Option Value → Result RuleError (Dict Text Value)
mapping_of none = ok []
mapping_of (some (Value.mapping fs)) = ok (fields fs)
mapping_of (some v) = if truthy v then err RuleError.no_mapping else ok []

abbrev pub criterion : Text → Dict Text Value → Option Value
criterion name spec = present (Dict.get name spec)

-- `_compile_regex`
abbrev pub compiled_regex : Text → Option Pattern → Result RuleError Pattern
compiled_regex name none = err (RuleError.bad_regex name)
compiled_regex name (some p) = ok p

module _ (repr : Value → Text) (regex : Text → Option Pattern) (glob : Text → Pattern)
    (int : Text → Option ℤ) where
  -- `_as_set`
  unfoldable pub as_set : Option Value → Option (List Text)
  as_set none = none
  as_set (some v) = or_nothing (map (λ i. upper (str repr i)) (listed v))

  unfoldable pub compile_regex : Text → Value → Result RuleError Pattern
  compile_regex name v = compiled_regex name (regex (str repr v))

  abbrev pub compile_criterion : Text → Option Value → Result RuleError (Option Pattern)
  compile_criterion name none = ok none
  compile_criterion name (some v) = do pattern ← compile_regex name v; ok (some pattern)

  abbrev pub text_range : Text → Result RuleError (ℤ × ℤ)
  text_range t =
      if contains t b'-'
      then range_of t (int (before b'-' t)) (int (after b'-' t))
      else range_of t (int t) (int t)

  -- a bool is an int
  abbrev pub parse_range : Value → Result RuleError (ℤ × ℤ)
  parse_range (Value.integer n) = ok (n, n)
  parse_range (Value.boolean b) = ok (one_if b, one_if b)
  parse_range v = text_range (strip (str repr v))

  unfoldable pub parse_ranges : List Value → Result RuleError (List (ℤ × ℤ))
  parse_ranges [] = ok []
  parse_ranges (v ∷ vs) = do range ← parse_range v; rest ← parse_ranges vs; ok (range ∷ rest)

  -- `_parse_status`
  abbrev pub parse_status : Option Value → Result RuleError (Option (List (ℤ × ℤ)))
  parse_status none = ok none
  parse_status (some v) = do ranges ← parse_ranges (listed v); ok (some ranges)

  unfoldable pub compile_queries : Dict Text Value → Result RuleError (List (Text × Pattern))
  unfolding compile_regex
  compile_queries [] = ok []
  compile_queries ((key, v) ∷ rest) = do
    pattern ← compile_regex key v
    others ← compile_queries rest
    ok ((key, pattern) ∷ others)

  unfoldable pub compile_headers : Dict Text Value → Result RuleError (List (Text × Option Pattern))
  unfolding compile_regex
  compile_headers [] = ok []
  compile_headers ((key, v) ∷ rest) = do
    pattern ← compile_criterion key (present (some v))
    others ← compile_headers rest
    ok ((lower key, pattern) ∷ others)

  abbrev pub host_test : Option Value → Option Pattern
  host_test none = none
  host_test (some v) = some (glob (lower (str repr v)))

  -- `compile_matcher`
  unfoldable pub compile_matcher : Bool → Dict Text Value → Result RuleError CompiledMatcher
  unfolding compile_queries compile_headers parse_ranges as_set
  compile_matcher request_phase spec = do
    let unknown = those_out known_criteria (keys spec)
    refuse_if (any (λ _. true) unknown) (RuleError.unknown_criteria unknown)
    let early = those_in response_only (keys spec)
    refuse_if (request_phase && any (λ _. true) early) (RuleError.misplaced early)
    query ← mapping_of (criterion (codes "query") spec)
    query_res ← compile_queries query
    headers ← mapping_of (criterion (codes "request_headers") spec)
    header_res ← compile_headers headers
    path_re ← compile_criterion (codes "path") (criterion (codes "path") spec)
    statuses ← parse_status (criterion (codes "status") spec)
    content_type_re ←
        compile_criterion (codes "content_type") (criterion (codes "content_type") spec)
    ok (record {
      host_glob = host_test (criterion (codes "host") spec);
      path_re = path_re;
      methods = as_set (criterion (codes "method") spec);
      dests = as_set (criterion (codes "dest") spec);
      query_res = query_res;
      request_header_res = header_res;
      statuses = statuses;
      content_type_re = content_type_re;
      matches_everything = not (any (λ _. true) (keys spec));
    })
