-- ===== src/Engine/Matcher.antt =====
-- Rule matching (engine/matcher.py). A compiled regular expression is the test that its search is,
-- and a host glob the test that `fnmatchcase` is: both are values that the rule carries.
pub mod Compile
pub mod Compiled
pub mod Agrees
pub mod Statuses
pub mod Exact
use pporlock.Base.{
  ℕ, Bool, true, false, not, ◌&&◌, Option, none, some, List, [], ◌∷◌, text_eq, any, contains,
  if◌then◌else◌, is_some,
}
use pporlock.Base.Text.{Text, lower, upper}
use pporlock.Base.Int.{ℤ, ltb_ℤ}
use pporlock.Engine.Models.{
  NormalizedRequest, NormalizedResponse, header, query_param, content_type,
}

abbrev pub Pattern : Type 0
Pattern = Text → Bool

-- `CompiledMatcher`
pub record CompiledMatcher : Type 0 where
  pub host_glob : Option Pattern
  pub path_re : Option Pattern
  pub methods : Option (List Text)
  pub dests : Option (List Text)
  pub query_res : List (Text × Pattern)
  pub request_header_res : List (Text × Option Pattern)
  pub statuses : Option (List (ℤ × ℤ))
  pub content_type_re : Option Pattern
  pub matches_everything : Bool

-- an absent criterion does not constrain
abbrev pub allowed : Option Pattern → Text → Bool
allowed none text = true
allowed (some pattern) text = pattern text

-- and one that is present needs the value
abbrev pub found : Pattern → Option Text → Bool
found pattern none = false
found pattern (some value) = pattern value

abbrev pub in_methods : Option (List Text) → Text → Bool
in_methods none method = true
in_methods (some methods) method = contains methods method

abbrev pub in_dests : Option (List Text) → Option Text → Bool
in_dests none dest = true
in_dests (some dests) none = false
in_dests (some dests) (some dest) = contains dests (upper dest)

abbrev pub header_found : Option Pattern → Option Text → Bool
header_found pattern none = false
header_found none (some value) = true
header_found (some pattern) (some value) = pattern value

unfoldable pub queries_match : NormalizedRequest → List (Text × Pattern) → Bool
unfolding query_param
queries_match request [] = true
queries_match request ((name, pattern) ∷ rest) =
    let others = queries_match request rest in
    if found pattern (query_param name request.query) then others else false

unfoldable pub headers_match : NormalizedRequest → List (Text × Option Pattern) → Bool
unfolding header
headers_match request [] = true
headers_match request ((name, pattern) ∷ rest) =
    let others = headers_match request rest in
    if header_found pattern (header name request.headers) then others else false

-- `CompiledMatcher.matches_request`, the early returns in their order
unfoldable pub matches_request : CompiledMatcher → NormalizedRequest → Bool
unfolding queries_match headers_match
matches_request m request =
    if not (in_methods m.methods request.method)
    then false
    else if not (in_dests m.dests request.dest)
    then false
    else if not (allowed m.host_glob (lower request.host))
    then false
    else if not (allowed m.path_re request.path)
    then false
    else if not (queries_match request m.query_res)
    then false
    else headers_match request m.request_header_res

abbrev pub in_ranges : List (ℤ × ℤ) → ℕ → Bool
in_ranges ranges status =
    any (λ r. not (ltb_ℤ (ℤ.pos status) r.0) && not (ltb_ℤ r.1 (ℤ.pos status))) ranges

abbrev pub in_statuses : Option (List (ℤ × ℤ)) → ℕ → Bool
in_statuses none status = true
in_statuses (some ranges) status = in_ranges ranges status

abbrev pub media_allowed : Option Pattern → Option Text → Bool
media_allowed none media = true
media_allowed (some pattern) media = found pattern media

-- `CompiledMatcher.matches_response`
unfoldable pub matches_response : CompiledMatcher → NormalizedRequest → NormalizedResponse → Bool
unfolding matches_request content_type
matches_response m request response =
    if not (matches_request m request)
    then false
    else if not (in_statuses m.statuses response.status)
    then false
    else media_allowed m.content_type_re (content_type response.headers)

-- `CompiledMatcher.is_response_side`
unfoldable pub is_response_side : CompiledMatcher → Bool
is_response_side m = if is_some m.statuses then true else is_some m.content_type_re
