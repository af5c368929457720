-- ===== src/Capture/Redact.antt =====
-- Redaction (capture/redact.py): headers, queries and JSON bodies. The masked form of a value (a hash
-- and a length) and the test for it are arguments, and so are `fnmatch` and the reading and writing
-- of JSON; the URL that is rebuilt beside a query and unmasking are not modelled.
pub mod Masked
pub mod Whole
pub mod Hidden
use pporlock.Base.{
  ℕ, ◌≡◌, Bool, true, false, not, ◌&&◌, ◌||◌, Option, none, some, List, [], ◌∷◌, ◌++◌, ◌==◌,
  text_eq, any, if◌then◌else◌,
}
use pporlock.Base.Text.{Text, has_part, lower, non_empty}
use pporlock.Engine.Models.{Bytes, HeaderPairs, NormalizedResponse}

-- a value that `json.loads` gives; a number or a truth value is the text that `json.dumps` makes of it
mutual
  pub data Json : Type 0 where
    nothing : Json
    literal : Text → Json
    string : Text → Json
    array : Elements → Json
    object : Members → Json

  pub data Elements : Type 0 where
    done : Elements
    element : Json → Elements → Elements

  pub data Members : Type 0 where
    close : Members
    member : Text → Json → Members → Members

-- a header pattern: a name, or a glob, which is the test that `fnmatchcase` makes of it
pub data HeaderPattern : Type 0 where
  exact : Text → HeaderPattern
  glob : (Text → Bool) → HeaderPattern

-- `RedactionConfig`
pub record RedactionConfig : Type 0 where
  pub enabled : Bool
  pub header_patterns : List HeaderPattern
  pub query_patterns : List Text
  pub json_key_patterns : List Text

abbrev pub fits : Text → HeaderPattern → Bool
fits candidate (HeaderPattern.exact name) = candidate == lower name
fits candidate (HeaderPattern.glob test) = test candidate

-- `_matches`
unfoldable pub header_matches : Text → List HeaderPattern → Bool
header_matches name patterns = any (fits (lower name)) patterns

-- `_key_matches`
unfoldable pub key_matches : Text → List Text → Bool
key_matches key patterns = any (λ p. has_part (lower key) (lower p)) patterns

module _ (mask : Text → Text) (is_masked : Text → Bool) where
  -- the loop of `redact_headers` and of `redact_query`, over what their test is
  unfoldable pub mask_pairs : (Text → Bool) → List (Text × Text) → List (Text × Text) × Bool
  mask_pairs hit [] = ([], false)
  mask_pairs hit ((name, value) ∷ rest) =
      let others = mask_pairs hit rest in
      if (non_empty value && not (is_masked value)) && hit name
      then ((name, mask value) ∷ others.0, true)
      else ((name, value) ∷ others.0, others.1)

  -- `Redactor.redact_headers`
  unfoldable pub redact_headers : RedactionConfig → HeaderPairs → HeaderPairs × Bool
  unfolding mask_pairs header_matches
  redact_headers cfg headers =
      if not cfg.enabled
      then (headers, false)
      else mask_pairs (λ name. header_matches name cfg.header_patterns) headers

  -- `Redactor.redact_query`
  unfoldable pub redact_query : RedactionConfig → List (Text × Text) → List (Text × Text) × Bool
  unfolding mask_pairs key_matches
  redact_query cfg query =
      if not cfg.enabled
      then (query, false)
      else mask_pairs (λ name. key_matches name cfg.query_patterns) query

  unfoldable mutual
    unfolding key_matches

    -- `Redactor._walk`: the flag says whether the key of the value names a secret
    pub walk : List Text → Bool → Json → Json × Bool
    walk patterns hit Json.nothing = (Json.nothing, false)
    walk patterns hit (Json.literal text) =
        if hit then (Json.string (mask text), true) else (Json.literal text, false)
    walk patterns hit (Json.string text) =
        if hit
        then (if is_masked text then (Json.string text, false) else (Json.string (mask text), true))
        else (Json.string text, false)
    walk patterns hit (Json.array items) =
        let walked = walk_elements patterns hit items in (Json.array walked.0, walked.1)
    walk patterns hit (Json.object members) =
        let walked = walk_members patterns members in (Json.object walked.0, walked.1)

    pub walk_elements : List Text → Bool → Elements → Elements × Bool
    walk_elements patterns hit Elements.done = (Elements.done, false)
    walk_elements patterns hit (Elements.element j items) =
        let first = walk patterns hit j in
        let rest = walk_elements patterns hit items in
        (Elements.element first.0 rest.0, first.1 || rest.1)

    pub walk_members : List Text → Members → Members × Bool
    walk_members patterns Members.close = (Members.close, false)
    walk_members patterns (Members.member key j members) =
        let first = walk patterns (key_matches key patterns) j in
        let rest = walk_members patterns members in
        (Members.member key first.0 rest.0, first.1 || rest.1)

  abbrev written : (Json → Bytes) → Bytes → Json × Bool → Option Bytes × Bool
  written dumps body (j, changed) =
      if not changed then (some body, false) else (some (dumps j), true)

  abbrev rewritten : (Json → Bytes) → List Text → Bytes → Option Json → Option Bytes × Bool
  rewritten dumps patterns body none = (some body, false)
  rewritten dumps patterns body (some j) = written dumps body (walk patterns false j)

  -- `Redactor.redact_json_body`; `loads` refuses what is no JSON, and blank is a body of white space
  unfoldable pub redact_json_body :
      (Bytes → Option Json)
      → (Json → Bytes)
      → (Bytes → Bool)
      → RedactionConfig
      → Option Bytes
      → Option Bytes × Bool
  unfolding walk
  redact_json_body loads dumps blank cfg none = (none, false)
  redact_json_body loads dumps blank cfg (some body) =
      if not cfg.enabled || blank body
      then (some body, false)
      else rewritten dumps cfg.json_key_patterns body (loads body)
