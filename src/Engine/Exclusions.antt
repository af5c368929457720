-- ===== src/Engine/Exclusions.antt =====
-- Connections that are tunneled undecrypted (engine/exclusions.py). `fnmatchcase` and the reading of
-- networks and addresses are arguments: a network is the test for its addresses. Reading the lists from
-- YAML is not modelled.
pub mod Decisions
use pporlock.Base.{
  ℕ, ◌≡◌, Bool, true, false, not, ◌&&◌, ◌||◌, Option, none, some, List, [], ◌∷◌, ◌++◌, ◌==◌,
  text_eq, any, contains, eqb, leb, filter, find, length, map, reverse, if◌then◌else◌, nat_eq,
}
use pporlock.Base.Text.{Text, lower, non_empty, strip}

pub data ExclusionSource : Type 0 where
  default user profile : ExclusionSource

-- `ExclusionEntry`
pub record ExclusionEntry : Type 0 where
  pub pattern : Text
  pub comment : Text
  pub source : ExclusionSource

-- the characters of `_HOST_SAFE`
abbrev safe_code : ℕ → Bool
safe_code c =
    (leb b'A' c && leb c b'Z')
    || (leb b'a' c && leb c b'z')
    || (leb b'0' c && leb c b'9')
    || contains (b'.' ∷ b'-' ∷ b'*' ∷ b'?' ∷ b'[' ∷ b']' ∷ b'!' ∷ []) c

-- the end that `$` finds: it may stand before a last line feed
abbrev before_end : Text → Text
before_end [] = []
before_end (c ∷ s) = if eqb c 10 then s else c ∷ s

-- `_HOST_SAFE.match`
unfoldable pub host_safe : Text → Bool
host_safe host =
    let core = before_end (reverse host) in
    non_empty core && not (any (λ c. not (safe_code c)) core)

-- `s.lstrip(chars)`, of the characters that a test finds
unfoldable pub drop_codes : (ℕ → Bool) → Text → Text
drop_codes test [] = []
drop_codes test (c ∷ s) = let rest = drop_codes test s in if test c then rest else c ∷ s

-- `sni.strip().lower().rstrip(".")`
unfoldable pub host_of : Text → Text
unfolding drop_codes
host_of sni = reverse (drop_codes (λ c. eqb c b'.') (reverse (lower (strip sni))))

-- `ip.strip().strip("[]")`
unfoldable pub unbracketed : Text → Text
unfolding drop_codes
unbracketed ip =
    let bracket = λ (c : ℕ). eqb c b'[' || eqb c b']' in
    reverse (drop_codes bracket (reverse (drop_codes bracket (strip ip))))

module _ {Address : Type 0} (as_network : Text → Option (Address → Bool))
    (as_address : Text → Option Address) (glob : Text → Text → Bool) where
  -- `ExclusionList`
  pub record ExclusionList : Type 0 where
    pub entries : List ExclusionEntry
    pub globs : List (Text × ExclusionEntry)
    pub networks : List ((Address → Bool) × ExclusionEntry)

  abbrev pub filed : ExclusionEntry → Text → Option (Address → Bool) → ExclusionList → ExclusionList
  filed e pattern none l = record l { globs = (lower pattern, e) ∷ l.globs }
  filed e pattern (some network) l = record l { networks = (network, e) ∷ l.networks }

  -- `_compile`
  unfoldable pub compile_from : List ExclusionEntry → List ExclusionEntry → ExclusionList
  compile_from all [] = record { entries = all; globs = []; networks = [] }
  compile_from all (e ∷ rest) =
      let later = compile_from all rest in
      let pattern = strip e.pattern in
      if not (non_empty pattern) then later else filed e pattern (as_network pattern) later

  -- `ExclusionList.__init__`
  unfoldable pub make_list : List ExclusionEntry → ExclusionList
  unfolding compile_from
  make_list entries = compile_from entries entries

  unfoldable pub first_glob : Text → List (Text × ExclusionEntry) → Option ExclusionEntry
  first_glob host [] = none
  first_glob host ((pattern, e) ∷ rest) =
      let later = first_glob host rest in if glob host pattern then some e else later

  unfoldable pub first_network :
      Address → List ((Address → Bool) × ExclusionEntry) → Option ExclusionEntry
  first_network address [] = none
  first_network address ((network, e) ∷ rest) =
      let later = first_network address rest in if network address then some e else later

  abbrev pub by_name : Option Text → List (Text × ExclusionEntry) → Option ExclusionEntry
  by_name none globs = none
  by_name (some sni) globs =
      if non_empty sni && host_safe (host_of sni) then first_glob (host_of sni) globs else none

  abbrev pub of_address :
      Option Address → List ((Address → Bool) × ExclusionEntry) → Option ExclusionEntry
  of_address none networks = none
  of_address (some address) networks = first_network address networks

  abbrev pub by_address :
      Option Text → List ((Address → Bool) × ExclusionEntry) → Option ExclusionEntry
  by_address none networks = none
  by_address (some ip) networks =
      if non_empty ip then of_address (as_address (unbracketed ip)) networks else none

  abbrev pub first_of : Option ExclusionEntry → Option ExclusionEntry → Option ExclusionEntry
  first_of none later = later
  first_of (some e) later = some e

  -- `decide`: the entry that excludes, whose fields are the decision's
  unfoldable pub decide : Option Text → Option Text → ExclusionList → Option ExclusionEntry
  unfolding first_glob first_network host_safe host_of unbracketed
  decide sni ip l = first_of (by_name sni l.globs) (by_address ip l.networks)

  -- `add`
  unfoldable pub add : ExclusionEntry → ExclusionList → ExclusionList × Bool
  unfolding make_list
  add e l =
      if any (λ old. old.pattern == e.pattern) l.entries
      then (l, false)
      else (make_list (l.entries ++ e ∷ []), true)

  -- `remove`
  unfoldable pub remove : Text → ExclusionList → ExclusionList × Bool
  unfolding make_list
  remove pattern l =
      let kept = filter (λ e. not (e.pattern == pattern)) l.entries in
      if eqb (length kept) (length l.entries)
      then (record l { entries = kept }, false)
      else (make_list kept, true)

  -- the additions of `with_additions`: `known` is not added to
  unfoldable pub additions : List Text → ExclusionSource → List Text → List ExclusionEntry
  additions known source [] = []
  additions known source (pattern ∷ patterns) =
      let rest = additions known source patterns in
      if contains known pattern
      then rest
      else record { pattern = pattern; comment = []; source = source } ∷ rest

  -- `with_additions`
  unfoldable pub with_additions : List Text → ExclusionSource → ExclusionList → ExclusionList
  unfolding make_list additions
  with_additions patterns source l =
      make_list (l.entries ++ additions (map (λ e. e.pattern) l.entries) source patterns)
