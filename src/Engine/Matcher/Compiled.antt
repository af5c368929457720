-- ===== src/Engine/Matcher/Compiled.antt =====
-- A compiled matcher asks of a flow what its `match` block says, entry by entry.
use pporlock.Base.{
  ℕ, Bool, true, false, not, ◌&&◌, ◌||◌, Option, none, some, List, [], ◌∷◌, ◌==◌, text_eq, nat_eq,
  any, contains, is_some, if◌then◌else◌,
}
use pporlock.Base.Text.{Text, codes, lower, upper, strip, before, after}
use pporlock.Base.Int.{ℤ, ltb_ℤ, eqb_ℤ}
use pporlock.Base.Dict.{Dict}
use pporlock.Base.Values.{Value, fields, str}
use pporlock.Engine.Models.{
  NormalizedRequest, NormalizedResponse, header, query_param, content_type,
}
use pporlock.Engine.Matcher.{Pattern}
use pporlock.Engine.Matcher.Compile.{listed, one_if, criterion}

-- a criterion that is absent does not constrain
abbrev pub unless : Option Value → (Value → Bool) → Bool
unless none test = true
unless (some v) test = test v

abbrev pub all_fields : (Text → Value → Bool) → Dict Text Value → Bool
all_fields test [] = true
all_fields test ((key, v) ∷ rest) = test key v && all_fields test rest

abbrev pub empty : List Value → Bool
empty [] = true
empty (v ∷ vs) = false

abbrev pub entries_of : Value → Dict Text Value
entries_of (Value.mapping fs) = fields fs
entries_of _ = []

abbrev pub between : Option ℤ → Option ℤ → ℕ → Bool
between (some low) (some high) n = not (ltb_ℤ (ℤ.pos n) low) && not (ltb_ℤ high (ℤ.pos n))
between _ _ n = false

module _ (repr : Value → Text) (regex : Text → Option Pattern) (glob : Text → Pattern)
    (int : Text → Option ℤ) where
  -- the search of a pattern that is written out, which is there when the text holds a match
  abbrev pub searched : Value → Option Text → Bool
  searched v none = false
  searched v (some t) = elim (regex (str repr v)) [ none ↦ false | some p ↦ p t ]

  -- a name, or a list of names in any case; the empty list is as good as nothing
  abbrev pub named : Value → Text → Bool
  named v t = empty (listed v) || any (λ i. upper (str repr i) == t) (listed v)

  abbrev pub dest_named : Value → Option Text → Bool
  dest_named v none = empty (listed v)
  dest_named v (some t) = named v (upper t)

  abbrev pub header_says : Value → Option Text → Bool
  header_says Value.null t = is_some t
  header_says v t = searched v t

  abbrev pub status_is : ℕ → Value → Bool
  status_is n (Value.integer k) = eqb_ℤ k (ℤ.pos n)
  status_is n (Value.boolean b) = eqb_ℤ (one_if b) (ℤ.pos n)
  status_is n v =
      let t = strip (str repr v) in
      if contains t b'-'
      then between (int (before b'-' t)) (int (after b'-' t)) n
      else between (int t) (int t) n

  -- what the entries of a block say of a request
  unfoldable pub request_says : Dict Text Value → NormalizedRequest → Bool
  request_says spec q =
      unless (criterion (codes "method") spec) (λ v. named v q.method)
      && (unless (criterion (codes "dest") spec) (λ v. dest_named v q.dest)
          && (unless (criterion (codes "host") spec) (λ v. glob (lower (str repr v)) (lower q.host))
              && (unless (criterion (codes "path") spec) (λ v. searched v (some q.path))
                  && (unless (criterion (codes "query") spec) (λ v.
                        all_fields (λ key p. searched p (query_param key q.query)) (entries_of v))
                      && (unless (criterion (codes "request_headers") spec) (λ v.
                          all_fields (λ key p. header_says p (header (lower key) q.headers))
                            (entries_of v)))))))

  -- and of its response
  unfoldable pub response_says : Dict Text Value → NormalizedResponse → Bool
  response_says spec r =
      unless (criterion (codes "status") spec) (λ v. any (status_is r.status) (listed v))
      && unless (criterion (codes "content_type") spec) (λ v. searched v (content_type r.headers))
