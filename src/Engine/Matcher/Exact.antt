-- ===== src/Engine/Matcher/Exact.antt =====
-- A compiled matcher agrees with the block that it was compiled from.
use pporlock.Base.{
  ◌≡◌, refl, sym, ap, ap₂, ◌∙◌, subst, Bool, true, false, not, ◌&&◌, ◌||◌, Option, none, some, [],
  ◌∷◌, ◌==◌, text_eq, nat_eq, any, contains, if◌then◌else◌, arith, Bool-cases, inl, inr,
}
use pporlock.Base.Text.{Text, codes, lower}
use pporlock.Base.Int.{ℤ}
use pporlock.Base.Dict
use pporlock.Base.Dict.{Dict, keys}
use pporlock.Base.Result.{ok, err, ok_inj, >>=-eq-ok, >>-eq-ok}
use pporlock.Base.Values.{Value, fields, truthy}
use pporlock.Engine.Models.{
  NormalizedRequest, NormalizedResponse, header, query_param, content_type,
}
use pporlock.Engine.Matcher.{
  Pattern, CompiledMatcher, allowed, in_methods, in_dests, matches_request, matches_response,
}
use pporlock.Engine.Matcher.Compile.{
  RuleError, response_only, known_criteria, those_in, those_out, as_set, compile_criterion,
  parse_status, mapping_of, compile_queries, compile_headers, host_test, criterion, compile_matcher,
}
use pporlock.Engine.Matcher.Compiled.{
  unless, all_fields, entries_of, searched, header_says, request_says, response_says,
}
use pporlock.Engine.Matcher.Agrees.{
  in_methods-as_set, in_dests-as_set, host_lem, criterion_lem, path_lem, queries_lem, headers_lem,
}
use pporlock.Engine.Matcher.Statuses.{statuses_lem}

and_true : (b : Bool) → (b && true) ≡ b
and_true true = refl
and_true false = refl

guarded : (a b c d : Bool) → a ≡ b → c ≡ d → (if not a then false else c) ≡ (b && d)
guarded true b c d e h = ap₂ (λ x y. x && y) e h
guarded false b c d e h = ap (λ x. x && d) e

mapping_lem :
    (f : Text → Value → Bool) (o : Option Value) (es : Dict Text Value)
    → mapping_of o ≡ ok es
    → all_fields f es ≡ unless o (λ v. all_fields f (entries_of v))
mapping_lem f none es h = subst (λ l. all_fields f l ≡ true) (ok_inj [] es h) refl
mapping_lem f (some (Value.mapping fs)) es h =
    subst (λ l. all_fields f l ≡ all_fields f (fields fs)) (ok_inj (fields fs) es h) refl
mapping_lem f (some v) es h = go (truthy v) h
  where
    go :
        (b : Bool)
        → (if b then err RuleError.no_mapping else ok []) ≡ ok es
        → all_fields f es ≡ true
    go true e = cc
    go false e = subst (λ l. all_fields f l ≡ true) (ok_inj [] es e) refl

module _ (repr : Value → Text) (regex : Text → Option Pattern) (glob : Text → Pattern)
    (int : Text → Option ℤ) where
  -- what the parts of a compiled matcher come from
  record Parts (request_phase : Bool) (spec : Dict Text Value) (m : CompiledMatcher) : Type 0 where
    query : Dict Text Value
    query_from : mapping_of (criterion (codes "query") spec) ≡ ok query
    query_res : compile_queries repr regex glob int query ≡ ok m.query_res
    headers : Dict Text Value
    headers_from : mapping_of (criterion (codes "request_headers") spec) ≡ ok headers
    header_res : compile_headers repr regex glob int headers ≡ ok m.request_header_res
    path :
        compile_criterion repr regex glob int (codes "path") (criterion (codes "path") spec)
        ≡ ok m.path_re
    status : parse_status repr regex glob int (criterion (codes "status") spec) ≡ ok m.statuses
    content_type :
        compile_criterion repr regex glob int
          (codes "content_type")
          (criterion (codes "content_type") spec)
        ≡ ok m.content_type_re
    host : host_test repr regex glob int (criterion (codes "host") spec) ≡ m.host_glob
    methods : as_set repr regex glob int (criterion (codes "method") spec) ≡ m.methods
    dests : as_set repr regex glob int (criterion (codes "dest") spec) ≡ m.dests
    early : (request_phase && any (λ _. true) (those_in response_only (keys spec))) ≡ false

  compile_matcher-Parts :
      (request_phase : Bool) (spec : Dict Text Value) (m : CompiledMatcher)
      → compile_matcher repr regex glob int request_phase spec ≡ ok m
      → Parts request_phase spec m
  unfolding compile_matcher
  compile_matcher-Parts request_phase spec m h =
      let unknown = those_out known_criteria (keys spec) in
      let early = those_in response_only (keys spec) in
      let (_, h₁) = >>-eq-ok (any (λ _. true) unknown) (RuleError.unknown_criteria unknown) _ h in
      let (early_ok, h₂) =
        >>-eq-ok (request_phase && any (λ _. true) early) (RuleError.misplaced early) _ h₁ in
      let (query, q, h₃) = >>=-eq-ok (mapping_of (criterion (codes "query") spec)) _ h₂ in
      let (query_res, qr, h₄) = >>=-eq-ok (compile_queries repr regex glob int query) _ h₃ in
      let (headers, hs, h₅) =
        >>=-eq-ok (mapping_of (criterion (codes "request_headers") spec)) _ h₄ in
      let (header_res, hr, h₆) = >>=-eq-ok (compile_headers repr regex glob int headers) _ h₅ in
      let (path, p, h₇) =
        >>=-eq-ok
          (compile_criterion repr regex glob int (codes "path") (criterion (codes "path") spec)) _
          h₆ in
      let (status, s, h₈) =
        >>=-eq-ok (parse_status repr regex glob int (criterion (codes "status") spec)) _ h₇ in
      let (content_type, c, h₉) =
        >>=-eq-ok
          (compile_criterion repr regex glob int (codes "content_type")
            (criterion (codes "content_type") spec))
          _ h₈ in
      subst (Parts request_phase spec) (ok_inj _ m h₉) (record {
        query = query;
        query_from = q;
        query_res = qr;
        headers = headers;
        headers_from = hs;
        header_res = hr;
        path = p;
        status = s;
        content_type = c;
        host = refl;
        methods = refl;
        dests = refl;
        early = early_ok;
      })

  -- The criteria of a request are tested as the block states them, entry by entry: an absent one does
  -- not constrain, a name may be one of a list in any case, a host is a glob, and a path, a query
  -- value and a header hold a match of what is written. What is left out of the list of names, an
  -- empty one, does not constrain either.
  pub matches_request_lem :
      (request_phase : Bool) (spec : Dict Text Value) (m : CompiledMatcher) (q : NormalizedRequest)
      → compile_matcher repr regex glob int request_phase spec ≡ ok m
      → matches_request m q ≡ request_says repr regex glob int spec q
  unfolding matches_request request_says
  matches_request_lem request_phase spec m q h =
      let parts = compile_matcher-Parts request_phase spec m h in
      guarded _ _ _ _
        (ap (λ l. in_methods l q.method) (sym parts.methods)
          ∙ in_methods-as_set repr regex glob int (criterion (codes "method") spec) q.method)
        (guarded _ _ _ _
          (ap (λ l. in_dests l q.dest) (sym parts.dests)
            ∙ in_dests-as_set repr regex glob int (criterion (codes "dest") spec) q.dest)
          (guarded _ _ _ _
            (ap (λ p. allowed p (lower q.host)) (sym parts.host)
              ∙ host_lem repr regex glob int (criterion (codes "host") spec) (lower q.host))
            (guarded _ _ _ _
              (path_lem repr regex glob int (codes "path") (criterion (codes "path") spec) m.path_re
                q.path parts.path)
              (guarded _ _ _ _
                (queries_lem repr regex glob int q parts.query m.query_res parts.query_res
                  ∙ mapping_lem (λ key p. searched repr regex glob int p (query_param key q.query))
                      (criterion (codes "query") spec) parts.query parts.query_from)
                (headers_lem repr regex glob int q parts.headers m.request_header_res
                    parts.header_res
                  ∙ mapping_lem
                      (λ key p. header_says repr regex glob int p (header (lower key) q.headers))
                      (criterion (codes "request_headers") spec) parts.headers
                      parts.headers_from)))))

  -- A matcher matches a flow exactly when the block that it was compiled from says so of the request
  -- and of the response, criterion by criterion: an absent one does not constrain, nor does an empty
  -- list of names; a name may be one of a list, in any case; a host is a glob; a path, a query value, a
  -- header and a media type hold a match of what is written; and a status lies in one of the ranges.
  pub matches_response_lem :
      (request_phase : Bool) (spec : Dict Text Value) (m : CompiledMatcher) (q : NormalizedRequest)
      (r : NormalizedResponse)
      → compile_matcher repr regex glob int request_phase spec ≡ ok m
      → matches_response m q r
        ≡ (request_says repr regex glob int spec q && response_says repr regex glob int spec r)
  unfolding matches_response response_says
  matches_response_lem request_phase spec m q r h =
      let parts = compile_matcher-Parts request_phase spec m h in
      guarded _ _ _ _ (matches_request_lem request_phase spec m q h) (
        guarded _ _ _ _
          (statuses_lem repr regex glob int (criterion (codes "status") spec) m.statuses r.status
            parts.status)
          (criterion_lem repr regex glob int (codes "content_type")
            (criterion (codes "content_type") spec) m.content_type_re (content_type r.headers)
            parts.content_type))

  first_early :
      (key : Text) (spec : Dict Text Value) (v : Value)
      → any (λ _. true) (those_in response_only (keys ((key, v) ∷ spec)))
        ≡ (contains response_only key || any (λ _. true) (those_in response_only (keys spec)))
  first_early key spec v = elim (Bool-cases (contains response_only key)) [
    | inl b ↦ rw b refl
    | inr b ↦ rw b refl
  ]

  none_early :
      (name : Text) (spec : Dict Text Value)
      → any (λ _. true) (those_in response_only (keys spec)) ≡ false
      → contains response_only name ≡ true
      → Dict.get name spec ≡ none
  unfolding Dict.get
  none_early name [] h c = refl
  none_early name ((key, v) ∷ spec) h c = elim (Bool-cases (key == name)) [
    | inl b ↦ ground (arith, first_early key spec v, (text_eq.beq_iff key name).0 b)
    | inr b ↦ rw b (none_early name spec (ground (arith, first_early key spec v)) c)
  ]

  -- A matcher that was compiled for a rule of the request phases asks nothing of the response: on any
  -- response it matches exactly the requests that it matches before there is one.
  pub request_phase_lem :
      (spec : Dict Text Value) (m : CompiledMatcher) (q : NormalizedRequest)
      (r : NormalizedResponse)
      → compile_matcher repr regex glob int true spec ≡ ok m
      → matches_response m q r ≡ matches_request m q
  unfolding response_says text_eq
  request_phase_lem spec m q r h =
      let parts = compile_matcher-Parts true spec m h in
      let no_status = none_early (codes "status") spec parts.early refl in
      let no_media = none_early (codes "content_type") spec parts.early refl in
      matches_response_lem true spec m q r h
      ∙ rw (no_status, no_media) (and_true (request_says repr regex glob int spec q))
      ∙ sym (matches_request_lem true spec m q h)
