-- ===== src/Engine/Matcher/Agrees.antt =====
-- A compiled matcher agrees with the block that it was compiled from.
use pporlock.Base.{
  ◌≡◌, refl, sym, ap, ap₂, ◌∙◌, subst, Bool, true, false, not, ◌&&◌, ◌||◌, Option, none, some, List,
  [], ◌∷◌, map, ◌==◌, text_eq, nat_eq, any, contains, is_some, if◌then◌else◌,
}
use pporlock.Base.Text.{Text, lower, upper}
use pporlock.Base.Int.{ℤ}
use pporlock.Base.Dict.{Dict}
use pporlock.Base.Result.{ok, ok_inj, >>=-eq-ok}
use pporlock.Base.Values.{Value, str}
use pporlock.Engine.Models.{NormalizedRequest, header, query_param}
use pporlock.Engine.Matcher.{
  Pattern, allowed, found, in_methods, in_dests, header_found, queries_match, headers_match,
  media_allowed,
}
use pporlock.Engine.Matcher.Compile.{
  listed, or_nothing, present, as_set, compiled_regex, compile_regex, compile_criterion,
  compile_queries, compile_headers, host_test,
}
use pporlock.Engine.Matcher.Compiled.{
  unless, all_fields, empty, searched, named, dest_named, header_says,
}

if_and : (a b : Bool) → (if a then b else false) ≡ (a && b)
if_and true b = refl
if_and false b = refl

module _ (repr : Value → Text) (regex : Text → Option Pattern) (glob : Text → Pattern)
    (int : Text → Option ℤ) where
  contains-map :
      (vs : List Value) (t : Text)
      → contains (map (λ i. upper (str repr i)) vs) t ≡ any (λ i. upper (str repr i) == t) vs
  contains-map [] t = refl
  contains-map (v ∷ vs) t = ap (λ b. (upper (str repr v) == t) || b) (contains-map vs t)

  set_named :
      (vs : List Value) (t : Text)
      → in_methods (or_nothing (map (λ i. upper (str repr i)) vs)) t
        ≡ (empty vs || any (λ i. upper (str repr i) == t) vs)
  set_named [] t = refl
  set_named (v ∷ vs) t = contains-map (v ∷ vs) t

  pub in_methods-as_set :
      (o : Option Value) (t : Text)
      → in_methods (as_set repr regex glob int o) t ≡ unless o (λ v. named repr regex glob int v t)
  unfolding as_set
  in_methods-as_set none t = refl
  in_methods-as_set (some v) t = set_named (listed v) t

  dest_set :
      (o : Option (List Text)) (t : Option Text)
      → in_dests o t ≡ elim t [ none ↦ not (is_some o) | some d ↦ in_methods o (upper d) ]
  dest_set none none = refl
  dest_set none (some d) = refl
  dest_set (some l) none = refl
  dest_set (some l) (some d) = refl

  pub in_dests-as_set :
      (o : Option Value) (t : Option Text)
      → in_dests (as_set repr regex glob int o) t
        ≡ unless o (λ v. dest_named repr regex glob int v t)
  unfolding as_set
  in_dests-as_set none none = refl
  in_dests-as_set none (some d) = refl
  in_dests-as_set (some v) none = go (listed v)
    where
      go :
          (vs : List Value)
          → in_dests (or_nothing (map (λ i. upper (str repr i)) vs)) none ≡ empty vs
      go [] = refl
      go (w ∷ ws) = refl
  in_dests-as_set (some v) (some d) =
      dest_set (or_nothing (map (λ i. upper (str repr i)) (listed v))) (some d)
      ∙ set_named (listed v) (upper d)

  pub host_lem :
      (o : Option Value) (t : Text)
      → allowed (host_test repr regex glob int o) t ≡ unless o (λ v. glob (lower (str repr v)) t)
  host_lem none t = refl
  host_lem (some v) t = refl

  regex_lem :
      (name : Text) (v : Value) (p : Pattern) (t : Option Text)
      → compile_regex repr regex glob int name v ≡ ok p
      → found p t ≡ searched repr regex glob int v t
  unfolding compile_regex
  regex_lem name v p none h = refl
  regex_lem name v p (some t) h = go (regex (str repr v)) h
    where
      go :
          (o : Option Pattern)
          → compiled_regex name o ≡ ok p
          → p t ≡ elim o [ none ↦ false | some q ↦ q t ]
      go none e = cc
      go (some q) e = ap (λ f. f t) (sym (ok_inj q p e))

  pub criterion_lem :
      (name : Text) (o : Option Value) (p : Option Pattern) (t : Option Text)
      → compile_criterion repr regex glob int name o ≡ ok p
      → media_allowed p t ≡ unless o (λ v. searched repr regex glob int v t)
  criterion_lem name none p t h = subst (λ q. media_allowed q t ≡ true) (ok_inj none p h) refl
  criterion_lem name (some v) p t h =
      let (q, e, k) = >>=-eq-ok (compile_regex repr regex glob int name v) _ h in
      subst (λ o. media_allowed o t ≡ searched repr regex glob int v t) (ok_inj (some q) p k)
        (regex_lem name v q t e)

  pub path_lem :
      (name : Text) (o : Option Value) (p : Option Pattern) (t : Text)
      → compile_criterion repr regex glob int name o ≡ ok p
      → allowed p t ≡ unless o (λ v. searched repr regex glob int v (some t))
  path_lem name o none t h = criterion_lem name o none (some t) h
  path_lem name o (some p) t h = criterion_lem name o (some p) (some t) h

  pub queries_lem :
      (q : NormalizedRequest) (es : Dict Text Value) (l : List (Text × Pattern))
      → compile_queries repr regex glob int es ≡ ok l
      → queries_match q l
        ≡ all_fields (λ key p. searched repr regex glob int p (query_param key q.query)) es
  unfolding compile_queries queries_match
  queries_lem q [] l h = subst (λ m. queries_match q m ≡ true) (ok_inj [] l h) refl
  queries_lem q ((key, v) ∷ es) l h =
      let (p, e, k) = >>=-eq-ok (compile_regex repr regex glob int key v) _ h in
      let (others, e', k') = >>=-eq-ok (compile_queries repr regex glob int es) _ k in
      subst
        (λ m.
          queries_match q m
          ≡ all_fields (λ key p. searched repr regex glob int p (query_param key q.query))
              ((key, v) ∷ es))
        (ok_inj ((key, p) ∷ others) l k')
        (if_and (found p (query_param key q.query)) _
          ∙ ap₂ (λ a b. a && b) (regex_lem key v p (query_param key q.query) e)
              (queries_lem q es others e'))

  header_lem :
      (key : Text) (v : Value) (p : Option Pattern) (t : Option Text)
      → compile_criterion repr regex glob int key (present (some v)) ≡ ok p
      → header_found p t ≡ header_says repr regex glob int v t
  header_lem key v p none h = header_missing p ∙ sym (says_missing v)
    where
      header_missing : (p : Option Pattern) → header_found p none ≡ false
      header_missing none = refl
      header_missing (some p) = refl

      says_missing : (v : Value) → header_says repr regex glob int v none ≡ false
      says_missing Value.null = refl
      says_missing (Value.boolean _) = refl
      says_missing (Value.integer _) = refl
      says_missing (Value.scalar _ _) = refl
      says_missing (Value.text _) = refl
      says_missing (Value.sequence _) = refl
      says_missing (Value.mapping _) = refl
  header_lem key v p (some t) h =
      header_there p t ∙ criterion_lem key (present (some v)) p (some t) h ∙ says_there v
    where
      header_there :
          (p : Option Pattern) (t : Text) → header_found p (some t) ≡ media_allowed p (some t)
      header_there none t = refl
      header_there (some p) t = refl

      says_there :
          (v : Value)
          → unless (present (some v)) (λ w. searched repr regex glob int w (some t))
            ≡ header_says repr regex glob int v (some t)
      says_there Value.null = refl
      says_there (Value.boolean _) = refl
      says_there (Value.integer _) = refl
      says_there (Value.scalar _ _) = refl
      says_there (Value.text _) = refl
      says_there (Value.sequence _) = refl
      says_there (Value.mapping _) = refl

  pub headers_lem :
      (q : NormalizedRequest) (es : Dict Text Value) (l : List (Text × Option Pattern))
      → compile_headers repr regex glob int es ≡ ok l
      → headers_match q l
        ≡ all_fields (λ key p. header_says repr regex glob int p (header (lower key) q.headers)) es
  unfolding compile_headers headers_match
  headers_lem q [] l h = subst (λ m. headers_match q m ≡ true) (ok_inj [] l h) refl
  headers_lem q ((key, v) ∷ es) l h =
      let (p, e, k) =
        >>=-eq-ok (compile_criterion repr regex glob int key (present (some v))) _ h in
      let (others, e', k') = >>=-eq-ok (compile_headers repr regex glob int es) _ k in
      subst
        (λ m.
          headers_match q m
          ≡ all_fields (λ key p. header_says repr regex glob int p (header (lower key) q.headers))
              ((key, v) ∷ es))
        (ok_inj ((lower key, p) ∷ others) l k')
        (if_and (header_found p (header (lower key) q.headers)) _
          ∙ ap₂ (λ a b. a && b) (header_lem key v p (header (lower key) q.headers) e)
              (headers_lem q es others e'))
