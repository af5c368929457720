-- ===== src/Engine/Matcher/Statuses.antt =====
-- The status criterion of a compiled matcher.
use pporlock.Base.{
  ℕ, ◌≡◌, refl, ap₂, subst, Bool, true, false, not, ◌&&◌, ◌||◌, Option, none, some, List, [], ◌∷◌,
  text_eq, nat_eq, any, contains, if◌then◌else◌, arith,
}
use pporlock.Base.Text.{Text, strip, before, after}
use pporlock.Base.Int.{ℤ, ltb_ℤ, eqb_ℤ}
use pporlock.Base.Result.{Result, ok, ok_inj, >>=-eq-ok}
use pporlock.Base.Values.{Value, str}
use pporlock.Engine.Matcher.{Pattern, in_ranges, in_statuses}
use pporlock.Engine.Matcher.Compile.{
  RuleError, listed, one_if, range_of, text_range, parse_range, parse_ranges, parse_status,
}
use pporlock.Engine.Matcher.Compiled.{unless, between, status_is}

module _ (repr : Value → Text) (regex : Text → Option Pattern) (glob : Text → Pattern)
    (int : Text → Option ℤ) where
  range_lem :
      (t : Text) (low high : Option ℤ) (r : ℤ × ℤ) (n : ℕ)
      → range_of t low high ≡ ok r
      → (not (ltb_ℤ (ℤ.pos n) r.0) && not (ltb_ℤ r.1 (ℤ.pos n))) ≡ between low high n
  range_lem t (some low) (some high) r n h =
      subst
        (λ s.
          (not (ltb_ℤ (ℤ.pos n) s.0) && not (ltb_ℤ s.1 (ℤ.pos n)))
          ≡ between (some low) (some high) n)
        (ok_inj (low, high) r h) refl
  range_lem t none high r n h = cc
  range_lem t (some low) none r n h = cc

  text_range_lem :
      (t : Text) (r : ℤ × ℤ) (n : ℕ)
      → text_range repr regex glob int t ≡ ok r
      → (not (ltb_ℤ (ℤ.pos n) r.0) && not (ltb_ℤ r.1 (ℤ.pos n))) ≡ (
          if contains t b'-'
          then between (int (before b'-' t)) (int (after b'-' t)) n
          else between (int t) (int t) n)
  text_range_lem t r n h = go (contains t b'-') h
    where
      go :
          (b : Bool)
          → (if b
              then range_of t (int (before b'-' t)) (int (after b'-' t))
              else range_of t (int t) (int t))
            ≡ ok r
          → (not (ltb_ℤ (ℤ.pos n) r.0) && not (ltb_ℤ r.1 (ℤ.pos n))) ≡ (
              if b
              then between (int (before b'-' t)) (int (after b'-' t)) n
              else between (int t) (int t) n)
      go true e = range_lem t _ _ r n e
      go false e = range_lem t _ _ r n e

  exact_lem :
      (k : ℤ) (r : ℤ × ℤ) (n : ℕ)
      → ◌≡◌ {A = Result RuleError (ℤ × ℤ)} (ok (k, k)) (ok r)
      → (not (ltb_ℤ (ℤ.pos n) r.0) && not (ltb_ℤ r.1 (ℤ.pos n))) ≡ eqb_ℤ k (ℤ.pos n)
  exact_lem k r n h =
      subst (λ s. (not (ltb_ℤ (ℤ.pos n) s.0) && not (ltb_ℤ s.1 (ℤ.pos n))) ≡ eqb_ℤ k (ℤ.pos n))
        (ok_inj (k, k) r h) (same k)
    where
      same : (k : ℤ) → (not (ltb_ℤ (ℤ.pos n) k) && not (ltb_ℤ k (ℤ.pos n))) ≡ eqb_ℤ k (ℤ.pos n)
      same (ℤ.pos m) = ground arith
      same (ℤ.negsuc m) = ground arith

  parse_range_lem :
      (v : Value) (r : ℤ × ℤ) (n : ℕ)
      → parse_range repr regex glob int v ≡ ok r
      → (not (ltb_ℤ (ℤ.pos n) r.0) && not (ltb_ℤ r.1 (ℤ.pos n))) ≡ status_is repr regex glob int n v
  parse_range_lem (Value.integer k) r n h = exact_lem k r n h
  parse_range_lem (Value.boolean b) r n h = exact_lem (one_if b) r n h
  parse_range_lem Value.null r n h = text_range_lem (strip (str repr Value.null)) r n h
  parse_range_lem (Value.scalar b t) r n h =
      text_range_lem (strip (str repr (Value.scalar b t))) r n h
  parse_range_lem (Value.text t) r n h = text_range_lem (strip (str repr (Value.text t))) r n h
  parse_range_lem (Value.sequence vs) r n h =
      text_range_lem (strip (str repr (Value.sequence vs))) r n h
  parse_range_lem (Value.mapping fs) r n h =
      text_range_lem (strip (str repr (Value.mapping fs))) r n h

  ranges_lem :
      (vs : List Value) (l : List (ℤ × ℤ)) (n : ℕ)
      → parse_ranges repr regex glob int vs ≡ ok l
      → in_ranges l n ≡ any (status_is repr regex glob int n) vs
  unfolding parse_ranges
  ranges_lem [] l n h = subst (λ m. in_ranges m n ≡ false) (ok_inj [] l h) refl
  ranges_lem (v ∷ vs) l n h =
      let (r, e, k) = >>=-eq-ok (parse_range repr regex glob int v) _ h in
      let (others, e', k') = >>=-eq-ok (parse_ranges repr regex glob int vs) _ k in
      subst (λ m. in_ranges m n ≡ any (status_is repr regex glob int n) (v ∷ vs))
        (ok_inj (r ∷ others) l k')
        (ap₂ (λ a b. a || b) (parse_range_lem v r n e) (ranges_lem vs others n e'))

  pub statuses_lem :
      (o : Option Value) (l : Option (List (ℤ × ℤ))) (n : ℕ)
      → parse_status repr regex glob int o ≡ ok l
      → in_statuses l n ≡ unless o (λ v. any (status_is repr regex glob int n) (listed v))
  statuses_lem none l n h = subst (λ m. in_statuses m n ≡ true) (ok_inj none l h) refl
  statuses_lem (some v) l n h =
      let (ranges, e, k) = >>=-eq-ok (parse_ranges repr regex glob int (listed v)) _ h in
      subst (λ m. in_statuses m n ≡ any (status_is repr regex glob int n) (listed v))
        (ok_inj (some ranges) l k) (ranges_lem (listed v) ranges n e)
