-- ===== src/Base/Sort.antt =====
-- Python's `sorted` with a key that is a pair of numbers: a stable sort, and what determines it.
use pporlock.Base.{
  ℕ, ◌≡◌, refl, sym, ap, ap₂, ◌∙◌, Bool, true, false, ◌&&◌, ◌||◌, List, [], ◌∷◌, ◌++◌, ltb, leb,
  eqb, if◌then◌else◌, filter, filter-append, All, arith, Bool-cases, inl, inr,
}

abbrev pub Key : Type 0
Key = ℕ × ℕ

abbrev pub lex_le : Key → Key → Bool
lex_le (p, i) (q, j) = ltb p q || (eqb p q && leb i j)

abbrev pub same_key : Key → Key → Bool
same_key (p, i) (q, j) = eqb p q && eqb i j

unfoldable pub insert {ℓ} : {A : Type ℓ} → (A → Key) → A → List A → List A
insert key a [] = a ∷ []
insert key a (b ∷ l) =
    let rest = insert key a l in if lex_le (key a) (key b) then a ∷ b ∷ l else b ∷ rest

-- `sorted(xs, key=key)`
unfoldable pub sort {ℓ} : {A : Type ℓ} → (A → Key) → List A → List A
unfolding insert
sort key [] = []
sort key (a ∷ l) = insert key a (sort key l)

abbrev pub Sorted {ℓ} : {A : Type ℓ} → (A → Key) → List A → Type 0
Sorted key [] = Unit
Sorted key (a ∷ l) = All (λ b. lex_le (key a) (key b) ≡ true) l × Sorted key l

lex_total : (a b : Key) → lex_le a b ≡ false → lex_le b a ≡ true
lex_total a b h = ground arith

lex_trans : (a b c : Key) → lex_le a b ≡ true → lex_le b c ≡ true → lex_le a c ≡ true
lex_trans a b c h k = ground arith

same_le : (a b c : Key) → same_key c a ≡ true → same_key c b ≡ true → lex_le a b ≡ true
same_le a b c h k = ground arith

module _ {ℓ} {A : Type ℓ} (key : A → Key) where
  All-trans :
      (a b : A) (l : List A)
      → lex_le (key a) (key b) ≡ true
      → All (λ c. lex_le (key b) (key c) ≡ true) l
      → All (λ c. lex_le (key a) (key c) ≡ true) l
  All-trans a b [] h k = tt
  All-trans a b (c ∷ l) h k = (lex_trans (key a) (key b) (key c) h k.0, All-trans a b l h k.1)

  All-insert : (P : A → Type 0) (a : A) (l : List A) → P a → All P l → All P (insert key a l)
  unfolding insert
  All-insert P a [] p h = (p, tt)
  All-insert P a (b ∷ l) p h = elim (Bool-cases (lex_le (key a) (key b))) [
    | inl e ↦ rw e (p, h)
    | inr e ↦ rw e (h.0, All-insert P a l p h.1)
  ]

  insert-Sorted : (a : A) (l : List A) → Sorted key l → Sorted key (insert key a l)
  unfolding insert
  insert-Sorted a [] s = (tt, tt)
  insert-Sorted a (b ∷ l) s = elim (Bool-cases (lex_le (key a) (key b))) [
    | inl e ↦ rw e ((e, All-trans a b l e s.0), s)
    | inr e ↦ rw e (All-insert _ a l (lex_total (key a) (key b) e) s.0, insert-Sorted a l s.1)
  ]

  pub sort-Sorted : (l : List A) → Sorted key (sort key l)
  unfolding sort
  sort-Sorted [] = tt
  sort-Sorted (a ∷ l) = insert-Sorted a (sort key l) (sort-Sorted l)

  pub All-sort : (P : A → Type 0) (l : List A) → All P l → All P (sort key l)
  unfolding sort
  All-sort P [] h = tt
  All-sort P (a ∷ l) h = All-insert P a (sort key l) h.0 (All-sort P l h.1)

  -- the elements with one key, in their order
  abbrev pub with_key : Key → List A → List A
  with_key k = filter (λ a. same_key k (key a))

  with_key-insert :
      (k : Key) (a : A) (l : List A) → with_key k (insert key a l) ≡ with_key k (a ∷ l)
  unfolding insert
  with_key-insert k a [] = refl
  with_key-insert k a (b ∷ l) = elim (Bool-cases (lex_le (key a) (key b))) [
    | inl e ↦ rw e refl
    | inr e ↦ rw e (ground (arith, with_key-insert k a l, same_le (key a) (key b) k))
  ]

  pub with_key-sort : (k : Key) (l : List A) → with_key k (sort key l) ≡ with_key k l
  unfolding sort
  with_key-sort k [] = refl
  with_key-sort k (a ∷ l) = with_key-insert k a (sort key l) ∙ ground (arith, with_key-sort k l)

  with_key-own : (a : A) (l : List A) → with_key (key a) (a ∷ l) ≡ a ∷ with_key (key a) l
  with_key-own a l = ground arith

  with_key-below :
      (k : Key) (b : A) (l : List A)
      → lex_le (key b) k ≡ false
      → All (λ c. lex_le (key b) (key c) ≡ true) l
      → with_key k l ≡ []
  with_key-below k b [] e h = refl
  with_key-below k b (c ∷ l) e h = ground (arith, with_key-below k b l e h.1, h.0)

  heads_ordered :
      (a b : A) (l m : List A)
      → All (λ c. lex_le (key b) (key c) ≡ true) m
      → with_key (key a) (a ∷ l) ≡ with_key (key a) (b ∷ m)
      → lex_le (key b) (key a) ≡ true
  heads_ordered a b l m t h = elim (Bool-cases (lex_le (key b) (key a))) [
    | inl e ↦ e
    | inr e ↦ absurd (ground (arith, with_key-own a l, with_key-below (key a) b m e t, h))
  ]

  heads_equal :
      (a b : A) (l m : List A)
      → lex_le (key b) (key a) ≡ true
      → lex_le (key a) (key b) ≡ true
      → with_key (key a) (a ∷ l) ≡ with_key (key a) (b ∷ m)
      → a ≡ b
  heads_equal a b l m up down h =
      let same : same_key (key a) (key b) ≡ true = ground arith in
      let own : with_key (key a) (b ∷ m) ≡ b ∷ with_key (key a) m = rw same refl in
      cc (with_key-own a l, own, h)

  tails_equal :
      (k : Key) (a b : A) (l m : List A)
      → a ≡ b
      → with_key k (a ∷ l) ≡ with_key k (b ∷ m)
      → with_key k l ≡ with_key k m
  tails_equal k a b l m e h = ground (arith, ap key e)

  -- a sorted list is determined by what it holds at each key
  pub Sorted-unique :
      (l m : List A)
      → Sorted key l
      → Sorted key m
      → ((k : Key) → with_key k l ≡ with_key k m)
      → l ≡ m
  Sorted-unique [] [] s t h = refl
  Sorted-unique [] (b ∷ m) s t h = absurd (cc (h (key b), with_key-own b m))
  Sorted-unique (a ∷ l) [] s t h = absurd (cc (h (key a), with_key-own a l))
  Sorted-unique (a ∷ l) (b ∷ m) s t h =
      let up = heads_ordered a b l m t.0 (h (key a)) in
      let down = heads_ordered b a m l s.0 (sym (h (key b))) in
      let first : a ≡ b = heads_equal a b l m up down (h (key a)) in
      ap₂ (λ x xs. x ∷ xs) first
        (Sorted-unique l m s.1 t.1 (λ k. tails_equal k a b l m first (h k)))

  -- sorting what was sorted in parts is sorting all at once
  pub sort-append_sorted : (l m : List A) → sort key (sort key l ++ sort key m) ≡ sort key (l ++ m)
  sort-append_sorted l m =
      Sorted-unique _ _ (sort-Sorted (sort key l ++ sort key m)) (sort-Sorted (l ++ m)) (λ k.
        with_key-sort k (sort key l ++ sort key m)
        ∙ filter-append _ (sort key l) (sort key m)
        ∙ ap₂ (λ x y. x ++ y) (with_key-sort k l) (with_key-sort k m)
        ∙ sym (filter-append _ l m)
        ∙ sym (with_key-sort k (l ++ m)))
