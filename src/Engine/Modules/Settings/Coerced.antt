-- ===== src/Engine/Modules/Settings/Coerced.antt =====
-- What `coerce_value` accepts, it accepts again as it is.
use pporlock.Base.{
  ℕ, ◌≡◌, refl, sym, ap, ap₂, ◌∙◌, subst, false, Option, none, some, List, [], ◌∷◌, ◌++◌, reverse,
  Bool-cases, ◌⊎◌, inl, inr, arith, text_eq,
}
use mathlib.Core.List.{reverse-reverse, reverse-cons, reverse-append}
use pporlock.Base.Text.{Text, strip, lstrip, is_space, non_empty}
use pporlock.Base.Int.{ℤ}
use pporlock.Base.Result.{ok, ok_inj}
use pporlock.Base.Values.{Value, items, of_texts}
use pporlock.Engine.Modules.Settings.{
  SettingType, ModuleSetting, coerce_value, as_list, as_strings, coerced, texts_of, values_of,
  stripped,
}

lstrip_idem : (s : Text) → lstrip (lstrip s) ≡ lstrip s
unfolding lstrip
lstrip_idem [] = refl
lstrip_idem (c ∷ s) = elim (Bool-cases (is_space c)) [
  | inl b ↦ rw b (lstrip_idem s)
  | inr b ↦ rw (b, lstrip, b)
]

lstrip-cases :
    (s : Text)
    → (lstrip s ≡ []) ⊎ ((c : ℕ) × (t : Text) × (lstrip s ≡ c ∷ t) × (is_space c ≡ false))
unfolding lstrip
lstrip-cases [] = inl refl
lstrip-cases (c ∷ s) = elim (Bool-cases (is_space c)) [
  | inl b ↦ rw b (lstrip-cases s)
  | inr b ↦ inr (c, s, rw b refl, b)
]

lstrip-append : (s : Text) (c : ℕ) → is_space c ≡ false → lstrip (s ++ c ∷ []) ≡ lstrip s ++ c ∷ []
unfolding lstrip
lstrip-append [] c b = rw b refl
lstrip-append (d ∷ s) c b = elim (Bool-cases (is_space d)) [
  | inl h ↦ rw h (lstrip-append s c b)
  | inr h ↦ rw h refl
]

-- a text with a mark in it keeps all from its first mark to its last
strip_at :
    (s : Text) (c : ℕ) (t : Text)
    → lstrip s ≡ c ∷ t
    → is_space c ≡ false
    → strip s ≡ c ∷ reverse (lstrip (reverse t))
unfolding strip
strip_at s c t e b =
    ap (λ u. reverse (lstrip (reverse u))) e
    ∙ ap (λ u. reverse (lstrip u)) (reverse-cons c t)
    ∙ ap reverse (lstrip-append (reverse t) c b)
    ∙ reverse-append (lstrip (reverse t)) (c ∷ [])

lstrip_marked : (c : ℕ) (t : Text) → is_space c ≡ false → lstrip (c ∷ t) ≡ c ∷ t
unfolding lstrip
lstrip_marked c t b = rw b refl

strip_blank : (s : Text) → lstrip s ≡ [] → strip s ≡ []
unfolding strip lstrip
strip_blank s e = ap (λ u. reverse (lstrip (reverse u))) e

abbrev inner : Text → Text
inner t = reverse (lstrip (reverse t))

lstrip_nil : lstrip [] ≡ []
unfolding lstrip
lstrip_nil = refl

pub strip_idem : (s : Text) → strip (strip s) ≡ strip s
strip_idem s = elim (lstrip-cases s) [
  | inl e ↦ strip_blank (strip s) (ap lstrip (strip_blank s e) ∙ lstrip_nil) ∙ sym (strip_blank s e)
  | inr (c, t, e, b) ↦
      ap strip (strip_at s c t e b)
      ∙ strip_at (c ∷ inner t) c (inner t) (lstrip_marked c (inner t) b) b
      ∙ ap (λ u. c ∷ reverse (lstrip u)) (reverse-reverse (lstrip (reverse t)))
      ∙ ap (λ u. c ∷ reverse u) (lstrip_idem (reverse t))
      ∙ sym (strip_at s c t e b)
]

texts_of-of_texts : (ts : List Text) → texts_of (items (of_texts ts)) ≡ some ts
unfolding texts_of
texts_of-of_texts [] = refl
texts_of-of_texts (t ∷ ts) = rw (texts_of-of_texts ts) refl

stripped_idem : (ts : List Text) → stripped (stripped ts) ≡ stripped ts
stripped_idem [] = refl
stripped_idem (t ∷ ts) = elim (Bool-cases (non_empty (strip t))) [
  | inl b ↦ rw (b, strip_idem t, b) (ap₂ (λ u us. u ∷ us) (strip_idem t) (stripped_idem ts))
  | inr b ↦ rw b (stripped_idem ts)
]

as_list_idem : (o : Option (List Text)) (w : Value) → as_list o ≡ ok w → as_strings w ≡ ok w
unfolding texts_of
as_list_idem none w h = cc
as_list_idem (some ts) w h =
    subst (λ u. as_strings u ≡ ok u) (ok_inj _ w h)
      (ap as_list (texts_of-of_texts (stripped ts))
        ∙ ap (λ us. ok (Value.sequence (of_texts us))) (stripped_idem ts))

-- all but a list are accepted as they are
coerced_same :
    (kind : SettingType) (low high : Option ℤ) (allowed : List Text) (v w : Value)
    → coerced kind low high allowed v ≡ ok w
    → (kind ≡ SettingType.list_type) ⊎ (v ≡ w)
coerced_same SettingType.list_type low high allowed v w h = inl refl
coerced_same SettingType.boolean_type low high allowed v w h = ground arith
coerced_same SettingType.integer_type low high allowed v w h = ground arith
coerced_same SettingType.enum_type low high allowed v w h = ground arith
coerced_same SettingType.string_type low high allowed v w h = ground arith
coerced_same SettingType.text_type low high allowed v w h = ground arith

strings_idem : (v w : Value) → as_strings v ≡ ok w → as_strings w ≡ ok w
unfolding texts_of
strings_idem (Value.sequence vs) w h = as_list_idem (texts_of (items vs)) w h
strings_idem Value.null w h = cc
strings_idem (Value.boolean b) w h = cc
strings_idem (Value.integer n) w h = cc
strings_idem (Value.scalar b t) w h = cc
strings_idem (Value.text t) w h = cc
strings_idem (Value.mapping fs) w h = cc

coerced_idem :
    (kind : SettingType) (low high : Option ℤ) (allowed : List Text) (v w : Value)
    → coerced kind low high allowed v ≡ ok w
    → coerced kind low high allowed w ≡ ok w
unfolding texts_of
coerced_idem kind low high allowed v w h = elim (coerced_same kind low high allowed v w h) [
  | inl e ↦
      subst (λ k. coerced k low high allowed w ≡ ok w) (sym e)
        (strings_idem v w (subst (λ k. coerced k low high allowed v ≡ ok w) e h))
  | inr e ↦ subst (λ u. coerced kind low high allowed u ≡ ok w) e h
]

pub coerce_value_idem :
    (s : ModuleSetting) (v w : Value) → coerce_value s v ≡ ok w → coerce_value s w ≡ ok w
unfolding coerce_value
coerce_value_idem s v w h = coerced_idem s.kind s.low s.high (values_of s.options) v w h
