-- ===== src/Engine/Modules/Settings/Declared.antt =====
-- What `parse_settings` lets through: distinct, well-formed keys, choices that differ, and defaults
-- that their own fields accept.
use pporlock.Base.{
  ℕ, suc, ◌≡◌, refl, sym, subst, true, false, Option, none, some, List, [], ◌∷◌, All, arith,
  contains, text_eq, inl, inr, ◌⊎◌, ◌∙◌, is_some,
}
use pporlock.Base.Text.{Text, codes}
use pporlock.Base.Int.{ℤ}
use pporlock.Base.Dict
use pporlock.Base.Dict.{Dict}
use pporlock.Base.Result.{Result, ok, err, ◌>>◌, refuse_if, ok_inj, >>=-eq-ok, >>-eq-ok}
use pporlock.Base.Values.{Value, Items, items, fields}
use pporlock.Engine.Modules.Settings.{
  SettingType, SettingOption, ModuleSetting, Refusal, coerce_value, values_of,
}
use pporlock.Engine.Modules.Settings.Parse.{
  SettingsError, key_matches, has_duplicates, parse_key, parse_type, parse_bound, parse_option,
  options_from, enum_options, parse_options, declared, with_default, parse_fields, parse_entry,
  parse_from, parse_settings,
}
use pporlock.Engine.Modules.Settings.Coerced.{coerce_value_idem}

-- an enum has choices, which differ
abbrev pub Choices : List SettingOption → Type 0
Choices [] = ⊥
Choices (o ∷ options) = has_duplicates (values_of (o ∷ options)) ≡ false

-- and only an enum has any
abbrev pub ChoicesOf : SettingType → List SettingOption → Type 0
ChoicesOf SettingType.enum_type options = Choices options
ChoicesOf _ options = options ≡ []

-- only an integer has bounds
pub record IsDeclared (s : ModuleSetting) : Type 0 where
  pub key : key_matches s.key ≡ true
  pub choices : ChoicesOf s.kind s.options
  pub low : (s.kind ≡ SettingType.integer_type) ⊎ (s.low ≡ none)
  pub high : (s.kind ≡ SettingType.integer_type) ⊎ (s.high ≡ none)
  pub default : coerce_value s s.default ≡ ok s.default

-- no key stands twice, nor among those already seen
abbrev pub DistinctKeys : List Text → List ModuleSetting → Type 0
DistinctKeys seen [] = Unit
DistinctKeys seen (s ∷ ss) = (contains seen s.key ≡ false) × DistinctKeys (s.key ∷ seen) ss

parse_key_lem :
    (index : ℕ) (seen : List Text) (o : Option Value) (key : Text)
    → parse_key index seen o ≡ ok key
    → (key_matches key ≡ true) × (contains seen key ≡ false)
unfolding key_matches
parse_key_lem index seen none key h = cc
parse_key_lem index seen (some (Value.text t)) key h = ground arith
parse_key_lem index seen (some Value.null) key h = cc
parse_key_lem index seen (some (Value.boolean b)) key h = cc
parse_key_lem index seen (some (Value.integer b)) key h = cc
parse_key_lem index seen (some (Value.scalar b t)) key h = cc
parse_key_lem index seen (some (Value.sequence b)) key h = cc
parse_key_lem index seen (some (Value.mapping b)) key h = cc

parse_bound_lem :
    (kind : SettingType) (key name : Text) (o : Option Value) (bound : Option ℤ)
    → parse_bound kind key name o ≡ ok bound
    → (kind ≡ SettingType.integer_type) ⊎ (bound ≡ none)
parse_bound_lem kind key name none bound h = inr (sym (ok_inj none bound h))
parse_bound_lem SettingType.integer_type key name (some v) bound h = inl refl
parse_bound_lem SettingType.string_type key name (some v) bound h = cc
parse_bound_lem SettingType.text_type key name (some v) bound h = cc
parse_bound_lem SettingType.boolean_type key name (some v) bound h = cc
parse_bound_lem SettingType.enum_type key name (some v) bound h = cc
parse_bound_lem SettingType.list_type key name (some v) bound h = cc

no_duplicates :
    (os options : List SettingOption) (key : Text)
    → (refuse_if (has_duplicates (values_of os)) (SettingsError.duplicate_values key) >> ok os)
      ≡ ok options
    → (os ≡ options) × (has_duplicates (values_of options) ≡ false)
no_duplicates os options key h =
    let (d, e) = >>-eq-ok _ _ _ h in
    let same = ok_inj os options e in
    (same, subst (λ l. has_duplicates (values_of l) ≡ false) same d)

chosen :
    (o : SettingOption) (os options : List SettingOption)
    → o ∷ os ≡ options
    → has_duplicates (values_of options) ≡ false
    → Choices options
chosen o os [] e d = cc
chosen o os (p ∷ options) e d = d

no_options :
    (o : Option Value) (options : List SettingOption) (key : Text)
    → (refuse_if (is_some o) (SettingsError.stray_options key) >> ok []) ≡ ok options
    → options ≡ []
no_options o options key h = sym (ok_inj [] options (>>-eq-ok _ _ _ h).1)

module _ (repr : Value → Text) where
  options_from_lem :
      (key : Text) (index : ℕ) (v : Value) (vs : List Value) (os : List SettingOption)
      → options_from repr key index (v ∷ vs) ≡ ok os
      → (o : SettingOption) × (rest : List SettingOption) × (o ∷ rest ≡ os)
  unfolding options_from
  options_from_lem key index v vs os h =
      let (o, _, k) = >>=-eq-ok (parse_option repr key index v) _ h in
      let (rest, _, e) = >>=-eq-ok (options_from repr key (suc index) vs) _ k in
      (o, rest, ok_inj (o ∷ rest) os e)

  enum_options_lem :
      (key : Text) (o : Option Value) (options : List SettingOption)
      → enum_options repr key o ≡ ok options
      → Choices options
  unfolding options_from
  enum_options_lem key (some (Value.sequence (Items.item v vs))) options h =
      let (os, e, k) = >>=-eq-ok (options_from repr key 0 (v ∷ items vs)) _ h in
      let (o, rest, q) = options_from_lem key 0 v (items vs) os e in
      let (same, d) = no_duplicates os options key k in chosen o rest options (q ∙ same) d
  enum_options_lem key none options h = cc
  enum_options_lem key (some (Value.sequence Items.nil)) options h = cc
  enum_options_lem key (some Value.null) options h = cc
  enum_options_lem key (some (Value.boolean _)) options h = cc
  enum_options_lem key (some (Value.integer _)) options h = cc
  enum_options_lem key (some (Value.scalar _ _)) options h = cc
  enum_options_lem key (some (Value.text _)) options h = cc
  enum_options_lem key (some (Value.mapping _)) options h = cc

  parse_options_lem :
      (kind : SettingType) (key : Text) (o : Option Value) (options : List SettingOption)
      → parse_options repr kind key o ≡ ok options
      → ChoicesOf kind options
  parse_options_lem SettingType.enum_type key o options h = enum_options_lem key o options h
  parse_options_lem SettingType.string_type key o options h = no_options o options key h
  parse_options_lem SettingType.text_type key o options h = no_options o options key h
  parse_options_lem SettingType.boolean_type key o options h = no_options o options key h
  parse_options_lem SettingType.integer_type key o options h = no_options o options key h
  parse_options_lem SettingType.list_type key o options h = no_options o options key h

  with_default_lem :
      (s : ModuleSetting) (v : Value) (t : ModuleSetting)
      → with_default s (coerce_value s v) ≡ ok t
      → (w : Value) × (record s { default = w } ≡ t) × (coerce_value s w ≡ ok w)
  with_default_lem s v t h = go (coerce_value s v) refl h
    where
      go :
          (r : Result Refusal Value)
          → coerce_value s v ≡ r
          → with_default s r ≡ ok t
          → (w : Value) × (record s { default = w } ≡ t) × (coerce_value s w ≡ ok w)
      go (ok w) e h = (w, ok_inj _ t h, coerce_value_idem s v w e)
      go (err why) e h = cc

  parse_fields_lem :
      (index : ℕ) (seen : List Text) (entry : Dict Text Value) (s : ModuleSetting)
      → parse_fields repr index seen entry ≡ ok s
      → IsDeclared s × (contains seen s.key ≡ false)
  unfolding coerce_value
  parse_fields_lem index seen entry s h =
      let (_, h₁) = >>-eq-ok _ _ _ h in
      let (key, k, h₂) = >>=-eq-ok (parse_key index seen (Dict.get (codes "key") entry)) _ h₁ in
      let (kind, _, h₃) = >>=-eq-ok (parse_type key (Dict.get (codes "type") entry)) _ h₂ in
      let (options, o, h₄) =
        >>=-eq-ok (parse_options repr kind key (Dict.get (codes "options") entry)) _ h₃ in
      let (low, l, h₅) =
        >>=-eq-ok (parse_bound kind key (codes "min") (Dict.get (codes "min") entry)) _ h₄ in
      let (high, u, h₆) =
        >>=-eq-ok (parse_bound kind key (codes "max") (Dict.get (codes "max") entry)) _ h₅ in
      let (w, e, c) = with_default_lem (declared repr key kind options low high entry) _ s h₆ in
      let (matched, new) = parse_key_lem index seen _ key k in
      subst (λ t. IsDeclared t × (contains seen t.key ≡ false)) e
        (
          record {
            key = matched;
            choices = parse_options_lem kind key _ options o;
            low = parse_bound_lem kind key _ _ low l;
            high = parse_bound_lem kind key _ _ high u;
            default = c;
          },
          new,
        )

  parse_entry_lem :
      (index : ℕ) (seen : List Text) (v : Value) (s : ModuleSetting)
      → parse_entry repr index seen v ≡ ok s
      → IsDeclared s × (contains seen s.key ≡ false)
  unfolding parse_entry
  parse_entry_lem index seen (Value.mapping fs) s h = parse_fields_lem index seen (fields fs) s h
  parse_entry_lem index seen Value.null s h = cc
  parse_entry_lem index seen (Value.boolean _) s h = cc
  parse_entry_lem index seen (Value.integer _) s h = cc
  parse_entry_lem index seen (Value.scalar _ _) s h = cc
  parse_entry_lem index seen (Value.text _) s h = cc
  parse_entry_lem index seen (Value.sequence _) s h = cc

  parse_from_lem :
      (index : ℕ) (seen : List Text) (vs : List Value) (ss : List ModuleSetting)
      → parse_from repr index seen vs ≡ ok ss
      → All IsDeclared ss × DistinctKeys seen ss
  unfolding parse_from parse_entry
  parse_from_lem index seen [] ss h =
      subst (λ l. All IsDeclared l × DistinctKeys seen l) (ok_inj [] ss h) (tt, tt)
  parse_from_lem index seen (v ∷ vs) ss h =
      let (s, e, k) = >>=-eq-ok (parse_entry repr index seen v) _ h in
      let (rest, q, r) = >>=-eq-ok (parse_from repr (suc index) (s.key ∷ seen) vs) _ k in
      let first = parse_entry_lem index seen v s e in
      let later = parse_from_lem (suc index) (s.key ∷ seen) vs rest q in
      subst (λ l. All IsDeclared l × DistinctKeys seen l) (ok_inj (s ∷ rest) ss r)
        ((first.0, later.0), (first.1, later.1))

  -- The settings that a manifest's block is parsed to have distinct keys, all of them of the form that
  -- a key has; only an enum has choices, at least one and none twice; only an integer has bounds; and
  -- each field accepts its own default, as it is.
  pub parse_settings-IsDeclared :
      (raw : Value) (ss : List ModuleSetting)
      → parse_settings repr raw ≡ ok ss
      → All IsDeclared ss × DistinctKeys [] ss
  unfolding parse_settings
  parse_settings-IsDeclared Value.null ss h =
      subst (λ l. All IsDeclared l × DistinctKeys [] l) (ok_inj [] ss h) (tt, tt)
  parse_settings-IsDeclared (Value.sequence vs) ss h = parse_from_lem 0 [] (items vs) ss h
  parse_settings-IsDeclared (Value.boolean _) ss h = cc
  parse_settings-IsDeclared (Value.integer _) ss h = cc
  parse_settings-IsDeclared (Value.scalar _ _) ss h = cc
  parse_settings-IsDeclared (Value.text _) ss h = cc
  parse_settings-IsDeclared (Value.mapping _) ss h = cc
