-- ===== src/Engine/Modules/Settings/Parse.antt =====
-- `parse_settings` (engine/modules/settings.py): a manifest's `settings:` block becomes the settings
-- of the module, or the first error in it. `repr` is what `str` makes of anything but a text.
use pporlock.Base.{
  ℕ, zero, suc, Bool, true, false, not, ◌&&◌, ◌||◌, Option, none, some, List, [], ◌∷◌, ◌==◌,
  text_eq, any, contains, eqb, leb, filter, if◌then◌else◌, is_some, or_else,
}
use pporlock.Base.Text.{Text, codes, non_empty}
use pporlock.Base.Int.{ℤ}
use pporlock.Base.Dict
use pporlock.Base.Dict.{Dict, keys}
use pporlock.Base.Result.{Result, ok, err, ◌>>=◌, ◌>>◌, refuse_if}
use pporlock.Base.Values.{Value, Items, items, fields, str_or}
use pporlock.Engine.Modules.Settings.{
  SettingType, SettingOption, ModuleSetting, Refusal, coerce_value, values_of,
}

-- what `parse_settings` raises: `unhashable` is a TypeError, the others are SettingsErrors
pub data SettingsError : Type 0 where
  not_a_list : SettingsError
  not_a_mapping : ℕ → SettingsError
  unknown_keys : ℕ → List Text → SettingsError
  bad_key : ℕ → SettingsError
  declared_twice : Text → SettingsError
  unhashable : Text → SettingsError
  unknown_type : Text → SettingsError
  needs_options : Text → SettingsError
  bad_option : Text → ℕ → SettingsError
  unknown_option_keys : Text → List Text → SettingsError
  no_option_value : Text → ℕ → SettingsError
  duplicate_values : Text → SettingsError
  stray_options : Text → SettingsError
  stray_bound : Text → Text → SettingsError
  bad_bound : Text → Text → SettingsError
  bad_default : Text → Refusal → SettingsError

abbrev pub letter : ℕ → Bool
letter c = leb b'a' c && leb c b'z'

abbrev pub word : ℕ → Bool
word c = letter c || (leb b'0' c && leb c b'9') || eqb c b'_'

-- `[a-z0-9_]{0,n}$`: the `$` of Python also stands before a line feed that ends the text
unfoldable pub key_tail : ℕ → Text → Bool
key_tail n [] = true
key_tail zero (c ∷ s) = eqb c 10 && not (non_empty s)
key_tail (suc n) (c ∷ s) =
    let rest = key_tail n s in if word c then rest else eqb c 10 && not (non_empty s)

-- `SETTING_KEY_PATTERN.match`
unfoldable pub key_matches : Text → Bool
unfolding key_tail
key_matches [] = false
key_matches (c ∷ s) = letter c && key_tail 62 s

abbrev pub known_setting_keys : List Text
known_setting_keys =
    codes "key"
    ∷ codes "label"
    ∷ codes "type"
    ∷ codes "description"
    ∷ codes "default"
    ∷ codes "options"
    ∷ codes "placeholder"
    ∷ codes "min"
    ∷ codes "max"
    ∷ []

abbrev pub known_option_keys : List Text
known_option_keys = codes "value" ∷ codes "label" ∷ codes "description" ∷ []

-- `set(entry) - known`, in the order of the entry
abbrev pub unknown_in : List Text → Dict Text Value → List Text
unknown_in known entry = filter (λ key. not (contains known key)) (keys entry)

abbrev pub first_value : List SettingOption → Text
first_value [] = []
first_value (o ∷ options) = o.value

-- `_implicit_default`
abbrev pub implicit_default : SettingType → Option ℤ → List SettingOption → Value
implicit_default SettingType.boolean_type low options = Value.boolean false
implicit_default SettingType.integer_type low options = Value.integer (or_else low (ℤ.pos 0))
implicit_default SettingType.list_type low options = Value.sequence Items.nil
implicit_default SettingType.enum_type low options = Value.text (first_value options)
implicit_default _ low options = Value.text []

abbrev pub as_text_or : Option Value → Text → Text
as_text_or (some (Value.text t)) other = if non_empty t then t else other
as_text_or _ other = other

abbrev pub has_duplicates : List Text → Bool
has_duplicates [] = false
has_duplicates (t ∷ ts) = contains ts t || has_duplicates ts

abbrev pub type_of : Text → Option SettingType
type_of t =
    if t == codes "string"
    then some SettingType.string_type
    else if t == codes "text"
    then some SettingType.text_type
    else if t == codes "boolean"
    then some SettingType.boolean_type
    else if t == codes "integer"
    then some SettingType.integer_type
    else if t == codes "enum"
    then some SettingType.enum_type
    else if t == codes "string_list"
    then some SettingType.list_type
    else none

abbrev pub known_type : Text → Option SettingType → Result SettingsError SettingType
known_type key none = err (SettingsError.unknown_type key)
known_type key (some kind) = ok kind

-- `entry.get("type", "string")`; a list or a mapping has no hash, so no set can be asked for it
abbrev pub parse_type : Text → Option Value → Result SettingsError SettingType
parse_type key none = ok SettingType.string_type
parse_type key (some (Value.text t)) = known_type key (type_of t)
parse_type key (some (Value.sequence _)) = err (SettingsError.unhashable key)
parse_type key (some (Value.mapping _)) = err (SettingsError.unhashable key)
parse_type key (some _) = err (SettingsError.unknown_type key)

abbrev pub parse_key : ℕ → List Text → Option Value → Result SettingsError Text
parse_key index seen (some (Value.text key)) = do
  refuse_if (not (key_matches key)) (SettingsError.bad_key index)
  refuse_if (contains seen key) (SettingsError.declared_twice key)
  ok key
parse_key index seen _ = err (SettingsError.bad_key index)

abbrev pub parse_bound : SettingType → Text → Text → Option Value → Result SettingsError (Option ℤ)
parse_bound kind key name none = ok none
parse_bound SettingType.integer_type key name (some (Value.integer n)) = ok (some n)
parse_bound SettingType.integer_type key name (some _) = err (SettingsError.bad_bound key name)
parse_bound _ key name (some _) = err (SettingsError.stray_bound key name)

abbrev pub with_default : ModuleSetting → Result Refusal Value → Result SettingsError ModuleSetting
with_default s (err why) = err (SettingsError.bad_default s.key why)
with_default s (ok v) = ok (record s { default = v })

module _ (repr : Value → Text) where
  abbrev pub optional_text : Option Value → Text → Text
  optional_text v other = str_or repr (or_else v Value.null) other

  abbrev pub option_of :
      Text → ℕ → Dict Text Value → Option Value → Result SettingsError SettingOption
  option_of key index entry (some (Value.text value)) = do
    refuse_if (not (non_empty value)) (SettingsError.no_option_value key index)
    ok (record {
      value = value;
      label = as_text_or (Dict.get (codes "label") entry) value;
      description = optional_text (Dict.get (codes "description") entry) [];
    })
  option_of key index entry _ = err (SettingsError.no_option_value key index)

  -- `_option`
  unfoldable pub parse_option : Text → ℕ → Value → Result SettingsError SettingOption
  unfolding str_or
  parse_option key index (Value.text t) = ok (record { value = t; label = t; description = [] })
  parse_option key index (Value.mapping fs) = do
    let unknown = unknown_in known_option_keys (fields fs)
    refuse_if (any (λ _. true) unknown) (SettingsError.unknown_option_keys key unknown)
    option_of key index (fields fs) (Dict.get (codes "value") (fields fs))
  parse_option key index _ = err (SettingsError.bad_option key index)

  unfoldable pub options_from : Text → ℕ → List Value → Result SettingsError (List SettingOption)
  unfolding parse_option
  options_from key index [] = ok []
  options_from key index (v ∷ vs) = do
    option ← parse_option key index v
    rest ← options_from key (suc index) vs
    ok (option ∷ rest)

  abbrev pub enum_options : Text → Option Value → Result SettingsError (List SettingOption)
  enum_options key (some (Value.sequence (Items.item v vs))) = do
    options ← options_from key 0 (v ∷ items vs)
    refuse_if (has_duplicates (values_of options)) (SettingsError.duplicate_values key)
    ok options
  enum_options key _ = err (SettingsError.needs_options key)

  abbrev pub parse_options :
      SettingType → Text → Option Value → Result SettingsError (List SettingOption)
  parse_options SettingType.enum_type key v = enum_options key v
  parse_options _ key v = do refuse_if (is_some v) (SettingsError.stray_options key); ok []

  abbrev pub declared :
      Text
      → SettingType
      → List SettingOption
      → Option ℤ
      → Option ℤ
      → Dict Text Value
      → ModuleSetting
  declared key kind options low high entry = record {
    key = key;
    kind = kind;
    label = optional_text (Dict.get (codes "label") entry) key;
    description = optional_text (Dict.get (codes "description") entry) [];
    default = Value.null;
    options = options;
    placeholder = optional_text (Dict.get (codes "placeholder") entry) [];
    low = low;
    high = high;
  }

  -- the body of the loop of `parse_settings`
  abbrev pub parse_fields : ℕ → List Text → Dict Text Value → Result SettingsError ModuleSetting
  parse_fields index seen entry = do
    let unknown = unknown_in known_setting_keys entry
    refuse_if (any (λ _. true) unknown) (SettingsError.unknown_keys index unknown)
    key ← parse_key index seen (Dict.get (codes "key") entry)
    kind ← parse_type key (Dict.get (codes "type") entry)
    options ← parse_options kind key (Dict.get (codes "options") entry)
    low ← parse_bound kind key (codes "min") (Dict.get (codes "min") entry)
    high ← parse_bound kind key (codes "max") (Dict.get (codes "max") entry)
    let setting = declared key kind options low high entry
    let default = or_else (Dict.get (codes "default") entry) (implicit_default kind low options)
    with_default setting (coerce_value setting default)

  unfoldable pub parse_entry : ℕ → List Text → Value → Result SettingsError ModuleSetting
  unfolding coerce_value key_matches options_from str_or
  parse_entry index seen (Value.mapping fs) = parse_fields index seen (fields fs)
  parse_entry index seen _ = err (SettingsError.not_a_mapping index)

  unfoldable pub parse_from : ℕ → List Text → List Value → Result SettingsError (List ModuleSetting)
  unfolding parse_entry
  parse_from index seen [] = ok []
  parse_from index seen (v ∷ vs) = do
    setting ← parse_entry index seen v
    rest ← parse_from (suc index) (setting.key ∷ seen) vs
    ok (setting ∷ rest)

  -- `parse_settings`
  unfoldable pub parse_settings : Value → Result SettingsError (List ModuleSetting)
  unfolding parse_from
  parse_settings Value.null = ok []
  parse_settings (Value.sequence vs) = parse_from 0 [] (items vs)
  parse_settings _ = err SettingsError.not_a_list
