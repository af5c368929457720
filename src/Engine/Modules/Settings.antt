-- ===== src/Engine/Modules/Settings.antt =====
-- Declared module settings (engine/modules/settings.py): the fields of a module that a user may set,
-- their parsing, the check of a value for its field, and what `ctx.config` holds. An error is a value
-- that says what is wrong; its message is left out.
pub mod Parse
pub mod Config
pub mod Coerced
pub mod Declared
pub mod Configured
pub mod Checked
pub mod Accepted
pub mod Form
use pporlock.Base.{
  ℕ, zero, suc, Bool, true, false, not, ◌&&◌, ◌||◌, Option, none, some, List, [], ◌∷◌, ◌++◌, map,
  ◌==◌, text_eq, any, contains, eqb, leb, filter, find, if◌then◌else◌, is_some, or_else, get_elem?,
}
use pporlock.Base.Text.{Text, codes, non_empty, strip}
use pporlock.Base.Int.{ℤ, ltb_ℤ}
use pporlock.Base.Dict
use pporlock.Base.Dict.{Dict, keys}
use pporlock.Base.Result.{Result, ok, err, ◌>>=◌, ◌>>◌, refuse_if}
use pporlock.Base.Values.{Value, Items, Fields, items, fields, of_texts, str, str_or, truthy}

-- `SETTING_TYPES`
pub data SettingType : Type 0 where
  string_type text_type boolean_type integer_type enum_type list_type : SettingType

-- `SettingOption`
pub record SettingOption : Type 0 where
  pub value : Text
  pub label : Text
  pub description : Text

-- `ModuleSetting`
pub record ModuleSetting : Type 0 where
  pub key : Text
  pub kind : SettingType
  pub label : Text
  pub description : Text
  pub default : Value
  pub options : List SettingOption
  pub placeholder : Text
  pub low : Option ℤ
  pub high : Option ℤ

-- the `ValueError`s of `coerce_value`
pub data Refusal : Type 0 where
  not_boolean not_integer not_strings not_string : Refusal
  too_small : ℤ → Refusal
  too_large : ℤ → Refusal
  not_an_option : List Text → Refusal

-- `value not in allowed`, where only a text is equal to a text
abbrev pub is_allowed : List Text → Value → Bool
is_allowed allowed (Value.text t) = contains allowed t
is_allowed allowed _ = false

-- the texts of a list, where all of its items are texts
unfoldable pub texts_of : List Value → Option (List Text)
texts_of [] = some []
texts_of (Value.text t ∷ vs) = elim (texts_of vs) [ none ↦ none | some ts ↦ some (t ∷ ts) ]
texts_of (_ ∷ vs) = none

abbrev pub stripped : List Text → List Text
stripped ts = map strip (filter (λ t. non_empty (strip t)) ts)

abbrev pub below : Option ℤ → ℤ → Bool
below none n = false
below (some low) n = ltb_ℤ n low

abbrev pub above : Option ℤ → ℤ → Bool
above none n = false
above (some high) n = ltb_ℤ high n

abbrev pub values_of : List SettingOption → List Text
values_of options = map (λ o. o.value) options

abbrev pub within : Option ℤ → Option ℤ → ℤ → Result Refusal Value
within low high n =
    if below low n
    then err (Refusal.too_small (or_else low n))
    else if above high n
    then err (Refusal.too_large (or_else high n))
    else ok (Value.integer n)

abbrev pub as_boolean : Value → Result Refusal Value
as_boolean (Value.boolean b) = ok (Value.boolean b)
as_boolean _ = err Refusal.not_boolean

abbrev pub as_integer : Option ℤ → Option ℤ → Value → Result Refusal Value
as_integer low high (Value.integer n) = within low high n
as_integer low high _ = err Refusal.not_integer

abbrev pub as_option : List Text → Value → Result Refusal Value
as_option allowed v = if is_allowed allowed v then ok v else err (Refusal.not_an_option allowed)

abbrev pub as_list : Option (List Text) → Result Refusal Value
as_list none = err Refusal.not_strings
as_list (some ts) = ok (Value.sequence (of_texts (stripped ts)))

abbrev pub as_strings : Value → Result Refusal Value
as_strings (Value.sequence vs) = as_list (texts_of (items vs))
as_strings _ = err Refusal.not_strings

abbrev pub as_string : Value → Result Refusal Value
as_string (Value.text t) = ok (Value.text t)
as_string _ = err Refusal.not_string

abbrev pub coerced : SettingType → Option ℤ → Option ℤ → List Text → Value → Result Refusal Value
coerced SettingType.boolean_type low high allowed v = as_boolean v
coerced SettingType.integer_type low high allowed v = as_integer low high v
coerced SettingType.enum_type low high allowed v = as_option allowed v
coerced SettingType.list_type low high allowed v = as_strings v
coerced SettingType.string_type low high allowed v = as_string v
coerced SettingType.text_type low high allowed v = as_string v

-- `coerce_value`
unfoldable pub coerce_value : ModuleSetting → Value → Result Refusal Value
unfolding texts_of
coerce_value s v = coerced s.kind s.low s.high (values_of s.options) v
