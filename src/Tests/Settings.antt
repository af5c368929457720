-- ===== src/Tests/Settings.antt =====
-- Tests and examples on the settings of a module (engine/modules/settings.py).
use pporlock.Base.{
  ◌≡◌, ◌≢◌, ◌⊎◌, refl, true, none, some, List, [], ◌∷◌, ◌++◌, text_eq, All, length, is_some,
  if◌then◌else◌,
}
use pporlock.Base.Text.{Text, codes}
use pporlock.Base.Dict
use pporlock.Base.Result.{ok, err}
use pporlock.Base.Values.{Value, Items, Fields, fields}
use pporlock.Engine.Modules.Settings.{SettingType, SettingOption, ModuleSetting}
use pporlock.Engine.Modules.Settings.Parse.{SettingsError, key_matches, parse_settings}
use pporlock.Engine.Modules.Settings.Config.{coerce_config, effective_config}
use pporlock.Engine.Modules.Settings.Declared
use pporlock.Engine.Modules.Settings.Configured
use pporlock.Engine.Modules.Settings.Checked
use pporlock.Engine.Modules.Settings.Accepted
use pporlock.Engine.Modules.Settings.Form.{
  Applied, ConfigRegistry, ConfiguredModule, set_config, set_config_lem,
}

abbrev words : Value → Text
words v = codes "value"

abbrev mode_entry : Value
mode_entry = Value.mapping (
    Fields.field (codes "key") (Value.text (codes "mode")) (
      Fields.field (codes "type") (Value.text (codes "enum")) (
        Fields.field (codes "options")
          (Value.sequence (
            Items.item (Value.text (codes "off")) (Items.item (Value.text (codes "on")) Items.nil)))
          Fields.end)))

abbrev names_entry : Value
names_entry = Value.mapping (
    Fields.field (codes "key") (Value.text (codes "names"))
      (Fields.field (codes "type") (Value.text (codes "string_list")) Fields.end))

abbrev block : Value
block = Value.sequence (Items.item mode_entry (Items.item names_entry Items.nil))

abbrev choice : Text → SettingOption
choice t = record { value = t; label = t; description = [] }

abbrev mode : ModuleSetting
mode = record {
  key = codes "mode";
  kind = SettingType.enum_type;
  label = codes "mode";
  description = [];
  default = Value.text (codes "off");
  options = choice (codes "off") ∷ choice (codes "on") ∷ [];
  placeholder = [];
  low = none;
  high = none;
}

abbrev names : ModuleSetting
names = record {
  key = codes "names";
  kind = SettingType.list_type;
  label = codes "names";
  description = [];
  default = Value.sequence Items.nil;
  options = [];
  placeholder = [];
  low = none;
  high = none;
}

abbrev settings : List ModuleSetting
settings = mode ∷ names ∷ []

block_parsed : parse_settings words block ≡ ok settings
unfolding parse_settings text_eq Dict.get
block_parsed = refl

-- a form with a list that is trimmed, a choice that there is not, and a field that there is not
abbrev form : Fields
form =
    Fields.field (codes "names")
      (Value.sequence
        (Items.item (Value.text (codes " a ")) (Items.item (Value.text (codes " ")) Items.nil)))
      (Fields.field (codes "mode") (Value.text (codes "loud"))
        (Fields.field (codes "level") (Value.boolean true) Fields.end))

form_distinct : Dict.NodupKeys (fields form)
unfolding Dict.get text_eq
form_distinct = (refl, (refl, (refl, tt)))

-- a final line feed is let through by the `$` of the pattern
key_with_line_feed : key_matches (codes "mode" ++ 10 ∷ []) ≡ true
unfolding key_matches
key_with_line_feed = refl

-- a type that is a list has no hash
type_of_list :
    parse_settings words (
      Value.sequence (
        Items.item
          (Value.mapping (
            Fields.field
              (codes "key")
              (Value.text (codes "mode"))
              (Fields.field (codes "type") (Value.sequence Items.nil) Fields.end)))
          Items.nil))
    ≡ err (SettingsError.unhashable (codes "mode"))
unfolding parse_settings text_eq Dict.get
type_of_list = refl

no_manifest : Dict.get {V = Value} (codes "mode") [] ≡ none
unfolding Dict.get
no_manifest = refl

-- a form that is accepted, and the registry that it is sent to
abbrev good_form : Fields
good_form = Fields.field (codes "mode") (Value.text (codes "on")) (
    Fields.field (codes "names") (Value.sequence (Items.item (Value.text (codes " a ")) Items.nil))
      Fields.end)

good_form_distinct : Dict.NodupKeys (fields good_form)
unfolding Dict.get text_eq
good_form_distinct = (refl, (refl, tt))

abbrev filter_module : ConfiguredModule
filter_module = record { settings = settings; config = []; config_overrides = [] }

abbrev config_registry : ConfigRegistry
config_registry = record {
  modules = (codes "filter", filter_module) ∷ [];
  contexts = (codes "filter", []) ∷ [];
  saved = [];
}

filter_loaded : Dict.get (codes "filter") config_registry.modules ≡ some filter_module
unfolding Dict.get text_eq
filter_loaded = refl

good_form_applied : (set_config (codes "filter") (Value.mapping good_form) config_registry).1 ≡ []
unfolding set_config text_eq
good_form_applied = refl

-- one value of the form is bad, and none is kept
bad_form_refused :
    (set_config (codes "filter") (Value.mapping form) config_registry).0 ≡ config_registry
unfolding set_config text_eq
bad_form_refused = refl

set_config_lem_example :
    (((set_config (codes "filter") (Value.mapping good_form) config_registry).1 ≢ [])
      × ((set_config (codes "filter") (Value.mapping good_form) config_registry).1
          ≡ (coerce_config settings (Value.mapping good_form)).1)
      × ((set_config (codes "filter") (Value.mapping good_form) config_registry).0
          ≡ config_registry))
    ⊎ (((set_config (codes "filter") (Value.mapping good_form) config_registry).1 ≡ [])
        × Applied
            (codes "filter")
            filter_module
            (fields good_form)
            (codes "mode")
            mode
            config_registry
            (set_config (codes "filter") (Value.mapping good_form) config_registry).0)
unfolding text_eq
set_config_lem_example =
    set_config_lem words block (codes "filter") filter_module good_form (codes "mode") mode
      config_registry block_parsed good_form_distinct tt refl no_manifest filter_loaded

parse_settings-IsDeclared_example :
    All Declared.IsDeclared settings × Declared.DistinctKeys [] settings
parse_settings-IsDeclared_example =
    Declared.parse_settings-IsDeclared words block settings block_parsed

distinct : Declared.DistinctKeys [] settings
unfolding text_eq
distinct = (refl, (refl, tt))

-- of three fields one is kept
coerce_config_lem_example :
    (Dict.get (codes "names") (coerce_config settings (Value.mapping form)).0
      ≡ Checked.checked_value
          (Configured.setting_for (codes "names") settings)
          (Dict.get (codes "names") (fields form)))
    × (Checked.size (coerce_config settings (Value.mapping form)) ≡ length (fields form))
coerce_config_lem_example =
    Accepted.coerce_config_lem settings form (codes "names") distinct form_distinct

-- an override for a field that is not declared is passed over
get-effective_config_example :
    Dict.get (codes "level") (effective_config settings [] (fields form))
    ≡ Configured.either
        (if is_some (Configured.setting_for (codes "level") settings)
          then Dict.get (codes "level") (fields form)
          else none)
        (Configured.either
          (Dict.get {V = Value} (codes "level") [])
          (Configured.chosen (λ s. s.default) (Configured.setting_for (codes "level") settings)))
get-effective_config_example =
    Configured.get-effective_config settings [] (fields form) (codes "level") distinct tt
      form_distinct
