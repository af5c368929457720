-- ===== src/Engine/Modules/Settings/Config.antt =====
-- `coerce_config` and `effective_config` (engine/modules/settings.py): a proposed configuration is
-- checked against a module's settings, and `ctx.config` is made of the declared defaults, the
-- manifest's `config:` and what the user set.
use pporlock.Base.{Option, none, some, List, [], ◌∷◌, ◌++◌, ◌==◌, text_eq, any, if◌then◌else◌}
use pporlock.Base.Text.{Text}
use pporlock.Base.Dict
use pporlock.Base.Dict.{Dict}
use pporlock.Base.Result.{Result, ok, err}
use pporlock.Base.Values.{Value, fields}
use pporlock.Engine.Modules.Settings.{ModuleSetting, Refusal, coerce_value}

-- the texts in the error list of `coerce_config`
pub data ConfigError : Type 0 where
  not_an_object : ConfigError
  not_declared : Text → ConfigError
  rejected : Text → Refusal → ConfigError

abbrev pub Config : Type 0
Config = Dict Text Value

-- `dict.update`
unfoldable pub update : Config → Config → Config
update config [] = config
update config ((key, v) ∷ rest) = update (Dict.set key v config) rest

-- `{s.key: f(s) for s in settings}`, on top of a dict
unfoldable pub add_settings {ℓ} :
    {V : Type ℓ} → (ModuleSetting → V) → List ModuleSetting → Dict Text V → Dict Text V
add_settings f [] d = d
add_settings f (s ∷ ss) d = add_settings f ss (Dict.set s.key (f s) d)

abbrev pub Checked : Type 0
Checked = Config × List ConfigError

abbrev pub accept : Text → Text → Result Refusal Value → Checked → Checked
accept given key (ok v) (accepted, errors) = (Dict.set key v accepted, errors)
accept given key (err why) (accepted, errors) =
    (accepted, errors ++ ConfigError.rejected given why ∷ [])

abbrev pub check_field : Option ModuleSetting → Text → Value → Checked → Checked
check_field none key v (accepted, errors) = (accepted, errors ++ ConfigError.not_declared key ∷ [])
check_field (some s) key v checked = accept key s.key (coerce_value s v) checked

-- the loop of `coerce_config`
unfoldable pub check_fields : Dict Text ModuleSetting → Config → Checked → Checked
unfolding coerce_value
check_fields known [] checked = checked
check_fields known ((key, v) ∷ rest) checked =
    check_fields known rest (check_field (Dict.get key known) key v checked)

-- `coerce_config`
unfoldable pub coerce_config : List ModuleSetting → Value → Checked
unfolding add_settings check_fields
coerce_config settings (Value.mapping fs) =
    check_fields (add_settings (λ s. s) settings []) (fields fs) ([], [])
coerce_config settings _ = ([], ConfigError.not_an_object ∷ [])

-- the loop of `effective_config`
unfoldable pub override : List ModuleSetting → Config → Config → Config
override settings [] config = config
override settings ((key, v) ∷ rest) config =
    let known = any (λ s. s.key == key) settings in
    override settings rest (if known then Dict.set key v config else config)

-- `effective_config`; no overrides are the same as an empty dict
unfoldable pub effective_config : List ModuleSetting → Config → Config → Config
unfolding add_settings update override
effective_config settings manifest overrides =
    override settings overrides (update (add_settings (λ s. s.default) settings []) manifest)
