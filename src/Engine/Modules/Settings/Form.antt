-- ===== src/Engine/Modules/Settings/Form.antt =====
-- `ModuleRegistry.set_config` (engine/modules/registry.py): the form that a user sends for a module.
-- Of a module its settings, the manifest's `config:` and the overrides are held, of its context the
-- configuration, of the state store (Engine.Modules.Store) the overrides of each module. The module's
-- own `on_config` is not modelled.
use pporlock.Base.{
  ◌≡◌, refl, sym, ap, ◌∙◌, subst, Option, none, some, List, [], ◌∷◌, ◌++◌, ◌==◌, text_eq, arith,
  inl, inr, ◌⊎◌, ◌≢◌, Bool-cases,
}
use pporlock.Base.Text.{Text}
use pporlock.Base.Dict
use pporlock.Base.Dict.{Dict, NodupKeys, get-set_same}
use pporlock.Base.Result.{Result, ok, err}
use pporlock.Base.Values.{Value, Fields, fields}
use pporlock.Engine.Modules.Settings.{ModuleSetting, Refusal, coerce_value}
use pporlock.Engine.Modules.Settings.Parse.{parse_settings}
use pporlock.Engine.Modules.Settings.Config.{
  accept, Checked, Config, ConfigError, check_field, check_fields, coerce_config, effective_config,
}
use pporlock.Engine.Modules.Settings.Declared.{parse_settings-IsDeclared}
use pporlock.Engine.Modules.Settings.Configured.{setting_for}
use pporlock.Engine.Modules.Settings.Accepted.{
  effective_config-accepted, get-known_by, known_by, settled,
}

-- what `LoadedModule` holds of a module's configuration
pub record ConfiguredModule : Type 0 where
  pub settings : List ModuleSetting
  pub config : Config
  pub config_overrides : Config

-- `ModuleRegistry`: `_modules`, `_contexts` and `state`
pub record ConfigRegistry : Type 0 where
  pub modules : Dict Text ConfiguredModule
  pub contexts : Dict Text Config
  pub saved : Dict Text Config

-- `LoadedModule.effective_config`
abbrev pub config_of : ConfiguredModule → Config
config_of m = effective_config m.settings m.config m.config_overrides

-- the context of that name, where there is one
abbrev pub set_context : Text → Config → Option Config → Dict Text Config → Dict Text Config
set_context name config none contexts = contexts
set_context name config (some _) contexts = Dict.set name config contexts

-- `set_config` once the form was checked
abbrev pub apply_form :
    Text → ConfiguredModule → Checked → ConfigRegistry → ConfigRegistry × List ConfigError
apply_form name m (accepted, e ∷ errors) r = (r, e ∷ errors)
apply_form name m (accepted, []) r =
    let changed = record m { config_overrides = accepted } in
    (
      record {
        modules = Dict.set name changed r.modules;
        saved = Dict.set name accepted r.saved;
        contexts = set_context name (config_of changed) (Dict.get name r.contexts) r.contexts;
      },
      [],
    )

abbrev pub configure :
    Text → Value → ConfigRegistry → Option ConfiguredModule → ConfigRegistry × List ConfigError
configure name values r none = (r, [])
configure name values r (some m) = apply_form name m (coerce_config m.settings values) r

-- `ModuleRegistry.set_config`, with the rejected fields
unfoldable pub set_config : Text → Value → ConfigRegistry → ConfigRegistry × List ConfigError
unfolding coerce_config effective_config Dict.get Dict.set
set_config name values r = configure name values r (Dict.get name r.modules)

-- what was proposed for a setting comes to that value; where nothing was, it is the default
abbrev pub Proposed : ModuleSetting → Option Value → Value → Type 0
Proposed s none v = v ≡ s.default
Proposed s (some w) v = coerce_value s w ≡ ok v

-- what a module's context held before it is replaced; where there is none, none is made
abbrev pub replaced_by : Config → Option Config → Option Config
replaced_by config none = none
replaced_by config (some _) = some config

-- The form was applied: the overrides are replaced, in the module and in the state store, the context
-- has the configuration that they give, and the declared field holds what was proposed.
pub record Applied (name : Text) (m : ConfiguredModule) (form : Config) (key : Text)
    (s : ModuleSetting) (r : ConfigRegistry) (q : ConfigRegistry) : Type 0 where
  pub accepted : Config
  pub in_module : Dict.get name q.modules ≡ some (record m { config_overrides = accepted })
  pub in_state : Dict.get name q.saved ≡ some accepted
  pub in_context :
      Dict.get name q.contexts
      ≡ replaced_by
          (config_of (record m { config_overrides = accepted }))
          (Dict.get name r.contexts)
  pub value : Value
  pub held : Dict.get key (config_of (record m { config_overrides = accepted })) ≡ some value
  pub proposed : Proposed s (Dict.get key form) value
  pub accepts : coerce_value s value ≡ ok value

never_empty : {A : Type 0} (xs : List A) (x : A) → xs ++ x ∷ [] ≡ [] → ⊥
never_empty [] x h = absurd (cc h)
never_empty (y ∷ xs) x h = absurd (cc h)

no_refusal :
    (given key : Text) (r : Result Refusal Value) (c : Checked)
    → (accept given key r c).1 ≡ []
    → (c.1 ≡ []) × (w : Value) × (r ≡ ok w)
no_refusal given key (ok w) (accepted, errors) h = (h, w, refl)
no_refusal given key (err why) (accepted, errors) h =
    absurd (never_empty errors (ConfigError.rejected given why) h)

-- a field that leaves no error is declared and accepted, and there was none before
abbrev Passes : Option ModuleSetting → Value → Type 0
Passes o v = (s : ModuleSetting) × (o ≡ some s) × (w : Value) × (coerce_value s v ≡ ok w)

field_passed :
    (o : Option ModuleSetting) (key : Text) (v : Value) (c : Checked)
    → (check_field o key v c).1 ≡ []
    → (c.1 ≡ []) × Passes o v
field_passed none key v (accepted, errors) h =
    absurd (never_empty errors (ConfigError.not_declared key) h)
field_passed (some s) key v c h =
    let (before, w, e) = no_refusal key s.key (coerce_value s v) c h in (before, (s, refl, w, e))

errors_before :
    (known : Dict Text ModuleSetting) (fs : Config) (c : Checked)
    → (check_fields known fs c).1 ≡ []
    → c.1 ≡ []
unfolding check_fields
errors_before known [] c h = h
errors_before known ((j, v) ∷ fs) c h =
    (field_passed (Dict.get j known) j v c
      (errors_before known fs (check_field (Dict.get j known) j v c) h)).0

fields_passed :
    (known : Dict Text ModuleSetting) (fs : Config) (c : Checked) (k : Text) (w : Value)
    → (check_fields known fs c).1 ≡ []
    → Dict.get k fs ≡ some w
    → Passes (Dict.get k known) w
unfolding check_fields Dict.get
fields_passed known [] c k w h g = absurd (cc g)
fields_passed known ((j, v) ∷ fs) c k w h g = elim (Bool-cases (j == k)) [
  | inl b ↦
      let here : v ≡ w = ground (arith, b, g) in
      subst (λ (i : Text). Passes (Dict.get i known) w) ((text_eq.beq_iff j k).0 b)
        (subst (λ (x : Value). Passes (Dict.get j known) x) here
          (field_passed (Dict.get j known) j v c
            (errors_before known fs (check_field (Dict.get j known) j v c) h)).1)
  | inr b ↦
      fields_passed known fs (check_field (Dict.get j known) j v c) k w h (ground (arith, b, g))
]

Proposed-settled :
    (s : ModuleSetting) (o : Option Value)
    → ((w : Value) → o ≡ some w → Passes (some s) w)
    → Proposed s o (settled s o)
Proposed-settled s none h = refl
Proposed-settled s (some w) h =
    let (t, same, v, e) = h w refl in
    let of_s : coerce_value s w ≡ ok v = cc (same, e) in rw of_s refl

set_context_get :
    (name : Text) (config : Config) (o : Option Config) (contexts : Dict Text Config)
    → Dict.get name contexts ≡ o
    → Dict.get name (set_context name config o contexts) ≡ replaced_by config o
set_context_get name config none contexts h = h
set_context_get name config (some c) contexts h = get-set_same name config contexts

-- a form is refused with errors and nothing changes, or applied without
abbrev Settled :
    Text
    → ConfiguredModule
    → Fields
    → Text
    → ModuleSetting
    → ConfigRegistry
    → ConfigRegistry × List ConfigError
    → Type 0
Settled name m form key s r done =
    ((done.1 ≢ []) × (done.1 ≡ (coerce_config m.settings (Value.mapping form)).1) × (done.0 ≡ r))
    ⊎ ((done.1 ≡ []) × Applied name m (fields form) key s r done.0)

module _ (repr : Value → Text) (raw : Value) (name : Text) (m : ConfiguredModule) (form : Fields)
    (key : Text) (s : ModuleSetting) (r : ConfigRegistry)
    (parsed : parse_settings repr raw ≡ ok m.settings) (once : NodupKeys (fields form))
    (manifest_once : NodupKeys m.config) (declared : setting_for key m.settings ≡ some s)
    (unset : Dict.get key m.config ≡ none) where
  all_passed :
      (coerce_config m.settings (Value.mapping form)).1 ≡ []
      → (w : Value) → Dict.get key (fields form) ≡ some w
      → Passes (some s) w
  unfolding coerce_config
  all_passed h w g =
      subst (λ (o : Option ModuleSetting). Passes o w)
        (get-known_by m.settings key (parse_settings-IsDeclared repr raw m.settings parsed).1
          ∙ declared)
        (fields_passed (known_by m.settings) (fields form) ([], []) key w h g)

  applied_lem :
      (c : Checked)
      → coerce_config m.settings (Value.mapping form) ≡ c
      → Settled name m form key s r (apply_form name m c r)
  applied_lem (accepted, e ∷ errors) h = inl ((λ n. absurd (cc n)), sym (ap (λ c. c.1) h), refl)
  applied_lem (accepted, []) h =
      let settles =
        effective_config-accepted repr raw m.settings form m.config key s parsed once manifest_once
          declared unset in
      inr (
        refl,
        record {
          accepted = accepted;
          in_module = get-set_same name (record m { config_overrides = accepted }) r.modules;
          in_state = get-set_same name accepted r.saved;
          in_context =
              set_context_get name (config_of (record m { config_overrides = accepted }))
                (Dict.get name r.contexts) r.contexts refl;
          value = settled s (Dict.get key (fields form));
          held = rw h at settles.0;
          proposed = Proposed-settled s (Dict.get key (fields form)) (all_passed (ap (λ c. c.1) h));
          accepts = settles.1;
        },
      )

-- A form that a user sends for a module of the registry is refused as a whole or applied as a
-- whole. Either some field is in error: the errors are those of the check, and the registry is as
-- it was. Or none is: the module's overrides are replaced, in the module and in the state store; a
-- context that there is holds the configuration that they give; and in that, a declared field that
-- the manifest's `config:` does not set holds the value proposed for it as its setting accepts it,
-- or its default when none was proposed, and its setting accepts what it holds, as it is. The
-- settings are parsed ones, and no key may stand twice in the form or in the manifest.
pub set_config_lem :
    (repr : Value → Text) (raw : Value) (name : Text) (m : ConfiguredModule) (form : Fields)
    (key : Text) (s : ModuleSetting) (r : ConfigRegistry)
    → parse_settings repr raw ≡ ok m.settings
    → NodupKeys (fields form)
    → NodupKeys m.config
    → setting_for key m.settings ≡ some s
    → Dict.get key m.config ≡ none
    → Dict.get name r.modules ≡ some m
    → (((set_config name (Value.mapping form) r).1 ≢ [])
        × ((set_config name (Value.mapping form) r).1
            ≡ (coerce_config m.settings (Value.mapping form)).1)
        × ((set_config name (Value.mapping form) r).0 ≡ r))
      ⊎ (((set_config name (Value.mapping form) r).1 ≡ [])
          × Applied name m (fields form) key s r (set_config name (Value.mapping form) r).0)
unfolding set_config
set_config_lem repr raw name m form key s r parsed once manifest_once declared unset loaded =
    rw loaded (
      applied_lem repr raw name m form key s r parsed once manifest_once declared unset
        (coerce_config m.settings (Value.mapping form)) refl)
