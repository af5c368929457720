-- ===== src/Engine/Modules/Settings/Accepted.antt =====
-- The configuration of a module whose settings were parsed and whose form was checked.
use pporlock.Base.{
  ◌≡◌, refl, sym, ap, ◌∙◌, subst, Option, none, some, List, [], ◌∷◌, ◌==◌, text_eq, All, arith,
  or_else, length, inl, inr, Bool-cases,
}
use pporlock.Base.Text.{Text}
use pporlock.Base.Dict
use pporlock.Base.Dict.{Dict, NodupKeys}
use pporlock.Base.Result.{Result, ok, err}
use pporlock.Base.Values.{Value, Fields, fields}
use pporlock.Engine.Modules.Settings.{ModuleSetting, Refusal, coerce_value}
use pporlock.Engine.Modules.Settings.Parse.{parse_settings}
use pporlock.Engine.Modules.Settings.Config.{Config, add_settings, coerce_config, effective_config}
use pporlock.Engine.Modules.Settings.Coerced.{coerce_value_idem}
use pporlock.Engine.Modules.Settings.Declared.{IsDeclared, DistinctKeys, parse_settings-IsDeclared}
use pporlock.Engine.Modules.Settings.Configured.{
  either, setting_for, get-add_settings, get-effective_config,
}
use pporlock.Engine.Modules.Settings.Checked.{
  Apart, Keyed, checked_value, passed, size, check_fields_get, check_fields-NodupKeys,
  size-check_fields,
}

abbrev pub known_by : List ModuleSetting → Dict Text ModuleSetting
known_by ss = add_settings (λ s. s) ss []

either-none : (o : Option Value) → either o none ≡ o
either-none none = refl
either-none (some v) = refl

pub get-known_by :
    (ss : List ModuleSetting) (k : Text)
    → DistinctKeys [] ss
    → Dict.get k (known_by ss) ≡ setting_for k ss
unfolding Dict.get
get-known_by ss k d = get-add_settings (λ s. s) [] ss [] k d ∙ ground arith

setting_for_key :
    (k : Text) (ss : List ModuleSetting) (s : ModuleSetting) → setting_for k ss ≡ some s → s.key ≡ k
setting_for_key k [] s h = cc
setting_for_key k (t ∷ ss) s h = elim (Bool-cases (t.key == k)) [
  | inl b ↦ ground (arith, text_eq.beq_iff t.key k)
  | inr b ↦ setting_for_key k ss s (ground arith)
]

known_by-Keyed : (ss : List ModuleSetting) → DistinctKeys [] ss → Keyed (known_by ss)
unfolding Keyed
known_by-Keyed ss d k s h = setting_for_key k ss s (sym (get-known_by ss k d) ∙ h)

-- A proposed configuration comes to the fields that are declared and that their settings accept, as
-- these accept them, and every field that was proposed is either among them or counted as an error.
-- No key may stand twice, in the settings or in what is proposed.
pub coerce_config_lem :
    (ss : List ModuleSetting) (fs : Fields) (k : Text)
    → DistinctKeys [] ss
    → NodupKeys (fields fs)
    → (Dict.get k (coerce_config ss (Value.mapping fs)).0
        ≡ checked_value (setting_for k ss) (Dict.get k (fields fs)))
      × (size (coerce_config ss (Value.mapping fs)) ≡ length (fields fs))
unfolding coerce_config Apart Dict.get
coerce_config_lem ss fs k d n = (
  check_fields_get (known_by ss) (fields fs) k ([], []) (known_by-Keyed ss d) n
      ∙ either-none (checked_value (Dict.get k (known_by ss)) (Dict.get k (fields fs)))
      ∙ ap (λ o. checked_value o (Dict.get k (fields fs))) (get-known_by ss k d),
  omega (
    arith,
    size-check_fields (known_by ss) (fields fs) ([], []) (known_by-Keyed ss d) n (λ k. inr refl),
  ),
)

-- what a setting makes of the value that was proposed for it, or its default
abbrev pub settled : ModuleSetting → Option Value → Value
settled s v = or_else (checked_value (some s) v) s.default

settled-accepted :
    (s : ModuleSetting) (v : Option Value)
    → coerce_value s s.default ≡ ok s.default
    → coerce_value s (settled s v) ≡ ok (settled s v)
settled-accepted s none h = h
settled-accepted s (some v) h = go (coerce_value s v) refl
  where
    go :
        (r : Result Refusal Value)
        → coerce_value s v ≡ r
        → coerce_value s (or_else (passed r) s.default) ≡ ok (or_else (passed r) s.default)
    go (ok w) e = coerce_value_idem s v w e
    go (err why) e = h

All-setting_for :
    (ss : List ModuleSetting) (k : Text) (s : ModuleSetting)
    → All IsDeclared ss
    → setting_for k ss ≡ some s
    → IsDeclared s
All-setting_for [] k s a h = cc
All-setting_for (t ∷ ss) k s a h = elim (Bool-cases (t.key == k)) [
  | inl b ↦ subst IsDeclared (ground arith) (a.0)
  | inr b ↦ All-setting_for ss k s a.1 (ground arith)
]

coerce_config-NodupKeys :
    (ss : List ModuleSetting) (fs : Fields) → NodupKeys (coerce_config ss (Value.mapping fs)).0
unfolding coerce_config
coerce_config-NodupKeys ss fs = check_fields-NodupKeys (known_by ss) (fields fs) ([], []) tt

settled_some : (o : Option Value) (v : Value) → either o (some v) ≡ some (or_else o v)
settled_some none v = refl
settled_some (some w) v = refl

-- With what is kept of a proposed configuration, a declared field that the manifest's `config:` does
-- not set holds the value proposed for it as its setting accepts it, or its default when none was
-- proposed or it was refused; and its setting accepts what it holds, as it is.
pub effective_config-accepted :
    (repr : Value → Text) (raw : Value) (ss : List ModuleSetting) (fs : Fields) (manifest : Config)
    (k : Text) (s : ModuleSetting)
    → parse_settings repr raw ≡ ok ss
    → NodupKeys (fields fs)
    → NodupKeys manifest
    → setting_for k ss ≡ some s
    → Dict.get k manifest ≡ none
    → (Dict.get k (effective_config ss manifest (coerce_config ss (Value.mapping fs)).0)
        ≡ some (settled s (Dict.get k (fields fs))))
      × (coerce_value s (settled s (Dict.get k (fields fs)))
          ≡ ok (settled s (Dict.get k (fields fs))))
effective_config-accepted repr raw ss fs manifest k s parsed n m e g =
    let (all, d) = parse_settings-IsDeclared repr raw ss parsed in
    let accepted = (coerce_config ss (Value.mapping fs)).0 in
    (
      get-effective_config ss manifest accepted k d m (coerce_config-NodupKeys ss fs)
          ∙ rw (e, g, (coerce_config_lem ss fs k d n).0, e)
              (settled_some (checked_value (some s) (Dict.get k (fields fs))) s.default),
      settled-accepted s (Dict.get k (fields fs)) (All-setting_for ss k s all e).default,
    )
