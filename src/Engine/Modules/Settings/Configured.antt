-- ===== src/Engine/Modules/Settings/Configured.antt =====
-- What a module's configuration holds, and that its fields accept it.
use pporlock.Base.{
  ◌≡◌, refl, ◌∙◌, true, Option, none, some, List, [], ◌∷◌, ◌==◌, text_eq, any, find, contains,
  arith, is_some, if◌then◌else◌,
}
use pporlock.Base.Text.{Text}
use pporlock.Base.Dict
use pporlock.Base.Dict.{Dict, NodupKeys, get-set, set_absent, set-NodupKeys}
use pporlock.Engine.Modules.Settings.{ModuleSetting}
use pporlock.Engine.Modules.Settings.Config.{
  Config, update, add_settings, override, effective_config,
}
use pporlock.Engine.Modules.Settings.Declared.{DistinctKeys}

abbrev pub either {ℓ} : {A : Type ℓ} → Option A → Option A → Option A
either none other = other
either (some a) other = some a

-- the setting that a key names
abbrev pub setting_for : Text → List ModuleSetting → Option ModuleSetting
setting_for key ss = find (λ s. s.key == key) ss

get-update :
    (k : Text) (c m : Config)
    → NodupKeys m
    → Dict.get k (update c m) ≡ either (Dict.get k m) (Dict.get k c)
unfolding update Dict.get
get-update k c [] n = refl
get-update k c ((j, v) ∷ m) n =
    get-update k (Dict.set j v c) m n.1 ∙ ground (arith, get-set j k v c, text_eq.beq_iff j k)

get-override :
    (ss : List ModuleSetting) (k : Text) (o c : Config)
    → NodupKeys o
    → Dict.get k (override ss o c)
      ≡ either (if any (λ s. s.key == k) ss then Dict.get k o else none) (Dict.get k c)
unfolding override Dict.get
get-override ss k [] c n = ground arith
get-override ss k ((j, v) ∷ o) c n =
    get-override ss k o (if any (λ s. s.key == j) ss then Dict.set j v c else c) n.1
    ∙ ground (arith, get-set j k v c, text_eq.beq_iff j k)

unseen :
    (seen : List Text) (ss : List ModuleSetting) (k : Text)
    → DistinctKeys seen ss
    → contains seen k ≡ true
    → setting_for k ss ≡ none
unseen seen [] k d h = refl
unseen seen (s ∷ ss) k d h =
    ground (arith, unseen (s.key ∷ seen) ss k d.1, text_eq.beq_iff s.key k, text_eq.beq_iff k s.key)

any-setting_for :
    (k : Text) (ss : List ModuleSetting) → any (λ s. s.key == k) ss ≡ is_some (setting_for k ss)
any-setting_for k [] = refl
any-setting_for k (s ∷ ss) = ground (arith, any-setting_for k ss)

abbrev pub chosen {ℓ} : {V : Type ℓ} → (ModuleSetting → V) → Option ModuleSetting → Option V
chosen f none = none
chosen f (some s) = some (f s)

pub get-add_settings {ℓ} :
    {V : Type ℓ} (f : ModuleSetting → V) (seen : List Text) (ss : List ModuleSetting)
    (d : Dict Text V) (k : Text)
    → DistinctKeys seen ss
    → Dict.get k (add_settings f ss d) ≡ either (chosen f (setting_for k ss)) (Dict.get k d)
unfolding add_settings
get-add_settings f seen [] d k h = refl
get-add_settings f seen (s ∷ ss) d k h =
    get-add_settings f (s.key ∷ seen) ss (Dict.set s.key (f s) d) k h.1
    ∙ ground (
      arith,
      get-set s.key k (f s) d,
      unseen (s.key ∷ seen) ss k h.1,
      text_eq.beq_iff s.key k,
      text_eq.beq_iff k s.key,
    )

-- Where no key stands twice in any of the dicts: a declared key holds what the user set, else what the
-- manifest's `config:` says, else the declared default; another key holds what the manifest says,
-- whatever was set for it.
pub get-effective_config :
    (ss : List ModuleSetting) (manifest overrides : Config) (k : Text)
    → DistinctKeys [] ss
    → NodupKeys manifest
    → NodupKeys overrides
    → Dict.get k (effective_config ss manifest overrides)
      ≡ either
          (if is_some (setting_for k ss) then Dict.get k overrides else none)
          (either (Dict.get k manifest) (chosen (λ s. s.default) (setting_for k ss)))
unfolding effective_config Dict.get
get-effective_config ss manifest overrides k d m o =
    get-override ss k overrides (update (add_settings (λ s. s.default) ss []) manifest) o
    ∙ ground (
      arith,
      any-setting_for k ss,
      get-update k (add_settings (λ s. s.default) ss []) manifest m,
      get-add_settings (λ s. s.default) [] ss [] k d,
    )
