-- ===== src/Engine/Modules/Settings/Checked.antt =====
-- What a proposed configuration comes to, field by field.
use pporlock.Base.{
  ℕ, suc, ◌+◌, ◌≡◌, refl, sym, ap, ◌∙◌, Option, none, some, List, [], ◌∷◌, ◌==◌, text_eq, arith,
  if◌then◌else◌, length, length-append, ◌⊎◌, inl, inr, Bool-cases, Option-cases,
}
use pporlock.Base.Text.{Text}
use pporlock.Base.Dict
use pporlock.Base.Dict.{Dict, NodupKeys, get-set, set_absent, set-NodupKeys}
use pporlock.Base.Result.{Result, ok, err}
use pporlock.Base.Values.{Value}
use pporlock.Engine.Modules.Settings.{ModuleSetting, Refusal, coerce_value}
use pporlock.Engine.Modules.Settings.Config.{
  Config, ConfigError, Checked, accept, check_field, check_fields,
}
use pporlock.Engine.Modules.Settings.Configured.{either}

abbrev pub passed : Result Refusal Value → Option Value
passed (ok v) = some v
passed (err why) = none

-- what is left of a value that was proposed for a setting
abbrev pub checked_value : Option ModuleSetting → Option Value → Option Value
checked_value none v = none
checked_value (some s) none = none
checked_value (some s) (some v) = passed (coerce_value s v)

-- a dict of settings under their own keys
unfoldable pub Keyed : Dict Text ModuleSetting → Type 0
Keyed known = (k : Text) (s : ModuleSetting) → Dict.get k known ≡ some s → s.key ≡ k

-- no key of the one is a key of the other
unfoldable pub Apart : Config → Config → Type 0
Apart fs accepted = (k : Text) → (Dict.get k fs ≡ none) ⊎ (Dict.get k accepted ≡ none)

accept_get :
    (s : ModuleSetting) (k j : Text) (v : Value) (acc : Config) (errs : List ConfigError)
    → s.key ≡ j
    → Dict.get k (accept j s.key (coerce_value s v) (acc, errs)).0 ≡ (
        if j == k
        then either (checked_value (some s) (some v)) (Dict.get k acc)
        else Dict.get k acc)
accept_get s k j v acc errs e = go (coerce_value s v)
  where
    go :
        (r : Result Refusal Value)
        → Dict.get k (accept j s.key r (acc, errs)).0
          ≡ (if j == k then either (passed r) (Dict.get k acc) else Dict.get k acc)
    go (ok w) = get-set s.key k w acc ∙ ground (arith, e)
    go (err why) = ground arith

check_field_get :
    (known : Dict Text ModuleSetting) (k j : Text) (v : Value) (c : Checked)
    → Keyed known
    → Dict.get k (check_field (Dict.get j known) j v c).0 ≡ (
        if j == k
        then either (checked_value (Dict.get j known) (some v)) (Dict.get k c.0)
        else Dict.get k c.0)
unfolding Keyed
check_field_get known k j v c keyed = elim (Option-cases (Dict.get j known)) [
  | inl e ↦ rw e (ground arith)
  | inr e ↦ rw (e.1) (accept_get e.0 k j v c.0 c.1 (keyed j e.0 e.1))
]

checked_none : (o : Option ModuleSetting) → checked_value o none ≡ none
checked_none none = refl
checked_none (some s) = refl

pub check_fields_get :
    (known : Dict Text ModuleSetting) (fs : Config) (k : Text) (c : Checked)
    → Keyed known
    → NodupKeys fs
    → Dict.get k (check_fields known fs c).0
      ≡ either (checked_value (Dict.get k known) (Dict.get k fs)) (Dict.get k c.0)
unfolding check_fields Dict.get
check_fields_get known [] k c keyed n = rw (checked_none (Dict.get k known)) refl
check_fields_get known ((j, v) ∷ fs) k c keyed n =
    check_fields_get known fs k (check_field (Dict.get j known) j v c) keyed n.1
    ∙ ap (either (checked_value (Dict.get k known) (Dict.get k fs)))
        (check_field_get known k j v c keyed)
    ∙ elim (Bool-cases (j == k)) [
      | inl b ↦ rw (b, sym ((text_eq.beq_iff j k).0 b), n.0, checked_none (Dict.get j known)) refl
      | inr b ↦ rw b refl
    ]

check_field-NodupKeys :
    (o : Option ModuleSetting) (j : Text) (v : Value) (c : Checked)
    → NodupKeys c.0
    → NodupKeys (check_field o j v c).0
check_field-NodupKeys none j v c n = n
check_field-NodupKeys (some s) j v c n = go (coerce_value s v)
  where
    go : (r : Result Refusal Value) → NodupKeys (accept j s.key r c).0
    go (ok w) = set-NodupKeys s.key w c.0 n
    go (err why) = n

pub check_fields-NodupKeys :
    (known : Dict Text ModuleSetting) (fs : Config) (c : Checked)
    → NodupKeys c.0
    → NodupKeys (check_fields known fs c).0
unfolding check_fields
check_fields-NodupKeys known [] c n = n
check_fields-NodupKeys known ((j, v) ∷ fs) c n =
    check_fields-NodupKeys known fs (check_field (Dict.get j known) j v c)
      (check_field-NodupKeys (Dict.get j known) j v c n)

abbrev pub size : Checked → ℕ
size c = length c.0 + length c.1

length-set :
    (k : Text) (v : Value) (d : Config)
    → Dict.get k d ≡ none
    → length (Dict.set k v d) ≡ suc (length d)
length-set k v d e = rw (set_absent k v d e) (omega (arith, length-append d ((k, v) ∷ [])))

size-check_field :
    (known : Dict Text ModuleSetting) (j : Text) (v : Value) (c : Checked)
    → Keyed known
    → Dict.get j c.0 ≡ none
    → size (check_field (Dict.get j known) j v c) ≡ suc (size c)
unfolding Keyed
size-check_field known j v c keyed e = go (Dict.get j known) (keyed j)
  where
    done :
        (s : ModuleSetting) (r : Result Refusal Value)
        → s.key ≡ j
        → size (accept j s.key r c) ≡ suc (size c)
    done s (ok w) q = omega (arith, length-set s.key w c.0 (ap (λ k. Dict.get k c.0) q ∙ e))
    done s (err why) q = omega (arith, length-append c.1 (ConfigError.rejected j why ∷ []))

    go :
        (o : Option ModuleSetting)
        → ((s : ModuleSetting) → o ≡ some s → s.key ≡ j)
        → size (check_field o j v c) ≡ suc (size c)
    go none q = omega (arith, length-append c.1 (ConfigError.not_declared j ∷ []))
    go (some s) q = done s (coerce_value s v) (q s refl)

Apart-check_field :
    (known : Dict Text ModuleSetting) (j : Text) (v : Value) (fs : Config) (c : Checked)
    → Keyed known
    → NodupKeys ((j, v) ∷ fs)
    → Apart ((j, v) ∷ fs) c.0
    → Apart fs (check_field (Dict.get j known) j v c).0
unfolding Apart Dict.get
Apart-check_field known j v fs c keyed n apart k = elim (Bool-cases (j == k)) [
  | inl b ↦ inl (rw (sym ((text_eq.beq_iff j k).0 b)) (n.0))
  | inr b ↦ ground (arith, apart k, check_field_get known k j v c keyed)
]

first-Apart :
    (j : Text) (v : Value) (fs accepted : Config)
    → Apart ((j, v) ∷ fs) accepted
    → Dict.get j accepted ≡ none
unfolding Apart Dict.get
first-Apart j v fs accepted a = ground (arith, a j, text_eq.beq_iff j j)

pub size-check_fields :
    (known : Dict Text ModuleSetting) (fs : Config) (c : Checked)
    → Keyed known
    → NodupKeys fs
    → Apart fs c.0
    → size (check_fields known fs c) ≡ size c + length fs
unfolding check_fields
size-check_fields known [] c keyed n apart = omega arith
size-check_fields known ((j, v) ∷ fs) c keyed n apart = omega (
  arith,
  size-check_fields known fs (check_field (Dict.get j known) j v c) keyed n.1
      (Apart-check_field known j v fs c keyed n apart),
  size-check_field known j v c keyed (first-Apart j v fs c.0 apart),
)
