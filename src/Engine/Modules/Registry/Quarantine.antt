-- ===== src/Engine/Modules/Registry/Quarantine.antt =====
-- When a module is quarantined, and what lifts it.
use pporlock.Base.{
  ℕ, zero, suc, ◌+◌, ◌<◌, ◌≡◌, refl, sym, subst, ap, ◌∙◌, true, false, Option, some, List, ◌==◌,
  text_eq, ltb, if◌then◌else◌, arith, Option-cases, ◌≢◌, inl, inr,
}
use pporlock.Base.Text.{Text}
use pporlock.Base.Dict
use pporlock.Base.Dict.{Dict, get-set}
use pporlock.Engine.Provenance.{Builder}
use pporlock.Engine.Modules.Registry.{
  LoadedModule, ModuleRegistry, ModuleState, change, fail, record_failure, set_enabled, enable,
  quarantine, in_profile, runs,
}

abbrev pub get_module : Text → ModuleRegistry → Option LoadedModule
get_module name r = Dict.get name r.modules

get-change :
    (name other : Text) (f : LoadedModule → LoadedModule) (r : ModuleRegistry) (m : LoadedModule)
    → get_module name r ≡ some m
    → get_module other (change name f r)
      ≡ (if name == other then some (f m) else get_module other r)
unfolding change
get-change name other f r m h = rw (h, change) (get-set name other (f m) r.modules)

-- the registry after `n` more failures in a row, whatever the builders
unfoldable pub fail_times : Text → Text → ℕ → ModuleRegistry → Builder → ModuleRegistry × Builder
fail_times now name zero r b = (r, b)
fail_times now name (suc n) r b =
    let done = record_failure now name r b in fail_times now name n done.0 done.1

record_failure_lem :
    (now name : Text) (r : ModuleRegistry) (b : Builder) (m : LoadedModule)
    → get_module name r ≡ some m
    → (record_failure now name r b).0 ≡ change name (fail now r.quarantine_after) r
unfolding record_failure
record_failure_lem now name r b m h = rw (h, record_failure) refl

-- the module after `n` failures more
abbrev pub Failed : ℕ → ℕ → LoadedModule → LoadedModule → Type 0
Failed after n m m' =
    (m'.failures ≡ m.failures + n)
    × (m'.enabled ≡ m.enabled)
    × (m'.state
        ≡ (if ltb (m.failures + n) after then ModuleState.loaded else ModuleState.quarantined))

-- a state that its count of failures explains
abbrev pub Counted : ℕ → LoadedModule → Type 0
Counted after m =
    m.state ≡ (if ltb m.failures after then ModuleState.loaded else ModuleState.quarantined)

fail_lem :
    (now : Text) (after : ℕ) (m : LoadedModule)
    → Counted after m
    → Failed after 1 m (fail now after m)
unfolding fail quarantine
fail_lem now after m c = ground arith

kept_after :
    (name : Text) (f : LoadedModule → LoadedModule) (r : ModuleRegistry)
    → (change name f r).quarantine_after ≡ r.quarantine_after
unfolding change
kept_after name f r = elim (Option-cases (Dict.get name r.modules)) [
  | inl e ↦ rw (e, change) refl
  | inr (m, e) ↦ rw (e, change) refl
]

failed_once :
    (now name : Text) (r : ModuleRegistry) (b : Builder) (m : LoadedModule)
    → get_module name r ≡ some m
    → get_module name (record_failure now name r b).0 ≡ some (fail now r.quarantine_after m)
failed_once now name r b m h =
    ap (get_module name) (record_failure_lem now name r b m h)
    ∙ get-change name name (fail now r.quarantine_after) r m h
    ∙ ground (arith, text_eq.beq_iff name name)

others_kept :
    (now name other : Text) (n : ℕ) (r : ModuleRegistry) (b : Builder) (m : LoadedModule)
    → other ≢ name
    → get_module name r ≡ some m
    → get_module other (fail_times now name n r b).0 ≡ get_module other r
unfolding fail_times
others_kept now name other zero r b m d h = refl
others_kept now name other (suc n) r b m d h =
    others_kept now name other n _ (record_failure now name r b).1 _ d
      (failed_once now name r b m h)
    ∙ ap (get_module other) (record_failure_lem now name r b m h)
    ∙ get-change name other (fail now r.quarantine_after) r m h
    ∙ ground (arith, text_eq.beq_iff name other)

fails_lem :
    (now name : Text) (after n : ℕ) (r : ModuleRegistry) (b : Builder) (m : LoadedModule)
    → r.quarantine_after ≡ after
    → get_module name r ≡ some m
    → Counted after m
    → (m' : LoadedModule) × (get_module name (fail_times now name n r b).0 ≡ some m')
      × Failed after n m m'
unfolding fail_times
fails_lem now name after zero r b m a h c = (m, h, (ground arith, refl, ground arith))
fails_lem now name after (suc n) r b m a h c =
    let m₁ = fail now r.quarantine_after m in
    let one = fail_lem now r.quarantine_after m (subst (λ k. Counted k m) (sym a) c) in
    let rest =
      fails_lem now name after n (record_failure now name r b).0 (record_failure now name r b).1 m₁
        (ap (λ s. s.quarantine_after) (record_failure_lem now name r b m h)
          ∙ kept_after name (fail now r.quarantine_after) r
          ∙ a)
        (failed_once now name r b m h) (ground (arith, one.0, one.2)) in
    (
      rest.0,
      rest.1,
      (ground (arith, one.0, rest.2.0), rest.2.1 ∙ one.1, ground (arith, one.0, rest.2.2)),
    )

-- A loaded module that has failed less often in a row than the threshold is, after `n` more
-- failures, still enabled and in the registry, and it is quarantined exactly when its failures have
-- reached the threshold; every other module is as it was.
pub quarantine_exact :
    (now name : Text) (n : ℕ) (r : ModuleRegistry) (b : Builder) (m : LoadedModule)
    → get_module name r ≡ some m
    → m.state ≡ ModuleState.loaded
    → m.failures < r.quarantine_after
    → ((m' : LoadedModule) × (get_module name (fail_times now name n r b).0 ≡ some m')
        × Failed r.quarantine_after n m m')
      × ((other : Text)
          → other ≢ name
          → get_module other (fail_times now name n r b).0 ≡ get_module other r)
quarantine_exact now name n r b m h loaded few = (
  fails_lem now name r.quarantine_after n r b m refl h (ground arith),
  λ other d. others_kept now name other n r b m d h,
)

enable_lem :
    (profile : Option (List Text)) (m : LoadedModule)
    → m.state ≡ ModuleState.quarantined
    → in_profile profile m.name ≡ true
    → (runs profile (enable true m) ≡ true) × ((enable true m).failures ≡ 0)
unfolding enable
enable_lem profile m q p = ground (arith, p, q)

disable_lem :
    (profile : Option (List Text)) (m : LoadedModule) → runs profile (enable false m) ≡ false
unfolding enable
disable_lem profile m = ground arith

-- Enabling a quarantined module that the profile names makes it run again, with no failure
-- counted against it; disabling any module stops it.
pub set_enabled_lem :
    (name : Text) (profile : Option (List Text)) (r : ModuleRegistry) (m : LoadedModule)
    → get_module name r ≡ some m
    → m.name ≡ name
    → m.state ≡ ModuleState.quarantined
    → in_profile profile name ≡ true
    → ((m' : LoadedModule) × (get_module name (set_enabled name true r) ≡ some m')
        × (runs profile m' ≡ true)
        × (m'.failures ≡ 0))
      × ((m' : LoadedModule) × (get_module name (set_enabled name false r) ≡ some m')
          × (runs profile m' ≡ false))
unfolding set_enabled
set_enabled_lem name profile r m h named q p = (
  (
    enable true m,
    get-change name name (enable true) r m h ∙ ground (arith, text_eq.beq_iff name name),
    (enable_lem profile m q (ap (in_profile profile) named ∙ p)).0,
    (enable_lem profile m q (ap (in_profile profile) named ∙ p)).1,
  ),
  (
    enable false m,
    get-change name name (enable false) r m h ∙ ground (arith, text_eq.beq_iff name name),
    disable_lem profile m,
  ),
)
