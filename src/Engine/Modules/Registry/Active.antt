-- ===== src/Engine/Modules/Registry/Active.antt =====
-- Which modules run, and in which order.
use pporlock.Base.{
  ℕ, ◌≤◌, ◌≡◌, refl, ap, fun_ext, ◌∙◌, Bool, true, false, ◌&&◌, Option, List, [], ◌∷◌, filter,
  length, All, arith, Bool-cases, inl, inr,
}
use pporlock.Base.Text.{Text}
use pporlock.Base.Dict.{values}
use pporlock.Engine.Modules.Registry.{
  LoadedModule, ModuleRegistry, insert_module, sort_modules, modules_of, active, runs, module_le,
  ModuleState, in_profile, is_loaded,
}

abbrev pub Rising : List LoadedModule → Type 0
Rising [] = Unit
Rising (m ∷ ms) = All (λ n. m.priority ≤ n.priority) ms × Rising ms

count : (LoadedModule → Bool) → List LoadedModule → ℕ
count test ms = length (filter test ms)

count-insert :
    (test : LoadedModule → Bool) (m : LoadedModule) (ms : List LoadedModule)
    → count test (insert_module m ms) ≡ count test (m ∷ ms)
unfolding insert_module count
count-insert test m [] = refl
count-insert test m (n ∷ ms) = elim (Bool-cases (module_le m n)) [
  | inl e ↦ rw e refl
  | inr e ↦ rw e (ground (arith, count-insert test m ms))
]

count-sort :
    (test : LoadedModule → Bool) (ms : List LoadedModule)
    → count test (sort_modules ms) ≡ count test ms
unfolding sort_modules count
count-sort test [] = refl
count-sort test (m ∷ ms) =
    count-insert test m (sort_modules ms) ∙ ground (arith, count-sort test ms)

count-filter :
    (keep test : LoadedModule → Bool) (ms : List LoadedModule)
    → count test (filter keep ms) ≡ count (λ m. keep m && test m) ms
unfolding count
count-filter keep test [] = refl
count-filter keep test (m ∷ ms) = ground (arith, count-filter keep test ms)

above :
    (a b : LoadedModule) (ms : List LoadedModule)
    → a.priority ≤ b.priority
    → All (λ n. b.priority ≤ n.priority) ms
    → All (λ n. a.priority ≤ n.priority) ms
above a b [] h k = tt
above a b (n ∷ ms) h k = (omega (arith, h, k.0), above a b ms h k.1)

All-insert :
    (P : LoadedModule → Type 0) (m : LoadedModule) (ms : List LoadedModule)
    → P m
    → All P ms
    → All P (insert_module m ms)
unfolding insert_module
All-insert P m [] p h = (p, tt)
All-insert P m (n ∷ ms) p h = elim (Bool-cases (module_le m n)) [
  | inl e ↦ rw e (p, h)
  | inr e ↦ rw e (h.0, All-insert P m ms p h.1)
]

le_priority : (m n : LoadedModule) → module_le m n ≡ true → m.priority ≤ n.priority
le_priority m n h = ground arith

not_le_priority : (m n : LoadedModule) → module_le m n ≡ false → n.priority ≤ m.priority
not_le_priority m n h = ground arith

insert-Rising :
    (m : LoadedModule) (ms : List LoadedModule) → Rising ms → Rising (insert_module m ms)
unfolding insert_module
insert-Rising m [] r = (tt, tt)
insert-Rising m (n ∷ ms) r = elim (Bool-cases (module_le m n)) [
  | inl e ↦ rw e ((le_priority m n e, above m n ms (le_priority m n e) r.0), r)
  | inr e ↦ rw e (All-insert _ m ms (not_le_priority m n e) r.0, insert-Rising m ms r.1)
]

sort-Rising : (ms : List LoadedModule) → Rising (sort_modules ms)
unfolding sort_modules
sort-Rising [] = tt
sort-Rising (m ∷ ms) = insert-Rising m (sort_modules ms) (sort-Rising ms)

All-filter :
    (P : LoadedModule → Type 0) (test : LoadedModule → Bool) (ms : List LoadedModule)
    → All P ms
    → All P (filter test ms)
All-filter P test [] h = tt
All-filter P test (m ∷ ms) h = elim (Bool-cases (test m)) [
  | inl e ↦ rw e (h.0, All-filter P test ms h.1)
  | inr e ↦ rw e (All-filter P test ms h.1)
]

filter-Rising :
    (test : LoadedModule → Bool) (ms : List LoadedModule) → Rising ms → Rising (filter test ms)
filter-Rising test [] r = tt
filter-Rising test (m ∷ ms) r = elim (Bool-cases (test m)) [
  | inl e ↦ rw e (All-filter _ test ms r.0, filter-Rising test ms r.1)
  | inr e ↦ rw e (filter-Rising test ms r.1)
]

filter-runs :
    (test : LoadedModule → Bool) (ms : List LoadedModule)
    → All (λ m. test m ≡ true) (filter test ms)
filter-runs test [] = tt
filter-runs test (m ∷ ms) = elim (Bool-cases (test m)) [
  | inl e ↦ rw e (e, filter-runs test ms)
  | inr e ↦ rw e (filter-runs test ms)
]

-- loaded, enabled, and in the profile if there is one
abbrev pub Active : Option (List Text) → LoadedModule → Type 0
Active profile m =
    (m.state ≡ ModuleState.loaded) × (m.enabled ≡ true) × (in_profile profile m.name ≡ true)

-- and its test
abbrev pub is_active : Option (List Text) → LoadedModule → Bool
is_active profile m = is_loaded m.state && (m.enabled && in_profile profile m.name)

loaded_lem : (s : ModuleState) → is_loaded s ≡ true → s ≡ ModuleState.loaded
loaded_lem ModuleState.loaded h = refl
loaded_lem ModuleState.load_error h = cc
loaded_lem ModuleState.quarantined h = cc

runs_lem : (profile : Option (List Text)) (m : LoadedModule) → runs profile m ≡ is_active profile m
runs_lem profile m = ground arith

runs-Active :
    (profile : Option (List Text)) (m : LoadedModule) → runs profile m ≡ true → Active profile m
runs-Active profile m h =
    (loaded_lem m.state (ground (arith, h)), ground (arith, h), ground (arith, h))

All-runs :
    (profile : Option (List Text)) (ms : List LoadedModule)
    → All (λ m. runs profile m ≡ true) ms
    → All (Active profile) ms
All-runs profile [] h = tt
All-runs profile (m ∷ ms) h = (runs-Active profile m h.0, All-runs profile ms h.1)

-- The active modules are in order of priority, each of them is loaded, enabled and in the profile,
-- if there is one, and of the modules of the registry that are, none is left out and none stands
-- twice: whatever the test, as many active modules pass it as modules of the registry that are
-- loaded, enabled and in the profile and pass it.
pub active_lem :
    (profile : Option (List Text)) (r : ModuleRegistry)
    → Rising (active profile r)
      × All (Active profile) (active profile r)
      × ((test : LoadedModule → Bool)
          → length (filter test (active profile r))
            ≡ length (filter (λ m. is_active profile m && test m) (values r.modules)))
unfolding active modules_of count
active_lem profile r = (
  filter-Rising (runs profile) _ (sort-Rising (values r.modules)),
  All-runs profile _ (filter-runs (runs profile) (sort_modules (values r.modules))),
  λ test.
      count-filter (runs profile) test (sort_modules (values r.modules))
      ∙ count-sort (λ m. runs profile m && test m) (values r.modules)
      ∙ ap (λ (f : LoadedModule → Bool). length (filter (λ m. f m && test m) (values r.modules)))
          (fun_ext (runs_lem profile)),
)
