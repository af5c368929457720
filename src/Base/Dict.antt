-- ===== src/Base/Dict.antt =====
-- Python's `dict` and `OrderedDict`: entries in the order of insertion.
use mathlib.Core.Path.{◌≡◌, refl, ◌∙◌}
use mathlib.Core.Bool.{Bool}
use mathlib.Core.List.{List, [], ◌∷◌, ◌++◌}
use mathlib.Core.Option.{Option, none, some}
use native.Mathlib.Omega.{arith}
use pporlock.Base.Tests.{if◌then◌else◌, is_some}
use pporlock.Base.Equality.{Eq, ◌==◌}

abbrev pub Dict {ℓ κ} : Type ℓ → Type κ → Type (ℓ ⊔ κ)
Dict K V = List (K × V)

abbrev pub values {ℓ κ} : {K : Type ℓ} {V : Type κ} → Dict K V → List V
values [] = []
values ((_, v) ∷ d) = v ∷ values d

abbrev pub keys {ℓ κ} : {K : Type ℓ} {V : Type κ} → Dict K V → List K
keys [] = []
keys ((k, _) ∷ d) = k ∷ keys d

module _ {ℓ κ} {K : Type ℓ} {V : Type κ} ⦃e : Eq K⦄ where
  -- `d.get(k)`
  unfoldable pub get : K → Dict K V → Option V
  get k [] = none
  get k ((j, v) ∷ d) = if j == k then some v else get k d

  -- `k in d`
  abbrev pub has : K → Dict K V → Bool
  has k d = is_some (get k d)

  -- `d[k] = v`: a key that is there keeps its place
  unfoldable pub set : K → V → Dict K V → Dict K V
  set k v [] = (k, v) ∷ []
  set k v ((j, w) ∷ d) = if j == k then (j, v) ∷ d else (j, w) ∷ set k v d

  -- `del d[k]`, `d.pop(k, None)`. Every entry of the key goes; a dict has at most one.
  unfoldable pub remove : K → Dict K V → Dict K V
  remove k [] = []
  remove k ((j, w) ∷ d) = let rest = remove k d in if j == k then rest else (j, w) ∷ rest

  -- no key stands twice
  abbrev pub NodupKeys : Dict K V → Type κ
  NodupKeys [] = Unit
  NodupKeys ((k, _) ∷ d) = (get k d ≡ none) × NodupKeys d

  pub get-set :
      (k j : K) (v : V) (d : Dict K V) → get j (set k v d) ≡ (if k == j then some v else get j d)
  unfolding get set
  get-set k j v [] = refl
  get-set k j v ((i, w) ∷ d) =
      ground (arith, e.beq_iff k j, e.beq_iff i k, e.beq_iff i j, get-set k j v d)

  pub get-remove :
      (k j : K) (d : Dict K V) → get j (remove k d) ≡ (if k == j then none else get j d)
  unfolding get remove
  get-remove k j [] = ground arith
  get-remove k j ((i, w) ∷ d) =
      ground (arith, e.beq_iff k j, e.beq_iff i k, e.beq_iff i j, get-remove k j d)

  pub get-append :
      (k : K) (c d : Dict K V) → get k (c ++ d) ≡ (if has k c then get k c else get k d)
  unfolding get
  get-append k [] d = refl
  get-append k ((i, w) ∷ c) d = ground (arith, get-append k c d)

  pub set_absent : (k : K) (v : V) (d : Dict K V) → get k d ≡ none → set k v d ≡ d ++ (k, v) ∷ []
  unfolding get set
  set_absent k v [] h = refl
  set_absent k v ((i, w) ∷ d) h = ground (arith, set_absent k v d)

  pub remove_absent : (k : K) (d : Dict K V) → get k d ≡ none → remove k d ≡ d
  unfolding get remove
  remove_absent k [] h = refl
  remove_absent k ((i, w) ∷ d) h = ground (arith, remove_absent k d)

  pub set-NodupKeys : (k : K) (v : V) (d : Dict K V) → NodupKeys d → NodupKeys (set k v d)
  unfolding get set
  set-NodupKeys k v [] h = (refl, tt)
  set-NodupKeys k v ((i, w) ∷ d) h =
      ground (arith, e.beq_iff i k, e.beq_iff k i, get-set k i v d, set-NodupKeys k v d h.1)

  pub remove-NodupKeys : (k : K) (d : Dict K V) → NodupKeys d → NodupKeys (remove k d)
  unfolding get remove
  remove-NodupKeys k [] h = tt
  remove-NodupKeys k ((i, w) ∷ d) h =
      ground (arith, e.beq_iff k i, get-remove k i d, remove-NodupKeys k d h.1)

  pub get-remove_same : (k : K) (d : Dict K V) → get k (remove k d) ≡ none
  get-remove_same k d = get-remove k k d ∙ ground (arith, e.beq_iff k k)

  pub get-set_same : (k : K) (v : V) (d : Dict K V) → get k (set k v d) ≡ some v
  get-set_same k v d = get-set k k v d ∙ ground (arith, e.beq_iff k k)
