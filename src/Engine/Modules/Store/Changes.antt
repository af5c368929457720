-- ===== src/Engine/Modules/Store/Changes.antt =====
-- Any sequence of changes to the sidecar, and what each leaves of the modules' state.
use pporlock.Base.{
  ◌≡◌, refl, sym, ap, ap₂, ◌∙◌, subst, Bool, true, false, not, ◌&&◌, Option, none, some, List, [],
  ◌∷◌, ◌==◌, text_eq, contains, filter, if◌then◌else◌, Eq, any, arith, Bool-cases, inl, inr,
}
use pporlock.Base.Int.{ℤ, int_eq}
use pporlock.Base.Text.{Text}
use pporlock.Base.Dict
use pporlock.Base.Dict.{Dict, keys, NodupKeys, get-set, get-remove}
use pporlock.Engine.Modules.Store.{
  Loaded, ModuleStateStore, Row, UserState, is_current, kept_config, new_store, prune, reconfigured,
  remove_all, same_flag, same_state, save, set, set_config, stale, to_dict, write,
}
use pporlock.Engine.Modules.Store.Rows.{given}
use pporlock.Engine.Modules.Store.Restart.{IsSaved, new_store-IsSaved, prune-IsSaved, write-IsSaved}

-- a change, with whether its write goes through
pub data Change (Config : Type 0) : Type 0 where
  enablement : Bool → Text → Bool → ℤ → Change Config
  settings : Bool → Text → Config → Change Config
  pruning : Bool → List Text → Change Config

module _ {File Config : Type 0} ⦃config_eq : Eq Config⦄ (empty : Config)
    (loads : File → Loaded Config) (dumps : Dict Text (Row Config) → File) where
  abbrev pub change : Change Config → ModuleStateStore File Config → ModuleStateStore File Config
  change (Change.enablement ok name enabled priority) st =
      set empty loads dumps ok name enabled priority st
  change (Change.settings ok name config) st = set_config empty loads dumps ok name config st
  change (Change.pruning ok known) st = prune empty loads dumps ok known st

  abbrev pub changed :
      List (Change Config) → ModuleStateStore File Config → ModuleStateStore File Config
  changed [] st = st
  changed (c ∷ cs) st = changed cs (change c st)

  module _
      (json : (d : Dict Text (UserState Config))
        → NodupKeys d
        → loads (dumps (to_dict empty loads dumps d))
          ≡ Loaded.rows (given (to_dict empty loads dumps d))) where
    change-IsSaved :
        (c : Change Config) (st : ModuleStateStore File Config)
        → IsSaved empty loads dumps st
        → IsSaved empty loads dumps (change c st)
    unfolding set set_config
    change-IsSaved (Change.enablement ok name enabled priority) st h =
        write-IsSaved empty loads dumps json ok name
          (record {
            enabled = enabled;
            priority = priority;
            config = kept_config empty loads dumps (Dict.get name st.state);
          })
          st h
    change-IsSaved (Change.settings ok name config) st h =
        write-IsSaved empty loads dumps json ok name
          (reconfigured empty loads dumps (Dict.get name st.state) config) st h
    change-IsSaved (Change.pruning ok known) st h =
        prune-IsSaved empty loads dumps json ok known st h

    all-IsSaved :
        (cs : List (Change Config)) (st : ModuleStateStore File Config)
        → IsSaved empty loads dumps st
        → IsSaved empty loads dumps (changed cs st)
    all-IsSaved [] st h = h
    all-IsSaved (c ∷ cs) st h = all-IsSaved cs (change c st) (change-IsSaved c st h)

    -- Whatever the sidecar held at the start and however modules are then enabled, ordered, set up and
    -- pruned, a restart finds for every module the state that the store has, unless a read or a write
    -- of the file has failed, and then the error is set. What reading JSON makes of the rows that were
    -- written is those rows.
    pub changed-IsSaved :
        (file : Option File) (cs : List (Change Config))
        → IsSaved empty loads dumps (changed cs (new_store empty loads dumps file))
    changed-IsSaved file cs =
        all-IsSaved cs (new_store empty loads dumps file) (new_store-IsSaved empty loads dumps file)

  state-save :
      (ok : Bool) (st : ModuleStateStore File Config)
      → (save empty loads dumps ok st).state ≡ st.state
  unfolding save
  state-save true st = refl
  state-save false st = refl

  same_flag_lem : (a b : Bool) → same_flag a b ≡ true → a ≡ b
  same_flag_lem true b h = sym h
  same_flag_lem false true h = absurd (cc h)
  same_flag_lem false false h = refl

  same_state_lem : (a b : UserState Config) → same_state empty loads dumps a b ≡ true → a ≡ b
  same_state_lem a b h =
      let p : same_flag a.enabled b.enabled ≡ true = ground (arith, h) in
      let q : (a.priority == b.priority) ≡ true = ground (arith, h) in
      let r : (a.config == b.config) ≡ true = ground (arith, h) in
      ap (λ e. record a { enabled = e }) (same_flag_lem a.enabled b.enabled p)
      ∙ ap₂ (λ n c. record { enabled = b.enabled; priority = n; config = c })
          ((int_eq.beq_iff a.priority b.priority).0 q) ((config_eq.beq_iff a.config b.config).0 r)

  current_lem :
      (o : Option (UserState Config)) (new : UserState Config)
      → is_current empty loads dumps o new ≡ true
      → o ≡ some new
  current_lem none new h = absurd (cc h)
  current_lem (some current) new h = ap some (same_state_lem current new h)

  kept_as_is :
      (k name : Text) (new : UserState Config) (d : Dict Text (UserState Config))
      → Dict.get name d ≡ some new
      → Dict.get k d ≡ (if name == k then some new else Dict.get k d)
  kept_as_is k name new d h = elim (Bool-cases (name == k)) [
    | inl b ↦ rw b (subst (λ n. Dict.get n d ≡ some new) ((text_eq.beq_iff name k).0 b) h)
    | inr b ↦ rw b refl
  ]

  get-write :
      (ok : Bool) (k name : Text) (new : UserState Config) (st : ModuleStateStore File Config)
      → Dict.get k (write empty loads dumps ok name new st).state
        ≡ (if name == k then some new else Dict.get k st.state)
  get-write ok k name new st =
      elim (Bool-cases (is_current empty loads dumps (Dict.get name st.state) new)) [
        | inl b ↦ rw b (kept_as_is k name new st.state (current_lem (Dict.get name st.state) new b))
        | inr b ↦ rw b (
            ap (Dict.get k) (state-save ok (record st { state = Dict.set name new st.state }))
            ∙ get-set name k new st.state)
      ]

  get-remove_all :
      (k : Text) (names : List Text) (d : Dict Text (UserState Config))
      → Dict.get k (remove_all empty loads dumps names d)
        ≡ (if contains names k then none else Dict.get k d)
  unfolding remove_all
  get-remove_all k [] d = refl
  get-remove_all k (name ∷ names) d =
      get-remove_all k names (Dict.remove name d) ∙ ground (arith, get-remove name k d)

  contains_same :
      (known : List Text) (name k : Text)
      → (name == k) ≡ true
      → contains known name ≡ contains known k
  contains_same known name k h = ap (contains known) ((text_eq.beq_iff name k).0 h)

  contains-filter :
      (k : Text) (known names : List Text)
      → contains (filter (λ name. not (contains known name)) names) k
        ≡ (contains names k && not (contains known k))
  contains-filter k known [] = refl
  contains-filter k known (name ∷ names) = elim (Bool-cases (contains known name)) [
    | inl b ↦ rw b (ground (arith, contains-filter k known names, contains_same known name k, b))
    | inr b ↦ rw b (ground (arith, contains-filter k known names, contains_same known name k, b))
  ]

  get_absent :
      (k : Text) (d : Dict Text (UserState Config))
      → contains (keys d) k ≡ false
      → Dict.get k d ≡ none
  unfolding Dict.get
  get_absent k [] h = refl
  get_absent k ((name, s) ∷ d) h = ground (arith, get_absent k d)

  get-stale :
      (k : Text) (known : List Text) (d : Dict Text (UserState Config))
      → (if contains (stale empty loads dumps known d) k then none else Dict.get k d)
        ≡ (if contains known k then Dict.get k d else none)
  get-stale k known d = rw (contains-filter k known (keys d)) (ground (arith, get_absent k d))

  none_stale :
      (k : Text) (known : List Text) (d : Dict Text (UserState Config))
      → any (λ name. not (contains known name)) (keys d) ≡ false
      → Dict.get k d ≡ (if contains known k then Dict.get k d else none)
  unfolding Dict.get
  none_stale k known [] h = ground arith
  none_stale k known ((name, s) ∷ d) h =
      ground (arith, none_stale k known d, contains_same known name k)

  get-prune :
      (ok : Bool) (k : Text) (known : List Text) (st : ModuleStateStore File Config)
      → Dict.get k (prune empty loads dumps ok known st).state
        ≡ (if contains known k then Dict.get k st.state else none)
  unfolding prune
  get-prune ok k known st =
      elim (Bool-cases (any (λ name. not (contains known name)) (keys st.state))) [
        | inl b ↦ rw b (
            ap (Dict.get k) (
              state-save ok (record st {
                state =
                    remove_all empty loads dumps (stale empty loads dumps known st.state) st.state;
              }))
            ∙ get-remove_all k (stale empty loads dumps known st.state) st.state
            ∙ get-stale k known st.state)
        | inr b ↦ rw b (none_stale k known st.state b)
      ]

  -- what a change makes of the state of the module k
  abbrev pub expected :
      Text
      → Change Config
      → Option (UserState Config)
      → Option (UserState Config)
      → Option (UserState Config)
  expected k (Change.enablement ok name enabled priority) own old =
      if name == k
      then some (record {
        enabled = enabled;
        priority = priority;
        config = kept_config empty loads dumps own;
      })
      else old
  expected k (Change.settings ok name config) own old =
      if name == k then some (reconfigured empty loads dumps own config) else old
  expected k (Change.pruning ok known) own old = if contains known k then old else none

  -- the module that a change is about
  abbrev pub target : Change Config → Text → Text
  target (Change.enablement ok name enabled priority) k = name
  target (Change.settings ok name config) k = name
  target (Change.pruning ok known) k = k

  -- Whether or not its write goes through, and also where nothing changes and no write is made:
  -- enabling or ordering a module sets just that and keeps its settings, its settings are replaced with
  -- the rest kept, a module that is not there gets a row, pruning drops the modules that are not known,
  -- and every other module's state is as it was.
  pub get-change :
      (k : Text) (c : Change Config) (st : ModuleStateStore File Config)
      → Dict.get k (change c st).state
        ≡ expected k c (Dict.get (target c k) st.state) (Dict.get k st.state)
  unfolding set set_config
  get-change k (Change.enablement ok name enabled priority) st =
      get-write ok k name
        (record {
          enabled = enabled;
          priority = priority;
          config = kept_config empty loads dumps (Dict.get name st.state);
        })
        st
  get-change k (Change.settings ok name config) st =
      get-write ok k name (reconfigured empty loads dumps (Dict.get name st.state) config) st
  get-change k (Change.pruning ok known) st = get-prune ok k known st
