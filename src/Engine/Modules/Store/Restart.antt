-- ===== src/Engine/Modules/Store/Restart.antt =====
-- What a restart finds: the sidecar holds what the running store does.
use pporlock.Base.{
  ◌≡◌, refl, ap, ◌∙◌, Bool, true, false, not, Option, none, some, List, [], ◌∷◌, text_eq, contains,
  Eq, any, Bool-cases, inl, inr,
}
use pporlock.Base.Text.{Text}
use pporlock.Base.Dict
use pporlock.Base.Dict.{Dict, keys, NodupKeys, get-set, get-remove, set-NodupKeys, remove-NodupKeys}
use pporlock.Engine.Modules.Store.{
  Loaded, ModuleStateStore, Row, UserState, is_current, new_store, of_loaded, prune, put, read_row,
  read_rows, remove_all, save, stale, to_dict, write,
}
use pporlock.Engine.Modules.Store.Rows.{
  found, found-row_of, get-read_rows, get-to_dict, given, to_dict-NodupKeys,
}

module _ {File Config : Type 0} ⦃config_eq : Eq Config⦄ (empty : Config)
    (loads : File → Loaded Config) (dumps : Dict Text (Row Config) → File) where
  abbrev pub Store : Type 0
  Store = ModuleStateStore File Config

  -- no module stands twice, and unless the file could not be read or written a store that is made of
  -- the file has, for every module, the state that this one has
  abbrev pub IsSaved : Store → Type 0
  IsSaved st =
      NodupKeys st.state
      × (st.failed ≡ false
          → (k : Text)
          → Dict.get k (new_store empty loads dumps st.file).state ≡ Dict.get k st.state)

  put-NodupKeys :
      (name : Text) (o : Option (UserState Config)) (d : Dict Text (UserState Config))
      → NodupKeys d
      → NodupKeys (put empty loads dumps name o d)
  put-NodupKeys name none d n = n
  put-NodupKeys name (some s) d n = set-NodupKeys name s d n

  read_rows-NodupKeys :
      (rows : Dict Text (Option (Row Config))) (parsed : Dict Text (UserState Config))
      → NodupKeys parsed
      → NodupKeys (read_rows empty loads dumps rows parsed)
  unfolding read_rows
  read_rows-NodupKeys [] parsed n = n
  read_rows-NodupKeys ((name, row) ∷ rows) parsed n =
      read_rows-NodupKeys rows _ (put-NodupKeys name (read_row empty loads dumps row) parsed n)

  remove_all-NodupKeys :
      (names : List Text) (d : Dict Text (UserState Config))
      → NodupKeys d
      → NodupKeys (remove_all empty loads dumps names d)
  unfolding remove_all
  remove_all-NodupKeys [] d n = n
  remove_all-NodupKeys (name ∷ names) d n =
      remove_all-NodupKeys names (Dict.remove name d) (remove-NodupKeys name d n)

  loaded-IsSaved :
      (file : File) (l : Loaded Config)
      → NodupKeys (of_loaded empty loads dumps file l).state
        × ((of_loaded empty loads dumps file l).file ≡ some file)
  loaded-IsSaved file Loaded.unreadable = (tt, refl)
  loaded-IsSaved file Loaded.no_object = (tt, refl)
  loaded-IsSaved file (Loaded.rows rows) = (read_rows-NodupKeys rows [] tt, refl)

  pub new_store-IsSaved : (file : Option File) → IsSaved (new_store empty loads dumps file)
  unfolding new_store
  new_store-IsSaved none = (tt, λ _ k. refl)
  new_store-IsSaved (some file) =
      let r = loaded-IsSaved file (loads file) in
      (r.0, λ _ k. ap (λ f. Dict.get k (new_store empty loads dumps f).state) r.1)

  module _
      (json : (d : Dict Text (UserState Config))
        → NodupKeys d
        → loads (dumps (to_dict empty loads dumps d))
          ≡ Loaded.rows (given (to_dict empty loads dumps d))) where
    get-saved :
        (k : Text) (d : Dict Text (UserState Config))
        → NodupKeys d
        → Dict.get k
            (new_store empty loads dumps (some (dumps (to_dict empty loads dumps d)))).state
          ≡ Dict.get k d
    unfolding new_store Dict.get
    get-saved k d n =
        ap
          (λ l.
            Dict.get k (of_loaded empty loads dumps (dumps (to_dict empty loads dumps d)) l).state)
          (json d n)
        ∙ get-read_rows empty loads dumps k (to_dict empty loads dumps d) []
            (to_dict-NodupKeys empty loads dumps d n)
        ∙ ap (λ o. found empty loads dumps o none) (get-to_dict empty loads dumps k d n)
        ∙ found-row_of empty loads dumps (Dict.get k d)

    save-IsSaved :
        (ok : Bool) (st : Store) → NodupKeys st.state → IsSaved (save empty loads dumps ok st)
    unfolding save
    save-IsSaved true st n = (n, λ _ k. get-saved k st.state n)
    save-IsSaved false st n = (n, λ f. absurd (cc f))

    pub write-IsSaved :
        (ok : Bool) (name : Text) (new : UserState Config) (st : Store)
        → IsSaved st
        → IsSaved (write empty loads dumps ok name new st)
    write-IsSaved ok name new st h =
        elim (Bool-cases (is_current empty loads dumps (Dict.get name st.state) new)) [
          | inl b ↦ rw b h
          | inr b ↦ rw b (
              save-IsSaved ok (record st { state = Dict.set name new st.state })
                (set-NodupKeys name new st.state h.0))
        ]

    pub prune-IsSaved :
        (ok : Bool) (known : List Text) (st : Store)
        → IsSaved st
        → IsSaved (prune empty loads dumps ok known st)
    unfolding prune
    prune-IsSaved ok known st h =
        elim (Bool-cases (any (λ name. not (contains known name)) (keys st.state))) [
          | inl b ↦ rw b (
              save-IsSaved ok
                (record st {
                  state =
                      remove_all empty loads dumps (stale empty loads dumps known st.state)
                        st.state;
                })
                (remove_all-NodupKeys (stale empty loads dumps known st.state) st.state h.0))
          | inr b ↦ rw b h
        ]
