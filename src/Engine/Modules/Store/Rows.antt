-- ===== src/Engine/Modules/Store/Rows.antt =====
-- The rows that a store writes, and what reading them back gives (engine/modules/state.py).
use pporlock.Base.{
  ◌≡◌, refl, sym, ap, ◌∙◌, subst, Option, none, some, [], ◌∷◌, ◌==◌, text_eq, if◌then◌else◌, Eq,
  arith, Bool-cases, inl, inr,
}
use pporlock.Base.Text.{Text}
use pporlock.Base.Dict
use pporlock.Base.Dict.{Dict, keys, NodupKeys, get-set, get-remove, set-NodupKeys, remove-NodupKeys}
use pporlock.Engine.Modules.Store.{
  Loaded, Row, UserState, insert_row, put, read_row, read_rows, row_of, to_dict,
}

module _ {Config : Type 0} where
  -- the rows of a file as they are read back
  abbrev pub given : Dict Text (Row Config) → Dict Text (Option (Row Config))
  given [] = []
  given ((name, row) ∷ d) = (name, some row) ∷ given d

module _ {File Config : Type 0} ⦃config_eq : Eq Config⦄ (empty : Config)
    (loads : File → Loaded Config) (dumps : Dict Text (Row Config) → File) where
  read_row-row_of :
      (s : UserState Config)
      → read_row empty loads dumps (some (row_of empty loads dumps s)) ≡ some s
  read_row-row_of s = elim (Bool-cases (s.config == empty)) [
    | inl b ↦
        rw b
          (ap (λ c. some (record s { config = c })) (sym ((config_eq.beq_iff s.config empty).0 b)))
    | inr b ↦ rw b refl
  ]

  abbrev pub as_row : Option (UserState Config) → Option (Row Config)
  as_row none = none
  as_row (some s) = some (row_of empty loads dumps s)

  get-insert_row :
      (k name : Text) (row : Row Config) (d : Dict Text (Row Config))
      → Dict.get name d ≡ none
      → Dict.get k (insert_row empty loads dumps name row d) ≡ Dict.get k ((name, row) ∷ d)
  unfolding insert_row Dict.get
  get-insert_row k name row [] h = refl
  get-insert_row k name row ((n, r) ∷ d) h = ground (
    arith,
    text_eq.beq_iff name k,
    text_eq.beq_iff n k,
    text_eq.beq_iff n name,
    get-insert_row k name row d,
  )

  get-insert_row_first :
      (name : Text) (row : Row Config) (d : Dict Text (Row Config))
      → NodupKeys d
      → Dict.get name d ≡ none
      → NodupKeys (insert_row empty loads dumps name row d)
  unfolding insert_row Dict.get
  get-insert_row_first name row [] n h = (refl, tt)
  get-insert_row_first name row ((m, r) ∷ d) n h = ground (
    arith,
    text_eq.beq_iff name m,
    text_eq.beq_iff m name,
    get-insert_row m name row d,
    get-insert_row_first name row d n.1,
  )

  pub get-to_dict :
      (k : Text) (d : Dict Text (UserState Config))
      → NodupKeys d
      → Dict.get k (to_dict empty loads dumps d) ≡ as_row (Dict.get k d)
  unfolding to_dict Dict.get
  get-to_dict k [] n = refl
  get-to_dict k ((name, s) ∷ d) n =
      get-insert_row k name (row_of empty loads dumps s) (to_dict empty loads dumps d)
        (get-to_dict name d n.1 ∙ ap (as_row) n.0)
      ∙ elim (Bool-cases (name == k)) [ inl b ↦ rw b refl | inr b ↦ rw b (get-to_dict k d n.1) ]

  pub to_dict-NodupKeys :
      (d : Dict Text (UserState Config)) → NodupKeys d → NodupKeys (to_dict empty loads dumps d)
  unfolding to_dict
  to_dict-NodupKeys [] n = tt
  to_dict-NodupKeys ((name, s) ∷ d) n =
      get-insert_row_first name (row_of empty loads dumps s) (to_dict empty loads dumps d)
        (to_dict-NodupKeys d n.1) (get-to_dict name d n.1 ∙ ap (as_row) n.0)

  abbrev pub or_old :
      Option (UserState Config) → Option (UserState Config) → Option (UserState Config)
  or_old none old = old
  or_old (some s) old = some s

  abbrev pub found : Option (Row Config) → Option (UserState Config) → Option (UserState Config)
  found none old = old
  found (some row) old = or_old (read_row empty loads dumps (some row)) old

  get-put :
      (k name : Text) (o : Option (UserState Config)) (d : Dict Text (UserState Config))
      → Dict.get k (put empty loads dumps name o d)
        ≡ (if name == k then or_old o (Dict.get k d) else Dict.get k d)
  get-put k name none d = ground arith
  get-put k name (some s) d = get-set name k s d

  found_head :
      (k name : Text) (row : Row Config) (d : Dict Text (Row Config))
      (old : Option (UserState Config))
      → Dict.get name d ≡ none
      → found
          (Dict.get k d)
          (if name == k then or_old (read_row empty loads dumps (some row)) old else old)
        ≡ found (Dict.get k ((name, row) ∷ d)) old
  unfolding Dict.get
  found_head k name row d old h = elim (Bool-cases (name == k)) [
    | inl b ↦
        let q : Dict.get k d ≡ none =
          subst (λ n. Dict.get n d ≡ none) ((text_eq.beq_iff name k).0 b) h in
        rw (b, q) refl
    | inr b ↦ rw b refl
  ]

  pub get-read_rows :
      (k : Text) (rows : Dict Text (Row Config)) (parsed : Dict Text (UserState Config))
      → NodupKeys rows
      → Dict.get k (read_rows empty loads dumps (given rows) parsed)
        ≡ found (Dict.get k rows) (Dict.get k parsed)
  unfolding read_rows Dict.get
  get-read_rows k [] parsed n = refl
  get-read_rows k ((name, row) ∷ rows) parsed n =
      get-read_rows k rows
        (put empty loads dumps name (read_row empty loads dumps (some row)) parsed) n.1
      ∙ ap (found (Dict.get k rows)) (get-put k name (read_row empty loads dumps (some row)) parsed)
      ∙ found_head k name row rows (Dict.get k parsed) n.0

  pub found-row_of : (o : Option (UserState Config)) → found (as_row o) none ≡ o
  found-row_of none = refl
  found-row_of (some s) = rw (read_row-row_of s) refl
