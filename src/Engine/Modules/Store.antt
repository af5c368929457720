-- ===== src/Engine/Modules/Store.antt =====
-- The sidecar file of the modules (engine/modules/state.py). The settings of a module are a dict of
-- JSON values taken up to the order of its keys, an argument; so are what the file holds and the JSON
-- codec. An operation is told whether its write goes through. The message of `error` is a flag, and
-- that a file is replaced at once is the file system's.
pub mod Rows
pub mod Restart
pub mod Changes
use pporlock.Base.{
  ◌≡◌, Bool, true, false, not, ◌&&◌, Option, none, some, List, [], ◌∷◌, ◌==◌, text_eq, contains,
  filter, map, if◌then◌else◌, Eq, any,
}
use pporlock.Base.Int.{ℤ, pos, int_eq}
use pporlock.Base.Text.{Text, text_leb}
use pporlock.Base.Dict
use pporlock.Base.Dict.{Dict, keys}

-- what a row of the file holds under a key
pub data Field (Config : Type 0) : Type 0 where
  absent : Field Config
  boolean : Bool → Field Config
  integer : ℤ → Field Config
  object : Config → Field Config
  other : Field Config

pub record Row (Config : Type 0) : Type 0 where
  pub enabled : Field Config
  pub priority : Field Config
  pub config : Field Config

-- what `json.loads` makes of a file; a row that is no object is none
pub data Loaded (Config : Type 0) : Type 0 where
  unreadable : Loaded Config
  no_object : Loaded Config
  rows : Dict Text (Option (Row Config)) → Loaded Config

-- `ModuleState`
pub record UserState (Config : Type 0) : Type 0 where
  pub enabled : Bool
  pub priority : ℤ
  pub config : Config

-- `ModuleStateStore`, with the file beside it; `failed` is that `error` is set
pub record ModuleStateStore (File Config : Type 0) : Type 0 where
  pub state : Dict Text (UserState Config)
  pub failed : Bool
  pub file : Option File

abbrev same_flag : Bool → Bool → Bool
same_flag true b = b
same_flag false b = not b

module _ {File Config : Type 0} ⦃config_eq : Eq Config⦄ (empty : Config)
    (loads : File → Loaded Config) (dumps : Dict Text (Row Config) → File) where
  abbrev pub config_of : Field Config → Config
  config_of (Field.object config) = config
  config_of _ = empty

  abbrev pub checked : Field Config → Field Config → Field Config → Option (UserState Config)
  checked (Field.boolean enabled) (Field.integer priority) config =
      some (record { enabled = enabled; priority = priority; config = config_of config })
  checked _ _ _ = none

  -- the body of the loop of `_read`
  abbrev pub read_row : Option (Row Config) → Option (UserState Config)
  read_row none = none
  read_row (some row) = checked row.enabled row.priority row.config

  abbrev pub put :
      Text → Option (UserState Config) → Dict Text (UserState Config) → Dict Text (UserState Config)
  put name none parsed = parsed
  put name (some state) parsed = Dict.set name state parsed

  -- the loop of `_read`
  unfoldable pub read_rows :
      Dict Text (Option (Row Config)) → Dict Text (UserState Config) → Dict Text (UserState Config)
  read_rows [] parsed = parsed
  read_rows ((name, row) ∷ rest) parsed = read_rows rest (put name (read_row row) parsed)

  abbrev pub of_loaded : File → Loaded Config → ModuleStateStore File Config
  of_loaded file (Loaded.rows entries) = record {
    state = read_rows entries [];
    failed = false;
    file = some file;
  }
  of_loaded file _ = record { state = []; failed = true; file = some file }

  -- `ModuleStateStore.__init__`, which is `_read`
  unfoldable pub new_store : Option File → ModuleStateStore File Config
  unfolding read_rows
  new_store none = record { state = []; failed = false; file = none }
  new_store (some file) = of_loaded file (loads file)

  -- `ModuleState.to_dict`
  abbrev pub row_of : UserState Config → Row Config
  row_of s = record {
    enabled = Field.boolean s.enabled;
    priority = Field.integer s.priority;
    config = if s.config == empty then Field.absent else Field.object s.config;
  }

  unfoldable pub insert_row : Text → Row Config → Dict Text (Row Config) → Dict Text (Row Config)
  insert_row name row [] = (name, row) ∷ []
  insert_row name row ((n, r) ∷ d) =
      let rest = insert_row name row d in
      if text_leb name n then (name, row) ∷ (n, r) ∷ d else (n, r) ∷ rest

  -- `to_dict`: the rows in the order of their names
  unfoldable pub to_dict : Dict Text (UserState Config) → Dict Text (Row Config)
  unfolding insert_row
  to_dict [] = []
  to_dict ((name, s) ∷ d) = insert_row name (row_of s) (to_dict d)

  -- `save`
  unfoldable pub save : Bool → ModuleStateStore File Config → ModuleStateStore File Config
  unfolding to_dict
  save written st =
      if written
      then record st { file = some (dumps (to_dict st.state)) }
      else record st { failed = true }

  abbrev pub same_state : UserState Config → UserState Config → Bool
  same_state a b = same_flag a.enabled b.enabled && a.priority == b.priority && a.config == b.config

  abbrev pub is_current : Option (UserState Config) → UserState Config → Bool
  is_current none new = false
  is_current (some current) new = same_state current new

  -- `if current == new: return`, and what follows
  abbrev pub write :
      Bool → Text → UserState Config → ModuleStateStore File Config → ModuleStateStore File Config
  write written name new st =
      if is_current (Dict.get name st.state) new
      then st
      else save written (record st { state = Dict.set name new st.state })

  abbrev pub kept_config : Option (UserState Config) → Config
  kept_config none = empty
  kept_config (some current) = current.config

  -- `set`
  unfoldable pub set :
      Bool → Text → Bool → ℤ → ModuleStateStore File Config → ModuleStateStore File Config
  unfolding save
  set written name enabled priority st =
      write written name
        (record {
          enabled = enabled;
          priority = priority;
          config = kept_config (Dict.get name st.state);
        })
        st

  abbrev pub reconfigured : Option (UserState Config) → Config → UserState Config
  reconfigured none config = record { enabled = false; priority = pos 100; config = config }
  reconfigured (some current) config = record current { config = config }

  -- `set_config`
  unfoldable pub set_config :
      Bool → Text → Config → ModuleStateStore File Config → ModuleStateStore File Config
  unfolding save
  set_config written name config st =
      write written name (reconfigured (Dict.get name st.state) config) st

  -- the loop of `prune`
  unfoldable pub remove_all :
      List Text → Dict Text (UserState Config) → Dict Text (UserState Config)
  remove_all [] d = d
  remove_all (name ∷ names) d = remove_all names (Dict.remove name d)

  abbrev pub stale : List Text → Dict Text (UserState Config) → List Text
  stale known d = filter (λ name. not (contains known name)) (keys d)

  -- `prune`
  unfoldable pub prune :
      Bool → List Text → ModuleStateStore File Config → ModuleStateStore File Config
  unfolding save remove_all
  prune written known st =
      if not (any (λ name. not (contains known name)) (keys st.state))
      then st
      else save written (record st { state = remove_all (stale known st.state) st.state })
