-- ===== src/Tests/Store.antt =====
-- A sidecar whose file is the value that JSON makes of it, with a number as settings.
use pporlock.Base.{ℕ, ◌≡◌, refl, true, some, List, [], ◌∷◌, text_eq, nat_eq}
use pporlock.Base.Int.{pos, int_eq}
use pporlock.Base.Text.{Text, codes}
use pporlock.Base.Dict
use pporlock.Base.Dict.{Dict, NodupKeys}
use pporlock.Engine.Modules.Store.{
  Field, Loaded, Row, UserState, new_store, prune, set, set_config, to_dict,
}
use pporlock.Engine.Modules.Store.Rows.{given}
use pporlock.Engine.Modules.Store.Restart.{IsSaved}
use pporlock.Engine.Modules.Store.Changes.{Change, changed, changed-IsSaved}

abbrev File : Type 0
File = Loaded ℕ

abbrev loads : File → Loaded ℕ
loads file = file

abbrev dumps : Dict Text (Row ℕ) → File
dumps rows = Loaded.rows (given rows)

loads-dumps :
    (d : Dict Text (UserState ℕ))
    → NodupKeys d
    → loads (dumps (to_dict 0 loads dumps d)) ≡ Loaded.rows (given (to_dict 0 loads dumps d))
loads-dumps d n = refl

-- a row whose priority is a truth value is left out
abbrev file : File
file = Loaded.rows (
    (
      codes "b",
      some (record {
        enabled = Field.boolean true;
        priority = Field.integer (pos 7);
        config = Field.other;
      }),
    )
    ∷ (
      codes "c",
      some (record {
        enabled = Field.boolean true;
        priority = Field.boolean true;
        config = Field.absent;
      }),
    )
    ∷ [])

abbrev changes : List (Change ℕ)
changes =
    Change.settings true (codes "a") 5
    ∷ Change.enablement true (codes "a") true (pos 3)
    ∷ Change.pruning true (codes "a" ∷ [])
    ∷ []

changed_file :
    (changed 0 loads dumps changes (new_store 0 loads dumps (some file))).file
    ≡ some (
        dumps (
          (
            codes "a",
            record {
              enabled = Field.boolean true;
              priority = Field.integer (pos 3);
              config = Field.object 5;
            },
          )
          ∷ []))
unfolding new_store set set_config prune text_eq int_eq Dict.get Dict.set Dict.remove
changed_file = refl

changed-IsSaved_example :
    IsSaved 0 loads dumps (changed 0 loads dumps changes (new_store 0 loads dumps (some file)))
changed-IsSaved_example = changed-IsSaved 0 loads dumps loads-dumps (some file) changes
