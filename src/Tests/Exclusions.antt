-- ===== src/Tests/Exclusions.antt =====
-- A list of a glob and a network of even addresses.
use pporlock.Base.{
  ℕ, ◌≡◌, refl, Bool, true, not, Option, none, some, [], ◌∷◌, eqb, if◌then◌else◌, ◌%◌, ◌==◌,
  text_eq,
}
use pporlock.Base.Text.{Text, codes, lower, strip}
use pporlock.Engine.Exclusions.{
  ExclusionEntry, ExclusionList, ExclusionSource, decide, make_list, remove,
}
use pporlock.Engine.Exclusions.Decisions.{IsCompiled, OnEntry, remove_lem}

abbrev as_network : Text → Option (ℕ → Bool)
as_network [] = none
as_network (c ∷ _) = if eqb c b'/' then some (λ a. eqb (a % 2) 0) else none

abbrev as_address : Text → Option ℕ
as_address (c ∷ _) = some c
as_address [] = none

abbrev glob : Text → Text → Bool
glob host pattern = host == pattern

abbrev entry : Text → ExclusionEntry
entry p = record { pattern = p; comment = []; source = ExclusionSource.user }

abbrev list : ExclusionList as_network as_address glob
list = make_list as_network as_address glob (entry (codes "a.b") ∷ entry (codes "/2") ∷ [])

decide_name :
    decide as_network as_address glob (some (codes " A.b.. ")) none list
    ≡ some (entry (codes "a.b"))
unfolding decide make_list lower strip text_eq
decide_name = refl

decide_address :
    decide as_network as_address glob (some (codes "c")) (some (codes "[2]")) list
    ≡ some (entry (codes "/2"))
unfolding decide make_list lower strip text_eq
decide_address = refl

list-IsCompiled : IsCompiled as_network as_address glob list
unfolding make_list strip
list-IsCompiled = refl

remove_lem_example :
    IsCompiled as_network as_address glob (remove as_network as_address glob (codes "a.b") list).0
    × OnEntry as_network as_address glob
        (λ e. not (e.pattern == codes "a.b") ≡ true)
        (decide as_network as_address glob
          (some (codes "A.b."))
          (some (codes "[2]"))
          (remove as_network as_address glob (codes "a.b") list).0)
remove_lem_example =
    remove_lem as_network as_address glob (codes "a.b") (some (codes "A.b.")) (some (codes "[2]"))
      list list-IsCompiled
