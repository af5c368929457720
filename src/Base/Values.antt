-- ===== src/Base/Values.antt =====
-- The values of a manifest and of a settings form, as YAML and JSON give them to Python.
use pporlock.Base.Tests.{if◌then◌else◌}
use mathlib.Core.Bool.{Bool, true, false, not}
use mathlib.Core.List.{List, [], ◌∷◌}
use pporlock.Base.Text.{Text, non_empty}
use pporlock.Base.Int.{ℤ, eqb_ℤ}
use pporlock.Base.Dict.{Dict}

-- `scalar` is a float or a date: whether it counts as true, and what `str` makes of it.
mutual
  pub data Value : Type 0 where
    null : Value
    boolean : Bool → Value
    integer : ℤ → Value
    scalar : Bool → Text → Value
    text : Text → Value
    sequence : Items → Value
    mapping : Fields → Value

  pub data Items : Type 0 where
    nil : Items
    item : Value → Items → Items

  pub data Fields : Type 0 where
    end : Fields
    field : Text → Value → Fields → Fields

abbrev pub items : Items → List Value
items Items.nil = []
items (Items.item v vs) = v ∷ items vs

abbrev pub fields : Fields → Dict Text Value
fields Fields.end = []
fields (Fields.field key v fs) = (key, v) ∷ fields fs

abbrev pub of_texts : List Text → Items
of_texts [] = Items.nil
of_texts (t ∷ ts) = Items.item (Value.text t) (of_texts ts)

-- `bool(value)`
unfoldable pub truthy : Value → Bool
truthy Value.null = false
truthy (Value.boolean b) = b
truthy (Value.integer n) = not (eqb_ℤ n (ℤ.pos 0))
truthy (Value.scalar b spelling) = b
truthy (Value.text t) = non_empty t
truthy (Value.sequence Items.nil) = false
truthy (Value.sequence _) = true
truthy (Value.mapping Fields.end) = false
truthy (Value.mapping _) = true

-- `str(value)`, where `repr` is what it makes of anything but a text
abbrev pub str : (Value → Text) → Value → Text
str repr (Value.text t) = t
str repr v = repr v

-- `str(value or other)`
unfoldable pub str_or : (Value → Text) → Value → Text → Text
unfolding truthy
str_or repr v other = if truthy v then str repr v else other
