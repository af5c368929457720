-- ===== src/Addon/Apply/Refines.antt =====
-- The evaluator's header state against the headers on the wire: what it says will change does.
use pporlock.Base.{
  ◌≡◌, refl, sym, subst, ap, ◌∙◌, Bool, true, false, ◌||◌, Option, none, some, List, [], ◌∷◌, ◌++◌,
  text_eq, contains, All, arith, Bool-cases, inl, inr, is_some, or_else, nat_eq,
}
use pporlock.Base.Text.{Text, lower}
use pporlock.Base.Dict
use pporlock.Base.Dict.{Dict, get-set, get-remove}
use pporlock.Engine.Models.{HeaderOp}
use pporlock.Engine.HeaderRules.{HeaderState, add_value, remove_name, set_value, holds_only}
use pporlock.Addon.Apply.{WireHeaders, join, folded, is_value, apply_header_op, apply_header_ops}

-- an operation on the state
unfoldable pub state_op : HeaderOp → HeaderState → HeaderState × Bool
state_op (HeaderOp.remove name) s = remove_name name s
state_op (HeaderOp.set name value) s = set_value name value s
state_op (HeaderOp.add name value) s = (add_value name value s, true)

unfoldable pub state_ops : Bool → List HeaderOp → HeaderState → HeaderState × Bool
unfolding state_op
state_ops changed [] s = (s, changed)
state_ops changed (op ∷ ops) s =
    let done = state_op op s in state_ops (changed || done.1) ops done.0

-- the values under a name as the state holds them
abbrev pub whole : List Text → Option (List Text)
whole [] = none
whole (v ∷ vs) = some (v ∷ vs)

-- a value that no folded pair of values could be
abbrev pub Plain : HeaderOp → Type 0
Plain (HeaderOp.set name value) = contains value b',' ≡ false
Plain _ = Unit

join-comma : (v w : Text) (vs : List Text) → contains (join (v ∷ w ∷ vs)) b',' ≡ true
unfolding join
join-comma [] w vs = refl
join-comma (c ∷ v) w vs = ground (arith, join-comma v w vs)

holds_only-folded :
    (vs : List Text) (value : Text)
    → contains value b',' ≡ false
    → holds_only value (whole vs) ≡ is_value (folded vs) value
unfolding folded
holds_only-folded [] value p = refl
holds_only-folded (v ∷ []) value p = refl
holds_only-folded (v ∷ w ∷ vs) value p =
    ground (arith, text_eq.beq_iff (join (v ∷ w ∷ vs)) value, join-comma v w vs)

is_some-folded : (vs : List Text) → is_some (folded vs) ≡ is_some (whole vs)
unfolding folded
is_some-folded [] = refl
is_some-folded (v ∷ vs) = refl

whole-snoc :
    (vs : List Text) (v : Text) → whole (vs ++ v ∷ []) ≡ some (or_else (whole vs) [] ++ v ∷ [])
whole-snoc [] v = refl
whole-snoc (w ∷ vs) v = refl

module _ {H : Type 0} ⦃wire : WireHeaders H⦄ where
  -- the state holds what stands on the wire
  abbrev pub Models : HeaderState → H → Type 0
  Models s h = (n : Text) → Dict.get (lower n) s ≡ whole (wire.get_all n h)

  remove_test :
      (name : Text) (s : HeaderState) (h : H)
      → Models s h
      → is_some (Dict.get (lower name) s) ≡ wire.has name h
  remove_test name s h m =
      ap is_some (m name) ∙ sym (is_some-folded (wire.get_all name h)) ∙ sym (wire.has_lem name h)

  set_test :
      (name value : Text) (s : HeaderState) (h : H)
      → contains value b',' ≡ false
      → Models s h
      → holds_only value (Dict.get (lower name) s) ≡ is_value (wire.get name h) value
  set_test name value s h p m =
      ap (holds_only value) (m name)
      ∙ holds_only-folded (wire.get_all name h) value p
      ∙ ap (λ o. is_value o value) (sym (wire.get_lem name h))

  kept :
      (name n : Text) (s : HeaderState) (h : H)
      → Models s h
      → wire.has name h ≡ false
      → Dict.get (lower n) (Dict.remove (lower name) s) ≡ whole (wire.get_all n h)
  kept name n s h m e = ground (
    arith,
    text_eq.beq_iff (lower name) (lower n),
    get-remove (lower name) (lower n) s,
    m n,
    remove_test name s h m,
  )

  op-Models :
      (op : HeaderOp) (s : HeaderState) (h : H)
      → Plain op
      → Models s h
      → Models (state_op op s).0 (apply_header_op op h).0
        × ((state_op op s).1 ≡ (apply_header_op op h).1)
  unfolding state_op apply_header_op remove_name add_value set_value
  op-Models (HeaderOp.remove name) s h p m = elim (Bool-cases (wire.has name h)) [
    | inl e ↦ rw (e) (
      (λ n. ground (arith, get-remove (lower name) (lower n) s, wire.get_all-delete name n h, m n)),
      remove_test name s h m ∙ e,
    )
    | inr e ↦ rw (e) ((λ n. kept name n s h m e), remove_test name s h m ∙ e)
  ]
  op-Models (HeaderOp.set name value) s h p m =
      elim (Bool-cases (is_value (wire.get name h) value)) [
        | inl e ↦ rw (set_value, set_test name value s h p m, e) (m, refl)
        | inr e ↦
            rw (set_value, set_test name value s h p m, e)
              (
                (λ n. ground (
                  arith,
                  get-set (lower name) (lower n) (value ∷ []) s,
                  wire.get_all-assign name n value h,
                  m n,
                )),
                refl,
              )
      ]
  op-Models (HeaderOp.add name value) s h p m = (
    (λ n. ground (
      arith,
      text_eq.beq_iff (lower name) (lower n),
      get-set (lower name) (lower n) (or_else (Dict.get (lower name) s) [] ++ value ∷ []) s,
      wire.get_all-append name n value h,
      m n,
      m name,
      whole-snoc (wire.get_all n h) value,
    )),
    refl,
  )

  pub ops-Models :
      (ops : List HeaderOp) (changed : Bool) (s : HeaderState) (h : H)
      → All Plain ops
      → Models s h
      → Models (state_ops changed ops s).0 (apply_header_ops changed ops h).0
        × ((state_ops changed ops s).1 ≡ (apply_header_ops changed ops h).1)
  unfolding state_ops apply_header_ops
  ops-Models [] changed s h p m = (m, refl)
  ops-Models (op ∷ ops) changed s h p m =
      let one = op-Models op s h p.0 m in
      subst
        (λ b.
          Models (state_ops (changed || (state_op op s).1) ops (state_op op s).0).0
            (apply_header_ops (changed || b) ops (apply_header_op op h).0).0
          × ((state_ops (changed || (state_op op s).1) ops (state_op op s).0).1
              ≡ (apply_header_ops (changed || b) ops (apply_header_op op h).0).1))
        one.1
        (ops-Models ops (changed || (state_op op s).1) (state_op op s).0 (apply_header_op op h).0
          p.1 one.0)
