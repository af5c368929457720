-- ===== src/Engine/Exclusions/Decisions.antt =====
-- Every decision is by an entry of the list, and a pattern that was removed decides nothing more.
use pporlock.Base.{
  ℕ, ◌≡◌, refl, sym, ap, ◌∙◌, subst, Bool, true, not, ◌&&◌, Option, none, some, List, [], ◌∷◌, ◌==◌,
  text_eq, filter, length, All, arith, Bool-cases, inl, inr, eqb, length-filter-le,
}
use pporlock.Base.Text.{Text, non_empty, strip}
use pporlock.Engine.Exclusions.{
  ExclusionEntry, ExclusionList, by_address, by_name, compile_from, decide, filed, first_glob,
  first_network, first_of, host_of, host_safe, make_list, of_address, remove, unbracketed,
}

module _ {Address : Type 0} (as_network : Text → Option (Address → Bool))
    (as_address : Text → Option Address) (glob : Text → Text → Bool) where
  abbrev Exclusions : Type 0
  Exclusions = ExclusionList as_network as_address glob

  -- the compiled lists are those of the entries
  abbrev pub IsCompiled : Exclusions → Type 0
  IsCompiled l = l ≡ make_list as_network as_address glob l.entries

  -- the entries of the compiled lists all have a property
  abbrev Holds : (ExclusionEntry → Type 0) → Exclusions → Type 0
  Holds P l = All (λ g. P g.1) l.globs × All (λ n. P n.1) l.networks

  filed-Holds :
      (P : ExclusionEntry → Type 0) (e : ExclusionEntry) (pattern : Text)
      (o : Option (Address → Bool)) (l : Exclusions)
      → P e
      → Holds P l
      → Holds P (filed as_network as_address glob e pattern o l)
  filed-Holds P e pattern none l p h = ((p, h.0), h.1)
  filed-Holds P e pattern (some network) l p h = (h.0, (p, h.1))

  compile-Holds :
      (P : ExclusionEntry → Type 0) (all rest : List ExclusionEntry)
      → All P rest
      → Holds P (compile_from as_network as_address glob all rest)
  unfolding compile_from
  compile-Holds P all [] h = (tt, tt)
  compile-Holds P all (e ∷ rest) h = elim (Bool-cases (non_empty (strip e.pattern))) [
    | inl b ↦ rw b (
        filed-Holds P e (strip e.pattern) (as_network (strip e.pattern)) _ h.0
          (compile-Holds P all rest h.1))
    | inr b ↦ rw b (compile-Holds P all rest h.1)
  ]

  abbrev pub OnEntry : (ExclusionEntry → Type 0) → Option ExclusionEntry → Type 0
  OnEntry P none = Unit
  OnEntry P (some e) = P e

  glob-OnEntry :
      (P : ExclusionEntry → Type 0) (host : Text) (globs : List (Text × ExclusionEntry))
      → All (λ g. P g.1) globs
      → OnEntry P (first_glob as_network as_address glob host globs)
  unfolding first_glob
  glob-OnEntry P host [] h = tt
  glob-OnEntry P host ((pattern, e) ∷ rest) h = elim (Bool-cases (glob host pattern)) [
    | inl b ↦ rw b (h.0)
    | inr b ↦ rw b (glob-OnEntry P host rest h.1)
  ]

  network-OnEntry :
      (P : ExclusionEntry → Type 0) (address : Address)
      (networks : List ((Address → Bool) × ExclusionEntry))
      → All (λ n. P n.1) networks
      → OnEntry P (first_network as_network as_address glob address networks)
  unfolding first_network
  network-OnEntry P address [] h = tt
  network-OnEntry P address ((network, e) ∷ rest) h = elim (Bool-cases (network address)) [
    | inl b ↦ rw b (h.0)
    | inr b ↦ rw b (network-OnEntry P address rest h.1)
  ]

  name-OnEntry :
      (P : ExclusionEntry → Type 0) (sni : Option Text) (globs : List (Text × ExclusionEntry))
      → All (λ g. P g.1) globs
      → OnEntry P (by_name as_network as_address glob sni globs)
  name-OnEntry P none globs h = tt
  name-OnEntry P (some sni) globs h = elim (Bool-cases (non_empty sni && host_safe (host_of sni))) [
    | inl b ↦ rw b (glob-OnEntry P (host_of sni) globs h)
    | inr b ↦ rw b tt
  ]

  of-OnEntry :
      (P : ExclusionEntry → Type 0) (o : Option Address)
      (networks : List ((Address → Bool) × ExclusionEntry))
      → All (λ n. P n.1) networks
      → OnEntry P (of_address as_network as_address glob o networks)
  of-OnEntry P none networks h = tt
  of-OnEntry P (some address) networks h = network-OnEntry P address networks h

  address-OnEntry :
      (P : ExclusionEntry → Type 0) (ip : Option Text)
      (networks : List ((Address → Bool) × ExclusionEntry))
      → All (λ n. P n.1) networks
      → OnEntry P (by_address as_network as_address glob ip networks)
  address-OnEntry P none networks h = tt
  address-OnEntry P (some ip) networks h = elim (Bool-cases (non_empty ip)) [
    | inl b ↦ rw b (of-OnEntry P (as_address (unbracketed ip)) networks h)
    | inr b ↦ rw b tt
  ]

  first-OnEntry :
      (P : ExclusionEntry → Type 0) (o q : Option ExclusionEntry)
      → OnEntry P o
      → OnEntry P q
      → OnEntry P (first_of as_network as_address glob o q)
  first-OnEntry P none q a b = b
  first-OnEntry P (some e) q a b = a

  decide-Holds :
      (P : ExclusionEntry → Type 0) (sni ip : Option Text) (l : Exclusions)
      → Holds P l
      → OnEntry P (decide as_network as_address glob sni ip l)
  unfolding decide
  decide-Holds P sni ip l h =
      first-OnEntry P _ _ (name-OnEntry P sni l.globs h.0) (address-OnEntry P ip l.networks h.1)

  compiled-Holds :
      (P : ExclusionEntry → Type 0) (l : Exclusions) → IsCompiled l → All P l.entries → Holds P l
  unfolding make_list
  compiled-Holds P l c h = subst (Holds P) (sym c) (compile-Holds P l.entries l.entries h)

  entries-filed :
      (e : ExclusionEntry) (pattern : Text) (o : Option (Address → Bool)) (l : Exclusions)
      → (filed as_network as_address glob e pattern o l).entries ≡ l.entries
  entries-filed e pattern none l = refl
  entries-filed e pattern (some network) l = refl

  entries-compile :
      (all rest : List ExclusionEntry)
      → (compile_from as_network as_address glob all rest).entries ≡ all
  unfolding compile_from
  entries-compile all [] = refl
  entries-compile all (e ∷ rest) = elim (Bool-cases (non_empty (strip e.pattern))) [
    | inl b ↦ rw b (
        entries-filed e (strip e.pattern) (as_network (strip e.pattern)) _
        ∙ entries-compile all rest)
    | inr b ↦ rw b (entries-compile all rest)
  ]

  make-IsCompiled :
      (entries : List ExclusionEntry) → IsCompiled (make_list as_network as_address glob entries)
  unfolding make_list
  make-IsCompiled entries =
      ap (λ es. compile_from as_network as_address glob es es)
        (sym (entries-compile entries entries))

  filter-All :
      (test : ExclusionEntry → Bool) (l : List ExclusionEntry)
      → All (λ e. test e ≡ true) (filter test l)
  filter-All test [] = tt
  filter-All test (e ∷ l) = elim (Bool-cases (test e)) [
    | inl b ↦ rw b (b, filter-All test l)
    | inr b ↦ rw b (filter-All test l)
  ]

  filter_kept :
      (test : ExclusionEntry → Bool) (l : List ExclusionEntry)
      → length (filter test l) ≡ length l
      → filter test l ≡ l
  filter_kept test [] h = refl
  filter_kept test (e ∷ l) h = elim (Bool-cases (test e)) [
    | inl b ↦ rw b (ap (λ m. e ∷ m) (filter_kept test l (omega (arith, rw b at h))))
    | inr b ↦ absurd (omega (arith, rw b at h, length-filter-le test l))
  ]

  -- In a list whose compiled parts are those of its entries, a connection is excluded by an entry of
  -- the list: whatever holds of all entries holds of the one that decides.
  pub decide-OnEntry :
      (P : ExclusionEntry → Type 0) (sni ip : Option Text) (l : Exclusions)
      → IsCompiled l
      → All P l.entries
      → OnEntry P (decide as_network as_address glob sni ip l)
  decide-OnEntry P sni ip l c h = decide-Holds P sni ip l (compiled-Holds P l c h)

  eqb_sound : {m n : ℕ} → eqb m n ≡ true → m ≡ n
  eqb_sound h = ground (arith, h)

  same-IsCompiled :
      (kept : List ExclusionEntry) (l : Exclusions)
      → IsCompiled l
      → kept ≡ l.entries
      → IsCompiled (record l { entries = kept })
  same-IsCompiled kept l c q =
      ap (λ es. record l { entries = es }) q ∙ c ∙ ap (make_list as_network as_address glob) (sym q)

  remove_cases :
      (pattern : Text) (l : Exclusions)
      → IsCompiled l
      → IsCompiled (remove as_network as_address glob pattern l).0
        × All
            (λ e. not (e.pattern == pattern) ≡ true)
            (remove as_network as_address glob pattern l).0.entries
  unfolding remove make_list
  remove_cases pattern l c =
      let kept = filter (λ e. not (e.pattern == pattern)) l.entries in
      let none_left = filter-All (λ e. not (e.pattern == pattern)) l.entries in
      elim (Bool-cases (eqb (length kept) (length l.entries))) [
        | inl b ↦ rw b (
          same-IsCompiled kept l c
              (filter_kept (λ e. not (e.pattern == pattern)) l.entries (eqb_sound b)),
          none_left,
        )
        | inr b ↦ rw b (
          make-IsCompiled kept,
          subst (All (λ e. not (e.pattern == pattern) ≡ true)) (sym (entries-compile kept kept))
              none_left,
        )
      ]

  -- Once a pattern is removed no connection is excluded by it any more, and what was compiled is still
  -- that of the entries.
  pub remove_lem :
      (pattern : Text) (sni ip : Option Text) (l : Exclusions)
      → IsCompiled l
      → IsCompiled (remove as_network as_address glob pattern l).0
        × OnEntry
            (λ e. not (e.pattern == pattern) ≡ true)
            (decide as_network as_address glob sni ip
              (remove as_network as_address glob pattern l).0)
  remove_lem pattern sni ip l c =
      let r = remove_cases pattern l c in
      (
        r.0,
        decide-OnEntry (λ e. not (e.pattern == pattern) ≡ true) sni ip
            (remove as_network as_address glob pattern l).0 r.0 r.1,
      )
