-- ===== src/Capture/Redact/Masked.antt =====
-- Nothing that a pattern names is left in the clear, and redacting twice is redacting once.
use pporlock.Base.{
  ◌≡◌, refl, ap, ap₂, Bool, true, false, not, ◌&&◌, ◌||◌, List, [], ◌∷◌, All, arith, Bool-cases,
  inl, inr,
}
use pporlock.Base.Text.{Text, non_empty}
use pporlock.Engine.Models.{HeaderPairs}
use pporlock.Capture.Redact.{
  Elements, Json, Members, RedactionConfig, header_matches, key_matches, mask_pairs, redact_headers,
  walk, walk_elements, walk_members,
}

module _ (mask : Text → Text) (is_masked : Text → Bool)
    (masked : (v : Text) → is_masked (mask v) ≡ true) where
  -- a pair whose name is hit holds a mask, or nothing
  abbrev pub IsHidden : (Text → Bool) → Text × Text → Type 0
  IsHidden hit (name, value) = hit name ≡ true → non_empty value ≡ true → is_masked value ≡ true

  pub pairs-IsHidden :
      (hit : Text → Bool) (pairs : List (Text × Text))
      → All (IsHidden hit) (mask_pairs mask is_masked hit pairs).0
  unfolding mask_pairs
  pairs-IsHidden hit [] = tt
  pairs-IsHidden hit ((name, value) ∷ rest) =
      elim (Bool-cases ((non_empty value && not (is_masked value)) && hit name)) [
        | inl e ↦ rw e ((λ h k. masked value), pairs-IsHidden hit rest)
        | inr e ↦ rw e ((λ h k. ground (arith, e, h, k)), pairs-IsHidden hit rest)
      ]

  -- With redaction on, no header whose name a pattern names keeps a value in the clear.
  pub redact_headers-IsHidden :
      (cfg : RedactionConfig) (headers : HeaderPairs)
      → cfg.enabled ≡ true
      → All
          (IsHidden (λ name. header_matches name cfg.header_patterns))
          (redact_headers mask is_masked cfg headers).0
  unfolding redact_headers
  redact_headers-IsHidden cfg headers on =
      rw (on, redact_headers)
        (pairs-IsHidden (λ name. header_matches name cfg.header_patterns) headers)

  abbrev mutual
    -- the value holds no text in the clear under a key that names a secret
    pub IsClean : List Text → Bool → Json → Type 0
    IsClean patterns hit Json.nothing = Unit
    IsClean patterns hit (Json.literal text) = hit ≡ false
    IsClean patterns hit (Json.string text) = hit ≡ true → is_masked text ≡ true
    IsClean patterns hit (Json.array items) = AreClean patterns hit items
    IsClean patterns hit (Json.object members) = HaveClean patterns members

    pub AreClean : List Text → Bool → Elements → Type 0
    AreClean patterns hit Elements.done = Unit
    AreClean patterns hit (Elements.element j items) =
        IsClean patterns hit j × AreClean patterns hit items

    pub HaveClean : List Text → Members → Type 0
    HaveClean patterns Members.close = Unit
    HaveClean patterns (Members.member key j members) =
        IsClean patterns (key_matches key patterns) j × HaveClean patterns members

  string-IsClean :
      (patterns : List Text) (hit : Bool) (text : Text)
      → IsClean patterns hit (walk mask is_masked patterns hit (Json.string text)).0
  unfolding walk
  string-IsClean patterns true text = elim (Bool-cases (is_masked text)) [
    | inl e ↦ rw e (λ _. e)
    | inr e ↦ rw e (λ _. masked text)
  ]
  string-IsClean patterns false text = λ h. absurd (cc h)

  literal-IsClean :
      (patterns : List Text) (hit : Bool) (text : Text)
      → IsClean patterns hit (walk mask is_masked patterns hit (Json.literal text)).0
  unfolding walk
  literal-IsClean patterns true text = λ _. masked text
  literal-IsClean patterns false text = refl

  mutual
    unfolding walk

    walk-IsClean' :
        (patterns : List Text) (hit : Bool) (j : Json)
        → IsClean patterns hit (walk mask is_masked patterns hit j).0
    walk-IsClean' patterns hit Json.nothing = tt
    walk-IsClean' patterns hit (Json.literal text) = literal-IsClean patterns hit text
    walk-IsClean' patterns hit (Json.string text) = string-IsClean patterns hit text
    walk-IsClean' patterns hit (Json.array items) = elements-AreClean patterns hit items
    walk-IsClean' patterns hit (Json.object members) = members-HaveClean patterns members

    elements-AreClean :
        (patterns : List Text) (hit : Bool) (items : Elements)
        → AreClean patterns hit (walk_elements mask is_masked patterns hit items).0
    elements-AreClean patterns hit Elements.done = tt
    elements-AreClean patterns hit (Elements.element j items) =
        (walk-IsClean' patterns hit j, elements-AreClean patterns hit items)

    members-HaveClean :
        (patterns : List Text) (members : Members)
        → HaveClean patterns (walk_members mask is_masked patterns members).0
    members-HaveClean patterns Members.close = tt
    members-HaveClean patterns (Members.member key j members) =
        (walk-IsClean' patterns (key_matches key patterns) j, members-HaveClean patterns members)

  -- what is clean is left as it is
  string_kept :
      (patterns : List Text) (hit : Bool) (text : Text)
      → (hit ≡ true → is_masked text ≡ true)
      → walk mask is_masked patterns hit (Json.string text) ≡ (Json.string text, false)
  unfolding walk
  string_kept patterns true text c = rw (c refl) refl
  string_kept patterns false text c = refl

  literal_kept :
      (patterns : List Text) (hit : Bool) (text : Text)
      → hit ≡ false
      → walk mask is_masked patterns hit (Json.literal text) ≡ (Json.literal text, false)
  unfolding walk
  literal_kept patterns true text c = absurd (cc c)
  literal_kept patterns false text c = refl

  mutual
    unfolding walk

    clean-kept :
        (patterns : List Text) (hit : Bool) (j : Json)
        → IsClean patterns hit j
        → walk mask is_masked patterns hit j ≡ (j, false)
    clean-kept patterns hit Json.nothing c = refl
    clean-kept patterns hit (Json.literal text) c = literal_kept patterns hit text c
    clean-kept patterns hit (Json.string text) c = string_kept patterns hit text c
    clean-kept patterns hit (Json.array items) c =
        ap (λ r. (Json.array r.0, r.1)) (elements-kept patterns hit items c)
    clean-kept patterns hit (Json.object members) c =
        ap (λ r. (Json.object r.0, r.1)) (members-kept patterns members c)

    elements-kept :
        (patterns : List Text) (hit : Bool) (items : Elements)
        → AreClean patterns hit items
        → walk_elements mask is_masked patterns hit items ≡ (items, false)
    elements-kept patterns hit Elements.done c = refl
    elements-kept patterns hit (Elements.element j items) c =
        ap₂ (λ r s. (Elements.element r.0 s.0, r.1 || s.1)) (clean-kept patterns hit j c.0)
          (elements-kept patterns hit items c.1)

    members-kept :
        (patterns : List Text) (members : Members)
        → HaveClean patterns members
        → walk_members mask is_masked patterns members ≡ (members, false)
    members-kept patterns Members.close c = refl
    members-kept patterns (Members.member key j members) c =
        ap₂ (λ r s. (Members.member key r.0 s.0, r.1 || s.1))
          (clean-kept patterns (key_matches key patterns) j c.0) (members-kept patterns members c.1)

  -- Where the test for a masked value knows a mask, a JSON value that was redacted holds no text in the
  -- clear as the value of a key that a pattern names or as an element of a list that is one, whatever
  -- the nesting, and redacting it once more changes nothing and says so.
  pub walk-IsClean :
      (patterns : List Text) (hit : Bool) (j : Json)
      → IsClean patterns hit (walk mask is_masked patterns hit j).0
        × (walk mask is_masked patterns hit (walk mask is_masked patterns hit j).0
            ≡ ((walk mask is_masked patterns hit j).0, false))
  walk-IsClean patterns hit j =
      (walk-IsClean' patterns hit j, clean-kept patterns hit _ (walk-IsClean' patterns hit j))
