-- ===== src/Control/Auth/Pairing.antt =====
-- Pairing is single-use, and the allowlist can never be wider than one extension.
use pporlock.Base.{
  ℕ, ◌≤◌, ◌<◌, ◌≡◌, refl, sym, ap, ◌∙◌, subst, Bool, true, false, Option, none, some, List, [], ◌∷◌,
  ◌++◌, ◌==◌, text_eq, contains, leb, length, drop, arith, Bool-cases, inl, inr, ◌⊎◌, ◌↔◌,
  if◌then◌else◌,
}
use pporlock.Base.Text.{Text, strip, starts_with}
use pporlock.Control.Auth.{
  OriginPolicy, PairingError, PairingWindow, allows, close_window, extension_scheme,
  is_extension_origin, make_policy, pair_extension, redeem, redeemed, restore, restore_from,
  is_paired,
}

-- the paired extension, if any, is a well-formed one
abbrev pub IsSafe : OriginPolicy → Type 0
IsSafe p =
    (id : Text) → p.extension_id ≡ some id → is_extension_origin (extension_scheme ++ id) ≡ true

-- a step of a policy's life
pub data Step (p : OriginPolicy) : OriginPolicy → Type 0 where
  pairs : (writable : Bool) (origin : Text) → Step p (pair_extension writable origin p).0
  tries :
      (writable : Bool) (now : ℕ) (code origin : Text) (w : PairingWindow)
      → Step p ((redeem writable now code origin (w, p)).0).1
  restarts : (edited : Option Text) → Step p (make_policy p.self_origins none edited)

pub data Lives (self_origins : List Text) : OriginPolicy → Type 0 where
  begins : (stored : Option Text) → Lives self_origins (make_policy self_origins none stored)
  goes : {p q : OriginPolicy} → Lives self_origins p → Step p q → Lives self_origins q

-- A pairing window is used up by the first attempt, right or wrong: a second one is refused since
-- no window is open, and changes nothing.
pub redeem_once :
    (writable : Bool) (now later : ℕ) (code origin again other : Text) (w : PairingWindow)
    (p : OriginPolicy)
    → redeem writable later again other (redeem writable now code origin (w, p)).0 ≡ (
      (close_window (close_window w), ((redeem writable now code origin (w, p)).0).1),
      some PairingError.not_open,
    )
unfolding redeem close_window
redeem_once writable now later code origin again other w p = refl

leb-false : (a b : ℕ) → leb a b ≡ false → b < a
leb-false a b h = ground arith

leb-true : (a b : ℕ) → leb a b ≡ true → a ≤ b
leb-true a b h = ground arith

other_code : (code expected : Text) → (code == expected) ≡ false → some expected ≡ some code → ⊥
other_code code expected f h =
    let same : expected ≡ code = cc h in
    absurd (cc (f, (text_eq.beq_iff code expected).1 (sym same)))

starts_with-drop : (s t : Text) → starts_with s t ≡ true → t ++ drop (length t) s ≡ s
unfolding starts_with
starts_with-drop s [] h = refl
starts_with-drop [] (d ∷ t) h = absurd (cc h)
starts_with-drop (c ∷ s) (d ∷ t) h = ground (arith, starts_with-drop s t)

prefix_back :
    (origin : Text)
    → is_extension_origin origin ≡ true
    → extension_scheme ++ drop (length extension_scheme) origin ≡ origin
unfolding is_extension_origin
prefix_back origin h = starts_with-drop origin extension_scheme (ground (arith, h))

-- the extension of that origin was recorded, and now has access
pub record IsPaired (writable : Bool) (origin : Text) (p q : OriginPolicy) : Type 0 where
  pub id : Text
  pub origin_of_id : extension_scheme ++ id ≡ origin
  pub recorded : q.extension_id ≡ some id
  pub remembered : q.stored ≡ (if writable then some id else p.stored)
  pub others : q.self_origins ≡ p.self_origins
  pub access : allows (some origin) q ≡ true

-- it was, with no error, or there is an error and the policy is as it was
abbrev pub Tried : Bool → Text → OriginPolicy → OriginPolicy × Option PairingError → Type 0
Tried writable origin p done =
    ((done.1 ≡ none) × IsPaired writable origin p done.0)
    ⊎ ((e : PairingError) × (done.1 ≡ some e) × (done.0 ≡ p))

or_paired : (a b : Bool) → b ≡ true → (if a then true else b) ≡ true
or_paired true b h = refl
or_paired false b h = h

paired-Tried :
    (writable : Bool) (origin : Text) (p : OriginPolicy)
    → Tried writable origin p (pair_extension writable origin p)
unfolding pair_extension allows
paired-Tried writable origin p = elim (Bool-cases (is_extension_origin origin)) [
  | inl g ↦ rw g (
      inl (
        refl,
        record {
          id = drop (length extension_scheme) origin;
          origin_of_id = prefix_back origin g;
          recorded = refl;
          remembered = refl;
          others = refl;
          access =
              or_paired (contains p.self_origins origin) _
                ((text_eq.beq_iff origin _).1 (sym (prefix_back origin g)));
        },
      ))
  | inr g ↦ rw g (inr (PairingError.not_an_extension, refl, refl))
]

paired_lem :
    (writable : Bool) (now : ℕ) (code origin : Text) (expires_at : ℕ) (p : OriginPolicy)
    (expected : Text)
    → leb expires_at now ≡ false
    → (code == expected) ≡ true
    → ((pair_extension writable origin p).1 ≡ none)
      ↔ ((some expected ≡ some code) × (now < expires_at) × (is_extension_origin origin ≡ true))
unfolding pair_extension
paired_lem writable now code origin expires_at p expected e f =
    elim (Bool-cases (is_extension_origin origin)) [
      | inl g ↦ rw g (
        (λ _. (
          ap some (sym ((text_eq.beq_iff code expected).0 f)),
          leb-false expires_at now e,
          refl,
        )),
        (λ _. refl),
      )
      | inr g ↦ rw g ((λ h. absurd (cc h)), (λ h. absurd (cc (h.2))))
    ]

redeemed_lem :
    (writable : Bool) (now : ℕ) (code origin : Text) (expires_at : ℕ) (p : OriginPolicy)
    (o : Option Text)
    → (((redeemed o expires_at writable now code origin p).1 ≡ none)
        ↔ ((o ≡ some code) × (now < expires_at) × (is_extension_origin origin ≡ true)))
      × Tried writable origin p (redeemed o expires_at writable now code origin p)
redeemed_lem writable now code origin expires_at p none =
    (((λ h. absurd (cc h)), (λ h. absurd (cc (h.0)))), inr (PairingError.not_open, refl, refl))
redeemed_lem writable now code origin expires_at p (some expected) =
    elim (Bool-cases (leb expires_at now)) [
      | inl e ↦ rw e (
        ((λ h. absurd (cc h)), (λ h. absurd (omega (arith, leb-true expires_at now e, h.1)))),
        inr (PairingError.expired, refl, refl),
      )
      | inr e ↦ rw e (elim (Bool-cases (code == expected)) [
        | inr f ↦ rw f (
          ((λ h. absurd (cc h)), (λ h. absurd (other_code code expected f h.0))),
          inr (PairingError.no_match, refl, refl),
        )
        | inl f ↦ rw f (
          paired_lem writable now code origin expires_at p expected e f,
          paired-Tried writable origin p,
        )
      ])
    ]

-- An attempt succeeds exactly when the window holds that code, has not expired, and the origin is
-- an extension's. Then that extension is the one recorded, in the file too where it can be written,
-- its origin has access and the daemon's own origins are as they were; otherwise there is an error
-- and the policy is as it was. The window is closed whatever comes.
pub redeem_lem :
    (writable : Bool) (now : ℕ) (code origin : Text) (w : PairingWindow) (p : OriginPolicy)
    → (((redeem writable now code origin (w, p)).1 ≡ none)
        ↔ ((w.code ≡ some code) × (now < w.expires_at) × (is_extension_origin origin ≡ true)))
      × Tried writable origin p (
        ((redeem writable now code origin (w, p)).0).1,
        (redeem writable now code origin (w, p)).1,
      )
      × ((((redeem writable now code origin (w, p)).0).0).code ≡ none)
unfolding redeem close_window
redeem_lem writable now code origin w p =
    let done = redeemed_lem writable now code origin w.expires_at p w.code in (done.0, done.1, refl)

paired-IsSafe :
    (writable : Bool) (origin : Text) (p : OriginPolicy)
    → IsSafe p
    → IsSafe (pair_extension writable origin p).0
unfolding pair_extension
paired-IsSafe writable origin p safe = elim (Bool-cases (is_extension_origin origin)) [
  | inr g ↦ rw g safe
  | inl g ↦ rw g (λ id h.
      let q : drop (length extension_scheme) origin ≡ id = cc h in
      subst (λ x. is_extension_origin (extension_scheme ++ x) ≡ true) q
        (ap is_extension_origin (prefix_back origin g) ∙ g))
]

restored-IsSafe :
    (o : Option Text) (p : OriginPolicy) → p.extension_id ≡ none → IsSafe (restore_from o p)
restored-IsSafe none p none_yet = λ id h. absurd (cc (h, none_yet))
restored-IsSafe (some text) p none_yet =
    elim (Bool-cases (is_extension_origin (extension_scheme ++ strip text))) [
      | inl g ↦ rw g (λ id h.
          let q : strip text ≡ id = cc h in
          subst (λ x. is_extension_origin (extension_scheme ++ x) ≡ true) q g)
      | inr g ↦ rw g (λ id h. absurd (cc (h, none_yet)))
    ]

made-IsSafe :
    (self_origins : List Text) (stored : Option Text)
    → IsSafe (make_policy self_origins none stored)
unfolding make_policy restore
made-IsSafe self_origins stored =
    restored-IsSafe stored
      (record { self_origins = self_origins; extension_id = none; stored = stored }) refl

redeemed-IsSafe :
    (writable : Bool) (now : ℕ) (code origin : Text) (expires_at : ℕ) (p : OriginPolicy)
    (o : Option Text)
    → IsSafe p
    → IsSafe (redeemed o expires_at writable now code origin p).0
redeemed-IsSafe writable now code origin expires_at p none safe = safe
redeemed-IsSafe writable now code origin expires_at p (some expected) safe =
    elim (Bool-cases (leb expires_at now)) [
      | inl e ↦ rw e safe
      | inr e ↦ rw e (elim (Bool-cases (code == expected)) [
        | inl f ↦ rw f (paired-IsSafe writable origin p safe)
        | inr f ↦ rw f safe
      ])
    ]

Lives-IsSafe : {self_origins : List Text} {p : OriginPolicy} → Lives self_origins p → IsSafe p
unfolding redeem
Lives-IsSafe (begins stored) = made-IsSafe _ stored
Lives-IsSafe (goes {p = p} l (pairs writable origin)) =
    paired-IsSafe writable origin p (Lives-IsSafe l)
Lives-IsSafe (goes {p = p} l (tries writable now code origin w)) =
    redeemed-IsSafe writable now code origin w.expires_at p w.code (Lives-IsSafe l)
Lives-IsSafe (goes {p = p} l (restarts edited)) = made-IsSafe p.self_origins edited

paired_origin :
    (origin : Text) (o : Option Text)
    → ((id : Text) → o ≡ some id → is_extension_origin (extension_scheme ++ id) ≡ true)
    → is_paired o origin ≡ true
    → is_extension_origin origin ≡ true
paired_origin origin none safe h = absurd (cc h)
paired_origin origin (some id) safe h =
    ap is_extension_origin ((text_eq.beq_iff origin (extension_scheme ++ id)).0 h) ∙ safe id refl

allowed_safe :
    (origin : Text) (p : OriginPolicy)
    → IsSafe p
    → allows (some origin) p ≡ true
    → (contains p.self_origins origin ≡ true) ⊎ (is_extension_origin origin ≡ true)
unfolding allows
allowed_safe origin p safe h = elim (Bool-cases (contains p.self_origins origin)) [
  | inl e ↦ inl e
  | inr e ↦ inr (paired_origin origin p.extension_id safe (rw e at h))
]

-- Whatever was paired or tried, however often the daemon restarted and whatever its file then held,
-- an origin that is let in is one of the server's own or a well-formed extension's.
pub allows_safe :
    {self_origins : List Text} {p : OriginPolicy}
    → Lives self_origins p
    → (origin : Text) → allows (some origin) p ≡ true
    → (contains p.self_origins origin ≡ true) ⊎ (is_extension_origin origin ≡ true)
allows_safe l origin h = allowed_safe origin _ (Lives-IsSafe l) h
