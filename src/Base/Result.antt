-- ===== src/Base/Result.antt =====
-- What a Python function returns or raises.
use mathlib.Core.Path.{◌≡◌, refl}
use mathlib.Core.Bool.{Bool, true, false}

pub data Result {ε ℓ} (E : Type ε) (A : Type ℓ) : Type (ε ⊔ ℓ) where
  ok : A → Result E A
  err : E → Result E A

module _ {ε ℓ κ} {E : Type ε} {A : Type ℓ} {B : Type κ} where
  infixl 5 ◌>>=◌
  abbrev pub ◌>>=◌ : Result E A → (A → Result E B) → Result E B
  err why >>= next = err why
  ok x >>= next = next x

  -- a call that returned was made of two that did
  pub >>=-eq-ok :
      (call : Result E A) (next : A → Result E B) {y : B}
      → call >>= next ≡ ok y
      → (x : A) × (call ≡ ok x) × (next x ≡ ok y)
  >>=-eq-ok (err why) next returned = cc
  >>=-eq-ok (ok x) next returned = (x, refl, returned)

-- `if test: raise why`
abbrev pub refuse_if {ε} : {E : Type ε} → Bool → E → Result E (Unit {0})
refuse_if false why = ok tt
refuse_if true why = err why

module _ {ε ℓ} {E : Type ε} {B : Type ℓ} where
  infixl 5 ◌>>◌
  abbrev pub ◌>>◌ : Result E (Unit {0}) → Result E B → Result E B
  first >> later = first >>= λ _. later

  pub ok_inj : (x y : B) → ◌≡◌ {A = Result E B} (ok x) (ok y) → x ≡ y
  ok_inj x y same = cc

  pub >>-eq-ok :
      (test : Bool) (why : E) (later : Result E B) {y : B}
      → (refuse_if test why >> later) ≡ ok y
      → (test ≡ false) × (later ≡ ok y)
  >>-eq-ok false why later returned = (refl, returned)
  >>-eq-ok true why later returned = cc
