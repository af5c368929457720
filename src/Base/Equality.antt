-- ===== src/Base/Equality.antt =====
-- Python's `==` and `in`, for every type whose equality the code tests.
use Prim.Native.Nat.{ℕ}
use mathlib.Core.Path.{◌≡◌, refl}
use mathlib.Core.Logic.{◌↔◌}
use mathlib.Core.Bool.{Bool, true, false, ◌&&◌, ◌||◌}
use mathlib.Core.List.{List, [], ◌∷◌}
use native.Mathlib.Omega.{arith}
use pporlock.Base.Tests.{eqb, eqb_iff}

-- what `__eq__` answers, and that it answers right
pub record Eq {κ} (K : Type κ) : Type κ where
  pub beq : K → K → Bool
  pub beq_iff : (x y : K) → (beq x y ≡ true) ↔ (x ≡ y)

infix 50 ◌==◌
abbrev pub ◌==◌ {κ} : {K : Type κ} ⦃eq : Eq K⦄ → K → K → Bool
◌==◌ ⦃eq⦄ = eq.beq

module _ {ℓ} {A : Type ℓ} ⦃e : Eq A⦄ where
  -- `a in xs`
  abbrev pub contains : List A → A → Bool
  contains [] wanted = false
  contains (held ∷ rest) wanted = held == wanted || contains rest wanted

instance abbrev pub nat_eq : Eq ℕ
nat_eq = record { beq = eqb; beq_iff = eqb_iff }

module _ {ℓ} {A : Type ℓ} ⦃e : Eq A⦄ where
  pub list_beq : List A → List A → Bool
  list_beq [] [] = true
  list_beq (a ∷ s) (b ∷ t) = a == b && list_beq s t
  list_beq _ _ = false

  pub list_beq_iff : (s t : List A) → (list_beq s t ≡ true) ↔ (s ≡ t)
  unfolding list_beq
  list_beq_iff [] [] = (λ _. refl, λ _. refl)
  list_beq_iff [] (b ∷ t) = ground arith
  list_beq_iff (a ∷ s) [] = ground arith
  list_beq_iff (a ∷ s) (b ∷ t) = ground (arith, e.beq_iff a b, list_beq_iff s t)

  unfoldable pub list_eq : Eq (List A)
  unfolding list_beq
  list_eq = record { beq = list_beq; beq_iff = list_beq_iff }

-- A text is the list of its code points.
instance unfoldable pub text_eq : Eq (List ℕ)
unfolding list_eq
text_eq = list_eq

module _ {ℓ κ} {A : Type ℓ} {B : Type κ} ⦃d : Eq A⦄ ⦃e : Eq B⦄ where
  pub pair_beq : A × B → A × B → Bool
  pair_beq (a, b) (a', b') = a == a' && b == b'

  pub pair_beq_iff : (p q : A × B) → (pair_beq p q ≡ true) ↔ (p ≡ q)
  unfolding pair_beq
  pair_beq_iff (a, b) (a', b') = ground (arith, d.beq_iff a a', e.beq_iff b b')

  instance unfoldable pub pair_eq : Eq (A × B)
  unfolding pair_beq
  pair_eq = record { beq = pair_beq; beq_iff = pair_beq_iff }
