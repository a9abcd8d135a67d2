-- ===== src/Base/Eq.antt =====
-- `==` of the source: on integers, and on std::string, which is a list of bytes.
use Prim.Native.Nat.{ℕ}
use mathlib.Core.Path.{◌≡◌, refl}
use mathlib.Core.Logic.{◌↔◌}
use mathlib.Core.Bool.{Bool, true, false, ◌&&◌}
use mathlib.Core.List.{List, [], ◌∷◌}
use native.Mathlib.Omega.{arith}
use multi_threaded_tcp_chat.Base.Tests.{nat_beq, nat_beq_iff}

pub record IsEq {ℓ} (K : Type ℓ) : Type ℓ where
  pub beq : K → K → Bool
  pub beq_iff : (x y : K) → (beq x y ≡ true) ↔ (x ≡ y)

infix 50 ◌==◌
abbrev pub ◌==◌ {ℓ} : {K : Type ℓ} ⦃eq : IsEq K⦄ → K → K → Bool
◌==◌ ⦃eq⦄ = eq.beq

pub beq_refl {ℓ} : {K : Type ℓ} ⦃eq : IsEq K⦄ (k : K) → (k == k) ≡ true
beq_refl ⦃eq⦄ k = (eq.beq_iff k k).1 refl

instance abbrev pub nat_eq : IsEq ℕ
nat_eq = record { beq = nat_beq; beq_iff = nat_beq_iff }

unfoldable pub text_beq : List ℕ → List ℕ → Bool
text_beq [] [] = true
text_beq [] (y ∷ ys) = false
text_beq (x ∷ xs) [] = false
text_beq (x ∷ xs) (y ∷ ys) = nat_beq x y && text_beq xs ys

pub text_beq_iff : (xs ys : List ℕ) → (text_beq xs ys ≡ true) ↔ (xs ≡ ys)
unfolding text_beq
text_beq_iff [] [] = ground arith
text_beq_iff [] (y ∷ ys) = ground arith
text_beq_iff (x ∷ xs) [] = ground arith
text_beq_iff (x ∷ xs) (y ∷ ys) = ground (arith, text_beq_iff xs ys)

instance abbrev pub text_eq : IsEq (List ℕ)
text_eq = record { beq = text_beq; beq_iff = text_beq_iff }
