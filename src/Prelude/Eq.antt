-- ===== src/Prelude/Eq.antt =====
-- Rust's `Eq`: a Boolean test that is an equivalence, which need not be the identity.
use mathlib.Core.Path.{◌≡◌, refl}
use mathlib.Core.Bool.{Bool, true, false, ◌&&◌}
use mathlib.Core.List.{List, [], ◌∷◌}
use mathlib.Core.Logic.{◌↔◌}
use native.Mathlib.Omega.{arith}
use Prim.Native.Nat.{ℕ}
use Prim.Native.String.{String}
use text.Mathlib.Text.{◌==◌ as str_eq}
use text.Mathlib.TextEquality.{eq_iff}
use scrutinizer.Prelude.Tests.{nat_eqb, nat_eqb_iff}

pub record Eq {ℓ} (K : Type ℓ) : Type ℓ where
  pub beq : K → K → Bool
  pub beq_refl : (x : K) → beq x x ≡ true
  pub beq_congr : (x y z : K) → beq x y ≡ true → beq x z ≡ beq y z

infix 50 ◌==◌
abbrev pub ◌==◌ {ℓ} : {K : Type ℓ} ⦃test : Eq K⦄ → K → K → Bool
◌==◌ ⦃test⦄ x y = test.beq x y

module _ {ℓ} {A : Type ℓ} ⦃e : Eq A⦄ where
  pub eq_comm : (a b : A) → (a == b) ≡ (b == a)
  eq_comm a b = ground (arith, e.beq_refl a, e.beq_refl b, e.beq_congr a b a, e.beq_congr b a b)

  pub eq_trans : (a b c : A) → (a == b) ≡ true → (b == c) ≡ true → (a == c) ≡ true
  eq_trans a b c h k = ground (arith, e.beq_congr a b c)

-- `==` of sequences: as long, and equal at each place.
module _ {ℓ} {K : Type ℓ} (test : K → K → Bool) where
  abbrev pub lists_eq : List K → List K → Bool
  lists_eq [] [] = true
  lists_eq (x ∷ xs) (y ∷ ys) = test x y && lists_eq xs ys
  lists_eq _ _ = false

  pub lists_eq_refl : ((x : K) → test x x ≡ true) → (xs : List K) → lists_eq xs xs ≡ true
  lists_eq_refl h [] = refl
  lists_eq_refl h (x ∷ xs) = ground (arith, h x, lists_eq_refl h xs)

  pub lists_eq_congr :
      ((x y z : K) → test x y ≡ true → test x z ≡ test y z)
      → (xs ys zs : List K) → lists_eq xs ys ≡ true
      → lists_eq xs zs ≡ lists_eq ys zs
  lists_eq_congr h [] [] zs e = refl
  lists_eq_congr h (x ∷ xs) (y ∷ ys) (z ∷ zs) e = ground (arith, h x y z, lists_eq_congr h xs ys zs)
  lists_eq_congr h (x ∷ xs) (y ∷ ys) [] e = refl
  lists_eq_congr h xs ys zs e = cc

pub congr_of_iff {ℓ} :
    {A : Type ℓ} (test : A → A → Bool)
    → ((a b : A) → (test a b ≡ true) ↔ (a ≡ b))
    → (a b c : A) → test a b ≡ true
    → test a c ≡ test b c
congr_of_iff test iff a b c h = let p = (iff a b).0 h in cc

-- A test that decides identity is an instance.
abbrev pub eq_of_iff {ℓ} :
    {A : Type ℓ} (test : A → A → Bool) → ((a b : A) → (test a b ≡ true) ↔ (a ≡ b)) → Eq A
eq_of_iff test iff = record {
  beq = test;
  beq_refl = λ a. (iff a a).1 refl;
  beq_congr = congr_of_iff test iff;
}

instance abbrev pub nat_eq : Eq ℕ
nat_eq = eq_of_iff nat_eqb nat_eqb_iff

instance abbrev pub string_eq : Eq String
string_eq = eq_of_iff str_eq eq_iff
