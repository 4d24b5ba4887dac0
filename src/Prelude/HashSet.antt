-- ===== src/Prelude/HashSet.antt =====
-- `std::collections::HashSet`, as the list of its elements in the order of iteration.
use Prim.Native.Nat.{◌+◌, ◌≤◌}
use mathlib.Core.Path.{◌≡◌, refl}
use mathlib.Core.Bool.{Bool, true, false, ◌&&◌, ◌||◌, not}
use mathlib.Core.List.{List, [], ◌∷◌, ◌++◌}
use native.Mathlib.Omega.{arith}
use scrutinizer.Prelude.Tests.{if◌then◌else◌, nat_eqb, nat_eqb_iff, Bool-cases}
use mathlib.Core.Logic.{inl, inr}
use scrutinizer.Prelude.Lists.{length, any, all, any-append, length-append}
use scrutinizer.Prelude.Eq.{Eq, ◌==◌, eq_comm}

module _ {ℓ} {A : Type ℓ} ⦃e : Eq A⦄ where
  unfoldable pub contains : List A → A → Bool
  contains xs a = any (λ x. x == a) xs

  -- `insert` answers whether the element is new.
  unfoldable pub insert : List A → A → List A × Bool
  insert xs a = if contains xs a then (xs, false) else (xs ++ a ∷ [], true)

  -- `fold(false, |updated, x| self.insert(x) || updated)`
  unfoldable pub extend : List A → List A → List A × Bool
  extend xs [] = (xs, false)
  extend xs (y ∷ ys) =
      let (xs', fresh) = insert xs y in
      let (xs'', updated) = extend xs' ys in (xs'', fresh || updated)

  unfoldable pub from_iter : List A → List A
  from_iter ys = (extend [] ys).0

  -- `PartialEq`: as many elements, and each of one side in the other.
  unfoldable pub set_eq : List A → List A → Bool
  set_eq xs ys = nat_eqb (length xs) (length ys) && all (contains ys) xs

  all_contained :
      (xs ys : List A)
      → ((a : A) → contains xs a ≡ true → contains ys a ≡ true)
      → all (contains ys) xs ≡ true
  unfolding contains
  all_contained [] ys h = refl
  all_contained (x ∷ xs) ys h =
      ground (arith, h x, e.beq_refl x, all_contained xs ys (λ a k. h a (ground (arith, k))))

  pub set_eq_refl : (xs : List A) → set_eq xs xs ≡ true
  unfolding set_eq
  set_eq_refl xs =
      ground (arith, (nat_eqb_iff (length xs) (length xs)).1 refl, all_contained xs xs (λ a h. h))

  pub contains_congr : (xs : List A) (a b : A) → (a == b) ≡ true → contains xs a ≡ contains xs b
  unfolding contains
  contains_congr [] a b h = refl
  contains_congr (x ∷ xs) a b h =
      ground (arith, contains_congr xs a b h, e.beq_congr a b x, eq_comm a x, eq_comm b x)

  pub contains-cons :
      (x : A) (xs : List A) (a : A) → contains (x ∷ xs) a ≡ (x == a || contains xs a)
  unfolding contains
  contains-cons x xs a = refl

  pub contains-nil : (a : A) → contains [] a ≡ false
  unfolding contains
  contains-nil a = refl

  pub contains-append :
      (xs ys : List A) (a : A) → contains (xs ++ ys) a ≡ (contains xs a || contains ys a)
  unfolding contains
  contains-append xs ys a = any-append (λ x. x == a) xs ys

  -- `insert` adds the element and nothing else.
  pub contains-insert :
      (xs : List A) (a b : A) → contains (insert xs a).0 b ≡ (contains xs b || (a == b))
  unfolding insert
  contains-insert xs a b = elim (Bool-cases (contains xs a)) [
    | inl old ↦ rw old (ground (arith, contains_congr xs a b))
    | inr new ↦ rw (new, contains-append) (unfold contains in ground arith)
  ]

  pub contains-extend :
      (xs ys : List A) (b : A) → contains (extend xs ys).0 b ≡ (contains xs b || contains ys b)
  unfolding extend
  contains-extend xs [] b = unfold contains in ground arith
  contains-extend xs (y ∷ ys) b =
      ground
        (arith, contains-extend (insert xs y).0 ys b, contains-insert xs y b, contains-cons y ys b)

  -- The flag says exactly whether the set has changed.
  pub insert_fresh : (xs : List A) (a : A) → (insert xs a).1 ≡ not (contains xs a)
  unfolding insert
  insert_fresh xs a = ground arith

  pub length-insert :
      (xs : List A) (a : A)
      → length (insert xs a).0 ≡ length xs + (if (insert xs a).1 then 1 else 0)
  unfolding insert
  length-insert xs a = ground (arith, length-append xs (a ∷ []))

  pub insert_unchanged : (xs : List A) (a : A) → (insert xs a).1 ≡ false → (insert xs a).0 ≡ xs
  unfolding insert
  insert_unchanged xs a h = ground arith

  pub length-extend :
      (xs ys : List A) → length xs + (if (extend xs ys).1 then 1 else 0) ≤ length (extend xs ys).0
  unfolding extend
  length-extend xs [] = omega arith
  length-extend xs (y ∷ ys) = ground (arith, length-extend (insert xs y).0 ys, length-insert xs y)

  pub extend_unchanged : (xs ys : List A) → (extend xs ys).1 ≡ false → (extend xs ys).0 ≡ xs
  unfolding extend
  extend_unchanged xs [] h = refl
  extend_unchanged xs (y ∷ ys) h =
      ground (arith, extend_unchanged (insert xs y).0 ys, insert_unchanged xs y)
