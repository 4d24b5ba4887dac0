-- ===== src/Prelude/HashMap.antt =====
-- `std::collections::HashMap`, as the list of its entries in the order of iteration.
use mathlib.Core.Path.{◌≡◌, refl, ap, ◌∙◌}
use mathlib.Core.Bool.{true}
use mathlib.Core.Option
use mathlib.Core.Option.{Option, none, some}
use mathlib.Core.List.{List, [], ◌∷◌}
use native.Mathlib.Omega.{arith}
use scrutinizer.Prelude.Tests.{if◌then◌else◌}
use scrutinizer.Prelude.Lists.{unwrap_or}
use scrutinizer.Prelude.Eq.{Eq, ◌==◌, eq_comm}

abbrev pub HashMap : Type 0 → Type 0 → Type 0
HashMap K V = List (K × V)

written_back : {V : Type 0} (o : Option V) (v : V) → unwrap_or (Option.map (λ _. v) o) v ≡ v
written_back none v = refl
written_back (some _) v = refl

module _ {K V : Type 0} ⦃e : Eq K⦄ where
  unfoldable pub get : HashMap K V → K → Option V
  get [] k = none
  get ((j, v) ∷ m) k = if j == k then some v else get m k

  -- A write through `get_mut`.
  unfoldable pub modify : HashMap K V → K → (V → V) → HashMap K V
  modify [] k f = []
  modify ((j, v) ∷ m) k f = if j == k then (j, f v) ∷ m else (j, v) ∷ modify m k f

  -- `entry(k).and_modify(f).or_insert(v)`
  unfoldable pub upsert : HashMap K V → K → (V → V) → V → HashMap K V
  upsert [] k f d = (k, d) ∷ []
  upsert ((j, v) ∷ m) k f d = if j == k then (j, f v) ∷ m else (j, v) ∷ upsert m k f d

  -- `from_iter`: a later value replaces an earlier one.
  unfoldable pub insert_all : HashMap K V → List (K × V) → HashMap K V
  insert_all m [] = m
  insert_all m ((k, v) ∷ rest) = insert_all (upsert m k (λ _. v) v) rest

  pub get_congr : (m : HashMap K V) (k j : K) → (k == j) ≡ true → get m k ≡ get m j
  unfolding get
  get_congr [] k j h = refl
  get_congr ((i, v) ∷ m) k j h =
      ground (arith, get_congr m k j h, e.beq_congr k j i, eq_comm k i, eq_comm j i)

  pub get-modify :
      (m : HashMap K V) (k j : K) (f : V → V)
      → get (modify m k f) j ≡ (if k == j then Option.map f (get m j) else get m j)
  unfolding get modify
  get-modify [] k j f = ground arith
  get-modify ((i, v) ∷ m) k j f =
      ground
        (arith, get-modify m k j f, e.beq_congr i k j, e.beq_congr k j i, eq_comm k i, eq_comm j i)

  pub get-upsert :
      (m : HashMap K V) (k j : K) (f : V → V) (d : V)
      → get (upsert m k f d) j
        ≡ (if k == j then some (unwrap_or (Option.map f (get m k)) d) else get m j)
  unfolding get upsert
  get-upsert [] k j f d = ground arith
  get-upsert ((i, v) ∷ m) k j f d =
      ground (
        arith,
        get-upsert m k j f d,
        e.beq_congr i k j,
        e.beq_congr k j i,
        eq_comm k i,
        eq_comm j i,
      )

  -- `insert`: the value is overwritten, or new.
  pub get-insert :
      (m : HashMap K V) (k j : K) (v : V)
      → get (upsert m k (λ _. v) v) j ≡ (if k == j then some v else get m j)
  get-insert m k j v =
      get-upsert m k j (λ _. v) v
      ∙ ap (λ w. if k == j then some w else get m j) (written_back (get m k) v)
