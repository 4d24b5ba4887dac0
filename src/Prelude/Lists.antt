-- ===== src/Prelude/Lists.antt =====
-- Lists: measured by the native numbers, and the iterator adaptors that the source uses.
use Prim.Native.Nat.{ℕ, zero, suc, ◌+◌}
use mathlib.Core.Path.{◌≡◌, refl, ap}
use mathlib.Core.Bool.{Bool, true, false, ◌&&◌, ◌||◌}
use mathlib.Core.Option.{Option, none, some}
use mathlib.Core.List.{List, [], ◌∷◌, ◌++◌, map}
use native.Mathlib.Omega.{arith}
use scrutinizer.Prelude.Tests.{if◌then◌else◌}

module _ {ℓ} {A : Type ℓ} where
  abbrev pub length : List A → ℕ
  length [] = 0
  length (x ∷ xs) = suc (length xs)

  abbrev pub get_elem? : List A → ℕ → Option A
  get_elem? [] i = none
  get_elem? (x ∷ xs) zero = some x
  get_elem? (x ∷ xs) (suc i) = get_elem? xs i

  -- `Iterator::skip`
  abbrev pub drop : ℕ → List A → List A
  drop zero xs = xs
  drop (suc n) [] = []
  drop (suc n) (x ∷ xs) = drop n xs

  -- `Iterator::any`, `Iterator::all`, `Iterator::find`, `Iterator::filter`.
  abbrev pub any : (A → Bool) → List A → Bool
  any p [] = false
  any p (x ∷ xs) = p x || any p xs

  abbrev pub all : (A → Bool) → List A → Bool
  all p [] = true
  all p (x ∷ xs) = p x && all p xs

  abbrev pub find : (A → Bool) → List A → Option A
  find p [] = none
  find p (x ∷ xs) = if p x then some x else find p xs

  abbrev pub keep : (A → Bool) → List A → List A
  keep p [] = []
  keep p (x ∷ xs) = let rest = keep p xs in if p x then x ∷ rest else rest

  pub length-append : (xs ys : List A) → length (xs ++ ys) ≡ length xs + length ys
  length-append [] ys = omega arith
  length-append (x ∷ xs) ys = omega (arith, length-append xs ys)

  pub any-append : (p : A → Bool) (xs ys : List A) → any p (xs ++ ys) ≡ (any p xs || any p ys)
  any-append p [] ys = refl
  any-append p (x ∷ xs) ys = ground (arith, any-append p xs ys)

  -- The first match stays the first when the list grows at its end.
  pub find-append :
      (p : A → Bool) (xs ys : List A) (a : A) → find p xs ≡ some a → find p (xs ++ ys) ≡ some a
  find-append p [] ys a h = absurd (ground arith)
  find-append p (x ∷ xs) ys a h = ground (arith, find-append p xs ys a)

-- Every element of a list has a property.
abbrev pub All {κ ℓ} : {X : Type κ} → (X → Type ℓ) → List X → Type ℓ
All Q [] = Unit
All Q (x ∷ rest) = Q x × All Q rest

module _ {κ ℓ} {X : Type κ} (Q : X → Type ℓ) where
  pub All-append : (front back : List X) → All Q front → All Q back → All Q (front ++ back)
  All-append [] back f b = b
  All-append (x ∷ front) back (here, f) b = (here, All-append front back f b)

pub All-map {κ ℓ} :
    {X : Type κ} {P Q : X → Type ℓ} → ((x : X) → P x → Q x) → (xs : List X) → All P xs → All Q xs
All-map f [] h = h
All-map f (x ∷ xs) (p, h) = (f x p, All-map f xs h)

abbrev pub concat {ℓ} : {A : Type ℓ} → List (List A) → List A
concat [] = []
concat (xs ∷ rest) = xs ++ concat rest

pub All-concat {κ ℓ} :
    {X : Type κ} (Q : X → Type ℓ) (lists : List (List X)) → All (All Q) lists → All Q (concat lists)
All-concat Q [] h = tt
All-concat Q (xs ∷ lists) (here, h) = All-append Q xs (concat lists) here (All-concat Q lists h)

abbrev pub cons_some {ℓ} : {A : Type ℓ} → Option A → List A → List A
cons_some none ys = ys
cons_some (some y) ys = y ∷ ys

module _ {ℓ κ} {A : Type ℓ} {B : Type κ} where
  -- `Iterator::zip`, `Iterator::filter_map`, `enumerate`.
  abbrev pub zip : List A → List B → List (A × B)
  zip [] ys = []
  zip (x ∷ xs) [] = []
  zip (x ∷ xs) (y ∷ ys) = (x, y) ∷ zip xs ys

  abbrev pub filter_map : (A → Option B) → List A → List B
  filter_map f [] = []
  filter_map f (x ∷ xs) = cons_some (f x) (filter_map f xs)

  abbrev pub and_then : Option A → (A → Option B) → Option B
  and_then none f = none
  and_then (some a) f = f a

  abbrev pub flat_map : (A → List B) → List A → List B
  flat_map f [] = []
  flat_map f (x ∷ xs) = f x ++ flat_map f xs

  pub length-map : (f : A → B) (xs : List A) → length (map f xs) ≡ length xs
  length-map f [] = refl
  length-map f (x ∷ xs) = ap suc (length-map f xs)

abbrev pub enumerate_from {ℓ} : {A : Type ℓ} → ℕ → List A → List (ℕ × A)
enumerate_from i [] = []
enumerate_from i (x ∷ xs) = (i, x) ∷ enumerate_from (suc i) xs

abbrev pub unwrap_or {ℓ} : {A : Type ℓ} → Option A → A → A
unwrap_or none d = d
unwrap_or (some a) d = a

-- `(from..from + n).collect()`
abbrev pub range_from : ℕ → ℕ → List ℕ
range_from i zero = []
range_from i (suc n) = i ∷ range_from (suc i) n
