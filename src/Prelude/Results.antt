-- ===== src/Prelude/Results.antt =====
-- What a call may end in: a value, an `Err(String)`, a panic (`unwrap` on nothing, `panic!`,
-- `assert!`, an index out of bounds), or, in the models of recursions on fuel, no fuel left.
use Prim.Native.String.{String}
use mathlib.Core.Path.{◌≡◌, refl, ap, ◌∙◌}
use mathlib.Core.Bool.{Bool, true, false}
use scrutinizer.Prelude.Tests.{if◌then◌else◌}
use mathlib.Core.Option.{Option, none, some}
use mathlib.Core.List.{List, [], ◌∷◌, ◌++◌}

pub data Outcome {ℓ} (A : Type ℓ) : Type ℓ where
  ok : A → Outcome A
  err : String → Outcome A
  panic : Outcome A
  out_of_fuel : Outcome A

infixl 5 ◌>>=◌
abbrev pub ◌>>=◌ {ℓ κ} : {X : Type ℓ} {Y : Type κ} → Outcome X → (X → Outcome Y) → Outcome Y
out_of_fuel >>= rest = out_of_fuel
panic >>= rest = panic
err message >>= rest = err message
ok x >>= rest = rest x

module _ {ℓ} {A : Type ℓ} where
  -- `Result::unwrap`
  abbrev pub unwrap : Outcome A → Outcome A
  unwrap (err _) = panic
  unwrap o = o

  -- `Option::unwrap`
  abbrev pub expect : Option A → Outcome A
  expect none = panic
  expect (some a) = ok a

pub ok_injective {ℓ} : {A : Type ℓ} {a b : A} → ok a ≡ ok b → a ≡ b
ok_injective h = cc

pub expect-some {ℓ} : {A : Type ℓ} (o : Option A) (a : A) → expect o ≡ ok a → o ≡ some a
expect-some none a h = absurd (cc)
expect-some (some b) a h = cc

pub unwrap_ok {ℓ} : {A : Type ℓ} (o : Outcome A) (a : A) → unwrap o ≡ ok a → o ≡ ok a
unwrap_ok (ok b) a h = h
unwrap_ok (err m) a h = absurd (cc)
unwrap_ok panic a h = absurd (cc)
unwrap_ok out_of_fuel a h = absurd (cc)

-- A bind that returned: its first part returned a value, and so did the rest on it.
pub >>=-split {ℓ κ} :
    {X : Type ℓ} {Y : Type κ} (part : Outcome X) (rest : X → Outcome Y) {value : Y}
    → (part >>= rest) ≡ ok value
    → (x : X) × (part ≡ ok x) × (rest x ≡ ok value)
>>=-split out_of_fuel rest returned = cc
>>=-split panic rest returned = cc
>>=-split (err message) rest returned = cc
>>=-split (ok x) rest returned = (x, refl, returned)

module _ {ℓ κ} {A : Type ℓ} {B : Type κ} where
  -- A loop that collects the results of fallible steps, and stops at the first that fails.
  abbrev pub collect : (A → Outcome B) → List A → Outcome (List B)
  collect f [] = ok []
  collect f (x ∷ xs) = do y ← f x; ys ← collect f xs; ok (y ∷ ys)

  -- A loop that threads a state.
  abbrev pub each : (B → A → Outcome B) → B → List A → Outcome B
  each f s [] = ok s
  each f s (x ∷ xs) = do s' ← f s x; each f s' xs

-- A bind whose first part returns, and whose rest returns on that value.
pub >>=-returns {ℓ κ} :
    {A : Type ℓ} {B : Type κ} (m : Outcome A) (f : A → Outcome B) (a : A)
    → m ≡ ok a
    → (b : B) × (f a ≡ ok b)
    → (b : B) × ((m >>= f) ≡ ok b)
>>=-returns m f a e r = (r.0, rw e r.1)

-- A conditional that returned: one of its branches did.
pub if_split {ℓ κ} :
    {A : Type ℓ} {P : Type κ} (b : Bool) (x y : Outcome A) {a : A}
    → (x ≡ ok a → P)
    → (y ≡ ok a → P)
    → (if b then x else y) ≡ ok a
    → P
if_split true x y left right h = left h
if_split false x y left right h = right h

-- A loop that returned, at one of its elements.
pub each-split {ℓ κ} :
    {A : Type ℓ} {B : Type κ} (f : B → A → Outcome B) (before after : List A) (x : A) (s : B)
    {t : B}
    → each f s (before ++ x ∷ after) ≡ ok t
    → (u : B) × (v : B) × (each f s before ≡ ok u) × (f u x ≡ ok v) × (each f v after ≡ ok t)
each-split f [] after x s h = let (v, e, rest) = >>=-split (f s x) _ h in (s, v, refl, e, rest)
each-split f (y ∷ before) after x s h =
    let (s', e, rest) = >>=-split (f s y) _ h in
    let (u, v, first, here, last) = each-split f before after x s' rest in
    (u, v, ap (λ m. m >>= λ s''. each f s'' before) e ∙ first, here, last)
