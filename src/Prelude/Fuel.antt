-- ===== src/Prelude/Fuel.antt =====
-- Recursions on fuel: what a call with more fuel ends in.
use mathlib.Core.Path.{◌≡◌, refl, sym, ap, subst}
use mathlib.Core.Logic.{◌⊎◌, inl, inr}
use mathlib.Core.List.{List, [], ◌∷◌}
use scrutinizer.Prelude.Results.{Outcome, ok, err, panic, out_of_fuel, ◌>>=◌, each, collect}

-- The second ends as the first does, unless the first ran out of fuel.
abbrev pub IsBelow {ℓ} : {A : Type ℓ} → Outcome A → Outcome A → Type ℓ
IsBelow m m' = (m ≡ out_of_fuel) ⊎ (m ≡ m')

pub IsBelow-ends {ℓ} : {A : Type ℓ} (m m' : Outcome A) → IsBelow m m' → ¬ (m ≡ out_of_fuel) → m' ≡ m
IsBelow-ends m m' (inl e) ends = absurd (ends e)
IsBelow-ends m m' (inr e) ends = sym e

pub >>=-IsBelow {ℓ κ} :
    {A : Type ℓ} {B : Type κ} (m m' : Outcome A) (f f' : A → Outcome B)
    → IsBelow m m'
    → ((x : A) → IsBelow (f x) (f' x))
    → IsBelow (m >>= f) (m' >>= f')
>>=-IsBelow out_of_fuel m' f f' h k = inl refl
>>=-IsBelow panic m' f f' (inl e) k = absurd (cc)
>>=-IsBelow panic m' f f' (inr e) k = inr (ap (λ n. n >>= f') e)
>>=-IsBelow (err message) m' f f' (inl e) k = absurd (cc)
>>=-IsBelow (err message) m' f f' (inr e) k = inr (ap (λ n. n >>= f') e)
>>=-IsBelow (ok x) m' f f' (inl e) k = absurd (cc)
>>=-IsBelow (ok x) m' f f' (inr e) k = subst (λ n. IsBelow (f x) (n >>= f')) e (k x)

pub each-IsBelow {ℓ κ} :
    {A : Type ℓ} {B : Type κ} (f f' : B → A → Outcome B)
    → ((s : B) (x : A) → IsBelow (f s x) (f' s x))
    → (xs : List A) (s : B) → IsBelow (each f s xs) (each f' s xs)
each-IsBelow f f' h [] s = inr refl
each-IsBelow f f' h (x ∷ xs) s =
    >>=-IsBelow (f s x) (f' s x) _ _ (h s x) (λ t. each-IsBelow f f' h xs t)

pub collect-IsBelow {ℓ κ} :
    {A : Type ℓ} {B : Type κ} (f f' : A → Outcome B)
    → ((x : A) → IsBelow (f x) (f' x))
    → (xs : List A) → IsBelow (collect f xs) (collect f' xs)
collect-IsBelow f f' h [] = inr refl
collect-IsBelow f f' h (x ∷ xs) = >>=-IsBelow (f x) (f' x) _ _ (h x) (λ y.
    >>=-IsBelow (collect f xs) (collect f' xs) _ _ (collect-IsBelow f f' h xs) (λ ys. inr refl))
