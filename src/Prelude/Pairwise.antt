-- ===== src/Prelude/Pairwise.antt =====
-- Lists that are related element by element, and loops that collect the results of fallible steps.
use mathlib.Core.Path.{◌≡◌, ap, subst, ◌∙◌}
use mathlib.Core.List.{List, [], ◌∷◌}
use scrutinizer.Prelude.Results.{Outcome, ok, ◌>>=◌, >>=-split, ok_injective, collect}

-- As many of the one as of the other, related in their order.
abbrev pub Pairwise : {A B : Type 0} → (A → B → Type 0) → List A → List B → Type 0
Pairwise R [] [] = Unit
Pairwise R (x ∷ xs) (y ∷ ys) = R x y × Pairwise R xs ys
Pairwise R _ _ = ⊥

pub collected-Pairwise :
    {A B C : Type 0} (f : A → Outcome B) (g : B → Outcome C) (R : A → C → Type 0)
    → ((x : A) (y : B) (z : C) → f x ≡ ok y → g y ≡ ok z → R x z)
    → (xs : List A) (ys : List B) (zs : List C) → collect f xs ≡ ok ys
    → collect g ys ≡ ok zs
    → Pairwise R xs zs
collected-Pairwise f g R step [] ys zs h k =
    subst (Pairwise R []) (ok_injective (ap (λ m. m >>= collect g) h ∙ k)) tt
collected-Pairwise f g R step (x ∷ xs) ys zs h k =
    let (y, e, h1) = >>=-split (f x) _ h in
    let (ys', rest, h2) = >>=-split (collect f xs) _ h1 in
    let (z, e', k1) = >>=-split (g y) _ (ap (collect g) (ok_injective h2) ∙ k) in
    let (zs', rest', k2) = >>=-split (collect g ys') _ k1 in
    subst (Pairwise R (x ∷ xs)) (ok_injective k2)
      (step x y z e e', collected-Pairwise f g R step xs ys' zs' rest rest')
