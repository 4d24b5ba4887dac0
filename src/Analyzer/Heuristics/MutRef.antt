-- ===== src/Analyzer/Heuristics/MutRef.antt =====
-- scrutils/src/analyzer/heuristics/transmute.rs: the search for `&mut` in the target of a transmute.
use scrutinizer.Prelude.{
  ℕ, zero, suc, ◌≤◌, ◌≡◌, ◌↔◌, ◌⊎◌, inl, inr, refl, sym, subst, arith, Bool, true, false, List, [],
  ◌∷◌, some, some_injective, ok, Outcome, each, get_elem?, ok_injective, >>=-split, Bool-cases,
}
use scrutinizer.Rustc.Queries.{Tcx}
use scrutinizer.Analyzer.Heuristics.{is_mut, adt_fields, visit_ty, contains_mut_ref}

-- Of a loop that returned: what its steps keep up is up at the end, and each element was visited.
each_visits :
    {A B : Type 0} (f : B → A → Outcome B) (s r : B) (xs : List A) (i : ℕ) (x : A)
    → each f s xs ≡ ok r
    → get_elem? xs i ≡ some x
    → (s' : B) × (r' : B) × (f s' x ≡ ok r')
each_visits f s r [] i x e at = absurd (cc)
each_visits f s r (y ∷ xs) zero x e at =
    let (s', e1, e2) = >>=-split (f s y) _ e in
    (s, s', subst (λ z. f s z ≡ ok s') (some_injective at) e1)
each_visits f s r (y ∷ xs) (suc i) x e at =
    let (s', e1, e2) = >>=-split (f s y) _ e in each_visits f s' r xs i x e2 at

module _ {A : Type 0} (f : Bool → A → Outcome Bool) where
  -- A flag that no step lowers is up at the end if it was up, or if a step raised it.
  each_keeps :
      ((s r : Bool) (x : A) → f s x ≡ ok r → s ≡ true → r ≡ true)
      → (s r : Bool) (xs : List A) → each f s xs ≡ ok r
      → s ≡ true
      → r ≡ true
  each_keeps keeps s r [] e up = subst (λ b. b ≡ true) (ok_injective e) up
  each_keeps keeps s r (y ∷ xs) e up =
      let (s', e1, e2) = >>=-split (f s y) _ e in each_keeps keeps s' r xs e2 (keeps s s' y e1 up)

  each_raises :
      ((s r : Bool) (x : A) → f s x ≡ ok r → s ≡ true → r ≡ true)
      → (s r : Bool) (xs : List A) → each f s xs ≡ ok r
      → (i : ℕ) (x : A) → get_elem? xs i ≡ some x
      → ((s' r' : Bool) → f s' x ≡ ok r' → r' ≡ true)
      → r ≡ true
  each_raises keeps s r [] e i x at raises = absurd (cc)
  each_raises keeps s r (y ∷ xs) e zero x at raises =
      let (s', e1, e2) = >>=-split (f s y) _ e in
      each_keeps keeps s' r xs e2 (raises s s' (subst (λ z. f s z ≡ ok s') (some_injective at) e1))
  each_raises keeps s r (y ∷ xs) e (suc i) x at raises =
      let (s', e1, e2) = >>=-split (f s y) _ e in each_raises keeps s' r xs e2 i x at raises

  -- A flag that is up at the end was up before, or an element accounts for it.
  each_sound :
      (P : A → Type 0)
      → ((s r : Bool) (x : A) → f s x ≡ ok r → r ≡ true → (s ≡ true) ⊎ P x)
      → (s r : Bool) (xs : List A) → each f s xs ≡ ok r
      → r ≡ true
      → (s ≡ true) ⊎ ((i : ℕ) × (x : A) × (get_elem? xs i ≡ some x) × P x)
  each_sound P step s r [] e up = inl (subst (λ b. b ≡ true) (sym (ok_injective e)) up)
  each_sound P step s r (y ∷ xs) e up =
      let (s', e1, e2) = >>=-split (f s y) _ e in
      elim (each_sound P step s' r xs e2 up) [
        | inr (i, x, at, p) ↦ inr (suc i, x, at, p)
        | inl up' ↦ elim (step s s' y e1 up') [
          | inl before ↦ inl before
          | inr p ↦ inr (0, y, refl, p)
        ]
      ]

module _ ⦃tcx : Tcx⦄ where
  open tcx use {Ty, components}

  -- A type is inside another: it is that type, or it is inside the type of a field of a variant, or
  -- inside a type that the type is made of.
  pub data Inside : Ty → Ty → Type 0 where
    self : (ty : Ty) → Inside ty ty
    in_field :
        (ty v u : Ty) (i : ℕ) → get_elem? (adt_fields ty) i ≡ some v → Inside v u → Inside ty u
    in_part :
        (ty v u : Ty) (i : ℕ) → get_elem? (components ty) i ≡ some v → Inside v u → Inside ty u

  abbrev pub is_mut_ref_ty : Ty → Bool
  is_mut_ref_ty ty = is_mut (tcx.ref_mutability ty)

  abbrev pub HasMutRef : Ty → Type 0
  HasMutRef ty = (u : Ty) × Inside ty u × (is_mut_ref_ty u ≡ true)

  visit_keeps : (n : ℕ) (s r : Bool) (ty : Ty) → visit_ty n s ty ≡ ok r → s ≡ true → r ≡ true
  unfolding visit_ty
  visit_keeps zero s r ty e up = absurd (cc)
  visit_keeps (suc n) s r ty e up =
      let (b, e1, e2) = >>=-split (each (visit_ty n) s (adt_fields ty)) _ e in
      let in_fields = each_keeps (visit_ty n) (visit_keeps n) s b (adt_fields ty) e1 up in
      each_keeps (visit_ty n) (visit_keeps n) _ r (components ty) e2 (ground arith)

  visit_complete :
      (n : ℕ) (s r : Bool) (ty u : Ty)
      → visit_ty n s ty ≡ ok r
      → Inside ty u
      → is_mut_ref_ty u ≡ true
      → r ≡ true
  unfolding visit_ty
  visit_complete zero s r ty u e inside m = absurd (cc)
  visit_complete (suc n) s r ty u e (self _) m =
      let (b, e1, e2) = >>=-split (each (visit_ty n) s (adt_fields ty)) _ e in
      each_keeps (visit_ty n) (visit_keeps n) _ r (components ty) e2 (ground arith)
  visit_complete (suc n) s r ty u e (in_field _ v _ i at inside) m =
      let (b, e1, e2) = >>=-split (each (visit_ty n) s (adt_fields ty)) _ e in
      let up =
        each_raises (visit_ty n) (visit_keeps n) s b (adt_fields ty) e1 i v at
          (λ s' r' e'. visit_complete n s' r' v u e' inside m) in
      each_keeps (visit_ty n) (visit_keeps n) _ r (components ty) e2 (ground arith)
  visit_complete (suc n) s r ty u e (in_part _ v _ i at inside) m =
      let (b, e1, e2) = >>=-split (each (visit_ty n) s (adt_fields ty)) _ e in
      each_raises (visit_ty n) (visit_keeps n) _ r (components ty) e2 i v at
        (λ s' r' e'. visit_complete n s' r' v u e' inside m)

  visit_sound :
      (n : ℕ) (s r : Bool) (ty : Ty) → visit_ty n s ty ≡ ok r → r ≡ true → (s ≡ true) ⊎ HasMutRef ty
  unfolding visit_ty
  visit_sound zero s r ty e up = absurd (cc)
  visit_sound (suc n) s r ty e up =
      let (b, e1, e2) = >>=-split (each (visit_ty n) s (adt_fields ty)) _ e in
      let fields = each_sound (visit_ty n) HasMutRef (visit_sound n) s b (adt_fields ty) e1 in
      elim (each_sound (visit_ty n) HasMutRef (visit_sound n) _ r (components ty) e2 up) [
        | inr (i, v, at, (u, inside, m)) ↦ inr (u, in_part ty v u i at inside, m)
        | inl mid ↦ elim (Bool-cases (is_mut_ref_ty ty)) [
          | inl m ↦ inr (ty, self ty, m)
          | inr m ↦ elim (fields (ground arith)) [
            | inl before ↦ inl before
            | inr (i, v, at, (u, inside, m')) ↦ inr (u, in_field ty v u i at inside, m')
          ]
        ]
      ]

  -- When `contains_mut_ref` returns, it answers whether a mutable reference is inside the type.
  pub contains_mut_ref_lem :
      (depth : ℕ) (ty : Ty) (answer : Bool)
      → contains_mut_ref depth ty ≡ ok answer
      → (answer ≡ true) ↔ HasMutRef ty
  unfolding contains_mut_ref
  contains_mut_ref_lem depth ty answer e = (
    λ up. elim (visit_sound depth false answer ty e up) [ inl h ↦ absurd (cc) | inr h ↦ h ],
    λ h. visit_complete depth false answer ty h.0 e h.1 h.2,
  )

  -- A type that is inside one of its own fields is visited without end: no depth is enough.
  within_itself :
      (n : ℕ) (s r : Bool) (ty u : Ty)
      → visit_ty n s ty ≡ ok r
      → Inside ty u
      → (m : ℕ) × (s' : Bool) × (r' : Bool) × (m ≤ n) × (visit_ty m s' u ≡ ok r')
  unfolding visit_ty
  within_itself zero s r ty u e inside = absurd (cc)
  within_itself (suc n) s r ty u e (self _) = (suc n, s, r, omega arith, e)
  within_itself (suc n) s r ty u e (in_field _ v _ i at inside) =
      let (b, e1, e2) = >>=-split (each (visit_ty n) s (adt_fields ty)) _ e in
      let (s1, r1, e3) = each_visits (visit_ty n) s b (adt_fields ty) i v e1 at in
      let (m, s2, r2, le, e4) = within_itself n s1 r1 v u e3 inside in (m, s2, r2, omega arith, e4)
  within_itself (suc n) s r ty u e (in_part _ v _ i at inside) =
      let (b, e1, e2) = >>=-split (each (visit_ty n) s (adt_fields ty)) _ e in
      let (s1, r1, e3) = each_visits (visit_ty n) _ r (components ty) i v e2 at in
      let (m, s2, r2, le, e4) = within_itself n s1 r1 v u e3 inside in (m, s2, r2, omega arith, e4)

  never_returns :
      (k n : ℕ) (s r : Bool) (ty v : Ty) (i : ℕ)
      → n ≤ k
      → get_elem? (adt_fields ty) i ≡ some v
      → Inside v ty
      → ¬ (visit_ty n s ty ≡ ok r)
  unfolding visit_ty
  never_returns k zero s r ty v i le at inside e = absurd (cc)
  never_returns zero (suc n) s r ty v i le at inside e = absurd (omega arith)
  never_returns (suc k) (suc n) s r ty v i le at inside e =
      let (b, e1, e2) = >>=-split (each (visit_ty n) s (adt_fields ty)) _ e in
      let (s1, r1, e3) = each_visits (visit_ty n) s b (adt_fields ty) i v e1 at in
      let (m, s2, r2, m_le, e4) = within_itself n s1 r1 v ty e3 inside in
      never_returns k m s2 r2 ty v i (omega arith) at inside e4

  -- On a struct or an enum that is inside the type of one of its own fields `contains_mut_ref`
  -- gives no answer, however deep it may go.
  pub contains_mut_ref-recursive :
      (depth : ℕ) (ty v : Ty) (i : ℕ) (answer : Bool)
      → get_elem? (adt_fields ty) i ≡ some v
      → Inside v ty
      → ¬ (contains_mut_ref depth ty ≡ ok answer)
  unfolding contains_mut_ref
  contains_mut_ref-recursive depth ty v i answer at inside =
      never_returns depth depth false answer ty v i (omega arith) at inside
