-- ===== src/Common/ArgTys/Merged.antt =====
-- scrutils/src/common/arg_tys.rs: the types that the arguments of a call are tracked with.
use scrutinizer.Prelude.{
  ℕ, zero, suc, ◌≡◌, refl, ap, ◌∙◌, arith, ◌⊎◌, inl, inr, List, [], ◌∷◌, map, some, some_injective,
  ok, >>=-split, ok_injective, expect, expect-some, get_elem?, zip, length, nat_eqb, Bool-cases,
  nat_eqb_iff, sym,
}
use scrutinizer.Rustc.Queries.{Tcx}
use scrutinizer.Common.TrackedTy.{TrackedTy, present, erased, spread_tuple}
use scrutinizer.Common.ArgTys.{ArgTys, merge_arg, merge, as_closure}

module _ ⦃tcx : Tcx⦄ where
  open tcx use {Ty}

  -- Each argument has its declared type where that is known, and the call's where it is erased.
  abbrev pub IsPreferred : List TrackedTy → List TrackedTy → List TrackedTy → Type 0
  IsPreferred inferred provided args =
      (length args ≡ length inferred)
      × ((i : ℕ) (ty : Ty)
          → get_elem? provided i ≡ some (present ty)
          → get_elem? args i ≡ some (present ty))
      × ((i : ℕ) (tys : List Ty) (call : TrackedTy)
          → get_elem? provided i ≡ some (erased tys)
          → get_elem? inferred i ≡ some call
          → get_elem? args i ≡ some call)

  -- Where the call has another number of arguments than is declared, the call's types are taken.
  abbrev pub IsMerged : List TrackedTy → List TrackedTy → List TrackedTy → Type 0
  IsMerged inferred provided args =
      ((length inferred ≡ length provided) × IsPreferred inferred provided args)
      ⊎ (¬ (length inferred ≡ length provided) × (args ≡ inferred))

  length-merged :
      (inferred provided : List TrackedTy)
      → length inferred ≡ length provided
      → length (map (λ p. merge_arg p.0 p.1) (zip inferred provided)) ≡ length inferred
  length-merged [] provided h = refl
  length-merged (x ∷ xs) [] h = absurd (omega (arith, h))
  length-merged (x ∷ xs) (y ∷ ys) h = ap suc (length-merged xs ys (omega (arith, h)))

  merged-present :
      (inferred provided : List TrackedTy)
      → length inferred ≡ length provided
      → (i : ℕ) (ty : Ty) → get_elem? provided i ≡ some (present ty)
      → get_elem? (map (λ p. merge_arg p.0 p.1) (zip inferred provided)) i ≡ some (present ty)
  unfolding merge_arg
  merged-present inferred [] h i ty e = absurd (cc)
  merged-present [] (y ∷ ys) h i ty e = absurd (omega (arith, h))
  merged-present (x ∷ xs) (y ∷ ys) h zero ty e = ap (λ d. some (merge_arg x d)) (some_injective e)
  merged-present (x ∷ xs) (y ∷ ys) h (suc i) ty e = merged-present xs ys (omega (arith, h)) i ty e

  merged-erased :
      (inferred provided : List TrackedTy)
      → (i : ℕ) (tys : List Ty) (call : TrackedTy) → get_elem? provided i ≡ some (erased tys)
      → get_elem? inferred i ≡ some call
      → get_elem? (map (λ p. merge_arg p.0 p.1) (zip inferred provided)) i ≡ some call
  unfolding merge_arg
  merged-erased inferred [] i tys call e k = absurd (cc)
  merged-erased [] (y ∷ ys) i tys call e k = absurd (cc)
  merged-erased (x ∷ xs) (y ∷ ys) zero tys call e k =
      ap (λ d. some (merge_arg x d)) (some_injective e) ∙ k
  merged-erased (x ∷ xs) (y ∷ ys) (suc i) tys call e k = merged-erased xs ys i tys call e k

  pub merge-IsMerged :
      (inferred provided : ArgTys)
      → IsMerged inferred.arg_tys provided.arg_tys (merge inferred provided).arg_tys
  unfolding merge
  merge-IsMerged inferred provided =
      elim (Bool-cases (nat_eqb (length inferred.arg_tys) (length provided.arg_tys))) [
        | inl e ↦
            let same : length inferred.arg_tys ≡ length provided.arg_tys =
              (nat_eqb_iff (length inferred.arg_tys) (length provided.arg_tys)).0 e in
            rw e (
              inl (
                same,
                (
                  length-merged inferred.arg_tys provided.arg_tys same,
                  merged-present inferred.arg_tys provided.arg_tys same,
                  merged-erased inferred.arg_tys provided.arg_tys,
                ),
              ))
        | inr e ↦ rw e (
            inr (
              λ same. absurd (
                  let f =
                    (nat_eqb_iff (length inferred.arg_tys) (length provided.arg_tys)).1 same in
                  cc),
              refl,
            ))
      ]

  -- The arguments of a closure: itself, and the components of the tuple that it is called with.
  abbrev pub IsSpread : List TrackedTy → List TrackedTy → Type 0
  IsSpread arg_tys inferred =
      (self : TrackedTy) × (args : TrackedTy) × (others : List TrackedTy) × (components : List
        TrackedTy)
      × (arg_tys ≡ self ∷ args ∷ others)
      × (spread_tuple args ≡ ok components)
      × (inferred ≡ self ∷ components)

  first_two :
      {A : Type 0} (xs : List A) (x y : A)
      → get_elem? xs 0 ≡ some x
      → get_elem? xs 1 ≡ some y
      → (rest : List A) × (xs ≡ x ∷ y ∷ rest)
  first_two [] x y e k = absurd (cc)
  first_two (a ∷ []) x y e k = absurd (cc)
  first_two (a ∷ b ∷ rest) x y e k =
      (rest, ap (λ l. l ∷ b ∷ rest) (some_injective e) ∙ ap (λ l. x ∷ l ∷ rest) (some_injective k))

  pub as_closure-IsSpread :
      (self inferred : ArgTys)
      → as_closure self ≡ ok inferred
      → IsSpread self.arg_tys inferred.arg_tys
  unfolding as_closure
  as_closure-IsSpread self inferred h =
      let (first, e1, h1) = >>=-split (expect (get_elem? self.arg_tys 0)) _ h in
      let (second, e2, h2) = >>=-split (expect (get_elem? self.arg_tys 1)) _ h1 in
      let (spread, e3, h3) = >>=-split (spread_tuple second) _ h2 in
      let (rest, split) =
        first_two self.arg_tys first second (expect-some _ first e1) (expect-some _ second e2) in
      (
        first,
        second,
        rest,
        spread,
        split,
        e3,
        ap (λ (a : ArgTys). a.arg_tys) (sym (ok_injective h3)),
      )
