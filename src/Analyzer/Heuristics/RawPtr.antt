-- ===== src/Analyzer/Heuristics/RawPtr.antt =====
-- scrutils/src/analyzer/heuristics/raw_ptr.rs: which bodies have a dereference of a raw pointer.
use scrutinizer.Prelude.{
  ◌≡◌, refl, sym, ap, ◌∙◌, subst, arith, ℕ, zero, suc, Bool, true, ◌⊎◌, inl, inr, ◌↔◌, List, [],
  ◌∷◌, ◌++◌, append_assoc, append-nil, some, some_injective, any, get_elem?, Bool-cases,
}
use scrutinizer.Rustc.Mir.{BasicBlock, StatementKind, PlaceElem, assign, deref, mut_, ref_of}
use scrutinizer.Rustc.Queries.{Tcx, Place}
use scrutinizer.Analyzer.Heuristics.{
  has_raw_ptr_deref, statement_derefs_raw, place_derefs_raw, derefs_raw, iter_from,
}

-- `any` finds what stands at some place of the list and passes.
any_found :
    {A : Type 0} (p : A → Bool) (xs : List A)
    → any p xs ≡ true
    → (i : ℕ) × (x : A) × (get_elem? xs i ≡ some x) × (p x ≡ true)
any_found p [] h = absurd (cc)
any_found p (x ∷ xs) h = elim (Bool-cases (p x)) [
  | inl e ↦ (0, x, refl, e)
  | inr e ↦
      (let (i, y, at, passes) = any_found p xs (ground (arith, h, e)) in (suc i, y, at, passes))
]

any_passes :
    {A : Type 0} (p : A → Bool) (xs : List A) (i : ℕ) (x : A)
    → get_elem? xs i ≡ some x
    → p x ≡ true
    → any p xs ≡ true
any_passes p [] i x at passes = absurd (cc)
any_passes p (y ∷ xs) zero x at passes = ground (arith, ap p (some_injective at), passes)
any_passes p (y ∷ xs) (suc i) x at passes = ground (arith, any_passes p xs i x at passes)

module _ ⦃tcx : Tcx⦄ (body : tcx.Body) where
  -- The place with these projections is a raw pointer that can be written through.
  abbrev pub IsRawPtr : ℕ → List (PlaceElem tcx.names) → Type 0
  IsRawPtr local projection =
      let ty = (tcx.place_ty (record { local = local; projection = projection }) body).ty in
      (tcx.is_unsafe_ptr ty ≡ true) × (tcx.is_mutable_ptr ty ≡ true)

  -- Such a pointer is dereferenced on the way to the place.
  abbrev pub IsThroughRaw : Place → Type 0
  IsThroughRaw p =
      (before : List (PlaceElem tcx.names)) × (after : List (PlaceElem tcx.names)) × (p.projection
        ≡ before ++ deref ∷ after)
      × IsRawPtr p.local before

  -- The places that a statement assigns or borrows as mutable.
  abbrev pub Touches : StatementKind tcx.names → Place → Type 0
  Touches (assign p (ref_of _ mut_ borrowed)) x = (p ≡ x) ⊎ (borrowed ≡ x)
  Touches (assign p _) x = p ≡ x
  Touches _ x = ⊥

  abbrev pub HasRawPtrDeref : Type 0
  HasRawPtrDeref =
      (i : ℕ) × (block : BasicBlock tcx.names) × (get_elem? (tcx.blocks body) i ≡ some block)
      × (j : ℕ) × (statement : StatementKind tcx.names) × (get_elem? block.statements j
          ≡ some statement)
      × (place : Place) × Touches statement place
      × IsThroughRaw place

  iter_found :
      (local : ℕ) (before es : List (PlaceElem tcx.names))
      → any (derefs_raw body) (iter_from local before es) ≡ true
      → (b : List (PlaceElem tcx.names)) × (a : List (PlaceElem tcx.names)) × (es ≡ b ++ deref ∷ a)
        × IsRawPtr local (before ++ b)
  unfolding iter_from derefs_raw
  iter_found local before [] h = absurd (cc)
  iter_found local before (deref ∷ es) h =
      elim (Bool-cases (derefs_raw body (record { local = local; projection = before }, deref))) [
        | inl e ↦ (
          [],
          es,
          refl,
          subst (IsRawPtr local) (sym (append-nil before)) (ground (arith, e), ground (arith, e)),
        )
        | inr e ↦ further deref es (iter_found local (before ++ deref ∷ []) es (rw e at h))
      ]
    where
      further :
          (e : PlaceElem tcx.names) (rest : List (PlaceElem tcx.names))
          → ((b : List (PlaceElem tcx.names)) × (a : List (PlaceElem tcx.names)) × (rest
                ≡ b ++ deref ∷ a)
              × IsRawPtr local ((before ++ e ∷ []) ++ b))
          → (b : List (PlaceElem tcx.names)) × (a : List (PlaceElem tcx.names)) × (e ∷ rest
              ≡ b ++ deref ∷ a)
            × IsRawPtr local (before ++ b)
      further e rest (b, a, split, raw) = (
        e ∷ b,
        a,
        ap (λ l. e ∷ l) split,
        subst (IsRawPtr local) (append_assoc before (e ∷ []) b) raw,
      )
  iter_found local before (e ∷ es) h =
      let (b, a, split, raw) = iter_found local (before ++ e ∷ []) es h in
      (e ∷ b, a, ap (λ l. e ∷ l) split, subst (IsRawPtr local) (append_assoc before (e ∷ []) b) raw)

  iter_passes :
      (local : ℕ) (before b a : List (PlaceElem tcx.names))
      → IsRawPtr local (before ++ b)
      → any (derefs_raw body) (iter_from local before (b ++ deref ∷ a)) ≡ true
  unfolding iter_from derefs_raw
  iter_passes local before [] a (unsafe, mutable) =
      let raw = subst (IsRawPtr local) (append-nil before) (unsafe, mutable) in
      ground (arith, raw.0, raw.1)
  iter_passes local before (e ∷ b) a raw =
      let later =
        iter_passes local (before ++ e ∷ []) b a
          (subst (IsRawPtr local) (sym (append_assoc before (e ∷ []) b)) raw) in
      ground (arith, later)

  place_exact : (p : Place) → (place_derefs_raw body p ≡ true) ↔ IsThroughRaw p
  unfolding place_derefs_raw
  place_exact p = (
    iter_found p.local [] p.projection,
    λ (b, a, split, raw).
        ap (λ es. any (derefs_raw body) (iter_from p.local [] es)) split
        ∙ iter_passes p.local [] b a raw,
  )

  statement_found :
      (s : StatementKind tcx.names)
      → statement_derefs_raw body s ≡ true
      → (p : Place) × Touches s p × IsThroughRaw p
  unfolding statement_derefs_raw
  statement_found (assign p (ref_of r mut_ borrowed)) h =
      elim (Bool-cases (place_derefs_raw body p)) [
        | inl e ↦ (p, inl refl, (place_exact p).0 e)
        | inr e ↦ (borrowed, inr refl, (place_exact borrowed).0 (rw e at h))
      ]
  statement_found (assign p v) h = (p, refl, (place_exact p).0 h)
  statement_found _ h = absurd (cc)

  statement_passes :
      (s : StatementKind tcx.names) (p : Place)
      → Touches s p
      → IsThroughRaw p
      → statement_derefs_raw body s ≡ true
  unfolding statement_derefs_raw
  statement_passes (assign p (ref_of r mut_ borrowed)) x (inl same) raw =
      let at = ap (place_derefs_raw body) same ∙ (place_exact x).1 raw in ground (arith, at)
  statement_passes (assign p (ref_of r mut_ borrowed)) x (inr same) raw =
      let at = ap (place_derefs_raw body) same ∙ (place_exact x).1 raw in ground (arith, at)
  statement_passes (assign p v) x same raw = ap (place_derefs_raw body) same ∙ (place_exact x).1 raw
  statement_passes _ x touches raw = absurd touches

  -- The heuristic answers yes exactly if some statement of a block assigns or mutably borrows a
  -- place behind a raw pointer that can be written through: one that is dereferenced on the way to
  -- the place.
  pub has_raw_ptr_deref_exact : (has_raw_ptr_deref body ≡ true) ↔ HasRawPtrDeref
  unfolding has_raw_ptr_deref
  has_raw_ptr_deref_exact = (found, passes)
    where
      in_block : BasicBlock tcx.names → Bool
      in_block b = any (statement_derefs_raw body) b.statements

      found : any in_block (tcx.blocks body) ≡ true → HasRawPtrDeref
      found h =
          let (i, block, at, h1) = any_found in_block (tcx.blocks body) h in
          let (j, statement, there, h2) =
            any_found (statement_derefs_raw body) block.statements h1 in
          let (place, touches, raw) = statement_found statement h2 in
          (i, block, at, j, statement, there, place, touches, raw)

      passes : HasRawPtrDeref → any in_block (tcx.blocks body) ≡ true
      passes (i, block, at, j, statement, there, place, touches, raw) =
          any_passes in_block (tcx.blocks body) i block at (
            any_passes (statement_derefs_raw body) block.statements j statement there
              (statement_passes statement place touches raw))
