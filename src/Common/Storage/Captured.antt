-- ===== src/Common/Storage/Captured.antt =====
-- scrutils/src/common/storage/closure.rs: what is known of a closure that is met again.
use scrutinizer.Prelude.{
  ℕ, zero, suc, ◌≡◌, refl, sym, ◌∙◌, subst, arith, true, inl, inr, List, [], ◌∷◌, map, zip, Option,
  none, some, some_injective, ok, get_elem?, length, nat_eqb, ok_injective, >>=-split, Bool-cases,
}
use scrutinizer.Prelude.HashMap
use scrutinizer.Prelude.HashMap.{get-modify, get_congr}
use scrutinizer.Rustc.Mir.{closure, TyKind}
use scrutinizer.Rustc.Queries.{Tcx}
use scrutinizer.Common.TrackedTy.{TrackedTy, join}
use scrutinizer.Common.TrackedTy.Join.{may_be, is_erased, may_be-join, is_erased-join}
use scrutinizer.Common.Function.{ClosureInfo}
use scrutinizer.Common.Storage.Closures.{
  ClosureInfoStorage, get, merge_upvars, update_entry, update_kind, update_with,
}

module _ ⦃tcx : Tcx⦄ where
  open tcx use {Ty, DefId, Instance}

  -- The second value is erased like the first, and may be whatever the first may be.
  abbrev pub Below : TrackedTy → TrackedTy → Type 0
  Below t t' = (is_erased t' ≡ is_erased t) × ((ty : Ty) → may_be t ty ≡ true → may_be t' ty ≡ true)

  -- Each captured type is below the one at the same place.
  abbrev pub AllBelow : List TrackedTy → List TrackedTy → Type 0
  AllBelow ts us =
      (j : ℕ) (t : TrackedTy)
      → get_elem? ts j ≡ some t
      → (u : TrackedTy) × (get_elem? us j ≡ some u) × Below t u

  AllBelow-refl : (ts : List TrackedTy) → AllBelow ts ts
  AllBelow-refl ts j t e = (t, e, (refl, λ ty h. h))

  AllBelow-join :
      (old fresh : List TrackedTy)
      → length fresh ≡ length old
      → AllBelow old (map (λ p. (join p.1 p.0).0) (zip fresh old))
  AllBelow-join [] fresh same j t e = absurd (cc)
  AllBelow-join (o ∷ old) [] same j t e = absurd (omega arith)
  AllBelow-join (o ∷ old) (f ∷ fresh) same zero t e = (
    (join o f).0,
    refl,
    subst (λ x. Below x (join o f).0) (some_injective e)
        (is_erased-join o f, λ ty h. ground (arith, may_be-join o f ty)),
  )
  AllBelow-join (o ∷ old) (f ∷ fresh) same (suc j) t e = AllBelow-join old fresh (omega arith) j t e

  merge_upvars-AllBelow :
      (old fresh merged : List TrackedTy) → merge_upvars old fresh ≡ ok merged → AllBelow old merged
  unfolding merge_upvars
  merge_upvars-AllBelow [] fresh merged h = λ j t e. absurd (cc)
  merge_upvars-AllBelow (o ∷ old) [] merged h =
      subst (AllBelow (o ∷ old)) (ok_injective h) (AllBelow-refl (o ∷ old))
  merge_upvars-AllBelow (o ∷ old) (f ∷ fresh) merged h =
      elim (Bool-cases (nat_eqb (length (f ∷ fresh)) (length (o ∷ old)))) [
        | inl same ↦
            subst (AllBelow (o ∷ old)) (ok_injective (rw same at h))
              (AllBelow-join (o ∷ old) (f ∷ fresh) (ground arith))
        | inr other ↦ absurd (ground arith)
      ]

  -- The same instantiation, and captured types that are below the later ones.
  abbrev pub Keeps : ClosureInfo → ClosureInfo → Type 0
  Keeps c c' = (c'.with_substs ≡ c.with_substs) × AllBelow c.upvars c'.upvars

  abbrev pub KeepsAll : ClosureInfoStorage → ClosureInfoStorage → Type 0
  KeepsAll s s' =
      (d : DefId) (c : ClosureInfo)
      → get s d ≡ some c
      → (c' : ClosureInfo) × (get s' d ≡ some c') × Keeps c c'

  pub KeepsAll-refl : (s : ClosureInfoStorage) → KeepsAll s s
  KeepsAll-refl s d c e = (c, e, (refl, AllBelow-refl c.upvars))

  push-KeepsAll :
      (s : ClosureInfoStorage) (k : DefId) (v : ClosureInfo)
      → get s k ≡ none
      → KeepsAll s (record { closures = (k, v) ∷ s.closures })
  unfolding get HashMap.get
  push-KeepsAll s k v g d c e = elim (Bool-cases (tcx.def_id_eq.beq k d)) [
    | inl same ↦ absurd (ground (arith, get_congr ⦃e = tcx.def_id_eq⦄ s.closures k d same))
    | inr other ↦ (c, rw other e, (refl, AllBelow-refl c.upvars))
  ]

  modify-KeepsAll :
      (s : ClosureInfoStorage) (k : DefId) (old : ClosureInfo) (merged : List TrackedTy)
      → get s k ≡ some old
      → AllBelow old.upvars merged
      → KeepsAll s (record {
        closures =
            HashMap.modify ⦃e = tcx.def_id_eq⦄ s.closures k (λ c. record c { upvars = merged });
      })
  unfolding get
  modify-KeepsAll s k old merged g below d c e =
      let f : ClosureInfo → ClosureInfo = λ x. record x { upvars = merged } in
      let after = get-modify ⦃e = tcx.def_id_eq⦄ s.closures k d f in
      elim (Bool-cases (tcx.def_id_eq.beq k d)) [
        | inl same ↦
            let known = sym g ∙ get_congr ⦃e = tcx.def_id_eq⦄ s.closures k d same ∙ e in
            (
              record c { upvars = merged },
              rw (after, same, e) refl,
              (refl, subst (λ x. AllBelow x.upvars merged) (some_injective known) below),
            )
        | inr other ↦ (c, rw (after, other) e, (refl, AllBelow-refl c.upvars))
      ]

  update_entry-KeepsAll :
      (s s' : ClosureInfoStorage) (k : DefId) (ty : Ty) (upvars : List TrackedTy)
      (known : Option ClosureInfo)
      → get s k ≡ known
      → update_entry s k ty upvars known ≡ ok s'
      → KeepsAll s s'
  unfolding update_entry
  update_entry-KeepsAll s s' k ty upvars none g h =
      subst (KeepsAll s) (ok_injective h) (push-KeepsAll s k _ g)
  update_entry-KeepsAll s s' k ty upvars (some old) g h =
      let (merged, m, h') = >>=-split (merge_upvars old.upvars upvars) _ h in
      subst (KeepsAll s) (ok_injective h')
        (modify-KeepsAll s k old merged g (merge_upvars-AllBelow old.upvars upvars merged m))

  update_kind-KeepsAll :
      (s s' : ClosureInfoStorage) (kind : TyKind tcx.names) (ty : Ty) (upvars : List TrackedTy)
      → update_kind s kind ty upvars ≡ ok s'
      → KeepsAll s s'
  unfolding update_kind
  update_kind-KeepsAll s s' (closure k _) ty upvars h =
      update_entry-KeepsAll s s' k ty upvars (get s k) refl h
  update_kind-KeepsAll s s' kind ty upvars h = subst (KeepsAll s) (ok_injective h) (KeepsAll-refl s)

  -- When `update_with` returns, each closure that was known is known still, with the instantiation
  -- that it had, and each of its captured types is erased as before and loses no plausible type.
  pub update_with-KeepsAll :
      (self self' : ClosureInfoStorage) (closure_ty : Ty) (outer_instance : Instance)
      (upvars : List TrackedTy)
      → update_with self closure_ty outer_instance upvars ≡ ok self'
      → KeepsAll self self'
  unfolding update_with
  update_with-KeepsAll self self' closure_ty outer_instance upvars h =
      update_kind-KeepsAll self self' (tcx.kind closure_ty) _ upvars h
