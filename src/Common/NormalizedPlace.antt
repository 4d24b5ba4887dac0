-- ===== src/Common/NormalizedPlace.antt =====
-- scrutils/src/common/normalized_place.rs: places as keys, compared up to the types of fields.
use scrutinizer.Prelude.{
  ℕ, Bool, true, false, ◌&&◌, ◌≡◌, refl, List, [], ◌∷◌, length, all, zip, map, nat_eqb, arith,
}
use scrutinizer.Prelude.Eq.{Eq, lists_eq, lists_eq_refl, lists_eq_congr}
use scrutinizer.Rustc.Mir.{deref, field, index, other_elem}
use scrutinizer.Rustc.Queries.{Tcx, Place, PlaceElem, elem_eq}

module _ ⦃tcx : Tcx⦄ where
  pub record NormalizedPlace : Type 0 where
    pub place : Place

  unfoldable pub from_place : Place → tcx.DefId → NormalizedPlace
  from_place p def_id = record { place = tcx.normalize p def_id }

  -- One pair of projections, as the closure of `PartialEq::eq` compares it.
  unfoldable pub same_elem : PlaceElem → PlaceElem → Bool
  unfolding elem_eq
  same_elem (field i _) (field j _) = nat_eqb i j
  same_elem (field _ _) _ = false
  same_elem p q = elem_eq p q

  unfoldable pub same_place : NormalizedPlace → NormalizedPlace → Bool
  unfolding same_elem
  same_place a b =
      nat_eqb a.place.local b.place.local
      && (nat_eqb (length a.place.projection) (length b.place.projection)
          && all (λ pq. same_elem pq.0 pq.1) (zip a.place.projection b.place.projection))

  -- What `Hash::hash` feeds to the hasher.
  pub data HashInput : Type 0 where
    local field_idx : ℕ → HashInput
    elem : PlaceElem → HashInput

  unfoldable pub hash_elem : PlaceElem → HashInput
  hash_elem (field i _) = field_idx i
  hash_elem p = elem p

  unfoldable pub hash : NormalizedPlace → List HashInput
  unfolding hash_elem
  hash a = local a.place.local ∷ map hash_elem a.place.projection

  same_elem_refl : (p : PlaceElem) → same_elem p p ≡ true
  unfolding same_elem elem_eq
  same_elem_refl (field i a) = ground arith
  same_elem_refl deref = refl
  same_elem_refl (index i) = ground arith
  same_elem_refl (other_elem a) = tcx.other_elem_eq.beq_refl a

  same_elem_congr : (p q r : PlaceElem) → same_elem p q ≡ true → same_elem p r ≡ same_elem q r
  unfolding same_elem elem_eq
  same_elem_congr deref deref r h = refl
  same_elem_congr (field i a) (field j b) (field k c) h = ground arith
  same_elem_congr (field i a) (field j b) r h = refl
  same_elem_congr (index i) (index j) (index k) h = ground arith
  same_elem_congr (index i) (index j) r h = refl
  same_elem_congr (other_elem a) (other_elem b) (other_elem c) h =
      tcx.other_elem_eq.beq_congr a b c h
  same_elem_congr (other_elem a) (other_elem b) r h = refl
  same_elem_congr p q r h = cc

  -- The test on the projections as one recursion.
  abbrev same_elems : List PlaceElem → List PlaceElem → Bool
  same_elems = lists_eq same_elem

  zip_same :
      (ps qs : List PlaceElem)
      → (nat_eqb (length ps) (length qs) && all (λ pq. same_elem pq.0 pq.1) (zip ps qs))
        ≡ same_elems ps qs
  zip_same [] [] = refl
  zip_same (p ∷ ps) (q ∷ qs) = ground (arith, zip_same ps qs)
  zip_same _ _ = ground arith

  same_place_lem :
      (a b : NormalizedPlace)
      → same_place a b
        ≡ (nat_eqb a.place.local b.place.local && same_elems a.place.projection b.place.projection)
  unfolding same_place
  same_place_lem a b = ground (arith, zip_same a.place.projection b.place.projection)

  -- `==` on normalized places is reflexive, and equal places compare alike with every place.
  pub same_place_refl : (a : NormalizedPlace) → same_place a a ≡ true
  same_place_refl a =
      rw same_place_lem (ground (arith, lists_eq_refl same_elem same_elem_refl a.place.projection))

  pub same_place_congr :
      (a b c : NormalizedPlace) → same_place a b ≡ true → same_place a c ≡ same_place b c
  same_place_congr a b c h = ground (
    arith,
    same_place_lem a b,
    same_place_lem a c,
    same_place_lem b c,
    lists_eq_congr same_elem same_elem_congr a.place.projection b.place.projection
        c.place.projection,
  )

  instance abbrev pub eq_normalized_place : Eq NormalizedPlace
  eq_normalized_place = record {
    beq = same_place;
    beq_refl = same_place_refl;
    beq_congr = same_place_congr;
  }

  -- Two inputs that hash alike: of equal kind and equal content.
  abbrev pub input_eq : HashInput → HashInput → Bool
  input_eq (local i) (local j) = nat_eqb i j
  input_eq (field_idx i) (field_idx j) = nat_eqb i j
  input_eq (elem p) (elem q) = elem_eq p q
  input_eq _ _ = false

  abbrev pub inputs_eq : List HashInput → List HashInput → Bool
  inputs_eq = lists_eq input_eq

  hash_elem_same :
      (p q : PlaceElem) → same_elem p q ≡ true → input_eq (hash_elem p) (hash_elem q) ≡ true
  unfolding same_elem hash_elem elem_eq
  hash_elem_same (field i a) (field j b) h = h
  hash_elem_same deref deref h = refl
  hash_elem_same (index i) (index j) h = h
  hash_elem_same (other_elem a) (other_elem b) h = h
  hash_elem_same p q h = cc

  hash_elems_same :
      (ps qs : List PlaceElem)
      → same_elems ps qs ≡ true
      → inputs_eq (map hash_elem ps) (map hash_elem qs) ≡ true
  hash_elems_same [] [] h = refl
  hash_elems_same (p ∷ ps) (q ∷ qs) h = ground (arith, hash_elem_same p q, hash_elems_same ps qs)
  hash_elems_same ps qs h = cc

  -- The contract of `Hash`: places that are equal feed equal inputs to the hasher.
  pub hash-same_place :
      (a b : NormalizedPlace) → same_place a b ≡ true → inputs_eq (hash a) (hash b) ≡ true
  unfolding hash
  hash-same_place a b h =
      ground (arith, same_place_lem a b, hash_elems_same a.place.projection b.place.projection)
