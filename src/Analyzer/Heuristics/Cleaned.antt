-- ===== src/Analyzer/Heuristics/Cleaned.antt =====
-- scrutils/src/body_cache/body_cache.rs and scrutils/src/analyzer/heuristics: what the analysis sees
-- of a body that was cleaned for the artifacts.
use scrutinizer.Prelude.{
  ◌≡◌, refl, ap, arith, ℕ, Bool, true, false, List, [], ◌∷◌, map, ◌>>=◌, any, each, ◌||◌,
}
use scrutinizer.Rustc.Names.{Names}
use scrutinizer.Rustc.Mir.{
  BasicBlock, StatementKind, PlaceElem, assign, fake_read, nop, other_statement, deref, field,
  index, other_elem, mut_, not_mut, ref_of,
}
use scrutinizer.Rustc.Queries.{Tcx, Place}
use scrutinizer.Rustc.Serialize.{Serialization}
use scrutinizer.BodyCache.Dump.{
  Dumping, clean_undecodable_data_from_body, clean_block, clean_statement,
}
use scrutinizer.Analyzer.Heuristics.{
  has_raw_ptr_deref, has_transmute, statement_derefs_raw, place_derefs_raw, derefs_raw, iter_from,
  terminator_transmutes,
}

any_congr {ℓ} :
    {A : Type ℓ} (p q : A → Bool) → ((x : A) → p x ≡ q x) → (xs : List A) → any p xs ≡ any q xs
any_congr p q same [] = refl
any_congr p q same (x ∷ xs) = ground (arith, same x, any_congr p q same xs)

-- Only a fake read is one.
abbrev pub is_fake_read : {n : Names} → StatementKind n → Bool
is_fake_read fake_read = true
is_fake_read _ = false

module _ ⦃tcx : Tcx⦄ where
  open tcx use {Body}

  -- Two bodies in which places have the same types.
  module _ (a b : Body) (same : (p : Place) → tcx.place_ty p a ≡ tcx.place_ty p b) where
    derefs_raw_same : (x : Place × PlaceElem tcx.names) → derefs_raw a x ≡ derefs_raw b x
    unfolding derefs_raw
    derefs_raw_same (base, deref) = rw (same base)
    derefs_raw_same (base, field _ _) = refl
    derefs_raw_same (base, index _) = refl
    derefs_raw_same (base, other_elem _) = refl

    place_same : (p : Place) → place_derefs_raw a p ≡ place_derefs_raw b p
    unfolding place_derefs_raw
    place_same p =
        any_congr (derefs_raw a) (derefs_raw b) derefs_raw_same (iter_from p.local [] p.projection)

    statement_same :
        (s : StatementKind tcx.names)
        → statement_derefs_raw a (clean_statement s) ≡ statement_derefs_raw b s
    unfolding statement_derefs_raw clean_statement
    statement_same (assign p (ref_of r mut_ borrowed)) = rw (place_same p, place_same borrowed)
    statement_same (assign p (ref_of r not_mut borrowed)) = place_same p
    statement_same (assign p v) = place_same p
    statement_same fake_read = refl
    statement_same nop = refl
    statement_same other_statement = refl

    statements_same :
        (ss : List (StatementKind tcx.names))
        → any (statement_derefs_raw a) (map clean_statement ss) ≡ any (statement_derefs_raw b) ss
    statements_same [] = refl
    statements_same (s ∷ ss) = ground (arith, statement_same s, statements_same ss)

    blocks_same :
        (bs : List (BasicBlock tcx.names))
        → any
            (λ (bb : BasicBlock tcx.names). any (statement_derefs_raw a) bb.statements)
            (map clean_block bs)
          ≡ any (λ (bb : BasicBlock tcx.names). any (statement_derefs_raw b) bb.statements) bs
    unfolding clean_block
    blocks_same [] = refl
    blocks_same (bb ∷ bs) = ground (arith, statements_same bb.statements, blocks_same bs)

  terminators_same :
      (depth : ℕ) (found : Bool) (bs : List (BasicBlock tcx.names))
      → each
          (λ flag (bb : BasicBlock tcx.names). terminator_transmutes depth flag bb.terminator)
          found
          (map clean_block bs)
        ≡ each
            (λ flag (bb : BasicBlock tcx.names). terminator_transmutes depth flag bb.terminator)
            found
            bs
  unfolding clean_block
  terminators_same depth found [] = refl
  terminators_same depth found (bb ∷ bs) =
      ap (λ rest. terminator_transmutes depth found bb.terminator >>= rest)
        (λ i flag. terminators_same depth flag bs i)

statements_not_fake :
    {n : Names} (ss : List (StatementKind n)) → any is_fake_read (map clean_statement ss) ≡ false
unfolding clean_statement
statements_not_fake [] = refl
statements_not_fake (fake_read ∷ ss) = statements_not_fake ss
statements_not_fake (nop ∷ ss) = statements_not_fake ss
statements_not_fake (other_statement ∷ ss) = statements_not_fake ss
statements_not_fake (assign p v ∷ ss) = statements_not_fake ss

abbrev pub has_fake_read : {n : Names} → List (BasicBlock n) → Bool
has_fake_read [] = false
has_fake_read (bb ∷ bs) = any is_fake_read bb.statements || has_fake_read bs

blocks_not_fake :
    {n : Names} (bs : List (BasicBlock n)) → has_fake_read (map clean_block bs) ≡ false
unfolding clean_block
blocks_not_fake [] = refl
blocks_not_fake (bb ∷ bs) = ground (arith, statements_not_fake bb.statements, blocks_not_fake bs)

module _ ⦃tcx : Tcx⦄ {ser : Serialization tcx.names} (dumping : Dumping ser) where
  open tcx use {Body}

  -- The statements of a cleaned body are those that were set, and its places have the types that they
  -- had.
  pub record IsCleaned (body : Body) : Type 0 where
    pub blocks_set :
        tcx.blocks (clean_undecodable_data_from_body dumping body)
        ≡ map clean_block (tcx.blocks body)
    pub types_kept :
        (p : Place)
        → tcx.place_ty p (clean_undecodable_data_from_body dumping body) ≡ tcx.place_ty p body

  -- A cleaned body has no fake read, and the heuristics find in it exactly what they find in the body
  -- itself, where its statements are those that were set and its places have the types that they had.
  pub clean_undecodable_data_from_body-heuristics :
      (depth : ℕ) (body : Body)
      → IsCleaned body
      → (has_fake_read (tcx.blocks (clean_undecodable_data_from_body dumping body)) ≡ false)
        × (has_raw_ptr_deref (clean_undecodable_data_from_body dumping body)
            ≡ has_raw_ptr_deref body)
        × (has_transmute depth (clean_undecodable_data_from_body dumping body)
            ≡ has_transmute depth body)
  unfolding has_raw_ptr_deref has_transmute
  clean_undecodable_data_from_body-heuristics depth body set = (
    rw set.blocks_set (blocks_not_fake (tcx.blocks body)),
    rw set.blocks_set (blocks_same _ body set.types_kept (tcx.blocks body)),
    rw set.blocks_set (terminators_same depth false (tcx.blocks body)),
  )
