-- ===== src/Common/Function.antt =====
-- scrutils/src/common: function_call.rs, function_info.rs and closure_info.rs.
use scrutinizer.Prelude.{
  ◌≡◌, refl, arith, Bool, true, false, ◌&&◌, List, Option, none, some, Outcome, panic, ◌>>=◌,
  length, all, expect, unwrap, nat_eqb,
}
use scrutinizer.Prelude.Eq.{Eq, lists_eq, lists_eq_refl, lists_eq_congr}
use scrutinizer.Prelude.HashSet.{set_eq}
use scrutinizer.Prelude.HashMap
use scrutinizer.Prelude.HashMap.{HashMap}
use scrutinizer.Rustc.Mir.{closure}
use scrutinizer.Rustc.Queries.{Tcx, Operand, operand_eq, operand_eq_refl, operand_eq_congr}
use scrutinizer.Common.TrackedTy.{TrackedTy, tracked_eq}
use scrutinizer.Common.NormalizedPlace.{NormalizedPlace, eq_normalized_place}

module _ ⦃tcx : Tcx⦄ where
  open tcx use {Ty, DefId, Instance, Body, Span, instance_def_id}

  pub data FunctionCall : Type 0 where
    with_body : Instance → List Operand → FunctionCall
    without_body : DefId → List Operand → FunctionCall

  -- `#[derive(PartialEq)]`
  unfoldable pub call_eq : FunctionCall → FunctionCall → Bool
  call_eq (with_body i xs) (with_body j ys) = tcx.instance_eq.beq i j && lists_eq operand_eq xs ys
  call_eq (without_body d xs) (without_body e ys) =
      tcx.def_id_eq.beq d e && lists_eq operand_eq xs ys
  call_eq _ _ = false

  pub call_eq_refl : (c : FunctionCall) → call_eq c c ≡ true
  unfolding call_eq
  call_eq_refl (with_body i xs) =
      ground (arith, tcx.instance_eq.beq_refl i, lists_eq_refl operand_eq operand_eq_refl xs)
  call_eq_refl (without_body d xs) =
      ground (arith, tcx.def_id_eq.beq_refl d, lists_eq_refl operand_eq operand_eq_refl xs)

  pub call_eq_congr : (a b c : FunctionCall) → call_eq a b ≡ true → call_eq a c ≡ call_eq b c
  unfolding call_eq
  call_eq_congr (with_body i xs) (with_body j ys) (with_body k zs) h =
      ground (
        arith,
        tcx.instance_eq.beq_congr i j k,
        lists_eq_congr operand_eq operand_eq_congr xs ys zs,
      )
  call_eq_congr (with_body i xs) (with_body j ys) c h = refl
  call_eq_congr (without_body i xs) (without_body j ys) (without_body k zs) h =
      ground
        (arith, tcx.def_id_eq.beq_congr i j k, lists_eq_congr operand_eq operand_eq_congr xs ys zs)
  call_eq_congr (without_body i xs) (without_body j ys) c h = refl
  call_eq_congr a b c h = cc

  abbrev pub eq_function_call : Eq FunctionCall
  eq_function_call = record { beq = call_eq; beq_refl = call_eq_refl; beq_congr = call_eq_congr }

  unfoldable pub call_args : FunctionCall → List Operand
  call_args (with_body _ args) = args
  call_args (without_body _ args) = args

  unfoldable pub call_def_id : FunctionCall → DefId
  call_def_id (with_body instance_ _) = instance_def_id instance_
  call_def_id (without_body def_id _) = def_id

  -- The fields of the variant `FunctionInfo::WithBody`.
  pub record Analyzed : Type 0 where
    pub instance_ : Instance
    pub places : HashMap NormalizedPlace TrackedTy
    pub calls : List FunctionCall
    pub body : Body
    pub span : Span
    pub unhandled : List Ty

  pub data FunctionInfo : Type 0 where
    info_with_body : Analyzed → FunctionInfo
    info_without_body : DefId → List TrackedTy → FunctionInfo

  unfoldable pub info_def_id : FunctionInfo → DefId
  info_def_id (info_with_body f) = instance_def_id f.instance_
  info_def_id (info_without_body def_id _) = def_id

  unfoldable pub info_instance : FunctionInfo → Option Instance
  info_instance (info_with_body f) = some f.instance_
  info_instance (info_without_body _ _) = none

  unfoldable pub info_calls : FunctionInfo → Option (List FunctionCall)
  info_calls (info_with_body f) = some f.calls
  info_calls (info_without_body _ _) = none

  -- `HashMap`'s `PartialEq`: as many entries, and each entry of one side found in the other.
  map_eq : HashMap NormalizedPlace TrackedTy → HashMap NormalizedPlace TrackedTy → Bool
  map_eq m n =
      nat_eqb (length m) (length n)
      && all (λ kv. elim (HashMap.get n kv.0) [ none ↦ false | some v ↦ tracked_eq kv.1 v ]) m

  unfoldable pub analyzed_eq : Analyzed → Analyzed → Bool
  unfolding map_eq
  analyzed_eq l r =
      tcx.instance_eq.beq l.instance_ r.instance_
      && (map_eq l.places r.places
          && (set_eq ⦃e = eq_function_call⦄ l.calls r.calls
              && (tcx.span_eq.beq l.span r.span && set_eq ⦃e = tcx.ty_eq⦄ l.unhandled r.unhandled)))

  -- `PartialEq`; the bodies are not compared.
  unfoldable pub info_eq : FunctionInfo → FunctionInfo → Bool
  unfolding analyzed_eq
  info_eq (info_with_body l) (info_with_body r) = analyzed_eq l r
  info_eq (info_without_body d xs) (info_without_body e ys) =
      tcx.def_id_eq.beq d e && lists_eq tracked_eq xs ys
  info_eq _ _ = false

  pub record ClosureInfo : Type 0 where
    pub with_substs : Ty
    pub upvars : List TrackedTy

  -- `unwrap` on the resolution, and `unreachable!` on a type that is no closure's.
  unfoldable pub extract_instance : ClosureInfo → Outcome Instance
  extract_instance self = elim (tcx.kind self.with_substs) [
    | closure def_id substs ↦ (do found ← unwrap (tcx.resolve_instance def_id substs); expect found)
    | _ ↦ panic
  ]
