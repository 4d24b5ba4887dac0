-- ===== src/Important/Transition.antt =====
-- scrutils/src/important/important.rs: from the important locals of a caller to its callee's.
use scrutinizer.Prelude.{
  ℕ, ◌+◌, List, [], ◌∷◌, map, filter_map, and_then, enumerate_from, range_from, length, Option,
  none, some, Outcome, ok, panic, ◌>>=◌, nat_eqb, if◌then◌else◌,
}
use scrutinizer.Prelude.Eq.{nat_eq}
use scrutinizer.Prelude.HashSet.{contains}
use scrutinizer.Rustc.Mir.{arg}
use scrutinizer.Rustc.Queries.{Tcx, Place, Operand, operand_place, as_local}
use scrutinizer.BodyCache.{is_mir_available, num_args_in_body}
use scrutinizer.Flowistry.{Flowistry, LocationOrArg}
use scrutinizer.Important.Compute.{ImportantLocals, from_locals, compute_dependent_locals}

module _ ⦃tcx : Tcx⦄ ⦃flow : Flowistry⦄ where
  -- `(Place::make(local, &[]), LocationOrArg::Arg(local))`
  abbrev pub arg_target : ℕ → Place × LocationOrArg
  arg_target local = (record { local = local; projection = [] }, arg local)

  unfoldable pub from_important_args : List ℕ → tcx.DefId → Outcome ImportantLocals
  from_important_args important_args def_id = do
    locals ← compute_dependent_locals def_id (map arg_target important_args ∷ [])
    ok (from_locals locals)

  -- The local of the callee for an argument of the call; argument `i` is local `i + 1`.
  unfoldable pub important_arg : ImportantLocals → ℕ × Operand → Option ℕ
  important_arg self (i, operand) =
      and_then (and_then (operand_place operand) as_local)
        (λ local. if contains self.locals local then some (i + 1) else none)

  unfoldable pub important_args_to_callee :
      ImportantLocals → List Operand → tcx.DefId → Outcome (List ℕ)
  unfolding important_arg
  important_args_to_callee self args_from_caller callee_def_id =
      if tcx.is_closure callee_def_id
      then if nat_eqb (length args_from_caller) 2
        then (do n ← num_args_in_body callee_def_id; ok (range_from 1 n))
        else if nat_eqb (length args_from_caller) 1
        then ok (1 ∷ [])
        else panic
      else ok (filter_map (important_arg self) (enumerate_from 0 args_from_caller))

  -- A constructor's call is final and has no important locals.
  unfoldable pub transition : ImportantLocals → List Operand → tcx.DefId → Outcome ImportantLocals
  unfolding important_args_to_callee
  transition self args_from_caller callee_def_id =
      if tcx.is_constructor callee_def_id then ok (from_locals []) else (do
        args ← important_args_to_callee self args_from_caller callee_def_id
        available ← is_mir_available callee_def_id
        if available
            then (do
              locals ← compute_dependent_locals callee_def_id (map arg_target args ∷ [])
              ok (from_locals locals))
            else ok (from_locals args))
