-- ===== src/Driver/Tests/Resolved.antt =====
-- What a call is resolved to, on the sample compiler: the function 10 calls the function 1.
use scrutinizer.Prelude.{◌≡◌, refl, ℕ, List, [], ◌∷◌, ok}
use scrutinizer.Prelude.Pairwise.{Pairwise}
use scrutinizer.Sample.{sample}
use scrutinizer.SampleEngine.{products}
use scrutinizer.BodyCache.{load_body_and_facts, is_mir_available}
use scrutinizer.Common.TrackedTy.{present, erased, from_ty, contains_erased, spread_tuple}
use scrutinizer.Common.ArgTys.{ArgTys, merge, merge_arg, as_closure}
use scrutinizer.Prelude.HashMap
use scrutinizer.Common.Function.{ClosureInfo, extract_instance}
use scrutinizer.Common.Storage.Closures
use scrutinizer.Common.Storage.Closures.{ClosureInfoStorage}
use scrutinizer.Collector.PartialFunctionInfo.{
  function, closure_function, expect_closure, resolve, finish, assemble, keep_err, extract_arg_tys,
  instance_of, tracked_args,
}
use scrutinizer.Collector.PartialFunctionInfo.Resolved.{IsResolved, IsPlausible, resolve-IsResolved}

abbrev boolean : ArgTys
boolean = record { arg_tys = present 1 ∷ [] }

-- What the call passes may be a `bool` or a tuple; the function declares a `bool`.
abbrev passed : ArgTys
passed = record { arg_tys = erased (11 ∷ 1 ∷ []) ∷ [] }

no_closures : ClosureInfoStorage
no_closures = record { closures = [] }

called_resolved :
    resolve (function 10 boolean) 1 0 passed no_closures ≡ ok (function 1 boolean ∷ [])
unfolding resolve finish assemble keep_err extract_arg_tys instance_of tracked_args merge merge_arg
    from_ty contains_erased is_mir_available load_body_and_facts
called_resolved = refl

resolve-IsResolved_example :
    (instances : List ℕ) × IsPlausible (function 10 boolean) no_closures passed 1 0 instances
    × Pairwise
        (IsResolved (function 10 boolean) no_closures passed)
        instances
        (function 1 boolean ∷ [])
resolve-IsResolved_example =
    resolve-IsResolved (function 10 boolean) no_closures passed 1 0 (function 1 boolean ∷ [])
      called_resolved

-- A closure that is called with a tuple of two, of whose instance the sample declares one argument.
abbrev stored_closure : ClosureInfo
stored_closure = record { with_substs = 8; upvars = present 1 ∷ [] }

abbrev one_closure : ClosureInfoStorage
one_closure = record { closures = (8, stored_closure) ∷ [] }

closure_resolved :
    resolve (function 10 boolean) 8 0 (record { arg_tys = present 8 ∷ present 6 ∷ [] }) one_closure
    ≡ ok (
        closure_function 8
          (record { arg_tys = present 8 ∷ present 1 ∷ present 2 ∷ [] })
          stored_closure
        ∷ [])
unfolding resolve finish assemble keep_err extract_arg_tys instance_of tracked_args merge merge_arg
    from_ty contains_erased is_mir_available load_body_and_facts as_closure spread_tuple
    Closures.get extract_instance expect_closure HashMap.get
closure_resolved = refl
