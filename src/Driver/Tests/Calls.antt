-- ===== src/Driver/Tests/Calls.antt =====
-- A call that is collected on the sample compiler.
use scrutinizer.Prelude.{false, ◌≡◌, refl, List, [], ◌∷◌, some, ok}
use scrutinizer.Prelude.Eq.{nat_eq}
use scrutinizer.Rustc.Mir.{copy}
use scrutinizer.Sample.{sample, flow, local_place}
use scrutinizer.SampleEngine.{engine, products}
use scrutinizer.Common.TrackedTy.{present}
use scrutinizer.Common.NormalizedPlace.{eq_normalized_place}
use scrutinizer.Common.Function.{FunctionCall, with_body}
use scrutinizer.Rustc.Mir.{fn_def}
use scrutinizer.Collector.Domain.{CollectorDomain}
use scrutinizer.Collector.Calls.{AccountsFor, process_call-AccountsFor}
use scrutinizer.Collector.PartialFunctionInfo.{function}
use scrutinizer.Collector.Collect.{Stores, Collector}
use scrutinizer.Collector.Engine
use scrutinizer.Driver.Tests.{collecting, collected_info}

abbrev caller : Collector
caller = record {
  virtual_stack = record {
    stack = record { def_id = 10; tracked_args = record { arg_tys = present 1 ∷ [] } } ∷ [];
  };
  current_function = function 10 (record { arg_tys = present 1 ∷ [] });
  substituted_body = 6;
  shallow = false;
}

abbrev state_with : List FunctionCall → CollectorDomain
state_with calls = record {
  places =
      (record { place = local_place 0 }, present 1)
      ∷ (record { place = local_place 1 }, present 1)
      ∷ [];
  calls = calls;
  unhandled = [];
}

abbrev before_call : Stores × CollectorDomain
before_call = (
  record { functions = record { origin = 10; fns = [] }; closures = record { closures = [] } },
  state_with [],
)

abbrev after_call : Stores × CollectorDomain
after_call = (
  record {
    functions = record { origin = 10; fns = collected_info 1 0 ∷ [] };
    closures = record { closures = [] };
  },
  state_with (with_body 1 (copy (local_place 1) ∷ []) ∷ []),
)

call_processed :
    Engine.process_call
      (Engine.run 2)
      caller
      9
      (copy (local_place 1) ∷ [])
      (record { arg_tys = present 1 ∷ [] })
      (some (local_place 0))
      before_call
    ≡ ok after_call
unfolding collecting
call_processed = refl

process_call-AccountsFor_example :
    AccountsFor
      (Engine.run 2)
      caller
      (copy (local_place 1) ∷ [])
      (record { arg_tys = present 1 ∷ [] })
      (some (local_place 0))
      before_call.0
      9
      after_call.1
      (fn_def 1 0)
process_call-AccountsFor_example =
    process_call-AccountsFor (Engine.run 2) caller (copy (local_place 1) ∷ [])
      (record { arg_tys = present 1 ∷ [] }) (some (local_place 0)) 9 before_call after_call
      call_processed
