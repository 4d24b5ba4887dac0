-- ===== src/Collector/VirtualStack.antt =====
-- scrutils/src/collector/structs/virtual_stack.rs: the calls that are being collected.
use scrutinizer.Prelude.{Bool, ◌&&◌, List, [], ◌∷◌, ◌++◌, any}
use scrutinizer.Prelude.Eq.{lists_eq}
use scrutinizer.Rustc.Queries.{Tcx}
use scrutinizer.Common.TrackedTy.{tracked_eq}
use scrutinizer.Common.ArgTys.{ArgTys}

module _ ⦃tcx : Tcx⦄ where
  pub record VirtualStackItem : Type 0 where
    pub def_id : tcx.DefId
    pub tracked_args : ArgTys

  -- `#[derive(PartialEq)]`
  unfoldable pub item_eq : VirtualStackItem → VirtualStackItem → Bool
  item_eq a b =
      tcx.def_id_eq.beq a.def_id b.def_id
      && lists_eq tracked_eq a.tracked_args.arg_tys b.tracked_args.arg_tys

  pub record VirtualStack : Type 0 where
    pub stack : List VirtualStackItem

  unfoldable pub new : VirtualStack
  new = record { stack = [] }

  unfoldable pub push : VirtualStack → VirtualStackItem → VirtualStack
  push self item = record { stack = self.stack ++ item ∷ [] }

  unfoldable pub contains : VirtualStack → VirtualStackItem → Bool
  contains self item = any (λ other. item_eq other item) self.stack
