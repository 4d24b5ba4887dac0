-- ===== src/Analyzer/Spec.antt =====
-- What `analyze_item` decides, independently of its recursion: which functions the sensitive
-- locals of a function can reach through the calls that the collector recorded.
use scrutinizer.Prelude.{ℕ, Bool, true, false, ◌||◌, ◌≡◌, List, ◌∷◌, Outcome, ok, ◌>>=◌, is_empty}
use scrutinizer.Rustc.Queries.{Tcx}
use scrutinizer.Flowistry.{Flowistry}
use scrutinizer.Common.Function.{
  FunctionInfo, info_with_body, info_without_body, FunctionCall, call_args, call_def_id, Analyzed,
}
use scrutinizer.Common.Storage.Functions.{FunctionInfoStorage, get_by_call}
use scrutinizer.Important.Compute.{ImportantLocals, has_none}
use scrutinizer.Important.Transition.{transition}
use scrutinizer.Analyzer.Heuristics.{has_raw_ptr_deref, has_transmute}
use scrutinizer.Analyzer.Analyze.{is_trusted, matches_any}

module _ ⦃tcx : Tcx⦄ where
  -- The function passes whatever it calls: nothing sensitive reaches it, or it is trusted.
  abbrev pub settled :
      List tcx.Regex → List tcx.Regex → FunctionInfo → ImportantLocals → Outcome Bool
  settled allowlist trusted_stdlib item locals = do
    trusted ← is_trusted trusted_stdlib item
    ok (has_none locals || (matches_any allowlist item || trusted))

  -- Something in the function itself may leak: it has no body, an unresolved call, a write
  -- through a raw pointer or a transmute to a mutable reference.
  pub data IsLeaky (depth : ℕ) : FunctionInfo → Type 0 where
    no_body : (d : tcx.DefId) (ts : List _) → IsLeaky depth (info_without_body d ts)
    unresolved : (f : Analyzed) → is_empty f.unhandled ≡ false → IsLeaky depth (info_with_body f)
    raw_write : (f : Analyzed) → has_raw_ptr_deref f.body ≡ true → IsLeaky depth (info_with_body f)
    transmuted :
        (f : Analyzed) → has_transmute depth f.body ≡ ok true → IsLeaky depth (info_with_body f)

  module _ ⦃flow : Flowistry⦄ (storage : FunctionInfoStorage) where
    -- One of the calls leads to a stored function with these important locals.
    pub data Leads (locals : ImportantLocals)
        : List FunctionCall → FunctionInfo → ImportantLocals → Type 0 where
      first :
          {call : FunctionCall} {calls : List FunctionCall} {g : FunctionInfo} {m : ImportantLocals}
          → transition locals (call_args call) (call_def_id call) ≡ ok m
          → get_by_call storage call ≡ ok g
          → Leads locals (call ∷ calls) g m
      later :
          {call : FunctionCall} {calls : List FunctionCall} {g : FunctionInfo} {m : ImportantLocals}
          → Leads locals calls g m
          → Leads locals (call ∷ calls) g m

    module _ (allowlist trusted_stdlib : List tcx.Regex) where
      -- A chain of calls on which no function but the last may be settled.
      pub data Reaches
          : FunctionInfo → ImportantLocals → FunctionInfo → ImportantLocals → Type 0 where
        here : {g : FunctionInfo} {m : ImportantLocals} → Reaches g m g m
        step :
            {f : Analyzed} {locals : ImportantLocals} {h : FunctionInfo} {k : ImportantLocals}
            {g : FunctionInfo} {m : ImportantLocals}
            → settled allowlist trusted_stdlib (info_with_body f) locals ≡ ok false
            → Leads locals f.calls h k
            → Reaches h k g m
            → Reaches (info_with_body f) locals g m
