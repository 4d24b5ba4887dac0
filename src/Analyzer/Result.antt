-- ===== src/Analyzer/Result.antt =====
-- scrutils/src/analyzer/result.rs: the report on one function.
pub mod Serialized
use scrutinizer.Prelude.{String, Bool, false, not, List, [], if◌then◌else◌}
use scrutinizer.Rustc.Queries.{Tcx}
use scrutinizer.Common.Function.{FunctionInfo}
use scrutinizer.Common.Storage.Closures
use scrutinizer.Common.Storage.Closures.{ClosureInfoStorage}
use scrutinizer.Important.Compute.{ImportantLocals}

module _ ⦃tcx : Tcx⦄ where
  pub record FunctionWithMetadata : Type 0 where
    pub function : FunctionInfo
    pub important_locals : ImportantLocals
    pub raw_pointer_deref : Bool
    pub allowlisted : Bool
    pub has_transmute : Bool

  pub record PurityAnalysisResult : Type 0 where
    pub def_id : tcx.DefId
    pub annotated_pure : Bool
    pub status : Bool
    pub reason : String
    pub passing : List FunctionWithMetadata
    pub failing : List FunctionWithMetadata
    pub closures : ClosureInfoStorage
    pub deps : List String

  unfoldable pub error : tcx.DefId → String → Bool → PurityAnalysisResult
  unfolding Closures.new
  error def_id reason annotated_pure = record {
    def_id = def_id;
    annotated_pure = annotated_pure;
    status = false;
    reason = reason;
    passing = [];
    failing = [];
    closures = Closures.new;
    deps = [];
  }

  unfoldable pub is_inconsistent : PurityAnalysisResult → Bool
  is_inconsistent self = if self.annotated_pure then not self.status else self.status
