-- ===== src/Lib.antt =====
-- scrutinizer checks that functions of a Rust crate are free of side effects, as a plugin of the
-- compiler. This library models it, from the selection of functions to the report.
--
-- The parts, and the files that model them:
--
-- - scrutinizer/src/lib.rs, the driver: `Driver`. It decides how a crate is handled, selects the
--   functions, prechecks each, collects its call graph, analyses that, and filters the results.
--   `Driver.Plugin` is the part of the plugin in a build: the defaults of the configuration, how cargo
--   is called, the callbacks of a compilation, the report and the exit status.
-- - scrutils/src/selector: `Selector`. The functions of a crate, or the closures that are given to
--   `PrivacyPureRegion::new`.
-- - scrutils/src/precheck: `Precheck`. Rejects functions with erased or mutable arguments.
-- - scrutils/src/collector: `Collector`. A dataflow analysis tracks the plausible types of each place
--   (`Collector.Domain` for collector_domain.rs, `Collector.HasTrackedTy` for has_tracked_ty.rs).
--   At a call it finds the plausible callees (`Collector.PartialFunctionInfo`), runs itself on each
--   (`Collector.Collect` and `Collector.Engine` for collector.rs), stores the callee in the function
--   storage and records the call in its state. A stack of the calls under way
--   (`Collector.VirtualStack`) stops recursion.
-- - scrutils/src/common: `Common`. Tracked types, argument types, normalized places, calls and
--   functions, and the two storages that all runs of the collector share (`Common.Storage`).
-- - scrutils/src/analyzer: `Analyzer`. `analyze_item` follows the recorded calls from the origin and
--   judges each function by its body (`Analyzer.Heuristics`), its unresolved calls and its callees;
--   the verdict and the lists of passing and failing functions are the result.
--   `Analyzer.Result.Serialized` is what of it is written, `Analyzer.Deps.Strings` the dependencies in
--   it that cargo prints.
-- - scrutils/src/important: `Important`. Which locals of a callee may hold what the caller's
--   important locals hold, by the information flow analysis flowistry.
-- - scrutils/src/body_cache: `BodyCache`. Bodies, from the artifacts of earlier compilations.
--   `BodyCache.Dump` writes the artifacts of a crate, `BodyCache.Encoder` and `BodyCache.Encoder.Spans`
--   are the codec of encoder.rs, and `BodyCache.Cache` keeps what was loaded.
-- - `Prelude` has what the parts share, `Rustc` what the program asks of the compiler. `Sample` is a
--   small compiler, `SampleEngine` a small dataflow engine and `SampleFiles` a small serializer; the
--   modules `Tests` run the models on them.
--
-- State and names: a `&mut self` is an argument and a result. The storages, which the source shares
-- by `Rc<RefCell<..>>`, are the pair `Stores` that every run of the collector takes and returns. A
-- HashMap or a HashSet is the list of its entries in the order of iteration. What fails is an
-- `Outcome`: `err` for an `Err`, `panic` for a panic of any kind. A definition has the name of its
-- function in the source; where a closure or a block of a function has a definition of its own, its
-- comment says which. A name that is a word of the language has an underscore at the end
-- (`instance_`, `use_`), and `scrutinize_crate` is the function `scrutinizer` of the driver.
--
-- Parameters: the compiler is the record `Tcx`, flowistry is `Flowistry`, the dataflow engine of the
-- compiler is `Dataflow`, the crates itertools and regex are `Itertools` and `RegexCompiler`. Of the
-- engine two things are asked where a theorem says so: it makes its states only by the effects and the
-- joins that it is given (`IsSound`), and it stops as soon as an effect of a terminator runs out of fuel
-- (`IsSequential`). The compiler's opaque files of numbers and its source map are
-- `Serialization` and `Session` (a promise about them is `IsSerializer`: what is written is read back),
-- `Dumping` is what the dump asks of it, with the derived encodings of bodies and facts. The crate
-- rustc_utils' cache is `Cache`, of which `IsCache` asks that it holds what it was given. `Cargo` is
-- what cargo prints, `Debug` how values are printed, `System` the clock and the file of the report.
-- Files on disk are the record `Files`. Equality of the compiler's values is an equivalence and
-- need not be the identity.
--
-- Fuel: `analyze_item` runs on fuel for the depth of the call graph; `run` gives it one more than the
-- number of stored functions, which is enough since calls lead to functions stored before their
-- caller. `Collector.Engine.run` runs on fuel for the depth of nested calls. The source sets no bound on
-- it: a call is only skipped when the same function is under way with equal tracked arguments, so that
-- no number can be given in advance, and a collection that needs more ends in `out_of_fuel`. `visit_ty`
-- of the heuristics runs on fuel for the depth of types, where the source has no bound either. A model
-- without fuel left ends in `out_of_fuel`, which is no result; every other end is meant to be that of
-- the source's unbounded recursion (`Driver.Fuel`).
--
-- Not modelled: the bytes of the compiler's own types, which it derives; the parsers of the command
-- line and of the TOML file; the text that serde_json prints for a JSON value; the files under mir_dumps
-- and the log, which are output for debugging; the two binaries, which only start the plugin; the test
-- crate and the script that draws a graph, which are no part of the program.
pub mod Prelude
pub mod Rustc
pub mod Common
pub mod BodyCache
pub mod Flowistry
pub mod Important
pub mod Analyzer
pub mod Precheck
pub mod Selector
pub mod Collector
pub mod Driver
pub mod Tests
pub mod Sample
pub mod SampleEngine
pub mod SampleFiles
