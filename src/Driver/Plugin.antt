-- ===== src/Driver/Plugin.antt =====
-- scrutinizer/src/lib.rs: the plugin's part in a build: the configuration with its defaults, how cargo
-- is called, the callbacks of a compilation, and what is written after the analysis.
pub mod Modified
use scrutinizer.Prelude.{
  ℕ, Bool, true, false, String, List, [], ◌∷◌, ◌++◌, Option, none, some, Outcome, ok, panic, ◌>>=◌,
  expect, drop, unwrap_or, collect, if◌then◌else◌,
}
use scrutinizer.Prelude.Text.{Text, codes, split_lines, starts_with, is_blank}
use scrutinizer.Rustc.Queries.{Tcx}
use scrutinizer.Rustc.Serialize.{Serialization}
use scrutinizer.Flowistry.{Flowistry}
use scrutinizer.BodyCache.Dump.{Dumping, Files, dump_mir_and_borrowck_facts}
use scrutinizer.Collector.HasTrackedTy.{Itertools}
use scrutinizer.Collector.Collect.{Dataflow}
use scrutinizer.Prelude.Json.{Json, object, array, string, items, field, end}
use scrutinizer.Analyzer.Deps.Strings.{Cargo}
use scrutinizer.Analyzer.Result.{PurityAnalysisResult}
use scrutinizer.Analyzer.Result.Serialized.{Debug, serialize_result}
use scrutinizer.Driver.{
  Config, default_mode, CrateHandling, just_compile, compile_and_dump, analyze,
  how_to_handle_this_crate, RegexCompiler, scrutinize_crate, exits_with_failure,
}

unfoldable pub default_only_inconsistent : Bool
default_only_inconsistent = false

unfoldable pub default_output_file : String
default_output_file = "analysis.result.json"

unfoldable pub default_shallow : Bool
default_shallow = false

-- A configuration as it is written, without the fields that it leaves out.
pub record ConfigFile : Type 0 where
  pub mode : Option String
  pub only_inconsistent : Option Bool
  pub output_file : Option String
  pub shallow : Option Bool
  pub target_filter : Option String
  pub important_args : Option (List ℕ)
  pub allowlist : Option (List String)
  pub trusted_stdlib : Option (List String)

-- The derived `Deserialize`, with its attributes `serde(default)`.
unfoldable pub config_of : ConfigFile → Config
config_of file = record {
  mode = unwrap_or file.mode default_mode;
  only_inconsistent = unwrap_or file.only_inconsistent default_only_inconsistent;
  output_file = unwrap_or file.output_file default_output_file;
  shallow = unwrap_or file.shallow default_shallow;
  target_filter = file.target_filter;
  important_args = file.important_args;
  allowlist = file.allowlist;
  trusted_stdlib = file.trusted_stdlib;
}

-- `std::process::Command`: the variables that are set, `none` for one that is removed, and the
-- arguments. A value that is not UTF-8 is `none` inside.
pub record Command : Type 0 where
  pub envs : List (Text × Option (Option Text))
  pub args : List Text

abbrev pub texts_eq : Text → Text → Bool
texts_eq a b = if starts_with a b then starts_with b a else false

-- `env(key, value)`
unfoldable pub set_env :
    Text → Text → List (Text × Option (Option Text)) → List (Text × Option (Option Text))
set_env key value [] = (key, some (some value)) ∷ []
set_env key value ((k, v) ∷ envs) =
    if texts_eq k key then (k, some (some value)) ∷ envs else (k, v) ∷ set_env key value envs

-- The loop over the lines: the last that begins with `host: `.
unfoldable pub target_in : Text → List Text → Text
target_in target [] = target
target_in target (part ∷ parts) =
    target_in (if starts_with part (codes "host: ") then drop 6 part else target) parts

-- The loop over the variables that are set; `to_str().unwrap()` panics on what is not UTF-8.
unfoldable pub old_rustflags_in : Text → List (Text × Option (Option Text)) → Outcome Text
old_rustflags_in old [] = ok old
old_rustflags_in old ((key, val) ∷ envs) = do
  next ←
      (if texts_eq key (codes "RUSTFLAGS")
        then elim val [ none ↦ ok old | some text ↦ expect text ]
        else ok old)
  old_rustflags_in next envs

-- `output`: what `rustc -vV` prints, `none` outside where it does not run, inside where that is not
-- UTF-8.
unfoldable pub modify_cargo : Option (Option Text) → Command → Outcome Command
modify_cargo output cargo = do
  printed ← expect output
  stdout ← expect printed
  let target = target_in [] (split_lines stdout)
  if is_blank target then panic else (do
    old_rustflags ← old_rustflags_in [] cargo.envs
    ok (record {
      envs = set_env (codes "RUSTFLAGS") (codes "-Zalways-encode-mir " ++ old_rustflags) cargo.envs;
      args =
          cargo.args
          ++ codes "-Zbuild-std=std,core,alloc,proc_macro" ∷ (codes "--target=" ++ target) ∷ [];
    }))

-- The three kinds of callbacks, which `run` gives to the compiler.
pub data Callbacks : Type 0 where
  noop_callbacks dump_only_callbacks : Callbacks
  scrutinizer_callbacks : Config → Callbacks

abbrev callbacks_of : Config → CrateHandling → Callbacks
callbacks_of plugin_args just_compile = noop_callbacks
callbacks_of plugin_args compile_and_dump = dump_only_callbacks
callbacks_of plugin_args analyze = scrutinizer_callbacks plugin_args

unfoldable pub run : Bool → List String → Config → Callbacks
run primary compiler_args plugin_args =
    callbacks_of plugin_args (how_to_handle_this_crate primary compiler_args)

-- `config`: whether the queries are overridden and MIR is simplified.
unfoldable pub overrides_queries : Callbacks → Bool
overrides_queries noop_callbacks = false
overrides_queries dump_only_callbacks = true
overrides_queries (scrutinizer_callbacks _) = true

-- What is serialized after the analysis.
pub record Output ⦃tcx : Tcx⦄ : Type 0 where
  pub results : List PurityAnalysisResult
  pub elapsed : Json
  pub crate_name : String

-- What the callback asks of the system: cargo, the time that the analysis took as it is
-- serialized, the wall clock as it is printed, and whether the report can be written to a file.
pub record System : Type 0 where
  pub cargo : Cargo
  pub elapsed : Json
  pub now : Text
  pub can_write : Text → Bool

-- The file of the report, with what `serde_json` prints to it.
pub record Written : Type 0 where
  pub file_name : Text
  pub output_string : Json

-- How a compilation goes on.
pub data Compilation : Type 0 where
  -- no report is written
  continue_ : Compilation
  -- the report is written
  reported : Written → Compilation
  -- and the process exits with -1
  exit_failure : Written → Compilation

module _ ⦃tcx : Tcx⦄ {ser : Serialization tcx.names} (dumping : Dumping ser) where
  unfoldable pub after_expansion : Callbacks → Files tcx.names → Outcome (Files tcx.names)
  after_expansion noop_callbacks files = ok files
  after_expansion dump_only_callbacks files = dump_mir_and_borrowck_facts dumping files
  after_expansion (scrutinizer_callbacks _) files = dump_mir_and_borrowck_facts dumping files

module _ ⦃tcx : Tcx⦄ ⦃debug : Debug⦄ (system : System) where
  -- The derived `Serialize`.
  unfoldable pub serialize_output : Output → Outcome Json
  serialize_output self = do
    results ← collect (serialize_result system.cargo) self.results
    ok (
        object (
          field (codes "results") (array (items (λ json. json) results)) (
            field (codes "elapsed") self.elapsed
              (field (codes "crate_name") (string (codes self.crate_name)) end))))

  -- `File::create(file_name).and_then(..).unwrap()`
  unfoldable pub write_output : Config → Output → Outcome Written
  write_output args output = do
    output_string ← serialize_output output
    let file_name = system.now ++ codes "." ++ codes args.output_file
    (if system.can_write file_name
        then ok (record { file_name = file_name; output_string = output_string })
        else panic)

  module _ ⦃flow : Flowistry⦄ ⦃itertools : Itertools⦄ ⦃dataflow : Dataflow⦄ ⦃regex : RegexCompiler⦄
      (fuel depth : ℕ) where
    unfoldable pub after_analysis : Callbacks → Outcome Compilation
    after_analysis noop_callbacks = ok continue_
    after_analysis dump_only_callbacks = ok continue_
    after_analysis (scrutinizer_callbacks args) = do
      results ← scrutinize_crate fuel depth args
      written ← write_output args (record {
        results = results;
        elapsed = system.elapsed;
        crate_name = tcx.crate_name tcx.local_crate;
      })
      ok (if exits_with_failure results then exit_failure written else reported written)
