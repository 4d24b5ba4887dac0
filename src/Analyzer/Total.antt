-- ===== src/Analyzer/Total.antt =====
-- `analyze_item` ends with a verdict: the calls of a closed storage lead backwards only.
use scrutinizer.Prelude.{
  ℕ, zero, suc, ◌≤◌, Bool, true, false, ◌&&◌, ◌≡◌, refl, sym, ap, subst, ◌∙◌, List, [], ◌∷◌, ◌++◌,
  append_assoc, append-nil, some, Outcome, ok, >>=-returns, find, length, length-append, All, arith,
  if◌then◌else◌, expect,
}
use scrutinizer.Rustc.Queries.{Tcx}
use scrutinizer.Flowistry.{Flowistry}
use scrutinizer.BodyCache.{substituted_mir}
use scrutinizer.Common.Function.{
  FunctionInfo, info_with_body, info_without_body, FunctionCall, call_args, call_def_id,
  info_instance, info_calls,
}
use scrutinizer.Common.Storage.Functions.{
  FunctionInfoStorage, get_by_call, get_with_body, has_instance,
}
use scrutinizer.Common.Storage.Closed.{
  matches, calls_of, Resolves, IsClosed, get_by_call-prefix, find_split, IsClosed-split,
}
use scrutinizer.Common.Storage.Closures.{ClosureInfoStorage}
use scrutinizer.Important.Compute.{ImportantLocals}
use scrutinizer.Important.Transition.{transition}
use scrutinizer.Analyzer.Heuristics.{has_transmute}
use scrutinizer.Analyzer.Result.{PurityAnalysisResult}
use scrutinizer.Analyzer.Analyze.{
  Report, extend_deps, is_trusted, analyze_calls, judge, analyze_item, run,
}
use scrutinizer.Analyzer.Inversion.{Analyze}

-- An outcome that is one of two values is a value.
returned {ℓ} : {A : Type ℓ} (b : Bool) (x y : A) → (q : A) × ((if b then ok x else ok y) ≡ ok q)
returned true x y = (x, refl)
returned false x y = (y, refl)

settled_or_judged {ℓ} :
    {A : Type ℓ} (b : Bool) (x : A) (o : Outcome A)
    → (q : A) × (o ≡ ok q)
    → (q : A) × ((if b then ok x else o) ≡ ok q)
settled_or_judged true x o h = (x, refl)
settled_or_judged false x o h = h

module _ ⦃tcx : Tcx⦄ ⦃flow : Flowistry⦄ (storage : FunctionInfoStorage) (depth : ℕ) where
  -- The step from caller to callee returns, whatever locals are important.
  abbrev pub CanStep : FunctionCall → Type 0
  CanStep call =
      (locals : ImportantLocals)
      → (m : ImportantLocals) × (transition locals (call_args call) (call_def_id call) ≡ ok m)

  -- What `analyze_item` asks of the compiler and of flowistry about a function has an answer.
  abbrev pub IsAvailable : FunctionInfo → Type 0
  IsAvailable (info_with_body f) =
      ((body : tcx.Body) × (substituted_mir f.instance_ ≡ ok body))
      × ((t : Bool) × (has_transmute depth f.body ≡ ok t))
      × All CanStep f.calls
  IsAvailable (info_without_body _ _) = Unit

  -- The function returns on every input.
  abbrev Returns : Analyze storage depth → FunctionInfo → Type 0
  Returns f g = (m : ImportantLocals) (r : Report) → (q : Bool × Report) × (f g m r ≡ ok q)

  calls_return :
      (f : Analyze storage depth) (calls : List FunctionCall)
      → All CanStep calls
      → All (λ c. (g : FunctionInfo) × (get_by_call storage c ≡ ok g) × Returns f g) calls
      → (locals : ImportantLocals) (r : Report)
      → (q : Bool × Report) × (analyze_calls storage depth f locals calls r ≡ ok q)
  unfolding analyze_calls
  calls_return f [] steps found locals r = ((true, r), refl)
  calls_return f (call ∷ calls) steps found locals r =
      let (m, e) = steps.0 locals in
      let (g, e', ret) = found.0 in
      let (q, e'') = ret m r in
      let (q', e''') = calls_return f calls steps.1 found.1 locals q.1 in
      ((q.0 && q'.0, q'.1), rw e (rw e' (rw e'' (rw e'''))))

  module _ (allowlist trusted_stdlib : List tcx.Regex) where
    abbrev analyze : ℕ → Analyze storage depth
    analyze = analyze_item storage depth allowlist trusted_stdlib

    judge-Returns :
        (f : Analyze storage depth) (item : FunctionInfo)
        → IsAvailable item
        → All
            (λ c. (g : FunctionInfo) × (get_by_call storage c ≡ ok g) × Returns f g)
            (calls_of item)
        → Returns (judge storage depth allowlist trusted_stdlib f) item
    unfolding judge info_calls
    judge-Returns f (info_without_body d ts) a found m r = (_, refl)
    judge-Returns f (info_with_body g) (body, (t, e), steps) found m r =
        let (q, e') = calls_return f g.calls steps found m r in rw e (rw e' (returned _ _ _))

    item-Returns :
        (n : ℕ) (item : FunctionInfo)
        → IsAvailable item
        → All
            (λ c. (g : FunctionInfo) × (get_by_call storage c ≡ ok g) × Returns (analyze n) g)
            (calls_of item)
        → Returns (analyze (suc n)) item
    unfolding analyze_item extend_deps is_trusted info_instance
    item-Returns n (info_without_body d ts) a found m r =
        settled_or_judged _ _ _ (judge-Returns (analyze n) (info_without_body d ts) a found m _)
    item-Returns n (info_with_body f) ((body, eb), ht, st) found m r = rw eb (
        settled_or_judged _ _ _
          (judge-Returns (analyze n) (info_with_body f) ((body, eb), ht, st) found m _))

    -- The calls of a function lead into what stands before it, where less fuel is enough.
    All-found :
        (before after : List FunctionInfo) (n : ℕ) (calls : List FunctionCall)
        → storage.fns ≡ before ++ after
        → ((p : FunctionInfo → Bool) (g : FunctionInfo)
            → find p before ≡ some g
            → Returns (analyze n) g)
        → All (Resolves before) calls
        → All
            (λ c. (g : FunctionInfo) × (get_by_call storage c ≡ ok g) × Returns (analyze n) g)
            calls
    All-found before after n [] e ih h = tt
    All-found before after n (call ∷ calls) e ih h =
        let (g, found, e') = get_by_call-prefix storage before after call e h.0 in
        ((g, e', ih (matches call) g found), All-found before after n calls e ih h.1)

    All-at :
        (before : List FunctionInfo) (g : FunctionInfo) (after : List FunctionInfo)
        → All IsAvailable (before ++ g ∷ after)
        → IsAvailable g
    All-at [] g after h = h.0
    All-at (f ∷ before) g after h = All-at before g after h.1

    found-Returns :
        (n : ℕ) (before after : List FunctionInfo)
        → length before ≤ n
        → storage.fns ≡ before ++ after
        → IsClosed storage
        → All IsAvailable storage.fns
        → (p : FunctionInfo → Bool) (g : FunctionInfo) → find p before ≡ some g
        → Returns (analyze n) g
    found-Returns zero [] after le e closed available p g h = absurd (cc)
    found-Returns zero (f ∷ before) after le e closed available p g h = absurd (omega arith)
    found-Returns (suc n) before after le e closed available p g h =
        let (pre, post, split) = find_split p before g h in
        let e' : storage.fns ≡ pre ++ g ∷ (post ++ after) =
          e ∙ ap (λ l. l ++ after) split ∙ append_assoc pre (g ∷ post) after in
        let shorter : length pre ≤ n =
          omega (arith, ap (length {A = FunctionInfo}) split, length-append pre (g ∷ post)) in
        item-Returns n g (All-at pre g (post ++ after) (subst (All IsAvailable) e' available)) (
          All-found pre (g ∷ (post ++ after)) n (calls_of g) e'
            (found-Returns n pre (g ∷ (post ++ after)) shorter e' closed available)
            (IsClosed-split storage pre g (post ++ after) closed e'))

    -- On a closed storage whose functions are available, fuel for as many calls as the storage has
    -- functions is enough for each stored function: `analyze_item` neither runs out of it nor
    -- panics.
    pub analyze_item_returns :
        (fuel : ℕ) (p : FunctionInfo → Bool) (item : FunctionInfo) (locals : ImportantLocals)
        (report : Report)
        → IsClosed storage
        → All IsAvailable storage.fns
        → length storage.fns ≤ fuel
        → find p storage.fns ≡ some item
        → (q : Bool × Report) × (analyze_item storage depth allowlist trusted_stdlib fuel item
              locals report
            ≡ ok q)
    analyze_item_returns fuel p item locals report closed available enough found =
        found-Returns fuel storage.fns [] enough (sym (append-nil _)) closed available p item found
          locals report

    -- `run` returns a result whenever the origin is stored, in a closed storage whose functions
    -- are available.
    pub run_returns :
        (closures : ClosureInfoStorage) (important_locals : ImportantLocals) (annotated_pure : Bool)
        (origin : FunctionInfo)
        → IsClosed storage
        → All IsAvailable storage.fns
        → get_with_body storage storage.origin ≡ some origin
        → (result : PurityAnalysisResult) × (run storage depth allowlist trusted_stdlib closures
              important_locals annotated_pure
            ≡ ok result)
    unfolding run get_with_body
    run_returns closures important_locals annotated_pure origin closed available found =
        let (q, e) =
          analyze_item_returns (suc (length storage.fns)) (has_instance storage.origin) origin
            important_locals (record { passing = []; failing = []; deps = [] }) closed available
            (omega arith) found in
        >>=-returns _ _ origin (ap expect found) (>>=-returns _ _ q e (_, refl))
