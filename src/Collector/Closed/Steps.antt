-- ===== src/Collector/Closed/Steps.antt =====
-- The invariant of the collector, and its preservation by what changes the storage and the state.
use scrutinizer.Prelude.{
  ◌≡◌, refl, sym, ap, ◌∙◌, subst, Bool, inl, inr, List, [], ◌∷◌, ◌++◌, some, append-nil,
  append_assoc, All, All-map, All-append, ok, any, Bool-cases, ok_injective, >>=-split,
}
use scrutinizer.Prelude.Eq.{Eq}
use scrutinizer.Prelude.HashSet
use scrutinizer.Prelude.HashSet.{insert, extend}
use scrutinizer.Rustc.Queries.{Tcx, Operand}
use scrutinizer.Common.ArgTys.{ArgTys}
use scrutinizer.Common.Function.{FunctionCall, FunctionInfo, info_eq, eq_function_call}
use scrutinizer.Common.Storage.Functions
use scrutinizer.Common.Storage.Functions.{has_instance, has_def_id, get_with_body}
use scrutinizer.Common.Storage.Closed.{
  IsClosed, IsCallOf, Resolves, calls_of, insert-IsClosed, insert-Resolves, Resolves-append,
}
use scrutinizer.Collector.Domain.{CollectorDomain, add_call, join_domain, join_places}
use scrutinizer.Collector.Collect.{Stores, store, info_of, call_without_body, call_with_body}

All-insert :
    {A : Type 0} (e : Eq A) (Q : A → Type 0) (xs : List A) (a : A)
    → All Q xs
    → Q a
    → All Q (insert ⦃e = e⦄ xs a).0
unfolding insert
All-insert e Q xs a h q = elim (Bool-cases (HashSet.contains ⦃e = e⦄ xs a)) [
  | inl old ↦ rw old h
  | inr new ↦ rw new (All-append Q xs (a ∷ []) h (q, tt))
]

All-extend :
    {A : Type 0} (e : Eq A) (Q : A → Type 0) (xs ys : List A)
    → All Q xs
    → All Q ys
    → All Q (extend ⦃e = e⦄ xs ys).0
unfolding extend
All-extend e Q xs [] h k = h
All-extend e Q xs (y ∷ ys) h (q, k) =
    All-extend e Q (insert ⦃e = e⦄ xs y).0 ys (All-insert e Q xs y h q) k

module _ ⦃tcx : Tcx⦄ where
  open tcx use {DefId, Instance, Body}

  -- The calls of the state lead to stored functions.
  abbrev pub Holds : Stores → CollectorDomain → Type 0
  Holds s d = All (Resolves s.functions.fns) d.calls

  -- The later storage has the same origin and more functions after the same ones.
  abbrev pub Later : Stores → Stores → Type 0
  Later s s' =
      (s'.functions.origin ≡ s.functions.origin)
      × ((more : List FunctionInfo) × (s'.functions.fns ≡ s.functions.fns ++ more))

  abbrev pub Valid : Stores × CollectorDomain → Type 0
  Valid x = IsClosed x.0.functions × Holds x.0 x.1

  -- From one valid pair to a later one.
  abbrev pub Steps : Stores × CollectorDomain → Stores × CollectorDomain → Type 0
  Steps x y = Valid y × Later x.0 y.0

  -- What the analyzer asks of a storage: it is closed, and it has its origin.
  abbrev pub IsCollected : tcx.Instance → Stores → Type 0
  IsCollected instance_ stores =
      IsClosed stores.functions
      × (stores.functions.origin ≡ instance_)
      × ((origin : FunctionInfo) × (get_with_body stores.functions stores.functions.origin
            ≡ some origin))

  pub Later-refl : (s : Stores) → Later s s
  Later-refl s = (refl, ([], sym (append-nil s.functions.fns)))

  pub Later-trans : (a b c : Stores) → Later a b → Later b c → Later a c
  Later-trans a b c (o, (m, e)) (o', (m', e')) =
      (o' ∙ o, (m ++ m', e' ∙ ap (λ l. l ++ m') e ∙ append_assoc a.functions.fns m m'))

  pub Holds-Later :
      (a b : Stores)
      → Later a b
      → (calls : List FunctionCall) → All (Resolves a.functions.fns) calls
      → All (Resolves b.functions.fns) calls
  Holds-Later a b (o, (m, e)) calls h =
      subst (λ l. All (Resolves l) calls) (sym e)
        (All-map (Resolves-append a.functions.fns m) calls h)

  pub Steps-trans : (x y z : Stores × CollectorDomain) → Steps x y → Steps y z → Steps x z
  Steps-trans x y z (v, l) (w, m) = (w, Later-trans x.0 y.0 z.0 l m)

  -- Storing a function whose calls lead to stored functions.
  pub store-Later : (s : Stores) (info : FunctionInfo) → Later s (store info s)
  unfolding store Functions.insert
  store-Later s info = elim (Bool-cases (any (λ f. info_eq f info) s.functions.fns)) [
    | inl old ↦ rw old (Later-refl s)
    | inr new ↦ rw new (refl, (info ∷ [], refl))
  ]

  -- A function is stored and a call of it is added.
  store-Steps :
      (s : Stores) (d : CollectorDomain) (info : FunctionInfo) (c : FunctionCall)
      → Valid (s, d)
      → All (Resolves s.functions.fns) (calls_of info)
      → IsCallOf info c
      → Steps (s, d) (store info s, add_call d c)
  unfolding add_call
  store-Steps s d info c (closed, h) calls r = (
    (
      unfold store in insert-IsClosed s.functions info closed calls,
      All-insert eq_function_call (Resolves (store info s).functions.fns) d.calls c
          (Holds-Later s (store info s) (store-Later s info) d.calls h)
          (unfold store in insert-Resolves s.functions info c r),
    ),
    store-Later s info,
  )

  pub call_without_body-Steps :
      (def_id : DefId) (args : List Operand) (arg_tys : ArgTys) (x : Stores × CollectorDomain)
      → Valid x
      → Steps x (call_without_body def_id args arg_tys x)
  unfolding call_without_body has_def_id
  call_without_body-Steps def_id args arg_tys (s, d) v =
      store-Steps s d _ _ v tt (tcx.def_id_eq.beq_refl def_id)

  pub call_with_body-Steps :
      (instance_ : Instance) (body : Body) (results : CollectorDomain) (args : List Operand)
      (x : Stores × CollectorDomain)
      → Valid x
      → Holds x.0 results
      → Steps x (call_with_body instance_ body results args x)
  unfolding call_with_body info_of has_instance
  call_with_body-Steps instance_ body results args (s, d) v h =
      store-Steps s d _ _ v h (tcx.instance_eq.beq_refl instance_)

  -- The join of two states of which both hold.
  pub join-Holds :
      (s : Stores) (a b : CollectorDomain) (r : CollectorDomain × Bool)
      → join_domain a b ≡ ok r
      → Holds s a
      → Holds s b
      → Holds s r.0
  unfolding join_domain
  join-Holds s a b r e h k =
      let (q, _, same) = >>=-split (join_places a.places b.places) _ e in
      subst (λ x. Holds s x.0) (ok_injective same)
        (All-extend eq_function_call (Resolves s.functions.fns) a.calls b.calls h k)
