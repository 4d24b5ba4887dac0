-- ===== src/Common/Storage/Closed.antt =====
-- The invariant of the function storage: each recorded call leads to a function that was stored
-- before its caller. `get_by_call` finds the first match, so it never leads forward.
use scrutinizer.Prelude.{
  Bool, true, ◌≡◌, sym, ap, subst, List, [], ◌∷◌, ◌++◌, append_assoc, append-nil, some,
  some_injective, ok, any, find, find-append, any-append, All, Bool-cases, inl, inr, arith,
}
use scrutinizer.Prelude.Eq.{eq_comm, eq_trans}
use scrutinizer.Rustc.Queries.{Tcx}
use scrutinizer.Common.Function.{
  FunctionInfo, info_with_body, info_without_body, FunctionCall, with_body, without_body, info_eq,
}
use scrutinizer.Common.Storage.Functions.{
  FunctionInfoStorage, insert, has_instance, has_def_id, get_by_call,
}

module _ ⦃tcx : Tcx⦄ where
  -- The stored function is one that the call leads to.
  abbrev pub matches : FunctionCall → FunctionInfo → Bool
  matches (with_body instance_ _) = has_instance instance_
  matches (without_body def_id _) = has_def_id def_id

  abbrev pub calls_of : FunctionInfo → List FunctionCall
  calls_of (info_with_body f) = f.calls
  calls_of (info_without_body _ _) = []

  abbrev pub Resolves : List FunctionInfo → FunctionCall → Type 0
  Resolves fns call = any (matches call) fns ≡ true

  -- The functions of the second list call only into what stands before them.
  abbrev pub IsClosedAfter : List FunctionInfo → List FunctionInfo → Type 0
  IsClosedAfter before [] = Unit
  IsClosedAfter before (f ∷ fs) =
      All (Resolves before) (calls_of f) × IsClosedAfter (before ++ f ∷ []) fs

  abbrev pub IsClosed : FunctionInfoStorage → Type 0
  IsClosed storage = IsClosedAfter [] storage.fns

  pub find_of_any :
      (p : FunctionInfo → Bool) (fns : List FunctionInfo)
      → any p fns ≡ true
      → (g : FunctionInfo) × (find p fns ≡ some g)
  find_of_any p [] h = absurd (cc)
  find_of_any p (f ∷ fs) h = elim (Bool-cases (p f)) [
    | inl yes_ ↦ (f, rw yes_)
    | inr no_ ↦ let (g, e) = find_of_any p fs (ground arith) in (g, rw no_ e)
  ]

  first_match :
      (s : FunctionInfoStorage) (call : FunctionCall) (g : FunctionInfo)
      → find (matches call) s.fns ≡ some g
      → get_by_call s call ≡ ok g
  unfolding get_by_call
  first_match s (with_body i args) g h = rw h
  first_match s (without_body d args) g h = rw h

  -- A call that resolves in a prefix of the storage leads to a function of that prefix.
  pub get_by_call-prefix :
      (storage : FunctionInfoStorage) (before after : List FunctionInfo) (call : FunctionCall)
      → storage.fns ≡ before ++ after
      → Resolves before call
      → (g : FunctionInfo) × (find (matches call) before ≡ some g)
        × (get_by_call storage call ≡ ok g)
  get_by_call-prefix storage before after call e h =
      let (g, found) = find_of_any (matches call) before h in
      let in_all = find-append (matches call) before after g found in
      (
        g,
        found,
        first_match storage call g (subst (λ l. find (matches call) l ≡ some g) (sym e) in_all),
      )

  -- What `find` finds splits the list.
  pub find_split :
      (p : FunctionInfo → Bool) (fns : List FunctionInfo) (g : FunctionInfo)
      → find p fns ≡ some g
      → (before : List FunctionInfo) × (after : List FunctionInfo) × (fns ≡ before ++ g ∷ after)
  find_split p [] g h = absurd (cc)
  find_split p (f ∷ fs) g h = elim (Bool-cases (p f)) [
    | inl yes_ ↦ ([], fs, ap (λ x. x ∷ fs) (some_injective (rw yes_ at h)))
    | inr no_ ↦
        let (before, after, e) = find_split p fs g (rw no_ at h) in
        (f ∷ before, after, ap (λ l. f ∷ l) e)
  ]

  closed_split :
      (before fns : List FunctionInfo) (g : FunctionInfo) (after : List FunctionInfo)
      → IsClosedAfter before (fns ++ g ∷ after)
      → All (Resolves (before ++ fns)) (calls_of g)
  closed_split before [] g after h =
      subst (λ l. All (Resolves l) (calls_of g)) (sym (append-nil before)) h.0
  closed_split before (f ∷ fns) g after h =
      subst (λ l. All (Resolves l) (calls_of g)) (append_assoc before (f ∷ []) fns)
        (closed_split (before ++ f ∷ []) fns g after h.1)

  -- In a closed storage the calls of a function resolve among the functions before it.
  pub IsClosed-split :
      (storage : FunctionInfoStorage) (before : List FunctionInfo) (g : FunctionInfo)
      (after : List FunctionInfo)
      → IsClosed storage
      → storage.fns ≡ before ++ g ∷ after
      → All (Resolves before) (calls_of g)
  IsClosed-split storage before g after h e =
      closed_split [] before g after (subst (IsClosedAfter []) e h)

  -- A storage that grows keeps what it resolves.
  pub Resolves-append :
      (fns more : List FunctionInfo) (call : FunctionCall)
      → Resolves fns call
      → Resolves (fns ++ more) call
  Resolves-append fns more call h = ground (arith, any-append (matches call) fns more)

  closed-append :
      (before fns : List FunctionInfo) (g : FunctionInfo)
      → IsClosedAfter before fns
      → All (Resolves (before ++ fns)) (calls_of g)
      → IsClosedAfter before (fns ++ g ∷ [])
  closed-append before [] g h calls =
      (subst (λ l. All (Resolves l) (calls_of g)) (append-nil before) calls, tt)
  closed-append before (f ∷ fns) g h calls = (
    h.0,
    closed-append (before ++ f ∷ []) fns g h.1
        (subst (λ l. All (Resolves l) (calls_of g)) (sym (append_assoc before (f ∷ []) fns)) calls),
  )

  -- Storing a function whose calls resolve keeps the storage closed.
  pub insert-IsClosed :
      (storage : FunctionInfoStorage) (info : FunctionInfo)
      → IsClosed storage
      → All (Resolves storage.fns) (calls_of info)
      → IsClosed (insert storage info)
  unfolding insert
  insert-IsClosed storage info h calls = elim (Bool-cases (any (λ f. info_eq f info) storage.fns)) [
    | inl old ↦ rw old h
    | inr new ↦ rw new (closed-append [] storage.fns info h calls)
  ]

  -- The calls that lead to a stored function.
  abbrev pub IsCallOf : FunctionInfo → FunctionCall → Type 0
  IsCallOf info call = matches call info ≡ true

  equal_matches :
      (f info : FunctionInfo) (call : FunctionCall)
      → info_eq f info ≡ true
      → IsCallOf info call
      → IsCallOf f call
  unfolding info_eq has_instance has_def_id
  equal_matches (info_with_body l) (info_with_body r) (with_body i args) h c = ground (
    arith,
    eq_trans ⦃e = tcx.instance_eq⦄ i r.instance_ l.instance_,
    eq_comm ⦃e = tcx.instance_eq⦄ l.instance_ r.instance_,
  )
  equal_matches (info_without_body d xs) (info_without_body d' ys) (without_body i args) h c =
      ground (arith, eq_trans ⦃e = tcx.def_id_eq⦄ d d' i)
  equal_matches (info_with_body l) (info_with_body r) (without_body i args) h c = c
  equal_matches (info_without_body d xs) (info_without_body d' ys) (with_body i args) h c = c
  equal_matches _ _ call h c = absurd (cc)

  any_equal :
      (fns : List FunctionInfo) (info : FunctionInfo) (call : FunctionCall)
      → IsCallOf info call
      → any (λ f. info_eq f info) fns ≡ true
      → Resolves fns call
  any_equal [] info call c h = absurd (cc)
  any_equal (f ∷ fns) info call c h =
      ground (arith, equal_matches f info call, any_equal fns info call c)

  -- A function that was stored, or was there already, is found by the calls of it.
  pub insert-Resolves :
      (storage : FunctionInfoStorage) (info : FunctionInfo) (call : FunctionCall)
      → IsCallOf info call
      → Resolves (insert storage info).fns call
  unfolding insert
  insert-Resolves storage info call c = elim (Bool-cases (any (λ f. info_eq f info) storage.fns)) [
    | inl old ↦ rw old (any_equal storage.fns info call c old)
    | inr new ↦ rw new (ground (arith, any-append (matches call) storage.fns (info ∷ [])))
  ]
