-- ===== src/Collector/Domain/Injections.antt =====
-- scrutils/src/collector/collector_domain.rs: the injection of the arguments and of the captured
-- variables.
use scrutinizer.Prelude.{
  ℕ, zero, suc, ◌+◌, ◌≤◌, ◌≡◌, refl, sym, arith, inl, inr, List, [], ◌∷◌, map, some, some_injective,
  ok, each, All, All-map, if◌then◌else◌, get_elem?, drop, enumerate_from, Bool-cases, true,
  Option-cases, subst, >>=-split, ok_injective, unwrap_ok,
}
use scrutinizer.Prelude.Eq.{◌==◌}
use scrutinizer.Prelude.HashMap
use scrutinizer.Prelude.HashMap.{HashMap, get_congr, get-modify, get-upsert}
use scrutinizer.Rustc.Queries.{Tcx}
use scrutinizer.Common.TrackedTy.{TrackedTy, join}
use scrutinizer.Common.TrackedTy.Join.{may_be-join}
use scrutinizer.Common.NormalizedPlace.{NormalizedPlace, same_place_refl, eq_normalized_place}
use scrutinizer.Common.ArgTys.{ArgTys}
use scrutinizer.Common.Function.{ClosureInfo}
use scrutinizer.Collector.Domain.{
  CollectorDomain, set_places, propagate, inject, arg_place, upvar_place, augment_with_args,
  augment_closure_with_upvars,
}
use scrutinizer.Collector.Domain.Updates.{
  Grows, Grows-refl, Grows-trans, Below-join, Grows-propagate, Takes, Takes-later, Takes-earlier,
}

module _ ⦃tcx : Tcx⦄ where
  open tcx use {Ty, DefId, Body}

  -- The state in which `inject` propagates.
  abbrev injected : CollectorDomain → NormalizedPlace → TrackedTy → CollectorDomain
  injected d k u = set_places d (HashMap.upsert d.places k (λ v. (join v u).0) u)

  Grows-upsert :
      (d : CollectorDomain) (k : NormalizedPlace) (u : TrackedTy) → Grows d (injected d k u)
  unfolding set_places
  Grows-upsert d k u = (
    λ p t g. elim (Bool-cases (k == p)) [
      | inl e ↦ (
        (join t u).0,
        ground (arith, get-upsert d.places k p (λ v. (join v u).0) u, get_congr d.places k p),
        Below-join t u,
      )
      | inr e ↦
          (t, ground (arith, get-upsert d.places k p (λ v. (join v u).0) u), (refl, λ ty h. h))
    ],
    refl,
    refl,
  )

  Takes-upsert :
      (d : CollectorDomain) (k : NormalizedPlace) (u : TrackedTy) → Takes d (injected d k u) k u
  unfolding set_places
  Takes-upsert d k u = elim (Option-cases (HashMap.get d.places k)) [
    | inl e ↦ (
      u,
      ground (arith, get-upsert d.places k k (λ v. (join v u).0) u, same_place_refl k),
      λ t g er x m. m,
    )
    | inr (old, e) ↦ (
      (join old u).0,
      ground (arith, get-upsert d.places k k (λ v. (join v u).0) u, same_place_refl k),
      λ t g er x m. ground (arith, may_be-join old u x),
    )
  ]

  inject-Grows :
      (d d' : CollectorDomain) (body : Body) (def_id : DefId) (k : NormalizedPlace) (u : TrackedTy)
      → inject body def_id d (k, u) ≡ ok d'
      → Grows d d' × Takes d d' k u
  unfolding inject
  inject-Grows d d' body def_id k u h =
      let later =
        Grows-propagate (injected d k u) d' k u body def_id
          (unwrap_ok (propagate (injected d k u) k u body def_id) d' h) in
      (
        Grows-trans d (injected d k u) d' (Grows-upsert d k u) later,
        Takes-later d (injected d k u) d' k u (Takes-upsert d k u) later,
      )

  each-inject :
      (d d' : CollectorDomain) (body : Body) (def_id : DefId)
      (entries : List (NormalizedPlace × TrackedTy))
      → each (inject body def_id) d entries ≡ ok d'
      → Grows d d' × All (λ kv. Takes d d' kv.0 kv.1) entries
  each-inject d d' body def_id [] h = (subst (Grows d) (ok_injective h) (Grows-refl d), tt)
  each-inject d d' body def_id ((k, u) ∷ entries) h =
      let (s, e, h') = >>=-split (inject body def_id d (k, u)) _ h in
      let (first, taken) = inject-Grows d s body def_id k u e in
      let (rest, others) = each-inject s d' body def_id entries h' in
      (
        Grows-trans d s d' first rest,
        (
          Takes-later d s d' k u taken rest,
          All-map (λ kv. Takes-earlier d s d' kv.0 kv.1 first) entries others,
        ),
      )

  All-drop :
      (Q : NormalizedPlace × TrackedTy → Type 0) (f : ℕ × TrackedTy → NormalizedPlace × TrackedTy)
      (n k i j : ℕ) (xs : List TrackedTy) (x : TrackedTy)
      → All Q (map f (drop n (enumerate_from k xs)))
      → get_elem? xs i ≡ some x
      → n ≤ i
      → k + i ≡ j
      → Q (f (j, x))
  All-drop Q f n k i j [] x h e le at = absurd (cc)
  All-drop Q f zero k zero j (y ∷ xs) x h e le at =
      subst (λ l. Q (f (l, x))) (omega arith) (subst (λ z. Q (f (k, z))) (some_injective e) h.0)
  All-drop Q f zero k (suc i) j (y ∷ xs) x h e le at =
      All-drop Q f zero (suc k) i j xs x h.1 e (omega arith) (omega arith)
  All-drop Q f (suc n) k zero j (y ∷ xs) x h e le at = absurd (omega arith)
  All-drop Q f (suc n) k (suc i) j (y ∷ xs) x h e le at =
      All-drop Q f n (suc k) i j xs x h e (omega arith) (omega arith)

  -- When `augment_with_args` returns, no tracked place is lost or loses a plausible type, the calls
  -- and the unhandled types are as before, and each argument that is injected has its place tracked,
  -- which, if it was tracked as erased, may be all that the argument may be. For a closure the first
  -- argument has no effect: with any other in its place the result is the same, and if it is the only
  -- one the state is unchanged.
  pub augment_with_args-Grows :
      (self d : CollectorDomain) (arg_tys : ArgTys) (body : Body) (def_id : DefId)
      → augment_with_args self arg_tys body def_id ≡ ok d
      → Grows self d
        × ((i : ℕ) (ty : TrackedTy)
            → get_elem? arg_tys.arg_tys i ≡ some ty
            → (if tcx.is_closure def_id then 1 else 0) ≤ i
            → Takes self d (arg_place def_id i) ty)
        × ((first other : TrackedTy) (rest : List TrackedTy)
            → arg_tys.arg_tys ≡ first ∷ rest
            → tcx.is_closure def_id ≡ true
            → augment_with_args self (record { arg_tys = other ∷ rest }) body def_id ≡ ok d)
        × ((first : TrackedTy)
            → arg_tys.arg_tys ≡ first ∷ []
            → tcx.is_closure def_id ≡ true
            → d ≡ self)
  unfolding augment_with_args
  augment_with_args-Grows self d arg_tys body def_id h =
      let (grown, taken) = each-inject self d body def_id _ h in
      (
        grown,
        λ i ty e le.
            All-drop (λ kv. Takes self d kv.0 kv.1) (λ p. (arg_place def_id p.0, p.1)) _ 0 i i
              arg_tys.arg_tys ty taken e le (omega arith),
        λ first other rest e c. rw c (rw (c, e) at h),
        λ first e c. sym (ok_injective (rw (c, e) at h)),
      )

  -- When `augment_closure_with_upvars` returns, no tracked place is lost or loses a plausible type,
  -- the calls and the unhandled types are as before, and the place of each captured variable in the
  -- closure's body is tracked, and if it was tracked as erased, it may be all that the variable may
  -- be.
  pub augment_closure_with_upvars-Grows :
      (self d : CollectorDomain) (closure_info : ClosureInfo) (body : Body) (def_id : DefId)
      → augment_closure_with_upvars self closure_info body def_id ≡ ok d
      → Grows self d
        × ((i : ℕ) (ty : TrackedTy)
            → get_elem? closure_info.upvars i ≡ some ty
            → Takes self d (upvar_place body def_id i) ty)
  unfolding augment_closure_with_upvars
  augment_closure_with_upvars-Grows self d closure_info body def_id h =
      let (grown, taken) = each-inject self d body def_id _ h in
      (
        grown,
        λ i ty e.
            All-drop (λ kv. Takes self d kv.0 kv.1) (λ p. (upvar_place body def_id p.0, p.1)) 0 0 i
              i closure_info.upvars ty taken e (omega arith) (omega arith),
      )
