-- ===== src/Collector/Domain/Updates.antt =====
-- scrutils/src/collector/collector_domain.rs: writes to the state of the analysis.
use scrutinizer.Prelude.{
  ◌≡◌, refl, ◌∙◌, arith, true, inl, inr, List, [], ◌∷◌, some, Outcome, ok, expect, collect, each,
  Bool-cases, subst, >>=-split, ok_injective, expect-some, unwrap_ok,
}
use scrutinizer.Prelude.Eq.{◌==◌}
use scrutinizer.Prelude.HashMap
use scrutinizer.Prelude.HashMap.{HashMap, get_congr, get-modify, get-upsert}
use scrutinizer.Rustc.Queries.{Tcx}
use scrutinizer.Common.TrackedTy.{TrackedTy, join}
use scrutinizer.Common.TrackedTy.Join.{may_be, is_erased, is_erased-join, may_be-join}
use scrutinizer.Common.NormalizedPlace.{NormalizedPlace, same_place_refl, eq_normalized_place}
use scrutinizer.Collector.Domain.{
  CollectorDomain, set_places, join_at, reached, project, propagate, update_with,
}

module _ ⦃tcx : Tcx⦄ where
  open tcx use {Ty, DefId, Body}

  -- The second value is erased like the first, and may be whatever the first may be.
  abbrev Below : TrackedTy → TrackedTy → Type 0
  Below t t' = (is_erased t' ≡ is_erased t) × ((ty : Ty) → may_be t ty ≡ true → may_be t' ty ≡ true)

  -- Each tracked place stays tracked, below its later value; the calls and the unhandled types are
  -- as they were.
  abbrev pub Grows : CollectorDomain → CollectorDomain → Type 0
  Grows d d' =
      ((p : NormalizedPlace) (t : TrackedTy)
        → HashMap.get d.places p ≡ some t
        → (t' : TrackedTy) × (HashMap.get d'.places p ≡ some t') × Below t t')
      × (d'.calls ≡ d.calls)
      × (d'.unhandled ≡ d.unhandled)

  pub Grows-refl : (d : CollectorDomain) → Grows d d
  Grows-refl d = (λ p t g. (t, g, (refl, λ ty h. h)), refl, refl)

  pub Grows-trans : (a b c : CollectorDomain) → Grows a b → Grows b c → Grows a c
  Grows-trans a b c ab bc = (
    λ p t g.
        (let (t', g', (e', m')) = ab.0 p t g in
          let (t'', g'', (e'', m'')) = bc.0 p t' g' in
          (t'', g'', (e'' ∙ e', λ ty h. m'' ty (m' ty h)))),
    bc.1 ∙ ab.1,
    bc.2 ∙ ab.2,
  )

  pub Below-join : (t u : TrackedTy) → Below t (join t u).0
  Below-join t u = (is_erased-join t u, λ ty h. ground (arith, may_be-join t u ty))

  Grows-modify :
      (d : CollectorDomain) (k : NormalizedPlace) (u : TrackedTy)
      → Grows d (set_places d (HashMap.modify d.places k (λ v. (join v u).0)))
  unfolding set_places
  Grows-modify d k u = (
    λ p t g. elim (Bool-cases (k == p)) [
      | inl e ↦ (
        (join t u).0,
        ground (arith, get-modify d.places k p (λ v. (join v u).0)),
        Below-join t u,
      )
      | inr e ↦ (t, ground (arith, get-modify d.places k p (λ v. (join v u).0)), (refl, λ ty h. h))
    ],
    refl,
    refl,
  )

  Grows-join_at :
      (d d' : CollectorDomain) (a : NormalizedPlace × TrackedTy) → join_at d a ≡ ok d' → Grows d d'
  unfolding join_at
  Grows-join_at d d' (k, u) h =
      let (old, e, h') = >>=-split (expect (HashMap.get d.places k)) _ h in
      subst (Grows d) (ok_injective h') (Grows-modify d k u)

  Grows-each :
      {A : Type 0} (f : CollectorDomain → A → Outcome CollectorDomain)
      → ((s s' : CollectorDomain) (a : A) → f s a ≡ ok s' → Grows s s')
      → (d d' : CollectorDomain) (xs : List A) → each f d xs ≡ ok d'
      → Grows d d'
  Grows-each f step d d' [] h = subst (Grows d) (ok_injective h) (Grows-refl d)
  Grows-each f step d d' (x ∷ xs) h =
      let (s, e, h') = >>=-split (f d x) _ h in
      Grows-trans d s d' (step d s x e) (Grows-each f step s d' xs h')

  pub Grows-propagate :
      (d d' : CollectorDomain) (place : NormalizedPlace) (ty : TrackedTy) (body : Body)
      (def_id : DefId)
      → propagate d place ty body def_id ≡ ok d'
      → Grows d d'
  unfolding propagate
  Grows-propagate d d' place ty body def_id h =
      let (paths, e, h') =
        >>=-split (collect (project place ty body def_id) (reached place ty body def_id)) _ h in
      Grows-each join_at Grows-join_at d d' paths h'

  -- The place is tracked, and if it was erased before, it may be whatever the written type may be.
  abbrev pub Takes : CollectorDomain → CollectorDomain → NormalizedPlace → TrackedTy → Type 0
  Takes d d' place ty =
      (t' : TrackedTy) × (HashMap.get d'.places place ≡ some t')
      × ((t : TrackedTy)
          → HashMap.get d.places place ≡ some t
          → is_erased t ≡ true
          → (x : Ty) → may_be ty x ≡ true
          → may_be t' x ≡ true)

  pub Takes-later :
      (a b c : CollectorDomain) (place : NormalizedPlace) (ty : TrackedTy)
      → Takes a b place ty
      → Grows b c
      → Takes a c place ty
  Takes-later a b c place ty (t, g, m) bc =
      let (t', g', (e', m')) = bc.0 place t g in (t', g', λ u h e x k. m' x (m u h e x k))

  pub Takes-earlier :
      (a b c : CollectorDomain) (place : NormalizedPlace) (ty : TrackedTy)
      → Grows a b
      → Takes b c place ty
      → Takes a c place ty
  Takes-earlier a b c place ty ab (t, g, m) =
      (t, g, λ u h e x k. (let (u', h', (e', m')) = ab.0 place u h in m u' h' (e' ∙ e) x k))

  Takes-modify :
      (d : CollectorDomain) (k : NormalizedPlace) (old u : TrackedTy)
      → HashMap.get d.places k ≡ some old
      → Takes d (set_places d (HashMap.modify d.places k (λ v. (join v u).0))) k u
  unfolding set_places
  Takes-modify d k old u e = (
    (join old u).0,
    ground (arith, get-modify d.places k k (λ v. (join v u).0), same_place_refl k),
    λ t g er x m. ground (arith, may_be-join old u x),
  )

  Takes-join_at :
      (d d' : CollectorDomain) (k : NormalizedPlace) (u : TrackedTy)
      → join_at d (k, u) ≡ ok d'
      → Takes d d' k u
  unfolding join_at
  Takes-join_at d d' k u h =
      let (old, e, h') = >>=-split (expect (HashMap.get d.places k)) _ h in
      subst (λ x. Takes d x k u) (ok_injective h') (Takes-modify d k old u (expect-some _ old e))

  -- When `update_with` returns, no tracked place is lost or loses a plausible type, the calls and the
  -- unhandled types are as before, and the written place, if it is erased, may be all that the
  -- written type may be.
  pub update_with-Grows :
      (self d : CollectorDomain) (place : NormalizedPlace) (ty : TrackedTy) (body : Body)
      (def_id : DefId)
      → update_with self place ty body def_id ≡ ok d
      → Grows self d × Takes self d place ty
  unfolding update_with
  update_with-Grows self d place ty body def_id h =
      let (written, e, h1) = >>=-split (join_at self (place, ty)) _ h in
      let (place_ty, e1, h2) = >>=-split (expect (HashMap.get written.places place)) _ h1 in
      let later =
        Grows-propagate written d place place_ty body def_id
          (unwrap_ok (propagate written place place_ty body def_id) d h2) in
      (
        Grows-trans self written d (Grows-join_at self written (place, ty) e) later,
        Takes-later self written d place ty (Takes-join_at self written place ty e) later,
      )
