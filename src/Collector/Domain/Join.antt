-- ===== src/Collector/Domain/Join.antt =====
-- scrutils/src/collector/collector_domain.rs: the join of two states of the analysis.
use scrutinizer.Prelude.{
  ◌≡◌, refl, ap, sym, ◌∙◌, arith, Bool, true, false, ◌&&◌, ◌||◌, inl, inr, [], ◌∷◌, some, ok, panic,
  expect, any, all, is_some, if◌then◌else◌, Option-cases, >>=-split, ok_injective, expect-some,
  >>=-returns,
}
use scrutinizer.Prelude.Eq.{◌==◌}
use scrutinizer.Prelude.HashSet.{contains, contains-extend}
use scrutinizer.Prelude.HashMap
use scrutinizer.Prelude.HashMap.{HashMap, get_congr, get-modify}
use scrutinizer.Rustc.Queries.{Tcx}
use scrutinizer.Common.TrackedTy.{TrackedTy, join}
use scrutinizer.Common.TrackedTy.Join.{may_be, is_erased, is_erased-join, may_be-join}
use scrutinizer.Common.NormalizedPlace.{NormalizedPlace, eq_normalized_place}
use scrutinizer.Common.Function.{FunctionCall, eq_function_call}
use scrutinizer.Collector.Domain.{CollectorDomain, join_places, join_domain}

module _ ⦃tcx : Tcx⦄ where
  open tcx use {Ty}

  abbrev pub Places : Type 0
  Places = HashMap NormalizedPlace TrackedTy

  -- Some entry of the map for the place may be of the type.
  abbrev pub offers : Places → NormalizedPlace → Ty → Bool
  offers m p ty = any (λ kv. kv.0 == p && may_be kv.1 ty) m

  -- The place is tracked, and its plausible types are those before and, if it is erased, those
  -- that the other map offers for it.
  abbrev pub Joined : Places → TrackedTy → Places → NormalizedPlace → Type 0
  Joined other t joined p =
      (t' : TrackedTy) × (HashMap.get joined p ≡ some t')
      × (is_erased t' ≡ is_erased t)
      × ((ty : Ty) → may_be t' ty ≡ (may_be t ty || (is_erased t && offers other p ty)))

  unfoldable pub after_entry : Places → NormalizedPlace → TrackedTy → TrackedTy → Places
  after_entry self k old v = HashMap.modify self k (λ _. (join old v).0)

  -- What a first entry does in a join that returns.
  pub first_entry :
      (self : Places) (k : NormalizedPlace) (v : TrackedTy) (other : Places) (r : Places × Bool)
      → join_places self ((k, v) ∷ other) ≡ ok r
      → (old : TrackedTy) × (HashMap.get self k ≡ some old)
        × (q : Places × Bool) × (join_places (after_entry self k old v) other ≡ ok q)
        × (r ≡ (q.0, (join old v).1 || q.1))
  unfolding join_places after_entry
  first_entry self k v other r h =
      let (old, e, h1) = >>=-split (expect (HashMap.get self k)) _ h in
      let (q, e1, h2) = >>=-split (join_places (after_entry self k old v) other) _ h1 in
      (old, expect-some (HashMap.get self k) old e, q, e1, sym (ok_injective h2))

  get-after_entry :
      (self : Places) (k p : NormalizedPlace) (old v t : TrackedTy)
      → HashMap.get self k ≡ some old
      → HashMap.get self p ≡ some t
      → HashMap.get (after_entry self k old v) p ≡ some (if k == p then (join t v).0 else t)
  unfolding after_entry
  get-after_entry self k p old v t e g =
      ground (arith, get-modify self k p (λ _. (join old v).0), get_congr self k p)

  join_places_exact :
      (self other : Places) (p : NormalizedPlace) (t : TrackedTy) (r : Places × Bool)
      → join_places self other ≡ ok r
      → HashMap.get self p ≡ some t
      → Joined other t r.0 p
  join_places_exact self [] p t r h g = (
    t,
    (unfold join_places in rw (sym (ap (λ q. q.0) (ok_injective h))) g),
    refl,
    λ ty. ground arith,
  )
  join_places_exact self ((k, v) ∷ other) p t r h g =
      let (old, e, q, h1, same) = first_entry self k v other r h in
      let (t', found, kept, exact) =
        join_places_exact (after_entry self k old v) other p _ q h1
          (get-after_entry self k p old v t e g) in
      (
        t',
        ap (λ x. HashMap.get x.0 p) same ∙ found,
        ground (arith, is_erased-join t v),
        λ ty. ground (arith, exact ty, may_be-join t v ty, is_erased-join t v),
      )

  -- When `CollectorDomain::join` returns, each place tracked before is tracked after, its plausible
  -- types are those before and, if it is erased, those that the other state's entries for an equal
  -- place offer; and the calls and the unhandled types are those of both states.
  pub join_domain_exact :
      (self other : CollectorDomain) (r : CollectorDomain × Bool)
      → join_domain self other ≡ ok r
      → ((p : NormalizedPlace) (t : TrackedTy)
          → HashMap.get self.places p ≡ some t
          → Joined other.places t r.0.places p)
        × ((c : FunctionCall)
            → contains ⦃e = eq_function_call⦄ r.0.calls c ≡ (
                contains ⦃e = eq_function_call⦄ self.calls c
                || contains ⦃e = eq_function_call⦄ other.calls c))
        × ((ty : Ty)
            → contains ⦃e = tcx.ty_eq⦄ r.0.unhandled ty ≡ (
                contains ⦃e = tcx.ty_eq⦄ self.unhandled ty
                || contains ⦃e = tcx.ty_eq⦄ other.unhandled ty))
  unfolding join_domain
  join_domain_exact self other r h =
      let (q, e, h') = >>=-split (join_places self.places other.places) _ h in
      let same = sym (ok_injective h') in
      (
        λ p t g. rw same (join_places_exact self.places other.places p t q e g),
        λ c. rw same (contains-extend ⦃e = eq_function_call⦄ self.calls other.calls c),
        λ ty. rw same (contains-extend ⦃e = tcx.ty_eq⦄ self.unhandled other.unhandled ty),
      )

  -- Every place of the second map is tracked by the first.
  abbrev pub tracks : Places → Places → Bool
  tracks self other = all (λ kv. is_some (HashMap.get self kv.0)) other

  tracks-after_entry :
      (self : Places) (k : NormalizedPlace) (old v : TrackedTy) (other : Places)
      → tracks (after_entry self k old v) other ≡ tracks self other
  unfolding after_entry
  tracks-after_entry self k old v [] = refl
  tracks-after_entry self k old v ((p, u) ∷ other) =
      ground
        (arith, tracks-after_entry self k old v other, get-modify self k p (λ _. (join old v).0))

  join_places_panics :
      (self other : Places) → tracks self other ≡ false → join_places self other ≡ panic
  unfolding join_places after_entry
  join_places_panics self [] h = absurd (cc)
  join_places_panics self ((k, v) ∷ other) h = elim (Option-cases (HashMap.get self k)) [
    | inl e ↦ rw e refl
    | inr (old, e) ↦
        let rest : join_places (after_entry self k old v) other ≡ panic =
          join_places_panics (after_entry self k old v) other
            (ground (arith, tracks-after_entry self k old v other)) in
        rw e (rw rest refl)
  ]

  join_places_returns :
      (self other : Places)
      → tracks self other ≡ true
      → (r : Places × Bool) × (join_places self other ≡ ok r)
  unfolding join_places after_entry
  join_places_returns self [] h = (_, refl)
  join_places_returns self ((k, v) ∷ other) h = elim (Option-cases (HashMap.get self k)) [
    | inl e ↦ absurd (ground arith)
    | inr (old, e) ↦
        let (q, rest) =
          join_places_returns (after_entry self k old v) other
            (ground (arith, tracks-after_entry self k old v other)) in
        >>=-returns _ _ old (ap expect e) (>>=-returns _ _ q rest (_, refl))
  ]

  -- `CollectorDomain::join` returns when every place of the other state is tracked by this one, and
  -- otherwise panics.
  pub join_domain_returns :
      (self other : CollectorDomain)
      → (tracks self.places other.places ≡ true
          → (r : CollectorDomain × Bool) × (join_domain self other ≡ ok r))
        × (tracks self.places other.places ≡ false → join_domain self other ≡ panic)
  unfolding join_domain
  join_domain_returns self other = (
    λ h.
        (let (q, e) = join_places_returns self.places other.places h in
          >>=-returns _ _ q e (_, refl)),
    λ h. rw (join_places_panics self.places other.places h) refl,
  )
