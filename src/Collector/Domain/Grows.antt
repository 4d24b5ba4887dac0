-- ===== src/Collector/Domain/Grows.antt =====
-- scrutils/src/collector/collector_domain.rs: a join that reports an update makes the state larger.
use scrutinizer.Prelude.{
  ℕ, ◌+◌, ◌≤◌, ◌<◌, ◌≡◌, refl, ap, sym, arith, Bool, true, false, ◌↔◌, [], ◌∷◌, some, ok, length,
  if◌then◌else◌, >>=-split, ok_injective,
}
use scrutinizer.Prelude.HashSet.{length-extend, extend_unchanged}
use scrutinizer.Prelude.HashMap
use scrutinizer.Prelude.HashMap.{HashMap}
use scrutinizer.Rustc.Queries.{Tcx}
use scrutinizer.Common.TrackedTy.{TrackedTy, join}
use scrutinizer.Common.TrackedTy.Join.{deps_of, join_flag, length-join}
use scrutinizer.Common.NormalizedPlace.{NormalizedPlace, eq_normalized_place}
use scrutinizer.Common.Function.{eq_function_call}
use scrutinizer.Collector.Domain.{CollectorDomain, join_places, join_domain}
use scrutinizer.Collector.Domain.Join.{Places, after_entry, first_entry}

module _ ⦃tcx : Tcx⦄ where
  -- How much is known: the plausible types of all erased places.
  abbrev size_of_places : Places → ℕ
  size_of_places [] = 0
  size_of_places ((k, v) ∷ m) = length (deps_of v) + size_of_places m

  -- And the calls and the unhandled types.
  abbrev pub size_of : CollectorDomain → ℕ
  size_of d = size_of_places d.places + (length d.calls + length d.unhandled)

  size-after_entry :
      (m : Places) (k : NormalizedPlace) (old v : TrackedTy)
      → HashMap.get m k ≡ some old
      → size_of_places (after_entry m k old v) + length (deps_of old)
        ≡ size_of_places m + length (deps_of (join old v).0)
  unfolding after_entry HashMap.get HashMap.modify
  size-after_entry [] k old v e = absurd (cc)
  size-after_entry ((j, u) ∷ m) k old v e = ground (arith, size-after_entry m k old v)

  after_entry_same :
      (m : Places) (k : NormalizedPlace) (old v : TrackedTy)
      → HashMap.get m k ≡ some old
      → (join old v).0 ≡ old
      → after_entry m k old v ≡ m
  unfolding after_entry HashMap.get HashMap.modify
  after_entry_same [] k old v e same = refl
  after_entry_same ((j, u) ∷ m) k old v e same = ground (arith, after_entry_same m k old v)

  size-join_places :
      (self other : Places) (r : Places × Bool)
      → join_places self other ≡ ok r
      → size_of_places self + (if r.1 then 1 else 0) ≤ size_of_places r.0
  size-join_places self [] r h = unfold join_places in ground (arith, ok_injective h)
  size-join_places self ((k, v) ∷ other) r h =
      let (old, e, q, h1, same) = first_entry self k v other r h in
      ground (
        arith,
        size-join_places (after_entry self k old v) other q h1,
        size-after_entry self k old v e,
        length-join old v,
      )

  join_places_unchanged :
      (self other : Places) (r : Places × Bool)
      → join_places self other ≡ ok r
      → r.1 ≡ false
      → r.0 ≡ self
  join_places_unchanged self [] r h f = unfold join_places in ground (arith, ok_injective h)
  join_places_unchanged self ((k, v) ∷ other) r h f =
      let (old, e, q, h1, same) = first_entry self k v other r h in
      ground (
        arith,
        join_places_unchanged (after_entry self k old v) other q h1,
        after_entry_same self k old v e,
        (join_flag old v).0,
      )

  size_when_updated :
      (self other : CollectorDomain) (r : CollectorDomain × Bool)
      → join_domain self other ≡ ok r
      → size_of self + (if r.1 then 1 else 0) ≤ size_of r.0
  unfolding join_domain
  size_when_updated self other r h =
      let (q, e, h') = >>=-split (join_places self.places other.places) _ h in
      rw (sym (ok_injective h')) (
        ground (
          arith,
          size-join_places self.places other.places q e,
          length-extend ⦃e = eq_function_call⦄ self.calls other.calls,
          length-extend ⦃e = tcx.ty_eq⦄ self.unhandled other.unhandled,
        ))

  same_when_not_updated :
      (self other : CollectorDomain) (r : CollectorDomain × Bool)
      → join_domain self other ≡ ok r
      → r.1 ≡ false
      → r.0 ≡ self
  unfolding join_domain
  same_when_not_updated self other r h f =
      let (q, e, h') = >>=-split (join_places self.places other.places) _ h in
      let same = ok_injective h' in
      let flag = ap (λ x. x.1) same in
      let places = join_places_unchanged self.places other.places q e (ground arith) in
      let calls = extend_unchanged ⦃e = eq_function_call⦄ self.calls other.calls (ground arith) in
      let unhandled =
        extend_unchanged ⦃e = tcx.ty_eq⦄ self.unhandled other.unhandled (ground arith) in
      rw (sym same, places, calls, unhandled) refl

  -- When `CollectorDomain::join` returns, its flag is `false` exactly if the state is as before, and
  -- if it is `true` the state is larger: the plausible types, calls and unhandled types are more.
  pub join_domain_flag :
      (self other : CollectorDomain) (r : CollectorDomain × Bool)
      → join_domain self other ≡ ok r
      → ((r.1 ≡ false) ↔ (r.0 ≡ self)) × (r.1 ≡ true → size_of self < size_of r.0)
  join_domain_flag self other r h =
      let grown = size_when_updated self other r h in
      (
        (same_when_not_updated self other r h, λ same. ground (arith, ap size_of same)),
        λ updated. ground arith,
      )
