-- ===== src/BodyCache/Cache.antt =====
-- scrutils/src/body_cache/body_cache.rs: `BodyCache`, which keeps what it has loaded. The table is
-- that of the crate rustc_utils, a parameter.
use scrutinizer.Prelude.{
  ◌≡◌, sym, ◌∙◌, ap, subst, Option, none, some, Outcome, ok, ◌>>=◌, >>=-split, unwrap, unwrap_ok,
  Option-cases, inl, inr, ◌⊎◌, ok_injective,
}
use scrutinizer.Rustc.Queries.{Tcx, Artifact}
use scrutinizer.BodyCache.{load_body_and_facts}

-- `rustc_utils::cache::Cache`: `get` answers with the entry of the key, or computes and keeps it.
pub record Cache (K V : Type 0) : Type 1 where
  pub State : Type 0
  pub empty : State
  pub held : State → K → Option V
  pub get : State → K → (K → Outcome V) → Outcome (V × State)

pub record IsCache {K V : Type 0} (cache : Cache K V) : Type 0 where
  pub held_empty : (k : K) → cache.held cache.empty k ≡ none
  pub get_held :
      (s : cache.State) (k : K) (f : K → Outcome V) (v : V)
      → cache.held s k ≡ some v
      → cache.get s k f ≡ ok (v, s)
  pub get_new :
      (s : cache.State) (k : K) (f : K → Outcome V)
      → cache.held s k ≡ none
      → (kept : V → cache.State) × (cache.get s k f ≡ (f k >>= λ v. ok (v, kept v)))
        × ((v : V) → cache.held (kept v) k ≡ some v)
        × ((v : V) (j : K) (w : V)
            → cache.held (kept v) j ≡ some w
            → ((j ≡ k) × (w ≡ v)) ⊎ (cache.held s j ≡ some w))

module _ ⦃tcx : Tcx⦄ (cache : Cache tcx.DefId (Artifact tcx.names)) where
  open tcx use {DefId}

  unfoldable pub new : cache.State
  new = cache.empty

  unfoldable pub get : cache.State → DefId → Outcome (Artifact tcx.names × cache.State)
  get self key = cache.get self key (λ _. unwrap (load_body_and_facts key))

  -- Each body that is kept is the one that is loaded for its key.
  pub record IsCoherent (self : cache.State) : Type 0 where
    pub loaded :
        (key : DefId) (v : Artifact tcx.names)
        → cache.held self key ≡ some v
        → load_body_and_facts key ≡ ok v

  module _ (promise : IsCache cache) where
    pub new-IsCoherent : IsCoherent new
    unfolding new
    new-IsCoherent = record { loaded = λ key v h. absurd (cc (promise.held_empty key)) }

    kept-IsCoherent :
        (self : cache.State) (key : DefId) (v : Artifact tcx.names) (s : cache.State)
        → IsCoherent self
        → load_body_and_facts key ≡ ok v
        → ((j : DefId) (w : Artifact tcx.names)
            → cache.held s j ≡ some w
            → ((j ≡ key) × (w ≡ v)) ⊎ (cache.held self j ≡ some w))
        → IsCoherent s
    kept-IsCoherent self key v s coherent e entries = record {
      loaded = λ j w h. elim (entries j w h) [
        | inl (same, value) ↦
            subst (λ k. load_body_and_facts k ≡ ok w) (sym same) (e ∙ ap ok (sym value))
        | inr old ↦ coherent.loaded j w old
      ];
    }

    -- On a cache that holds what is loaded, `get` returns what `load_body_and_facts` returns for the
    -- key, keeps the cache so, and answers the next call for the key with the same body.
    pub get-IsCoherent :
        (self self' : cache.State) (key : DefId) (v : Artifact tcx.names)
        → IsCoherent self
        → get self key ≡ ok (v, self')
        → (load_body_and_facts key ≡ ok v) × IsCoherent self' × (get self' key ≡ ok (v, self'))
    unfolding get
    get-IsCoherent self self' key v coherent h = elim (Option-cases (cache.held self key)) [
      | inl e ↦
          let (kept, split, holds, entries) =
            promise.get_new self key (λ _. unwrap (load_body_and_facts key)) e in
          let (w, loaded, same) = >>=-split (unwrap (load_body_and_facts key)) _ (sym split ∙ h) in
          let e1 = unwrap_ok (load_body_and_facts key) w loaded in
          subst
            (λ (p : Artifact tcx.names × cache.State).
              (load_body_and_facts key ≡ ok p.0) × IsCoherent p.1 × (get p.1 key ≡ ok p))
            (ok_injective same)
            (
              e1,
              kept-IsCoherent self key w (kept w) coherent e1 (entries w),
              promise.get_held (kept w) key _ w (holds w),
            )
      | inr (w, e) ↦
          let same = ok_injective (sym (promise.get_held self key _ w e) ∙ h) in
          subst
            (λ (p : Artifact tcx.names × cache.State).
              (load_body_and_facts key ≡ ok p.0) × IsCoherent p.1 × (get p.1 key ≡ ok p))
            same (coherent.loaded key w e, coherent, promise.get_held self key _ w e)
    ]
