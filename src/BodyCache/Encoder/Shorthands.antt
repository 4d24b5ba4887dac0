-- ===== src/BodyCache/Encoder/Shorthands.antt =====
-- scrutils/src/body_cache/encoder.rs: the cache of types that stand at an earlier position.
use scrutinizer.Prelude.{
  ◌≡◌, ◌∙◌, arith, ℕ, some, Outcome, ok, >>=-split, Option-cases, inl, inr, ok_injective, subst,
}
use scrutinizer.Prelude.Eq.{nat_eq}
use scrutinizer.Prelude.HashMap
use scrutinizer.Rustc.Names.{Names}
use scrutinizer.Rustc.Serialize.{Serialization}
use scrutinizer.BodyCache.Encoder.{ParalegalDecoder, cached_ty_for_shorthand, with_position}

module _ {n : Names} {ser : Serialization n} where
  with_position-restores :
      {A : Type 0} (pos : ℕ) (f : ParalegalDecoder ser → Outcome (A × ParalegalDecoder ser))
      (d d' : ParalegalDecoder ser) (r : A)
      → with_position ser pos f d ≡ ok (r, d')
      → d'.mem_decoder ≡ d.mem_decoder
  unfolding with_position
  with_position-restores pos f d d' r h =
      let (x, _, e) =
        >>=-split (f (record d { mem_decoder = ser.mem_decoder (ser.data_of d.mem_decoder) pos })) _
          h in
      ground (arith, ok_injective e)

  remembered :
      (shorthand : ℕ) (g : ParalegalDecoder ser → Outcome (n.Ty × ParalegalDecoder ser)) (ty : n.Ty)
      (d : ParalegalDecoder ser)
      → let map = HashMap.upsert ⦃e = nat_eq⦄ d.shorthand_map shorthand (λ _. ty) ty in
        let d' : ParalegalDecoder ser = record d { shorthand_map = map } in
        cached_ty_for_shorthand ser shorthand g d' ≡ ok (ty, d')
  unfolding cached_ty_for_shorthand
  remembered shorthand g ty d = rw (stored, cached_ty_for_shorthand)
    where
      stored :
          HashMap.get ⦃e = nat_eq⦄
            (HashMap.upsert ⦃e = nat_eq⦄ d.shorthand_map shorthand (λ _. ty) ty)
            shorthand
          ≡ some ty
      stored =
          HashMap.get-insert ⦃e = nat_eq⦄ d.shorthand_map shorthand shorthand ty
          ∙ rw (nat_eq.beq_refl shorthand)

  -- The type of a shorthand, resolved at its position, leaves the decoder where it was, and is the
  -- answer for that shorthand from then on, whatever the next caller would decode.
  pub cached_ty_for_shorthand-with_position :
      (shorthand : ℕ) (f g : ParalegalDecoder ser → Outcome (n.Ty × ParalegalDecoder ser))
      (d d' : ParalegalDecoder ser) (ty : n.Ty)
      → cached_ty_for_shorthand ser shorthand (with_position ser shorthand f) d ≡ ok (ty, d')
      → (d'.mem_decoder ≡ d.mem_decoder)
        × (cached_ty_for_shorthand ser shorthand g d' ≡ ok (ty, d'))
  unfolding cached_ty_for_shorthand
  cached_ty_for_shorthand-with_position shorthand f g d d' ty h =
      elim (Option-cases (HashMap.get ⦃e = nat_eq⦄ d.shorthand_map shorthand)) [
        | inl e ↦
            (let (x, resolved, e') =
                >>=-split (with_position ser shorthand f d) _
                  (rw (e, cached_ty_for_shorthand) at h) in
              let back = with_position-restores shorthand f d x.1 x.0 resolved in
              subst
                (λ (p : n.Ty × ParalegalDecoder ser).
                  (p.1.mem_decoder ≡ d.mem_decoder)
                  × (cached_ty_for_shorthand ser shorthand g p.1 ≡ ok p))
                (ok_injective e') (back, remembered shorthand g x.0 x.1))
        | inr (known, e) ↦ ground (arith, e, h)
      ]
