-- ===== src/Analyzer/Heuristics/Transmutes.antt =====
-- scrutils/src/analyzer/heuristics/transmute.rs: which bodies transmute to a mutable reference.
use scrutinizer.Prelude.{
  ◌≡◌, refl, sym, ap, ◌∙◌, subst, ℕ, zero, suc, Bool, true, false, ◌⊎◌, inl, inr, ◌↔◌, List, [],
  ◌∷◌, some, some_injective, ok, ◌>>=◌, >>=-split, ok_injective, expect, expect-some, each,
  get_elem?, Bool-cases, Option-cases, arith, if◌then◌else◌,
}
use scrutinizer.Rustc.Mir.{BasicBlock, TerminatorKind, call}
use scrutinizer.Rustc.Queries.{Tcx, Operand, Place}
use scrutinizer.Analyzer.Heuristics.{has_transmute, terminator_transmutes, contains_mut_ref}
use scrutinizer.Analyzer.Heuristics.MutRef.{HasMutRef, contains_mut_ref_lem}

module _ ⦃tcx : Tcx⦄ where
  open tcx use {Ty, DefId, GenericArgs}

  -- A call of `transmute` whose target type has a mutable reference inside.
  abbrev pub IsTransmute : TerminatorKind tcx.names → Type 0
  IsTransmute (call func _ _) =
      (def_id : DefId) × (generic_args : GenericArgs) × (target : Ty) × (tcx.const_fn_def func
        ≡ some (def_id, generic_args))
      × (tcx.is_match tcx.transmute_def_path (tcx.debug_def_id def_id) ≡ true)
      × (tcx.second_type generic_args ≡ some target)
      × HasMutRef target
  IsTransmute _ = ⊥

  abbrev pub HasTransmute : List (BasicBlock tcx.names) → Type 0
  HasTransmute blocks =
      (i : ℕ) × (block : BasicBlock tcx.names) × (get_elem? blocks i ≡ some block)
      × IsTransmute block.terminator

  transmute_lem :
      (depth : ℕ) (found r : Bool) (func : Operand) (args : List Operand) (destination : Place)
      (d : DefId) (g : GenericArgs)
      → tcx.const_fn_def func ≡ some (d, g)
      → tcx.is_match tcx.transmute_def_path (tcx.debug_def_id d) ≡ true
      → (do
        target ← expect (tcx.second_type g)
        has_mut_ref ← contains_mut_ref depth target
        ok (if has_mut_ref then true else found))
        ≡ ok r
      → (r ≡ true) ↔ ((found ≡ true) ⊎ IsTransmute (call func args destination))
  transmute_lem depth found r func args destination d g e m h =
      let (target, second, h1) = >>=-split (expect (tcx.second_type g)) _ h in
      let (b, inside, h2) = >>=-split (contains_mut_ref depth target) _ h1 in
      let at = expect-some (tcx.second_type g) target second in
      let (up, down) = contains_mut_ref_lem depth target b inside in
      let same = ok_injective h2 in
      (
        λ yes. elim (Bool-cases b) [
          | inl t ↦ inr (d, g, target, e, m, at, up t)
          | inr f ↦ inl (ground (arith, same, yes, f))
        ],
        λ either. elim either [
          | inl f ↦ ground (arith, same, f)
          | inr (d', g', target', e', m', at', has) ↦
              let g_same = ap (λ p. p.1) (some_injective (sym e ∙ e')) in
              let t_same = some_injective (sym at' ∙ ap tcx.second_type (sym g_same) ∙ at) in
              let yes = down (subst HasMutRef t_same has) in ground (arith, same, yes)
        ],
      )

  terminator_lem :
      (depth : ℕ) (found r : Bool) (t : TerminatorKind tcx.names)
      → terminator_transmutes depth found t ≡ ok r
      → (r ≡ true) ↔ ((found ≡ true) ⊎ IsTransmute t)
  unfolding terminator_transmutes
  terminator_lem depth found r (call func args destination) h =
      elim (Option-cases (tcx.const_fn_def func)) [
        | inl e ↦
            let same = ok_injective (rw (e, terminator_transmutes) at h) in
            (
              λ up. inl (same ∙ up),
              λ t. elim t [
                | inl f ↦ sym same ∙ f
                | inr (d, g, target, e', m', at', has) ↦ absurd (cc (sym e ∙ e'))
              ],
            )
        | inr ((d, g), e) ↦
            elim (Bool-cases (tcx.is_match tcx.transmute_def_path (tcx.debug_def_id d))) [
              | inl m ↦
                  transmute_lem depth found r func args destination d g e m
                    (rw (e, m, terminator_transmutes) at h)
              | inr m ↦
                  let same = ok_injective (rw (e, m, terminator_transmutes) at h) in
                  (
                    λ up. inl (same ∙ up),
                    λ t. elim t [
                      | inl f ↦ sym same ∙ f
                      | inr (d', g', target, e', m', at', has) ↦ absurd (
                          cc (
                            ap (λ p. tcx.is_match tcx.transmute_def_path (tcx.debug_def_id p.0))
                                (some_injective (sym e ∙ e')),
                            m,
                            m',
                          ))
                    ],
                  )
            ]
      ]
  terminator_lem depth found r _ h = (
    λ e. inl (ok_injective h ∙ e),
    λ t. elim t [ inl f ↦ sym (ok_injective h) ∙ f | inr none_ ↦ absurd none_ ],
  )

  -- A transmuting block of the list is its first, or one of the rest.
  in_blocks :
      (depth : ℕ) (found' : Bool) (b : BasicBlock tcx.names) (blocks : List (BasicBlock tcx.names))
      → (IsTransmute b.terminator → found' ≡ true)
      → (i : ℕ) (block : BasicBlock tcx.names) → get_elem? (b ∷ blocks) i ≡ some block
      → IsTransmute block.terminator
      → (found' ≡ true) ⊎ HasTransmute blocks
  in_blocks depth found' b blocks first zero block at t = inl (
      first (
        subst (λ (k : BasicBlock tcx.names). IsTransmute k.terminator) (sym (some_injective at)) t))
  in_blocks depth found' b blocks first (suc i) block at t = inr (i, block, at, t)

  blocks_lem :
      (depth : ℕ) (found r : Bool) (blocks : List (BasicBlock tcx.names))
      → each
          (λ b (k : BasicBlock tcx.names). terminator_transmutes depth b k.terminator)
          found
          blocks
        ≡ ok r
      → (r ≡ true) ↔ ((found ≡ true) ⊎ HasTransmute blocks)
  blocks_lem depth found r [] h = (
    λ e. inl (ok_injective h ∙ e),
    λ t. elim t [ inl f ↦ sym (ok_injective h) ∙ f | inr (i, block, at, _) ↦ absurd (cc at) ],
  )
  blocks_lem depth found r (b ∷ blocks) h =
      let (found', e, rest) = >>=-split (terminator_transmutes depth found b.terminator) _ h in
      let (here, back) = terminator_lem depth found found' b.terminator e in
      let (there, back') = blocks_lem depth found' r blocks rest in
      (
        λ e. elim (there e) [
          | inl f ↦ elim (here f) [ inl f' ↦ inl f' | inr t ↦ inr (0, b, refl, t) ]
          | inr (i, block, at, t) ↦ inr (suc i, block, at, t)
        ],
        λ either. back' (elim either [
          | inl f ↦ inl (back (inl f))
          | inr (i, block, at, t) ↦ in_blocks depth found' b blocks (λ u. back (inr u)) i block at t
        ]),
      )

  -- When `has_transmute` returns, it answers whether some block ends in a call of `transmute` to a
  -- type that has a mutable reference inside.
  pub has_transmute_exact :
      (depth : ℕ) (body : tcx.Body) (r : Bool)
      → has_transmute depth body ≡ ok r
      → (r ≡ true) ↔ HasTransmute (tcx.blocks body)
  unfolding has_transmute
  has_transmute_exact depth body r h =
      let (there, back) = blocks_lem depth false r (tcx.blocks body) h in
      (λ e. elim (there e) [ inl f ↦ absurd (cc f) | inr t ↦ t ], λ t. back (inr t))
