-- ===== src/SampleEngine.antt =====
-- A dataflow engine for the tests: one pass over the blocks, in order, without joins between them.
use scrutinizer.Prelude.{
  ◌≡◌, refl, List, [], ◌∷◌, Outcome, ok, ◌>>=◌, each, All, map, flat_map, subst, ok_injective,
  >>=-split, inr,
}
use scrutinizer.Rustc.Mir.{StatementKind, TerminatorKind, BasicBlock}
use scrutinizer.Collector.HasTrackedTy.{Itertools}
use scrutinizer.Collector.Collect.{Dataflow}
use scrutinizer.Collector.Closed.Collected.{IsSound}
use scrutinizer.Prelude.Fuel.{IsBelow, >>=-IsBelow}
use scrutinizer.Collector.Fuel.{IsSequential}
use scrutinizer.Sample.{sample, blocks_of, names}

module _ {S D : Type 0} (statement : StatementKind names → S × D → Outcome (S × D))
    (terminator : TerminatorKind names → S × D → Outcome (S × D)) where
  abbrev pub pass_block : S × D → BasicBlock names → Outcome (S × D)
  pass_block x b = do y ← each (λ z k. statement k z) x b.statements; terminator b.terminator y

  abbrev pub pass_blocks : S × D → List (BasicBlock names) → Outcome (S × List D)
  pass_blocks x [] = ok (x.0, [])
  pass_blocks x (b ∷ blocks) = do
    y ← pass_block x b
    rest ← pass_blocks y blocks
    ok (rest.0, y.1 ∷ rest.1)

  module _ (Good : S → Type 0) (Fits : S → D → Type 0) (Next : S → S → Type 0)
      (next_refl : (a : S) → Next a a) (next_trans : (a b c : S) → Next a b → Next b c → Next a c)
      (fits_later : (a b : S) (d : D) → Next a b → Fits a d → Fits b d)
      (keeps_statement : (k : StatementKind names) (x y : S × D)
        → Good x.0 × Fits x.0 x.1
        → statement k x ≡ ok y
        → (Good y.0 × Fits y.0 y.1) × Next x.0 y.0)
      (keeps_terminator : (k : TerminatorKind names) (x y : S × D)
        → Good x.0 × Fits x.0 x.1
        → terminator k x ≡ ok y
        → (Good y.0 × Fits y.0 y.1) × Next x.0 y.0) where
    abbrev Kept : S × D → S × D → Type 0
    Kept x y = (Good y.0 × Fits y.0 y.1) × Next x.0 y.0

    each-Kept :
        (x y : S × D) (ks : List (StatementKind names))
        → Good x.0 × Fits x.0 x.1
        → each (λ z k. statement k z) x ks ≡ ok y
        → Kept x y
    each-Kept x y [] v e = subst (Kept x) (ok_injective e) (v, next_refl x.0)
    each-Kept x y (k ∷ ks) v e =
        let (z, e1, e2) = >>=-split (statement k x) _ e in
        let (w, n) = keeps_statement k x z v e1 in
        let (w', n') = each-Kept z y ks w e2 in (w', next_trans x.0 z.0 y.0 n n')

    pub blocks-Kept :
        (x : S × D) (r : S × List D) (blocks : List (BasicBlock names))
        → Good x.0 × Fits x.0 x.1
        → pass_blocks x blocks ≡ ok r
        → Good r.0 × Next x.0 r.0 × All (Fits r.0) r.1
    blocks-Kept x r [] v e =
        subst (λ q. Good q.0 × Next x.0 q.0 × All (Fits q.0) q.1) (ok_injective e)
          (v.0, next_refl x.0, tt)
    blocks-Kept x r (b ∷ blocks) v e =
        let (y, e1, e2) = >>=-split (pass_block x b) _ e in
        let (z, e3, e4) = >>=-split (each _ x b.statements) _ e1 in
        let (w, n) = each-Kept x z b.statements v e3 in
        let (w', n') = keeps_terminator b.terminator z y w e4 in
        let (q, e5, e6) = >>=-split (pass_blocks y blocks) _ e2 in
        let (g, n'', fits) = blocks-Kept y q blocks w' e5 in
        subst (λ p. Good p.0 × Next x.0 p.0 × All (Fits p.0) p.1) (ok_injective e6)
          (
            g,
            next_trans x.0 z.0 q.0 n (next_trans z.0 y.0 q.0 n' n''),
            (fits_later y.0 q.0 y.1 n'' w'.1, fits),
          )

instance abbrev pub engine : Dataflow
engine = record {
  block_ends = λ bottom join statement terminator body s. (do
    x ← bottom s
    pass_blocks statement terminator x (blocks_of body));
}

abbrev pub product : {A : Type 0} → List (List A) → List (List A)
product [] = [] ∷ []
product (xs ∷ lists) = let rest = product lists in flat_map (λ x. map (λ ys. x ∷ ys) rest) xs

instance abbrev pub products : Itertools
products = record { multi_cartesian_product = λ lists. product lists }

pub engine_IsSound : IsSound
engine_IsSound S D Good Fits Next bottom join statement terminator body s r next_refl next_trans
      fits_later keeps_bottom keeps_join keeps_statement keeps_terminator good e =
    let (x, e1, e2) = >>=-split (bottom s) _ e in
    let (v, n) = keeps_bottom s x good e1 in
    let (g, n', fits) =
      blocks-Kept statement terminator Good Fits Next next_refl next_trans fits_later
        keeps_statement keeps_terminator x r (blocks_of body) v e2 in
    (g, next_trans s x.0 r.0 n n', fits)

pass-IsBelow :
    {S D : Type 0} (statement : StatementKind names → S × D → Outcome (S × D))
    (terminator terminator' : TerminatorKind names → S × D → Outcome (S × D))
    (blocks : List (BasicBlock names)) (x : S × D)
    → ((t : TerminatorKind names) (y : S × D) → IsBelow (terminator t y) (terminator' t y))
    → IsBelow
        (pass_blocks statement terminator x blocks)
        (pass_blocks statement terminator' x blocks)
pass-IsBelow statement terminator terminator' [] x below = inr refl
pass-IsBelow statement terminator terminator' (b ∷ blocks) x below =
    >>=-IsBelow _ _ _ _
      (>>=-IsBelow (each (λ z k. statement k z) x b.statements) _ _ _ (inr refl)
        (λ y. below b.terminator y))
      (λ y.
        >>=-IsBelow _ _ _ _ (pass-IsBelow statement terminator terminator' blocks y below)
          (λ rest. inr refl))

pub engine_IsSequential : IsSequential
engine_IsSequential S D bottom join statement terminator terminator' body s below =
    >>=-IsBelow (bottom s) (bottom s) _ _ (inr refl)
      (λ x. pass-IsBelow statement terminator terminator' (blocks_of body) x below)
