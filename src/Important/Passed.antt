-- ===== src/Important/Passed.antt =====
-- scrutils/src/important/important.rs: what a call passes on to its callee.
use scrutinizer.Prelude.{
  ℕ, zero, suc, ◌+◌, ◌≤◌, ◌≡◌, refl, arith, Bool, false, List, [], ◌∷◌, none, some, and_then,
  filter_map, enumerate_from, get_elem?, ok, if◌then◌else◌, Option, ◌&&◌, ◌||◌, nat_eqb, Bool-cases,
  inl, inr,
}
use scrutinizer.Prelude.Eq.{nat_eq}
use scrutinizer.Prelude.HashSet.{contains, contains-nil}
use scrutinizer.Rustc.Queries.{Tcx, Operand, operand_place, as_local}
use scrutinizer.Flowistry.{Flowistry}
use scrutinizer.Important.Compute.{ImportantLocals}
use scrutinizer.Important.Transition.{important_arg, important_args_to_callee}

module _ ⦃tcx : Tcx⦄ ⦃flow : Flowistry⦄ (self : ImportantLocals) where
  -- The operand is a local with nothing projected from it, and that local is important.
  abbrev pub is_important : Operand → Bool
  is_important operand = elim (and_then (operand_place operand) as_local) [
    | none ↦ false
    | some local ↦ contains self.locals local
  ]

  abbrev pub passes : List Operand → ℕ → Bool
  passes args j = elim (get_elem? args j) [ none ↦ false | some a ↦ is_important a ]

  -- The answers for the arguments from number `k` on.
  abbrev answers : ℕ → List Operand → List ℕ
  answers k args = filter_map (important_arg self) (enumerate_from k args)

  important_arg_lem :
      (k : ℕ) (a : Operand)
      → important_arg self (k, a) ≡ (if is_important a then some (k + 1) else none)
  unfolding important_arg
  important_arg_lem k a = go (and_then (operand_place a) as_local)
    where
      go :
          (local : Option ℕ)
          → and_then local (λ l. if contains self.locals l then some (k + 1) else none) ≡ (
              if elim local [ none ↦ false | some l ↦ contains self.locals l ]
              then some (k + 1)
              else none)
      go none = refl
      go (some l) = refl

  contains_first :
      (k i : ℕ) (a : Operand) (args : List Operand)
      → contains (answers k (a ∷ args)) i
        ≡ ((is_important a && nat_eqb (k + 1) i) || contains (answers (suc k) args) i)
  unfolding contains
  contains_first k i a args = elim (Bool-cases (is_important a)) [
    | inl e ↦ rw (important_arg_lem k a, e) refl
    | inr e ↦ rw (important_arg_lem k a, e) refl
  ]

  answers_above : (k i : ℕ) (args : List Operand) → i ≤ k → contains (answers k args) i ≡ false
  answers_above k i [] le = contains-nil i
  answers_above k i (a ∷ args) le =
      ground (arith, contains_first k i a args, answers_above (suc k) i args)

  contains-answers :
      (k i j : ℕ) (args : List Operand)
      → i ≡ k + j + 1
      → contains (answers k args) i ≡ passes args j
  contains-answers k i j [] e = contains-nil i
  contains-answers k i zero (a ∷ args) e =
      ground (arith, contains_first k i a args, answers_above (suc k) i args)
  contains-answers k i (suc j) (a ∷ args) e =
      ground (arith, contains_first k i a args, contains-answers (suc k) i j args)

  -- For a callee that is no closure, its local `j + 1` is important exactly if argument `j` of the
  -- call is an important local with nothing projected from it, and local 0 is not important.
  pub important_args_to_callee_lem :
      (args : List Operand) (callee : tcx.DefId)
      → tcx.is_closure callee ≡ false
      → (out : List ℕ) × (important_args_to_callee self args callee ≡ ok out)
        × ((j : ℕ) → contains out (j + 1) ≡ passes args j)
        × (contains out 0 ≡ false)
  unfolding important_args_to_callee
  important_args_to_callee_lem args callee h = (
    answers 0 args,
    rw h refl,
    λ j. contains-answers 0 (j + 1) j args (omega arith),
    answers_above 0 0 args (omega arith),
  )
