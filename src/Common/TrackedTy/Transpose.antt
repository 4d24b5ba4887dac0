-- ===== src/Common/TrackedTy/Transpose.antt =====
-- `transpose` of tracked_ty.rs: the columns of a table whose rows are at least as long as the first.
use scrutinizer.Prelude.{
  ℕ, zero, suc, ◌≤◌, ◌<◌, ◌≡◌, refl, List, [], ◌∷◌, Option, some, ok, arith, length, get_elem?, All,
  and_then, ◌>>=◌, >>=-split,
}
use mathlib.Core.Option
use scrutinizer.Common.TrackedTy.{transpose, columns_of, next_all}

module _ {ℓ} {T : Type ℓ} where
  -- The elements at index `j` of all rows, if every row has one.
  abbrev pub column : ℕ → List (List T) → Option (List T)
  column j [] = some []
  column j (r ∷ rows) = and_then (get_elem? r j) (λ x. Option.map (λ xs. x ∷ xs) (column j rows))

  next_all_columns :
      (rows : List (List T)) (hs : List T) (ts : List (List T))
      → next_all rows ≡ ok (hs, ts)
      → (column 0 rows ≡ some hs) × ((j : ℕ) → column (suc j) rows ≡ column j ts)
  unfolding next_all
  next_all_columns [] hs ts h = (ground arith, λ j. ground arith)
  next_all_columns ([] ∷ rows) hs ts h = cc
  next_all_columns ((x ∷ xs) ∷ rows) hs ts h =
      let ((hs', ts'), e, h') = >>=-split (next_all rows) (λ p. ok (x ∷ p.0, xs ∷ p.1)) h in
      let ih = next_all_columns rows hs' ts' e in
      (ground (arith, ih.0), λ j. ground (arith, ih.1 j))

  at_column :
      (n : ℕ) (rows : List (List T)) (hs : List T) (ts rest cols : List (List T))
      → column 0 rows ≡ some hs
      → ((j : ℕ) → column (suc j) rows ≡ column j ts)
      → ((j : ℕ) → j < n → get_elem? rest j ≡ column j ts)
      → ok (hs ∷ rest) ≡ ok cols
      → (j : ℕ) → j < suc n
      → get_elem? cols j ≡ column j rows
  at_column n rows hs ts rest cols first later ih e zero p = ground arith
  at_column n rows hs ts rest cols first later ih e (suc j) p = ground (arith, later j, ih j)

  columns_of-column :
      (n : ℕ) (rows : List (List T)) (cols : List (List T))
      → columns_of n rows ≡ ok cols
      → (length cols ≡ n) × ((j : ℕ) → j < n → get_elem? cols j ≡ column j rows)
  unfolding columns_of
  columns_of-column zero rows cols h = (ground arith, λ j p. absurd (omega arith))
  columns_of-column (suc n) rows cols h =
      let ((hs, ts), e, h') =
        >>=-split (next_all rows) (λ p. columns_of n p.1 >>= λ rest. ok (p.0 ∷ rest)) h in
      let (rest, e', h'') = >>=-split (columns_of n ts) (λ rest. ok (hs ∷ rest)) h' in
      let (first, later) = next_all_columns rows hs ts e in
      let (len, ih) = columns_of-column n ts rest e' in
      (ground (arith, len), at_column n rows hs ts rest cols first later ih h'')

  -- Where `transpose` returns, it returns the columns: as many as the first row has elements.
  transpose_columns :
      (v : List T) (rows cols : List (List T))
      → transpose (v ∷ rows) ≡ ok cols
      → (length cols ≡ length v) × ((j : ℕ) → j < length v → get_elem? cols j ≡ column j (v ∷ rows))
  unfolding transpose
  transpose_columns v rows cols h = columns_of-column (length v) (v ∷ rows) cols h

  next_all_returns :
      (n : ℕ) (rows : List (List T))
      → All (λ r. suc n ≤ length r) rows
      → (hs : List T) × (ts : List (List T)) × (next_all rows ≡ ok (hs, ts))
        × All (λ r. n ≤ length r) ts
  unfolding next_all
  next_all_returns n [] h = ([], [], refl, tt)
  next_all_returns n ([] ∷ rows) h = absurd (omega arith)
  next_all_returns n ((x ∷ xs) ∷ rows) h =
      let (hs, ts, e, k) = next_all_returns n rows h.1 in (x ∷ hs, xs ∷ ts, rw e, (omega arith, k))

  columns_of_returns :
      (n : ℕ) (rows : List (List T))
      → All (λ r. n ≤ length r) rows
      → (cols : List (List T)) × (columns_of n rows ≡ ok cols)
  unfolding columns_of
  columns_of_returns zero rows h = ([], refl)
  columns_of_returns (suc n) rows h =
      let (hs, ts, e, k) = next_all_returns n rows h in
      let (cols, e') = columns_of_returns n ts k in (hs ∷ cols, rw e (rw e'))

  -- Whenever no row is shorter than the first, it returns the columns: as many as the first row has
  -- elements.
  pub transpose_returns :
      (v : List T) (rows : List (List T))
      → All (λ r. length v ≤ length r) rows
      → (cols : List (List T)) × (transpose (v ∷ rows) ≡ ok cols)
        × (length cols ≡ length v)
        × ((j : ℕ) → j < length v → get_elem? cols j ≡ column j (v ∷ rows))
  unfolding transpose
  transpose_returns v rows h =
      let (cols, e) = columns_of_returns (length v) (v ∷ rows) (omega arith, h) in
      let (same, each_column) = transpose_columns v rows cols e in (cols, e, same, each_column)
