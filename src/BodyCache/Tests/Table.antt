-- ===== src/BodyCache/Tests/Table.antt =====
-- The cache of bodies as a table.
use scrutinizer.Prelude.{
  ◌≡◌, refl, sym, ap, ℕ, List, [], ◌∷◌, Option, none, some, Outcome, ok, ◌>>=◌, nat_eqb, inl, inr,
  Bool-cases, some_injective, if◌then◌else◌, ◌⊎◌, nat_eqb_iff,
}
use scrutinizer.Prelude.Eq.{nat_eq, string_eq}
use scrutinizer.Rustc.Queries.{Artifact}
use scrutinizer.Sample.{sample, names}
use scrutinizer.BodyCache.{load_body_and_facts}
use scrutinizer.BodyCache.Cache.{
  Cache, IsCache, IsCoherent, new, get, new-IsCoherent, get-IsCoherent,
}

-- A table that holds at most what it was given.
abbrev entry : List (ℕ × Artifact names) → ℕ → Option (Artifact names)
entry [] k = none
entry ((j, v) ∷ s) k = if nat_eqb j k then some v else entry s k

abbrev get_entry :
    List (ℕ × Artifact names)
    → ℕ
    → (ℕ → Outcome (Artifact names))
    → Option (Artifact names)
    → Outcome (Artifact names × List (ℕ × Artifact names))
get_entry s k f (some v) = ok (v, s)
get_entry s k f none = f k >>= λ v. ok (v, (k, v) ∷ s)

abbrev table : Cache ℕ (Artifact names)
table = record {
  State = List (ℕ × Artifact names);
  empty = [];
  held = entry;
  get = λ s k f. get_entry s k f (entry s k);
}

entry_cases :
    (s : List (ℕ × Artifact names)) (k j : ℕ) (v w : Artifact names)
    → entry ((k, v) ∷ s) j ≡ some w
    → ((j ≡ k) × (w ≡ v)) ⊎ (entry s j ≡ some w)
entry_cases s k j v w h = elim (Bool-cases (nat_eqb k j)) [
  | inl e ↦ inl (sym ((nat_eqb_iff k j).0 e), sym (some_injective (rw e at h)))
  | inr e ↦ inr (rw e at h)
]

table-IsCache : IsCache table
table-IsCache = record {
  held_empty = λ k. refl;
  get_held = λ s k f v h. ap (get_entry s k f) h;
  get_new = λ s k f h. (
    λ v. (k, v) ∷ s,
    ap (get_entry s k f) h,
    λ v. ap (λ b. if b then some v else entry s k) (nat_eq.beq_refl k),
    λ v j w. entry_cases s k j v w,
  );
}

abbrev loaded_body : Artifact names
loaded_body = record { body = 4; subset_base = 0 }

get-IsCoherent_example :
    (load_body_and_facts 4 ≡ ok loaded_body)
    × IsCoherent table ((4, loaded_body) ∷ [])
    × (get table ((4, loaded_body) ∷ []) 4 ≡ ok (loaded_body, (4, loaded_body) ∷ []))
unfolding get load_body_and_facts new
get-IsCoherent_example =
    get-IsCoherent table table-IsCache [] ((4, loaded_body) ∷ []) 4 loaded_body
      (new-IsCoherent table table-IsCache) refl
