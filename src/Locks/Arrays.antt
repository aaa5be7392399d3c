-- ===== src/Locks/Arrays.antt =====
-- The arrays of `vset_should_add`: filled up to their bounds, and sorted up to another.
use alpaca_vrr.Base.{
  ℕ, zero, suc, ◌≤◌, ◌<◌, ◌≡◌, refl, ap, inl, inr, ◌⊎◌, List, [], ◌∷◌, length, drop, take_all, done,
  oops, out_of_bounds, arith, le→leb,
}
use alpaca_vrr.Vset.{Cell, Sign, cmp_diff, fill_array}
use alpaca_vrr.Locks.{sort_cells}
use mathlib.Core.List.{append-nil}

pub fill_array-cases :
    (junk : ℕ → ℕ) (n : ℕ) (xs : List ℕ)
    → ((cells : List ℕ) × (fill_array junk n xs ≡ done cells) × (length cells ≡ n))
      ⊎ (fill_array junk n xs ≡ oops out_of_bounds)
unfolding fill_array
fill_array-cases junk zero [] = inl ([], refl, refl)
fill_array-cases junk zero (x ∷ xs) = inr refl
fill_array-cases junk (suc n) [] = elim (fill_array-cases junk n []) [
  | inl (cells, e, k) ↦ inl (junk n ∷ cells, rw e, omega (arith, k))
  | inr e ↦ inr (rw e)
]
fill_array-cases junk (suc n) (x ∷ xs) = elim (fill_array-cases junk n xs) [
  | inl (cells, e, k) ↦ inl (x ∷ cells, rw e, omega (arith, k))
  | inr e ↦ inr (rw e)
]

drop_all : (n : ℕ) (xs : List ℕ) → length xs ≤ n → drop n xs ≡ []
drop_all zero [] h = refl
drop_all zero (x ∷ xs) h = absurd (omega arith)
drop_all (suc n) [] h = refl
drop_all (suc n) (x ∷ xs) h = drop_all n xs (omega arith)

module _ (sort : (Cell → Cell → Sign) → List ℕ → List ℕ) (junk : ℕ → ℕ) where
  pub sort_cells_all :
      (n : ℕ) (cells : List ℕ)
      → length cells ≡ n
      → sort_cells sort junk n cells ≡ done (sort cmp_diff cells)
  unfolding sort_cells
  sort_cells_all n cells h =
      rw
        (
          le→leb n (length cells) (omega (arith, h)),
          take_all n cells (omega (arith, h)),
          drop_all n cells (omega (arith, h)),
        )
        (ap done (append-nil (sort cmp_diff cells)))

  pub sort_cells_past :
      (n : ℕ) (cells : List ℕ)
      → length cells < n
      → sort_cells sort junk n cells ≡ oops out_of_bounds
  unfolding sort_cells
  sort_cells_past n cells h = ground arith
