-- ===== src/PriceFeed/Median/Numbers.antt =====
-- `ComputeMedianNumber`.
use inery_persistent_memory.Base.{
  ℕ, zero, suc, ◌+◌, ◌-◌, ◌/◌, ◌%◌, ◌≤◌, ◌<◌, ◌≡◌, refl, sym, ◌∙◌, false, List, [], ◌∷◌, ltb, ◌==◌,
  if◌then◌else◌, arith, Bool-cases, inl, inr, u32_mod, u64_mod,
}
use mathlib.Core.List.{Perm, Permᴰ}
use mathlib.Core.Logic.{∥∥₁_elim}
use inery_persistent_memory.DbIterator.Delivery.{length}
use inery_persistent_memory.PriceFeed.Median.{insert_sorted, sort, nth, compute_median_number}
use inery_persistent_memory.PriceFeed.Median.Sort.{
  Within, sort-Within, length-sort, nth-Within, sort-reordered, length-reordered,
}

-- the median from the number and the sorted list of the numbers
median_of_sorted : ℕ → List ℕ → ℕ
median_of_sorted zero s = 0
median_of_sorted (suc zero) s = nth 0 s
median_of_sorted (suc (suc n)) s =
    if suc (suc n) % 2 == 0
    then ((nth (suc (suc n) / 2 - 1) s + nth (suc (suc n) / 2) s) % u64_mod) / 2
    else nth (suc (suc n) / 2) s

median-sort :
    (l : List ℕ)
    → length l < u32_mod
    → compute_median_number l ≡ median_of_sorted (length l) (sort l)
unfolding compute_median_number median_of_sorted sort insert_sorted
median-sort [] b = refl
median-sort (x ∷ []) b = refl
median-sort (x ∷ y ∷ l) b =
    let size : suc (suc (length l)) % u32_mod ≡ suc (suc (length l)) = omega arith in
    let two : ltb (suc (suc (length l))) 2 ≡ false = ground arith in rw size (rw two refl)

-- Of at least one and fewer than 2 ^ 32 numbers within bounds below 2 ^ 63 the median is within the
-- bounds.
pub median-Within :
    (lo hi x : ℕ) (l : List ℕ)
    → Within lo hi (x ∷ l)
    → hi < 9223372036854775808
    → length (x ∷ l) < u32_mod
    → (lo ≤ compute_median_number (x ∷ l)) × (compute_median_number (x ∷ l) ≤ hi)
unfolding median_of_sorted compute_median_number nth
median-Within lo hi x [] w h b = (w.0, w.1)
median-Within lo hi x (y ∷ l) w h b =
    let n = length l in
    let s = sort (x ∷ y ∷ l) in
    let inside = sort-Within lo hi (x ∷ y ∷ l) w in
    let size = length-sort (x ∷ y ∷ l) in
    let upper = nth-Within lo hi (suc (suc n) / 2) s inside (omega arith) in
    let lower = nth-Within lo hi (suc (suc n) / 2 - 1) s inside (omega arith) in
    rw (median-sort (x ∷ y ∷ l) b, median_of_sorted)
      (elim (Bool-cases (suc (suc n) % 2 == 0)) [
        | inl e ↦ rw e (omega arith, omega arith)
        | inr e ↦ rw e upper
      ])

reordered :
    {l r : List ℕ}
    → length l < u32_mod
    → Permᴰ l r
    → compute_median_number l ≡ compute_median_number r
reordered {l} {r} b p =
    let same_length = length-reordered p in
    median-sort l b ∙ rw (same_length, sort-reordered p) (sym (median-sort r (omega arith)))

-- The median of fewer than 2 ^ 32 numbers does not depend on their order.
pub median-reordered :
    (l r : List ℕ)
    → length l < u32_mod
    → Perm l r
    → compute_median_number l ≡ compute_median_number r
median-reordered l r b p =
    let equal : IsProp (compute_median_number l ≡ compute_median_number r) = hlevel in
    ∥∥₁_elim p equal (reordered b)
