-- ===== src/PriceFeed/Median/Sort.antt =====
-- Sorted lists of numbers.
use inery_persistent_memory.Base.{
  ℕ, zero, suc, ◌≤◌, ◌<◌, ◌≡◌, refl, ap, ◌∙◌, List, [], ◌∷◌, leb, arith, Bool-cases, inl, inr,
}
use inery_persistent_memory.DbIterator.Delivery.{length}
use inery_persistent_memory.PriceFeed.Median.{insert_sorted, sort, nth}
use mathlib.Core.List.{Permᴰ}

-- every number is within the bounds
abbrev pub Within : ℕ → ℕ → List ℕ → Type 0
Within lo hi [] = Unit
Within lo hi (x ∷ xs) = (lo ≤ x) × (x ≤ hi) × Within lo hi xs

insert_sorted-Within :
    (lo hi x : ℕ) (l : List ℕ) → lo ≤ x → x ≤ hi → Within lo hi l → Within lo hi (insert_sorted x l)
unfolding insert_sorted
insert_sorted-Within lo hi x [] a b w = (a, b, tt)
insert_sorted-Within lo hi x (y ∷ ys) a b w = elim (Bool-cases (leb x y)) [
  | inl e ↦ rw (e, insert_sorted) (a, b, w)
  | inr e ↦ rw (e, insert_sorted) (w.0, w.1, insert_sorted-Within lo hi x ys a b w.2)
]

pub sort-Within : (lo hi : ℕ) (l : List ℕ) → Within lo hi l → Within lo hi (sort l)
unfolding sort
sort-Within lo hi [] w = tt
sort-Within lo hi (x ∷ xs) w =
    insert_sorted-Within lo hi x (sort xs) w.0 w.1 (sort-Within lo hi xs w.2)

length-insert_sorted : (x : ℕ) (l : List ℕ) → length (insert_sorted x l) ≡ suc (length l)
unfolding insert_sorted
length-insert_sorted x [] = refl
length-insert_sorted x (y ∷ ys) = elim (Bool-cases (leb x y)) [
  | inl e ↦ rw (e, insert_sorted) refl
  | inr e ↦ rw (e, insert_sorted) (ap suc (length-insert_sorted x ys))
]

pub length-sort : (l : List ℕ) → length (sort l) ≡ length l
unfolding sort
length-sort [] = refl
length-sort (x ∷ xs) = length-insert_sorted x (sort xs) ∙ ap suc (length-sort xs)

pub nth-Within :
    (lo hi i : ℕ) (l : List ℕ) → Within lo hi l → i < length l → (lo ≤ nth i l) × (nth i l ≤ hi)
unfolding nth
nth-Within lo hi i [] w h = absurd (omega arith)
nth-Within lo hi zero (x ∷ xs) w h = (w.0, w.1)
nth-Within lo hi (suc i) (x ∷ xs) w h = nth-Within lo hi i xs w.2 (omega arith)

insert_sorted_comm :
    (x y : ℕ) (l : List ℕ)
    → insert_sorted x (insert_sorted y l) ≡ insert_sorted y (insert_sorted x l)
unfolding insert_sorted
insert_sorted_comm x y [] = ground arith
insert_sorted_comm x y (z ∷ l) = ground (arith, insert_sorted_comm x y l)

-- the order of the numbers does not matter
pub sort-reordered : {l r : List ℕ} → Permᴰ l r → sort l ≡ sort r
unfolding sort
sort-reordered Permᴰ.nil = refl
sort-reordered (Permᴰ.cons {l₂ = r} e p) = rw e (ap (insert_sorted _) (sort-reordered p))
sort-reordered (Permᴰ.swap {a} {b} {l = l} e h) = insert_sorted_comm a b (sort l) ∙ rw (e, h) refl
sort-reordered (Permᴰ.trans p q) = sort-reordered p ∙ sort-reordered q

pub length-reordered : {l r : List ℕ} → Permᴰ l r → length l ≡ length r
length-reordered Permᴰ.nil = refl
length-reordered (Permᴰ.cons e p) = ap suc (length-reordered p)
length-reordered (Permᴰ.swap e h) = refl
length-reordered (Permᴰ.trans p q) = length-reordered p ∙ length-reordered q
