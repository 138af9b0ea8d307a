-- ===== src/DbIterator/Delivery.antt =====
-- What an iterator delivers, one entry after the other.
use inery_persistent_memory.Base.{
  ℕ, suc, ◌≡◌, true, false, none, some, List, [], ◌∷◌, if◌then◌else◌,
}
use inery_persistent_memory.StdMap.{KeyOps, key_lt, lower_bound}
use inery_persistent_memory.Serialize.{ValueOps}
use inery_persistent_memory.LevelDb.Wrapper.{ok}
use inery_persistent_memory.DbIterator.{Iterator}

abbrev pub length {ℓ} : {A : Type ℓ} → List A → ℕ
length [] = 0
length (x ∷ xs) = suc (length xs)

-- The iterator stands at the first of the entries, and each `Next` takes it to the next of them.
abbrev pub Delivers : {K V S : Type 0} → Iterator K V S → S → List (K × V) → Type 0
Delivers it s [] = it.current s ≡ none
Delivers {S = S} it s (x ∷ xs) =
    (it.current s ≡ some x) × ((s' : S) × (it.next s ≡ ok s') × Delivers it s' xs)

-- `First` takes it to the first of them.
abbrev pub StartsWith : {K V S : Type 0} → Iterator K V S → S → List (K × V) → Type 0
StartsWith {S = S} it s xs = (s' : S) × (it.first s ≡ ok s') × Delivers it s' xs

-- `Seek` of a key that is not empty takes it to the first of them that is not less than the key.
abbrev pub Seeks : {K V S : Type 0} ⦃ko : KeyOps K⦄ → Iterator K V S → S → List (K × V) → Type 0
Seeks {K = K} {S = S} ⦃ko⦄ it s xs =
    (k : K)
    → ko.is_empty k ≡ false
    → (s' : S) × (it.seek k s ≡ ok s') × Delivers it s' (lower_bound k xs)

module _ {K V : Type 0} ⦃ko : KeyOps K⦄ where
  -- two lists of entries in order, merged; the first list's entry hides the second's
  unfoldable pub merge : List (K × V) → List (K × V) → List (K × V)
  merge [] b = b
  merge (x ∷ m) [] = x ∷ m
  merge (x ∷ m) (y ∷ b) = elim (key_lt y.0 x.0) [
    | true ↦ y ∷ merge (x ∷ m) b
    | false ↦ elim (key_lt x.0 y.0) [ true ↦ x ∷ merge m (y ∷ b) | false ↦ x ∷ merge m b ]
  ]

-- the entries whose values are not empty
unfoldable pub live : {K V : Type 0} ⦃vo : ValueOps V⦄ → List (K × V) → List (K × V)
live [] = []
live ⦃vo⦄ (x ∷ m) = if vo.is_empty x.1 then live m else x ∷ live m
