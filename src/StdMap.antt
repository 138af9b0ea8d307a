-- ===== src/StdMap.antt =====
-- `std::map` as the caches use it: a list of entries in the order of `operator<` on the keys.
pub mod Find
pub mod Order
use inery_persistent_memory.Base.{
  ◌≡◌, Bool, true, false, not, ◌&&◌, Option, none, some, List, [], ◌∷◌, if◌then◌else◌,
}

-- A key type: `operator<`, a strict total order, and `db_util::IsEmpty`.
pub record KeyOps (K : Type 0) : Type 0 where
  pub lt : K → K → Bool
  pub is_empty : K → Bool
  pub lt_irrefl : (a : K) → lt a a ≡ false
  pub lt_trans : (a b c : K) → lt a b ≡ true → lt b c ≡ true → lt a c ≡ true
  pub lt_connected : (a b : K) → lt a b ≡ false → lt b a ≡ false → a ≡ b

module _ {K : Type 0} ⦃ko : KeyOps K⦄ where
  abbrev pub key_lt : K → K → Bool
  key_lt = ko.lt

  -- keys that are equivalent for the map: neither is less than the other
  unfoldable pub same : K → K → Bool
  same a b = not (key_lt a b) && not (key_lt b a)

module _ {K V : Type 0} ⦃ko : KeyOps K⦄ where
  -- m.find(k)
  unfoldable pub find : K → List (K × V) → Option V
  find k [] = none
  find k ((j, v) ∷ m) = if same k j then some v else find k m

  -- puts an entry at its place in the order, before any entry that is not less
  unfoldable pub insert : K → V → List (K × V) → List (K × V)
  insert k v [] = (k, v) ∷ []
  insert k v ((j, w) ∷ m) = if key_lt j k then (j, w) ∷ insert k v m else (k, v) ∷ (j, w) ∷ m

  -- m.emplace(k, v): does nothing if the key is there, and says whether it inserted
  unfoldable pub emplace : K → V → List (K × V) → List (K × V) × Bool
  emplace k v m = elim (find k m) [ some _ ↦ (m, false) | none ↦ (insert k v m, true) ]

  -- it->second = v, for the entry `it` of the key
  unfoldable pub assign : K → V → List (K × V) → List (K × V)
  assign k v [] = []
  assign k v ((j, w) ∷ m) = if same k j then (j, v) ∷ m else (j, w) ∷ assign k v m

  -- m.lower_bound(k): the entries from the first that is not less than the key
  unfoldable pub lower_bound : K → List (K × V) → List (K × V)
  lower_bound k [] = []
  lower_bound k ((j, w) ∷ m) = if key_lt j k then lower_bound k m else (j, w) ∷ m

  -- m.upper_bound(k): the entries from the first that is greater than the key
  unfoldable pub upper_bound : K → List (K × V) → List (K × V)
  upper_bound k [] = []
  upper_bound k ((j, w) ∷ m) = if key_lt k j then (j, w) ∷ m else upper_bound k m

module _ {K V : Type 0} ⦃ko : KeyOps K⦄ where
  -- m[k] = v
  unfoldable pub put_at : K → V → List (K × V) → List (K × V)
  put_at k v m = elim (find k m) [ none ↦ insert k v m | some _ ↦ assign k v m ]

  -- m.erase(k)
  unfoldable pub erase_at : K → List (K × V) → List (K × V)
  erase_at k [] = []
  erase_at k (x ∷ m) = if same k x.0 then erase_at k m else x ∷ erase_at k m
