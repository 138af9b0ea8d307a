-- ===== src/Composite/Size.antt =====
-- `GetCacheSize`: the size that a layer carries, and the sizes of its entries.
use inery_persistent_memory.Base.{
  ℕ, ◌+◌, ◌<◌, ◌≤◌, ◌≡◌, refl, true, some, List, [], ◌∷◌, arith, Option-cases, Bool-cases, inl, inr,
  u32_mod,
}
use inery_persistent_memory.StdMap.{KeyOps, key_lt, find, insert, assign, same}
use inery_persistent_memory.Serialize.{Codec, ValueOps}
use inery_persistent_memory.LevelDb.Wrapper.{ok}
use inery_persistent_memory.Composite.{
  Layer, calc_data_size, inc_entry_size, inc_value_size, dec_data_size, update_data_size,
  assign_value, erase_value, set_data_to_self,
}
use inery_persistent_memory.Composite.View.{with_entry, add_data_to_map-absent}

-- GetCacheSize
unfoldable pub get_cache_size : {K V : Type 0} → Layer K V → ℕ
get_cache_size l = l.size

module _ {K V : Type 0} ⦃ko : KeyOps K⦄ ⦃kc : Codec K⦄ ⦃vc : Codec V⦄ where
  unfoldable pub total_size : List (K × V) → ℕ
  total_size [] = 0
  total_size ((k, v) ∷ m) = calc_data_size k + calc_data_size v + total_size m

  total_size-insert :
      (k : K) (v : V) (m : List (K × V))
      → total_size (insert k v m) ≡ calc_data_size k + calc_data_size v + total_size m
  unfolding total_size insert
  total_size-insert k v [] = refl
  total_size-insert k v ((j, w) ∷ m) = elim (Bool-cases (key_lt j k)) [
    | inl e ↦ rw (e, insert) (omega (arith, total_size-insert k v m))
    | inr e ↦ rw (e, insert)
  ]

  total_size-assign :
      (k : K) (old v : V) (m : List (K × V))
      → find k m ≡ some old
      → total_size (assign k v m) + calc_data_size old ≡ total_size m + calc_data_size v
  unfolding total_size assign find
  total_size-assign k old v [] h = cc
  total_size-assign k old v ((j, w) ∷ m) h = elim (Bool-cases (same k j)) [
    | inl e ↦ rw (e, assign) (ground arith)
    | inr e ↦ rw (e, assign) (omega (arith, total_size-assign k old v m (ground arith)))
  ]

  -- the layer counts sizes, and carries the sum
  pub record Counts (l : Layer K V) : Type 0 where
    pub counting : l.is_calc_size ≡ true
    pub exact : get_cache_size l ≡ total_size l.map_data

  with_entry-Counts :
      (k : K) (v : V) (l : Layer K V)
      → Counts l
      → l.size + calc_data_size k + calc_data_size v < u32_mod
      → Counts (with_entry k v l)
  unfolding inc_entry_size get_cache_size
  with_entry-Counts k v l c fits = record {
    counting = rw (c.counting, inc_entry_size);
    exact =
        rw (c.counting, inc_entry_size)
          (omega (arith, total_size-insert k v l.map_data, c.exact, fits));
  }

  assign_value-Counts :
      (k : K) (old v : V) (l : Layer K V)
      → find k l.map_data ≡ some old
      → Counts l
      → l.size + calc_data_size v < u32_mod
      → Counts (assign_value k v (update_data_size old v l))
  unfolding assign_value update_data_size get_cache_size
  assign_value-Counts k old v l h c fits = record {
    counting = rw (c.counting, update_data_size);
    exact =
        rw (c.counting, update_data_size)
          (ground (arith, total_size-assign k old v l.map_data h, c.exact, fits));
  }

  -- Where the sum with the new entry stays below 2^32, `SetDataToSelf` returns a layer whose
  -- `GetCacheSize` is again the sum of the sizes of its entries.
  pub set_data_to_self-Counts :
      (k : K) (v : V) (l : Layer K V)
      → Counts l
      → get_cache_size l + calc_data_size k + calc_data_size v < u32_mod
      → (l' : Layer K V) × (set_data_to_self k v l ≡ ok l') × Counts l'
  unfolding set_data_to_self get_cache_size
  set_data_to_self-Counts k v l c fits = elim (Option-cases (find k l.map_data)) [
    | inl h ↦ (
      with_entry k v l,
      rw (h, set_data_to_self) (add_data_to_map-absent k v l h),
      with_entry-Counts k v l c fits,
    )
    | inr (old, h) ↦ (
      assign_value k v (update_data_size old v l),
      rw (h, set_data_to_self),
      assign_value-Counts k old v l h c (omega (arith, fits)),
    )
  ]

  -- the old value is part of the sum
  size-le-total :
      (k : K) (old : V) (m : List (K × V)) → find k m ≡ some old → calc_data_size old ≤ total_size m
  unfolding find total_size
  size-le-total k old [] h = cc
  size-le-total k old ((j, w) ∷ m) h = elim (Bool-cases (same k j)) [
    | inl e ↦ ground arith
    | inr e ↦ omega (arith, size-le-total k old m (ground arith))
  ]

  -- `EraseData` of a stored value likewise: the old value's size is taken off and the emptied
  -- value's size added.
  pub erase_value-Counts :
      ⦃vo : ValueOps V⦄ (k : K) (old : V) (l : Layer K V)
      → find k l.map_data ≡ some old
      → Counts l
      → get_cache_size l + calc_data_size (vo.set_empty old) < u32_mod
      → Counts (erase_value k old l)
  unfolding erase_value inc_value_size dec_data_size assign_value get_cache_size
  erase_value-Counts ⦃vo⦄ k old l h c fits = record {
    counting = rw (c.counting, erase_value, dec_data_size, inc_value_size);
    exact =
        rw (c.counting, erase_value, dec_data_size, inc_value_size)
          (ground (
            arith,
            total_size-assign k old (vo.set_empty old) l.map_data h,
            size-le-total k old l.map_data h,
            c.exact,
            fits,
          ));
  }
