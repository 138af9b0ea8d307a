-- ===== src/Composite/Puts.antt =====
-- One entry of a layer replaced: what the changes of `mapData` have in common.
use inery_persistent_memory.Base.{
  ◌≡◌, none, some, if◌then◌else◌, arith, Option-cases, Bool-cases, inl, inr,
}
use inery_persistent_memory.StdMap.{KeyOps, find, insert, same}
use inery_persistent_memory.StdMap.Find.{find-insert, find-assign}
use inery_persistent_memory.Serialize.{Codec, ValueOps}
use inery_persistent_memory.DbConf.Prefix.{PrefixType}
use inery_persistent_memory.LevelDb.{LevelDb}
use inery_persistent_memory.LevelDb.Wrapper.{ok, found}
use inery_persistent_memory.Composite.{
  Layer, Cache, top, with_top, inc_value_size, dec_data_size, update_data_size, assign_value,
  erase_value, set_data_to_self,
}
use inery_persistent_memory.Composite.View.{
  peek, peek-over, peek-with_top, with_entry, add_data_to_map-absent, map_data-inc_entry_size,
}

module _ {K V : Type 0} ⦃ko : KeyOps K⦄ where
  -- `l'` is `l` with `v` at `k`
  pub record Puts (k : K) (v : V) (l l' : Layer K V) : Type 0 where
    pub finds : (j : K) → find j l'.map_data ≡ (if same j k then some v else find j l.map_data)

module _ {K V : Type 0} ⦃ko : KeyOps K⦄ ⦃kc : Codec K⦄ ⦃vc : Codec V⦄ where
  pub with_entry-Puts :
      (k : K) (v : V) (l : Layer K V) → find k l.map_data ≡ none → Puts k v l (with_entry k v l)
  with_entry-Puts k v l h = record {
    finds = λ j.
        rw (map_data-inc_entry_size k v (record l { map_data = insert k v l.map_data }))
          (find-insert k j v l.map_data h);
  }

module _ {K V : Type 0} ⦃vc : Codec V⦄ where
  pub map_data-update_data_size :
      (old new : V) (l : Layer K V) → (update_data_size old new l).map_data ≡ l.map_data
  unfolding update_data_size
  map_data-update_data_size old new l = ground arith

  pub map_data-dec_data_size : (v : V) (l : Layer K V) → (dec_data_size v l).map_data ≡ l.map_data
  unfolding dec_data_size
  map_data-dec_data_size v l = ground arith

  pub map_data-inc_value_size : (v : V) (l : Layer K V) → (inc_value_size v l).map_data ≡ l.map_data
  unfolding inc_value_size
  map_data-inc_value_size v l = ground arith

module _ {K V : Type 0} ⦃ko : KeyOps K⦄ ⦃kc : Codec K⦄ ⦃vc : Codec V⦄ where
  pub assign_value-Puts :
      (k : K) (old v : V) (l : Layer K V)
      → find k l.map_data ≡ some old
      → Puts k v l (assign_value k v (update_data_size old v l))
  unfolding assign_value
  assign_value-Puts k old v l h = record {
    finds = λ j. rw (map_data-update_data_size old v l) (find-assign k j v old l.map_data h);
  }

  pub erase_value-Puts :
      ⦃vo : ValueOps V⦄ (k : K) (old : V) (l : Layer K V)
      → find k l.map_data ≡ some old
      → Puts k (vo.set_empty old) l (erase_value k old l)
  unfolding erase_value assign_value
  erase_value-Puts ⦃vo⦄ k old l h = record {
    finds = λ j.
        rw
          (map_data-inc_value_size (vo.set_empty old)
            (assign_value k (vo.set_empty old) (dec_data_size old l)))
          (rw (map_data-dec_data_size old l) (find-assign k j (vo.set_empty old) old l.map_data h));
  }

  -- `SetDataToSelf` does not throw, and puts the value.
  pub set_data_to_self-Puts :
      (k : K) (v : V) (l : Layer K V)
      → (l' : Layer K V) × (set_data_to_self k v l ≡ ok l') × Puts k v l l'
  unfolding set_data_to_self
  set_data_to_self-Puts k v l = elim (Option-cases (find k l.map_data)) [
    | inl h ↦ (
      with_entry k v l,
      rw (h, set_data_to_self) (add_data_to_map-absent k v l h),
      with_entry-Puts k v l h,
    )
    | inr (old, h) ↦ (
      assign_value k v (update_data_size old v l),
      rw (h, set_data_to_self),
      assign_value-Puts k old v l h,
    )
  ]

module _ {K V D : Type 0} ⦃ko : KeyOps K⦄ ⦃kc : Codec K⦄ ⦃vc : Codec V⦄ ⦃ldb : LevelDb D⦄
    (p : PrefixType) where
  -- A cache whose own map has `v` put at `k` shows `v` at `k`, and what it showed elsewhere.
  pub peek-Puts :
      (k j : K) (v : V) (l : Layer K V) (c : Cache K V D)
      → Puts k v (top c) l
      → peek p j (with_top l c) ≡ (if same j k then found v else peek p j c)
  peek-Puts k j v l c h =
      rw (peek-with_top p j l c, peek-over p j c)
        (rw (h.finds j) (elim (Bool-cases (same j k)) [ inl s ↦ rw s | inr n ↦ rw n ]))
