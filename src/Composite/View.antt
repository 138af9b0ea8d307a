-- ===== src/Composite/View.antt =====
-- What a cache of `IneryCompositeKVCache` shows: for each key, the value in the first layer that has
-- one, or what the database holds.
use inery_persistent_memory.Base.{◌≡◌, refl, Option, none, some, List, [], ◌∷◌, arith}
use inery_persistent_memory.StdMap.{KeyOps, find, insert, emplace}
use inery_persistent_memory.Serialize.{Codec, ValueOps}
use inery_persistent_memory.DbConf.Prefix.{PrefixType}
use inery_persistent_memory.LevelDb.{LevelDb}
use inery_persistent_memory.LevelDb.Wrapper.{ok, Lookup, found, absent}
use inery_persistent_memory.LevelDb.Access.{get_data}
use inery_persistent_memory.Composite.{
  Layer, Cache, detached, on_db, on_base, top, with_top, inc_entry_size, add_data_to_map, visible,
}

-- a layer's own entry hides what is below it
abbrev pub over : {V : Type 0} → Option V → Lookup V → Lookup V
over (some v) r = found v
over none r = r

-- a layer without entries, its size counted from 0 again
abbrev pub emptied : {K V : Type 0} → Layer K V → Layer K V
emptied l = record l { map_data = []; size = 0 }

module _ {K V D : Type 0} ⦃ko : KeyOps K⦄ ⦃kc : Codec K⦄ ⦃vc : Codec V⦄ ⦃ldb : LevelDb D⦄
    (p : PrefixType) where
  unfoldable pub peek : K → Cache K V D → Lookup V
  peek k (detached l) = over (find k l.map_data) absent
  peek k (on_db l d) = over (find k l.map_data) (get_data p k d)
  peek k (on_base l c) = over (find k l.map_data) (peek k c)

  -- what stands below the object's own map
  unfoldable pub below : K → Cache K V D → Lookup V
  below k (detached l) = absent
  below k (on_db l d) = get_data p k d
  below k (on_base l c) = peek k c

  -- what each of the caches below shows
  unfoldable pub lower : Cache K V D → List (K → Lookup V)
  lower (detached l) = []
  lower (on_db l d) = []
  lower (on_base l c) = (λ k. peek k c) ∷ lower c

  -- what a caller can see: `peek` with the empty values gone
  unfoldable pub view : ⦃vo : ValueOps V⦄ → K → Cache K V D → Lookup V
  view k c = visible (peek k c)

  pub peek-over : (k : K) (c : Cache K V D) → peek k c ≡ over (find k (top c).map_data) (below k c)
  unfolding peek below
  peek-over k (detached l) = refl
  peek-over k (on_db l d) = refl
  peek-over k (on_base l c) = refl

  pub peek-with_top :
      (k : K) (l : Layer K V) (c : Cache K V D)
      → peek k (with_top l c) ≡ over (find k l.map_data) (below k c)
  unfolding peek below
  peek-with_top k l (detached _) = refl
  peek-with_top k l (on_db _ d) = refl
  peek-with_top k l (on_base _ c) = refl

  pub lower-with_top : (l : Layer K V) (c : Cache K V D) → lower (with_top l c) ≡ lower c
  unfolding lower
  lower-with_top l (detached _) = refl
  lower-with_top l (on_db _ d) = refl
  lower-with_top l (on_base _ c) = refl

module _ {K V D : Type 0} where
  pub top-with_top : (l : Layer K V) (c : Cache K V D) → top (with_top l c) ≡ l
  top-with_top l (detached _) = refl
  top-with_top l (on_db _ d) = refl
  top-with_top l (on_base _ c) = refl

  -- the database at the bottom
  unfoldable pub database : Cache K V D → Option D
  database (detached l) = none
  database (on_db l d) = some d
  database (on_base l c) = database c

  pub database-with_top : (l : Layer K V) (c : Cache K V D) → database (with_top l c) ≡ database c
  unfolding database
  database-with_top l (detached _) = refl
  database-with_top l (on_db _ d) = refl
  database-with_top l (on_base _ c) = refl

module _ {K V : Type 0} ⦃ko : KeyOps K⦄ ⦃kc : Codec K⦄ ⦃vc : Codec V⦄ where
  -- the layer with an entry more
  abbrev pub with_entry : K → V → Layer K V → Layer K V
  with_entry k v l = inc_entry_size k v (record l { map_data = insert k v l.map_data })

  -- `AddDataToMap` does not throw where the search has just failed.
  pub add_data_to_map-absent :
      (k : K) (v : V) (l : Layer K V)
      → find k l.map_data ≡ none
      → add_data_to_map k v l ≡ ok (with_entry k v l)
  unfolding add_data_to_map emplace
  add_data_to_map-absent k v l h = rw (h, emplace)

  pub map_data-inc_entry_size :
      (k : K) (v : V) (l : Layer K V) → (inc_entry_size k v l).map_data ≡ l.map_data
  unfolding inc_entry_size
  map_data-inc_entry_size k v l = ground arith
