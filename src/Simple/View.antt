-- ===== src/Simple/View.antt =====
-- What a simple cache shows: its own value, or what stands below.
use inery_persistent_memory.Base.{◌≡◌, refl, Option, List, [], ◌∷◌}
use inery_persistent_memory.Serialize.{Codec, ValueOps}
use inery_persistent_memory.DbConf.Prefix.{PrefixType}
use inery_persistent_memory.LevelDb.{LevelDb}
use inery_persistent_memory.LevelDb.Wrapper.{Lookup, absent}
use inery_persistent_memory.LevelDb.Access.{get_single}
use inery_persistent_memory.Composite.{visible}
use inery_persistent_memory.Composite.View.{over}
use inery_persistent_memory.Simple.{
  SimpleCache, simple_detached, simple_on_db, simple_on_base, ptr_data, with_data, assert_not_empty,
}

pub ptr_data-with_data :
    {V D : Type 0} (o : Option V) (c : SimpleCache V D) → ptr_data (with_data o c) ≡ o
ptr_data-with_data o (simple_detached _) = refl
ptr_data-with_data o (simple_on_db _ d) = refl
ptr_data-with_data o (simple_on_base _ c) = refl

module _ {V D : Type 0} ⦃vo : ValueOps V⦄ ⦃vc : Codec V⦄ ⦃ldb : LevelDb D⦄ (p : PrefixType) where
  unfoldable pub simple_peek : SimpleCache V D → Lookup V
  simple_peek (simple_detached o) = over o absent
  simple_peek (simple_on_db o d) = over o (assert_not_empty (get_single p d))
  simple_peek (simple_on_base o c) = over o (simple_peek c)

  unfoldable pub simple_below : SimpleCache V D → Lookup V
  simple_below (simple_detached o) = absent
  simple_below (simple_on_db o d) = assert_not_empty (get_single p d)
  simple_below (simple_on_base o c) = simple_peek c

  -- what a caller can see
  unfoldable pub simple_view : SimpleCache V D → Lookup V
  simple_view c = visible (simple_peek c)

  pub peek-with_data :
      (o : Option V) (c : SimpleCache V D) → simple_peek (with_data o c) ≡ over o (simple_below c)
  unfolding simple_peek simple_below
  peek-with_data o (simple_detached _) = refl
  peek-with_data o (simple_on_db _ d) = refl
  peek-with_data o (simple_on_base _ c) = refl

  pub below-with_data :
      (o : Option V) (c : SimpleCache V D) → simple_below (with_data o c) ≡ simple_below c
  unfolding simple_below
  below-with_data o (simple_detached _) = refl
  below-with_data o (simple_on_db _ d) = refl
  below-with_data o (simple_on_base _ c) = refl

  -- what each of the caches below shows
  unfoldable pub simple_lower : SimpleCache V D → List (Lookup V)
  simple_lower (simple_detached o) = []
  simple_lower (simple_on_db o d) = []
  simple_lower (simple_on_base o c) = simple_peek c ∷ simple_lower c

  pub lower-with_data :
      (o : Option V) (c : SimpleCache V D) → simple_lower (with_data o c) ≡ simple_lower c
  unfolding simple_lower
  lower-with_data o (simple_detached _) = refl
  lower-with_data o (simple_on_db _ d) = refl
  lower-with_data o (simple_on_base _ c) = refl

  pub peek-ptr_data : (c : SimpleCache V D) → simple_peek c ≡ over (ptr_data c) (simple_below c)
  unfolding simple_peek simple_below
  peek-ptr_data (simple_detached _) = refl
  peek-ptr_data (simple_on_db _ d) = refl
  peek-ptr_data (simple_on_base _ c) = refl
