-- ===== src/Simple/Reads.antt =====
-- `GetDataPtr`, `GetData` and `HasData` of a simple cache against what it shows.
use inery_persistent_memory.Base.{◌≡◌, refl, ap, sym, ◌∙◌, true, false, Option, none, some}
use inery_persistent_memory.Serialize.{Codec, ValueOps}
use inery_persistent_memory.DbConf.Prefix.{PrefixType}
use inery_persistent_memory.LevelDb.{LevelDb}
use inery_persistent_memory.LevelDb.Wrapper.{ok, throws, Lookup, found, absent, failed}
use inery_persistent_memory.LevelDb.Access.{get_single}
use inery_persistent_memory.Composite.{visible}
use inery_persistent_memory.Composite.Contract.{is_found}
use inery_persistent_memory.Simple.{
  SimpleCache, simple_detached, simple_on_db, simple_on_base, ptr_data, keep_data, assert_not_empty,
  get_data_ptr, simple_get_data, simple_has_data,
}
use inery_persistent_memory.Simple.View.{
  ptr_data-with_data, simple_peek, simple_below, simple_view, peek-with_data, below-with_data,
  simple_lower, lower-with_data, peek-ptr_data,
}

-- the pointer after a search with this result
abbrev pub Holding : {V : Type 0} → Lookup V → Option V → Type 0
Holding (found v) o = o ≡ some v
Holding absent o = o ≡ none
Holding (failed e) o = o ≡ none

is_found-elim :
    {V : Type 0} (r : Lookup V)
    → (elim r [ found _ ↦ ok true | absent ↦ ok false | failed e ↦ throws e ]) ≡ is_found r
is_found-elim (found _) = refl
is_found-elim absent = refl
is_found-elim (failed e) = refl

module _ {V D : Type 0} ⦃vo : ValueOps V⦄ ⦃vc : Codec V⦄ ⦃ldb : LevelDb D⦄ (p : PrefixType) where
  -- A search: its result is what the cache shows, a copy of it is kept, and nothing that any of the
  -- caches shows has changed.
  pub record PtrFinds (c c' : SimpleCache V D) (r : Lookup V) : Type 0 where
    pub result : r ≡ simple_peek p c
    pub shown : simple_peek p c' ≡ simple_peek p c
    pub lowers : simple_lower p c' ≡ simple_lower p c
    pub belows : simple_below p c' ≡ simple_below p c
    pub holding : Holding r (ptr_data c')

  keep_data-PtrFinds :
      (r : Lookup V) (z c : SimpleCache V D)
      → ptr_data c ≡ none
      → simple_below p c ≡ r
      → simple_peek p z ≡ r
      → simple_below p c ≡ simple_below p z
      → simple_lower p c ≡ simple_lower p z
      → PtrFinds z (keep_data r c).1 (keep_data r c).0
  unfolding keep_data
  keep_data-PtrFinds (found v) z c n b h bs ls = record {
    result = sym h;
    shown = peek-with_data p (some v) c ∙ sym h;
    lowers = lower-with_data p (some v) c ∙ ls;
    belows = below-with_data p (some v) c ∙ bs;
    holding = ptr_data-with_data (some v) c;
  }
  keep_data-PtrFinds absent z c n b h bs ls = record {
    result = sym h;
    shown = peek-ptr_data p c ∙ rw n (b ∙ sym h);
    lowers = ls;
    belows = bs;
    holding = n;
  }
  keep_data-PtrFinds (failed e) z c n b h bs ls = record {
    result = sym h;
    shown = peek-ptr_data p c ∙ rw n (b ∙ sym h);
    lowers = ls;
    belows = bs;
    holding = n;
  }

  pub get_data_ptr-PtrFinds :
      (c : SimpleCache V D) → PtrFinds c (get_data_ptr p c).1 (get_data_ptr p c).0
  unfolding get_data_ptr simple_peek simple_below simple_lower
  get_data_ptr-PtrFinds (simple_detached (some v)) = record {
    result = refl;
    shown = refl;
    lowers = refl;
    belows = refl;
    holding = refl;
  }
  get_data_ptr-PtrFinds (simple_detached none) = record {
    result = refl;
    shown = refl;
    lowers = refl;
    belows = refl;
    holding = refl;
  }
  get_data_ptr-PtrFinds (simple_on_db (some v) d) = record {
    result = refl;
    shown = refl;
    lowers = refl;
    belows = refl;
    holding = refl;
  }
  get_data_ptr-PtrFinds (simple_on_db none d) =
      keep_data-PtrFinds (assert_not_empty (get_single p d)) (simple_on_db none d)
        (simple_on_db none d) refl refl refl refl refl
  get_data_ptr-PtrFinds (simple_on_base (some v) c) = record {
    result = refl;
    shown = refl;
    lowers = refl;
    belows = refl;
    holding = refl;
  }
  get_data_ptr-PtrFinds (simple_on_base none c) =
      let f = get_data_ptr-PtrFinds c in
      keep_data-PtrFinds (get_data_ptr p c).0 (simple_on_base none c)
        (simple_on_base none (get_data_ptr p c).1) refl (f.shown ∙ sym f.result) (sym f.result)
        f.shown (rw (f.shown, f.lowers) refl)

  -- `GetData` returns what the cache shows, `HasData` whether there is something, and after both
  -- every cache shows what it did.
  pub simple_get_data_lem :
      (c : SimpleCache V D)
      → ((simple_get_data p c).0 ≡ simple_view p c)
        × ((simple_has_data p c).0 ≡ is_found (simple_view p c))
        × (simple_view p (simple_get_data p c).1 ≡ simple_view p c)
        × (simple_lower p (simple_get_data p c).1 ≡ simple_lower p c)
        × ((simple_has_data p c).1 ≡ (simple_get_data p c).1)
  unfolding simple_get_data simple_has_data simple_view
  simple_get_data_lem c =
      let f = get_data_ptr-PtrFinds c in
      (
        ap visible f.result,
        is_found-elim (visible (get_data_ptr p c).0) ∙ ap (λ r. is_found (visible r)) f.result,
        ap visible f.shown,
        f.lowers,
        refl,
      )
