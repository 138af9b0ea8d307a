-- ===== src/Simple/Flush.antt =====
-- `Flush` of `InerySimpleKVCache`, into a base and into a database.
use inery_persistent_memory.Base.{
  ◌≡◌, refl, ap, Option, none, some, List, [], if◌then◌else◌, Bool-cases, inl, inr, bytes_eq_refl,
}
use inery_persistent_memory.Serialize.{Codec, ValueOps}
use inery_persistent_memory.DbConf.Prefix.{PrefixType, prefix_names}
use inery_persistent_memory.LevelDb.{LevelDb, status_ok, BatchOp, batch_get}
use inery_persistent_memory.LevelDb.Wrapper.{
  ok, throw_error, found, read, get_bytes, write_batch, batch_write, batch_erase,
}
use inery_persistent_memory.LevelDb.Access.{get_single, write_single}
use inery_persistent_memory.Composite.{visible}
use inery_persistent_memory.Simple.{
  SimpleCache, simple_on_db, simple_on_base, with_data, simple_flush, assert_not_empty,
}
use inery_persistent_memory.Simple.View.{simple_view, simple_peek, peek-with_data}

module _ {V : Type 0} ⦃vo : ValueOps V⦄ ⦃vc : Codec V⦄ (p : PrefixType) where
  -- the batch of a flush of one value
  abbrev pub single_batch : V → List BatchOp
  single_batch v =
      if vo.is_empty v then batch_erase (prefix_names p) [] else batch_write (prefix_names p) v []

module _ {V D : Type 0} ⦃vo : ValueOps V⦄ ⦃vc : Codec V⦄ ⦃ldb : LevelDb D⦄ (p : PrefixType) where
  -- `Flush` into a base leaves the base showing what the cache showed, and the cache empty.
  pub simple_flush_to_base :
      (o : Option V) (c : SimpleCache V D)
      → (c' : SimpleCache V D) × (simple_flush p (simple_on_base o c) ≡ ok (simple_on_base none c'))
        × (simple_view p c' ≡ simple_view p (simple_on_base o c))
  unfolding simple_flush simple_view simple_peek
  simple_flush_to_base none c = (c, refl, refl)
  simple_flush_to_base (some v) c =
      (with_data (some v) c, refl, ap visible (peek-with_data p (some v) c))

  -- what is read after a batch of one value that was accepted
  get_single-written :
      (v : V) (d : D)
      → (ldb.write d (single_batch p v)).0 ≡ status_ok
      → visible (assert_not_empty (get_single p (ldb.write d (single_batch p v)).1))
        ≡ visible (found v)
  unfolding get_single read get_bytes batch_get batch_erase batch_write
  get_single-written v d h =
      let got = ldb.get_write d (single_batch p v) (prefix_names p) h in
      elim (Bool-cases (vo.is_empty v)) [
        | inl e ↦ rw got (rw e (rw (bytes_eq_refl (prefix_names p)) refl))
        | inr e ↦
            rw got
              (rw e (rw (bytes_eq_refl (prefix_names p), vc.decode-encode v) (rw e (rw e refl))))
      ]

  -- `Flush` of a value into the database, where LevelDB accepts the batch, leaves the database
  -- showing what the cache showed.
  pub simple_flush_to_database :
      (v : V) (d : D)
      → (ldb.write d (single_batch p v)).0 ≡ status_ok
      → (d' : D) × (simple_flush p (simple_on_db (some v) d) ≡ ok (simple_on_db none d'))
        × (simple_view p (simple_on_db none d') ≡ simple_view p (simple_on_db (some v) d))
  unfolding simple_flush write_single write_batch simple_view simple_peek throw_error
  simple_flush_to_database v d h =
      ((ldb.write d (single_batch p v)).1, rw (h, simple_flush) refl, get_single-written v d h)

  -- `Flush` of a value into a base, or into a database where LevelDB accepts the batch, succeeds; it
  -- leaves what is below showing what the cache showed, and the cache empty.
  pub simple_flush_lem :
      (v : V) (c : SimpleCache V D) (d : D)
      → (ldb.write d (single_batch p v)).0 ≡ status_ok
      → ((c' : SimpleCache V D) × (simple_flush p (simple_on_base (some v) c)
            ≡ ok (simple_on_base none c'))
          × (simple_view p c' ≡ simple_view p (simple_on_base (some v) c)))
        × ((d' : D) × (simple_flush p (simple_on_db (some v) d) ≡ ok (simple_on_db none d'))
            × (simple_view p (simple_on_db none d') ≡ simple_view p (simple_on_db (some v) d)))
  simple_flush_lem v c d h = (simple_flush_to_base (some v) c, simple_flush_to_database v d h)
