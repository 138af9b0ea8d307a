-- ===== src/Composite/Flush.antt =====
-- `Clear` and `Flush`: the entries of the layer go to the base, or in one batch to the database.
pub mod Base
pub mod Database
use inery_persistent_memory.Base.{
  Bool, true, false, Option, none, some, List, [], ◌∷◌, if◌then◌else◌,
}
use inery_persistent_memory.StdMap.{KeyOps}
use inery_persistent_memory.Serialize.{Codec, ValueOps}
use inery_persistent_memory.DbConf.Prefix.{PrefixType}
use inery_persistent_memory.DbConf.Keys.{gen_db_key}
use inery_persistent_memory.LevelDb.{LevelDb, BatchOp}
use inery_persistent_memory.LevelDb.Wrapper.{
  Outcome, ok, throws, assertion_failed, write_batch, batch_write, batch_erase,
}
use inery_persistent_memory.Composite.{
  Layer, Cache, detached, on_db, on_base, top, with_top, set_data_to_self,
}

-- Clear
unfoldable pub clear : {K V : Type 0} → Layer K V → Layer K V
clear l = record l { map_data = []; size = 0 }

module _ {K V D : Type 0} ⦃ko : KeyOps K⦄ ⦃kc : Codec K⦄ ⦃vc : Codec V⦄ where
  -- the loop over the map, with a base
  unfoldable pub put_all : List (K × V) → Cache K V D → Outcome (Cache K V D)
  put_all [] c = ok c
  put_all ((k, v) ∷ m) c = elim (set_data_to_self k v (top c)) [
    | ok l ↦ put_all m (with_top l c)
    | throws e ↦ throws e
  ]

module _ {K V : Type 0} ⦃vo : ValueOps V⦄ ⦃kc : Codec K⦄ ⦃vc : Codec V⦄ (p : PrefixType) where
  -- the loop over the map, with a database: an empty value is erased
  unfoldable pub batch_all : List (K × V) → List BatchOp → List BatchOp
  batch_all [] batch = batch
  batch_all ((k, v) ∷ m) batch = batch_all m (
      if vo.is_empty v
      then batch_erase (gen_db_key p k) batch
      else batch_write (gen_db_key p k) v batch)

module _ {K V D : Type 0} ⦃ko : KeyOps K⦄ ⦃vo : ValueOps V⦄ ⦃kc : Codec K⦄ ⦃vc : Codec V⦄
    ⦃ldb : LevelDb D⦄ (p : PrefixType) where
  -- Flush
  unfoldable pub flush : Cache K V D → Outcome (Unit {0}) × Cache K V D
  flush (detached l) = (throws assertion_failed, detached l)
  flush (on_db l d) =
      let (o, d') = write_batch d (batch_all p l.map_data []) in
      elim o [ ok _ ↦ (ok tt, on_db (clear l) d') | throws e ↦ (throws e, on_db l d') ]
  flush (on_base l c) = elim (put_all l.map_data c) [
    | ok c' ↦ (ok tt, on_base (clear l) c')
    | throws e ↦ (throws e, on_base l c)
  ]
