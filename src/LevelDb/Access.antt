-- ===== src/LevelDb/Access.antt =====
-- `CDBAccess` of persistence/dbaccess.h: reads and writes under the keys of a prefix.
use inery_persistent_memory.Base.{Bool, [], if◌then◌else◌}
use inery_persistent_memory.Serialize.{Codec, ValueOps}
use inery_persistent_memory.DbConf.Prefix.{PrefixType, prefix_names}
use inery_persistent_memory.DbConf.Keys.{gen_db_key}
use inery_persistent_memory.LevelDb.{LevelDb}
use inery_persistent_memory.LevelDb.Wrapper.{
  Outcome, Lookup, read, exists, write_batch, batch_write, batch_erase,
}

module _ {D K V : Type 0} ⦃ldb : LevelDb D⦄ ⦃kc : Codec K⦄ ⦃vc : Codec V⦄ where
  -- CDBAccess::GetData of a key
  unfoldable pub get_data : PrefixType → K → D → Lookup V
  get_data p k d = read d (gen_db_key p k)

module _ {D K : Type 0} ⦃ldb : LevelDb D⦄ ⦃kc : Codec K⦄ where
  -- CDBAccess::HasData
  unfoldable pub has_data : PrefixType → K → D → Outcome Bool
  has_data p k d = exists d (gen_db_key p k)

module _ {D V : Type 0} ⦃ldb : LevelDb D⦄ ⦃vc : Codec V⦄ where
  -- CDBAccess::GetData of the single value of a prefix
  unfoldable pub get_single : PrefixType → D → Lookup V
  get_single p d = read d (prefix_names p)

  -- CDBAccess::WriteBatch of the single value of a prefix: an empty value is erased
  unfoldable pub write_single : ⦃vo : ValueOps V⦄ → PrefixType → V → D → Outcome Bool × D
  write_single ⦃vo⦄ p value d = write_batch d (
      if vo.is_empty value
      then batch_erase (prefix_names p) []
      else batch_write (prefix_names p) value [])
