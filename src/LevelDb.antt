-- ===== src/LevelDb.antt =====
-- persistence/leveldbwrapper.h and .cpp, and `CDBAccess` of persistence/dbaccess.h, over the LevelDB
-- interface.
pub mod Wrapper
pub mod Access
use inery_persistent_memory.Base.{
  ℕ, ◌≡◌, Bool, Option, some, none, List, [], ◌∷◌, Bytes, bytes_eq, if◌then◌else◌,
}

-- leveldb::Status
pub data Status : Type 0 where
  status_ok not_found corruption not_supported invalid_argument io_error : Status

-- An entry of a leveldb::WriteBatch.
pub data BatchOp : Type 0 where
  put : Bytes → Bytes → BatchOp
  delete : Bytes → BatchOp

-- What a read of `key` gives after the entries of a batch, which are applied in order.
unfoldable pub batch_get : List BatchOp → Bytes → Status × Bytes → Status × Bytes
batch_get [] key r = r
batch_get (put k v ∷ ops) key r = batch_get ops key (if bytes_eq k key then (status_ok, v) else r)
batch_get (delete k ∷ ops) key r = batch_get ops key (if bytes_eq k key then (not_found, []) else r)

-- A LevelDB database: `DB::Get` and `DB::Write`. A write that succeeds has applied its batch.
pub record LevelDb (D : Type 0) : Type 0 where
  pub get : D → Bytes → Status × Bytes
  pub write : D → List BatchOp → Status × D
  pub get_write :
      (d : D) (ops : List BatchOp) (key : Bytes)
      → (write d ops).0 ≡ status_ok
      → get (write d ops).1 key ≡ batch_get ops key (get d key)
