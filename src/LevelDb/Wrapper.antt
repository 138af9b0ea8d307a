-- ===== src/LevelDb/Wrapper.antt =====
-- `IneryLevelDBWrapper`, `IneryLevelDBBatch` and `ThrowError` of persistence/leveldbwrapper.h and .cpp.
use inery_persistent_memory.Base.{Bool, true, false, Option, none, some, List, [], ◌∷◌, ◌++◌, Bytes}
use inery_persistent_memory.Serialize.{Codec}
use inery_persistent_memory.LevelDb.{
  LevelDb, Status, status_ok, not_found, corruption, io_error, BatchOp, put, delete,
}

-- The exceptions of the layer: the four of `ThrowError`, the one of `AddDataToMap`, and those of
-- the serialization streams and iterators. An `assert` that fails ends the program, and is one more.
-- `delegate_num_error` is thrown by `GetActivedDelegateNum` of persistence/delegatedb.cpp.
-- `out_of_fuel` is no exception of the code: it is what a loop of the model would end with if its
-- fuel were too little.
pub data DbError : Type 0 where
  database_corrupted database_io_error entry_missing unknown_error : DbError
  alloc_failed : DbError
  stream_failure assertion_failed : DbError
  iterator_key_error iterator_value_error : DbError
  delegate_num_error : DbError
  out_of_fuel : DbError

-- A call that returns, or throws.
pub data Outcome {ℓ} (A : Type ℓ) : Type ℓ where
  ok : A → Outcome A
  throws : DbError → Outcome A

-- A search that finds a value, finds none, or throws.
pub data Lookup {ℓ} (A : Type ℓ) : Type ℓ where
  found : A → Lookup A
  absent : Lookup A
  failed : DbError → Lookup A

-- ThrowError: the exception of a status, if it has one
unfoldable pub throw_error : Status → Option DbError
throw_error status_ok = none
throw_error corruption = some database_corrupted
throw_error io_error = some database_io_error
throw_error not_found = some entry_missing
throw_error _ = some unknown_error

-- IneryLevelDBBatch::Write and ::Erase
module _ {V : Type 0} ⦃vc : Codec V⦄ where
  unfoldable pub batch_write : Bytes → V → List BatchOp → List BatchOp
  batch_write key value batch = batch ++ put key (vc.encode value) ∷ []

module _ {V : Type 0} ⦃vc : Codec V⦄ where
  -- the part of `Read` on the bytes: an exception of the stream is caught, and it returns false
  abbrev pub read_value : Lookup Bytes → Lookup V
  read_value (found bytes) = elim (vc.decode bytes) [ none ↦ absent | some v ↦ found v ]
  read_value absent = absent
  read_value (failed e) = failed e

unfoldable pub batch_erase : Bytes → List BatchOp → List BatchOp
batch_erase key batch = batch ++ delete key ∷ []

-- the bytes of a read, nothing if the key is not found, or an exception
abbrev pub status_lookup : Status × Bytes → Lookup Bytes
status_lookup (status_ok, bytes) = found bytes
status_lookup (not_found, bytes) = absent
status_lookup (status, bytes) = elim (throw_error status) [ none ↦ absent | some e ↦ failed e ]

module _ {D : Type 0} ⦃ldb : LevelDb D⦄ where
  -- the part of `Read` and `Exists` on the status
  unfoldable pub get_bytes : D → Bytes → Lookup Bytes
  get_bytes d key = status_lookup (ldb.get d key)

  -- IneryLevelDBWrapper::WriteBatch: true, or an exception
  unfoldable pub write_batch : D → List BatchOp → Outcome Bool × D
  write_batch d batch =
      let (status, d') = ldb.write d batch in
      (elim (throw_error status) [ none ↦ ok true | some e ↦ throws e ], d')

  -- IneryLevelDBWrapper::Exists
  unfoldable pub exists : D → Bytes → Outcome Bool
  exists d key = elim (get_bytes d key) [
    | found _ ↦ ok true
    | absent ↦ ok false
    | failed e ↦ throws e
  ]

  module _ {V : Type 0} ⦃vc : Codec V⦄ where
    -- IneryLevelDBWrapper::Read
    unfoldable pub read : D → Bytes → Lookup V
    read d key = read_value (get_bytes d key)

    -- IneryLevelDBWrapper::Write and ::Erase
    unfoldable pub write : D → Bytes → V → Outcome Bool × D
    write d key value = write_batch d (batch_write key value [])

  unfoldable pub erase : D → Bytes → Outcome Bool × D
  erase d key = write_batch d (batch_erase key [])
