-- ===== src/Tests/Samples.antt =====
-- Sample types, databases and caches: keys and values are numbers, 0 is the empty one.
use inery_persistent_memory.Base.{ℕ, ◌≢◌, refl, true, false, Option, none, some, [], ◌∷◌, Bytes}
use inery_persistent_memory.Serialize.{Codec, ValueOps}
use inery_persistent_memory.LevelDb.{LevelDb, Status, status_ok, not_found, batch_get}
use inery_persistent_memory.OpLog.{OpLogMap}
use inery_persistent_memory.StdMap.{KeyOps, find}
use inery_persistent_memory.DbConf.Prefix.{PrefixType}
use inery_persistent_memory.LevelDb.Wrapper.{absent, failed, DbError, read, get_bytes}
use inery_persistent_memory.LevelDb.Access.{get_data}
use inery_persistent_memory.Composite.View.{peek, over}
use inery_persistent_memory.Cdp.Writes.{AllReadable}
use inery_persistent_memory.Composite.{Layer, Cache, Session, on_db, on_base}

abbrev pub decode_nat : Bytes → Option ℕ
decode_nat (n ∷ []) = some n
decode_nat _ = none

instance abbrev pub nat_codec : Codec ℕ
nat_codec = record {
  encode = λ n. n ∷ [];
  decode = decode_nat;
  serialize_size = λ n. 4;
  decode-encode = λ n. refl;
}

-- a database as the function of its reads, whose writes all succeed
abbrev pub Db : Type 0
Db = Bytes → Status × Bytes

instance abbrev pub db_leveldb : LevelDb Db
db_leveldb = record {
  get = λ d key. d key;
  write = λ d ops. (status_ok, λ key. batch_get ops key (d key));
  get_write = λ d ops key h. refl;
}

abbrev pub empty_db : Db
empty_db key = (not_found, [])

readable_over : {V : Type 0} (o : Option V) (e : DbError) → over o absent ≢ failed e
readable_over none e q = cc
readable_over (some v) e q = cc

pub empty_db-AllReadable :
    {K V : Type 0} ⦃ko : KeyOps K⦄ ⦃vo : ValueOps V⦄ ⦃kc : Codec K⦄ ⦃vc : Codec V⦄ (p : PrefixType)
    (l : Layer K V)
    → AllReadable p (on_db l empty_db)
unfolding peek get_data read get_bytes
empty_db-AllReadable p l k = readable_over (find k l.map_data)

-- the database at the bottom, and two caches above it that hold entries
abbrev pub bottom : Cache ℕ ℕ Db
bottom =
    on_db (record { map_data = (2, 20) ∷ (5, 50) ∷ []; is_calc_size = true; size = 16 }) empty_db

abbrev pub upper_layer : Layer ℕ ℕ
upper_layer = record { map_data = (5, 0) ∷ (7, 70) ∷ []; is_calc_size = false; size = 0 }

abbrev pub upper : Cache ℕ ℕ Db
upper = on_base upper_layer bottom

abbrev pub no_logs : OpLogMap
no_logs = []

abbrev pub session : Session ℕ ℕ Db
session = record { cache = upper; op_log_map = some no_logs }
