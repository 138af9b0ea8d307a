-- ===== src/Tests/CompositeTests.antt =====
-- The theorems on `IneryCompositeKVCache` at sample caches.
use inery_persistent_memory.Base.{
  ℕ, ◌≡◌, ◌≢◌, refl, true, none, some, List, [], ◌∷◌, ◌++◌, if◌then◌else◌, arith, bytes_eq,
}
use inery_persistent_memory.StdMap.{same, find}
use inery_persistent_memory.DbConf.Prefix
use inery_persistent_memory.DbConf.Prefix.{PrefixType, vote, prefix_names, index}
use inery_persistent_memory.LevelDb.Wrapper.{
  ok, throws, found, absent, failed, database_corrupted, read, get_bytes, throw_error,
}
use inery_persistent_memory.OpLog.{OpLogMap, get_db_op_logs}
use inery_persistent_memory.OpLog.Laws.{logs_of}
use inery_persistent_memory.Composite.Size.{
  Counts, total_size, get_cache_size, set_data_to_self-Counts,
}
use inery_persistent_memory.Composite.Writes.{Quiet}
use inery_persistent_memory.LevelDb.{corruption}
use inery_persistent_memory.LevelDb.Access.{get_data}
use inery_persistent_memory.DbConf.Keys.{is_key_prefix}
use inery_persistent_memory.Composite.{
  Layer, Cache, new_on_db, on_db, on_base, visible, Session, set_data, erase_data, cache_get_data,
  cache_has_data, set_data_to_self,
}
use inery_persistent_memory.Composite.View.{emptied, view, peek, lower, database}
use inery_persistent_memory.Composite.Reads.{Alike}
use inery_persistent_memory.Composite.Contract.{
  Isolated, is_found, Readable, view-set_data, view-erase_data, cache_reads_lem, failed_read_throws,
}
use inery_persistent_memory.Composite.Undo.{
  Call, get, set, erase, run, undo_data_list, SameView, undo_restores,
}
use inery_persistent_memory.Composite.Flush.{flush}
use inery_persistent_memory.Composite.Flush.Base.{flush_to_base}
use inery_persistent_memory.Composite.Flush.Database.{
  answer, flush_to_database, flush_keeps_other_keys,
}
use inery_persistent_memory.DbUtil.KeyOrder.{uint_key}
use inery_persistent_memory.DbUtil.{uint_value}
use inery_persistent_memory.Tests.Samples.{
  Db, bottom, upper, upper_layer, session, no_logs, empty_db, nat_codec, db_leveldb,
}

vote≢cdp : vote ≢ Prefix.cdp
vote≢cdp e = cc

abbrev calls : List (Call ℕ ℕ)
calls = set 2 21 ∷ get 5 ∷ erase 2 ∷ set 5 51 ∷ erase 9 ∷ []

undo_restores_example :
    (m' : OpLogMap) × ((run vote calls session).op_log_map ≡ some m')
    × (e : Cache ℕ ℕ Db) × (undo_data_list
          (logs_of (get_db_op_logs vote m'))
          (run vote calls session).cache
        ≡ ok e)
    × SameView vote upper e
undo_restores_example =
    undo_restores vote calls session no_logs refl (unfold get_db_op_logs find in refl)

-- a cache over the database
abbrev lone : Layer ℕ ℕ
lone = record { map_data = (2, 20) ∷ (5, 0) ∷ []; is_calc_size = true; size = 16 }

upper-Readable : Readable vote 2 upper
unfolding peek find same
upper-Readable e q = cc

view-set_data_example :
    ((set_data vote 2 21 session).0 ≡ ok true)
    × ((j : ℕ)
        → view vote j (set_data vote 2 21 session).1.cache
          ≡ (if same j 2 then found 21 else view vote j upper))
    × Isolated vote upper (set_data vote 2 21 session).1.cache
view-set_data_example = view-set_data vote 2 21 session refl upper-Readable

view-erase_data_example :
    ((erase_data vote 2 session).0 ≡ ok true)
    × ((j : ℕ)
        → view vote j (erase_data vote 2 session).1.cache
          ≡ (if same j 2 then absent else view vote j upper))
    × Isolated vote upper (erase_data vote 2 session).1.cache
view-erase_data_example = view-erase_data vote 2 session refl upper-Readable

cache_reads_lem_example :
    ((cache_get_data vote 2 upper).0 ≡ view vote 2 upper)
    × Alike vote upper (cache_get_data vote 2 upper).1
    × ((cache_has_data vote 2 upper).0 ≡ is_found (view vote 2 upper))
    × Alike vote upper (cache_has_data vote 2 upper).1
cache_reads_lem_example = cache_reads_lem vote 2 upper

-- a database that cannot be read
abbrev broken_db : Db
broken_db key = (corruption, [])

abbrev broken : Session ℕ ℕ Db
broken = record { cache = new_on_db broken_db; op_log_map = none }

broken_peek : peek vote 2 broken.cache ≡ failed database_corrupted
unfolding peek find get_data read get_bytes throw_error
broken_peek = refl

failed_read_throws_example :
    ((set_data vote 2 21 broken).0 ≡ throws database_corrupted)
    × Quiet vote broken (set_data vote 2 21 broken).1
    × ((erase_data vote 2 broken).0 ≡ throws database_corrupted)
    × Quiet vote broken (erase_data vote 2 broken).1
failed_read_throws_example = failed_read_throws vote 2 21 database_corrupted broken refl broken_peek

flush_to_base_example :
    (c' : Cache ℕ ℕ Db) × (flush vote upper ≡ (ok tt, on_base (emptied upper_layer) c'))
    × ((j : ℕ) → peek vote j c' ≡ peek vote j upper)
    × ((j : ℕ) → peek vote j (on_base (emptied upper_layer) c') ≡ peek vote j upper)
    × (lower vote c' ≡ lower vote bottom)
    × (database c' ≡ database bottom)
flush_to_base_example = flush_to_base vote upper_layer bottom ((refl, tt), (tt, tt))

flush_to_database_example :
    (flush vote (on_db lone empty_db) ≡ (ok tt, on_db (emptied lone) (answer vote lone empty_db).1))
    × ((j : ℕ)
        → visible (get_data vote j (answer vote lone empty_db).1)
          ≡ view vote j (on_db lone empty_db))
    × ((j : ℕ)
        → view vote j (on_db (emptied lone) (answer vote lone empty_db).1)
          ≡ view vote j (on_db lone empty_db))
flush_to_database_example = flush_to_database vote lone empty_db ((refl, tt), (tt, tt)) refl

flush_keeps_other_keys_example :
    ((flush vote (on_db lone empty_db)).0 ≡ ok tt)
    × ((d' : Db) × (database (flush vote (on_db lone empty_db)).1 ≡ some d')
        × (d' (prefix_names Prefix.cdp ++ 1 ∷ []) ≡ empty_db (prefix_names Prefix.cdp ++ 1 ∷ [])))
unfolding is_key_prefix bytes_eq
flush_keeps_other_keys_example =
    flush_keeps_other_keys vote lone empty_db Prefix.cdp (1 ∷ []) refl refl vote≢cdp refl

lone-Counts : Counts lone
unfolding total_size get_cache_size
lone-Counts = record { counting = refl; exact = refl }

set_data_to_self-Counts_example :
    (l' : Layer ℕ ℕ) × (set_data_to_self 7 70 lone ≡ ok l') × Counts l'
unfolding get_cache_size
set_data_to_self-Counts_example = set_data_to_self-Counts 7 70 lone lone-Counts (omega arith)
