-- ===== src/Tests/BlockTests.antt =====
-- The undo of a sample block, and the simple cache at sample calls.
use inery_persistent_memory.Base.{
  ℕ, suc, ◌≡◌, refl, ap, sym, ◌∙◌, ◌==◌, Bool-cases, inl, inr, true, none, some, List, [], ◌∷◌,
  Bytes, bytes_eq,
}
use mathlib.Core.Option.{some-injective}
use inery_persistent_memory.StdMap.{find}
use inery_persistent_memory.DbConf.Prefix.{PrefixType, vote, cdp, prefix_names, index}
use inery_persistent_memory.DbConf.Keys.{is_key_prefix}
use inery_persistent_memory.LevelDb.Wrapper.{Outcome, ok, found}
use inery_persistent_memory.OpLog.{DbOpLogs, OpLogMap, get_db_op_logs}
use inery_persistent_memory.OpLog.Laws.{logs_of}
use inery_persistent_memory.Composite.{Cache, visible}
use inery_persistent_memory.Composite.Undo.{Call, get, set, erase, SameView}
use inery_persistent_memory.Composite.Contract.{is_found}
use inery_persistent_memory.BlockUndo.{UndoDataFuncMap, execute, execute_logs, find_func}
use inery_persistent_memory.BlockUndo.Results.{execute_logs_result, all_registered}
use inery_persistent_memory.BlockUndo.Transactions.{
  register_undo_func, run_transactions, undo_block_restores,
}
use inery_persistent_memory.Simple.{
  SimpleCache, simple_on_db, simple_on_base, SimpleSession, simple_get_data, simple_has_data,
  simple_set_data, simple_flush, simple_undo_data_list,
}
use inery_persistent_memory.Simple.View.{simple_view, simple_peek, simple_lower}
use inery_persistent_memory.Simple.Reads.{simple_get_data_lem}
use inery_persistent_memory.Simple.Writes.{simple_set_data_lem}
use inery_persistent_memory.Simple.Undo
use inery_persistent_memory.Simple.Undo.{SimpleCall, run_simple, SameValue, simple_undo_restores}
use inery_persistent_memory.Simple.Flush.{simple_flush_lem}
use inery_persistent_memory.DbUtil.KeyOrder.{uint_key}
use inery_persistent_memory.DbUtil.{uint_value}
use inery_persistent_memory.Tests.Samples.{Db, upper, no_logs, empty_db, nat_codec, db_leveldb}
use inery_persistent_memory.Tests.Stores.{Store, store_leveldb}

abbrev block : List (Bytes × List (Call ℕ ℕ))
block = (1 ∷ [], set 2 21 ∷ get 5 ∷ []) ∷ (2 ∷ [], erase 2 ∷ set 5 51 ∷ []) ∷ []

undo_block_restores_example :
    (e : Cache ℕ ℕ Db) × (execute
        (register_undo_func vote)
        (run_transactions vote block [] upper).0
        (run_transactions vote block [] upper).1
      ≡ ok (true, e))
    × SameView vote upper e
undo_block_restores_example =
    undo_block_restores vote block upper (unfold is_key_prefix bytes_eq prefix_names in refl)

-- two simple caches over a database
abbrev lone : SimpleCache ℕ Db
lone = simple_on_base none (simple_on_db (some 7) empty_db)

abbrev lone_session : SimpleSession ℕ Db
lone_session = record { cache = lone; op_log_map = some no_logs }

abbrev lone_calls : List (SimpleCall ℕ)
lone_calls = Undo.get ∷ Undo.set 8 ∷ Undo.erase ∷ Undo.set 9 ∷ []

simple_undo_restores_example :
    (m : OpLogMap) × ((run_simple cdp lone_calls lone_session).op_log_map ≡ some m)
    × (e : SimpleCache ℕ Db) × (simple_undo_data_list
          (logs_of (get_db_op_logs cdp m))
          (run_simple cdp lone_calls lone_session).cache
        ≡ ok e)
    × SameValue cdp lone e
simple_undo_restores_example =
    simple_undo_restores cdp lone_calls lone_session no_logs refl
      (unfold get_db_op_logs find in refl)

simple_get_data_lem_example :
    ((simple_get_data cdp lone).0 ≡ simple_view cdp lone)
    × ((simple_has_data cdp lone).0 ≡ is_found (simple_view cdp lone))
    × (simple_view cdp (simple_get_data cdp lone).1 ≡ simple_view cdp lone)
    × (simple_lower cdp (simple_get_data cdp lone).1 ≡ simple_lower cdp lone)
    × ((simple_has_data cdp lone).1 ≡ (simple_get_data cdp lone).1)
simple_get_data_lem_example = simple_get_data_lem cdp lone

simple_set_data_lem_example :
    ((simple_set_data cdp 8 lone_session).0 ≡ ok true)
    × (simple_view cdp (simple_set_data cdp 8 lone_session).1.cache ≡ visible (found 8))
    × (simple_lower cdp (simple_set_data cdp 8 lone_session).1.cache ≡ simple_lower cdp lone)
unfolding simple_peek
simple_set_data_lem_example = simple_set_data_lem cdp 8 lone_session (λ e h. cc)

abbrev saved : SimpleCache ℕ Store
saved = simple_on_base none (simple_on_db (some 7) [])

abbrev unsaved : SimpleCache ℕ Store
unsaved = simple_on_db (some 8) []

simple_flush_lem_example :
    ((c' : SimpleCache ℕ Store) × (simple_flush cdp (simple_on_base (some 8) saved)
        ≡ ok (simple_on_base none c'))
      × (simple_view cdp c' ≡ simple_view cdp (simple_on_base (some 8) saved)))
    × ((d' : Store) × (simple_flush cdp unsaved ≡ ok (simple_on_db none d'))
        × (simple_view cdp (simple_on_db none d') ≡ simple_view cdp unsaved))
simple_flush_lem_example = simple_flush_lem cdp 8 saved [] refl

-- a function that counts its calls
abbrev counting : UndoDataFuncMap ℕ
counting = (vote, λ logs n. ok (suc n)) ∷ []

counting_total :
    (p : PrefixType) (f : DbOpLogs → ℕ → Outcome ℕ) (logs : DbOpLogs) (t : ℕ)
    → find_func p counting ≡ some f
    → (t' : ℕ) × (f logs t ≡ ok t')
unfolding find_func
counting_total p f logs t h = elim (Bool-cases (index p == index vote)) [
  | inl e ↦ (
    suc t,
    ap (λ g. g logs t) (sym (some-injective (λ ls n. ok (suc n)) f (sym (rw e refl) ∙ h))),
  )
  | inr e ↦ let z : none ≡ some f = sym (rw e refl) ∙ h in cc
]

execute_logs_result_example :
    (s : ℕ) × (execute_logs counting ((prefix_names vote, []) ∷ (3 ∷ [], []) ∷ []) 0
      ≡ ok (all_registered counting ((prefix_names vote, []) ∷ (3 ∷ [], []) ∷ []), s))
execute_logs_result_example =
    execute_logs_result counting ((prefix_names vote, []) ∷ (3 ∷ [], []) ∷ []) 0 counting_total
