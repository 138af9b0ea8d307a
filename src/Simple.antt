-- ===== src/Simple.antt =====
-- `InerySimpleKVCache` of persistence/dbaccess.h: a cache of the single value of a prefix.
pub mod View
pub mod Reads
pub mod Writes
pub mod Undo
pub mod Flush
use inery_persistent_memory.Base.{
  ℕ, Bool, true, false, Option, none, some, List, [], ◌∷◌, if◌then◌else◌,
}
use inery_persistent_memory.Serialize.{Codec, ValueOps, make_empty_value}
use inery_persistent_memory.DbConf.Prefix.{PrefixType}
use inery_persistent_memory.LevelDb.{LevelDb}
use inery_persistent_memory.LevelDb.Wrapper.{
  Outcome, ok, throws, stream_failure, assertion_failed, Lookup, found, absent, failed,
}
use inery_persistent_memory.LevelDb.Access.{get_single, write_single}
use inery_persistent_memory.OpLog.{
  DbOpLog, DbOpLogs, OpLogMap, set_log_value, get_log_value, add_op_log,
}
use inery_persistent_memory.Composite.{visible}

-- The object with `ptrData`, and what is below it: nothing, the database, or the base.
pub data SimpleCache (V D : Type 0) : Type 0 where
  simple_detached : Option V → SimpleCache V D
  simple_on_db : Option V → D → SimpleCache V D
  simple_on_base : Option V → SimpleCache V D → SimpleCache V D

-- A cache and the log map that `SetDbOpLogMap` gave it.
pub record SimpleSession (V D : Type 0) : Type 0 where
  pub cache : SimpleCache V D
  pub op_log_map : Option OpLogMap

module _ {V D : Type 0} where
  abbrev pub ptr_data : SimpleCache V D → Option V
  ptr_data (simple_detached o) = o
  ptr_data (simple_on_db o d) = o
  ptr_data (simple_on_base o c) = o

  -- ptrData = o
  abbrev pub with_data : Option V → SimpleCache V D → SimpleCache V D
  with_data o (simple_detached _) = simple_detached o
  with_data o (simple_on_db _ d) = simple_on_db o d
  with_data o (simple_on_base _ c) = simple_on_base o c

  -- a copy of what was found below is kept
  unfoldable pub keep_data : Lookup V → SimpleCache V D → Lookup V × SimpleCache V D
  keep_data (found v) c = (found v, with_data (some v) c)
  keep_data absent c = (absent, c)
  keep_data (failed e) c = (failed e, c)

-- the assertion on a value that the database returned
abbrev pub assert_not_empty : {V : Type 0} ⦃vo : ValueOps V⦄ → Lookup V → Lookup V
assert_not_empty ⦃vo⦄ (found v) = if vo.is_empty v then failed assertion_failed else found v
assert_not_empty absent = absent
assert_not_empty (failed e) = failed e

unfoldable pub simple_cache_size : {V D : Type 0} ⦃vc : Codec V⦄ → SimpleCache V D → ℕ
simple_cache_size ⦃vc⦄ c = elim (ptr_data c) [ none ↦ 0 | some v ↦ vc.serialize_size v ]

-- `*ptrData` after it was set to an empty value if it was null
abbrev pub old_or_empty : {V : Type 0} ⦃vo : ValueOps V⦄ → Option V → V
old_or_empty none = make_empty_value
old_or_empty (some v) = v

-- AddOpLog
unfoldable pub log_old_single :
    {V : Type 0} ⦃vc : Codec V⦄ → PrefixType → V → Option OpLogMap → Option OpLogMap
log_old_single p old none = none
log_old_single p old (some m) = some (add_op_log p (set_log_value old) m)

module _ {V D : Type 0} ⦃vo : ValueOps V⦄ ⦃vc : Codec V⦄ ⦃ldb : LevelDb D⦄ (p : PrefixType) where
  -- GetDataPtr
  unfoldable pub get_data_ptr : SimpleCache V D → Lookup V × SimpleCache V D
  get_data_ptr (simple_detached (some v)) = (found v, simple_detached (some v))
  get_data_ptr (simple_detached none) = (absent, simple_detached none)
  get_data_ptr (simple_on_db (some v) d) = (found v, simple_on_db (some v) d)
  get_data_ptr (simple_on_db none d) =
      keep_data (assert_not_empty (get_single p d)) (simple_on_db none d)
  get_data_ptr (simple_on_base (some v) c) = (found v, simple_on_base (some v) c)
  get_data_ptr (simple_on_base none c) =
      let (r, c') = get_data_ptr c in keep_data r (simple_on_base none c')

  -- GetData
  unfoldable pub simple_get_data : SimpleCache V D → Lookup V × SimpleCache V D
  simple_get_data c = let (r, c') = get_data_ptr c in (visible r, c')

  -- HasData
  unfoldable pub simple_has_data : SimpleCache V D → Outcome Bool × SimpleCache V D
  simple_has_data c =
      let (r, c') = get_data_ptr c in
      (elim (visible r) [ found _ ↦ ok true | absent ↦ ok false | failed e ↦ throws e ], c')

  -- `SetData` after `GetDataPtr`, which throws in the failed case
  unfoldable pub simple_set_found :
      V → Lookup V → SimpleSession V D → Outcome Bool × SimpleSession V D
  simple_set_found v (failed e) s = (throws e, s)
  simple_set_found v _ s = (
    ok true,
    record {
      cache = with_data (some v) s.cache;
      op_log_map = log_old_single p (old_or_empty (ptr_data s.cache)) s.op_log_map;
    },
  )

  -- SetData
  unfoldable pub simple_set_data : V → SimpleSession V D → Outcome Bool × SimpleSession V D
  simple_set_data v s =
      let (r, c') = get_data_ptr s.cache in simple_set_found v r (record s { cache = c' })

  unfoldable pub simple_erase_found :
      Lookup V → SimpleSession V D → Outcome Bool × SimpleSession V D
  simple_erase_found (found old) s = (
    ok true,
    if vo.is_empty old then s else record {
      cache = with_data (some (vo.set_empty old)) s.cache;
      op_log_map = log_old_single p old s.op_log_map;
    },
  )
  simple_erase_found absent s = (ok true, s)
  simple_erase_found (failed e) s = (throws e, s)

  -- EraseData
  unfoldable pub simple_erase_data : SimpleSession V D → Outcome Bool × SimpleSession V D
  simple_erase_data s =
      let (r, c') = get_data_ptr s.cache in simple_erase_found r (record s { cache = c' })

  -- Flush; a database that cannot be written throws before `ptrData` is reset
  unfoldable pub simple_flush : SimpleCache V D → Outcome (SimpleCache V D)
  simple_flush (simple_detached o) = throws assertion_failed
  simple_flush (simple_on_db none d) = ok (simple_on_db none d)
  simple_flush (simple_on_db (some v) d) =
      let (out, d') = write_single p v d in
      elim out [ ok _ ↦ ok (simple_on_db none d') | throws e ↦ throws e ]
  simple_flush (simple_on_base none c) = ok (simple_on_base none c)
  simple_flush (simple_on_base (some v) c) = ok (simple_on_base none (with_data (some v) c))

module _ {V D : Type 0} ⦃vc : Codec V⦄ where
  -- UndoData
  unfoldable pub simple_undo_data : DbOpLog → SimpleCache V D → Outcome (SimpleCache V D)
  simple_undo_data log c = elim (get_log_value {V = V} log) [
    | none ↦ throws stream_failure
    | some v ↦ ok (with_data (some v) c)
  ]

  -- UndoDataList: the last log is undone first
  unfoldable pub simple_undo_data_list : DbOpLogs → SimpleCache V D → Outcome (SimpleCache V D)
  simple_undo_data_list [] c = ok c
  simple_undo_data_list (log ∷ logs) c = elim (simple_undo_data_list logs c) [
    | ok c' ↦ simple_undo_data log c'
    | throws e ↦ throws e
  ]
