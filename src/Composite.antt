-- ===== src/Composite.antt =====
-- `IneryCompositeKVCache` of persistence/dbaccess.h: a write-back cache of a map, over another
-- cache (`pBase`) or over a database (`pDbAccess`). The proofs are in the modules below.
pub mod View
pub mod Reads
pub mod Puts
pub mod Writes
pub mod Contract
pub mod Undo
pub mod Flush
pub mod WellFormed
pub mod Size
use inery_persistent_memory.Base.{
  ℕ, ◌+◌, ◌-◌, ◌%◌, Bool, true, false, Option, none, some, List, [], ◌∷◌, reverse, if◌then◌else◌,
  ltb, u32_mod,
}
use inery_persistent_memory.StdMap.{KeyOps, find, emplace, assign}
use inery_persistent_memory.Serialize.{Codec, ValueOps, make_empty_value}
use inery_persistent_memory.DbConf.Prefix.{PrefixType}
use inery_persistent_memory.DbConf.Keys.{gen_db_key}
use inery_persistent_memory.LevelDb.{LevelDb, BatchOp}
use inery_persistent_memory.LevelDb.Wrapper.{
  Outcome, ok, throws, Lookup, found, absent, failed, DbError, alloc_failed, stream_failure,
  write_batch, batch_write, batch_erase,
}
use inery_persistent_memory.LevelDb.Access.{get_data}
use inery_persistent_memory.OpLog.{DbOpLog, DbOpLogs, OpLogMap, set_log, get_log, add_op_log}

-- The fields of one cache object but its pointers: mapData, is_calc_size, size.
pub record Layer (K V : Type 0) : Type 0 where
  pub map_data : List (K × V)
  pub is_calc_size : Bool
  pub size : ℕ

-- A cache object with what its pointers lead to: nothing (before `SetBase`), a database, a base.
pub data Cache (K V D : Type 0) : Type 0 where
  detached : Layer K V → Cache K V D
  on_db : Layer K V → D → Cache K V D
  on_base : Layer K V → Cache K V D → Cache K V D

-- A cache, and the op logs that its `pDbOpLogMap` leads to; `none` is the null pointer.
pub record Session (K V D : Type 0) : Type 0 where
  pub cache : Cache K V D
  pub op_log_map : Option OpLogMap

abbrev pub new_layer : {K V : Type 0} → Bool → Layer K V
new_layer calc = record { map_data = []; is_calc_size = calc; size = 0 }

module _ {K V D : Type 0} where
  -- the object's own fields
  abbrev pub top : Cache K V D → Layer K V
  top (detached l) = l
  top (on_db l d) = l
  top (on_base l c) = l

  abbrev pub with_top : Layer K V → Cache K V D → Cache K V D
  with_top l (detached _) = detached l
  with_top l (on_db _ d) = on_db l d
  with_top l (on_base _ c) = on_base l c

  -- the constructors
  abbrev pub new_on_db : D → Cache K V D
  new_on_db d = on_db (new_layer true) d

  abbrev pub new_on_base : Cache K V D → Cache K V D
  new_on_base c = on_base (new_layer false) c

-- CalcDataSize
abbrev pub calc_data_size : {A : Type 0} ⦃ac : Codec A⦄ → A → ℕ
calc_data_size ⦃ac⦄ a = ac.serialize_size a % u32_mod

module _ {K V : Type 0} ⦃kc : Codec K⦄ ⦃vc : Codec V⦄ where
  -- IncDataSize of an entry, IncDataSize of a value, DecDataSize, UpdateDataSize
  unfoldable pub inc_entry_size : K → V → Layer K V → Layer K V
  inc_entry_size k v l =
      if l.is_calc_size
      then record l { size = ((l.size + calc_data_size k) % u32_mod + calc_data_size v) % u32_mod }
      else l

module _ {K V : Type 0} ⦃vc : Codec V⦄ where
  unfoldable pub inc_value_size : V → Layer K V → Layer K V
  inc_value_size v l =
      if l.is_calc_size then record l { size = (l.size + calc_data_size v) % u32_mod } else l

  unfoldable pub dec_data_size : V → Layer K V → Layer K V
  dec_data_size v l =
      if l.is_calc_size
      then record l {
        size = if ltb (calc_data_size v) l.size then l.size - calc_data_size v else 0;
      }
      else l

  unfoldable pub update_data_size : V → V → Layer K V → Layer K V
  update_data_size old new l =
      if l.is_calc_size
      then (let grown = (l.size + calc_data_size new) % u32_mod in
          record l {
            size = if ltb (calc_data_size old) grown then grown - calc_data_size old else 0;
          })
      else l

module _ {K V : Type 0} ⦃ko : KeyOps K⦄ ⦃kc : Codec K⦄ ⦃vc : Codec V⦄ where
  -- `*it->second = value`, for the entry of the key
  unfoldable pub assign_value : K → V → Layer K V → Layer K V
  assign_value k v l = record l { map_data = assign k v l.map_data }

  -- AddDataToMap; it throws if the key is in the map
  unfoldable pub add_data_to_map : K → V → Layer K V → Outcome (Layer K V)
  add_data_to_map k v l =
      let (m, inserted) = emplace k v l.map_data in
      if inserted then ok (inc_entry_size k v (record l { map_data = m })) else throws alloc_failed

  -- SetDataToSelf
  unfoldable pub set_data_to_self : K → V → Layer K V → Outcome (Layer K V)
  set_data_to_self k v l = elim (find k l.map_data) [
    | some old ↦ ok (assign_value k v (update_data_size old v l))
    | none ↦ add_data_to_map k v l
  ]

module _ {K V D : Type 0} ⦃ko : KeyOps K⦄ ⦃kc : Codec K⦄ ⦃vc : Codec V⦄ where
  -- `return AddDataToMap(key, value)`: the found value, and the cache that holds it now
  unfoldable pub keep_found : K → V → Cache K V D → Lookup V × Cache K V D
  keep_found k v c = elim (add_data_to_map k v (top c)) [
    | ok l ↦ (found v, with_top l c)
    | throws e ↦ (failed e, c)
  ]

  -- what a search of the layers below gives is kept in this one
  unfoldable pub keep : K → Lookup V → Cache K V D → Lookup V × Cache K V D
  keep k (found v) c = keep_found k v c
  keep k absent c = (absent, c)
  keep k (failed e) c = (failed e, c)

module _ {K V D : Type 0} ⦃ko : KeyOps K⦄ ⦃kc : Codec K⦄ ⦃vc : Codec V⦄ ⦃ldb : LevelDb D⦄
    (p : PrefixType) where
  -- GetDataIt: the value at the iterator, or `absent` for the end of the map
  unfoldable pub get_data_it : K → Cache K V D → Lookup V × Cache K V D
  get_data_it k (detached l) = elim (find k l.map_data) [
    | some v ↦ (found v, detached l)
    | none ↦ (absent, detached l)
  ]
  get_data_it k (on_db l d) = elim (find k l.map_data) [
    | some v ↦ (found v, on_db l d)
    | none ↦ keep k (get_data p k d) (on_db l d)
  ]
  get_data_it k (on_base l c) =
      let (r, c') = get_data_it k c in
      elim (find k l.map_data) [ some v ↦ (found v, on_base l c) | none ↦ keep k r (on_base l c') ]

-- a value that is empty counts as none
abbrev pub visible : {V : Type 0} ⦃vo : ValueOps V⦄ → Lookup V → Lookup V
visible ⦃vo⦄ (found v) = if vo.is_empty v then absent else found v
visible absent = absent
visible (failed e) = failed e

-- AddOpLog of the cache: the old value is logged, if a log map is set
unfoldable pub log_old_value :
    {K V : Type 0} ⦃kc : Codec K⦄ ⦃vc : Codec V⦄
    → PrefixType
    → K
    → V
    → Option OpLogMap
    → Option OpLogMap
log_old_value p k old none = none
log_old_value p k old (some m) = some (add_op_log p (set_log k old) m)

module _ {K V : Type 0} ⦃ko : KeyOps K⦄ ⦃vo : ValueOps V⦄ ⦃kc : Codec K⦄ ⦃vc : Codec V⦄ where
  -- the branch of `EraseData` on a value that is not empty
  unfoldable pub erase_value : K → V → Layer K V → Layer K V
  erase_value k old l =
      inc_value_size (vo.set_empty old) (assign_value k (vo.set_empty old) (dec_data_size old l))

module _ {K V D : Type 0} ⦃ko : KeyOps K⦄ ⦃vo : ValueOps V⦄ ⦃kc : Codec K⦄ ⦃vc : Codec V⦄
    ⦃ldb : LevelDb D⦄ (p : PrefixType) where
  -- GetData: the value, `absent` for false, or an exception
  unfoldable pub cache_get_data : K → Cache K V D → Lookup V × Cache K V D
  cache_get_data k c =
      if ko.is_empty k then (absent, c) else (let (r, c') = get_data_it p k c in (visible r, c'))

  -- HasData
  unfoldable pub cache_has_data : K → Cache K V D → Outcome Bool × Cache K V D
  cache_has_data k c =
      let (r, c') = cache_get_data k c in
      (elim r [ found _ ↦ ok true | absent ↦ ok false | failed e ↦ throws e ], c')

  -- the two branches of `SetData`, after `GetDataIt`
  unfoldable pub set_found : K → V → Lookup V → Session K V D → Outcome Bool × Session K V D
  set_found k v absent s =
      let logged = log_old_value p k (make_empty_value {V = V}) s.op_log_map in
      elim (add_data_to_map k v (top s.cache)) [
        | ok l ↦ (ok true, record { cache = with_top l s.cache; op_log_map = logged })
        | throws e ↦ (throws e, record s { op_log_map = logged })
      ]
  set_found k v (found old) s = (
    ok true,
    record {
      cache = with_top (assign_value k v (update_data_size old v (top s.cache))) s.cache;
      op_log_map = log_old_value p k old s.op_log_map;
    },
  )
  set_found k v (failed e) s = (throws e, s)

  -- SetData
  unfoldable pub set_data : K → V → Session K V D → Outcome Bool × Session K V D
  set_data k v s =
      if ko.is_empty k
      then (ok false, s)
      else (let (r, c') = get_data_it p k s.cache in set_found k v r (record s { cache = c' }))

  unfoldable pub erase_found : K → Lookup V → Session K V D → Outcome Bool × Session K V D
  erase_found k (found old) s = (
    ok true,
    if vo.is_empty old then s else record {
      cache = with_top (erase_value k old (top s.cache)) s.cache;
      op_log_map = log_old_value p k old s.op_log_map;
    },
  )
  erase_found k absent s = (ok true, s)
  erase_found k (failed e) s = (throws e, s)

  -- EraseData
  unfoldable pub erase_data : K → Session K V D → Outcome Bool × Session K V D
  erase_data k s =
      if ko.is_empty k
      then (ok false, s)
      else (let (r, c') = get_data_it p k s.cache in erase_found k r (record s { cache = c' }))
