-- ===== src/OpLog.antt =====
-- `CDbOpLog` and `CDBOpLogMap` of persistence/leveldbwrapper.h: the old values that an undo restores.
pub mod Laws
use inery_persistent_memory.Base.{
  ◌≡◌, Bool, Option, none, some, List, [], ◌∷◌, ◌++◌, Bytes, bytes_lt, bytes_eq, bytes_lt_irrefl,
  bytes_lt_trans, bytes_lt_connected,
}
use inery_persistent_memory.StdMap.{KeyOps, find, insert, assign}
use inery_persistent_memory.Serialize.{Codec}
use inery_persistent_memory.DbConf.Prefix.{PrefixType, prefix_names}

-- `std::string` as a key.
instance abbrev pub bytes_key : KeyOps Bytes
bytes_key = record {
  lt = bytes_lt;
  is_empty = λ b. bytes_eq b [];
  lt_irrefl = bytes_lt_irrefl;
  lt_trans = bytes_lt_trans;
  lt_connected = bytes_lt_connected;
}

pub record DbOpLog : Type 0 where
  pub key : Bytes
  pub value : Bytes

-- CDbOpLogs
abbrev pub DbOpLogs : Type 0
DbOpLogs = List DbOpLog

module _ {K V : Type 0} ⦃kc : Codec K⦄ ⦃vc : Codec V⦄ where
  -- CDbOpLog::Set of a key and a value, on a fresh log
  unfoldable pub set_log : K → V → DbOpLog
  set_log k v = record { key = kc.encode k; value = vc.encode v }

  -- CDbOpLog::Get of a key and a value; `none` is an exception of the stream
  unfoldable pub get_log : DbOpLog → Option (K × V)
  get_log log = elim (kc.decode log.key) [
    | none ↦ none
    | some k ↦ elim (vc.decode log.value) [ none ↦ none | some v ↦ some (k, v) ]
  ]

module _ {V : Type 0} ⦃vc : Codec V⦄ where
  -- CDbOpLog::Set and ::Get of a single value
  unfoldable pub set_log_value : V → DbOpLog
  set_log_value v = record { key = []; value = vc.encode v }

  unfoldable pub get_log_value : DbOpLog → Option V
  get_log_value log = vc.decode log.value

-- CDBOpLogMap: from the text of a prefix to its logs
abbrev pub OpLogMap : Type 0
OpLogMap = List (Bytes × DbOpLogs)

-- CDBOpLogMap::GetDbOpLogsPtr
unfoldable pub get_db_op_logs : PrefixType → OpLogMap → Option DbOpLogs
get_db_op_logs p m = find (prefix_names p) m

-- CDBOpLogMap::AddOpLog
unfoldable pub add_op_log : PrefixType → DbOpLog → OpLogMap → OpLogMap
add_op_log p log m = elim (find (prefix_names p) m) [
  | none ↦ insert (prefix_names p) (log ∷ []) m
  | some logs ↦ assign (prefix_names p) (logs ++ log ∷ []) m
]
