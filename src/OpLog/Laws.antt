-- ===== src/OpLog/Laws.antt =====
-- The round trip of one log, and the logs of a prefix after `AddOpLog`.
use inery_persistent_memory.Base.{
  ◌≡◌, Option, none, some, [], ◌∷◌, ◌++◌, if◌then◌else◌, arith, inl, inr, Option-cases,
}
use inery_persistent_memory.StdMap.{find, same}
use inery_persistent_memory.StdMap.Find.{find-insert, find-assign}
use inery_persistent_memory.Serialize.{Codec}
use inery_persistent_memory.DbConf.Prefix.{PrefixType, prefix_names}
use inery_persistent_memory.OpLog.{
  DbOpLog, DbOpLogs, OpLogMap, set_log, get_log, set_log_value, get_log_value, get_db_op_logs,
  add_op_log, bytes_key,
}

module _ {K V : Type 0} ⦃kc : Codec K⦄ ⦃vc : Codec V⦄ where
  pub get_log-set_log : (k : K) (v : V) → get_log (set_log k v) ≡ some (k, v)
  unfolding get_log set_log
  get_log-set_log k v = ground (arith, kc.decode-encode k, vc.decode-encode v)

pub get_log_value-set_log_value :
    {V : Type 0} ⦃vc : Codec V⦄ (v : V) → get_log_value (set_log_value v) ≡ some v
unfolding get_log_value set_log_value
get_log_value-set_log_value ⦃vc⦄ v = vc.decode-encode v

-- the logs of a prefix, none being the empty list
abbrev pub logs_of : Option DbOpLogs → DbOpLogs
logs_of none = []
logs_of (some logs) = logs

-- `AddOpLog` appends to the logs of the prefix and leaves the others.
pub get_db_op_logs-add_op_log :
    (p q : PrefixType) (log : DbOpLog) (m : OpLogMap)
    → get_db_op_logs q (add_op_log p log m) ≡ (
        if same (prefix_names q) (prefix_names p)
        then some (logs_of (get_db_op_logs p m) ++ log ∷ [])
        else get_db_op_logs q m)
unfolding get_db_op_logs add_op_log
get_db_op_logs-add_op_log p q log m = elim (Option-cases (find (prefix_names p) m)) [
  | inl e ↦ rw (e, add_op_log) (find-insert (prefix_names p) (prefix_names q) (log ∷ []) m e)
  | inr (logs, e) ↦
      rw (e, add_op_log) (find-assign (prefix_names p) (prefix_names q) (logs ++ log ∷ []) logs m e)
]
