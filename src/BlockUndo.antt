-- ===== src/BlockUndo.antt =====
-- persistence/blockundo.h and .cpp: the undo logs of the transactions of a block, and the executor
-- that undoes a block with the functions that the caches have registered.
pub mod Restores
pub mod Results
pub mod Transactions
use inery_persistent_memory.Base.{
  ℕ, Bool, true, false, Option, none, some, List, [], ◌∷◌, ◌++◌, ◌==◌, if◌then◌else◌, Bytes,
}
use inery_persistent_memory.DbConf.Prefix.{PrefixType, empty, index}
use inery_persistent_memory.DbConf.Keys.{parse_key_prefix_type}
use inery_persistent_memory.LevelDb.Wrapper.{Outcome, ok, throws}
use inery_persistent_memory.OpLog.{DbOpLogs, OpLogMap}

-- IneryTxUndo
pub record TxUndo : Type 0 where
  pub txid : Bytes
  pub db_op_log_map : OpLogMap

-- IneryTxUndo::Clear
abbrev pub clear_tx_undo : TxUndo
clear_tx_undo = record { txid = []; db_op_log_map = [] }

-- `IneryTxUndoOpLogger`: its constructor gives the caches an empty log map to write to, and its
-- destructor appends what they wrote.
abbrev pub new_tx_undo : Bytes → TxUndo
new_tx_undo txid = record { txid = txid; db_op_log_map = [] }

unfoldable pub push_tx_undo : TxUndo → List TxUndo → List TxUndo
push_tx_undo tx vtxundo = vtxundo ++ tx ∷ []

-- UndoDataFuncMap
abbrev pub UndoDataFuncMap : Type 0 → Type 0
UndoDataFuncMap S = List (PrefixType × (DbOpLogs → S → Outcome S))

unfoldable pub find_func :
    {S : Type 0} → PrefixType → UndoDataFuncMap S → Option (DbOpLogs → S → Outcome S)
find_func p [] = none
find_func p ((q, f) ∷ funcs) = if index p == index q then some f else find_func p funcs

module _ {S : Type 0} (undo_data_func_map : UndoDataFuncMap S) where
  -- The inner loop of `IneryBlockUndoExecutor::Execute`: the result and the state it leaves.
  unfoldable pub execute_logs : OpLogMap → S → Outcome (Bool × S)
  execute_logs [] s = ok (true, s)
  execute_logs ((name, logs) ∷ m) s =
      if index (parse_key_prefix_type name) == index empty
      then ok (false, s)
      else (elim (find_func (parse_key_prefix_type name) undo_data_func_map) [
        | none ↦ ok (false, s)
        | some f ↦ elim (f logs s) [ throws e ↦ throws e | ok s' ↦ execute_logs m s' ]
      ])

  -- IneryBlockUndoExecutor::Execute: the last transaction is undone first
  unfoldable pub execute : List TxUndo → S → Outcome (Bool × S)
  execute [] s = ok (true, s)
  execute (tx ∷ txs) s = elim (execute txs s) [
    | throws e ↦ throws e
    | ok done ↦ if done.0 then execute_logs tx.db_op_log_map done.1 else ok (false, done.1)
  ]
