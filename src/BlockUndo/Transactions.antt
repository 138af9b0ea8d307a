-- ===== src/BlockUndo/Transactions.antt =====
-- A block whose transactions call one cache: `IneryTxUndoOpLogger` around each transaction, and
-- `RegisterUndoFunc` of the cache for the executor.
use inery_persistent_memory.Base.{
  ◌≡◌, refl, ap, sym, ◌∙◌, subst, Bool, true, none, some, List, [], ◌∷◌, ◌++◌, ◌==◌, arith, Bytes,
}
use mathlib.Core.Option.{some-injective}
use inery_persistent_memory.StdMap.{KeyOps, find, insert, assign, same}
use inery_persistent_memory.StdMap.Find.{same_refl}
use inery_persistent_memory.Serialize.{Codec, ValueOps}
use inery_persistent_memory.DbConf.Prefix.{PrefixType, prefix_names, index}
use inery_persistent_memory.DbConf.Keys.{is_key_prefix, index-injective}
use inery_persistent_memory.LevelDb.{LevelDb}
use inery_persistent_memory.LevelDb.Wrapper.{Outcome, ok, throws}
use inery_persistent_memory.OpLog.{
  DbOpLog, DbOpLogs, OpLogMap, get_db_op_logs, add_op_log, bytes_key,
}
use inery_persistent_memory.OpLog.Laws.{logs_of}
use inery_persistent_memory.Composite.{Cache, Session, log_old_value}
use inery_persistent_memory.Composite.Writes.{
  Effect, wrote, quiet, set_data-Effect, erase_data-Effect,
}
use inery_persistent_memory.Composite.Undo.{
  Call, get, set, erase, run, undo_data_list, SameView, Tracked-start, run-Tracked,
}
use inery_persistent_memory.BlockUndo.{
  TxUndo, new_tx_undo, push_tx_undo, UndoDataFuncMap, find_func, execute,
}
use inery_persistent_memory.BlockUndo.Restores.{UndoStore, LogsOf, History, execute_restores}

abbrev from_ok : {A : Type 0} → A → Outcome A → A
from_ok a (ok b) = b
from_ok a (throws e) = a

index_refl : (p : PrefixType) → (index p == index p) ≡ true
index_refl p = ground arith

-- the log map of a transaction that calls one cache
data Only (p : PrefixType) : OpLogMap → Type 0 where
  no_logs : Only p []
  own_logs : (logs : DbOpLogs) → Only p ((prefix_names p, logs) ∷ [])

own_found :
    (p : PrefixType) (logs : DbOpLogs) → get_db_op_logs p ((prefix_names p, logs) ∷ []) ≡ some logs
unfolding get_db_op_logs find
own_found p logs = rw (same_refl (prefix_names p))

add_op_log-Only :
    (p : PrefixType) (log : DbOpLog) (m : OpLogMap) → Only p m → Only p (add_op_log p log m)
unfolding add_op_log find insert assign get_db_op_logs
add_op_log-Only p log _ no_logs = own_logs (log ∷ [])
add_op_log-Only p log _ (own_logs logs) =
    rw (own_found p logs, add_op_log)
      (rw (same_refl (prefix_names p), assign) (own_logs (logs ++ log ∷ [])))

module _ {K V D : Type 0} ⦃ko : KeyOps K⦄ ⦃vo : ValueOps V⦄ ⦃kc : Codec K⦄ ⦃vc : Codec V⦄
    ⦃ldb : LevelDb D⦄ (p : PrefixType) where
  -- RegisterUndoFunc, into an empty map
  unfoldable pub register_undo_func : UndoDataFuncMap (Cache K V D)
  register_undo_func = (p, undo_data_list) ∷ []

  -- The transactions of a block, each with its id and its calls: the undo logs of the block so far,
  -- and the cache.
  unfoldable pub run_transactions :
      List (Bytes × List (Call K V)) → List TxUndo → Cache K V D → List TxUndo × Cache K V D
  run_transactions [] vtxundo c = (vtxundo, c)
  run_transactions ((txid, calls) ∷ txs) vtxundo c =
      let s =
        run p calls (record { cache = c; op_log_map = some (new_tx_undo txid).db_op_log_map }) in
      elim s.op_log_map [
        | none ↦ run_transactions txs vtxundo s.cache
        | some m ↦
            run_transactions txs (push_tx_undo (record { txid = txid; db_op_log_map = m }) vtxundo)
              s.cache
      ]

  pub register-find :
      (r : PrefixType) (f : DbOpLogs → Cache K V D → Outcome (Cache K V D))
      → find_func r register_undo_func ≡ some f
      → index r ≡ index p
  unfolding find_func register_undo_func
  register-find r f h = ground arith

  unfoldable pub cache_store : UndoStore (Cache K V D)
  cache_store = record {
    funcs = register_undo_func;
    Same = λ q a b. q ≡ p → SameView p a b;
    same_trans = λ q a b c h k e j. k e j ∙ h e j;
    others = λ r q f logs s s' found h n e.
        absurd (n (index-injective r p (register-find r f found) ∙ sym e));
  }

  OnlyLogs : Session K V D → Type 0
  OnlyLogs s = (m : OpLogMap) × (s.op_log_map ≡ some m) × Only p m

  Effect-OnlyLogs :
      {s s' : Session K V D} {out : Outcome Bool} → Effect p s s' out → OnlyLogs s → OnlyLogs s'
  unfolding OnlyLogs log_old_value
  Effect-OnlyLogs (wrote k old v _ w) (m, e, o) =
      (_, w.logged ∙ ap (log_old_value p k old) e, add_op_log-Only p _ m o)
  Effect-OnlyLogs (quiet q) (m, e, o) = (m, q.silent ∙ e, o)

  run-OnlyLogs :
      (calls : List (Call K V)) (s : Session K V D) → OnlyLogs s → OnlyLogs (run p calls s)
  unfolding run
  run-OnlyLogs [] s o = o
  run-OnlyLogs (get k ∷ calls) s o = run-OnlyLogs calls _ (unfold OnlyLogs in o)
  run-OnlyLogs (set k v ∷ calls) s o =
      run-OnlyLogs calls _ (Effect-OnlyLogs (set_data-Effect p k v s) o)
  run-OnlyLogs (erase k ∷ calls) s o =
      run-OnlyLogs calls _ (Effect-OnlyLogs (erase_data-Effect p k s) o)

  -- the log map of a transaction, as the executor needs it
  Only-LogsOf :
      is_key_prefix p ≡ true
      → (c after : Cache K V D) (m : OpLogMap) → Only p m
      → ((d : Cache K V D)
          → SameView p after d
          → (e : Cache K V D) × (undo_data_list (logs_of (get_db_op_logs p m)) d ≡ ok e)
            × SameView p c e)
      → LogsOf cache_store c after m
  unfolding cache_store undo_data_list register_undo_func find_func get_db_op_logs find
  Only-LogsOf hp c after _ no_logs u = record {
    in_order = tt;
    logged = tt;
    unlogged = λ q hq n e.
        let (x, run, shown) = u after (λ j. refl) in
        let landed : ok after ≡ ok x = run in
        subst (λ y. SameView p c y) (sym (ap (from_ok after) landed)) shown;
  }
  Only-LogsOf hp c after _ (own_logs logs) u = record {
    in_order = (tt, tt);
    logged = (
      record {
        prefix = p;
        named = refl;
        is_key = hp;
        func = undo_data_list;
        registered = rw (index_refl p) refl;
        undoes = λ d same.
            let (e, run, shown) = u d (same refl) in
            (e, ap (λ l. undo_data_list (logs_of l) d) (sym (own_found p logs)) ∙ run, λ z. shown);
      },
      tt,
    );
    unlogged = λ q hq n e.
        let z : get_db_op_logs q ((prefix_names p, logs) ∷ []) ≡ some logs =
          rw e (own_found p logs) in
        cc;
  }

  -- one more transaction at the end of the block
  History-append :
      (a b c : Cache K V D) (txs : List TxUndo) (tx : TxUndo)
      → History cache_store a txs b
      → LogsOf cache_store b c tx.db_op_log_map
      → History cache_store a (push_tx_undo tx txs) c
  unfolding push_tx_undo
  History-append a b c [] tx h l =
      (c, subst (λ x. LogsOf cache_store x c tx.db_op_log_map) (sym h) l, refl)
  History-append a b c (x ∷ txs) tx (s, l', h) l = (s, l', History-append s b c txs tx h l)

  pub run_transactions-History :
      is_key_prefix p ≡ true
      → (txs : List (Bytes × List (Call K V))) (vtxundo : List TxUndo) (a c : Cache K V D)
      → History cache_store a vtxundo c
      → History cache_store a (run_transactions txs vtxundo c).0 (run_transactions txs vtxundo c).1
  unfolding run_transactions OnlyLogs
  run_transactions-History hp [] vtxundo a c h = h
  run_transactions-History hp ((txid, calls) ∷ txs) vtxundo a c h =
      let start : Session K V D = record { cache = c; op_log_map = some [] } in
      let t =
        run-Tracked p calls c start
          (Tracked-start p start [] refl (unfold get_db_op_logs find in refl)) in
      let (m, e, o) = run-OnlyLogs calls start ([], refl, no_logs) in
      let own : Only p t.op_logs =
        subst (Only p) (some-injective m t.op_logs (sym e ∙ t.logging)) o in
      let logs = Only-LogsOf hp c (run p calls start).cache t.op_logs own t.undoes.at in
      let tx : TxUndo = record { txid = txid; db_op_log_map = t.op_logs } in
      rw (t.logging, run_transactions)
        (run_transactions-History hp txs (push_tx_undo tx vtxundo) a (run p calls start).cache
          (History-append a c (run p calls start).cache vtxundo tx h logs))

  -- Run the transactions of a block, each with any calls on a cache, through `IneryTxUndoOpLogger`:
  -- the execution of the block's undo returns true, and leaves the cache showing at every key what it
  -- showed before the block.
  pub undo_block_restores :
      (txs : List (Bytes × List (Call K V))) (c : Cache K V D)
      → is_key_prefix p ≡ true
      → (e : Cache K V D) × (execute register_undo_func
            (run_transactions txs [] c).0
            (run_transactions txs [] c).1
          ≡ ok (true, e))
        × SameView p c e
  unfolding cache_store
  undo_block_restores txs c hp =
      let (e, run, same) =
        execute_restores cache_store c (run_transactions txs [] c).0 (run_transactions txs [] c).1
          (run_transactions txs [] c).1 (run_transactions-History hp txs [] c c refl)
          (λ q hq z j. refl) in
      (e, run, same p hp refl)
