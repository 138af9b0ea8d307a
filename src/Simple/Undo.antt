-- ===== src/Simple/Undo.antt =====
-- `UndoData` and `UndoDataList` of `InerySimpleKVCache`, after the calls that wrote the logs.
use inery_persistent_memory.Base.{◌≡◌, refl, ap, sym, ◌∙◌, Bool, none, some, List, [], ◌∷◌, ◌++◌}
use inery_persistent_memory.Serialize.{Codec, ValueOps}
use inery_persistent_memory.DbConf.Prefix.{PrefixType}
use inery_persistent_memory.LevelDb.{LevelDb}
use inery_persistent_memory.LevelDb.Wrapper.{Outcome, ok}
use inery_persistent_memory.OpLog.{
  DbOpLog, DbOpLogs, OpLogMap, set_log_value, get_db_op_logs, add_op_log,
}
use inery_persistent_memory.OpLog.Laws.{logs_of, get_log_value-set_log_value}
use inery_persistent_memory.Composite.{visible}
use inery_persistent_memory.Composite.Undo.{logs-add_op_log}
use inery_persistent_memory.Simple.{
  SimpleCache, SimpleSession, with_data, log_old_single, simple_get_data, simple_set_data,
  simple_erase_data, simple_undo_data, simple_undo_data_list,
}
use inery_persistent_memory.Simple.View.{simple_view, peek-with_data}
use inery_persistent_memory.Simple.Reads.{simple_get_data_lem}
use inery_persistent_memory.Simple.Writes.{
  SimpleWrote, SimpleQuiet, SimpleEffect, simple_wrote, simple_quiet, simple_set_data-Effect,
  simple_erase_data-Effect,
}

-- A call of a client.
pub data SimpleCall (V : Type 0) : Type 0 where
  get : SimpleCall V
  set : V → SimpleCall V
  erase : SimpleCall V

module _ {V D : Type 0} ⦃vc : Codec V⦄ where
  -- the last log, then the others
  undo_list-append :
      (logs : DbOpLogs) (log : DbOpLog) (c c' : SimpleCache V D)
      → simple_undo_data log c ≡ ok c'
      → simple_undo_data_list (logs ++ log ∷ []) c ≡ simple_undo_data_list logs c'
  unfolding simple_undo_data_list
  undo_list-append [] log c c' h = h
  undo_list-append (x ∷ logs) log c c' h =
      rw (undo_list-append logs log c c' h, simple_undo_data_list)

module _ {V D : Type 0} ⦃vo : ValueOps V⦄ ⦃vc : Codec V⦄ ⦃ldb : LevelDb D⦄ (p : PrefixType) where
  unfoldable pub run_simple : List (SimpleCall V) → SimpleSession V D → SimpleSession V D
  run_simple [] s = s
  run_simple (get ∷ calls) s = run_simple calls (record s { cache = (simple_get_data p s.cache).1 })
  run_simple (set v ∷ calls) s = run_simple calls (simple_set_data p v s).1
  run_simple (erase ∷ calls) s = run_simple calls (simple_erase_data p s).1

  abbrev pub SameValue : SimpleCache V D → SimpleCache V D → Type 0
  SameValue c c' = simple_view p c' ≡ simple_view p c

  -- Undoing the logs, from whatever cache that shows what `c` shows, shows what `c₀` shows.
  record SimpleTracked (c₀ : SimpleCache V D) (s : SimpleSession V D) : Type 0 where
    op_logs : OpLogMap
    logging : s.op_log_map ≡ some op_logs
    undoes :
        (d : SimpleCache V D)
        → SameValue s.cache d
        → (e : SimpleCache V D) × (simple_undo_data_list (logs_of (get_db_op_logs p op_logs)) d
            ≡ ok e)
          × SameValue c₀ e

  SimpleTracked-Wrote :
      (old v : V) (c₀ : SimpleCache V D) (s s' : SimpleSession V D)
      → SimpleWrote p old v s s'
      → SimpleTracked c₀ s
      → SimpleTracked c₀ s'
  unfolding log_old_single simple_undo_data simple_view
  SimpleTracked-Wrote old v c₀ s s' w t = record {
    op_logs = add_op_log p (set_log_value old) t.op_logs;
    logging = w.logged ∙ ap (log_old_single p old) t.logging;
    undoes = λ d same.
        let (e, rest, shown) =
          t.undoes (with_data (some old) d)
            (ap visible (peek-with_data p (some old) d) ∙ sym w.before) in
        (
          e,
          ap (λ logs. simple_undo_data_list logs d)
                (logs-add_op_log p (set_log_value old) t.op_logs)
              ∙ undo_list-append (logs_of (get_db_op_logs p t.op_logs)) (set_log_value old) d
                  (with_data (some old) d)
                  (rw (get_log_value-set_log_value old, simple_undo_data) refl)
              ∙ rest,
          shown,
        );
  }

  SimpleTracked-Quiet :
      (c₀ : SimpleCache V D) (s s' : SimpleSession V D)
      → SimpleQuiet p s s'
      → SimpleTracked c₀ s
      → SimpleTracked c₀ s'
  SimpleTracked-Quiet c₀ s s' q t = record {
    op_logs = t.op_logs;
    logging = q.silent ∙ t.logging;
    undoes = λ d same. t.undoes d (same ∙ q.shown);
  }

  SimpleTracked-Effect :
      (c₀ : SimpleCache V D) {s s' : SimpleSession V D} {out : Outcome Bool}
      → SimpleEffect p s s' out
      → SimpleTracked c₀ s
      → SimpleTracked c₀ s'
  SimpleTracked-Effect c₀ {s} {s'} (simple_wrote old v w) t = SimpleTracked-Wrote old v c₀ s s' w t
  SimpleTracked-Effect c₀ {s} {s'} (simple_quiet _ q) t = SimpleTracked-Quiet c₀ s s' q t

  run_simple-SimpleTracked :
      (calls : List (SimpleCall V)) (c₀ : SimpleCache V D) (s : SimpleSession V D)
      → SimpleTracked c₀ s
      → SimpleTracked c₀ (run_simple calls s)
  unfolding run_simple
  run_simple-SimpleTracked [] c₀ s t = t
  run_simple-SimpleTracked (get ∷ calls) c₀ s t = run_simple-SimpleTracked calls c₀ _ (
      let g = simple_get_data_lem p s.cache in
      SimpleTracked-Quiet c₀ s _ (record { shown = g.2; lowers = g.3; silent = refl }) t)
  run_simple-SimpleTracked (set v ∷ calls) c₀ s t =
      run_simple-SimpleTracked calls c₀ _ (SimpleTracked-Effect c₀ (simple_set_data-Effect p v s) t)
  run_simple-SimpleTracked (erase ∷ calls) c₀ s t =
      run_simple-SimpleTracked calls c₀ _ (SimpleTracked-Effect c₀ (simple_erase_data-Effect p s) t)

  -- Any calls made on a simple cache while logging into a map with no logs of its prefix leave logs
  -- whose undo succeeds and restores what the cache showed before the calls.
  pub simple_undo_restores :
      (calls : List (SimpleCall V)) (s : SimpleSession V D) (m : OpLogMap)
      → s.op_log_map ≡ some m
      → get_db_op_logs p m ≡ none
      → (m' : OpLogMap) × ((run_simple calls s).op_log_map ≡ some m')
        × (e : SimpleCache V D) × (simple_undo_data_list
              (logs_of (get_db_op_logs p m'))
              (run_simple calls s).cache
            ≡ ok e)
        × SameValue s.cache e
  unfolding simple_undo_data_list
  simple_undo_restores calls s m h n =
      let t =
        run_simple-SimpleTracked calls s.cache s
          (record { op_logs = m; logging = h; undoes = λ d same. (d, rw n refl, same) }) in
      let (e, undone, shown) = t.undoes (run_simple calls s).cache refl in
      (t.op_logs, t.logging, e, undone, shown)
