-- ===== src/Composite/Undo.antt =====
-- `UndoData` and `UndoDataList` of `IneryCompositeKVCache`, after the calls that wrote the logs.
use inery_persistent_memory.Base.{
  ◌≡◌, refl, ap, sym, ◌∙◌, Bool, Option, none, some, List, [], ◌∷◌, ◌++◌, Bool-cases, inl, inr,
}
use inery_persistent_memory.StdMap.{KeyOps, same}
use inery_persistent_memory.StdMap.Find.{same_refl, same→eq}
use inery_persistent_memory.Serialize.{Codec, ValueOps}
use inery_persistent_memory.DbConf.Prefix.{PrefixType, prefix_names}
use inery_persistent_memory.LevelDb.{LevelDb}
use inery_persistent_memory.LevelDb.Wrapper.{Outcome, ok, throws, stream_failure}
use inery_persistent_memory.OpLog.{
  DbOpLog, DbOpLogs, OpLogMap, set_log, get_log, get_db_op_logs, add_op_log,
}
use inery_persistent_memory.OpLog.Laws.{logs_of, get_log-set_log, get_db_op_logs-add_op_log}
use inery_persistent_memory.Composite.{
  Cache, Session, top, with_top, set_data_to_self, set_data, erase_data, visible, cache_get_data,
  log_old_value,
}
use inery_persistent_memory.Composite.View.{view}
use inery_persistent_memory.Composite.Reads.{Alike}
use inery_persistent_memory.Composite.Puts.{set_data_to_self-Puts, peek-Puts}
use inery_persistent_memory.Composite.Writes.{
  Wrote, Quiet, Effect, wrote, quiet, set_data-Effect, erase_data-Effect,
}
use inery_persistent_memory.Composite.Contract.{cache_get_data_lem}

-- A call of a client.
pub data Call (K V : Type 0) : Type 0 where
  get : K → Call K V
  set : K → V → Call K V
  erase : K → Call K V

module _ {K V D : Type 0} ⦃ko : KeyOps K⦄ ⦃kc : Codec K⦄ ⦃vc : Codec V⦄ where
  -- UndoData
  unfoldable pub undo_entry : Option (K × V) → Cache K V D → Outcome (Cache K V D)
  undo_entry none c = throws stream_failure
  undo_entry (some (k, v)) c = elim (set_data_to_self k v (top c)) [
    | ok l ↦ ok (with_top l c)
    | throws e ↦ throws e
  ]

  unfoldable pub undo_data : DbOpLog → Cache K V D → Outcome (Cache K V D)
  undo_data log c = undo_entry (get_log log) c

  -- UndoDataList: the last log is undone first
  unfoldable pub undo_data_list : DbOpLogs → Cache K V D → Outcome (Cache K V D)
  undo_data_list [] c = ok c
  undo_data_list (log ∷ logs) c = elim (undo_data_list logs c) [
    | ok c' ↦ undo_data log c'
    | throws e ↦ throws e
  ]

  -- the last log, then the others
  undo_data_list-append :
      (logs : DbOpLogs) (log : DbOpLog) (c c' : Cache K V D)
      → undo_data log c ≡ ok c'
      → undo_data_list (logs ++ log ∷ []) c ≡ undo_data_list logs c'
  unfolding undo_data_list
  undo_data_list-append [] log c c' h = h
  undo_data_list-append (x ∷ logs) log c c' h =
      rw (undo_data_list-append logs log c c' h, undo_data_list)

pub logs-add_op_log :
    (p : PrefixType) (log : DbOpLog) (m : OpLogMap)
    → logs_of (get_db_op_logs p (add_op_log p log m)) ≡ logs_of (get_db_op_logs p m) ++ log ∷ []
logs-add_op_log p log m = rw (get_db_op_logs-add_op_log p p log m) (rw (same_refl (prefix_names p)))

module _ {K V D : Type 0} ⦃ko : KeyOps K⦄ ⦃vo : ValueOps V⦄ ⦃kc : Codec K⦄ ⦃vc : Codec V⦄
    ⦃ldb : LevelDb D⦄ (p : PrefixType) where
  -- the calls of a transaction, one after the other
  unfoldable pub run : List (Call K V) → Session K V D → Session K V D
  run [] s = s
  run (get k ∷ calls) s = run calls (record s { cache = (cache_get_data p k s.cache).1 })
  run (set k v ∷ calls) s = run calls (set_data p k v s).1
  run (erase k ∷ calls) s = run calls (erase_data p k s).1

  abbrev pub SameView : Cache K V D → Cache K V D → Type 0
  SameView c c' = (j : K) → view p j c' ≡ view p j c

  -- Undoing the logs, from whatever cache that shows what `c` shows, shows what `c₀` shows.
  pub record Undoes (c₀ c : Cache K V D) (logs : DbOpLogs) : Type 0 where
    pub at :
        (d : Cache K V D)
        → SameView c d
        → (e : Cache K V D) × (undo_data_list logs d ≡ ok e) × SameView c₀ e

  -- undoing one write
  undo_data-Wrote :
      (k : K) (old v : V) (s s' : Session K V D) (d : Cache K V D)
      → Wrote p k old v s s'
      → SameView s'.cache d
      → (e : Cache K V D) × (undo_data (set_log k old) d ≡ ok e) × SameView s.cache e
  unfolding undo_data undo_entry view
  undo_data-Wrote k old v s s' d w same_view =
      let (l, e, q) = set_data_to_self-Puts k old (top d) in
      (
        with_top l d,
        rw (get_log-set_log k old) (rw (e, undo_entry)),
        λ j. ap visible (peek-Puts p k j old l d q) ∙ elim (Bool-cases (same j k)) [
          | inl h ↦ rw h (rw (same→eq j k h) (sym w.before))
          | inr h ↦ rw h (same_view j ∙ ap visible (w.peeks j) ∙ rw h)
        ],
      )

  Undoes-Wrote :
      (k : K) (old v : V) (c₀ : Cache K V D) (s s' : Session K V D) (logs : DbOpLogs)
      → Wrote p k old v s s'
      → Undoes c₀ s.cache logs
      → Undoes c₀ s'.cache (logs ++ set_log k old ∷ [])
  Undoes-Wrote k old v c₀ s s' logs w u = record {
    at = λ d same_view.
        let (e, undone, e_view) = undo_data-Wrote k old v s s' d w same_view in
        let (f, rest, f_view) = u.at e e_view in
        (f, undo_data_list-append logs (set_log k old) d e undone ∙ rest, f_view);
  }

  -- the state of a transaction: its logs undo what it did since `c₀`
  pub record Tracked (c₀ : Cache K V D) (s : Session K V D) : Type 0 where
    pub op_logs : OpLogMap
    pub logging : s.op_log_map ≡ some op_logs
    pub undoes : Undoes c₀ s.cache (logs_of (get_db_op_logs p op_logs))

  Alike-SameView : (c c' : Cache K V D) → Alike p c c' → SameView c c'
  unfolding view
  Alike-SameView c c' a j = ap visible (a.peeks j)

  Tracked-Quiet :
      (c₀ : Cache K V D) (s s' : Session K V D) → Quiet p s s' → Tracked c₀ s → Tracked c₀ s'
  Tracked-Quiet c₀ s s' q t = record {
    op_logs = t.op_logs;
    logging = q.silent ∙ t.logging;
    undoes = record {
      at = λ d same_view.
          t.undoes.at d (λ j. same_view j ∙ Alike-SameView s.cache s'.cache q.alike j);
    };
  }

  Tracked-Wrote :
      (k : K) (old v : V) (c₀ : Cache K V D) (s s' : Session K V D)
      → Wrote p k old v s s'
      → Tracked c₀ s
      → Tracked c₀ s'
  unfolding log_old_value
  Tracked-Wrote k old v c₀ s s' w t = record {
    op_logs = add_op_log p (set_log k old) t.op_logs;
    logging = w.logged ∙ ap (log_old_value p k old) t.logging;
    undoes =
        rw (logs-add_op_log p (set_log k old) t.op_logs)
          (Undoes-Wrote k old v c₀ s s' (logs_of (get_db_op_logs p t.op_logs)) w t.undoes);
  }

  Tracked-Effect :
      (c₀ : Cache K V D) {s s' : Session K V D} {out : Outcome Bool}
      → Effect p s s' out
      → Tracked c₀ s
      → Tracked c₀ s'
  Tracked-Effect c₀ {s} {s'} (wrote k old v _ w) t = Tracked-Wrote k old v c₀ s s' w t
  Tracked-Effect c₀ {s} {s'} (quiet q) t = Tracked-Quiet c₀ s s' q t

  pub run-Tracked :
      (calls : List (Call K V)) (c₀ : Cache K V D) (s : Session K V D)
      → Tracked c₀ s
      → Tracked c₀ (run calls s)
  unfolding run
  run-Tracked [] c₀ s t = t
  run-Tracked (get k ∷ calls) c₀ s t = run-Tracked calls c₀ _ (
      Tracked-Quiet c₀ s _ (record { alike = (cache_get_data_lem p k s.cache).1; silent = refl }) t)
  run-Tracked (set k v ∷ calls) c₀ s t =
      run-Tracked calls c₀ _ (Tracked-Effect c₀ (set_data-Effect p k v s) t)
  run-Tracked (erase k ∷ calls) c₀ s t =
      run-Tracked calls c₀ _ (Tracked-Effect c₀ (erase_data-Effect p k s) t)

  -- with no logs yet, a session tracks its own start
  pub Tracked-start :
      (s : Session K V D) (m : OpLogMap)
      → s.op_log_map ≡ some m
      → get_db_op_logs p m ≡ none
      → Tracked s.cache s
  unfolding undo_data_list
  Tracked-start s m h e = record {
    op_logs = m;
    logging = h;
    undoes = record { at = λ d same_view. rw e (d, refl, same_view) };
  }

  -- Any calls made while logging into a map with no logs of the prefix leave logs whose undo
  -- succeeds and restores what the cache showed before the calls, at every key.
  pub undo_restores :
      (calls : List (Call K V)) (s : Session K V D) (m : OpLogMap)
      → s.op_log_map ≡ some m
      → get_db_op_logs p m ≡ none
      → (m' : OpLogMap) × ((run calls s).op_log_map ≡ some m')
        × (e : Cache K V D) × (undo_data_list (logs_of (get_db_op_logs p m')) (run calls s).cache
            ≡ ok e)
        × SameView s.cache e
  undo_restores calls s m h n =
      let t = run-Tracked calls s.cache s (Tracked-start s m h n) in
      let (e, undone, e_view) = t.undoes.at (run calls s).cache (λ j. refl) in
      (t.op_logs, t.logging, e, undone, e_view)
