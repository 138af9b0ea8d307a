-- ===== src/BlockUndo/Results.antt =====
-- The result of the inner loop of `IneryBlockUndoExecutor::Execute`, unknown prefixes included.
use inery_persistent_memory.Base.{
  ◌≡◌, refl, Bool, true, false, none, some, [], ◌∷◌, ◌==◌, Bytes, Bool-cases, Option-cases, not,
  ◌&&◌, inl, inr,
}
use inery_persistent_memory.DbConf.Prefix.{PrefixType, empty, index}
use inery_persistent_memory.DbConf.Keys.{parse_key_prefix_type}
use inery_persistent_memory.LevelDb.Wrapper.{Outcome, ok}
use inery_persistent_memory.OpLog.{DbOpLogs, OpLogMap, bytes_key}
use inery_persistent_memory.BlockUndo.{UndoDataFuncMap, find_func, execute_logs}

module _ {S : Type 0} (funcs : UndoDataFuncMap S) where
  -- a prefix that the executor can undo
  unfoldable pub is_registered : Bytes → Bool
  is_registered name =
      not (index (parse_key_prefix_type name) == index empty)
      && (elim (find_func (parse_key_prefix_type name) funcs) [ none ↦ false | some f ↦ true ])

  unfoldable pub all_registered : OpLogMap → Bool
  all_registered [] = true
  all_registered (x ∷ m) = is_registered x.0 && all_registered m

  -- Where a log map holds a prefix that is unknown or that no cache has registered, and no function
  -- throws, the loop over its logs returns false; otherwise it returns true.
  pub execute_logs_result :
      (m : OpLogMap) (s : S)
      → ((p : PrefixType) (f : DbOpLogs → S → Outcome S) (logs : DbOpLogs) (t : S)
          → find_func p funcs ≡ some f
          → (t' : S) × (f logs t ≡ ok t'))
      → (s' : S) × (execute_logs funcs m s ≡ ok (all_registered m, s'))
  unfolding execute_logs all_registered is_registered
  execute_logs_result [] s total = (s, refl)
  execute_logs_result ((name, logs) ∷ m) s total =
      elim (Bool-cases (index (parse_key_prefix_type name) == index empty)) [
        | inl e ↦ (s, rw (e, execute_logs) refl)
        | inr e ↦ elim (Option-cases (find_func (parse_key_prefix_type name) funcs)) [
          | inl n ↦ (s, rw (e, n, execute_logs) refl)
          | inr (f, h) ↦
              let (t, run) = total (parse_key_prefix_type name) f logs s h in
              let (u, rest) = execute_logs_result m t total in
              (u, rw (e, h, run, execute_logs) rest)
        ]
      ]
