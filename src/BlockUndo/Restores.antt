-- ===== src/BlockUndo/Restores.antt =====
-- `IneryBlockUndoExecutor` over any caches that have registered their undo functions.
use inery_persistent_memory.Base.{
  ◌≡◌, ◌≢◌, refl, ap, sym, ◌∙◌, subst, true, false, none, some, List, [], ◌∷◌, ◌++◌, ◌==◌, Bytes,
  Bool-cases, bytes_eq, inl, inr,
}
use inery_persistent_memory.StdMap.{find, same}
use inery_persistent_memory.StdMap.Find.{same→eq, same_refl}
use inery_persistent_memory.StdMap.Order.{Sorted, find-AllAbove}
use inery_persistent_memory.DbConf.Prefix.{PrefixType, empty, prefix_count, prefix_names, index}
use inery_persistent_memory.DbConf.Keys.{
  parse_key_prefix_type, parse_key_prefix_type-prefix_names, is_key_prefix, prefix_apart,
}
use inery_persistent_memory.LevelDb.Wrapper.{Outcome, ok}
use inery_persistent_memory.OpLog.{DbOpLogs, OpLogMap, get_db_op_logs, bytes_key}
use inery_persistent_memory.BlockUndo.{TxUndo, UndoDataFuncMap, find_func, execute_logs, execute}

-- The caches of a wrapper as the executor meets them: the functions they have registered, and when
-- two states show the same under a prefix. A function of one prefix leaves what the others show.
pub record UndoStore (S : Type 0) : Type 1 where
  pub funcs : UndoDataFuncMap S
  pub Same : PrefixType → S → S → Type 0
  pub same_trans : (p : PrefixType) (a b c : S) → Same p a b → Same p b c → Same p a c
  pub others :
      (p q : PrefixType) (f : DbOpLogs → S → Outcome S) (logs : DbOpLogs) (s s' : S)
      → find_func p funcs ≡ some f
      → f logs s ≡ ok s'
      → p ≢ q
      → Same q s s'

count_no_key : is_key_prefix prefix_count ≡ false
unfolding is_key_prefix bytes_eq prefix_names
count_no_key = refl

empty_no_key : is_key_prefix empty ≡ false
unfolding is_key_prefix bytes_eq prefix_names
empty_no_key = refl

-- a prefix of keys is parsed back, and is not the empty one
parsed_prefix :
    (p : PrefixType) → is_key_prefix p ≡ true → parse_key_prefix_type (prefix_names p) ≡ p
parsed_prefix p h = parse_key_prefix_type-prefix_names p (λ e.
    let k : is_key_prefix prefix_count ≡ true = subst (λ q. is_key_prefix q ≡ true) e h in
    let z = count_no_key in cc)

not_empty : (p : PrefixType) → is_key_prefix p ≡ true → (index p == index empty) ≡ false
unfolding index
not_empty empty h = let z = empty_no_key in cc
not_empty _ h = refl

find-head :
    (name : Bytes) (x : Bytes × DbOpLogs) (m : OpLogMap)
    → same name x.0 ≡ true
    → find name (x ∷ m) ≡ some x.1
unfolding find
find-head name x m h = rw h

find-tail :
    (name : Bytes) (x : Bytes × DbOpLogs) (m : OpLogMap)
    → same name x.0 ≡ false
    → find name (x ∷ m) ≡ find name m
unfolding find
find-tail name x m h = rw h

names-injective :
    (p q : PrefixType)
    → is_key_prefix p ≡ true
    → is_key_prefix q ≡ true
    → prefix_names p ≡ prefix_names q
    → p ≡ q
names-injective p q hp hq h = prefix_apart p q [] [] hp hq (ap (λ name. name ++ []) h)

module _ {S : Type 0} (us : UndoStore S) where
  -- the two states show the same under every prefix of keys
  abbrev pub SameAll : S → S → Type 0
  SameAll a b = (q : PrefixType) → is_key_prefix q ≡ true → us.Same q a b

  -- the logs of a prefix undo what it did from `before` to `after`
  pub record Logged (before after : S) (entry : Bytes × DbOpLogs) : Type 0 where
    pub prefix : PrefixType
    pub named : prefix_names prefix ≡ entry.0
    pub is_key : is_key_prefix prefix ≡ true
    pub func : DbOpLogs → S → Outcome S
    pub registered : find_func prefix us.funcs ≡ some func
    pub undoes :
        (d : S)
        → us.Same prefix after d
        → (e : S) × (func entry.1 d ≡ ok e) × us.Same prefix before e

  abbrev pub AllLogged : S → S → OpLogMap → Type 0
  AllLogged before after [] = Unit
  AllLogged before after (x ∷ m) = Logged before after x × AllLogged before after m

  -- The log map of a transaction from `before` to `after`.
  pub record LogsOf (before after : S) (m : OpLogMap) : Type 0 where
    pub in_order : Sorted m
    pub logged : AllLogged before after m
    pub unlogged :
        (q : PrefixType)
        → is_key_prefix q ≡ true
        → get_db_op_logs q m ≡ none
        → us.Same q before after

  execute_logs_step :
      (before after : S) (x : Bytes × DbOpLogs) (m : OpLogMap) (d e : S)
      → (l : Logged before after x) → l.func x.1 d ≡ ok e
      → execute_logs us.funcs (x ∷ m) d ≡ execute_logs us.funcs m e
  unfolding execute_logs
  execute_logs_step before after x m d e l h =
      rw
        (sym l.named, parsed_prefix l.prefix l.is_key, not_empty l.prefix l.is_key, l.registered, h)
        refl

  -- in the middle of the loop: the prefixes that are left to do, and the others
  record Pending (before after : S) (m : OpLogMap) (d : S) : Type 0 where
    waiting :
        (q : PrefixType)
        → is_key_prefix q ≡ true
        → (logs : DbOpLogs) → find (prefix_names q) m ≡ some logs
        → us.Same q after d
    finished :
        (q : PrefixType)
        → is_key_prefix q ≡ true
        → find (prefix_names q) m ≡ none
        → us.Same q before d

  Pending-step :
      (before after : S) (x : Bytes × DbOpLogs) (m : OpLogMap) (d e : S)
      → Sorted (x ∷ m)
      → (l : Logged before after x) → l.func x.1 d ≡ ok e
      → us.Same l.prefix before e
      → Pending before after (x ∷ m) d
      → Pending before after m e
  Pending-step before after x m d e so l h shown t =
      let moved : (q : PrefixType) → same (prefix_names q) x.0 ≡ false → us.Same q d e = λ q n.
        us.others l.prefix q l.func x.1 d e l.registered h (λ r.
          let z : same (prefix_names q) x.0 ≡ true =
            rw (sym l.named, sym r) (same_refl (prefix_names l.prefix)) in
          cc) in
      record {
        waiting = λ q hq logs f. elim (Bool-cases (same (prefix_names q) x.0)) [
          | inl n ↦
              let z : find (prefix_names q) m ≡ none =
                rw (same→eq (prefix_names q) x.0 n) (find-AllAbove x.0 m so.0) in
              cc
          | inr n ↦
              us.same_trans q after d e (t.waiting q hq logs (find-tail (prefix_names q) x m n ∙ f))
                (moved q n)
        ];
        finished = λ q hq f. elim (Bool-cases (same (prefix_names q) x.0)) [
          | inl n ↦
              subst (λ r. us.Same r before e)
                (names-injective l.prefix q l.is_key hq
                  (l.named ∙ sym (same→eq (prefix_names q) x.0 n)))
                shown
          | inr n ↦
              us.same_trans q before d e (t.finished q hq (find-tail (prefix_names q) x m n ∙ f))
                (moved q n)
        ];
      }

  execute_logs-Pending :
      (before after : S) (m : OpLogMap) (d : S)
      → Sorted m
      → AllLogged before after m
      → Pending before after m d
      → (e : S) × (execute_logs us.funcs m d ≡ ok (true, e)) × SameAll before e
  unfolding find execute_logs
  execute_logs-Pending before after [] d so ls t = (d, refl, λ q hq. t.finished q hq refl)
  execute_logs-Pending before after (x ∷ m) d so ls t =
      let l = ls.0 in
      let (e, run, shown) = l.undoes d (
        t.waiting l.prefix l.is_key x.1 (
          find-head (prefix_names l.prefix) x m
            (rw (sym l.named) (same_refl (prefix_names l.prefix))))) in
      let (f, rest, all) =
        execute_logs-Pending before after m e so.1 ls.1
          (Pending-step before after x m d e so l run shown t) in
      (f, execute_logs_step before after x m d e l run ∙ rest, all)

  -- The states that the transactions of a block went through.
  abbrev pub History : S → List TxUndo → S → Type 0
  History before [] after = before ≡ after
  History before (tx ∷ txs) after = (s : S) × LogsOf before s tx.db_op_log_map × History s txs after

  -- If each transaction of a block has left, for each prefix that it logged, logs that undo it, and
  -- has changed nothing under the other prefixes, the execution of the block's undo returns true, and
  -- every prefix shows what it did before the block.
  pub execute_restores :
      (before : S) (txs : List TxUndo) (after d : S)
      → History before txs after
      → SameAll after d
      → (e : S) × (execute us.funcs txs d ≡ ok (true, e)) × SameAll before e
  unfolding execute get_db_op_logs
  execute_restores before [] after d h same =
      (d, refl, λ q hq. subst (λ x. us.Same q x d) (sym h) (same q hq))
  execute_restores before (tx ∷ txs) after d (s, logs, h) same =
      let (e, run, shown) = execute_restores s txs after d h same in
      let (f, rest, all) =
        execute_logs-Pending before s tx.db_op_log_map e logs.in_order logs.logged (record {
          waiting = λ q hq ls found. shown q hq;
          finished = λ q hq none_left.
              us.same_trans q before s e (logs.unlogged q hq none_left) (shown q hq);
        }) in
      (f, rw (run, execute) rest, all)
