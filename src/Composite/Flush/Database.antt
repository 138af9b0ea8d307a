-- ===== src/Composite/Flush/Database.antt =====
-- A flush into the database.
use inery_persistent_memory.Base.{
  ◌≡◌, ◌≢◌, refl, ap, ◌∙◌, true, false, Option, none, some, List, [], ◌∷◌, ◌++◌, if◌then◌else◌,
  Bool-cases, inl, inr, Bytes, bytes_eq, bytes_eq_refl, bytes_eq→eq,
}
use mathlib.Core.List.{append_assoc, append-nil}
use inery_persistent_memory.StdMap.{KeyOps, find, same}
use inery_persistent_memory.StdMap.Find.{same_refl, same→eq}
use inery_persistent_memory.StdMap.Order.{Sorted, find-AllAbove}
use inery_persistent_memory.Serialize.{Codec, ValueOps}
use inery_persistent_memory.DbConf.Prefix.{PrefixType, prefix_names}
use inery_persistent_memory.DbConf.Keys.{
  gen_db_key, gen_db_key-injective, is_key_prefix, prefix_apart,
}
use inery_persistent_memory.LevelDb.{
  LevelDb, Status, status_ok, not_found, BatchOp, put, delete, batch_get,
}
use inery_persistent_memory.LevelDb.Wrapper.{
  ok, throws, Lookup, write_batch, batch_write, batch_erase, read, get_bytes, read_value,
  status_lookup, throw_error, DbError,
}
use inery_persistent_memory.LevelDb.Access.{get_data}
use inery_persistent_memory.Composite.{Layer, on_db, visible}
use inery_persistent_memory.Composite.View.{emptied, database, over, peek, view}
use inery_persistent_memory.Composite.Flush.{clear, batch_all, flush}

module _ {V : Type 0} ⦃vo : ValueOps V⦄ ⦃vc : Codec V⦄ where
  -- what a read gives for the value that a batch has written
  written : Option V → Status × Bytes → Status × Bytes
  written none r = r
  written (some v) r = if vo.is_empty v then (not_found, []) else (status_ok, vc.encode v)

  -- what `Read` makes of the status and the bytes
  abbrev read_result : Status × Bytes → Lookup V
  read_result r = read_value (status_lookup r)

  visible-written :
      (o : Option V) (r : Status × Bytes)
      → visible (read_result (written o r)) ≡ visible (over o (read_result r))
  unfolding written
  visible-written none r = refl
  visible-written (some v) r = elim (Bool-cases (vo.is_empty v)) [
    | inl e ↦ rw e
    | inr e ↦ rw e (rw (vc.decode-encode v) (rw e))
  ]

module _ {K : Type 0} ⦃ko : KeyOps K⦄ ⦃kc : Codec K⦄ (p : PrefixType) where
  bytes_eq-gen_db_key : (k j : K) → bytes_eq (gen_db_key p k) (gen_db_key p j) ≡ same j k
  bytes_eq-gen_db_key k j = elim (Bool-cases (same j k)) [
    | inl e ↦ rw e (rw (same→eq j k e) (bytes_eq_refl (gen_db_key p k)))
    | inr e ↦ elim (Bool-cases (bytes_eq (gen_db_key p k) (gen_db_key p j))) [
      | inl q ↦ cc (gen_db_key-injective p k j (bytes_eq→eq _ _ q), same_refl k)
      | inr q ↦ rw (e, q)
    ]
  ]

module _ {K V : Type 0} ⦃ko : KeyOps K⦄ ⦃vo : ValueOps V⦄ ⦃kc : Codec K⦄ ⦃vc : Codec V⦄
    (p : PrefixType) where
  -- the entry of the batch for an entry of the map
  batch_op : K → V → BatchOp
  batch_op k v =
      if vo.is_empty v then delete (gen_db_key p k) else put (gen_db_key p k) (vc.encode v)

  batch_ops : List (K × V) → List BatchOp
  batch_ops [] = []
  batch_ops ((k, v) ∷ m) = batch_op k v ∷ batch_ops m

  batch_all-append :
      (m : List (K × V)) (batch : List BatchOp) → batch_all p m batch ≡ batch ++ batch_ops m
  unfolding batch_all batch_ops batch_op batch_write batch_erase
  batch_all-append [] batch = rw append-nil
  batch_all-append ((k, v) ∷ m) batch = elim (Bool-cases (vo.is_empty v)) [
    | inl e ↦ rw e (batch_all-append m _ ∙ append_assoc batch _ _)
    | inr e ↦ rw e (batch_all-append m _ ∙ append_assoc batch _ _)
  ]

  batch_get-op :
      (k j : K) (v : V) (ops : List BatchOp) (r : Status × Bytes)
      → batch_get (batch_op k v ∷ ops) (gen_db_key p j) r
        ≡ batch_get ops (gen_db_key p j) (if same j k then written (some v) r else r)
  unfolding batch_op batch_get written
  batch_get-op k j v ops r = elim (Bool-cases (vo.is_empty v)) [
    | inl e ↦ rw e (rw (bytes_eq-gen_db_key p k j))
    | inr e ↦ rw e (rw (bytes_eq-gen_db_key p k j))
  ]

  batch_get-batch_ops :
      (m : List (K × V)) (j : K) (r : Status × Bytes)
      → Sorted m
      → batch_get (batch_ops m) (gen_db_key p j) r ≡ written (find j m) r
  unfolding batch_ops find written batch_get
  batch_get-batch_ops [] j r s = refl
  batch_get-batch_ops ((k, v) ∷ m) j r s = elim (Bool-cases (same j k)) [
    | inl e ↦
        batch_get-op k j v (batch_ops m) r
        ∙ rw e (
            batch_get-batch_ops m j (written (some v) r) s.1
            ∙ rw (same→eq j k e) (rw (find-AllAbove k m s.0)))
    | inr e ↦ batch_get-op k j v (batch_ops m) r ∙ rw e (batch_get-batch_ops m j r s.1)
  ]

  -- a batch of this prefix leaves the keys of the others
  batch_get-other :
      (m : List (K × V)) (q : PrefixType) (x : Bytes) (r : Status × Bytes)
      → is_key_prefix p ≡ true
      → is_key_prefix q ≡ true
      → p ≢ q
      → batch_get (batch_ops m) (prefix_names q ++ x) r ≡ r
  unfolding batch_ops batch_op batch_get gen_db_key
  batch_get-other [] q x r hp hq n = refl
  batch_get-other ((k, v) ∷ m) q x r hp hq n =
      let apart : bytes_eq (prefix_names p ++ kc.encode k) (prefix_names q ++ x) ≡ false =
        elim (Bool-cases (bytes_eq (prefix_names p ++ kc.encode k) (prefix_names q ++ x))) [
          | inl e ↦ absurd (n (prefix_apart p q (kc.encode k) x hp hq (bytes_eq→eq _ _ e)))
          | inr e ↦ e
        ] in
      elim (Bool-cases (vo.is_empty v)) [
        | inl e ↦ rw e (rw apart (batch_get-other m q x r hp hq n))
        | inr e ↦ rw e (rw apart (batch_get-other m q x r hp hq n))
      ]

module _ {K V D : Type 0} ⦃ko : KeyOps K⦄ ⦃vo : ValueOps V⦄ ⦃kc : Codec K⦄ ⦃vc : Codec V⦄
    ⦃ldb : LevelDb D⦄ (p : PrefixType) (l : Layer K V) (d : D) where
  -- what LevelDB answers to the batch of the flush
  abbrev pub answer : Status × D
  answer = ldb.write d (batch_all p l.map_data [])

  get-answer :
      (key : Bytes)
      → answer.0 ≡ status_ok
      → ldb.get answer.1 key ≡ batch_get (batch_ops p l.map_data) key (ldb.get d key)
  get-answer key h =
      ldb.get_write d (batch_all p l.map_data []) key h
      ∙ ap (λ ops. batch_get ops key (ldb.get d key)) (batch_all-append p l.map_data [])

  get_data-answer :
      (j : K)
      → Sorted l.map_data
      → answer.0 ≡ status_ok
      → visible (get_data p j answer.1) ≡ visible (over (find j l.map_data) (get_data p j d))
  unfolding get_data read get_bytes
  get_data-answer j s h = rw (get-answer (gen_db_key p j) h) (
      rw (batch_get-batch_ops p l.map_data j (ldb.get d (gen_db_key p j)) s)
        (visible-written (find j l.map_data) (ldb.get d (gen_db_key p j))))

  -- Where LevelDB accepts the batch, `Flush` into the database of a layer in order succeeds and
  -- empties the layer, its size counter too, and both the database and the cache show at every key what the cache showed.
  pub flush_to_database :
      Sorted l.map_data
      → answer.0 ≡ status_ok
      → (flush p (on_db l d) ≡ (ok tt, on_db (emptied l) answer.1))
        × ((j : K) → visible (get_data p j answer.1) ≡ view p j (on_db l d))
        × ((j : K) → view p j (on_db (emptied l) answer.1) ≡ view p j (on_db l d))
  unfolding flush write_batch clear view peek find throw_error
  flush_to_database s h =
      (rw (h, flush, write_batch), λ j. get_data-answer j s h, λ j. get_data-answer j s h)

  -- Where LevelDB accepts the batch, `Flush` of a cache over a database succeeds, and in the
  -- database under the cache afterwards the entry under any key that begins with the text of another
  -- key prefix is as it was.
  pub flush_keeps_other_keys :
      (q : PrefixType) (x : Bytes)
      → is_key_prefix p ≡ true
      → is_key_prefix q ≡ true
      → p ≢ q
      → answer.0 ≡ status_ok
      → ((flush p (on_db l d)).0 ≡ ok tt)
        × ((d' : D) × (database (flush p (on_db l d)).1 ≡ some d')
            × (ldb.get d' (prefix_names q ++ x) ≡ ldb.get d (prefix_names q ++ x)))
  unfolding flush write_batch throw_error database
  flush_keeps_other_keys q x hp hq n h = (
    rw (h, flush, write_batch) refl,
    (
      answer.1,
      rw (h, flush, write_batch) refl,
      get-answer (prefix_names q ++ x) h ∙ batch_get-other p l.map_data q x _ hp hq n,
    ),
  )

  -- Where LevelDB refuses the batch, `Flush` throws the error of the status and the layer keeps its
  -- entries.
  pub flush_refused :
      (e : DbError)
      → throw_error answer.0 ≡ some e
      → flush p (on_db l d) ≡ (throws e, on_db l answer.1)
  unfolding flush write_batch
  flush_refused e h = rw (h, flush, write_batch)
