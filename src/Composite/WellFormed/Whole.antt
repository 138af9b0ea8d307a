-- ===== src/Composite/WellFormed/Whole.antt =====
-- The order of the maps under undo and flush too.
use inery_persistent_memory.Base.{◌≡◌, Option, none, some, List, [], ◌∷◌, inl, inr}
use inery_persistent_memory.StdMap.{KeyOps}
use inery_persistent_memory.StdMap.Order.{Sorted}
use inery_persistent_memory.Serialize.{Codec, ValueOps}
use inery_persistent_memory.DbConf.Prefix.{PrefixType}
use inery_persistent_memory.LevelDb.{LevelDb}
use inery_persistent_memory.LevelDb.Wrapper.{ok, write_batch}
use inery_persistent_memory.OpLog.{DbOpLogs, get_log}
use inery_persistent_memory.Composite.{
  Layer, Cache, detached, on_db, on_base, top, with_top, set_data_to_self,
}
use inery_persistent_memory.Composite.Undo.{undo_data, undo_entry, undo_data_list}
use inery_persistent_memory.Composite.Flush.{flush, clear, put_all, batch_all}
use inery_persistent_memory.Composite.WellFormed.{
  WellFormed, Returns, returned, Outcome-cases, with_top-WellFormed, top-Sorted,
  set_data_to_self-Sorted,
}

module _ {K V D : Type 0} ⦃ko : KeyOps K⦄ ⦃kc : Codec K⦄ ⦃vc : Codec V⦄ where
  set_with_top-WellFormed :
      (k : K) (v : V) (c : Cache K V D) (l : Layer K V)
      → set_data_to_self k v (top c) ≡ ok l
      → WellFormed c
      → WellFormed (with_top l c)
  set_with_top-WellFormed k v c l h w =
      with_top-WellFormed l c
        (returned (λ l'. Sorted l'.map_data) _ l
          (set_data_to_self-Sorted k v (top c) (top-Sorted c w)) h)
        w

  put_all-WellFormed :
      (m : List (K × V)) (c : Cache K V D) → WellFormed c → Returns WellFormed (put_all m c)
  unfolding put_all
  put_all-WellFormed [] c w = w
  put_all-WellFormed ((k, v) ∷ m) c w = elim (Outcome-cases (set_data_to_self k v (top c))) [
    | inl (l, h) ↦
        rw (h, put_all) (put_all-WellFormed m (with_top l c) (set_with_top-WellFormed k v c l h w))
    | inr (e, h) ↦ rw (h, put_all) tt
  ]

  undo_entry-WellFormed :
      (o : Option (K × V)) (c : Cache K V D) → WellFormed c → Returns WellFormed (undo_entry o c)
  unfolding undo_entry
  undo_entry-WellFormed none c w = tt
  undo_entry-WellFormed (some (k, v)) c w = elim (Outcome-cases (set_data_to_self k v (top c))) [
    | inl (l, h) ↦ rw (h, undo_entry) (set_with_top-WellFormed k v c l h w)
    | inr (e, h) ↦ rw (h, undo_entry) tt
  ]

  -- the logs of a list
  pub undo_data_list-WellFormed :
      (logs : DbOpLogs) (c : Cache K V D)
      → WellFormed c
      → Returns WellFormed (undo_data_list logs c)
  unfolding undo_data_list undo_data
  undo_data_list-WellFormed [] c w = w
  undo_data_list-WellFormed (log ∷ logs) c w = elim (Outcome-cases (undo_data_list logs c)) [
    | inl (c', h) ↦
        rw (h, undo_data_list)
          (undo_entry-WellFormed (get_log log) c'
            (returned WellFormed _ c' (undo_data_list-WellFormed logs c w) h))
    | inr (e, h) ↦ rw (h, undo_data_list) tt
  ]

module _ {K V D : Type 0} ⦃ko : KeyOps K⦄ ⦃vo : ValueOps V⦄ ⦃kc : Codec K⦄ ⦃vc : Codec V⦄
    ⦃ldb : LevelDb D⦄ (p : PrefixType) where
  -- into the database, and into a base
  pub flush-WellFormed : (c : Cache K V D) → WellFormed c → WellFormed (flush p c).1
  unfolding flush clear
  flush-WellFormed (detached l) w = w
  flush-WellFormed (on_db l d) w =
      elim (Outcome-cases (write_batch d (batch_all p l.map_data [])).0) [
        | inl (b, h) ↦ rw (h, flush) tt
        | inr (e, h) ↦ rw (h, flush) w
      ]
  flush-WellFormed (on_base l c) w = elim (Outcome-cases (put_all l.map_data c)) [
    | inl (c', h) ↦
        rw (h, flush) (tt, returned WellFormed _ c' (put_all-WellFormed l.map_data c w.1) h)
    | inr (e, h) ↦ rw (h, flush) w
  ]
