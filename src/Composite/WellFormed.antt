-- ===== src/Composite/WellFormed.antt =====
-- The order of the maps of `IneryCompositeKVCache` under its calls.
pub mod Whole
use inery_persistent_memory.Base.{
  ◌≡◌, refl, Option, none, some, List, [], ◌∷◌, Option-cases, Bool-cases, inl, inr, ◌⊎◌,
}
use inery_persistent_memory.StdMap.{KeyOps, find, insert, emplace}
use inery_persistent_memory.StdMap.Order.{Sorted, insert-Sorted, assign-Sorted}
use inery_persistent_memory.Serialize.{Codec, ValueOps}
use inery_persistent_memory.DbConf.Prefix.{PrefixType}
use inery_persistent_memory.LevelDb.{LevelDb}
use inery_persistent_memory.LevelDb.Wrapper.{
  Outcome, ok, throws, Lookup, found, absent, failed, DbError, write_batch,
}
use inery_persistent_memory.LevelDb.Access.{get_data}
use inery_persistent_memory.OpLog.{DbOpLogs, get_log}
use inery_persistent_memory.Composite.{
  Layer, Cache, detached, on_db, on_base, top, with_top, Session, update_data_size, dec_data_size,
  assign_value, erase_value, add_data_to_map, set_data_to_self, keep, keep_found, get_data_it,
  set_data, set_found, erase_data, erase_found, cache_get_data,
}
use inery_persistent_memory.Composite.Puts.{
  map_data-update_data_size, map_data-dec_data_size, map_data-inc_value_size,
}
use inery_persistent_memory.Composite.View.{map_data-inc_entry_size}
use inery_persistent_memory.Composite.Undo.{
  Call, get, set, erase, run, undo_data, undo_entry, undo_data_list,
}
use inery_persistent_memory.Composite.Flush.{flush, clear, put_all, batch_all}

module _ {K V D : Type 0} ⦃ko : KeyOps K⦄ where
  -- every map in order
  abbrev pub WellFormed : Cache K V D → Type 0
  WellFormed (detached l) = Sorted l.map_data
  WellFormed (on_db l d) = Sorted l.map_data
  WellFormed (on_base l c) = Sorted l.map_data × WellFormed c

  pub top-Sorted : (c : Cache K V D) → WellFormed c → Sorted (top c).map_data
  top-Sorted (detached l) w = w
  top-Sorted (on_db l d) w = w
  top-Sorted (on_base l c) w = w.0

  pub with_top-WellFormed :
      (l : Layer K V) (c : Cache K V D)
      → Sorted l.map_data
      → WellFormed c
      → WellFormed (with_top l c)
  with_top-WellFormed l (detached _) s w = s
  with_top-WellFormed l (on_db _ d) s w = s
  with_top-WellFormed l (on_base _ c) s w = (s, w.1)

-- where a call returns a layer or a cache, it is in order
abbrev pub Returns : {A : Type 0} → (A → Type 0) → Outcome A → Type 0
Returns P (ok a) = P a
Returns P (throws e) = Unit

module _ {K V : Type 0} ⦃ko : KeyOps K⦄ ⦃kc : Codec K⦄ ⦃vc : Codec V⦄ where
  add_data_to_map-Sorted :
      (k : K) (v : V) (l : Layer K V)
      → Sorted l.map_data
      → Returns (λ l'. Sorted l'.map_data) (add_data_to_map k v l)
  unfolding add_data_to_map emplace
  add_data_to_map-Sorted k v l s = elim (Option-cases (find k l.map_data)) [
    | inl h ↦
        rw (h, emplace)
          (rw (map_data-inc_entry_size k v (record l { map_data = insert k v l.map_data }))
            (insert-Sorted k v l.map_data h s))
    | inr (x, h) ↦ rw (h, emplace) tt
  ]

  assign_value-Sorted :
      (k : K) (old v : V) (l : Layer K V)
      → Sorted l.map_data
      → Sorted (assign_value k v (update_data_size old v l)).map_data
  unfolding assign_value
  assign_value-Sorted k old v l s =
      rw (map_data-update_data_size old v l) (assign-Sorted k v l.map_data s)

  pub set_data_to_self-Sorted :
      (k : K) (v : V) (l : Layer K V)
      → Sorted l.map_data
      → Returns (λ l'. Sorted l'.map_data) (set_data_to_self k v l)
  unfolding set_data_to_self
  set_data_to_self-Sorted k v l s = elim (Option-cases (find k l.map_data)) [
    | inl h ↦ rw (h, set_data_to_self) (add_data_to_map-Sorted k v l s)
    | inr (old, h) ↦ rw (h, set_data_to_self) (assign_value-Sorted k old v l s)
  ]

  erase_value-Sorted :
      ⦃vo : ValueOps V⦄ (k : K) (old : V) (l : Layer K V)
      → Sorted l.map_data
      → Sorted (erase_value k old l).map_data
  unfolding erase_value assign_value
  erase_value-Sorted ⦃vo⦄ k old l s =
      rw
        (map_data-inc_value_size (vo.set_empty old)
          (assign_value k (vo.set_empty old) (dec_data_size old l)))
        (rw (map_data-dec_data_size old l) (assign-Sorted k (vo.set_empty old) l.map_data s))

pub returned : {A : Type 0} (P : A → Type 0) (o : Outcome A) (a : A) → Returns P o → o ≡ ok a → P a
returned P o a h e = rw e at h

Outcome-cases {ℓ} :
    {A : Type ℓ} (o : Outcome A) → ((a : A) × (o ≡ ok a)) ⊎ ((e : DbError) × (o ≡ throws e))
Outcome-cases (ok a) = inl (a, refl)
Outcome-cases (throws e) = inr (e, refl)

module _ {K V D : Type 0} ⦃ko : KeyOps K⦄ ⦃kc : Codec K⦄ ⦃vc : Codec V⦄ where
  keep-WellFormed :
      (k : K) (r : Lookup V) (c : Cache K V D) → WellFormed c → WellFormed (keep k r c).1
  unfolding keep keep_found
  keep-WellFormed k absent c w = w
  keep-WellFormed k (failed e) c w = w
  keep-WellFormed k (found v) c w = elim (Outcome-cases (add_data_to_map k v (top c))) [
    | inl (l, h) ↦
        rw (h, keep_found)
          (with_top-WellFormed l c
            (returned (λ l'. Sorted l'.map_data) _ l
              (add_data_to_map-Sorted k v (top c) (top-Sorted c w)) h)
            w)
    | inr (e, h) ↦ rw (h, keep_found) w
  ]

module _ {K V D : Type 0} ⦃ko : KeyOps K⦄ ⦃kc : Codec K⦄ ⦃vc : Codec V⦄ ⦃ldb : LevelDb D⦄
    (p : PrefixType) where
  get_data_it-WellFormed :
      (k : K) (c : Cache K V D) → WellFormed c → WellFormed (get_data_it p k c).1
  unfolding get_data_it
  get_data_it-WellFormed k (detached l) w = elim (Option-cases (find k l.map_data)) [
    | inl h ↦ rw (h, get_data_it) w
    | inr (v, h) ↦ rw (h, get_data_it) w
  ]
  get_data_it-WellFormed k (on_db l d) w = elim (Option-cases (find k l.map_data)) [
    | inl h ↦ rw (h, get_data_it) (keep-WellFormed k (get_data p k d) (on_db l d) w)
    | inr (v, h) ↦ rw (h, get_data_it) w
  ]
  get_data_it-WellFormed k (on_base l c) w =
      let w' = get_data_it-WellFormed k c w.1 in
      elim (Option-cases (find k l.map_data)) [
        | inl h ↦
            rw (h, get_data_it)
              (keep-WellFormed k (get_data_it p k c).0 (on_base l (get_data_it p k c).1) (w.0, w'))
        | inr (v, h) ↦ rw (h, get_data_it) w
      ]

module _ {K V D : Type 0} ⦃ko : KeyOps K⦄ ⦃vo : ValueOps V⦄ ⦃kc : Codec K⦄ ⦃vc : Codec V⦄
    ⦃ldb : LevelDb D⦄ (p : PrefixType) where
  set_found-WellFormed :
      (k : K) (v : V) (r : Lookup V) (s : Session K V D)
      → WellFormed s.cache
      → WellFormed (set_found p k v r s).1.cache
  unfolding set_found
  set_found-WellFormed k v absent s w = elim (Outcome-cases (add_data_to_map k v (top s.cache))) [
    | inl (l, h) ↦
        rw (h, set_found)
          (with_top-WellFormed l s.cache
            (returned (λ l'. Sorted l'.map_data) _ l
              (add_data_to_map-Sorted k v (top s.cache) (top-Sorted s.cache w)) h)
            w)
    | inr (e, h) ↦ rw (h, set_found) w
  ]
  set_found-WellFormed k v (found old) s w =
      with_top-WellFormed _ s.cache
        (assign_value-Sorted k old v (top s.cache) (top-Sorted s.cache w)) w
  set_found-WellFormed k v (failed e) s w = w

  erase_found-WellFormed :
      (k : K) (r : Lookup V) (s : Session K V D)
      → WellFormed s.cache
      → WellFormed (erase_found p k r s).1.cache
  unfolding erase_found
  erase_found-WellFormed k absent s w = w
  erase_found-WellFormed k (failed e) s w = w
  erase_found-WellFormed k (found old) s w = elim (Bool-cases (vo.is_empty old)) [
    | inl h ↦ rw (h, erase_found) w
    | inr h ↦
        rw (h, erase_found)
          (with_top-WellFormed _ s.cache
            (erase_value-Sorted k old (top s.cache) (top-Sorted s.cache w)) w)
  ]

  set_data-WellFormed :
      (k : K) (v : V) (s : Session K V D)
      → WellFormed s.cache
      → WellFormed (set_data p k v s).1.cache
  unfolding set_data
  set_data-WellFormed k v s w = elim (Bool-cases (ko.is_empty k)) [
    | inl h ↦ rw (h, set_data) w
    | inr h ↦ rw (h, set_data) (set_found-WellFormed k v _ _ (get_data_it-WellFormed p k s.cache w))
  ]

  erase_data-WellFormed :
      (k : K) (s : Session K V D) → WellFormed s.cache → WellFormed (erase_data p k s).1.cache
  unfolding erase_data
  erase_data-WellFormed k s w = elim (Bool-cases (ko.is_empty k)) [
    | inl h ↦ rw (h, erase_data) w
    | inr h ↦
        rw (h, erase_data) (erase_found-WellFormed k _ _ (get_data_it-WellFormed p k s.cache w))
  ]

  cache_get_data-WellFormed :
      (k : K) (c : Cache K V D) → WellFormed c → WellFormed (cache_get_data p k c).1
  unfolding cache_get_data
  cache_get_data-WellFormed k c w = elim (Bool-cases (ko.is_empty k)) [
    | inl h ↦ rw (h, cache_get_data) w
    | inr h ↦ rw (h, cache_get_data) (get_data_it-WellFormed p k c w)
  ]

  -- under any calls of a client
  pub run-WellFormed :
      (calls : List (Call K V)) (s : Session K V D)
      → WellFormed s.cache
      → WellFormed (run p calls s).cache
  unfolding run
  run-WellFormed [] s w = w
  run-WellFormed (get k ∷ calls) s w =
      run-WellFormed calls _ (cache_get_data-WellFormed k s.cache w)
  run-WellFormed (set k v ∷ calls) s w = run-WellFormed calls _ (set_data-WellFormed k v s w)
  run-WellFormed (erase k ∷ calls) s w = run-WellFormed calls _ (erase_data-WellFormed k s w)
