-- ===== src/Composite/Writes.antt =====
-- `SetData` and `EraseData`: what the cache shows afterwards, and what is logged.
use inery_persistent_memory.Base.{
  ◌≡◌, ◌≢◌, refl, ap, sym, ◌∙◌, Bool, true, false, if◌then◌else◌, Bool-cases, inl, inr,
}
use inery_persistent_memory.StdMap.{KeyOps, same}
use inery_persistent_memory.Serialize.{Codec, ValueOps, make_empty_value}
use inery_persistent_memory.DbConf.Prefix.{PrefixType}
use inery_persistent_memory.LevelDb.{LevelDb}
use inery_persistent_memory.LevelDb.Wrapper.{Outcome, ok, Lookup, found, absent, failed, DbError}
use inery_persistent_memory.Composite.{
  Layer, Cache, Session, top, with_top, update_data_size, assign_value, erase_value, get_data_it,
  set_data, set_found, erase_data, erase_found, log_old_value, visible,
}
use inery_persistent_memory.Composite.View.{
  peek, lower, database, view, with_entry, add_data_to_map-absent, lower-with_top,
  database-with_top,
}
use inery_persistent_memory.Composite.Reads.{Alike, get_data_it-Finds}
use inery_persistent_memory.Composite.Puts.{
  Puts, with_entry-Puts, assign_value-Puts, erase_value-Puts, peek-Puts,
}

pub visible-make_empty_value :
    (V : Type 0) ⦃vo : ValueOps V⦄ → visible (found (make_empty_value {V = V})) ≡ absent
visible-make_empty_value V ⦃vo⦄ = rw (vo.set_empty_is_empty vo.default)

module _ {K V D : Type 0} ⦃ko : KeyOps K⦄ ⦃vo : ValueOps V⦄ ⦃kc : Codec K⦄ ⦃vc : Codec V⦄
    ⦃ldb : LevelDb D⦄ (p : PrefixType) where
  -- `v` is put at `k`, and the old value is logged
  pub record Wrote (k : K) (old v : V) (s s' : Session K V D) : Type 0 where
    pub before : view p k s.cache ≡ visible (found old)
    pub peeks : (j : K) → peek p j s'.cache ≡ (if same j k then found v else peek p j s.cache)
    pub lowers : lower p s'.cache ≡ lower p s.cache
    pub databases : database s'.cache ≡ database s.cache
    pub logged : s'.op_log_map ≡ log_old_value p k old s.op_log_map

  -- nothing that can be seen changes, and nothing is logged
  pub record Quiet (s s' : Session K V D) : Type 0 where
    pub alike : Alike p s.cache s'.cache
    pub silent : s'.op_log_map ≡ s.op_log_map

  -- the search, then a layer with `v` put at `k`
  put-Wrote :
      (k : K) (old v : V) (s s' : Session K V D) (c : Cache K V D) (l : Layer K V)
      → view p k s.cache ≡ visible (found old)
      → Alike p s.cache c
      → Puts k v (top c) l
      → s'.cache ≡ with_top l c
      → s'.op_log_map ≡ log_old_value p k old s.op_log_map
      → Wrote k old v s s'
  put-Wrote k old v s s' c l b a q e g = record {
    before = b;
    peeks = λ j. rw e (peek-Puts p k j v l c q ∙ rw (a.peeks j));
    lowers = rw e (lower-with_top p l c ∙ a.lowers);
    databases = rw e (database-with_top l c ∙ a.databases);
    logged = g;
  }

  -- how the session changes under a write of `v` at `k`, by the result of the search
  pub data Effect (s s' : Session K V D) (out : Outcome Bool) : Type 0 where
    wrote : (k : K) (old v : V) → out ≡ ok true → Wrote k old v s s' → Effect s s' out
    quiet : Quiet s s' → Effect s s' out

  -- The session after the search, and before the write.
  abbrev pub searched : K → Session K V D → Session K V D
  searched k s = record s { cache = (get_data_it p k s.cache).1 }

  set_found-Wrote :
      (k : K) (v : V) (s : Session K V D) (r : Lookup V)
      → (get_data_it p k s.cache).0 ≡ r
      → ((e : DbError) → r ≢ failed e)
      → (old : V) × ((set_found p k v r (searched k s)).0 ≡ ok true)
        × Wrote k old v s (set_found p k v r (searched k s)).1
  unfolding set_found view
  set_found-Wrote k v s absent e n =
      let f = get_data_it-Finds p k s.cache in
      let c = (get_data_it p k s.cache).1 in
      let h = f.missing e in
      let l = with_entry k v (top c) in
      (
        make_empty_value {V = V},
        rw (add_data_to_map-absent k v (top c) h, set_found),
        rw (add_data_to_map-absent k v (top c) h, set_found)
            (put-Wrote k (make_empty_value {V = V}) v s _ c l
              (ap visible (sym f.result ∙ e) ∙ sym (visible-make_empty_value V)) f.alike
              (with_entry-Puts k v (top c) h) refl refl),
      )
  set_found-Wrote k v s (found old) e n =
      let f = get_data_it-Finds p k s.cache in
      let c = (get_data_it p k s.cache).1 in
      (
        old,
        refl,
        put-Wrote k old v s _ c (assign_value k v (update_data_size old v (top c)))
            (ap visible (sym f.result ∙ e)) f.alike
            (assign_value-Puts k old v (top c) (f.cached old e)) refl refl,
      )
  set_found-Wrote k v s (failed x) e n = absurd (n x refl)

  -- With a key that is not empty, and a search that does not throw, `SetData` succeeds.
  pub set_data-Wrote :
      (k : K) (v : V) (s : Session K V D)
      → ko.is_empty k ≡ false
      → ((e : DbError) → peek p k s.cache ≢ failed e)
      → (old : V) × ((set_data p k v s).0 ≡ ok true) × Wrote k old v s (set_data p k v s).1
  unfolding set_data
  set_data-Wrote k v s h n =
      rw (h, set_data)
        (set_found-Wrote k v s (get_data_it p k s.cache).0 refl
          (λ e q. n e (sym (get_data_it-Finds p k s.cache).result ∙ q)))

  pub set_found-Effect :
      (k : K) (v : V) (s : Session K V D) (r : Lookup V)
      → (get_data_it p k s.cache).0 ≡ r
      → Effect s (set_found p k v r (searched k s)).1 (set_found p k v r (searched k s)).0
  set_found-Effect k v s absent e =
      let (old, o, w) = set_found-Wrote k v s absent e (λ x q. cc) in wrote k old v o w
  set_found-Effect k v s (found x) e =
      let (old, o, w) = set_found-Wrote k v s (found x) e (λ x q. cc) in wrote k old v o w
  set_found-Effect k v s (failed x) e =
      unfold set_found in
      quiet (record { alike = (get_data_it-Finds p k s.cache).alike; silent = refl })

  Quiet-refl : (s : Session K V D) → Quiet s s
  Quiet-refl s = record {
    alike = record { peeks = λ j. refl; lowers = refl; databases = refl };
    silent = refl;
  }

  pub set_data-Effect :
      (k : K) (v : V) (s : Session K V D) → Effect s (set_data p k v s).1 (set_data p k v s).0
  unfolding set_data
  set_data-Effect k v s = elim (Bool-cases (ko.is_empty k)) [
    | inl h ↦ rw (h, set_data) (quiet (Quiet-refl s))
    | inr h ↦ rw (h, set_data) (set_found-Effect k v s (get_data_it p k s.cache).0 refl)
  ]

  -- where the found value is not empty, `EraseData` puts the emptied value
  pub erase_found-Wrote :
      (k : K) (old : V) (s : Session K V D)
      → (get_data_it p k s.cache).0 ≡ found old
      → vo.is_empty old ≡ false
      → Wrote k old (vo.set_empty old) s (erase_found p k (found old) (searched k s)).1
  unfolding erase_found view
  erase_found-Wrote k old s e h =
      let f = get_data_it-Finds p k s.cache in
      let c = (get_data_it p k s.cache).1 in
      rw (h, erase_found)
        (put-Wrote k old (vo.set_empty old) s _ c (erase_value k old (top c))
          (ap visible (sym f.result ∙ e)) f.alike (erase_value-Puts k old (top c) (f.cached old e))
          refl refl)

  pub erase_found-Quiet :
      (k : K) (old : V) (s : Session K V D)
      → vo.is_empty old ≡ true
      → Quiet s (erase_found p k (found old) (searched k s)).1
  unfolding erase_found
  erase_found-Quiet k old s h =
      rw (h, erase_found) (record { alike = (get_data_it-Finds p k s.cache).alike; silent = refl })

  pub erase_found-ok :
      (k : K) (old : V) (s : Session K V D) → (erase_found p k (found old) s).0 ≡ ok true
  unfolding erase_found
  erase_found-ok k old s = refl

  pub erase_found-Effect :
      (k : K) (s : Session K V D) (r : Lookup V)
      → (get_data_it p k s.cache).0 ≡ r
      → Effect s (erase_found p k r (searched k s)).1 (erase_found p k r (searched k s)).0
  erase_found-Effect k s absent e =
      unfold erase_found in
      quiet (record { alike = (get_data_it-Finds p k s.cache).alike; silent = refl })
  erase_found-Effect k s (found old) e = elim (Bool-cases (vo.is_empty old)) [
    | inl h ↦ quiet (erase_found-Quiet k old s h)
    | inr h ↦
        wrote k old (vo.set_empty old) (erase_found-ok k old (searched k s))
          (erase_found-Wrote k old s e h)
  ]
  erase_found-Effect k s (failed x) e =
      unfold erase_found in
      quiet (record { alike = (get_data_it-Finds p k s.cache).alike; silent = refl })

  pub erase_data-Effect :
      (k : K) (s : Session K V D) → Effect s (erase_data p k s).1 (erase_data p k s).0
  unfolding erase_data
  erase_data-Effect k s = elim (Bool-cases (ko.is_empty k)) [
    | inl h ↦ rw (h, erase_data) (quiet (Quiet-refl s))
    | inr h ↦ rw (h, erase_data) (erase_found-Effect k s (get_data_it p k s.cache).0 refl)
  ]
