-- ===== src/DbIterator/Contract.antt =====
-- What an iterator over a cache delivers, against what the cache shows.
use inery_persistent_memory.Base.{
  ℕ, ◌+◌, ◌<◌, ◌≤◌, ◌≡◌, refl, ap, sym, ◌∙◌, subst, true, Option, none, some, List, arith,
  Bool-cases, inl, inr,
}
use mathlib.Core.Option.{some-injective}
use inery_persistent_memory.StdMap.{KeyOps, find}
use inery_persistent_memory.StdMap.Order.{Sorted}
use inery_persistent_memory.Serialize.{Codec, ValueOps}
use inery_persistent_memory.DbConf.Prefix.{PrefixType}
use inery_persistent_memory.DbConf.Keys.{is_key_prefix}
use inery_persistent_memory.LevelDb.{LevelDb}
use inery_persistent_memory.LevelDb.Wrapper.{Lookup, found, absent, failed}
use inery_persistent_memory.LevelDb.Access.{get_data}
use inery_persistent_memory.Composite.{Layer, Cache, detached, on_db, on_base, visible}
use inery_persistent_memory.Composite.View.{view, peek, over, database}
use inery_persistent_memory.Composite.WellFormed.{WellFormed}
use inery_persistent_memory.DbIterator.{LevelDbEntries}
use inery_persistent_memory.DbIterator.Delivery.{length, StartsWith, Seeks, merge, live}
use inery_persistent_memory.DbIterator.Merged.{merge_first-StartsWith, merge_seek-Seeks}
use inery_persistent_memory.DbIterator.Entries.{
  first_of, kept, merge-Sorted, find-merge, live-Sorted, find-live, length-live-merge,
}
use inery_persistent_memory.DbIterator.Chain.{
  AnyIterator, layer_iterator, access_iterator, create, as_lookup, Holds, cached,
  db_first-StartsWith, db_seek-Seeks,
}

module _ {V : Type 0} ⦃vo : ValueOps V⦄ where
  as_lookup-kept : (o : Option V) → as_lookup (kept o) ≡ visible (as_lookup o)
  as_lookup-kept none = refl
  as_lookup-kept (some v) = elim (Bool-cases (vo.is_empty v)) [ inl e ↦ rw e | inr e ↦ rw e ]

  visible_twice : (r : Lookup V) → visible (visible r) ≡ visible r
  visible_twice (failed e) = refl
  visible_twice absent = refl
  visible_twice (found v) = elim (Bool-cases (vo.is_empty v)) [
    | inl e ↦ rw e
    | inr e ↦ rw e (rw e refl)
  ]

  -- a layer over what is shown below
  shown_over :
      (o b : Option V) (r : Lookup V)
      → visible (as_lookup b) ≡ visible r
      → as_lookup (kept (first_of o b)) ≡ visible (over o r)
  shown_over (some v) b r h = as_lookup-kept (some v)
  shown_over none b r h = as_lookup-kept b ∙ h

module _ {K V D : Type 0} ⦃ko : KeyOps K⦄ ⦃vo : ValueOps V⦄ ⦃kc : Codec K⦄ ⦃vc : Codec V⦄
    ⦃ldb : LevelDb D⦄ ⦃le : LevelDbEntries D⦄ (fuel : ℕ) (p : PrefixType) where
  -- The iterator delivers entries in the order of their keys, each key once, and a key has an entry
  -- exactly where the cache shows a value, which is the entry's.
  pub record Enumerates (c : Cache K V D) (it : AnyIterator K V) (bound : ℕ) : Type 0 where
    pub items : List (K × V)
    pub delivers : StartsWith it.calls it.start items
    pub seeks : Seeks it.calls it.start items
    pub in_order : Sorted items
    pub shows : (k : K) → as_lookup (find k items) ≡ view p k c
    pub short : length items ≤ bound

  layer_Enumerates :
      (l : Layer K V) (it : AnyIterator K V) (c : Cache K V D) (b : List (K × V)) (r : K → Lookup V)
      → StartsWith it.calls it.start b
      → Seeks it.calls it.start b
      → Sorted l.map_data
      → Sorted b
      → length l.map_data + length b < fuel
      → (n : ℕ) → length l.map_data + length b ≤ n
      → ((k : K) → visible (as_lookup (find k b)) ≡ visible (r k))
      → ((k : K) → peek p k c ≡ over (find k l.map_data) (r k))
      → Enumerates c (layer_iterator fuel l it) n
  unfolding view
  layer_Enumerates l it c b r d ds sl sb enough n le low top = record {
    items = live (merge l.map_data b);
    delivers = merge_first-StartsWith it.calls fuel (layer_iterator fuel l it).start b d enough;
    seeks = merge_seek-Seeks it.calls fuel (layer_iterator fuel l it).start b sl sb ds enough;
    in_order = live-Sorted (merge l.map_data b) (merge-Sorted l.map_data b sl sb);
    shows = λ k.
        ap as_lookup (
          find-live k (merge l.map_data b) (merge-Sorted l.map_data b sl sb)
          ∙ ap kept (find-merge k l.map_data b sl sb))
        ∙ shown_over (find k l.map_data) (find k b) (r k) (low k)
        ∙ ap visible (sym (top k));
    short = let s = length-live-merge l.map_data b in omega arith;
  }

  -- For a prefix of keys, a cache over a database that holds the items, with its maps in order, and
  -- fuel above the number of all their entries: `Create` makes an iterator whose `First` and then
  -- `Next` deliver, in the order of the keys, each key with a value once, and a key is delivered
  -- exactly where the cache shows a value, with that value. `Seek` of a key that is not empty and
  -- then `Next` deliver the same entries from the first that is not less than the key.
  pub create-Enumerates :
      (c : Cache K V D) (d : D) (stored : List (K × V))
      → is_key_prefix p ≡ true
      → database c ≡ some d
      → Holds p d stored
      → WellFormed c
      → cached c + length stored < fuel
      → (it : AnyIterator K V) × (create fuel p c ≡ some it)
        × Enumerates c it (cached c + length stored)
  unfolding create database peek view
  create-Enumerates (detached l) d stored hp hd h w enough = cc
  create-Enumerates (on_db l d') d stored hp hd h w enough =
      let q : Holds p d' stored = subst (λ x. Holds p x stored) (sym (some-injective d' d hd)) h in
      (
        layer_iterator fuel l (access_iterator p d'),
        refl,
        layer_Enumerates l (access_iterator p d') (on_db l d') stored (λ k. get_data p k d')
            (db_first-StartsWith p d' stored hp q) (db_seek-Seeks p d' stored hp q) w q.in_order
            enough (cached (on_db l d') + length stored) (omega arith)
            (λ k. sym (ap visible (q.reads k))) (λ k. refl),
      )
  create-Enumerates (on_base l c) d stored hp hd h w enough =
      let (it, e, n) = create-Enumerates c d stored hp hd h w.1 (omega arith) in
      let s = n.short in
      (
        layer_iterator fuel l it,
        rw (e, create) refl,
        layer_Enumerates l it (on_base l c) n.items (λ k. peek p k c) n.delivers n.seeks w.0
            n.in_order (omega arith) (cached (on_base l c) + length stored) (omega arith)
            (λ k. ap visible (n.shows k) ∙ visible_twice (peek p k c)) (λ k. refl),
      )
