-- ===== src/Composite/Flush/Base.antt =====
-- A flush into a base.
use inery_persistent_memory.Base.{
  ◌≡◌, refl, ap, ◌∙◌, none, List, [], ◌∷◌, if◌then◌else◌, Bool-cases, inl, inr,
}
use inery_persistent_memory.StdMap.{KeyOps, find, same}
use inery_persistent_memory.StdMap.Find.{same→eq}
use inery_persistent_memory.StdMap.Order.{Sorted, find-AllAbove}
use inery_persistent_memory.Serialize.{Codec, ValueOps}
use inery_persistent_memory.DbConf.Prefix.{PrefixType}
use inery_persistent_memory.LevelDb.{LevelDb}
use inery_persistent_memory.LevelDb.Wrapper.{ok, Lookup, found}
use inery_persistent_memory.Composite.{Layer, Cache, on_base, top, with_top}
use inery_persistent_memory.Composite.View.{
  emptied, over, peek, lower, database, lower-with_top, database-with_top,
}
use inery_persistent_memory.Composite.Puts.{set_data_to_self-Puts, peek-Puts}
use inery_persistent_memory.Composite.Flush.{clear, put_all, flush}

module _ {K V : Type 0} ⦃ko : KeyOps K⦄ where
  over-put :
      (k j : K) (v : V) (m : List (K × V)) (r : Lookup V)
      → find k m ≡ none
      → over (find j m) (if same j k then found v else r) ≡ over (find j ((k, v) ∷ m)) r
  unfolding find
  over-put k j v m r h = elim (Bool-cases (same j k)) [
    | inl e ↦ rw e (rw (same→eq j k e) (rw h))
    | inr e ↦ rw e
  ]

module _ {K V D : Type 0} ⦃ko : KeyOps K⦄ ⦃kc : Codec K⦄ ⦃vc : Codec V⦄ ⦃ldb : LevelDb D⦄
    (p : PrefixType) where
  -- a cache that the entries `m` have been put into
  pub record Received (m : List (K × V)) (c c' : Cache K V D) : Type 0 where
    pub peeks : (j : K) → peek p j c' ≡ over (find j m) (peek p j c)
    pub lowers : lower p c' ≡ lower p c
    pub databases : database c' ≡ database c

  put_all-Received :
      (m : List (K × V)) (c : Cache K V D)
      → Sorted m
      → (c' : Cache K V D) × (put_all m c ≡ ok c') × Received m c c'
  unfolding put_all find
  put_all-Received [] c s = (c, refl, record { peeks = λ j. refl; lowers = refl; databases = refl })
  put_all-Received ((k, v) ∷ m) c s =
      let (l, e, q) = set_data_to_self-Puts k v (top c) in
      let (c', done, r) = put_all-Received m (with_top l c) s.1 in
      (
        c',
        rw (e, put_all) done,
        record {
          peeks = λ j.
              r.peeks j
              ∙ ap (over (find j m)) (peek-Puts p k j v l c q)
              ∙ over-put k j v m (peek p j c) (find-AllAbove k m s.0);
          lowers = r.lowers ∙ lower-with_top p l c;
          databases = r.databases ∙ database-with_top l c;
        },
      )

  -- `Flush` into a base succeeds and empties the layer, its size counter too. Then the cache and its base both show, at
  -- every key, what the cache showed, and the caches below the base and the database are as they
  -- were.
  pub flush_to_base :
      ⦃vo : ValueOps V⦄ (l : Layer K V) (c : Cache K V D)
      → Sorted l.map_data
      → (c' : Cache K V D) × (flush p (on_base l c) ≡ (ok tt, on_base (emptied l) c'))
        × ((j : K) → peek p j c' ≡ peek p j (on_base l c))
        × ((j : K) → peek p j (on_base (emptied l) c') ≡ peek p j (on_base l c))
        × (lower p c' ≡ lower p c)
        × (database c' ≡ database c)
  unfolding flush peek clear find
  flush_to_base l c s =
      let (c', done, r) = put_all-Received l.map_data c s in
      (c', rw (done, flush), r.peeks, r.peeks, r.lowers, r.databases)
