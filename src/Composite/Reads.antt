-- ===== src/Composite/Reads.antt =====
-- `GetDataIt` of `IneryCompositeKVCache` against what the cache shows.
use inery_persistent_memory.Base.{
  ◌≡◌, refl, sym, ◌∙◌, none, some, ◌∷◌, Option-cases, Bool-cases, inl, inr,
}
use inery_persistent_memory.StdMap.{KeyOps, find, insert, same}
use inery_persistent_memory.StdMap.Find.{find-insert, same_refl, same→eq}
use inery_persistent_memory.Serialize.{Codec}
use inery_persistent_memory.DbConf.Prefix.{PrefixType}
use inery_persistent_memory.LevelDb.{LevelDb}
use inery_persistent_memory.LevelDb.Wrapper.{Lookup, found, absent, failed}
use inery_persistent_memory.LevelDb.Access.{get_data}
use inery_persistent_memory.Composite.{
  Layer, Cache, detached, on_db, on_base, top, with_top, keep, keep_found, get_data_it,
}
use inery_persistent_memory.Composite.View.{
  peek, below, lower, database, peek-over, peek-with_top, lower-with_top, top-with_top,
  database-with_top, with_entry, add_data_to_map-absent, map_data-inc_entry_size,
}

module _ {K V : Type 0} ⦃ko : KeyOps K⦄ ⦃kc : Codec K⦄ ⦃vc : Codec V⦄ where
  find-with_entry_self :
      (k : K) (v : V) (l : Layer K V)
      → find k l.map_data ≡ none
      → find k (with_entry k v l).map_data ≡ some v
  find-with_entry_self k v l h =
      rw (map_data-inc_entry_size k v (record l { map_data = insert k v l.map_data }))
        (rw (find-insert k k v l.map_data h, same_refl k))

module _ {K V D : Type 0} ⦃ko : KeyOps K⦄ ⦃kc : Codec K⦄ ⦃vc : Codec V⦄ ⦃ldb : LevelDb D⦄
    (p : PrefixType) where
  -- two caches of which each layer shows the same, over the same database
  pub record Alike (c c' : Cache K V D) : Type 0 where
    pub peeks : (j : K) → peek p j c' ≡ peek p j c
    pub lowers : lower p c' ≡ lower p c
    pub databases : database c' ≡ database c

  -- a search for a key in a cache, by its result and the cache after it
  pub record Finds (k : K) (c : Cache K V D) (out : Lookup V × Cache K V D) : Type 0 where
    pub result : out.0 ≡ peek p k c
    pub alike : Alike c out.1
    pub cached : (v : V) → out.0 ≡ found v → find k (top out.1).map_data ≡ some v
    pub missing : out.0 ≡ absent → find k (top out.1).map_data ≡ none

  Alike-refl : (c : Cache K V D) → Alike c c
  Alike-refl c = record { peeks = λ j. refl; lowers = refl; databases = refl }

  peek-with_entry :
      (k j : K) (v : V) (c : Cache K V D)
      → find k (top c).map_data ≡ none
      → below p k c ≡ found v
      → peek p j (with_top (with_entry k v (top c)) c) ≡ peek p j c
  peek-with_entry k j v c h e =
      rw (peek-with_top p j (with_entry k v (top c)) c, peek-over p j c)
        (rw
          (map_data-inc_entry_size k v (record (top c) { map_data = insert k v (top c).map_data }))
          (rw (find-insert k j v (top c).map_data h) (elim (Bool-cases (same j k)) [
            | inl s ↦ rw s (rw (same→eq j k s) (rw (h, e)))
            | inr n ↦ rw n
          ])))

  keep_found-Finds :
      (k : K) (v : V) (c : Cache K V D)
      → find k (top c).map_data ≡ none
      → below p k c ≡ found v
      → Finds k c (keep_found k v c)
  unfolding keep_found
  keep_found-Finds k v c h e =
      rw (add_data_to_map-absent k v (top c) h, keep_found)
        (record {
          result = rw (peek-over p k c, h, e);
          alike = record {
            peeks = λ j. peek-with_entry k j v c h e;
            lowers = lower-with_top p (with_entry k v (top c)) c;
            databases = database-with_top (with_entry k v (top c)) c;
          };
          cached = λ w q.
              rw (top-with_top (with_entry k v (top c)) c)
                (find-with_entry_self k v (top c) h ∙ cc);
          missing = λ q. cc;
        })

  keep-Finds :
      (k : K) (r : Lookup V) (c : Cache K V D)
      → find k (top c).map_data ≡ none
      → below p k c ≡ r
      → Finds k c (keep k r c)
  unfolding keep
  keep-Finds k (found v) c h e = keep_found-Finds k v c h e
  keep-Finds k absent c h e = record {
    result = rw (peek-over p k c, h, e);
    alike = Alike-refl c;
    cached = λ w q. cc;
    missing = λ q. h;
  }
  keep-Finds k (failed x) c h e = record {
    result = rw (peek-over p k c, h, e);
    alike = Alike-refl c;
    cached = λ w q. cc;
    missing = λ q. cc;
  }

  -- the entry is in the object's own map
  hit-Finds :
      (k : K) (v : V) (c : Cache K V D) → find k (top c).map_data ≡ some v → Finds k c (found v, c)
  hit-Finds k v c h = record {
    result = rw (peek-over p k c, h);
    alike = Alike-refl c;
    cached = λ w q. h ∙ cc;
    missing = λ q. cc;
  }

  peek-on_base :
      (l : Layer K V) (c c' : Cache K V D) (j : K)
      → Alike c c'
      → peek p j (on_base l c') ≡ peek p j (on_base l c)
  unfolding peek
  peek-on_base l c c' j a = rw (a.peeks j)

  -- a base that is alike makes the cache on it alike
  Alike-on_base :
      (l : Layer K V) (c c' : Cache K V D) → Alike c c' → Alike (on_base l c) (on_base l c')
  unfolding lower database
  Alike-on_base l c c' a = record {
    peeks = λ j. peek-on_base l c c' j a;
    lowers = λ i. (λ k. a.peeks k i) ∷ a.lowers i;
    databases = a.databases;
  }

  Alike-trans : (a b c : Cache K V D) → Alike a b → Alike b c → Alike a c
  Alike-trans a b c h k = record {
    peeks = λ j. k.peeks j ∙ h.peeks j;
    lowers = k.lowers ∙ h.lowers;
    databases = k.databases ∙ h.databases;
  }

  miss-Finds :
      (k : K) (l : Layer K V) (c c' : Cache K V D) (r : Lookup V)
      → find k l.map_data ≡ none
      → r ≡ peek p k c
      → Alike c c'
      → Finds k (on_base l c) (keep k r (on_base l c'))
  unfolding below
  miss-Finds k l c c' r h e a =
      let f = keep-Finds k r (on_base l c') h (a.peeks k ∙ sym e) in
      record {
        result = f.result ∙ peek-on_base l c c' k a;
        alike =
            Alike-trans (on_base l c) (on_base l c') (keep k r (on_base l c')).1
              (Alike-on_base l c c' a) f.alike;
        cached = f.cached;
        missing = f.missing;
      }

  -- The search finds what the cache shows; after it every layer shows what it did.
  pub get_data_it-Finds : (k : K) (c : Cache K V D) → Finds k c (get_data_it p k c)
  unfolding get_data_it below
  get_data_it-Finds k (detached l) = elim (Option-cases (find k l.map_data)) [
    | inl h ↦ rw (h, get_data_it) (unfold keep in keep-Finds k absent (detached l) h refl)
    | inr (v, h) ↦ rw (h, get_data_it) (hit-Finds k v (detached l) h)
  ]
  get_data_it-Finds k (on_db l d) = elim (Option-cases (find k l.map_data)) [
    | inl h ↦ rw (h, get_data_it) (keep-Finds k (get_data p k d) (on_db l d) h refl)
    | inr (v, h) ↦ rw (h, get_data_it) (hit-Finds k v (on_db l d) h)
  ]
  get_data_it-Finds k (on_base l c) =
      let f = get_data_it-Finds k c in
      elim (Option-cases (find k l.map_data)) [
        | inl h ↦
            rw (h, get_data_it)
              (miss-Finds k l c (get_data_it p k c).1 (get_data_it p k c).0 h f.result f.alike)
        | inr (v, h) ↦ rw (h, get_data_it) (hit-Finds k v (on_base l c) h)
      ]
