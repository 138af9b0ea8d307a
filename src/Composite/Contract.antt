-- ===== src/Composite/Contract.antt =====
-- The calls of a cache as its clients see them: a map from keys to values that are not empty.
use inery_persistent_memory.Base.{
  ◌≡◌, ◌≢◌, refl, ap, sym, ◌∙◌, Bool, true, false, if◌then◌else◌, arith, Bool-cases, inl, inr,
}
use inery_persistent_memory.StdMap.{KeyOps, same}
use inery_persistent_memory.StdMap.Find.{same→eq}
use inery_persistent_memory.Serialize.{Codec, ValueOps}
use inery_persistent_memory.DbConf.Prefix.{PrefixType}
use inery_persistent_memory.LevelDb.{LevelDb}
use inery_persistent_memory.LevelDb.Wrapper.{
  Outcome, ok, throws, Lookup, found, absent, failed, DbError,
}
use inery_persistent_memory.Composite.{
  Cache, Session, get_data_it, set_data, set_found, erase_data, erase_found, visible,
  cache_get_data, cache_has_data,
}
use inery_persistent_memory.Composite.View.{peek, lower, database, view}
use inery_persistent_memory.Composite.Reads.{Alike, get_data_it-Finds}
use inery_persistent_memory.Composite.Writes.{
  Wrote, Quiet, searched, set_data-Wrote, erase_found-Wrote, erase_found-Quiet, erase_found-ok,
}

-- The result of `HasData`, from what is shown.
abbrev pub is_found : {V : Type 0} → Lookup V → Outcome Bool
is_found (found _) = ok true
is_found absent = ok false
is_found (failed e) = throws e

module _ {K V D : Type 0} ⦃ko : KeyOps K⦄ ⦃vo : ValueOps V⦄ ⦃kc : Codec K⦄ ⦃vc : Codec V⦄
    ⦃ldb : LevelDb D⦄ (p : PrefixType) where
  -- the database can be read at the key, if the search gets there
  abbrev pub Readable : K → Cache K V D → Type 0
  Readable k c = (e : DbError) → peek p k c ≢ failed e

  -- the caches below, and the database, are as they were
  pub record Isolated (c c' : Cache K V D) : Type 0 where
    pub lowers : lower p c' ≡ lower p c
    pub databases : database c' ≡ database c

  abbrev pub shown : K → Cache K V D → Lookup V
  shown k c = if ko.is_empty k then absent else view p k c

  -- `GetData` and what is shown
  pub cache_get_data_lem :
      (k : K) (c : Cache K V D)
      → ((cache_get_data p k c).0 ≡ shown k c) × Alike p c (cache_get_data p k c).1
  unfolding cache_get_data view
  cache_get_data_lem k c = elim (Bool-cases (ko.is_empty k)) [
    | inl h ↦
        rw (h, cache_get_data) (refl, record { peeks = λ j. refl; lowers = refl; databases = refl })
    | inr h ↦
        rw (h, cache_get_data)
          (ap visible (get_data_it-Finds p k c).result, (get_data_it-Finds p k c).alike)
  ]

  has-get :
      (k : K) (c : Cache K V D)
      → ((cache_has_data p k c).0 ≡ is_found (cache_get_data p k c).0)
        × ((cache_has_data p k c).1 ≡ (cache_get_data p k c).1)
  unfolding cache_has_data
  has-get k c = (ground arith, refl)

  -- `GetData` returns what the cache shows at the key, nothing for an empty key, and throws where
  -- the database does; `HasData` says whether there is a value, and throws alike. After either
  -- every layer shows what it did.
  pub cache_reads_lem :
      (k : K) (c : Cache K V D)
      → ((cache_get_data p k c).0 ≡ shown k c)
        × Alike p c (cache_get_data p k c).1
        × ((cache_has_data p k c).0 ≡ is_found (shown k c))
        × Alike p c (cache_has_data p k c).1
  cache_reads_lem k c = (
    (cache_get_data_lem k c).0,
    (cache_get_data_lem k c).1,
    (has-get k c).0 ∙ ap is_found (cache_get_data_lem k c).0,
    rw (has-get k c).1 (cache_get_data_lem k c).1,
  )

  -- After `SetData` with a key that is not empty the cache shows the value at the key and what it
  -- showed at the others, and the caches below and the database are as they were.
  pub view-set_data :
      (k : K) (v : V) (s : Session K V D)
      → ko.is_empty k ≡ false
      → Readable k s.cache
      → ((set_data p k v s).0 ≡ ok true)
        × ((j : K)
            → view p j (set_data p k v s).1.cache
              ≡ (if same j k then visible (found v) else view p j s.cache))
        × Isolated s.cache (set_data p k v s).1.cache
  unfolding view
  view-set_data k v s h n =
      let (old, o, w) = set_data-Wrote p k v s h n in
      (
        o,
        λ j. ap visible (w.peeks j) ∙ elim (Bool-cases (same j k)) [ inl e ↦ rw e | inr e ↦ rw e ],
        record { lowers = w.lowers; databases = w.databases },
      )

  -- the effect of an erasure, for the value that the search found
  abbrev Erased : K → Session K V D → Session K V D → Type 0
  Erased k s s' =
      ((j : K) → view p j s'.cache ≡ (if same j k then absent else view p j s.cache))
      × Isolated s.cache s'.cache

  Wrote-Erased :
      (k : K) (old : V) (s s' : Session K V D)
      → Wrote p k old (vo.set_empty old) s s'
      → Erased k s s'
  unfolding view
  Wrote-Erased k old s s' w = (
    λ j. ap visible (w.peeks j) ∙ elim (Bool-cases (same j k)) [
      | inl e ↦ rw e (rw (vo.set_empty_is_empty old))
      | inr e ↦ rw e
    ],
    record { lowers = w.lowers; databases = w.databases },
  )

  Quiet-Erased :
      (k : K) (s s' : Session K V D) → view p k s.cache ≡ absent → Quiet p s s' → Erased k s s'
  unfolding view
  Quiet-Erased k s s' h q = (
    λ j.
        ap visible (q.alike.peeks j)
        ∙ elim (Bool-cases (same j k)) [ inl e ↦ rw e (rw (same→eq j k e) h) | inr e ↦ rw e ],
    record { lowers = q.alike.lowers; databases = q.alike.databases },
  )

  erase_found-Erased :
      (k : K) (s : Session K V D) (r : Lookup V)
      → (get_data_it p k s.cache).0 ≡ r
      → ((e : DbError) → r ≢ failed e)
      → ((erase_found p k r (searched p k s)).0 ≡ ok true)
        × Erased k s (erase_found p k r (searched p k s)).1
  unfolding view
  erase_found-Erased k s absent e n =
      let f = get_data_it-Finds p k s.cache in
      unfold erase_found in
      (
        refl,
        Quiet-Erased k s _ (ap visible (sym f.result ∙ e))
            (record { alike = f.alike; silent = refl }),
      )
  erase_found-Erased k s (found old) e n =
      let f = get_data_it-Finds p k s.cache in
      (
        erase_found-ok p k old (searched p k s),
        elim (Bool-cases (vo.is_empty old)) [
          | inl h ↦
              Quiet-Erased k s _ (ap visible (sym f.result ∙ e) ∙ rw h)
                (erase_found-Quiet p k old s h)
          | inr h ↦ Wrote-Erased k old s _ (erase_found-Wrote p k old s e h)
        ],
      )
  erase_found-Erased k s (failed x) e n = absurd (n x refl)

  -- After `EraseData` with a key that is not empty the cache shows nothing at the key and what it
  -- showed at the others, and the caches below and the database are as they were.
  pub view-erase_data :
      (k : K) (s : Session K V D)
      → ko.is_empty k ≡ false
      → Readable k s.cache
      → ((erase_data p k s).0 ≡ ok true)
        × ((j : K)
            → view p j (erase_data p k s).1.cache ≡ (if same j k then absent else view p j s.cache))
        × Isolated s.cache (erase_data p k s).1.cache
  unfolding erase_data
  view-erase_data k s h n =
      let (o, e) =
        erase_found-Erased k s (get_data_it p k s.cache).0 refl
          (λ x q. n x (sym (get_data_it-Finds p k s.cache).result ∙ q)) in
      rw (h, erase_data) (o, e.0, e.1)

  -- With an empty key both writes return false, and neither changes anything.
  pub empty_key_rejected :
      (k : K) (v : V) (s : Session K V D)
      → ko.is_empty k ≡ true
      → (set_data p k v s ≡ (ok false, s)) × (erase_data p k s ≡ (ok false, s))
  unfolding set_data erase_data
  empty_key_rejected k v s h = (rw (h, set_data), rw (h, erase_data))

  failed_search :
      (k : K) (v : V) (e : DbError) (s s' : Session K V D) (r : Lookup V)
      → r ≡ failed e
      → (set_found p k v r s' ≡ (throws e, s')) × (erase_found p k r s' ≡ (throws e, s'))
  unfolding set_found erase_found
  failed_search k v e s s' absent h = cc
  failed_search k v e s s' (found x) h = cc
  failed_search k v e s s' (failed x) h = (ground arith, ground arith)

  -- Where the database cannot be read at the key, both writes throw its error; nothing that can be
  -- seen changes, and nothing is logged.
  pub failed_read_throws :
      (k : K) (v : V) (e : DbError) (s : Session K V D)
      → ko.is_empty k ≡ false
      → peek p k s.cache ≡ failed e
      → ((set_data p k v s).0 ≡ throws e)
        × Quiet p s (set_data p k v s).1
        × ((erase_data p k s).0 ≡ throws e)
        × Quiet p s (erase_data p k s).1
  unfolding set_data erase_data
  failed_read_throws k v e s h q =
      let f = get_data_it-Finds p k s.cache in
      let (a, b) =
        failed_search k v e s (searched p k s) (get_data_it p k s.cache).0 (f.result ∙ q) in
      let still : Quiet p s (searched p k s) = record { alike = f.alike; silent = refl } in
      rw (h, set_data, erase_data) (rw (a, b) (refl, still, refl, still))
