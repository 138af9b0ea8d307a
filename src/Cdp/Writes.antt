-- ===== src/Cdp/Writes.antt =====
-- The calls of the single caches where no read fails, and sequences of calls.
use inery_persistent_memory.Base.{
  ◌≡◌, ◌≢◌, refl, ap, sym, ◌∙◌, Bool, true, false, if◌then◌else◌, Bool-cases, inl, inr,
}
use inery_persistent_memory.StdMap.{KeyOps, same}
use inery_persistent_memory.Serialize.{Codec, ValueOps}
use inery_persistent_memory.DbConf.Prefix.{PrefixType, cdp_global_data}
use inery_persistent_memory.LevelDb.{LevelDb}
use inery_persistent_memory.LevelDb.Wrapper.{Outcome, ok, Lookup, found, absent, failed, DbError}
use inery_persistent_memory.Composite.{
  Cache, Session, visible, set_data, erase_data, cache_get_data,
}
use inery_persistent_memory.Composite.View.{peek, view}
use inery_persistent_memory.Composite.Reads.{Alike}
use inery_persistent_memory.Composite.Contract.{
  Readable, view-set_data, view-erase_data, cache_get_data_lem,
}
use inery_persistent_memory.Cdp.{
  CdpGlobalData, and_then, and_also, get_cdp_global_data, change_totals,
}

module _ {V : Type 0} ⦃vo : ValueOps V⦄ where
  pub visible-failed : (r : Lookup V) (e : DbError) → visible r ≡ failed e → r ≡ failed e
  visible-failed (failed x) e h = h
  visible-failed absent e h = cc
  visible-failed (found v) e h = elim (Bool-cases (vo.is_empty v)) [
    | inl q ↦ let gone : visible (found v) ≡ absent = rw q refl in cc
    | inr q ↦ let there : visible (found v) ≡ found v = rw q refl in cc
  ]

  visible-found : (v : V) (e : DbError) → visible (found v) ≢ failed e
  visible-found v e h = let bad = visible-failed (found v) e h in cc

module _ {K V D : Type 0} ⦃ko : KeyOps K⦄ ⦃vo : ValueOps V⦄ ⦃kc : Codec K⦄ ⦃vc : Codec V⦄
    ⦃ldb : LevelDb D⦄ (p : PrefixType) where
  -- no read fails
  abbrev pub AllReadable : Cache K V D → Type 0
  AllReadable c = (k : K) → Readable p k c

  view-Readable :
      (k : K) (c : Cache K V D) → ((e : DbError) → view p k c ≢ failed e) → Readable p k c
  unfolding view
  view-Readable k c n e h = n e (ap visible h)

  pub Readable-view :
      (k : K) (c : Cache K V D) → Readable p k c → (e : DbError) → view p k c ≢ failed e
  unfolding view
  Readable-view k c n e h = n e (visible-failed (peek p k c) e h)

  -- a cache that shows a value or nothing at a key, and else what another shows
  readable_after :
      (k : K) (r : Lookup V) (c c' : Cache K V D)
      → ((e : DbError) → r ≢ failed e)
      → ((j : K) → view p j c' ≡ (if same j k then r else view p j c))
      → AllReadable c
      → AllReadable c'
  readable_after k r c c' n h all j = view-Readable j c' (elim (Bool-cases (same j k)) [
    | inl s ↦ λ e q. n e (sym (h j ∙ rw s refl) ∙ q)
    | inr s ↦ λ e q. Readable-view j c (all j) e (sym (h j ∙ rw s refl) ∙ q)
  ])

  pub Alike-view : (c c' : Cache K V D) → Alike p c c' → (k : K) → view p k c' ≡ view p k c
  unfolding view
  Alike-view c c' a k = ap visible (a.peeks k)

  pub Alike-readable : (c c' : Cache K V D) → Alike p c c' → AllReadable c → AllReadable c'
  Alike-readable c c' a all k e q = all k e (sym (a.peeks k) ∙ q)

  pub set_everywhere :
      (k : K) (v : V) (s : Session K V D)
      → ko.is_empty k ≡ false
      → AllReadable s.cache
      → ((set_data p k v s).0 ≡ ok true)
        × ((j : K)
            → view p j (set_data p k v s).1.cache
              ≡ (if same j k then visible (found v) else view p j s.cache))
        × AllReadable (set_data p k v s).1.cache
  set_everywhere k v s h all =
      let (o, w, lowers) = view-set_data p k v s h (all k) in
      (
        o,
        w,
        readable_after k (visible (found v)) s.cache (set_data p k v s).1.cache (visible-found v) w
            all,
      )

  pub erase_everywhere :
      (k : K) (s : Session K V D)
      → ko.is_empty k ≡ false
      → AllReadable s.cache
      → ((erase_data p k s).0 ≡ ok true)
        × ((j : K)
            → view p j (erase_data p k s).1.cache ≡ (if same j k then absent else view p j s.cache))
        × AllReadable (erase_data p k s).1.cache
  erase_everywhere k s h all =
      let (o, w, lowers) = view-erase_data p k s h (all k) in
      (o, w, readable_after k absent s.cache (erase_data p k s).1.cache (λ e q. cc) w all)

module _ {S : Type 0} where
  pub then_ok :
      (x : Outcome Bool × S) (f : S → Outcome Bool × S) → x.0 ≡ ok true → and_then x f ≡ f x.1
  unfolding and_then
  then_ok x f h = rw (h, and_then) refl

  pub also_ok :
      (x : Outcome Bool × S) (f : S → Outcome Bool × S) → x.0 ≡ ok true → and_also x f ≡ f x.1
  unfolding and_also
  also_ok x f h = rw (h, and_also) refl

-- the totals that are shown, or zeros
abbrev pub totals_of : Lookup CdpGlobalData → CdpGlobalData
totals_of (found g) = g
totals_of absent = record { total_staked_assets = 0; total_owed_scoins = 0 }
totals_of (failed e) = record { total_staked_assets = 0; total_owed_scoins = 0 }

module _ {P D : Type 0} ⦃po : KeyOps P⦄ ⦃vg : ValueOps CdpGlobalData⦄ ⦃cp : Codec P⦄
    ⦃cg : Codec CdpGlobalData⦄ ⦃ldb : LevelDb D⦄ where
  read_totals :
      (pair : P) (c : Cache P CdpGlobalData D) (r : Lookup CdpGlobalData)
      → ((e : DbError) → r ≢ failed e)
      → (cache_get_data cdp_global_data pair c).0 ≡ r
      → (get_cdp_global_data pair c).0 ≡ ok (totals_of r)
  unfolding get_cdp_global_data
  read_totals pair c (found g) n h = rw (h, get_cdp_global_data) refl
  read_totals pair c absent n h = rw (h, get_cdp_global_data) refl
  read_totals pair c (failed e) n h = absurd (n e refl)

  pub change_totals_lem :
      (pair : P) (f : CdpGlobalData → CdpGlobalData) (s : Session P CdpGlobalData D)
      → po.is_empty pair ≡ false
      → AllReadable cdp_global_data s.cache
      → ((change_totals pair f s).0 ≡ ok true)
        × ((q : P)
            → view cdp_global_data q (change_totals pair f s).1.cache ≡ (
                if same q pair
                then visible (found (f (totals_of (view cdp_global_data pair s.cache))))
                else view cdp_global_data q s.cache))
        × AllReadable cdp_global_data (change_totals pair f s).1.cache
  unfolding change_totals get_cdp_global_data view
  change_totals_lem pair f s h all =
      let (got, same_shown) = cache_get_data_lem cdp_global_data pair s.cache in
      let shows : (cache_get_data cdp_global_data pair s.cache).0
          ≡ view cdp_global_data pair s.cache =
        got ∙ rw h refl in
      let totals =
        read_totals pair s.cache (view cdp_global_data pair s.cache)
          (Readable-view cdp_global_data pair s.cache (all pair)) shows in
      let after : Session P CdpGlobalData D = record s {
        cache = (cache_get_data cdp_global_data pair s.cache).1;
      } in
      let (o, w, kept) =
        set_everywhere cdp_global_data pair (f (totals_of (view cdp_global_data pair s.cache)))
          after h (Alike-readable cdp_global_data s.cache after.cache same_shown all) in
      rw (totals, change_totals)
        (
          o,
          λ q. w q ∙ elim (Bool-cases (same q pair)) [
            | inl t ↦ rw t refl
            | inr t ↦ rw t (Alike-view cdp_global_data s.cache after.cache same_shown q)
          ],
          kept,
        )
