-- ===== src/Cdp/Inr.antt =====
-- The assets that a position can stake, `GetCdpINR` and `SetCdpINR` of persistence/cdpdb.cpp, and the
-- records of closed positions, `CClosedCdpDBCache` of persistence/cdpdb.h.
use inery_persistent_memory.Base.{ℕ, ◌≡◌, ◌≢◌, refl, ◌∙◌, Bool, true, false, if◌then◌else◌}
use inery_persistent_memory.StdMap.{KeyOps, same}
use inery_persistent_memory.StdMap.Find.{same_refl}
use inery_persistent_memory.Serialize.{Codec, ValueOps}
use inery_persistent_memory.DbConf.Prefix.{cdp_inr, closed_cdp_tx, closed_tx_cdp}
use inery_persistent_memory.LevelDb.{LevelDb}
use inery_persistent_memory.LevelDb.Wrapper.{
  Outcome, ok, throws, Lookup, found, absent, failed, DbError,
}
use inery_persistent_memory.Composite.{
  Cache, Session, visible, set_data, cache_get_data, cache_has_data,
}
use inery_persistent_memory.Composite.View.{view}
use inery_persistent_memory.Composite.Contract.{cache_get_data_lem}
use inery_persistent_memory.Cdp.Writes.{
  AllReadable, set_everywhere, Readable-view, Alike-readable, Alike-view,
}

-- what the cache uses of `IneryCdpINRDetail`
pub record InrDetail (S R : Type 0) : Type 0 where
  pub status : S
  pub init_tx_cord : R

-- the detail that is to be there after the call
abbrev pub merged_detail : {S R : Type 0} → InrDetail S R → Lookup (InrDetail S R) → InrDetail S R
merged_detail d (found old) = record old { status = d.status }
merged_detail d absent = d
merged_detail d (failed e) = d

-- The symbols of the configuration: `kCdpINRSymbolSet`, and `SYMB::WGRT` with `kCdpScoinSymbolSet`;
-- and the detail of a symbol of the first set, `STAKE_ON` with the regid (0, 1).
pub record InrSymbols (T S R : Type 0) : Type 0 where
  pub is_builtin : T → Bool
  pub is_excluded : T → Bool
  pub builtin_detail : InrDetail S R

module _ {T S R D : Type 0} ⦃ko : KeyOps T⦄ ⦃vo : ValueOps (InrDetail S R)⦄ ⦃kc : Codec T⦄
    ⦃vc : Codec (InrDetail S R)⦄ ⦃ldb : LevelDb D⦄ (symbols : InrSymbols T S R) where
  -- GetCdpINR
  unfoldable pub get_cdp_inr :
      T → Cache T (InrDetail S R) D → Lookup (InrDetail S R) × Cache T (InrDetail S R) D
  get_cdp_inr t c =
      if symbols.is_builtin t
      then (found symbols.builtin_detail, c)
      else (if symbols.is_excluded t then (absent, c) else cache_get_data cdp_inr t c)

  -- IsCdpINRActivated
  unfoldable pub is_cdp_inr_activated :
      T → Cache T (InrDetail S R) D → Outcome Bool × Cache T (InrDetail S R) D
  is_cdp_inr_activated t c =
      if symbols.is_builtin t
      then (ok true, c)
      else (if symbols.is_excluded t then (ok false, c) else cache_has_data cdp_inr t c)

  -- the branches of `SetCdpINR` after the old detail was looked up: of a detail that is there only the status changes
  unfoldable pub set_over :
      T
      → InrDetail S R
      → Lookup (InrDetail S R)
      → Session T (InrDetail S R) D
      → Outcome Bool × Session T (InrDetail S R) D
  set_over t d (found old) s = set_data cdp_inr t (record old { status = d.status }) s
  set_over t d absent s = set_data cdp_inr t d s
  set_over t d (failed e) s = (throws e, s)

  -- SetCdpINR
  unfoldable pub set_cdp_inr :
      T → InrDetail S R → Session T (InrDetail S R) D → Outcome Bool × Session T (InrDetail S R) D
  set_cdp_inr t d s =
      if symbols.is_builtin t
      then (ok false, s)
      else (if symbols.is_excluded t
          then (ok false, s)
          else (let (old, c') = cache_get_data cdp_inr t s.cache in
              set_over t d old (record s { cache = c' })))

  set_over-merged :
      (t : T) (d : InrDetail S R) (r : Lookup (InrDetail S R)) (s : Session T (InrDetail S R) D)
      → ((e : DbError) → r ≢ failed e)
      → set_over t d r s ≡ set_data cdp_inr t (merged_detail d r) s
  unfolding set_over
  set_over-merged t d (found old) s n = refl
  set_over-merged t d absent s n = refl
  set_over-merged t d (failed e) s n = absurd (n e refl)

  -- For a symbol that is neither built in nor excluded, where no read fails: `SetCdpINR` succeeds,
  -- and then `GetCdpINR` returns the new detail if the symbol had none, and else the old detail
  -- with the new status (an empty detail counts as none); the other symbols keep theirs.
  pub set_cdp_inr_lem :
      (t : T) (d : InrDetail S R) (s : Session T (InrDetail S R) D)
      → symbols.is_builtin t ≡ false
      → symbols.is_excluded t ≡ false
      → ko.is_empty t ≡ false
      → AllReadable cdp_inr s.cache
      → ((set_cdp_inr t d s).0 ≡ ok true)
        × ((get_cdp_inr t (set_cdp_inr t d s).1.cache).0
            ≡ visible (found (merged_detail d (view cdp_inr t s.cache))))
        × ((u : T)
            → same u t ≡ false
            → view cdp_inr u (set_cdp_inr t d s).1.cache ≡ view cdp_inr u s.cache)
  unfolding set_cdp_inr get_cdp_inr
  set_cdp_inr_lem t d s b x h all =
      let (got, alike) = cache_get_data_lem cdp_inr t s.cache in
      let shows : (cache_get_data cdp_inr t s.cache).0 ≡ view cdp_inr t s.cache = got ∙ rw h refl in
      let after : Session T (InrDetail S R) D = record s {
        cache = (cache_get_data cdp_inr t s.cache).1;
      } in
      let new = merged_detail d (view cdp_inr t s.cache) in
      let (o, w, kept) =
        set_everywhere cdp_inr t new after h
          (Alike-readable cdp_inr s.cache after.cache alike all) in
      let ends : set_cdp_inr t d s ≡ set_data cdp_inr t new after =
        rw (b, x, set_cdp_inr)
          (rw shows (
            set_over-merged t d (view cdp_inr t s.cache) after
              (Readable-view cdp_inr t s.cache (all t)))) in
      let again = cache_get_data_lem cdp_inr t (set_data cdp_inr t new after).1.cache in
      rw ends (
        o,
        rw (b, x, get_cdp_inr) (again.0 ∙ rw h (w t ∙ rw (same_refl t) refl)),
        λ u n. w u ∙ rw n (Alike-view cdp_inr s.cache after.cache alike u),
      )

module _ {I D : Type 0} ⦃ko : KeyOps I⦄ ⦃vo : ValueOps (I × ℕ)⦄ ⦃kc : Codec I⦄ ⦃vc : Codec (I × ℕ)⦄
    ⦃ldb : LevelDb D⦄ where
  -- AddClosedCdpIndex and AddClosedCdpTxIndex
  unfoldable pub add_closed_cdp_index :
      I → I → ℕ → Session I (I × ℕ) D → Outcome Bool × Session I (I × ℕ) D
  add_closed_cdp_index cdp_id tx_id close_type s =
      set_data closed_cdp_tx cdp_id (tx_id, close_type) s

  unfoldable pub add_closed_cdp_tx_index :
      I → I → ℕ → Session I (I × ℕ) D → Outcome Bool × Session I (I × ℕ) D
  add_closed_cdp_tx_index tx_id cdp_id close_type s =
      set_data closed_tx_cdp tx_id (cdp_id, close_type) s

  -- GetClosedCdpById and GetClosedCdpByTxId
  unfoldable pub get_closed_cdp_by_id : I → Cache I (I × ℕ) D → Lookup (I × ℕ) × Cache I (I × ℕ) D
  get_closed_cdp_by_id cdp_id c = cache_get_data closed_cdp_tx cdp_id c

  unfoldable pub get_closed_cdp_by_tx_id :
      I → Cache I (I × ℕ) D → Lookup (I × ℕ) × Cache I (I × ℕ) D
  get_closed_cdp_by_tx_id tx_id c = cache_get_data closed_tx_cdp tx_id c
