-- ===== src/Cdp/Filled.antt =====
-- Positions with contents, and their keys in the maps and indexes.
use inery_persistent_memory.Base.{◌≡◌, refl, ap, Bool, true, false, if◌then◌else◌, arith}
use inery_persistent_memory.StdMap.{KeyOps}
use inery_persistent_memory.Serialize.{ValueOps}
use inery_persistent_memory.DbUtil.{optional_value}
use inery_persistent_memory.DbUtil.KeyOrder.{uint_key, pair_key}
use inery_persistent_memory.LevelDb.Wrapper.{Lookup, found}
use inery_persistent_memory.Composite.{visible}
use inery_persistent_memory.Cdp.{
  RatioOps, UserCdp, make_cdp_ratio_index_key, make_cdp_height_index_key,
}

module _ {I P R Q : Type 0} where
  pub ratio_key-cdpid :
      (ratio_ops : RatioOps Q) (a b : UserCdp I P R Q)
      → make_cdp_ratio_index_key ratio_ops a ≡ make_cdp_ratio_index_key ratio_ops b
      → a.cdpid ≡ b.cdpid
  unfolding make_cdp_ratio_index_key
  ratio_key-cdpid ratio_ops a b h = ap (λ k. k.1.1.1) h

  pub height_key-cdpid :
      (a b : UserCdp I P R Q)
      → make_cdp_height_index_key a ≡ make_cdp_height_index_key b
      → a.cdpid ≡ b.cdpid
  unfolding make_cdp_height_index_key
  height_key-cdpid a b h = ap (λ k. k.1.1) h

module _ {I P R Q : Type 0} ⦃io : KeyOps I⦄ ⦃po : KeyOps P⦄ ⦃vc : ValueOps (UserCdp I P R Q)⦄ where
  -- a position with an id, a pair and contents that are not empty
  pub record Filled (c : UserCdp I P R Q) : Type 0 where
    pub has_id : io.is_empty c.cdpid ≡ false
    pub has_pair : po.is_empty c.coin_pair ≡ false
    pub has_contents : vc.is_empty c ≡ false

  -- what is shown is the position, which is not empty
  pub shows-Filled :
      (c : UserCdp I P R Q) (b : Bool) (r : Lookup (UserCdp I P R Q))
      → Filled c
      → (if b then visible (found c) else r) ≡ (if b then found c else r)
  shows-Filled c true r f = rw f.has_contents refl
  shows-Filled c false r f = refl

  pub owner_pair-full :
      ⦃ro : KeyOps R⦄ (c : UserCdp I P R Q)
      → Filled c
      → KeyOps.is_empty pair_key (c.owner_regid, c.coin_pair) ≡ false
  owner_pair-full c f = rw f.has_pair (ground arith)

  pub ratio_key-full :
      (ratio_ops : RatioOps Q) (c : UserCdp I P R Q)
      → Filled c
      → KeyOps.is_empty pair_key (make_cdp_ratio_index_key ratio_ops c) ≡ false
  unfolding make_cdp_ratio_index_key
  ratio_key-full ratio_ops c f = rw f.has_pair refl

  pub height_key-full :
      (c : UserCdp I P R Q)
      → Filled c
      → KeyOps.is_empty pair_key (make_cdp_height_index_key c) ≡ false
  unfolding make_cdp_height_index_key
  height_key-full c f = rw f.has_pair refl
