-- ===== src/Cdp.antt =====
-- persistence/cdpdb.h and .cpp: `IneryCdpDBCache`, the collateralized debt positions with their indexes
-- and totals, and `CClosedCdpDBCache`.
pub mod Index
pub mod Writes
pub mod Filled
pub mod Positions
pub mod Lifecycle
pub mod Update
pub mod Users
pub mod Inr
use inery_persistent_memory.Base.{
  ℕ, ◌+◌, ◌-◌, ◌*◌, ◌%◌, Bool, true, false, ◌||◌, Option, none, some, if◌then◌else◌, ltb, u64_mod,
  add_u64, sub_u64,
}
use inery_persistent_memory.StdMap.{KeyOps}
use inery_persistent_memory.Serialize.{Codec, ValueOps}
use inery_persistent_memory.DbUtil.{optional_value}
use inery_persistent_memory.DbUtil.KeyOrder.{uint_key, pair_key}
use inery_persistent_memory.DbConf.Prefix.{
  cdp, cdp_inr, cdp_global_data, cdp_ratio_index, cdp_height_index, user_cdp, closed_cdp_tx,
  closed_tx_cdp,
}
use inery_persistent_memory.LevelDb.{LevelDb}
use inery_persistent_memory.LevelDb.Wrapper.{
  Outcome, ok, throws, Lookup, found, absent, failed, assertion_failed,
}
use inery_persistent_memory.Composite.{
  Cache, Session, set_data, erase_data, cache_get_data, cache_has_data,
}

-- what the caches use of `IneryUserCDP`
pub record UserCdp (I P R Q : Type 0) : Type 0 where
  pub cdpid : I
  pub owner_regid : R
  pub coin_pair : P
  pub block_height : ℕ
  pub total_staked_inrs : ℕ
  pub total_owed_scoins : ℕ
  pub collateral_ratio_base : Q

-- IneryCdpGlobalData
pub record CdpGlobalData : Type 0 where
  pub total_staked_assets : ℕ
  pub total_owed_scoins : ℕ

abbrev pub RatioKey : Type 0 → Type 0 → Type 0
RatioKey I P = P × (ℕ × (ℕ × I))

abbrev pub HeightKey : Type 0 → Type 0 → Type 0
HeightKey I P = P × (ℕ × I)

-- the caches of the object, each with the log map
pub record CdpDb (I P R Q D : Type 0) : Type 0 where
  pub globals : Session P CdpGlobalData D
  pub cdps : Session I (UserCdp I P R Q) D
  pub users : Session (R × P) (Option I) D
  pub ratios : Session (RatioKey I P) (UserCdp I P R Q) D
  pub heights : Session (HeightKey I P) (UserCdp I P R Q) D

-- The arithmetic of `collateral_ratio_base`, whose type is in objects/cdp.h: its product with
-- CDP_BASE_RATIO_BOOST as a uint64_t, and the comparison of a uint64_t with it.
pub record RatioOps (Q : Type 0) : Type 0 where
  pub boosted_ratio : Q → ℕ
  pub less : ℕ → Q → Bool

module _ {I P R Q : Type 0} (ratio_ops : RatioOps Q) where
  -- MakeCdpRatioIndexKey, with its test for an overflow
  unfoldable pub make_cdp_ratio_index_key : UserCdp I P R Q → RatioKey I P
  make_cdp_ratio_index_key c =
      let boosted = ratio_ops.boosted_ratio c.collateral_ratio_base in
      let ratio = if ratio_ops.less boosted c.collateral_ratio_base then u64_mod - 1 else boosted in
      (c.coin_pair, (ratio, (c.block_height, c.cdpid)))

module _ {I P R Q : Type 0} where
  -- MakeCdpHeightIndexKey
  unfoldable pub make_cdp_height_index_key : UserCdp I P R Q → HeightKey I P
  make_cdp_height_index_key c = (c.coin_pair, (c.block_height, c.cdpid))

-- `a && b` of two calls on one object
unfoldable pub and_then :
    {S : Type 0} → Outcome Bool × S → (S → Outcome Bool × S) → Outcome Bool × S
and_then (ok true, s) f = f s
and_then (ok false, s) f = (ok false, s)
and_then (throws e, s) f = (throws e, s)

-- a call whose result is not looked at, before another
unfoldable pub and_also :
    {S : Type 0} → Outcome Bool × S → (S → Outcome Bool × S) → Outcome Bool × S
and_also (ok b, s) f = f s
and_also (throws e, s) f = (throws e, s)

module _ {I P R Q : Type 0} where
  unfoldable pub add_cdp : UserCdp I P R Q → CdpGlobalData → CdpGlobalData
  add_cdp c g = record {
    total_staked_assets = add_u64 g.total_staked_assets c.total_staked_inrs;
    total_owed_scoins = add_u64 g.total_owed_scoins c.total_owed_scoins;
  }

  unfoldable pub subtract_cdp : UserCdp I P R Q → CdpGlobalData → CdpGlobalData
  subtract_cdp c g = record {
    total_staked_assets = sub_u64 g.total_staked_assets c.total_staked_inrs;
    total_owed_scoins = sub_u64 g.total_owed_scoins c.total_owed_scoins;
  }

abbrev pub no_totals : CdpGlobalData
no_totals = record { total_staked_assets = 0; total_owed_scoins = 0 }

module _ {P D : Type 0} ⦃po : KeyOps P⦄ ⦃vg : ValueOps CdpGlobalData⦄ ⦃cp : Codec P⦄
    ⦃cg : Codec CdpGlobalData⦄ ⦃ldb : LevelDb D⦄ where
  -- GetCdpGlobalData: zeros where there is no entry
  unfoldable pub get_cdp_global_data :
      P → Cache P CdpGlobalData D → Outcome CdpGlobalData × Cache P CdpGlobalData D
  get_cdp_global_data pair c =
      let (r, c') = cache_get_data cdp_global_data pair c in
      (elim r [ found g ↦ ok g | absent ↦ ok no_totals | failed e ↦ throws e ], c')

  -- the totals of a pair are read, changed and written
  unfoldable pub change_totals :
      P
      → (CdpGlobalData → CdpGlobalData)
      → Session P CdpGlobalData D
      → Outcome Bool × Session P CdpGlobalData D
  change_totals pair f s =
      let (r, c') = get_cdp_global_data pair s.cache in
      elim r [
        | ok g ↦ set_data cdp_global_data pair (f g) (record s { cache = c' })
        | throws e ↦ (throws e, record s { cache = c' })
      ]

module _ {I P R Q D : Type 0} where
  -- the calls of the single caches
  unfoldable pub on_globals :
      (Session P CdpGlobalData D → Outcome Bool × Session P CdpGlobalData D)
      → CdpDb I P R Q D
      → Outcome Bool × CdpDb I P R Q D
  on_globals f db = let (r, s) = f db.globals in (r, record db { globals = s })

  unfoldable pub on_cdps :
      (Session I (UserCdp I P R Q) D → Outcome Bool × Session I (UserCdp I P R Q) D)
      → CdpDb I P R Q D
      → Outcome Bool × CdpDb I P R Q D
  on_cdps f db = let (r, s) = f db.cdps in (r, record db { cdps = s })

  unfoldable pub on_users :
      (Session (R × P) (Option I) D → Outcome Bool × Session (R × P) (Option I) D)
      → CdpDb I P R Q D
      → Outcome Bool × CdpDb I P R Q D
  on_users f db = let (r, s) = f db.users in (r, record db { users = s })

  unfoldable pub on_ratios :
      (Session (RatioKey I P) (UserCdp I P R Q) D
        → Outcome Bool × Session (RatioKey I P) (UserCdp I P R Q) D)
      → CdpDb I P R Q D
      → Outcome Bool × CdpDb I P R Q D
  on_ratios f db = let (r, s) = f db.ratios in (r, record db { ratios = s })

  unfoldable pub on_heights :
      (Session (HeightKey I P) (UserCdp I P R Q) D
        → Outcome Bool × Session (HeightKey I P) (UserCdp I P R Q) D)
      → CdpDb I P R Q D
      → Outcome Bool × CdpDb I P R Q D
  on_heights f db = let (r, s) = f db.heights in (r, record db { heights = s })

module _ {I P R Q D : Type 0} ⦃io : KeyOps I⦄ ⦃po : KeyOps P⦄ ⦃ro : KeyOps R⦄
    ⦃vc : ValueOps (UserCdp I P R Q)⦄ ⦃vg : ValueOps CdpGlobalData⦄ ⦃ci : Codec I⦄ ⦃cp : Codec P⦄
    ⦃cc : Codec (UserCdp I P R Q)⦄ ⦃cg : Codec CdpGlobalData⦄ ⦃cu : Codec (R × P)⦄
    ⦃co : Codec (Option I)⦄ ⦃cr : Codec (RatioKey I P)⦄ ⦃ch : Codec (HeightKey I P)⦄
    ⦃ldb : LevelDb D⦄ (ratio_ops : RatioOps Q) where
  -- SaveCdpIndexData
  unfoldable pub save_cdp_index_data :
      UserCdp I P R Q → CdpDb I P R Q D → Outcome Bool × CdpDb I P R Q D
  save_cdp_index_data c db = and_then (on_globals (change_totals c.coin_pair (add_cdp c)) db) λ db.
      and_then (on_ratios (set_data cdp_ratio_index (make_cdp_ratio_index_key ratio_ops c) c) db)
        (on_heights (set_data cdp_height_index (make_cdp_height_index_key c) c))

  -- EraseCdpIndexData
  unfoldable pub erase_cdp_index_data :
      UserCdp I P R Q → CdpDb I P R Q D → Outcome Bool × CdpDb I P R Q D
  erase_cdp_index_data c db =
      and_also (on_globals (change_totals c.coin_pair (subtract_cdp c)) db) λ db.
        and_then (on_ratios (erase_data cdp_ratio_index (make_cdp_ratio_index_key ratio_ops c)) db)
          (on_heights (erase_data cdp_height_index (make_cdp_height_index_key c)))

  -- NewCDP
  unfoldable pub new_cdp : UserCdp I P R Q → CdpDb I P R Q D → Outcome Bool × CdpDb I P R Q D
  new_cdp c db = and_then (on_cdps (set_data cdp c.cdpid c) db) λ db.
      and_then (on_users (set_data user_cdp (c.owner_regid, c.coin_pair) (some c.cdpid)) db)
        (save_cdp_index_data c)

  -- EraseCDP
  unfoldable pub erase_cdp :
      UserCdp I P R Q → UserCdp I P R Q → CdpDb I P R Q D → Outcome Bool × CdpDb I P R Q D
  erase_cdp old c db = and_then (on_cdps (erase_data cdp c.cdpid) db) λ db.
      and_then (on_users (erase_data user_cdp (c.owner_regid, c.coin_pair)) db)
        (erase_cdp_index_data old)

  -- UpdateCDP
  unfoldable pub update_cdp :
      UserCdp I P R Q → UserCdp I P R Q → CdpDb I P R Q D → Outcome Bool × CdpDb I P R Q D
  update_cdp old c db =
      if vc.is_empty c
      then (throws assertion_failed, db)
      else and_then (on_cdps (set_data cdp c.cdpid c) db)
          λ db. and_then (erase_cdp_index_data old db) (save_cdp_index_data c)
