-- ===== src/Cdp/Positions.antt =====
-- `NewCDP`, `UpdateCDP` and `EraseCDP` against the map of the positions, its two indexes and the totals.
use inery_persistent_memory.Base.{
  ◌+◌, ◌-◌, ◌%◌, u64_mod, ◌≡◌, ap, ◌∙◌, Bool, true, Option, if◌then◌else◌,
}
use inery_persistent_memory.StdMap.{KeyOps, same}
use inery_persistent_memory.Serialize.{Codec, ValueOps}
use inery_persistent_memory.DbUtil.{optional_value}
use inery_persistent_memory.DbUtil.KeyOrder.{uint_key, pair_key}
use inery_persistent_memory.DbConf.Prefix.{
  cdp, cdp_global_data, cdp_ratio_index, cdp_height_index, user_cdp,
}
use inery_persistent_memory.LevelDb.{LevelDb}
use inery_persistent_memory.LevelDb.Wrapper.{Outcome, ok, Lookup, found, absent}
use inery_persistent_memory.Composite.{visible, set_data, erase_data}
use inery_persistent_memory.Composite.View.{view}
use inery_persistent_memory.Cdp.{
  RatioOps, UserCdp, CdpGlobalData, RatioKey, HeightKey, CdpDb, make_cdp_ratio_index_key,
  make_cdp_height_index_key, add_cdp, subtract_cdp, change_totals, on_globals, on_ratios,
  on_heights, save_cdp_index_data, erase_cdp_index_data,
}
use inery_persistent_memory.Cdp.Index.{IndexedBy}
use inery_persistent_memory.Cdp.Writes.{
  AllReadable, set_everywhere, erase_everywhere, then_ok, also_ok, totals_of, change_totals_lem,
}
use inery_persistent_memory.Cdp.Filled.{Filled, shows-Filled, ratio_key-full, height_key-full}

module _ {I P R Q : Type 0} where
  -- totals with the amounts of a position, and without them, in 64 bits
  abbrev pub raised : UserCdp I P R Q → CdpGlobalData → CdpGlobalData
  raised c g = record {
    total_staked_assets = (g.total_staked_assets + c.total_staked_inrs) % u64_mod;
    total_owed_scoins = (g.total_owed_scoins + c.total_owed_scoins) % u64_mod;
  }

  abbrev pub lowered : UserCdp I P R Q → CdpGlobalData → CdpGlobalData
  lowered c g = record {
    total_staked_assets = (g.total_staked_assets + u64_mod - c.total_staked_inrs) % u64_mod;
    total_owed_scoins = (g.total_owed_scoins + u64_mod - c.total_owed_scoins) % u64_mod;
  }

module _ {I P R Q D : Type 0} ⦃io : KeyOps I⦄ ⦃po : KeyOps P⦄ ⦃ro : KeyOps R⦄
    ⦃vc : ValueOps (UserCdp I P R Q)⦄ ⦃vg : ValueOps CdpGlobalData⦄ ⦃ci : Codec I⦄ ⦃cp : Codec P⦄
    ⦃cc : Codec (UserCdp I P R Q)⦄ ⦃cg : Codec CdpGlobalData⦄ ⦃cu : Codec (R × P)⦄
    ⦃co : Codec (Option I)⦄ ⦃cr : Codec (RatioKey I P)⦄ ⦃ch : Codec (HeightKey I P)⦄
    ⦃ldb : LevelDb D⦄ (ratio_ops : RatioOps Q) where
  -- what the object shows: the positions, the totals, and the two indexes
  abbrev pub shown_cdps : CdpDb I P R Q D → I → Lookup (UserCdp I P R Q)
  shown_cdps db i = view cdp i db.cdps.cache

  abbrev pub shown_totals : CdpDb I P R Q D → P → Lookup CdpGlobalData
  shown_totals db q = view cdp_global_data q db.globals.cache

  -- the id of the position of an owner for a pair
  abbrev pub shown_users : CdpDb I P R Q D → R × P → Lookup (Option I)
  shown_users db k = view user_cdp k db.users.cache

  -- No read fails, and the indexes hold exactly the positions, each under its own key.
  pub record Consistent (db : CdpDb I P R Q D) : Type 0 where
    pub reads_globals : AllReadable cdp_global_data db.globals.cache
    pub reads_cdps : AllReadable cdp db.cdps.cache
    pub reads_users : AllReadable user_cdp db.users.cache
    pub reads_ratios : AllReadable cdp_ratio_index db.ratios.cache
    pub reads_heights : AllReadable cdp_height_index db.heights.cache
    pub by_ratio :
        IndexedBy
          (λ (c : UserCdp I P R Q). c.cdpid)
          (make_cdp_ratio_index_key ratio_ops)
          (shown_cdps db)
          (λ k. view cdp_ratio_index k db.ratios.cache)
    pub by_height :
        IndexedBy
          (λ (c : UserCdp I P R Q). c.cdpid)
          make_cdp_height_index_key
          (shown_cdps db)
          (λ k. view cdp_height_index k db.heights.cache)

  unfoldable pub saved : UserCdp I P R Q → CdpDb I P R Q D → CdpDb I P R Q D
  saved c db = record db {
    globals = (change_totals c.coin_pair (add_cdp c) db.globals).1;
    ratios = (set_data cdp_ratio_index (make_cdp_ratio_index_key ratio_ops c) c db.ratios).1;
    heights = (set_data cdp_height_index (make_cdp_height_index_key c) c db.heights).1;
  }

  unfoldable pub dropped : UserCdp I P R Q → CdpDb I P R Q D → CdpDb I P R Q D
  dropped c db = record db {
    globals = (change_totals c.coin_pair (subtract_cdp c) db.globals).1;
    ratios = (erase_data cdp_ratio_index (make_cdp_ratio_index_key ratio_ops c) db.ratios).1;
    heights = (erase_data cdp_height_index (make_cdp_height_index_key c) db.heights).1;
  }

  -- no read of the totals and of the indexes fails
  pub record Reads (db : CdpDb I P R Q D) : Type 0 where
    pub globals : AllReadable cdp_global_data db.globals.cache
    pub ratios : AllReadable cdp_ratio_index db.ratios.cache
    pub heights : AllReadable cdp_height_index db.heights.cache

  pub save_ok :
      (c : UserCdp I P R Q) (db : CdpDb I P R Q D)
      → Filled c
      → Reads db
      → save_cdp_index_data ratio_ops c db ≡ (ok true, saved c db)
  unfolding save_cdp_index_data saved on_globals on_ratios on_heights
  save_ok c db f r =
      let totals = change_totals_lem c.coin_pair (add_cdp c) db.globals f.has_pair r.globals in
      let ratio =
        set_everywhere cdp_ratio_index (make_cdp_ratio_index_key ratio_ops c) c db.ratios
          (ratio_key-full ratio_ops c f) r.ratios in
      let height =
        set_everywhere cdp_height_index (make_cdp_height_index_key c) c db.heights
          (height_key-full c f) r.heights in
      then_ok _ _ totals.0 ∙ then_ok _ _ ratio.0 ∙ ap (λ b. (b, saved c db)) height.0

  pub drop_ok :
      (c : UserCdp I P R Q) (db : CdpDb I P R Q D)
      → Filled c
      → Reads db
      → erase_cdp_index_data ratio_ops c db ≡ (ok true, dropped c db)
  unfolding erase_cdp_index_data dropped on_globals on_ratios on_heights
  drop_ok c db f r =
      let totals = change_totals_lem c.coin_pair (subtract_cdp c) db.globals f.has_pair r.globals in
      let ratio =
        erase_everywhere cdp_ratio_index (make_cdp_ratio_index_key ratio_ops c) db.ratios
          (ratio_key-full ratio_ops c f) r.ratios in
      let height =
        erase_everywhere cdp_height_index (make_cdp_height_index_key c) db.heights
          (height_key-full c f) r.heights in
      also_ok _ _ totals.0 ∙ then_ok _ _ ratio.0 ∙ ap (λ b. (b, dropped c db)) height.0

  pub Consistent-Reads : (db : CdpDb I P R Q D) → Consistent db → Reads db
  Consistent-Reads db k = record {
    globals = k.reads_globals;
    ratios = k.reads_ratios;
    heights = k.reads_heights;
  }

  -- what becomes of the totals and the indexes: of the position's entries, and of no others
  pub record IndexStep (c : UserCdp I P R Q) (r : Lookup (UserCdp I P R Q))
      (f : CdpGlobalData → CdpGlobalData) (db db' : CdpDb I P R Q D) : Type 0 where
    pub totals :
        (q : P)
        → shown_totals db' q ≡ (
            if same q c.coin_pair
            then visible (found (f (totals_of (shown_totals db c.coin_pair))))
            else shown_totals db q)
    pub ratios :
        (k : RatioKey I P)
        → view cdp_ratio_index k db'.ratios.cache ≡ (
            if same k (make_cdp_ratio_index_key ratio_ops c)
            then r
            else view cdp_ratio_index k db.ratios.cache)
    pub heights :
        (k : HeightKey I P)
        → view cdp_height_index k db'.heights.cache ≡ (
            if same k (make_cdp_height_index_key c)
            then r
            else view cdp_height_index k db.heights.cache)
    pub reads : Reads db'

  pub saved-IndexStep :
      (c : UserCdp I P R Q) (db : CdpDb I P R Q D)
      → Filled c
      → Reads db
      → IndexStep c (found c) (add_cdp c) db (saved c db)
  unfolding saved
  saved-IndexStep c db f r =
      let totals = change_totals_lem c.coin_pair (add_cdp c) db.globals f.has_pair r.globals in
      let ratio =
        set_everywhere cdp_ratio_index (make_cdp_ratio_index_key ratio_ops c) c db.ratios
          (ratio_key-full ratio_ops c f) r.ratios in
      let height =
        set_everywhere cdp_height_index (make_cdp_height_index_key c) c db.heights
          (height_key-full c f) r.heights in
      record {
        totals = totals.1;
        ratios = λ k.
            ratio.1 k
            ∙ shows-Filled c (same k (make_cdp_ratio_index_key ratio_ops c))
                (view cdp_ratio_index k db.ratios.cache) f;
        heights = λ k.
            height.1 k
            ∙ shows-Filled c (same k (make_cdp_height_index_key c))
                (view cdp_height_index k db.heights.cache) f;
        reads = record { globals = totals.2; ratios = ratio.2; heights = height.2 };
      }

  pub dropped-IndexStep :
      (c : UserCdp I P R Q) (db : CdpDb I P R Q D)
      → Filled c
      → Reads db
      → IndexStep c absent (subtract_cdp c) db (dropped c db)
  unfolding dropped
  dropped-IndexStep c db f r =
      let totals = change_totals_lem c.coin_pair (subtract_cdp c) db.globals f.has_pair r.globals in
      let ratio =
        erase_everywhere cdp_ratio_index (make_cdp_ratio_index_key ratio_ops c) db.ratios
          (ratio_key-full ratio_ops c f) r.ratios in
      let height =
        erase_everywhere cdp_height_index (make_cdp_height_index_key c) db.heights
          (height_key-full c f) r.heights in
      record {
        totals = totals.1;
        ratios = ratio.1;
        heights = height.1;
        reads = record { globals = totals.2; ratios = ratio.2; heights = height.2 };
      }

  -- What a call is to leave: the object stays consistent; the position is there, or gone; of the
  -- users' entries only the one of the key changes; the totals of the pair of the position become
  -- the new ones, and those of the other pairs stay.
  pub record Changed (out : Outcome Bool × CdpDb I P R Q D) (db : CdpDb I P R Q D)
      (c : UserCdp I P R Q) (r : Lookup (UserCdp I P R Q)) (key : R × P) (user : Lookup (Option I))
      (totals_after : CdpGlobalData) : Type 0 where
    pub succeeds : out.0 ≡ ok true
    pub consistent : Consistent out.1
    pub positions : (i : I) → shown_cdps out.1 i ≡ (if same i c.cdpid then r else shown_cdps db i)
    pub users : (k : R × P) → shown_users out.1 k ≡ (if same k key then user else shown_users db k)
    pub totals :
        (q : P)
        → shown_totals out.1 q
          ≡ (if same q c.coin_pair then visible (found totals_after) else shown_totals db q)
