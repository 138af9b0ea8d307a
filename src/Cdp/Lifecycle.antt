-- ===== src/Cdp/Lifecycle.antt =====
-- `NewCDP`, `UpdateCDP` and `EraseCDP`: each keeps the object consistent.
use inery_persistent_memory.Base.{
  ◌≡◌, refl, sym, ◌∙◌, add_u64, sub_u64, subst, true, Option, some, if◌then◌else◌,
}
use inery_persistent_memory.StdMap.{KeyOps, same}
use inery_persistent_memory.Serialize.{Codec, ValueOps}
use inery_persistent_memory.DbUtil.{optional_value}
use inery_persistent_memory.DbUtil.KeyOrder.{uint_key, pair_key}
use inery_persistent_memory.DbConf.Prefix.{cdp, user_cdp}
use inery_persistent_memory.LevelDb.{LevelDb}
use inery_persistent_memory.LevelDb.Wrapper.{ok, found, absent}
use inery_persistent_memory.Composite.{set_data, erase_data}
use inery_persistent_memory.Cdp.{
  RatioOps, UserCdp, CdpGlobalData, RatioKey, HeightKey, CdpDb, make_cdp_ratio_index_key,
  make_cdp_height_index_key, add_cdp, subtract_cdp, on_cdps, on_users, new_cdp, erase_cdp,
}
use inery_persistent_memory.Cdp.Index.{IndexedBy-insert, IndexedBy-erase}
use inery_persistent_memory.Cdp.Writes.{set_everywhere, erase_everywhere, then_ok, totals_of}
use inery_persistent_memory.Cdp.Filled.{
  Filled, ratio_key-cdpid, height_key-cdpid, shows-Filled, owner_pair-full,
}
use inery_persistent_memory.Cdp.Positions.{
  Consistent, Changed, saved, dropped, shown_cdps, shown_totals, raised, lowered, save_ok, drop_ok,
  Reads, saved-IndexStep, dropped-IndexStep,
}

module _ {I P R Q D : Type 0} ⦃io : KeyOps I⦄ ⦃po : KeyOps P⦄ ⦃ro : KeyOps R⦄
    ⦃vc : ValueOps (UserCdp I P R Q)⦄ ⦃vg : ValueOps CdpGlobalData⦄ ⦃ci : Codec I⦄ ⦃cp : Codec P⦄
    ⦃cc : Codec (UserCdp I P R Q)⦄ ⦃cg : Codec CdpGlobalData⦄ ⦃cu : Codec (R × P)⦄
    ⦃co : Codec (Option I)⦄ ⦃cr : Codec (RatioKey I P)⦄ ⦃ch : Codec (HeightKey I P)⦄
    ⦃ldb : LevelDb D⦄ (ratio_ops : RatioOps Q) where
  -- `NewCDP` of a position whose id is not in use, on a consistent object: it succeeds, the object
  -- is consistent again, the map has the position and else what it had, the owner's entry for the
  -- pair has the id and the other users' entries are as they were, and the totals of the pair have
  -- grown by the staked and the owed amount of the position (in 64 bits), and no other totals.
  pub new_cdp_lem :
      (c : UserCdp I P R Q) (db : CdpDb I P R Q D)
      → Filled c
      → Consistent ratio_ops db
      → shown_cdps ratio_ops db c.cdpid ≡ absent
      → Changed ratio_ops
          (new_cdp ratio_ops c db)
          db
          c
          (found c)
          (c.owner_regid, c.coin_pair)
          (found (some c.cdpid))
          (raised c (totals_of (shown_totals ratio_ops db c.coin_pair)))
  unfolding new_cdp saved on_cdps on_users add_cdp add_u64
  new_cdp_lem c db f k fresh =
      let (o1, w1, r1) = set_everywhere cdp c.cdpid c db.cdps f.has_id k.reads_cdps in
      let (o2, w2, r2) =
        set_everywhere user_cdp (c.owner_regid, c.coin_pair) (some c.cdpid) db.users
          (owner_pair-full c f) k.reads_users in
      let db1 : CdpDb I P R Q D = record db {
        cdps = (set_data cdp c.cdpid c db.cdps).1;
        users = (set_data user_cdp (c.owner_regid, c.coin_pair) (some c.cdpid) db.users).1;
      } in
      let reads : Reads ratio_ops db1 = record {
        globals = k.reads_globals;
        ratios = k.reads_ratios;
        heights = k.reads_heights;
      } in
      let step = saved-IndexStep ratio_ops c db1 f reads in
      let ends : new_cdp ratio_ops c db ≡ (ok true, saved ratio_ops c db1) =
        then_ok _ _ o1 ∙ then_ok _ _ o2 ∙ save_ok ratio_ops c db1 f reads in
      let positions : (i : I)
          → shown_cdps ratio_ops db1 i
            ≡ (if same i c.cdpid then found c else shown_cdps ratio_ops db i) =
        λ i. w1 i ∙ shows-Filled c (same i c.cdpid) (shown_cdps ratio_ops db i) f in
      subst
        (λ out.
          Changed ratio_ops out db c (found c) (c.owner_regid, c.coin_pair) (found (some c.cdpid))
            (raised c (totals_of (shown_totals ratio_ops db c.coin_pair))))
        (sym ends)
        (record {
          succeeds = refl;
          consistent = record {
            reads_globals = step.reads.globals;
            reads_cdps = r1;
            reads_users = r2;
            reads_ratios = step.reads.ratios;
            reads_heights = step.reads.heights;
            by_ratio =
                IndexedBy-insert (λ (a : UserCdp I P R Q). a.cdpid)
                  (make_cdp_ratio_index_key ratio_ops) c (shown_cdps ratio_ops db)
                  (shown_cdps ratio_ops db1) _ _ (ratio_key-cdpid ratio_ops) k.by_ratio fresh
                  positions step.ratios;
            by_height =
                IndexedBy-insert (λ (a : UserCdp I P R Q). a.cdpid) make_cdp_height_index_key c
                  (shown_cdps ratio_ops db) (shown_cdps ratio_ops db1) _ _ height_key-cdpid
                  k.by_height fresh positions step.heights;
          };
          positions = positions;
          users = w2;
          totals = step.totals;
        })

  -- `EraseCDP` of a position of a consistent object, whose stored state is the old position, with a
  -- position of the same id: it succeeds, the object is consistent again, the map has the id no longer
  -- and else what it had, the entry of the owner of the given position for its pair is gone and the
  -- other users' entries are as they were, and the totals of the old position's pair are less by
  -- its staked and owed amount (in 64 bits), and no other totals.
  pub erase_cdp_lem :
      (old c : UserCdp I P R Q) (db : CdpDb I P R Q D)
      → Filled old
      → Filled c
      → old.cdpid ≡ c.cdpid
      → Consistent ratio_ops db
      → shown_cdps ratio_ops db old.cdpid ≡ found old
      → Changed ratio_ops
          (erase_cdp ratio_ops old c db)
          db
          old
          absent
          (c.owner_regid, c.coin_pair)
          absent
          (lowered old (totals_of (shown_totals ratio_ops db old.coin_pair)))
  unfolding erase_cdp dropped on_cdps on_users subtract_cdp sub_u64
  erase_cdp_lem old c db f f' e k there =
      let (o1, w1, r1) = erase_everywhere cdp c.cdpid db.cdps f'.has_id k.reads_cdps in
      let (o2, w2, r2) =
        erase_everywhere user_cdp (c.owner_regid, c.coin_pair) db.users (owner_pair-full c f')
          k.reads_users in
      let db1 : CdpDb I P R Q D = record db {
        cdps = (erase_data cdp c.cdpid db.cdps).1;
        users = (erase_data user_cdp (c.owner_regid, c.coin_pair) db.users).1;
      } in
      let reads : Reads ratio_ops db1 = record {
        globals = k.reads_globals;
        ratios = k.reads_ratios;
        heights = k.reads_heights;
      } in
      let step = dropped-IndexStep ratio_ops old db1 f reads in
      let ends : erase_cdp ratio_ops old c db ≡ (ok true, dropped ratio_ops old db1) =
        then_ok _ _ o1 ∙ then_ok _ _ o2 ∙ drop_ok ratio_ops old db1 f reads in
      let positions : (i : I)
          → shown_cdps ratio_ops db1 i
            ≡ (if same i old.cdpid then absent else shown_cdps ratio_ops db i) =
        λ i. rw e (w1 i) in
      subst
        (λ out.
          Changed ratio_ops out db old absent (c.owner_regid, c.coin_pair) absent
            (lowered old (totals_of (shown_totals ratio_ops db old.coin_pair))))
        (sym ends)
        (record {
          succeeds = refl;
          consistent = record {
            reads_globals = step.reads.globals;
            reads_cdps = r1;
            reads_users = r2;
            reads_ratios = step.reads.ratios;
            reads_heights = step.reads.heights;
            by_ratio =
                IndexedBy-erase (λ (a : UserCdp I P R Q). a.cdpid)
                  (make_cdp_ratio_index_key ratio_ops) old (shown_cdps ratio_ops db)
                  (shown_cdps ratio_ops db1) _ _ (ratio_key-cdpid ratio_ops) k.by_ratio there
                  positions step.ratios;
            by_height =
                IndexedBy-erase (λ (a : UserCdp I P R Q). a.cdpid) make_cdp_height_index_key old
                  (shown_cdps ratio_ops db) (shown_cdps ratio_ops db1) _ _ height_key-cdpid
                  k.by_height there positions step.heights;
          };
          positions = positions;
          users = w2;
          totals = step.totals;
        })
