-- ===== src/Cdp/Update.antt =====
-- `UpdateCDP`.
use inery_persistent_memory.Base.{
  ◌≡◌, refl, ap, sym, ◌∙◌, ap₂, Bool, add_u64, sub_u64, subst, true, Option, if◌then◌else◌,
}
use inery_persistent_memory.StdMap.{KeyOps, same}
use inery_persistent_memory.Serialize.{Codec, ValueOps}
use inery_persistent_memory.DbUtil.{optional_value}
use inery_persistent_memory.DbUtil.KeyOrder.{uint_key, pair_key}
use inery_persistent_memory.DbConf.Prefix.{cdp}
use inery_persistent_memory.LevelDb.{LevelDb}
use inery_persistent_memory.LevelDb.Wrapper.{Outcome, Lookup, ok, found}
use inery_persistent_memory.Composite.{visible, set_data}
use inery_persistent_memory.Cdp.{
  RatioOps, UserCdp, CdpGlobalData, RatioKey, HeightKey, CdpDb, make_cdp_ratio_index_key,
  make_cdp_height_index_key, add_cdp, subtract_cdp, and_then, on_cdps, save_cdp_index_data,
  update_cdp,
}
use inery_persistent_memory.Cdp.Index.{IndexedBy-update}
use inery_persistent_memory.Cdp.Writes.{set_everywhere, then_ok, totals_of}
use inery_persistent_memory.Cdp.Filled.{Filled, ratio_key-cdpid, height_key-cdpid, shows-Filled}
use inery_persistent_memory.Cdp.Positions.{
  Consistent, saved, dropped, shown_cdps, shown_totals, shown_users, raised, lowered, save_ok,
  drop_ok, Reads, saved-IndexStep, dropped-IndexStep,
}

module _ {I P R Q D : Type 0} ⦃io : KeyOps I⦄ ⦃po : KeyOps P⦄ ⦃ro : KeyOps R⦄
    ⦃vc : ValueOps (UserCdp I P R Q)⦄ ⦃vg : ValueOps CdpGlobalData⦄ ⦃ci : Codec I⦄ ⦃cp : Codec P⦄
    ⦃cc : Codec (UserCdp I P R Q)⦄ ⦃cg : Codec CdpGlobalData⦄ ⦃cu : Codec (R × P)⦄
    ⦃co : Codec (Option I)⦄ ⦃cr : Codec (RatioKey I P)⦄ ⦃ch : Codec (HeightKey I P)⦄
    ⦃ldb : LevelDb D⦄ (ratio_ops : RatioOps Q) where
  -- the totals without the old position
  abbrev pub totals_between : UserCdp I P R Q → CdpDb I P R Q D → P → Lookup CdpGlobalData
  totals_between old db q =
      if same q old.coin_pair
      then visible (found (lowered old (totals_of (shown_totals ratio_ops db old.coin_pair))))
      else shown_totals ratio_ops db q

  -- what an update is to leave
  pub record Updated (old c : UserCdp I P R Q) (db : CdpDb I P R Q D)
      (out : Outcome Bool × CdpDb I P R Q D) : Type 0 where
    pub succeeds : out.0 ≡ ok true
    pub consistent : Consistent ratio_ops out.1
    pub positions :
        (i : I)
        → shown_cdps ratio_ops out.1 i
          ≡ (if same i c.cdpid then found c else shown_cdps ratio_ops db i)
    pub users : (k : R × P) → shown_users ratio_ops out.1 k ≡ shown_users ratio_ops db k
    pub totals :
        (q : P)
        → shown_totals ratio_ops out.1 q ≡ (
            if same q c.coin_pair
            then visible (found (raised c (totals_of (totals_between old db c.coin_pair))))
            else totals_between old db q)

  -- `UpdateCDP` of a position of a consistent object, whose stored state is the old position, by one
  -- with the same id: it succeeds, the object is consistent again, the map has the new position and
  -- else what it had, and the users' entries are as they were. The totals of the old position's pair
  -- are less by its staked and owed amount, and then those of the new position's pair more by
  -- its own (in 64 bits); no other totals change.
  pub update_cdp_lem :
      (old c : UserCdp I P R Q) (db : CdpDb I P R Q D)
      → Filled old
      → Filled c
      → old.cdpid ≡ c.cdpid
      → Consistent ratio_ops db
      → shown_cdps ratio_ops db old.cdpid ≡ found old
      → Updated old c db (update_cdp ratio_ops old c db)
  unfolding update_cdp saved dropped on_cdps add_cdp subtract_cdp add_u64 sub_u64
  update_cdp_lem old c db f f' e k there =
      let (o1, w1, r1) = set_everywhere cdp c.cdpid c db.cdps f'.has_id k.reads_cdps in
      let db1 : CdpDb I P R Q D = record db { cdps = (set_data cdp c.cdpid c db.cdps).1 } in
      let reads : Reads ratio_ops db1 = record {
        globals = k.reads_globals;
        ratios = k.reads_ratios;
        heights = k.reads_heights;
      } in
      let step = dropped-IndexStep ratio_ops old db1 f reads in
      let db2 : CdpDb I P R Q D = dropped ratio_ops old db1 in
      let step2 = saved-IndexStep ratio_ops c db2 f' step.reads in
      let ends : update_cdp ratio_ops old c db ≡ (ok true, saved ratio_ops c db2) =
        rw (f'.has_contents, update_cdp)
          (then_ok _ _ o1
            ∙ ap (λ x. and_then x (save_cdp_index_data ratio_ops c))
                (drop_ok ratio_ops old db1 f reads)
            ∙ then_ok (ok true, db2) (save_cdp_index_data ratio_ops c) refl
            ∙ save_ok ratio_ops c db2 f' step.reads) in
      let positions : (i : I)
          → shown_cdps ratio_ops db1 i
            ≡ (if same i c.cdpid then found c else shown_cdps ratio_ops db i) =
        λ i. w1 i ∙ shows-Filled c (same i c.cdpid) (shown_cdps ratio_ops db i) f' in
      let between : (q : P) → shown_totals ratio_ops db2 q ≡ totals_between old db q =
        step.totals in
      subst (Updated old c db) (sym ends) (record {
        succeeds = refl;
        consistent = record {
          reads_globals = step2.reads.globals;
          reads_cdps = r1;
          reads_users = k.reads_users;
          reads_ratios = step2.reads.ratios;
          reads_heights = step2.reads.heights;
          by_ratio =
              IndexedBy-update (λ (a : UserCdp I P R Q). a.cdpid)
                (make_cdp_ratio_index_key ratio_ops) old c (shown_cdps ratio_ops db)
                (shown_cdps ratio_ops db1) _ _ _ (ratio_key-cdpid ratio_ops) k.by_ratio there e
                positions step.ratios step2.ratios;
          by_height =
              IndexedBy-update (λ (a : UserCdp I P R Q). a.cdpid) make_cdp_height_index_key old c
                (shown_cdps ratio_ops db) (shown_cdps ratio_ops db1) _ _ _ height_key-cdpid
                k.by_height there e positions step.heights step2.heights;
        };
        positions = positions;
        users = λ j. refl;
        totals = λ q.
            step2.totals q
            ∙ ap₂
                (λ x y. if same q c.coin_pair then visible (found (raised c (totals_of x))) else y)
                (between c.coin_pair) (between q);
      })
