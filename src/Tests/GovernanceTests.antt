-- ===== src/Tests/GovernanceTests.antt =====
-- Governors and the approvals of a proposal.
use inery_persistent_memory.Base.{
  ℕ, suc, ◌≡◌, refl, true, false, not, ◌&&◌, ◌||◌, Option, none, some, List, [], ◌∷◌, if◌then◌else◌,
  Bytes,
}
use inery_persistent_memory.StdMap.{same}
use inery_persistent_memory.Serialize.{Codec}
use inery_persistent_memory.DbUtil.KeyOrder.{uint_key}
use inery_persistent_memory.DbUtil.{list_value}
use inery_persistent_memory.DbConf.Prefix.{govn_approval_list, sys_govern}
use inery_persistent_memory.LevelDb.Wrapper.{ok, found}
use inery_persistent_memory.Composite.{visible, Session, on_db}
use inery_persistent_memory.Composite.View.{view}
use inery_persistent_memory.Simple.{simple_on_db, SimpleSession}
use inery_persistent_memory.Simple.View.{simple_peek, simple_view}
use inery_persistent_memory.PriceFeed.Cache.{KeySet, count}
use inery_persistent_memory.Delegates.{number_of}
use inery_persistent_memory.Governance.{
  approved_by, get_approval_count, set_approval, check_is_governor, add_governor, erase_governor,
}
use inery_persistent_memory.Governance.Approvals.{approvals, set_approval_lem}
use inery_persistent_memory.Governance.Governors.{governs, governors_lem}
use inery_persistent_memory.Tests.Samples.{
  Db, empty_db, nat_codec, db_leveldb, empty_db-AllReadable,
}
use inery_persistent_memory.Tests.FeedPairTests.{set_codec}

abbrev decode_list : Bytes → Option (List ℕ)
decode_list l = some l

instance abbrev list_codec : Codec (List ℕ)
list_codec = record {
  encode = λ l. l;
  decode = decode_list;
  serialize_size = λ l. 4;
  decode-encode = λ l. refl;
}

-- the governor 3 has approved the proposal 7
abbrev approving : Session ℕ (List ℕ) Db
approving = record {
  cache = on_db (record { map_data = (7, 3 ∷ []) ∷ []; is_calc_size = false; size = 0 }) empty_db;
  op_log_map = none;
}

set_approval_lem_example :
    ((get_approval_count 7 approving.cache).0 ≡ ok (number_of (approvals 7 approving.cache)))
    × ((set_approval 7 4 approving).0 ≡ ok (not (approved_by 4 (approvals 7 approving.cache))))
    × ((get_approval_count 7 (set_approval 7 4 approving).1.cache).0
        ≡ ok (
            if approved_by 4 (approvals 7 approving.cache)
            then number_of (approvals 7 approving.cache)
            else suc (number_of (approvals 7 approving.cache))))
    × ((set_approval 7 4 (set_approval 7 4 approving).1).0 ≡ ok false)
    × ((j : ℕ)
        → same j 7 ≡ false
        → view govn_approval_list j (set_approval 7 4 approving).1.cache
          ≡ view govn_approval_list j approving.cache)
set_approval_lem_example =
    set_approval_lem 7 4 approving refl (empty_db-AllReadable govn_approval_list _)

-- the governors 3 and 4 are stored
abbrev governing : SimpleSession (KeySet ℕ) Db
governing = record {
  cache = simple_on_db (some ((3, tt) ∷ (4, tt) ∷ [])) empty_db;
  op_log_map = none;
}

governors_lem_example :
    (stored : KeySet ℕ) × (simple_view sys_govern governing.cache ≡ visible (found stored))
    × ((q : ℕ) → (check_is_governor 2 q governing.cache).0 ≡ ok (governs 2 stored q))
    × ((add_governor 4 governing).0 ≡ ok true)
    × ((q : ℕ)
        → (check_is_governor 2 q (add_governor 4 governing).1.cache).0
          ≡ ok (same q 4 || count q stored))
    × ((erase_governor 4 governing).0 ≡ ok true)
    × ((left : KeySet ℕ) × ((q : ℕ) → count q left ≡ (not (same q 4) && count q stored))
        × ((q : ℕ)
            → (check_is_governor 2 q (erase_governor 4 governing).1.cache).0
              ≡ ok (governs 2 left q)))
unfolding simple_peek
governors_lem_example = governors_lem 2 4 governing (λ e h. cc)
