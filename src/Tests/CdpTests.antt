-- ===== src/Tests/CdpTests.antt =====
-- A position that is created, updated and closed, over an empty database.
use inery_persistent_memory.Base.{
  ℕ, ◌*◌, ◌%◌, u64_mod, ltb, ◌≡◌, refl, true, false, ◌&&◌, Option, none, some, [], ◌∷◌, ◌==◌, Bytes,
}
use inery_persistent_memory.StdMap.{find, same}
use inery_persistent_memory.Serialize.{Codec, ValueOps}
use inery_persistent_memory.DbUtil.{uint_value, optional_value, pair_value}
use inery_persistent_memory.DbUtil.KeyOrder.{uint_key, pair_key}
use inery_persistent_memory.DbConf.Prefix.{
  cdp, cdp_inr, cdp_global_data, cdp_ratio_index, cdp_height_index, user_cdp,
}
use inery_persistent_memory.LevelDb.Wrapper.{ok, found, absent, read, get_bytes}
use inery_persistent_memory.LevelDb.Access.{get_data}
use inery_persistent_memory.Composite.{Session, visible, on_db, new_layer}
use inery_persistent_memory.Composite.View.{view, peek}
use inery_persistent_memory.Cdp.{
  RatioOps, UserCdp, CdpGlobalData, RatioKey, HeightKey, CdpDb, new_cdp, update_cdp, erase_cdp,
}
use inery_persistent_memory.Cdp.Writes.{totals_of}
use inery_persistent_memory.Cdp.Filled.{Filled}
use inery_persistent_memory.Cdp.Positions.{
  Consistent, Changed, raised, lowered, shown_cdps, shown_totals,
}
use inery_persistent_memory.Cdp.Lifecycle.{new_cdp_lem, erase_cdp_lem}
use inery_persistent_memory.Cdp.Update.{Updated, update_cdp_lem}
use inery_persistent_memory.Cdp.Inr.{
  InrDetail, InrSymbols, merged_detail, get_cdp_inr, set_cdp_inr, set_cdp_inr_lem,
}
use inery_persistent_memory.Tests.Samples.{
  nat_codec, Db, db_leveldb, empty_db, empty_db-AllReadable,
}

abbrev Position : Type 0
Position = UserCdp ℕ ℕ ℕ ℕ

-- a ratio is a number, and the factor is 10000
abbrev ratio_ops : RatioOps ℕ
ratio_ops = record { boosted_ratio = λ q. (q * 10000) % u64_mod; less = λ n q. ltb n q }

abbrev empty_position : Position
empty_position = record {
  cdpid = 0;
  owner_regid = 0;
  coin_pair = 0;
  block_height = 0;
  total_staked_inrs = 0;
  total_owed_scoins = 0;
  collateral_ratio_base = 0;
}

instance abbrev position_value : ValueOps Position
position_value = record {
  is_empty = λ c. c.cdpid == 0;
  set_empty = λ c. empty_position;
  default = empty_position;
  set_empty_is_empty = λ c. refl;
}

abbrev decode_position : Bytes → Option Position
decode_position (a ∷ b ∷ c ∷ d ∷ e ∷ f ∷ g ∷ []) = some (record {
  cdpid = a;
  owner_regid = b;
  coin_pair = c;
  block_height = d;
  total_staked_inrs = e;
  total_owed_scoins = f;
  collateral_ratio_base = g;
})
decode_position _ = none

instance abbrev position_codec : Codec Position
position_codec = record {
  encode = λ c.
      c.cdpid ∷ c.owner_regid ∷ c.coin_pair ∷ c.block_height ∷ c.total_staked_inrs
      ∷ c.total_owed_scoins ∷ c.collateral_ratio_base ∷ [];
  decode = decode_position;
  serialize_size = λ c. 28;
  decode-encode = λ c. refl;
}

instance abbrev totals_value : ValueOps CdpGlobalData
totals_value = record {
  is_empty = λ g. (g.total_staked_assets == 0) && (g.total_owed_scoins == 0);
  set_empty = λ g. record { total_staked_assets = 0; total_owed_scoins = 0 };
  default = record { total_staked_assets = 0; total_owed_scoins = 0 };
  set_empty_is_empty = λ g. refl;
}

abbrev decode_totals : Bytes → Option CdpGlobalData
decode_totals (a ∷ b ∷ []) = some (record { total_staked_assets = a; total_owed_scoins = b })
decode_totals _ = none

instance abbrev totals_codec : Codec CdpGlobalData
totals_codec = record {
  encode = λ g. g.total_staked_assets ∷ g.total_owed_scoins ∷ [];
  decode = decode_totals;
  serialize_size = λ g. 16;
  decode-encode = λ g. refl;
}

abbrev decode_pair : Bytes → Option (ℕ × ℕ)
decode_pair (a ∷ b ∷ []) = some (a, b)
decode_pair _ = none

instance abbrev pair_codec : Codec (ℕ × ℕ)
pair_codec = record {
  encode = λ k. k.0 ∷ k.1 ∷ [];
  decode = decode_pair;
  serialize_size = λ k. 8;
  decode-encode = λ k. refl;
}

abbrev decode_height_key : Bytes → Option (HeightKey ℕ ℕ)
decode_height_key (a ∷ b ∷ c ∷ []) = some (a, (b, c))
decode_height_key _ = none

instance abbrev height_key_codec : Codec (HeightKey ℕ ℕ)
height_key_codec = record {
  encode = λ k. k.0 ∷ k.1.0 ∷ k.1.1 ∷ [];
  decode = decode_height_key;
  serialize_size = λ k. 12;
  decode-encode = λ k. refl;
}

abbrev decode_ratio_key : Bytes → Option (RatioKey ℕ ℕ)
decode_ratio_key (a ∷ b ∷ c ∷ d ∷ []) = some (a, (b, (c, d)))
decode_ratio_key _ = none

instance abbrev ratio_key_codec : Codec (RatioKey ℕ ℕ)
ratio_key_codec = record {
  encode = λ k. k.0 ∷ k.1.0 ∷ k.1.1.0 ∷ k.1.1.1 ∷ [];
  decode = decode_ratio_key;
  serialize_size = λ k. 16;
  decode-encode = λ k. refl;
}

abbrev encode_optional : Option ℕ → Bytes
encode_optional none = []
encode_optional (some n) = n ∷ []

abbrev decode_optional : Bytes → Option (Option ℕ)
decode_optional [] = some none
decode_optional (n ∷ []) = some (some n)
decode_optional _ = none

decode-encode_optional : (o : Option ℕ) → decode_optional (encode_optional o) ≡ some o
decode-encode_optional none = refl
decode-encode_optional (some n) = refl

instance abbrev optional_codec : Codec (Option ℕ)
optional_codec = record {
  encode = encode_optional;
  decode = decode_optional;
  serialize_size = λ o. 5;
  decode-encode = decode-encode_optional;
}

abbrev new_session : {K V : Type 0} → Session K V Db
new_session = record { cache = on_db (new_layer true) empty_db; op_log_map = none }

abbrev new_db : CdpDb ℕ ℕ ℕ ℕ Db
new_db = record {
  globals = new_session;
  cdps = new_session;
  users = new_session;
  ratios = new_session;
  heights = new_session;
}

new_db-Consistent : Consistent ratio_ops new_db
unfolding view peek find get_data read get_bytes
new_db-Consistent = record {
  reads_globals = empty_db-AllReadable cdp_global_data (new_layer true);
  reads_cdps = empty_db-AllReadable cdp (new_layer true);
  reads_users = empty_db-AllReadable user_cdp (new_layer true);
  reads_ratios = empty_db-AllReadable cdp_ratio_index (new_layer true);
  reads_heights = empty_db-AllReadable cdp_height_index (new_layer true);
  by_ratio = record { owned = λ i c h. cc; listed = λ i c h. cc; backed = λ k c h. cc };
  by_height = record { owned = λ i c h. cc; listed = λ i c h. cc; backed = λ k c h. cc };
}

abbrev position : Position
position = record {
  cdpid = 9;
  owner_regid = 3;
  coin_pair = 1;
  block_height = 100;
  total_staked_inrs = 500;
  total_owed_scoins = 200;
  collateral_ratio_base = 2;
}

abbrev moved : Position
moved = record position { block_height = 120; coin_pair = 2; total_staked_inrs = 800 }

position-Filled : Filled position
position-Filled = record { has_id = refl; has_pair = refl; has_contents = refl }

moved-Filled : Filled moved
moved-Filled = record { has_id = refl; has_pair = refl; has_contents = refl }

no_position : shown_cdps ratio_ops new_db 9 ≡ absent
unfolding view peek find get_data read get_bytes
no_position = refl

new_cdp_lem_example :
    Changed ratio_ops
      (new_cdp ratio_ops position new_db)
      new_db
      position
      (found position)
      (3, 1)
      (found (some 9))
      (raised position (totals_of (shown_totals ratio_ops new_db 1)))
new_cdp_lem_example =
    new_cdp_lem ratio_ops position new_db position-Filled new_db-Consistent no_position

-- the object with the position
abbrev with_position : CdpDb ℕ ℕ ℕ ℕ Db
with_position = (new_cdp ratio_ops position new_db).1

created :
    Changed ratio_ops
      (new_cdp ratio_ops position new_db)
      new_db
      position
      (found position)
      (3, 1)
      (found (some 9))
      (raised position (totals_of (shown_totals ratio_ops new_db 1)))
created = new_cdp_lem ratio_ops position new_db position-Filled new_db-Consistent no_position

position_shown : shown_cdps ratio_ops with_position 9 ≡ found position
unfolding same
position_shown = created.positions 9

-- the position moves to another pair
update_cdp_lem_example :
    Updated ratio_ops position moved with_position
      (update_cdp ratio_ops position moved with_position)
update_cdp_lem_example =
    update_cdp_lem ratio_ops position moved with_position position-Filled moved-Filled refl
      created.consistent position_shown

erase_cdp_lem_example :
    Changed ratio_ops
      (erase_cdp ratio_ops position position with_position)
      with_position
      position
      absent
      (3, 1)
      absent
      (lowered position (totals_of (shown_totals ratio_ops with_position 1)))
erase_cdp_lem_example =
    erase_cdp_lem ratio_ops position position with_position position-Filled position-Filled refl
      created.consistent position_shown

-- a position of another owner
abbrev second_position : Position
second_position = record position { cdpid = 10; owner_regid = 4 }

-- the first position, with more staked
abbrev grown : Position
grown = record position { total_staked_inrs = 800 }

abbrev symbols : InrSymbols ℕ ℕ ℕ
symbols = record {
  is_builtin = λ t. t == 1;
  is_excluded = λ t. t == 2;
  builtin_detail = record { status = 1; init_tx_cord = 1 };
}

abbrev detail : InrDetail ℕ ℕ
detail = record { status = 2; init_tx_cord = 77 }

instance abbrev detail_value : ValueOps (InrDetail ℕ ℕ)
detail_value = record {
  is_empty = λ d. (d.status == 0) && (d.init_tx_cord == 0);
  set_empty = λ d. record { status = 0; init_tx_cord = 0 };
  default = record { status = 0; init_tx_cord = 0 };
  set_empty_is_empty = λ d. refl;
}

abbrev decode_detail : Bytes → Option (InrDetail ℕ ℕ)
decode_detail (a ∷ b ∷ []) = some (record { status = a; init_tx_cord = b })
decode_detail _ = none

instance abbrev detail_codec : Codec (InrDetail ℕ ℕ)
detail_codec = record {
  encode = λ d. d.status ∷ d.init_tx_cord ∷ [];
  decode = decode_detail;
  serialize_size = λ d. 8;
  decode-encode = λ d. refl;
}

abbrev details : Session ℕ (InrDetail ℕ ℕ) Db
details = record {
  cache =
      on_db
        (record {
          map_data = (5, record { status = 1; init_tx_cord = 40 }) ∷ [];
          is_calc_size = true;
          size = 0;
        })
        empty_db;
  op_log_map = none;
}

set_cdp_inr_lem_example :
    ((set_cdp_inr symbols 5 detail details).0 ≡ ok true)
    × ((get_cdp_inr symbols 5 (set_cdp_inr symbols 5 detail details).1.cache).0
        ≡ visible (found (merged_detail detail (view cdp_inr 5 details.cache))))
    × ((u : ℕ)
        → same u 5 ≡ false
        → view cdp_inr u (set_cdp_inr symbols 5 detail details).1.cache
          ≡ view cdp_inr u details.cache)
set_cdp_inr_lem_example =
    set_cdp_inr_lem symbols 5 detail details refl refl refl (empty_db-AllReadable cdp_inr _)
