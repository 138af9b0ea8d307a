-- ===== src/Tests/AccountTests.antt =====
-- Accounts of two layers, and one that is saved.
use inery_persistent_memory.Base.{
  ℕ, ◌%◌, ◌≡◌, refl, true, false, Option, none, some, List, [], ◌∷◌, arith, Bytes, u64_mod,
  bytes_lt,
}
use inery_persistent_memory.StdMap.{find, same, lower_bound}
use inery_persistent_memory.DbConf.Keys.{gen_db_key}
use inery_persistent_memory.StdMap.Order.{Sorted}
use inery_persistent_memory.Serialize.{Codec}
use inery_persistent_memory.DbUtil.{uint_value, pair_value}
use inery_persistent_memory.DbUtil.KeyOrder.{uint_key}
use inery_persistent_memory.DbConf.Prefix.{prefix_names, keyid_account, regid_keyid}
use inery_persistent_memory.LevelDb.Wrapper.{ok, found, read, get_bytes}
use inery_persistent_memory.LevelDb.Access.{get_data}
use inery_persistent_memory.Composite.{Cache, on_db, on_base}
use inery_persistent_memory.Composite.View.{view, database}
use inery_persistent_memory.DbIterator.Chain.{Holds, as_lookup}
use inery_persistent_memory.Accounts.{
  reg_id, key_id, pub_key, AccountOps, AccountDb, get_account, save_account, get_asset_total_supply,
}
use inery_persistent_memory.Accounts.Saved.{save_account_lem}
use inery_persistent_memory.Accounts.Supply.{sum_of, get_asset_total_supply_lem}
use inery_persistent_memory.Tests.Samples.{
  nat_codec, Db, db_leveldb, empty_db, empty_db-AllReadable,
}
use inery_persistent_memory.Tests.Stores.{Store, store_leveldb, store_entries}

-- an account is its registration id, its key id and its free amount
abbrev Account : Type 0
Account = ℕ × (ℕ × ℕ)

abbrev account_ops : AccountOps Account ℕ ℕ ℕ ℕ
account_ops = record {
  regid = λ a. a.0;
  keyid = λ a. a.1.0;
  get_token = λ a t. record {
    free_amount = a.1.1;
    voted_amount = 0;
    frozen_amount = 0;
    staked_amount = 1;
    pledged_amount = 0;
  };
  get_key_id = λ b. b;
}

abbrev decode_account : Bytes → Option Account
decode_account (r ∷ k ∷ n ∷ []) = some (r, (k, n))
decode_account _ = none

instance abbrev account_codec : Codec Account
account_codec = record {
  encode = λ a. a.0 ∷ a.1.0 ∷ a.1.1 ∷ [];
  decode = decode_account;
  serialize_size = λ a. 12;
  decode-encode = λ a. refl;
}

abbrev account_store : Store
account_store =
    (gen_db_key {K = ℕ} keyid_account 4, 1 ∷ 4 ∷ 40 ∷ [])
    ∷ (gen_db_key {K = ℕ} keyid_account 7, 3 ∷ 7 ∷ 10 ∷ [])
    ∷ []

abbrev accounts_stored : List (ℕ × Account)
accounts_stored = (4, (1, (4, 40))) ∷ (7, (3, (7, 10))) ∷ []

account_store-Holds : Holds keyid_account account_store accounts_stored
unfolding gen_db_key get_data find lower_bound same bytes_lt read get_bytes prefix_names
account_store-Holds = record {
  others = [];
  stands = refl;
  seeks = λ k. ground arith;
  ends = tt;
  in_order = ((refl, tt), (tt, tt));
  reads = λ k. ground arith;
}

abbrev accounts : Cache ℕ Account Store
accounts =
    on_base (record { map_data = (4, (1, (4, 90))) ∷ []; is_calc_size = false; size = 0 })
      (on_db
        (record {
          map_data = (4, (1, (4, 50))) ∷ (6, (2, (6, 20))) ∷ [];
          is_calc_size = true;
          size = 0;
        })
        account_store)

get_asset_total_supply_lem_example :
    (items : List (ℕ × Account)) × Sorted items
    × ((k : ℕ) → as_lookup (find k items) ≡ view keyid_account k accounts)
    × (get_asset_total_supply account_ops 9 0 accounts
        ≡ some (ok (sum_of account_ops 0 items % u64_mod)))
unfolding database
get_asset_total_supply_lem_example =
    get_asset_total_supply_lem account_ops 9 0 accounts account_store accounts_stored refl
      account_store-Holds ((tt, tt), ((refl, tt), (tt, tt))) (omega arith)

abbrev account_db : AccountDb Account ℕ ℕ Db
account_db = record {
  reg_id_2_key_id = record {
    cache = on_db (record { map_data = (1, 4) ∷ []; is_calc_size = true; size = 0 }) empty_db;
    op_log_map = none;
  };
  accounts = record {
    cache =
        on_db (record { map_data = (4, (1, (4, 50))) ∷ []; is_calc_size = true; size = 0 })
          empty_db;
    op_log_map = none;
  };
}

save_account_lem_example :
    ((save_account account_ops (2, (6, 30)) account_db).0 ≡ ok true)
    × ((get_account account_ops (reg_id 2) (save_account account_ops (2, (6, 30)) account_db).1).0
        ≡ found (2, (6, 30)))
    × ((get_account account_ops (key_id 6) (save_account account_ops (2, (6, 30)) account_db).1).0
        ≡ found (2, (6, 30)))
    × ((b : ℕ)
        → b ≡ 6
        → (get_account account_ops
            (pub_key b)
            (save_account account_ops (2, (6, 30)) account_db).1).0
          ≡ found (2, (6, 30)))
    × ((k : ℕ)
        → same k 6 ≡ false
        → (get_account account_ops
            (key_id k)
            (save_account account_ops (2, (6, 30)) account_db).1).0
          ≡ (get_account account_ops (key_id k) account_db).0)
save_account_lem_example =
    save_account_lem account_ops (2, (6, 30)) account_db refl refl refl refl
      (empty_db-AllReadable regid_keyid _) (empty_db-AllReadable keyid_account _)
