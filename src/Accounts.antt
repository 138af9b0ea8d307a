-- ===== src/Accounts.antt =====
-- persistence/accountdb.h and .cpp: `IneryAccountDBCache`, the accounts by key id, and the key ids by
-- registration id.
pub mod Saved
pub mod Supply
use inery_persistent_memory.Base.{
  ℕ, zero, suc, Bool, true, false, not, Option, none, some, List, if◌then◌else◌, add_u64,
}
use inery_persistent_memory.StdMap.{KeyOps}
use inery_persistent_memory.Serialize.{Codec, ValueOps}
use inery_persistent_memory.DbConf.Prefix.{regid_keyid, keyid_account}
use inery_persistent_memory.LevelDb.{LevelDb}
use inery_persistent_memory.LevelDb.Wrapper.{
  Outcome, ok, throws, Lookup, found, absent, failed, out_of_fuel,
}
use inery_persistent_memory.Composite.{
  Cache, Session, set_data, erase_data, cache_get_data, cache_has_data,
}
use inery_persistent_memory.DbIterator.{LevelDbEntries, Iterator, ◌>>=◌}
use inery_persistent_memory.DbIterator.Chain.{create}

-- IneryUserID
pub data UserId (R K B : Type 0) : Type 0 where
  null_id : UserId R K B
  reg_id : R → UserId R K B
  key_id : K → UserId R K B
  pub_key : B → UserId R K B

-- IneryAccountToken
pub record AccountToken : Type 0 where
  pub free_amount : ℕ
  pub voted_amount : ℕ
  pub frozen_amount : ℕ
  pub staked_amount : ℕ
  pub pledged_amount : ℕ

-- what the cache uses of `IneryAccount` and `IneryPubKey`, of objects/account.h and objects/id.h
pub record AccountOps (A R K B T : Type 0) : Type 0 where
  pub regid : A → R
  pub keyid : A → K
  pub get_token : A → T → AccountToken
  pub get_key_id : B → K

-- the two caches
pub record AccountDb (A R K D : Type 0) : Type 0 where
  pub reg_id_2_key_id : Session R K D
  pub accounts : Session K A D

-- a call whose Boolean is not looked at, and `true`
abbrev pub true_unless_thrown : Outcome Bool → Outcome Bool
true_unless_thrown (ok _) = ok true
true_unless_thrown (throws e) = throws e

module _ {A R K B T : Type 0} (ao : AccountOps A R K B T) ⦃ro : KeyOps R⦄ where
  -- the registration id of an account that was looked up, which may not be empty
  unfoldable pub reg_id_of : Lookup A → Lookup R
  reg_id_of (found a) = if ro.is_empty (ao.regid a) then absent else found (ao.regid a)
  reg_id_of absent = absent
  reg_id_of (failed e) = failed e

module _ {A R K B T D : Type 0} (ao : AccountOps A R K B T) ⦃ro : KeyOps R⦄ ⦃ko : KeyOps K⦄
    ⦃va : ValueOps A⦄ ⦃vk : ValueOps K⦄ ⦃cr : Codec R⦄ ⦃ck : Codec K⦄ ⦃ca : Codec A⦄
    ⦃ldb : LevelDb D⦄ where
  -- GetAccount of a key id
  unfoldable pub get_account_of_key : K → AccountDb A R K D → Lookup A × AccountDb A R K D
  get_account_of_key k db =
      let (r, c) = cache_get_data keyid_account k db.accounts.cache in
      (r, record db { accounts = record db.accounts { cache = c } })

  -- GetKeyId of a registration id
  unfoldable pub get_key_id_of_reg : R → AccountDb A R K D → Lookup K × AccountDb A R K D
  get_key_id_of_reg r db =
      let (k, c) = cache_get_data regid_keyid r db.reg_id_2_key_id.cache in
      (k, record db { reg_id_2_key_id = record db.reg_id_2_key_id { cache = c } })

  -- after a key id was looked up: the call with it, or the result without one
  unfoldable pub account_at : Lookup K → AccountDb A R K D → Lookup A × AccountDb A R K D
  account_at (found k) db = get_account_of_key k db
  account_at absent db = (absent, db)
  account_at (failed e) db = (failed e, db)

  unfoldable pub set_account_at :
      A → Lookup K → AccountDb A R K D → Outcome Bool × AccountDb A R K D
  set_account_at a (found k) db =
      let (o, s) = set_data keyid_account k a db.accounts in (o, record db { accounts = s })
  set_account_at a absent db = (ok false, db)
  set_account_at a (failed e) db = (throws e, db)

  -- GetAccount of a registration id
  unfoldable pub get_account_of_reg : R → AccountDb A R K D → Lookup A × AccountDb A R K D
  get_account_of_reg r db =
      if ro.is_empty r
      then (absent, db)
      else (let (k, db') = get_key_id_of_reg r db in account_at k db')

  -- SetAccount of a key id, and of a registration id
  unfoldable pub set_account_of_key : K → A → AccountDb A R K D → Outcome Bool × AccountDb A R K D
  set_account_of_key k a db =
      let (o, s) = set_data keyid_account k a db.accounts in
      (true_unless_thrown o, record db { accounts = s })

  unfoldable pub set_account_of_reg : R → A → AccountDb A R K D → Outcome Bool × AccountDb A R K D
  set_account_of_reg r a db = let (k, db') = get_key_id_of_reg r db in set_account_at a k db'

  -- HasAccount of a key id, and of a registration id
  unfoldable pub has_account_of_key : K → AccountDb A R K D → Outcome Bool × AccountDb A R K D
  has_account_of_key k db =
      let (o, c) = cache_has_data keyid_account k db.accounts.cache in
      (o, record db { accounts = record db.accounts { cache = c } })

  unfoldable pub has_account_of_reg : R → AccountDb A R K D → Outcome Bool × AccountDb A R K D
  has_account_of_reg r db =
      let (o, c) = cache_has_data regid_keyid r db.reg_id_2_key_id.cache in
      (o, record db { reg_id_2_key_id = record db.reg_id_2_key_id { cache = c } })

  -- GetAccount, SetAccount and HasAccount of a user id
  unfoldable pub get_account : UserId R K B → AccountDb A R K D → Lookup A × AccountDb A R K D
  get_account (reg_id r) db = get_account_of_reg r db
  get_account (key_id k) db = get_account_of_key k db
  get_account (pub_key b) db = get_account_of_key (ao.get_key_id b) db
  get_account null_id db = (absent, db)

  unfoldable pub set_account :
      UserId R K B → A → AccountDb A R K D → Outcome Bool × AccountDb A R K D
  set_account (reg_id r) a db = set_account_of_reg r a db
  set_account (key_id k) a db = set_account_of_key k a db
  set_account (pub_key b) a db = set_account_of_key (ao.get_key_id b) a db
  set_account null_id a db = (ok false, db)

  unfoldable pub has_account : UserId R K B → AccountDb A R K D → Outcome Bool × AccountDb A R K D
  has_account (reg_id r) db = has_account_of_reg r db
  has_account (key_id k) db = has_account_of_key k db
  has_account (pub_key b) db = has_account_of_key (ao.get_key_id b) db
  has_account null_id db = (ok false, db)

  -- EraseAccount of a key id, NewRegId, and EraseKeyId of a registration id
  unfoldable pub erase_account_of_key : K → AccountDb A R K D → Outcome Bool × AccountDb A R K D
  erase_account_of_key k db =
      let (o, s) = erase_data keyid_account k db.accounts in (o, record db { accounts = s })

  unfoldable pub new_reg_id : R → K → AccountDb A R K D → Outcome Bool × AccountDb A R K D
  new_reg_id r k db =
      let (o, s) = set_data regid_keyid r k db.reg_id_2_key_id in
      (o, record db { reg_id_2_key_id = s })

  unfoldable pub erase_key_id_of_reg : R → AccountDb A R K D → Outcome Bool × AccountDb A R K D
  erase_key_id_of_reg r db =
      let (o, s) = erase_data regid_keyid r db.reg_id_2_key_id in
      (o, record db { reg_id_2_key_id = s })

  -- EraseAccount and EraseKeyId of a user id
  unfoldable pub erase_account : UserId R K B → AccountDb A R K D → Outcome Bool × AccountDb A R K D
  erase_account (key_id k) db = erase_account_of_key k db
  erase_account (pub_key b) db = erase_account_of_key (ao.get_key_id b) db
  erase_account (reg_id r) db = (ok false, db)
  erase_account null_id db = (ok false, db)

  unfoldable pub erase_key_id : UserId R K B → AccountDb A R K D → Outcome Bool × AccountDb A R K D
  erase_key_id (reg_id r) db = erase_key_id_of_reg r db
  erase_key_id (key_id k) db = (ok false, db)
  erase_key_id (pub_key b) db = (ok false, db)
  erase_key_id null_id db = (ok false, db)

  -- GetKeyId of a user id
  unfoldable pub get_key_id : UserId R K B → AccountDb A R K D → Lookup K × AccountDb A R K D
  get_key_id (reg_id r) db = get_key_id_of_reg r db
  get_key_id (pub_key b) db = (found (ao.get_key_id b), db)
  get_key_id (key_id k) db = (found k, db)
  get_key_id null_id db = (absent, db)

  -- GetRegId of a user id
  unfoldable pub get_reg_id : UserId R K B → AccountDb A R K D → Lookup R × AccountDb A R K D
  get_reg_id (reg_id r) db = (found r, db)
  get_reg_id (key_id k) db = let (a, db') = get_account_of_key k db in (reg_id_of ao a, db')
  get_reg_id (pub_key b) db =
      let (a, db') = get_account_of_key (ao.get_key_id b) db in (reg_id_of ao a, db')
  get_reg_id null_id db = (absent, db)

  -- the second write of `SaveAccount`
  unfoldable pub save_by_key :
      A → Outcome Bool → AccountDb A R K D → Outcome Bool × AccountDb A R K D
  save_by_key a (throws e) db = (throws e, db)
  save_by_key a (ok _) db = set_account_of_key (ao.keyid a) a db

  -- SaveAccount
  unfoldable pub save_account : A → AccountDb A R K D → Outcome Bool × AccountDb A R K D
  save_account a db =
      if ro.is_empty (ao.regid a)
      then set_account_of_key (ao.keyid a) a db
      else (let (o, db') = new_reg_id (ao.regid a) (ao.keyid a) db in save_by_key a o db')

  -- GetAccountFreeAmount; an account that is not there has the amounts of a new one
  unfoldable pub get_account_free_amount : K → T → AccountDb A R K D → Outcome ℕ × AccountDb A R K D
  get_account_free_amount k t db =
      let (r, db') = get_account_of_key k db in
      (
        elim r [
          | found a ↦ ok (ao.get_token a t).free_amount
          | absent ↦ ok (ao.get_token va.default t).free_amount
          | failed e ↦ throws e
        ],
        db',
      )

-- the sum of the amounts, in 64 bits
unfoldable pub token_total : AccountToken → ℕ
token_total t =
    add_u64
      (add_u64 (add_u64 (add_u64 t.free_amount t.voted_amount) t.frozen_amount) t.staked_amount)
      t.pledged_amount

module _ {A R K B T S : Type 0} (ao : AccountOps A R K B T) (it : Iterator K A S) (t : T) where
  -- the loop of `GetAssetTotalSupply`
  unfoldable pub supply_loop : ℕ → S → ℕ → Outcome ℕ
  supply_loop zero s total = throws out_of_fuel
  supply_loop (suc n) s total = elim (it.current s) [
    | none ↦ ok total
    | some x ↦
        it.next s >>= λ s'. supply_loop n s' (add_u64 total (token_total (ao.get_token x.1 t)))
  ]

module _ {A R K B T D : Type 0} (ao : AccountOps A R K B T) ⦃ko : KeyOps K⦄ ⦃va : ValueOps A⦄
    ⦃ck : Codec K⦄ ⦃ca : Codec A⦄ ⦃le : LevelDbEntries D⦄ where
  -- GetAssetTotalSupply
  unfoldable pub get_asset_total_supply : ℕ → T → Cache K A D → Option (Outcome ℕ)
  get_asset_total_supply fuel t c = elim (create fuel keyid_account c) [
    | none ↦ none
    | some it ↦ some (it.calls.first it.start >>= λ s. supply_loop ao it.calls t fuel s 0)
  ]
