-- ===== src/Accounts/Saved.antt =====
-- What `SaveAccount` leaves, by each kind of user id.
use inery_persistent_memory.Base.{
  ◌≡◌, refl, ap, sym, ◌∙◌, true, false, if◌then◌else◌, Bool-cases, inl, inr,
}
use inery_persistent_memory.StdMap.{KeyOps, same}
use inery_persistent_memory.StdMap.Find.{same_refl}
use inery_persistent_memory.Serialize.{Codec, ValueOps}
use inery_persistent_memory.DbConf.Prefix.{regid_keyid, keyid_account}
use inery_persistent_memory.LevelDb.{LevelDb}
use inery_persistent_memory.LevelDb.Wrapper.{ok, Lookup, found, absent, failed}
use inery_persistent_memory.Composite.{set_data}
use inery_persistent_memory.Composite.View.{view}
use inery_persistent_memory.Composite.Contract.{cache_get_data_lem}
use inery_persistent_memory.Cdp.Writes.{AllReadable, set_everywhere}
use inery_persistent_memory.Accounts.{
  UserId, null_id, reg_id, key_id, pub_key, AccountOps, AccountDb, get_account_of_key,
  get_key_id_of_reg, account_at, get_account_of_reg, get_account, new_reg_id, set_account_of_key,
  save_by_key, save_account,
}

module _ {A R K B T D : Type 0} (ao : AccountOps A R K B T) ⦃ro : KeyOps R⦄ ⦃ko : KeyOps K⦄
    ⦃va : ValueOps A⦄ ⦃vk : ValueOps K⦄ ⦃cr : Codec R⦄ ⦃ck : Codec K⦄ ⦃ca : Codec A⦄
    ⦃ldb : LevelDb D⦄ where
  -- the account that a user id leads to, and its key id, by what the caches show
  abbrev pub shown_account : K → AccountDb A R K D → Lookup A
  shown_account k db = if ko.is_empty k then absent else view keyid_account k db.accounts.cache

  abbrev pub shown_key_id : R → AccountDb A R K D → Lookup K
  shown_key_id r db = if ro.is_empty r then absent else view regid_keyid r db.reg_id_2_key_id.cache

  abbrev pub account_behind : Lookup K → AccountDb A R K D → Lookup A
  account_behind (found k) db = shown_account k db
  account_behind absent db = absent
  account_behind (failed e) db = failed e

  abbrev pub account_of : UserId R K B → AccountDb A R K D → Lookup A
  account_of (reg_id r) db = account_behind (shown_key_id r db) db
  account_of (key_id k) db = shown_account k db
  account_of (pub_key b) db = shown_account (ao.get_key_id b) db
  account_of null_id db = absent

  of_key : (k : K) (db : AccountDb A R K D) → (get_account_of_key ao k db).0 ≡ shown_account k db
  unfolding get_account_of_key
  of_key k db = (cache_get_data_lem keyid_account k db.accounts.cache).0

  of_reg : (r : R) (db : AccountDb A R K D) → (get_key_id_of_reg ao r db).0 ≡ shown_key_id r db
  unfolding get_key_id_of_reg
  of_reg r db = (cache_get_data_lem regid_keyid r db.reg_id_2_key_id.cache).0

  at_key : (l : Lookup K) (db : AccountDb A R K D) → (account_at ao l db).0 ≡ account_behind l db
  unfolding account_at
  at_key (found k) db = of_key k db
  at_key absent db = refl
  at_key (failed e) db = refl

  -- the search for the key id leaves the accounts
  elsewhere :
      (l : Lookup K) (r : R) (db : AccountDb A R K D)
      → account_behind l (get_key_id_of_reg ao r db).1 ≡ account_behind l db
  unfolding get_key_id_of_reg
  elsewhere (found k) r db = refl
  elsewhere absent r db = refl
  elsewhere (failed e) r db = refl

  -- `GetAccount` of a user id returns the account that it leads to: for a registration id the
  -- account of the key id that is shown for it, for a key or key id the account that is shown.
  pub get_account_lem :
      (u : UserId R K B) (db : AccountDb A R K D) → (get_account ao u db).0 ≡ account_of u db
  unfolding get_account get_account_of_reg
  get_account_lem null_id db = refl
  get_account_lem (key_id k) db = of_key k db
  get_account_lem (pub_key b) db = of_key (ao.get_key_id b) db
  get_account_lem (reg_id r) db = elim (Bool-cases (ro.is_empty r)) [
    | inl e ↦ rw (e, get_account_of_reg) refl
    | inr e ↦
        rw (e, get_account_of_reg)
          (at_key (get_key_id_of_reg ao r db).0 (get_key_id_of_reg ao r db).1
            ∙ elsewhere (get_key_id_of_reg ao r db).0 r db
            ∙ ap (λ l. account_behind l db) (of_reg r db ∙ rw e refl))
  ]

  -- `SaveAccount` of an account that is not empty, with a key id and a registration id that are not
  -- empty, where no read fails: it succeeds, then `GetAccount` returns the account for its
  -- registration id, for its key id and for every public key of that key id, and `GetAccount` of
  -- other key ids returns what it did.
  pub save_account_lem :
      (a : A) (db : AccountDb A R K D)
      → ro.is_empty (ao.regid a) ≡ false
      → ko.is_empty (ao.keyid a) ≡ false
      → vk.is_empty (ao.keyid a) ≡ false
      → va.is_empty a ≡ false
      → AllReadable regid_keyid db.reg_id_2_key_id.cache
      → AllReadable keyid_account db.accounts.cache
      → ((save_account ao a db).0 ≡ ok true)
        × ((get_account ao (reg_id (ao.regid a)) (save_account ao a db).1).0 ≡ found a)
        × ((get_account ao (key_id (ao.keyid a)) (save_account ao a db).1).0 ≡ found a)
        × ((b : B)
            → ao.get_key_id b ≡ ao.keyid a
            → (get_account ao (pub_key b) (save_account ao a db).1).0 ≡ found a)
        × ((k : K)
            → same k (ao.keyid a) ≡ false
            → (get_account ao (key_id k) (save_account ao a db).1).0
              ≡ (get_account ao (key_id k) db).0)
  unfolding save_account new_reg_id set_account_of_key save_by_key
  save_account_lem a db hr hk vk' va' rr rk =
      let (o1, w1, r1) =
        set_everywhere regid_keyid (ao.regid a) (ao.keyid a) db.reg_id_2_key_id hr rr in
      let (o2, w2, r2) = set_everywhere keyid_account (ao.keyid a) a db.accounts hk rk in
      let after : AccountDb A R K D = record {
        reg_id_2_key_id = (set_data regid_keyid (ao.regid a) (ao.keyid a) db.reg_id_2_key_id).1;
        accounts = (set_data keyid_account (ao.keyid a) a db.accounts).1;
      } in
      let ends : save_account ao a db ≡ (ok true, after) =
        rw (hr, save_account) (rw (o1, save_by_key) (rw o2 refl)) in
      let here : shown_account (ao.keyid a) after ≡ found a =
        rw hk (w2 (ao.keyid a) ∙ rw (same_refl (ao.keyid a)) (rw va' refl)) in
      let keyed : shown_key_id (ao.regid a) after ≡ found (ao.keyid a) =
        rw hr (w1 (ao.regid a) ∙ rw (same_refl (ao.regid a)) (rw vk' refl)) in
      rw ends (
        refl,
        get_account_lem (reg_id (ao.regid a)) after ∙ ap (λ l. account_behind l after) keyed ∙ here,
        get_account_lem (key_id (ao.keyid a)) after ∙ here,
        λ b e. get_account_lem (pub_key b) after ∙ ap (λ k. shown_account k after) e ∙ here,
        λ k n.
            get_account_lem (key_id k) after
            ∙ ap (λ r. if ko.is_empty k then absent else r) (w2 k ∙ rw n refl)
            ∙ sym (get_account_lem (key_id k) db),
      )
