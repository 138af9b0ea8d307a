-- ===== src/Governance.antt =====
-- `InerySysGovernDBCache` of persistence/sysgoverndb.h: the governors, their proposals and approvals.
pub mod Governors
pub mod Approvals
use inery_persistent_memory.Base.{
  ℕ, ◌+◌, ◌-◌, ◌/◌, ◌%◌, Bool, true, false, ◌||◌, List, [], ◌∷◌, if◌then◌else◌,
}
use inery_persistent_memory.StdMap.{KeyOps, same, emplace, erase_at}
use inery_persistent_memory.Serialize.{Codec, ValueOps}
use inery_persistent_memory.DbUtil.{list_value}
use inery_persistent_memory.DbConf.Prefix.{sys_govern, govn_prop, govn_approval_list}
use inery_persistent_memory.LevelDb.{LevelDb}
use inery_persistent_memory.LevelDb.Wrapper.{Outcome, ok, throws, Lookup, found, absent, failed}
use inery_persistent_memory.Composite.{Cache, Session, cache_get_data, set_data}
use inery_persistent_memory.Simple.{SimpleCache, SimpleSession, simple_get_data, simple_set_data}
use inery_persistent_memory.PriceFeed.Cache.{KeySet, count, pairs_or_none}
use inery_persistent_memory.Delegates.{number_of}

-- without governors, the one of the genesis
unfoldable pub governors_or : {R : Type 0} → R → KeySet R → KeySet R
governors_or genesis [] = (genesis, tt) ∷ []
governors_or genesis (r ∷ governors) = r ∷ governors

module _ {R D : Type 0} ⦃ro : KeyOps R⦄ ⦃sc : Codec (KeySet R)⦄ ⦃ldb : LevelDb D⦄ where
  -- GetGovernors
  unfoldable pub get_governors :
      R → SimpleCache (KeySet R) D → Outcome (KeySet R) × SimpleCache (KeySet R) D
  get_governors genesis c =
      let (r, c') = simple_get_data sys_govern c in
      (
        elim (pairs_or_none r) [
          | ok governors ↦ ok (governors_or genesis governors)
          | throws e ↦ throws e
        ],
        c',
      )

  -- CheckIsGovernor
  unfoldable pub check_is_governor :
      R → R → SimpleCache (KeySet R) D → Outcome Bool × SimpleCache (KeySet R) D
  check_is_governor genesis candidate c =
      let (r, c') = get_governors genesis c in
      (elim r [ ok governors ↦ ok (count candidate governors) | throws e ↦ throws e ], c')

  -- GetGovernorApprovalMinCount, a `uint8_t`
  unfoldable pub get_governor_approval_min_count :
      R → SimpleCache (KeySet R) D → Outcome ℕ × SimpleCache (KeySet R) D
  get_governor_approval_min_count genesis c =
      let (r, c') = get_governors genesis c in
      (
        elim r [
          | ok governors ↦ let n = number_of governors in ok ((n - n / 3) % 256)
          | throws e ↦ throws e
        ],
        c',
      )

  -- the new set is stored, if the old one was read
  unfoldable pub store_governors :
      (KeySet R → KeySet R)
      → Outcome (KeySet R)
      → SimpleSession (KeySet R) D
      → Outcome Bool × SimpleSession (KeySet R) D
  store_governors f (throws e) s = (throws e, s)
  store_governors f (ok governors) s = simple_set_data sys_govern (f governors) s

  -- AddGovernor and EraseGovernor
  unfoldable pub add_governor :
      R → SimpleSession (KeySet R) D → Outcome Bool × SimpleSession (KeySet R) D
  add_governor r s =
      let (l, c) = simple_get_data sys_govern s.cache in
      store_governors (λ g. (emplace r tt g).0) (pairs_or_none l) (record s { cache = c })

  unfoldable pub erase_governor :
      R → SimpleSession (KeySet R) D → Outcome Bool × SimpleSession (KeySet R) D
  erase_governor r s =
      let (l, c) = simple_get_data sys_govern s.cache in
      store_governors (λ g. erase_at r g) (pairs_or_none l) (record s { cache = c })

module _ {T B D : Type 0} ⦃ko : KeyOps T⦄ ⦃vo : ValueOps B⦄ ⦃kc : Codec T⦄ ⦃vc : Codec B⦄
    ⦃ldb : LevelDb D⦄ where
  -- SetProposal and GetProposal, of a proposal in its CProposalStorageBean
  unfoldable pub set_proposal : T → B → Session T B D → Outcome Bool × Session T B D
  set_proposal tx_id bean s = set_data govn_prop tx_id bean s

  unfoldable pub get_proposal : T → Cache T B D → Lookup B × Cache T B D
  get_proposal tx_id c = cache_get_data govn_prop tx_id c

module _ {R : Type 0} ⦃ro : KeyOps R⦄ where
  -- std::find in `SetApproval`
  unfoldable pub approved_by : R → List R → Bool
  approved_by r [] = false
  approved_by r (a ∷ l) = same a r || approved_by r l

-- v.push_back(r)
unfoldable pub push_back : {R : Type 0} → List R → R → List R
push_back [] r = r ∷ []
push_back (a ∷ l) r = a ∷ push_back l r

module _ {T R D : Type 0} ⦃ko : KeyOps T⦄ ⦃kc : Codec T⦄ ⦃vc : Codec (List R)⦄
    ⦃ldb : LevelDb D⦄ where
  -- GetApprovalList
  unfoldable pub get_approval_list : T → Cache T (List R) D → Lookup (List R) × Cache T (List R) D
  get_approval_list proposal c = cache_get_data govn_approval_list proposal c

  -- GetApprovalCount
  unfoldable pub get_approval_count : T → Cache T (List R) D → Outcome ℕ × Cache T (List R) D
  get_approval_count proposal c =
      let (r, c') = get_approval_list proposal c in
      (elim r [ found v ↦ ok (number_of v) | absent ↦ ok 0 | failed e ↦ throws e ], c')

module _ {T R D : Type 0} ⦃ko : KeyOps T⦄ ⦃ro : KeyOps R⦄ ⦃kc : Codec T⦄ ⦃vc : Codec (List R)⦄
    ⦃ldb : LevelDb D⦄ where
  -- the branches of `SetApproval` on the list that was read
  unfoldable pub approve_over :
      T → R → Lookup (List R) → Session T (List R) D → Outcome Bool × Session T (List R) D
  approve_over proposal governor (found v) s =
      if approved_by governor v
      then (ok false, s)
      else set_data govn_approval_list proposal (push_back v governor) s
  approve_over proposal governor absent s = set_data govn_approval_list proposal (governor ∷ []) s
  approve_over proposal governor (failed e) s = (throws e, s)

  -- SetApproval
  unfoldable pub set_approval : T → R → Session T (List R) D → Outcome Bool × Session T (List R) D
  set_approval proposal governor s =
      let (r, c) = get_approval_list proposal s.cache in
      approve_over proposal governor r (record s { cache = c })
