-- ===== src/Governance/Governors.antt =====
-- `CheckIsGovernor` after `AddGovernor` and `EraseGovernor`, and the approvals that are needed.
use inery_persistent_memory.Base.{
  not, ◌&&◌, Bool, ℕ, ◌-◌, ◌/◌, ◌%◌, ◌*◌, ◌≤◌, ◌<◌, ◌≡◌, refl, ap, sym, ◌∙◌, true, false, ◌||◌, [],
  ◌∷◌, arith, Bool-cases, Option-cases, inl, inr,
}
use inery_persistent_memory.StdMap.{KeyOps, same, find, emplace, erase_at}
use inery_persistent_memory.StdMap.Find.{same_refl}
use inery_persistent_memory.Serialize.{Codec}
use inery_persistent_memory.DbUtil.{list_value}
use inery_persistent_memory.DbConf.Prefix.{sys_govern}
use inery_persistent_memory.LevelDb.{LevelDb}
use inery_persistent_memory.LevelDb.Wrapper.{ok, found, failed}
use inery_persistent_memory.Composite.{visible}
use inery_persistent_memory.Simple.{SimpleCache, SimpleSession, simple_get_data, simple_set_data}
use inery_persistent_memory.Simple.View.{simple_peek, simple_view}
use inery_persistent_memory.Simple.Reads.{simple_get_data_lem}
use inery_persistent_memory.Simple.Writes.{SimpleReadable, simple_set_data_lem}
use inery_persistent_memory.Cdp.Writes.{visible-failed}
use inery_persistent_memory.PriceFeed.Cache.{KeySet, count, pairs_or_none}
use inery_persistent_memory.PriceFeed.Cache.Pairs.{
  count-erase_at, count-emplace, count-same, stored_set,
}
use inery_persistent_memory.Delegates.{number_of}
use inery_persistent_memory.Governance.{
  governors_or, get_governors, check_is_governor, get_governor_approval_min_count, store_governors,
  add_governor, erase_governor,
}

module _ {R : Type 0} ⦃ro : KeyOps R⦄ where
  emplace-there : (r : R) (l : KeySet R) → count r l ≡ true → (emplace r tt l).0 ≡ l
  unfolding emplace count
  emplace-there r l h = elim (Option-cases (find r l)) [
    | inl e ↦ let no : count r l ≡ false = rw (e, count) refl in cc
    | inr (u, e) ↦ rw (e, emplace) refl
  ]

  -- a set with the governor besides the others
  count-added : (q r : R) (l : KeySet R) → count q (emplace r tt l).0 ≡ (same q r || count q l)
  unfolding emplace
  count-added q r l = elim (Bool-cases (count r l)) [
    | inr e ↦ count-emplace q r l e
    | inl e ↦ ap (count q) (emplace-there r l e) ∙ count-same q r l e
  ]

  -- who is a governor: who is in the set, or the one of the genesis if no one is
  abbrev pub governs : R → KeySet R → R → Bool
  governs genesis [] q = same q genesis
  governs genesis (x ∷ l) q = count q (x ∷ l)

  count-governs :
      (genesis q : R) (l : KeySet R) → count q (governors_or genesis l) ≡ governs genesis l q
  unfolding governors_or count find
  count-governs genesis q [] = elim (Bool-cases (same q genesis)) [
    | inl e ↦ rw (e, governors_or, count, find) refl
    | inr e ↦ rw (e, governors_or, count, find) refl
  ]
  count-governs genesis q (x ∷ l) = refl

  -- who is a governor once the set is not empty
  count-governors_or :
      (genesis r q : R) (l : KeySet R)
      → count r l ≡ true
      → count q (governors_or genesis l) ≡ count q l
  unfolding governors_or count find
  count-governors_or genesis r q [] h = cc
  count-governors_or genesis r q (x ∷ l) h = refl

module _ {R D : Type 0} ⦃ro : KeyOps R⦄ ⦃sc : Codec (KeySet R)⦄ ⦃ldb : LevelDb D⦄ where
  get_governors-shown :
      (genesis : R) (c : SimpleCache (KeySet R) D) (l : KeySet R)
      → simple_view sys_govern c ≡ visible (found l)
      → (get_governors genesis c).0 ≡ ok (governors_or genesis l)
  unfolding get_governors pairs_or_none governors_or
  get_governors-shown genesis c [] h =
      rw ((simple_get_data_lem sys_govern c).0 ∙ h, get_governors) refl
  get_governors-shown genesis c (x ∷ l) h =
      rw ((simple_get_data_lem sys_govern c).0 ∙ h, get_governors) refl

  check-shown :
      (genesis q : R) (c : SimpleCache (KeySet R) D) (l : KeySet R)
      → simple_view sys_govern c ≡ visible (found l)
      → (check_is_governor genesis q c).0 ≡ ok (count q (governors_or genesis l))
  unfolding check_is_governor
  check-shown genesis q c l h = rw (get_governors-shown genesis c l h, check_is_governor) refl

  -- Where the database can be read, and for the set of governors that the cache shows: `CheckIsGovernor`
  -- finds exactly its members, or exactly the one of the genesis if it is empty. `AddGovernor`
  -- succeeds, and then exactly the governor and the members of before are found, so the one of the
  -- genesis no longer if the set was empty; `EraseGovernor` succeeds, and then the members but the
  -- erased one are found, or exactly the one of the genesis if none is left.
  pub governors_lem :
      (genesis r : R) (s : SimpleSession (KeySet R) D)
      → SimpleReadable sys_govern s.cache
      → (stored : KeySet R) × (simple_view sys_govern s.cache ≡ visible (found stored))
        × ((q : R) → (check_is_governor genesis q s.cache).0 ≡ ok (governs genesis stored q))
        × ((add_governor r s).0 ≡ ok true)
        × ((q : R)
            → (check_is_governor genesis q (add_governor r s).1.cache).0
              ≡ ok (same q r || count q stored))
        × ((erase_governor r s).0 ≡ ok true)
        × ((left : KeySet R) × ((q : R) → count q left ≡ (not (same q r) && count q stored))
            × ((q : R)
                → (check_is_governor genesis q (erase_governor r s).1.cache).0
                  ≡ ok (governs genesis left q)))
  unfolding add_governor erase_governor store_governors simple_view
  governors_lem genesis r s n =
      let (l, shows, reads) = stored_set (simple_peek sys_govern s.cache) n in
      let (got, _, still, lowers, _) = simple_get_data_lem sys_govern s.cache in
      let after : SimpleSession (KeySet R) D = record s {
        cache = (simple_get_data sys_govern s.cache).1;
      } in
      let readable : SimpleReadable sys_govern after.cache = λ e h.
        let bad : found l ≡ failed e =
          visible-failed (found l) e (sym (still ∙ shows) ∙ ap visible h) in
        cc in
      let known : pairs_or_none (simple_get_data sys_govern s.cache).0 ≡ ok l =
        ap pairs_or_none got ∙ reads in
      let more = (emplace r tt l).0 in
      let (a, added, _) = simple_set_data_lem sys_govern more after readable in
      let (e, erased, _) = simple_set_data_lem sys_govern (erase_at r l) after readable in
      let there : count r more ≡ true = count-added r r l ∙ rw (same_refl r) refl in
      rw (known, add_governor, erase_governor, store_governors)
        (
          l,
          shows,
          λ q. check-shown genesis q s.cache l shows ∙ ap ok (count-governs genesis q l),
          a,
          λ q.
              check-shown genesis q (simple_set_data sys_govern more after).1.cache more added
              ∙ ap ok (count-governors_or genesis r q more there ∙ count-added q r l),
          e,
          (
            erase_at r l,
            λ q. count-erase_at q r l,
            λ q.
                check-shown genesis q (simple_set_data sys_govern (erase_at r l) after).1.cache
                  (erase_at r l) erased
                ∙ ap ok (count-governs genesis q (erase_at r l)),
          ),
        )

  -- Below 256 governors, the approvals that are needed are at least two thirds of them.
  min_count_lem :
      (genesis : R) (c : SimpleCache (KeySet R) D) (l : KeySet R)
      → simple_view sys_govern c ≡ visible (found l)
      → number_of (governors_or genesis l) < 256
      → (m : ℕ) × ((get_governor_approval_min_count genesis c).0 ≡ ok m)
        × (2 * number_of (governors_or genesis l) ≤ 3 * m)
        × (m ≤ number_of (governors_or genesis l))
  unfolding get_governor_approval_min_count
  min_count_lem genesis c l h small =
      let n = number_of (governors_or genesis l) in
      (
        (n - n / 3) % 256,
        rw (get_governors-shown genesis c l h, get_governor_approval_min_count) refl,
        omega arith,
        omega arith,
      )
