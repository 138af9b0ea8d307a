-- ===== src/Delegates/Active.antt =====
-- Who is an active delegate after `SetActiveDelegates`.
use inery_persistent_memory.Base.{
  ◌≡◌, refl, ap, ◌∙◌, Bool, true, false, ◌||◌, Option, none, some, List, [], ◌∷◌, Bool-cases, inl,
  inr,
}
use inery_persistent_memory.Serialize.{Codec}
use inery_persistent_memory.DbUtil.{list_value}
use inery_persistent_memory.DbConf.Prefix.{active_delegates}
use inery_persistent_memory.LevelDb.{LevelDb}
use inery_persistent_memory.LevelDb.Wrapper.{Outcome, ok, throws, Lookup, found, absent, failed}
use inery_persistent_memory.Composite.{visible}
use inery_persistent_memory.Simple.{SimpleCache, SimpleSession, assert_not_empty}
use inery_persistent_memory.Simple.View.{simple_peek, simple_view}
use inery_persistent_memory.Simple.Reads.{simple_get_data_lem}
use inery_persistent_memory.Simple.Writes.{SimpleReadable, simple_set_data_lem}
use inery_persistent_memory.Delegates.{
  VoteDelegate, find_delegate, number_of, get_active_delegates, set_active_delegates,
  get_actived_delegate_num, get_active_delegate, is_active_delegate,
}

module _ {R : Type 0} where
  -- whether a delegate has the regid
  abbrev pub is_listed : (R → R → Bool) → R → List (VoteDelegate R) → Bool
  is_listed eq r [] = false
  is_listed eq r (d ∷ ds) = eq d.regid r || is_listed eq r ds

abbrev is_there : {A : Type 0} → Option A → Bool
is_there none = false
is_there (some a) = true

find_delegate-is_listed :
    {R : Type 0} (eq : R → R → Bool) (r : R) (l : List (VoteDelegate R))
    → is_there (find_delegate eq r l) ≡ is_listed eq r l
unfolding find_delegate
find_delegate-is_listed eq r [] = refl
find_delegate-is_listed eq r (d ∷ ds) = elim (Bool-cases (eq d.regid r)) [
  | inl e ↦ rw e refl
  | inr e ↦ rw e (find_delegate-is_listed eq r ds)
]

activity :
    {A : Type 0} (o : Option A)
    → elim (elim o as (λ _. Lookup A) [ none ↦ absent | some d ↦ found d ]) as (λ _. Outcome Bool) [
      | found _ ↦ ok true
      | absent ↦ ok false
      | failed e ↦ throws e
    ]
      ≡ ok (is_there o)
activity none = refl
activity (some a) = refl

-- a value that is shown is not empty
assertion_holds : {A : Type 0} (r : Lookup (List A)) → assert_not_empty (visible r) ≡ visible r
assertion_holds (failed e) = refl
assertion_holds absent = refl
assertion_holds (found []) = refl
assertion_holds (found (x ∷ xs)) = refl

module _ {R D : Type 0} ⦃vc : Codec (List (VoteDelegate R))⦄ ⦃ldb : LevelDb D⦄ where
  get_active_delegates-view :
      (c : SimpleCache (List (VoteDelegate R)) D)
      → (get_active_delegates c).0 ≡ simple_view active_delegates c
  unfolding get_active_delegates simple_view
  get_active_delegates-view c =
      ap assert_not_empty (simple_get_data_lem active_delegates c).0
      ∙ assertion_holds (simple_peek active_delegates c)

  -- Where the database can be read: after `SetActiveDelegates` of a list that is not empty,
  -- `GetActiveDelegates` returns the list, `GetActivedDelegateNum` its length, and
  -- `IsActiveDelegate` says of each regid whether a delegate of the list has it.
  pub active_delegates_lem :
      (eq : R → R → Bool) (d : VoteDelegate R) (ds : List (VoteDelegate R))
      (s : SimpleSession (List (VoteDelegate R)) D)
      → SimpleReadable active_delegates s.cache
      → ((set_active_delegates (d ∷ ds) s).0 ≡ ok true)
        × ((get_active_delegates (set_active_delegates (d ∷ ds) s).1.cache).0 ≡ found (d ∷ ds))
        × ((get_actived_delegate_num (set_active_delegates (d ∷ ds) s).1.cache).0
            ≡ ok (number_of (d ∷ ds)))
        × ((r : R)
            → (is_active_delegate eq r (set_active_delegates (d ∷ ds) s).1.cache).0
              ≡ ok (is_listed eq r (d ∷ ds)))
  unfolding set_active_delegates get_actived_delegate_num is_active_delegate get_active_delegate
  active_delegates_lem eq d ds s n =
      let (a, shown, lower) = simple_set_data_lem active_delegates (d ∷ ds) s n in
      let c = (set_active_delegates (d ∷ ds) s).1.cache in
      let listing : (get_active_delegates c).0 ≡ found (d ∷ ds) =
        get_active_delegates-view c ∙ shown in
      (
        a,
        listing,
        rw (listing, get_actived_delegate_num) refl,
        λ r.
            rw (listing, is_active_delegate, get_active_delegate)
              (activity (find_delegate eq r (d ∷ ds))
                ∙ ap ok (find_delegate-is_listed eq r (d ∷ ds))),
      )
