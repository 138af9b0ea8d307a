-- ===== src/Governance/Approvals.antt =====
-- `SetApproval` and `GetApprovalCount`: each governor approves a proposal once.
use inery_persistent_memory.Base.{
  ℕ, suc, ◌≡◌, ◌≢◌, refl, ap, sym, ◌∙◌, true, false, not, ◌&&◌, List, [], ◌∷◌, if◌then◌else◌, arith,
  Bool-cases, inl, inr,
}
use inery_persistent_memory.StdMap.{KeyOps, same}
use inery_persistent_memory.StdMap.Find.{same_refl}
use inery_persistent_memory.Serialize.{Codec}
use inery_persistent_memory.DbUtil.{list_value}
use inery_persistent_memory.DbConf.Prefix.{govn_approval_list}
use inery_persistent_memory.LevelDb.{LevelDb}
use inery_persistent_memory.LevelDb.Wrapper.{
  Outcome, ok, throws, Lookup, found, absent, failed, DbError,
}
use inery_persistent_memory.Composite.{Cache, Session, visible, cache_get_data, set_data}
use inery_persistent_memory.Composite.View.{view}
use inery_persistent_memory.Composite.Contract.{cache_get_data_lem}
use inery_persistent_memory.Cdp.Writes.{
  AllReadable, set_everywhere, Readable-view, Alike-readable, Alike-view,
}
use inery_persistent_memory.Delegates.{number_of}
use inery_persistent_memory.Governance.{
  approved_by, push_back, get_approval_list, get_approval_count, approve_over, set_approval,
}

-- the governors that have approved
abbrev pub approvals_in : {R : Type 0} → Lookup (List R) → List R
approvals_in (found v) = v
approvals_in absent = []
approvals_in (failed e) = []

counted :
    {R : Type 0} (l : Lookup (List R))
    → ((e : DbError) → l ≢ failed e)
    → elim l as (λ _. Outcome ℕ) [
      | found v ↦ ok (number_of v)
      | absent ↦ ok 0
      | failed e ↦ throws e
    ]
      ≡ ok (number_of (approvals_in l))
counted (found v) n = refl
counted absent n = refl
counted (failed e) n = absurd (n e refl)

push_back-shown :
    {R : Type 0} (v : List R) (r : R)
    → approvals_in (visible (found (push_back v r))) ≡ push_back v r
unfolding push_back
push_back-shown [] r = refl
push_back-shown (a ∷ v) r = refl

number_of-push_back :
    {R : Type 0} (v : List R) (r : R) → number_of (push_back v r) ≡ suc (number_of v)
unfolding push_back
number_of-push_back [] r = refl
number_of-push_back (a ∷ v) r = ap suc (number_of-push_back v r)

approved_by-push_back :
    {R : Type 0} ⦃ro : KeyOps R⦄ (v : List R) (r : R) → approved_by r (push_back v r) ≡ true
unfolding push_back approved_by
approved_by-push_back [] r = rw (same_refl r) refl
approved_by-push_back (a ∷ v) r = rw (approved_by-push_back v r) (ground arith)

module _ {T R D : Type 0} ⦃ko : KeyOps T⦄ ⦃ro : KeyOps R⦄ ⦃kc : Codec T⦄ ⦃vc : Codec (List R)⦄
    ⦃ldb : LevelDb D⦄ where
  -- the governors that have approved a proposal
  abbrev pub approvals : T → Cache T (List R) D → List R
  approvals proposal c = approvals_in (view govn_approval_list proposal c)

  approve_over-set :
      (proposal : T) (r : R) (l : Lookup (List R)) (s : Session T (List R) D)
      → ((e : DbError) → l ≢ failed e)
      → approve_over proposal r l s ≡ (
          if approved_by r (approvals_in l)
          then (ok false, s)
          else set_data govn_approval_list proposal (push_back (approvals_in l) r) s)
  unfolding approve_over approved_by push_back
  approve_over-set proposal r (found v) s n = refl
  approve_over-set proposal r absent s n = refl
  approve_over-set proposal r (failed e) s n = absurd (n e refl)

  -- what is shown after `SetApproval`
  abbrev approval_shown : T → R → Cache T (List R) D → T → Lookup (List R)
  approval_shown proposal r c j =
      if same j proposal && not (approved_by r (approvals proposal c))
      then visible (found (push_back (approvals proposal c) r))
      else view govn_approval_list j c

  set_approval-shown :
      (proposal : T) (r : R) (s : Session T (List R) D)
      → ko.is_empty proposal ≡ false
      → AllReadable govn_approval_list s.cache
      → ((set_approval proposal r s).0 ≡ ok (not (approved_by r (approvals proposal s.cache))))
        × ((j : T)
            → view govn_approval_list j (set_approval proposal r s).1.cache
              ≡ approval_shown proposal r s.cache j)
        × AllReadable govn_approval_list (set_approval proposal r s).1.cache
  unfolding set_approval get_approval_list
  set_approval-shown proposal r s full all =
      let (got, alike) = cache_get_data_lem govn_approval_list proposal s.cache in
      let shows : (cache_get_data govn_approval_list proposal s.cache).0
          ≡ view govn_approval_list proposal s.cache =
        got ∙ rw full refl in
      let after : Session T (List R) D = record s {
        cache = (cache_get_data govn_approval_list proposal s.cache).1;
      } in
      let readable = Alike-readable govn_approval_list s.cache after.cache alike all in
      let kept = Alike-view govn_approval_list s.cache after.cache alike in
      let v = approvals proposal s.cache in
      let ends : set_approval proposal r s ≡ (
          if approved_by r v
          then (ok false, after)
          else set_data govn_approval_list proposal (push_back v r) after) =
        rw (shows, set_approval, get_approval_list)
          (approve_over-set proposal r (view govn_approval_list proposal s.cache) after
            (Readable-view govn_approval_list proposal s.cache (all proposal))) in
      let unchanged : (j : T)
          → approved_by r v ≡ true
          → approval_shown proposal r s.cache j ≡ view govn_approval_list j s.cache =
        λ j e. rw e (ground arith) in
      elim (Bool-cases (approved_by r v)) [
        | inl e ↦
            let whole : set_approval proposal r s ≡ (ok false, after) = ends ∙ rw e refl in
            rw whole (rw e refl, λ j. kept j ∙ sym (unchanged j e), readable)
        | inr e ↦
            let (o, w, still) =
              set_everywhere govn_approval_list proposal (push_back v r) after full readable in
            let whole : set_approval proposal r s
                ≡ set_data govn_approval_list proposal (push_back v r) after =
              ends ∙ rw e refl in
            rw whole (
              o ∙ rw e refl,
              λ j.
                  w j
                  ∙ rw e (elim (Bool-cases (same j proposal)) [
                    | inl h ↦ rw h refl
                    | inr h ↦ rw h (kept j)
                  ]),
              still,
            )
      ]

  get_approval_count-approvals :
      (proposal : T) (c : Cache T (List R) D)
      → ko.is_empty proposal ≡ false
      → AllReadable govn_approval_list c
      → (get_approval_count proposal c).0 ≡ ok (number_of (approvals proposal c))
  unfolding get_approval_count get_approval_list
  get_approval_count-approvals proposal c full all =
      let shows : (cache_get_data govn_approval_list proposal c).0
          ≡ view govn_approval_list proposal c =
        (cache_get_data_lem govn_approval_list proposal c).0 ∙ rw full refl in
      rw (shows, get_approval_count, get_approval_list)
        (counted (view govn_approval_list proposal c)
          (Readable-view govn_approval_list proposal c (all proposal)))

  -- For a proposal with an id that is not empty, where no read fails: `SetApproval` returns whether
  -- the governor had not approved it, and if so `GetApprovalCount` grows by one; a second
  -- `SetApproval` of the governor returns false; the approvals of the other proposals stay.
  pub set_approval_lem :
      (proposal : T) (r : R) (s : Session T (List R) D)
      → ko.is_empty proposal ≡ false
      → AllReadable govn_approval_list s.cache
      → ((get_approval_count proposal s.cache).0 ≡ ok (number_of (approvals proposal s.cache)))
        × ((set_approval proposal r s).0 ≡ ok (not (approved_by r (approvals proposal s.cache))))
        × ((get_approval_count proposal (set_approval proposal r s).1.cache).0
            ≡ ok (
                if approved_by r (approvals proposal s.cache)
                then number_of (approvals proposal s.cache)
                else suc (number_of (approvals proposal s.cache))))
        × ((set_approval proposal r (set_approval proposal r s).1).0 ≡ ok false)
        × ((j : T)
            → same j proposal ≡ false
            → view govn_approval_list j (set_approval proposal r s).1.cache
              ≡ view govn_approval_list j s.cache)
  set_approval_lem proposal r s full all =
      let (o, w, readable) = set_approval-shown proposal r s full all in
      let (o', _, _) = set_approval-shown proposal r (set_approval proposal r s).1 full readable in
      let v = approvals proposal s.cache in
      let c' = (set_approval proposal r s).1.cache in
      let now : approvals proposal c' ≡ (if approved_by r v then v else push_back v r) =
        ap approvals_in (w proposal)
        ∙ rw (same_refl proposal) (elim (Bool-cases (approved_by r v)) [
          | inl e ↦ rw e refl
          | inr e ↦ rw e (push_back-shown v r)
        ]) in
      let longer : number_of (if approved_by r v then v else push_back v r)
          ≡ (if approved_by r v then number_of v else suc (number_of v)) =
        elim (Bool-cases (approved_by r v)) [
          | inl e ↦ rw e refl
          | inr e ↦ rw e (number_of-push_back v r)
        ] in
      let known : approved_by r (if approved_by r v then v else push_back v r) ≡ true =
        elim (Bool-cases (approved_by r v)) [
          | inl e ↦ rw (e, e) refl
          | inr e ↦ rw e (approved_by-push_back v r)
        ] in
      (
        get_approval_count-approvals proposal s.cache full all,
        o,
        get_approval_count-approvals proposal c' full readable ∙ ap ok (ap number_of now ∙ longer),
        o' ∙ ap (λ x. ok (not x)) (ap (approved_by r) now ∙ known),
        λ j h. w j ∙ rw h refl,
      )
