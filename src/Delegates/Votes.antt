-- ===== src/Delegates/Votes.antt =====
-- `SetDelegateVotes` and `EraseDelegateVotes`, and what they leave in the cache of votes.
use inery_persistent_memory.Base.{
  ℕ, ◌-◌, ◌≤◌, ◌≡◌, refl, ap, sym, ◌∙◌, Bool, true, false, ◌&&◌, if◌then◌else◌, ◌==◌, arith,
  bytes_eq, bytes_eq_refl, bytes_eq→eq, Bool-cases, inl, inr,
}
use inery_persistent_memory.StdMap.{KeyOps, same}
use inery_persistent_memory.StdMap.Find.{same→eq, same_refl}
use inery_persistent_memory.Serialize.{Codec}
use inery_persistent_memory.DbUtil.{uint_value}
use inery_persistent_memory.DbUtil.KeyOrder.{uint_key, pair_key}
use inery_persistent_memory.OpLog.{bytes_key}
use inery_persistent_memory.DbConf.Prefix.{vote}
use inery_persistent_memory.LevelDb.{LevelDb}
use inery_persistent_memory.LevelDb.Wrapper.{ok, found, absent}
use inery_persistent_memory.Composite.{Session}
use inery_persistent_memory.Composite.View.{view}
use inery_persistent_memory.Composite.Contract.{Readable, view-set_data, view-erase_data}
use inery_persistent_memory.Delegates.{
  RegIdOps, VoteKey, ulong_max, delegate_vote_to_key, vote_key, set_delegate_votes,
  erase_delegate_votes,
}

module _ {R : Type 0} ⦃ro : RegIdOps R⦄ where
  -- the raw bytes of the regids, and the votes
  abbrev pub same_votes : R → ℕ → R → ℕ → Bool
  same_votes q w r v = bytes_eq (ro.get_reg_id_raw q) (ro.get_reg_id_raw r) && w == v

  same-vote_key :
      (q r : R) (w v : ℕ)
      → w ≤ ulong_max
      → v ≤ ulong_max
      → same (vote_key q w) (vote_key r v) ≡ same_votes q w r v
  unfolding vote_key delegate_vote_to_key
  same-vote_key q r w v hw hv = elim (Bool-cases (same_votes q w r v)) [
    | inl e ↦
        let raw = bytes_eq→eq (ro.get_reg_id_raw q) (ro.get_reg_id_raw r) (ground arith) in
        let num : w ≡ v = ground arith in
        let equal : vote_key q w ≡ vote_key r v = rw num (ap (λ b. (ulong_max - v, b)) raw) in
        rw equal (same_refl (vote_key r v)) ∙ sym e
    | inr e ↦ elim (Bool-cases (same (vote_key q w) (vote_key r v))) [
      | inr s ↦ s ∙ sym e
      | inl s ↦
          let equal = same→eq (vote_key q w) (vote_key r v) s in
          let num : w ≡ v =
            (let n : ulong_max - w ≡ ulong_max - v = ap (λ k. k.0) equal in omega arith) in
          let raw : ro.get_reg_id_raw q ≡ ro.get_reg_id_raw r = ap (λ k. k.1) equal in
          let one : bytes_eq (ro.get_reg_id_raw q) (ro.get_reg_id_raw r) ≡ true =
            rw raw (bytes_eq_refl (ro.get_reg_id_raw r)) in
          ground arith
    ]
  ]

module _ {R D : Type 0} ⦃ro : RegIdOps R⦄ ⦃kc : Codec VoteKey⦄ ⦃vc : Codec ℕ⦄
    ⦃ldb : LevelDb D⦄ where
  -- For a regid that is not empty and votes of 64 bits, where the key is not empty and can be read:
  -- `SetDelegateVotes` succeeds, and the cache of votes then has these votes of the regid; after
  -- `EraseDelegateVotes` it has them no longer. Other votes, of the regid or of others, stay as
  -- they were.
  pub delegate_votes_lem :
      (r : R) (v : ℕ) (s : Session VoteKey ℕ D)
      → ro.is_empty r ≡ false
      → v ≤ ulong_max
      → KeyOps.is_empty pair_key (vote_key r v) ≡ false
      → Readable vote (vote_key r v) s.cache
      → ((set_delegate_votes r v s).0 ≡ ok true)
        × ((erase_delegate_votes r v s).0 ≡ ok true)
        × ((q : R) (w : ℕ)
            → w ≤ ulong_max
            → (view vote (vote_key q w) (set_delegate_votes r v s).1.cache
                ≡ (if same_votes q w r v then found 1 else view vote (vote_key q w) s.cache))
              × (view vote (vote_key q w) (erase_delegate_votes r v s).1.cache
                  ≡ (if same_votes q w r v then absent else view vote (vote_key q w) s.cache)))
  unfolding set_delegate_votes erase_delegate_votes
  delegate_votes_lem r v s h b full n =
      let (a, wrote, lower) = view-set_data vote (vote_key r v) 1 s full n in
      let (e, erased, lower') = view-erase_data vote (vote_key r v) s full n in
      rw (h, set_delegate_votes, erase_delegate_votes)
        (
          a,
          e,
          λ q w c. (
            wrote (vote_key q w) ∙ rw (same-vote_key q r w v c b) refl,
            erased (vote_key q w) ∙ rw (same-vote_key q r w v c b) refl,
          ),
        )
