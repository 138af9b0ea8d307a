-- ===== src/Delegates.antt =====
-- persistence/delegatedb.h and .cpp: `IneryDelegateDBCache`, the votes for delegates and who is active.
pub mod Top
pub mod Votes
pub mod Active
use inery_persistent_memory.Base.{
  ℕ, zero, suc, ◌+◌, ◌-◌, ◌≤◌, ◌≡◌, Bool, true, false, not, ◌&&◌, Option, none, some, List, [], ◌∷◌,
  if◌then◌else◌, Bytes, ltb, bytes_eq,
}
use inery_persistent_memory.StdMap.{KeyOps, put_at}
use inery_persistent_memory.Serialize.{Codec, ValueOps}
use inery_persistent_memory.DbUtil.{uint_value, list_value}
use inery_persistent_memory.DbUtil.KeyOrder.{uint_key, pair_key}
use inery_persistent_memory.OpLog.{bytes_key}
use inery_persistent_memory.DbConf.Prefix.{
  vote, regid_vote, last_vote_height, pending_delegates, active_delegates,
}
use inery_persistent_memory.LevelDb.{LevelDb}
use inery_persistent_memory.LevelDb.Wrapper.{
  Outcome, ok, throws, Lookup, found, absent, failed, out_of_fuel, delegate_num_error,
}
use inery_persistent_memory.Composite.{Cache, Session, set_data, erase_data, cache_get_data}
use inery_persistent_memory.Simple.{
  SimpleCache, SimpleSession, assert_not_empty, simple_get_data, simple_set_data,
}
use inery_persistent_memory.DbIterator.{LevelDbEntries, Iterator, ◌>>=◌}
use inery_persistent_memory.DbIterator.Chain.{AnyIterator, create}

abbrev pub ulong_max : ℕ
ulong_max = 18446744073709551615

-- `IneryRegID` of objects/id.h: its raw bytes, from which it is read back, and when it is empty.
pub record RegIdOps (R : Type 0) : Type 0 where
  pub is_empty : R → Bool
  pub get_reg_id_raw : R → Bytes
  pub of_raw : Bytes → R
  pub of_raw-get_reg_id_raw : (r : R) → of_raw (get_reg_id_raw r) ≡ r

-- VoteDelegate
pub record VoteDelegate (R : Type 0) : Type 0 where
  pub regid : R
  pub votes : ℕ

-- the keys of `voteRegIdCache`
abbrev pub VoteKey : Type 0
VoteKey = ℕ × Bytes

-- DelegateVoteToKey and DelegateVoteFromKey, of a uint64_t
unfoldable pub delegate_vote_to_key : ℕ → ℕ
delegate_vote_to_key votes = ulong_max - votes

unfoldable pub delegate_vote_from_key : ℕ → ℕ
delegate_vote_from_key key = ulong_max - key

module _ {R : Type 0} ⦃ro : RegIdOps R⦄ where
  -- GetVote and GetRegId of the iterator
  unfoldable pub delegate_of : VoteKey → VoteDelegate R
  delegate_of k = record { regid = ro.of_raw k.1; votes = delegate_vote_from_key k.0 }

  -- the key of a regid with its votes
  unfoldable pub vote_key : R → ℕ → VoteKey
  vote_key r votes = (delegate_vote_to_key votes, ro.get_reg_id_raw r)

module _ {R S : Type 0} ⦃ro : RegIdOps R⦄ (it : Iterator VoteKey ℕ S) (vote_min : ℕ)
    (is_r3_fork : Bool) where
  -- The loop of `GetTopVoteDelegates`, with the number of delegates that are still wanted: a turn
  -- adds one, or leaves the loop.
  unfoldable pub top_loop : ℕ → S → Outcome (List (VoteDelegate R))
  top_loop zero s = ok []
  top_loop (suc n) s = elim (it.current s) [
    | none ↦ ok []
    | some x ↦
        let d : VoteDelegate R = delegate_of x.0 in
        if is_r3_fork && ltb d.votes vote_min
        then ok []
        else (it.next s >>= λ s'. top_loop n s' >>= λ rest. ok (d ∷ rest))
  ]

abbrev pub not_empty : {A : Type 0} → List A → Bool
not_empty [] = false
not_empty (x ∷ xs) = true

module _ {R : Type 0} ⦃ro : RegIdOps R⦄ where
  -- GetTopVoteDelegates over an iterator: false where there is none
  unfoldable pub top_of_iterator :
      AnyIterator VoteKey ℕ → ℕ → ℕ → Bool → Outcome (Bool × List (VoteDelegate R))
  top_of_iterator it delegate_num vote_min is_r3_fork = it.calls.first it.start >>= λ s.
      top_loop it.calls vote_min is_r3_fork delegate_num s >>= λ tops. ok (not_empty tops, tops)

module _ {R D : Type 0} ⦃ro : RegIdOps R⦄ ⦃kc : Codec VoteKey⦄ ⦃vc : Codec ℕ⦄ ⦃ldb : LevelDb D⦄
    ⦃le : LevelDbEntries D⦄ where
  -- GetTopVoteDelegates; a cache over no database has no iterator
  unfoldable pub get_top_vote_delegates :
      ℕ → ℕ → ℕ → Bool → Cache VoteKey ℕ D → Option (Outcome (Bool × List (VoteDelegate R)))
  get_top_vote_delegates fuel delegate_num vote_min is_r3_fork c = elim (create fuel vote c) [
    | none ↦ none
    | some it ↦ some (top_of_iterator it delegate_num vote_min is_r3_fork)
  ]

module _ {R D : Type 0} ⦃ro : RegIdOps R⦄ ⦃kc : Codec VoteKey⦄ ⦃vc : Codec ℕ⦄
    ⦃ldb : LevelDb D⦄ where
  -- SetDelegateVotes; the votes of an empty regid are ignored
  unfoldable pub set_delegate_votes :
      R → ℕ → Session VoteKey ℕ D → Outcome Bool × Session VoteKey ℕ D
  set_delegate_votes r votes s =
      if ro.is_empty r then (ok true, s) else set_data vote (vote_key r votes) 1 s

  -- EraseDelegateVotes
  unfoldable pub erase_delegate_votes :
      R → ℕ → Session VoteKey ℕ D → Outcome Bool × Session VoteKey ℕ D
  erase_delegate_votes r votes s =
      if ro.is_empty r then (ok true, s) else erase_data vote (vote_key r votes) s

module _ {D : Type 0} ⦃vc : Codec ℕ⦄ ⦃ldb : LevelDb D⦄ where
  -- GetLastVoteHeight, and 0 where there is none; an int32_t is its 32 bits
  unfoldable pub get_last_vote_height : SimpleCache ℕ D → Outcome ℕ × SimpleCache ℕ D
  get_last_vote_height c =
      let (r, c') = simple_get_data last_vote_height c in
      (elim r [ found h ↦ ok h | absent ↦ ok 0 | failed e ↦ throws e ], c')

  -- SetLastVoteHeight
  unfoldable pub set_last_vote_height : ℕ → SimpleSession ℕ D → Outcome Bool × SimpleSession ℕ D
  set_last_vote_height height s = simple_set_data last_vote_height height s

module _ {A D : Type 0} ⦃vo : ValueOps A⦄ ⦃vc : Codec A⦄ ⦃ldb : LevelDb D⦄ where
  -- GetPendingDelegates and SetPendingDelegates
  unfoldable pub get_pending_delegates : SimpleCache A D → Lookup A × SimpleCache A D
  get_pending_delegates c = simple_get_data pending_delegates c

  unfoldable pub set_pending_delegates : A → SimpleSession A D → Outcome Bool × SimpleSession A D
  set_pending_delegates v s = simple_set_data pending_delegates v s

module _ {R : Type 0} where
  -- std::find_if in `GetActiveDelegate`
  unfoldable pub find_delegate :
      (R → R → Bool) → R → List (VoteDelegate R) → Option (VoteDelegate R)
  find_delegate eq r [] = none
  find_delegate eq r (d ∷ delegates) = if eq d.regid r then some d else find_delegate eq r delegates

abbrev pub number_of : {A : Type 0} → List A → ℕ
number_of [] = 0
number_of (x ∷ xs) = suc (number_of xs)

module _ {R D : Type 0} ⦃vc : Codec (List (VoteDelegate R))⦄ ⦃ldb : LevelDb D⦄ where
  -- GetActiveDelegates, with its assertion
  unfoldable pub get_active_delegates :
      SimpleCache (List (VoteDelegate R)) D
      → Lookup (List (VoteDelegate R)) × SimpleCache (List (VoteDelegate R)) D
  get_active_delegates c =
      let (r, c') = simple_get_data active_delegates c in (assert_not_empty r, c')

  -- SetActiveDelegates
  unfoldable pub set_active_delegates :
      List (VoteDelegate R)
      → SimpleSession (List (VoteDelegate R)) D
      → Outcome Bool × SimpleSession (List (VoteDelegate R)) D
  set_active_delegates v s = simple_set_data active_delegates v s

  -- GetActivedDelegateNum; without active delegates it throws
  unfoldable pub get_actived_delegate_num :
      SimpleCache (List (VoteDelegate R)) D → Outcome ℕ × SimpleCache (List (VoteDelegate R)) D
  get_actived_delegate_num c =
      let (r, c') = get_active_delegates c in
      (
        elim r [
          | found v ↦ ok (number_of v)
          | absent ↦ throws delegate_num_error
          | failed e ↦ throws e
        ],
        c',
      )

  -- GetActiveDelegate, with `operator==` of regids
  unfoldable pub get_active_delegate :
      (R → R → Bool)
      → R
      → SimpleCache (List (VoteDelegate R)) D
      → Lookup (VoteDelegate R) × SimpleCache (List (VoteDelegate R)) D
  get_active_delegate eq r c =
      let (l, c') = get_active_delegates c in
      (
        elim l [
          | found v ↦ elim (find_delegate eq r v) [ none ↦ absent | some d ↦ found d ]
          | absent ↦ absent
          | failed e ↦ failed e
        ],
        c',
      )

  -- IsActiveDelegate
  unfoldable pub is_active_delegate :
      (R → R → Bool)
      → R
      → SimpleCache (List (VoteDelegate R)) D
      → Outcome Bool × SimpleCache (List (VoteDelegate R)) D
  is_active_delegate eq r c =
      let (l, c') = get_active_delegate eq r c in
      (elim l [ found _ ↦ ok true | absent ↦ ok false | failed e ↦ throws e ], c')

module _ {K V D : Type 0} ⦃ko : KeyOps K⦄ ⦃vo : ValueOps V⦄ ⦃kc : Codec K⦄ ⦃vc : Codec V⦄
    ⦃ldb : LevelDb D⦄ where
  -- SetCandidateVotes and GetCandidateVotes
  unfoldable pub set_candidate_votes : K → V → Session K V D → Outcome Bool × Session K V D
  set_candidate_votes r votes s = set_data regid_vote r votes s

  unfoldable pub get_candidate_votes : K → Cache K V D → Lookup V × Cache K V D
  get_candidate_votes r c = cache_get_data regid_vote r c

module _ {K V S : Type 0} ⦃ko : KeyOps K⦄ (it : Iterator K V S) where
  -- the loop of `GetVoterList`
  unfoldable pub voters_loop : ℕ → S → List (K × V) → Outcome (List (K × V))
  voters_loop zero s m = throws out_of_fuel
  voters_loop (suc n) s m = elim (it.current s) [
    | none ↦ ok m
    | some x ↦ it.next s >>= λ s'. voters_loop n s' (put_at x.0 x.1 m)
  ]

module _ {K V D : Type 0} ⦃ko : KeyOps K⦄ ⦃vo : ValueOps V⦄ ⦃kc : Codec K⦄ ⦃vc : Codec V⦄
    ⦃le : LevelDbEntries D⦄ where
  -- GetVoterList
  unfoldable pub get_voter_list : ℕ → Cache K V D → List (K × V) → Option (Outcome (List (K × V)))
  get_voter_list fuel c voters = elim (create fuel regid_vote c) [
    | none ↦ none
    | some it ↦ some (it.calls.first it.start >>= λ s. voters_loop it.calls fuel s voters)
  ]
