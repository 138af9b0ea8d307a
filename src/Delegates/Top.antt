-- ===== src/Delegates/Top.antt =====
-- `GetTopVoteDelegates` against the entries that the cache of votes shows.
use inery_persistent_memory.Base.{
  ℕ, zero, suc, ap, ap₂, sym, ◌∙◌, subst, none, ◌+◌, ◌-◌, ◌≤◌, ◌<◌, ◌≡◌, refl, Bool, true, ◌&&◌,
  some, List, [], ◌∷◌, if◌then◌else◌, ltb, arith, Bool-cases, inl, inr, bytes_eq,
}
use inery_persistent_memory.StdMap.{key_lt, find, same}
use inery_persistent_memory.StdMap.Find.{same_refl, same→eq}
use inery_persistent_memory.StdMap.Order.{AllAbove, Sorted, find-AllAbove}
use inery_persistent_memory.Serialize.{Codec}
use inery_persistent_memory.DbUtil.{uint_value}
use inery_persistent_memory.DbUtil.KeyOrder.{uint_key, pair_key}
use inery_persistent_memory.OpLog.{bytes_key}
use inery_persistent_memory.DbConf.Prefix.{vote}
use inery_persistent_memory.DbConf.Keys.{is_key_prefix}
use inery_persistent_memory.LevelDb.{LevelDb}
use inery_persistent_memory.LevelDb.Wrapper.{ok, found}
use inery_persistent_memory.Composite.{Cache}
use inery_persistent_memory.Composite.View.{view, database}
use inery_persistent_memory.Composite.WellFormed.{WellFormed}
use inery_persistent_memory.DbIterator.{LevelDbEntries, Iterator}
use inery_persistent_memory.DbIterator.Delivery.{length, Delivers}
use inery_persistent_memory.DbIterator.Chain.{Holds, as_lookup, cached}
use inery_persistent_memory.DbIterator.Contract.{create-Enumerates}
use inery_persistent_memory.Delegates.{
  RegIdOps, VoteDelegate, VoteKey, ulong_max, vote_key, delegate_vote_to_key,
  delegate_vote_from_key, delegate_of, top_loop, not_empty, top_of_iterator, get_top_vote_delegates,
}

abbrev pub first_n : {A : Type 0} → ℕ → List A → List A
first_n zero l = []
first_n (suc n) [] = []
first_n (suc n) (x ∷ l) = x ∷ first_n n l

module _ {R : Type 0} where
  -- no votes are above the number
  abbrev pub AllBelow : ℕ → List (VoteDelegate R) → Type 0
  AllBelow v [] = Unit
  AllBelow v (d ∷ ds) = (d.votes ≤ v) × AllBelow v ds

  -- from many votes to few
  abbrev pub Descending : List (VoteDelegate R) → Type 0
  Descending [] = Unit
  Descending (d ∷ ds) = AllBelow d.votes ds × Descending ds

  first_n-AllBelow : (n v : ℕ) (l : List (VoteDelegate R)) → AllBelow v l → AllBelow v (first_n n l)
  first_n-AllBelow zero v l b = tt
  first_n-AllBelow (suc n) v [] b = tt
  first_n-AllBelow (suc n) v (d ∷ l) b = (b.0, first_n-AllBelow n v l b.1)

  first_n-Descending : (n : ℕ) (l : List (VoteDelegate R)) → Descending l → Descending (first_n n l)
  first_n-Descending zero l b = tt
  first_n-Descending (suc n) [] b = tt
  first_n-Descending (suc n) (d ∷ l) b =
      (first_n-AllBelow n d.votes l b.0, first_n-Descending n l b.1)

later_votes :
    (k : VoteKey) (j : VoteKey)
    → key_lt k j ≡ true
    → delegate_vote_from_key j.0 ≤ delegate_vote_from_key k.0
unfolding delegate_vote_from_key
later_votes k j h = let le : k.0 ≤ j.0 = ground arith in omega arith

module _ (R : Type 0) ⦃ro : RegIdOps R⦄ (vote_min : ℕ) (is_r3_fork : Bool) where
  -- the delegates of the entries; after the fork only those with enough votes
  unfoldable accepted : List (VoteKey × ℕ) → List (VoteDelegate R)
  accepted [] = []
  accepted (x ∷ xs) =
      let d : VoteDelegate R = delegate_of x.0 in
      let rest = accepted xs in if is_r3_fork && ltb d.votes vote_min then rest else d ∷ rest

  accepted-AllBelow :
      (k : VoteKey) (l : List (VoteKey × ℕ))
      → AllAbove k l
      → AllBelow (delegate_vote_from_key k.0) (accepted l)
  unfolding accepted delegate_of
  accepted-AllBelow k [] a = tt
  accepted-AllBelow k (x ∷ l) a =
      elim (Bool-cases (is_r3_fork && ltb (delegate_vote_from_key x.0.0) vote_min)) [
        | inl e ↦ rw (e, accepted) (accepted-AllBelow k l a.1)
        | inr e ↦ rw (e, accepted) (later_votes k x.0 a.0, accepted-AllBelow k l a.1)
      ]

  accepted-Descending : (l : List (VoteKey × ℕ)) → Sorted l → Descending (accepted l)
  unfolding accepted delegate_of
  accepted-Descending [] s = tt
  accepted-Descending (x ∷ l) s =
      elim (Bool-cases (is_r3_fork && ltb (delegate_vote_from_key x.0.0) vote_min)) [
        | inl e ↦ rw (e, accepted) (accepted-Descending l s.1)
        | inr e ↦ rw (e, accepted) (accepted-AllBelow x.0 l s.0, accepted-Descending l s.1)
      ]

  none_later :
      (k : VoteKey) (l : List (VoteKey × ℕ))
      → is_r3_fork && ltb (delegate_vote_from_key k.0) vote_min ≡ true
      → AllAbove k l
      → accepted l ≡ []
  unfolding accepted delegate_of
  none_later k [] h a = refl
  none_later k (x ∷ l) h a =
      let fewer = later_votes k x.0 a.0 in
      let out : is_r3_fork && ltb (delegate_vote_from_key x.0.0) vote_min ≡ true = ground arith in
      rw (out, accepted) (none_later k l h a.1)

  top_loop_lem :
      {S : Type 0} (it : Iterator VoteKey ℕ S) (n : ℕ) (s : S) (l : List (VoteKey × ℕ))
      → Sorted l
      → Delivers it s l
      → top_loop it vote_min is_r3_fork n s ≡ ok (first_n n (accepted l))
  unfolding top_loop accepted delegate_of
  top_loop_lem it zero s l o d = refl
  top_loop_lem it (suc n) s [] o d = rw (d, top_loop) refl
  top_loop_lem it (suc n) s (x ∷ l) o d =
      let (here, (s', next, rest)) = d in
      elim (Bool-cases (is_r3_fork && ltb (delegate_vote_from_key x.0.0) vote_min)) [
        | inl e ↦ rw (here, top_loop) (rw (e, accepted) (rw (none_later x.0 l e o.0) refl))
        | inr e ↦
            rw (here, top_loop)
              (rw (e, accepted) (rw next (rw (top_loop_lem it n s' l o.1 rest) refl)))
      ]

-- without those of too few votes after the fork
abbrev pub enough_votes : {R : Type 0} → ℕ → Bool → List (VoteDelegate R) → List (VoteDelegate R)
enough_votes vote_min is_r3_fork [] = []
enough_votes vote_min is_r3_fork (d ∷ ds) =
    let rest = enough_votes vote_min is_r3_fork ds in
    if is_r3_fork && ltb d.votes vote_min then rest else d ∷ rest

module _ {R : Type 0} ⦃ro : RegIdOps R⦄ where
  -- a key that `vote_key` makes of a delegate, whose votes are a uint64_t
  pub record VoteOf (k : VoteKey) (d : VoteDelegate R) : Type 0 where
    pub in_range : d.votes ≤ ulong_max
    pub made : k ≡ vote_key d.regid d.votes

  -- entries, and the delegates that their keys are made of
  abbrev pub Keyed : List (VoteKey × ℕ) → List (VoteDelegate R) → Type 0
  Keyed [] [] = Unit
  Keyed (x ∷ xs) (d ∷ ds) = VoteOf x.0 d × Keyed xs ds
  Keyed _ _ = ⊥

  delegate_of-VoteOf : (k : VoteKey) (d : VoteDelegate R) → VoteOf k d → delegate_of k ≡ d
  unfolding delegate_of vote_key delegate_vote_to_key delegate_vote_from_key
  delegate_of-VoteOf k d o =
      let votes : ulong_max - (ulong_max - d.votes) ≡ d.votes =
        let le = o.in_range in omega arith in
      rw o.made
        (ap₂ (λ r v. record { regid = r; votes = v }) (ro.of_raw-get_reg_id_raw d.regid) votes)

  delegates_of :
      (items : List (VoteKey × ℕ))
      → Sorted items
      → ((k : VoteKey) (n : ℕ) → find k items ≡ some n → (d : VoteDelegate R) × VoteOf k d)
      → (ds : List (VoteDelegate R)) × Keyed items ds
  unfolding find
  delegates_of [] o keyed = ([], tt)
  delegates_of (x ∷ xs) o keyed =
      let (d, first) = keyed x.0 x.1 (rw (same_refl x.0) refl) in
      let (ds, rest) = delegates_of xs o.1 λ k n h. keyed k n (elim (Bool-cases (same k x.0)) [
        | inl s ↦
            let gone : find k xs ≡ none = rw (same→eq k x.0 s) (find-AllAbove x.0 xs o.0) in cc
        | inr s ↦ rw s h
      ]) in
      (d ∷ ds, (first, rest))

  accepted-enough_votes :
      (vote_min : ℕ) (is_r3_fork : Bool) (items : List (VoteKey × ℕ)) (ds : List (VoteDelegate R))
      → Keyed items ds
      → accepted R vote_min is_r3_fork items ≡ enough_votes vote_min is_r3_fork ds
  unfolding accepted
  accepted-enough_votes vote_min is_r3_fork [] [] o = refl
  accepted-enough_votes vote_min is_r3_fork [] (d ∷ ds) o = absurd o
  accepted-enough_votes vote_min is_r3_fork (x ∷ xs) [] o = absurd o
  accepted-enough_votes vote_min is_r3_fork (x ∷ xs) (d ∷ ds) o =
      rw
        (
          delegate_of-VoteOf x.0 d o.0,
          accepted-enough_votes vote_min is_r3_fork xs ds o.1,
          accepted,
        )
        refl

module _ {R D : Type 0} ⦃ro : RegIdOps R⦄ ⦃kc : Codec VoteKey⦄ ⦃vc : Codec ℕ⦄ ⦃ldb : LevelDb D⦄
    ⦃le : LevelDbEntries D⦄ where
  -- Over a database that holds the items, with the maps in order and enough fuel, where each key that the cache
  -- of votes shows is the one that `vote_key` makes of some delegate: for the delegates of the
  -- shown keys, in the order of the keys, `GetTopVoteDelegates` returns the first of the wanted
  -- number, after the fork of those with the least number of votes or more, and whether there
  -- is one; they stand from many votes to few.
  pub get_top_vote_delegates_lem :
      (fuel delegate_num vote_min : ℕ) (is_r3_fork : Bool) (c : Cache VoteKey ℕ D) (d : D)
      (stored : List (VoteKey × ℕ))
      → database c ≡ some d
      → Holds vote d stored
      → WellFormed c
      → cached c + length stored < fuel
      → ((k : VoteKey) (n : ℕ)
          → view vote k c ≡ found n
          → (delegate : VoteDelegate R) × VoteOf k delegate)
      → (items : List (VoteKey × ℕ)) × (delegates : List (VoteDelegate R)) × Sorted items
        × ((k : VoteKey) → as_lookup (find k items) ≡ view vote k c)
        × Keyed items delegates
        × (get_top_vote_delegates {R = R} fuel delegate_num vote_min is_r3_fork c
            ≡ some (
                ok (
                  not_empty (first_n delegate_num (enough_votes vote_min is_r3_fork delegates)),
                  first_n delegate_num (enough_votes vote_min is_r3_fork delegates),
                )))
        × Descending (first_n delegate_num (enough_votes vote_min is_r3_fork delegates))
  unfolding get_top_vote_delegates top_of_iterator is_key_prefix bytes_eq
  get_top_vote_delegates_lem fuel delegate_num vote_min is_r3_fork c d stored hd h w enough keyed =
      let (it, made, n) = create-Enumerates fuel vote c d stored refl hd h w enough in
      let (s, starts, delivers) = n.delivers in
      let (delegates, of_keys) =
        delegates_of {R = R} n.items n.in_order
          λ k v e. keyed k v (sym (n.shows k) ∙ ap as_lookup e) in
      let same_list = accepted-enough_votes vote_min is_r3_fork n.items delegates of_keys in
      let descending =
        first_n-Descending delegate_num (accepted R vote_min is_r3_fork n.items)
          (accepted-Descending R vote_min is_r3_fork n.items n.in_order) in
      (
        n.items,
        delegates,
        n.in_order,
        n.shows,
        of_keys,
        rw (made, get_top_vote_delegates)
            (rw starts (
              rw
                (top_loop_lem R vote_min is_r3_fork it.calls delegate_num s n.items n.in_order
                  delivers)
                (rw same_list refl))),
        subst (λ l. Descending (first_n delegate_num l)) same_list descending,
      )
