-- ===== src/DbIterator/Entries.antt =====
-- What `find` returns in the merge of two lists of entries, and in the entries that are live.
use inery_persistent_memory.Base.{
  ◌+◌, ◌≤◌, ◌≡◌, refl, sym, true, false, Option, none, some, List, [], ◌∷◌, if◌then◌else◌, arith,
  Bool-cases, inl, inr,
}
use inery_persistent_memory.StdMap.{KeyOps, key_lt, same, find}
use inery_persistent_memory.StdMap.Find.{same→eq}
use inery_persistent_memory.StdMap.Order.{AllAbove, Sorted, find-AllAbove, AllAbove-trans}
use inery_persistent_memory.Serialize.{ValueOps}
use inery_persistent_memory.DbIterator.Delivery.{length, merge, live}

abbrev pub first_of : {V : Type 0} → Option V → Option V → Option V
first_of (some v) o = some v
first_of none o = o

pub first_of-none : {V : Type 0} → (o : Option V) → o ≡ first_of o none
first_of-none none = refl
first_of-none (some v) = refl

-- a value that is not empty
abbrev pub kept : {V : Type 0} ⦃vo : ValueOps V⦄ → Option V → Option V
kept ⦃vo⦄ (some v) = if vo.is_empty v then none else some v
kept none = none

module _ {K V : Type 0} ⦃ko : KeyOps K⦄ where
  find-hit : (k : K) (x : K × V) (m : List (K × V)) → same k x.0 ≡ true → find k (x ∷ m) ≡ some x.1
  unfolding find
  find-hit k x m h = rw h

  find-miss :
      (k : K) (x : K × V) (m : List (K × V)) → same k x.0 ≡ false → find k (x ∷ m) ≡ find k m
  unfolding find
  find-miss k x m h = rw h

  find_above :
      (k : K) (x : K × V) (m : List (K × V))
      → key_lt k x.0 ≡ true
      → AllAbove x.0 m
      → find k (x ∷ m) ≡ none
  unfolding find same
  find_above k x m h a = rw h (find-AllAbove k m (AllAbove-trans k x.0 m h a))

  pub AllAbove-merge :
      (k : K) (m b : List (K × V)) → AllAbove k m → AllAbove k b → AllAbove k (merge m b)
  unfolding merge
  AllAbove-merge k [] b hm hb = hb
  AllAbove-merge k (x ∷ m) [] hm hb = hm
  AllAbove-merge k (x ∷ m) (y ∷ b) hm hb = elim (Bool-cases (key_lt y.0 x.0)) [
    | inl e ↦ rw (e, merge) (hb.0, AllAbove-merge k (x ∷ m) b hm hb.1)
    | inr e ↦ elim (Bool-cases (key_lt x.0 y.0)) [
      | inl l ↦ rw (e, l, merge) (hm.0, AllAbove-merge k m (y ∷ b) hm.1 hb)
      | inr l ↦ rw (e, l, merge) (hm.0, AllAbove-merge k m b hm.1 hb.1)
    ]
  ]

  pub merge-Sorted : (m b : List (K × V)) → Sorted m → Sorted b → Sorted (merge m b)
  unfolding merge
  merge-Sorted [] b hm hb = hb
  merge-Sorted (x ∷ m) [] hm hb = hm
  merge-Sorted (x ∷ m) (y ∷ b) hm hb = elim (Bool-cases (key_lt y.0 x.0)) [
    | inl e ↦
        rw (e, merge)
          (
            AllAbove-merge y.0 (x ∷ m) b (e, AllAbove-trans y.0 x.0 m e hm.0) hb.0,
            merge-Sorted (x ∷ m) b hm hb.1,
          )
    | inr e ↦ elim (Bool-cases (key_lt x.0 y.0)) [
      | inl l ↦
          rw (e, l, merge)
            (
              AllAbove-merge x.0 m (y ∷ b) hm.0 (l, AllAbove-trans x.0 y.0 b l hb.0),
              merge-Sorted m (y ∷ b) hm.1 hb,
            )
      | inr l ↦
          let one : x.0 ≡ y.0 = ko.lt_connected x.0 y.0 l e in
          rw (e, l, merge) (AllAbove-merge x.0 m b hm.0 (rw one hb.0), merge-Sorted m b hm.1 hb.1)
    ]
  ]

  -- the entry in front of the merge, where the first list has no such key
  front_second :
      (k : K) (x y : K × V) (m b rest : List (K × V))
      → key_lt y.0 x.0 ≡ true
      → AllAbove x.0 m
      → find k rest ≡ first_of (find k (x ∷ m)) (find k b)
      → find k (y ∷ rest) ≡ first_of (find k (x ∷ m)) (find k (y ∷ b))
  front_second k x y m b rest e a h = elim (Bool-cases (same k y.0)) [
    | inl s ↦
        rw (find_above k x m (rw (same→eq k y.0 s) e) a, find-hit k y rest s, find-hit k y b s)
    | inr s ↦ rw (find-miss k y rest s, find-miss k y b s) h
  ]

  front_first :
      (k : K) (x : K × V) (m rest : List (K × V)) (o : Option V)
      → (same k x.0 ≡ false → find k rest ≡ first_of (find k m) o)
      → find k (x ∷ rest) ≡ first_of (find k (x ∷ m)) o
  front_first k x m rest o h = elim (Bool-cases (same k x.0)) [
    | inl s ↦ rw (find-hit k x rest s, find-hit k x m s)
    | inr s ↦ rw (find-miss k x rest s, find-miss k x m s) (h s)
  ]

  pub find-merge :
      (k : K) (m b : List (K × V))
      → Sorted m
      → Sorted b
      → find k (merge m b) ≡ first_of (find k m) (find k b)
  unfolding merge
  find-merge k [] b hm hb = unfold find in refl
  find-merge k (x ∷ m) [] hm hb = unfold find in first_of-none (find k (x ∷ m))
  find-merge k (x ∷ m) (y ∷ b) hm hb = elim (Bool-cases (key_lt y.0 x.0)) [
    | inl e ↦
        rw (e, merge)
          (front_second k x y m b (merge (x ∷ m) b) e hm.0 (find-merge k (x ∷ m) b hm hb.1))
    | inr e ↦ elim (Bool-cases (key_lt x.0 y.0)) [
      | inl l ↦
          rw (e, l, merge)
            (front_first k x m (merge m (y ∷ b)) (find k (y ∷ b))
              (λ s. find-merge k m (y ∷ b) hm.1 hb))
      | inr l ↦
          let one : x.0 ≡ y.0 = ko.lt_connected x.0 y.0 l e in
          rw (e, l, merge)
            (front_first k x m (merge m b) (find k (y ∷ b))
              (λ s. rw (find-miss k y b (rw (sym one) s)) (find-merge k m b hm.1 hb.1)))
    ]
  ]

module _ {K V : Type 0} ⦃ko : KeyOps K⦄ ⦃vo : ValueOps V⦄ where
  pub AllAbove-live : (k : K) (m : List (K × V)) → AllAbove k m → AllAbove k (live m)
  unfolding live
  AllAbove-live k [] h = tt
  AllAbove-live k (x ∷ m) h = elim (Bool-cases (vo.is_empty x.1)) [
    | inl e ↦ rw (e, live) (AllAbove-live k m h.1)
    | inr e ↦ rw (e, live) (h.0, AllAbove-live k m h.1)
  ]

  pub live-Sorted : (m : List (K × V)) → Sorted m → Sorted (live m)
  unfolding live
  live-Sorted [] h = tt
  live-Sorted (x ∷ m) h = elim (Bool-cases (vo.is_empty x.1)) [
    | inl e ↦ rw (e, live) (live-Sorted m h.1)
    | inr e ↦ rw (e, live) (AllAbove-live x.0 m h.0, live-Sorted m h.1)
  ]

  pub find-live : (k : K) (m : List (K × V)) → Sorted m → find k (live m) ≡ kept (find k m)
  unfolding live find
  find-live k [] h = refl
  find-live k (x ∷ m) h = elim (Bool-cases (vo.is_empty x.1)) [
    | inl e ↦ elim (Bool-cases (same k x.0)) [
      | inl s ↦
          rw (e, s, find-live k m h.1, find-AllAbove k m (rw (same→eq k x.0 s) h.0), live, find)
            (rw e refl)
      | inr s ↦ rw (e, s, live, find) (find-live k m h.1)
    ]
    | inr e ↦ elim (Bool-cases (same k x.0)) [
      | inl s ↦ rw (e, s, live, find) (rw e refl)
      | inr s ↦ rw (e, s, live, find) (find-live k m h.1)
    ]
  ]

  length-live : (m : List (K × V)) → length (live m) ≤ length m
  unfolding live
  length-live [] = omega arith
  length-live (x ∷ m) = elim (Bool-cases (vo.is_empty x.1)) [
    | inl e ↦ rw (e, live) (let s = length-live m in omega arith)
    | inr e ↦ rw (e, live) (let s = length-live m in omega arith)
  ]

  length-merge : (m b : List (K × V)) → length (merge m b) ≤ length m + length b
  unfolding merge
  length-merge [] b = omega arith
  length-merge (x ∷ m) [] = omega arith
  length-merge (x ∷ m) (y ∷ b) = elim (Bool-cases (key_lt y.0 x.0)) [
    | inl e ↦ rw (e, merge) (let s = length-merge (x ∷ m) b in omega arith)
    | inr e ↦ elim (Bool-cases (key_lt x.0 y.0)) [
      | inl l ↦ rw (e, l, merge) (let s = length-merge m (y ∷ b) in omega arith)
      | inr l ↦ rw (e, l, merge) (let s = length-merge m b in omega arith)
    ]
  ]

  pub length-live-merge : (m b : List (K × V)) → length (live (merge m b)) ≤ length m + length b
  length-live-merge m b = let s = length-live (merge m b) in let t = length-merge m b in omega arith
