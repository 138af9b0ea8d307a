-- ===== src/DbIterator/SeekEntries.antt =====
-- `lower_bound` of merged and of live entries.
use inery_persistent_memory.Base.{
  ◌≡◌, refl, ap, sym, ◌∙◌, true, false, List, [], ◌∷◌, Bool-cases, inl, inr,
}
use inery_persistent_memory.StdMap.{KeyOps, key_lt, lower_bound}
use inery_persistent_memory.StdMap.Order.{AllAbove, Sorted}
use inery_persistent_memory.Serialize.{ValueOps}
use inery_persistent_memory.DbIterator.Entries.{AllAbove-live, merge-Sorted}
use inery_persistent_memory.DbIterator.Delivery.{merge, live}

module _ {K : Type 0} ⦃ko : KeyOps K⦄ where
  -- entries above a key that is not less than the bound are all kept
  not_less : (k a b : K) → key_lt a k ≡ false → key_lt a b ≡ true → key_lt b k ≡ false
  not_less k a b h l = elim (Bool-cases (key_lt b k)) [
    | inl e ↦ let z = ko.lt_trans a b k l e in cc
    | inr e ↦ e
  ]

module _ {K V : Type 0} ⦃ko : KeyOps K⦄ where
  bound_skip :
      (k : K) (x : K × V) (m : List (K × V))
      → key_lt x.0 k ≡ true
      → lower_bound k (x ∷ m) ≡ lower_bound k m
  unfolding lower_bound
  bound_skip k x m h = rw h

  bound_stop :
      (k : K) (x : K × V) (m : List (K × V)) → key_lt x.0 k ≡ false → lower_bound k (x ∷ m) ≡ x ∷ m
  unfolding lower_bound
  bound_stop k x m h = rw h

  bound_above :
      (k a : K) (m : List (K × V)) → key_lt a k ≡ false → AllAbove a m → lower_bound k m ≡ m
  unfolding lower_bound
  bound_above k a [] h q = refl
  bound_above k a (x ∷ m) h q = rw (not_less k a x.0 h q.0) refl

  merge_head_first :
      (x y : K × V) (m b : List (K × V))
      → key_lt y.0 x.0 ≡ true
      → merge (x ∷ m) (y ∷ b) ≡ y ∷ merge (x ∷ m) b
  unfolding merge
  merge_head_first x y m b e = rw (e, merge)

  merge_head_second :
      (x y : K × V) (m b : List (K × V))
      → key_lt y.0 x.0 ≡ false
      → key_lt x.0 y.0 ≡ true
      → merge (x ∷ m) (y ∷ b) ≡ x ∷ merge m (y ∷ b)
  unfolding merge
  merge_head_second x y m b e l = rw (e, l, merge)

  merge_head_both :
      (x y : K × V) (m b : List (K × V))
      → key_lt y.0 x.0 ≡ false
      → key_lt x.0 y.0 ≡ false
      → merge (x ∷ m) (y ∷ b) ≡ x ∷ merge m b
  unfolding merge
  merge_head_both x y m b e l = rw (e, l, merge)

  bound_nil : (k : K) → lower_bound {V = V} k [] ≡ []
  unfolding lower_bound
  bound_nil k = refl

  merge_nil : (m : List (K × V)) → merge m [] ≡ m
  unfolding merge
  merge_nil [] = refl
  merge_nil (x ∷ m) = refl

  merge_none : (b : List (K × V)) → merge [] b ≡ b
  unfolding merge
  merge_none b = refl

  bound-merge :
      (k : K) (m b : List (K × V))
      → Sorted m
      → Sorted b
      → lower_bound k (merge m b) ≡ merge (lower_bound k m) (lower_bound k b)
  bound-merge k [] b sm sb = rw (merge_none b, bound_nil k, merge_none (lower_bound k b))
  bound-merge k (x ∷ m) [] sm sb =
      rw (merge_nil (x ∷ m), bound_nil k, merge_nil (lower_bound k (x ∷ m)))
  bound-merge k (x ∷ m) (y ∷ b) sm sb = elim (Bool-cases (key_lt y.0 x.0)) [
    | inl e ↦ elim (Bool-cases (key_lt y.0 k)) [
      | inl l ↦
          rw (merge_head_first x y m b e, bound_skip k y (merge (x ∷ m) b) l, bound_skip k y b l)
            (bound-merge k (x ∷ m) b sm sb.1)
      | inr l ↦ rw (
        merge_head_first x y m b e,
        bound_stop k y (merge (x ∷ m) b) l,
        bound_stop k y b l,
        bound_stop k x m (not_less k y.0 x.0 l e),
        merge_head_first x y m b e,
      )
    ]
    | inr e ↦ elim (Bool-cases (key_lt x.0 y.0)) [
      | inl l ↦ elim (Bool-cases (key_lt x.0 k)) [
        | inl h ↦
            rw
              (
                merge_head_second x y m b e l,
                bound_skip k x (merge m (y ∷ b)) h,
                bound_skip k x m h,
              )
              (bound-merge k m (y ∷ b) sm.1 sb)
        | inr h ↦ rw (
          merge_head_second x y m b e l,
          bound_stop k x (merge m (y ∷ b)) h,
          bound_stop k x m h,
          bound_stop k y b (not_less k x.0 y.0 h l),
          merge_head_second x y m b e l,
        )
      ]
      | inr l ↦
          let one : x.0 ≡ y.0 = ko.lt_connected x.0 y.0 l e in
          elim (Bool-cases (key_lt x.0 k)) [
            | inl h ↦
                rw
                  (
                    merge_head_both x y m b e l,
                    bound_skip k x (merge m b) h,
                    bound_skip k x m h,
                    bound_skip k y b (rw (sym one) h),
                  )
                  (bound-merge k m b sm.1 sb.1)
            | inr h ↦ rw (
              merge_head_both x y m b e l,
              bound_stop k x (merge m b) h,
              bound_stop k x m h,
              bound_stop k y b (rw (sym one) h),
              merge_head_both x y m b e l,
            )
          ]
    ]
  ]

module _ {K V : Type 0} ⦃ko : KeyOps K⦄ ⦃vo : ValueOps V⦄ where
  bound-live :
      (k : K) (m : List (K × V)) → Sorted m → lower_bound k (live m) ≡ live (lower_bound k m)
  unfolding live
  bound-live k [] s = rw (bound_nil k)
  bound-live k (x ∷ m) s = elim (Bool-cases (vo.is_empty x.1)) [
    | inl e ↦ elim (Bool-cases (key_lt x.0 k)) [
      | inl h ↦ rw (bound_skip k x m h) (rw (e, live) (bound-live k m s.1))
      | inr h ↦
          rw (bound_stop k x m h)
            (rw (e, live) (bound_above k x.0 (live m) h (AllAbove-live x.0 m s.0)))
    ]
    | inr e ↦ elim (Bool-cases (key_lt x.0 k)) [
      | inl h ↦
          rw (bound_skip k x m h) (rw (e, live) (bound_skip k x (live m) h ∙ bound-live k m s.1))
      | inr h ↦ rw (bound_stop k x m h) (rw (e, live) (bound_stop k x (live m) h))
    ]
  ]

  -- the live entries of a merge from a key on
  pub bound-live-merge :
      (k : K) (m b : List (K × V))
      → Sorted m
      → Sorted b
      → live (merge (lower_bound k m) (lower_bound k b)) ≡ lower_bound k (live (merge m b))
  bound-live-merge k m b sm sb =
      sym (bound-live k (merge m b) (merge-Sorted m b sm sb) ∙ ap live (bound-merge k m b sm sb))
