-- ===== src/StdMap/Order.antt =====
-- The order of the entries of a map, and its changes.
use inery_persistent_memory.Base.{◌≡◌, refl, true, none, List, [], ◌∷◌, arith, Bool-cases, inl, inr}
use inery_persistent_memory.StdMap.{KeyOps, key_lt, same, find, insert, assign}

module _ {K V : Type 0} ⦃ko : KeyOps K⦄ where
  -- all keys are greater than `k`
  abbrev pub AllAbove : K → List (K × V) → Type 0
  AllAbove k [] = Unit
  AllAbove k ((j, v) ∷ m) = (key_lt k j ≡ true) × AllAbove k m

  abbrev pub Sorted : List (K × V) → Type 0
  Sorted [] = Unit
  Sorted ((k, v) ∷ m) = AllAbove k m × Sorted m

  pub AllAbove-trans :
      (a b : K) (m : List (K × V)) → key_lt a b ≡ true → AllAbove b m → AllAbove a m
  AllAbove-trans a b [] h q = tt
  AllAbove-trans a b ((j, v) ∷ m) h q = (ko.lt_trans a b j h q.0, AllAbove-trans a b m h q.1)

  pub find-AllAbove : (k : K) (m : List (K × V)) → AllAbove k m → find k m ≡ none
  unfolding find same
  find-AllAbove k [] h = refl
  find-AllAbove k ((j, v) ∷ m) h = ground (arith, find-AllAbove k m h.1)

  pub AllAbove-insert :
      (a k : K) (v : V) (m : List (K × V))
      → key_lt a k ≡ true
      → AllAbove a m
      → AllAbove a (insert k v m)
  unfolding insert
  AllAbove-insert a k v [] h q = (h, tt)
  AllAbove-insert a k v ((j, w) ∷ m) h q = elim (Bool-cases (key_lt j k)) [
    | inl e ↦ rw (e, insert) (q.0, AllAbove-insert a k v m h q.1)
    | inr e ↦ rw (e, insert) (h, q)
  ]

  AllAbove-assign : (a k : K) (v : V) (m : List (K × V)) → AllAbove a m → AllAbove a (assign k v m)
  unfolding assign
  AllAbove-assign a k v [] q = tt
  AllAbove-assign a k v ((j, w) ∷ m) q = elim (Bool-cases (same k j)) [
    | inl e ↦ rw (e, assign) q
    | inr e ↦ rw (e, assign) (q.0, AllAbove-assign a k v m q.1)
  ]

  pub insert-Sorted :
      (k : K) (v : V) (m : List (K × V)) → find k m ≡ none → Sorted m → Sorted (insert k v m)
  unfolding insert find same
  insert-Sorted k v [] h s = (tt, tt)
  insert-Sorted k v ((j, w) ∷ m) h s = elim (Bool-cases (key_lt j k)) [
    | inl e ↦ rw (e, insert) (AllAbove-insert j k v m e s.0, insert-Sorted k v m (ground arith) s.1)
    | inr e ↦
        let above : key_lt k j ≡ true = ground arith in
        rw (e, insert) ((above, AllAbove-trans k j m above s.0), s)
  ]

  pub assign-Sorted : (k : K) (v : V) (m : List (K × V)) → Sorted m → Sorted (assign k v m)
  unfolding assign
  assign-Sorted k v [] s = tt
  assign-Sorted k v ((j, w) ∷ m) s = elim (Bool-cases (same k j)) [
    | inl e ↦ rw (e, assign) s
    | inr e ↦ rw (e, assign) (AllAbove-assign j k v m s.0, assign-Sorted k v m s.1)
  ]
