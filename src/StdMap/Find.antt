-- ===== src/StdMap/Find.antt =====
-- What `find` returns after each change of a map.
use inery_persistent_memory.Base.{
  ◌≡◌, ◌↔◌, refl, true, none, some, List, [], ◌∷◌, if◌then◌else◌, arith, Option-cases, inl, inr,
}
use inery_persistent_memory.StdMap.{KeyOps, same, find, insert, assign, put_at, erase_at}

module _ {K : Type 0} ⦃ko : KeyOps K⦄ where
  pub same_refl : (a : K) → same a a ≡ true
  unfolding same
  same_refl a = ground (arith, ko.lt_irrefl a)

  pub same→eq : (a b : K) → same a b ≡ true → a ≡ b
  unfolding same
  same→eq a b h = ko.lt_connected a b (ground arith) (ground arith)

  pub same_iff : (a b : K) → (same a b ≡ true) ↔ (a ≡ b)
  same_iff a b = (same→eq a b, λ e. rw e (same_refl b))

module _ {K V : Type 0} ⦃ko : KeyOps K⦄ where
  pub find-insert :
      (k j : K) (v : V) (m : List (K × V))
      → find k m ≡ none
      → find j (insert k v m) ≡ (if same j k then some v else find j m)
  unfolding find insert
  find-insert k j v [] h = refl
  find-insert k j v ((i, w) ∷ m) h =
      ground (arith, find-insert k j v m, same_iff j k, same_iff j i, same_iff k i)

  pub find-assign :
      (k j : K) (v old : V) (m : List (K × V))
      → find k m ≡ some old
      → find j (assign k v m) ≡ (if same j k then some v else find j m)
  unfolding find assign
  find-assign k j v old [] h = ground arith
  find-assign k j v old ((i, w) ∷ m) h =
      ground (arith, find-assign k j v old m, same_iff j k, same_iff j i, same_iff k i)

module _ {K V : Type 0} ⦃ko : KeyOps K⦄ where
  pub find-put_at :
      (k j : K) (v : V) (m : List (K × V))
      → find j (put_at k v m) ≡ (if same j k then some v else find j m)
  unfolding put_at
  find-put_at k j v m = elim (Option-cases (find k m)) [
    | inl e ↦ rw (e, put_at) (find-insert k j v m e)
    | inr (old, e) ↦ rw (e, put_at) (find-assign k j v old m e)
  ]

  pub find-erase_at :
      (k j : K) (m : List (K × V)) → find j (erase_at k m) ≡ (if same j k then none else find j m)
  unfolding erase_at find
  find-erase_at k j [] = ground arith
  find-erase_at k j (x ∷ m) =
      ground (arith, find-erase_at k j m, same_iff j k, same_iff j x.0, same_iff k x.0)
