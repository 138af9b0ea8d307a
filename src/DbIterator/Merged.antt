-- ===== src/DbIterator/Merged.antt =====
-- The merging iterator over an iterator that delivers its entries.
use inery_persistent_memory.Base.{
  ℕ, zero, suc, ◌+◌, ◌<◌, ◌≡◌, refl, subst, ◌≤◌, Bool, Option, none, some, List, [], ◌∷◌, arith,
  Bool-cases, inl, inr,
}
use inery_persistent_memory.StdMap.{lower_bound, key_lt, KeyOps}
use inery_persistent_memory.StdMap.Order.{Sorted}
use inery_persistent_memory.Serialize.{ValueOps}
use inery_persistent_memory.LevelDb.Wrapper.{ok}
use inery_persistent_memory.DbIterator.{Iterator}
use inery_persistent_memory.DbIterator.Merge.{
  MergeState, process_get_data, process_data, merge_first, merge_seek, merge_next, merge_iterator,
}
use inery_persistent_memory.DbIterator.Delivery.{Seeks, length, Delivers, StartsWith, merge, live}
use inery_persistent_memory.DbIterator.SeekEntries.{bound-live-merge}
use inery_persistent_memory.DbIterator.MergeLaws.{
  state, Advances, advance_map, advance_base, advance_both,
}

module _ {K V S : Type 0} ⦃ko : KeyOps K⦄ ⦃vo : ValueOps V⦄ (base : Iterator K V S) (fuel : ℕ) where
  -- a run of `ProcessData` ends at an entry from where the entries are delivered
  Reaches : ℕ → MergeState K V S → List (K × V) → Type 0
  Reaches f s items =
      (s' : MergeState K V S) × (process_data base f s ≡ ok s')
      × Delivers (merge_iterator base fuel) s' items

  abbrev Reaching : ℕ → Type 0
  Reaching n =
      (m b : List (K × V)) (s : S) (f : ℕ)
      → length m + length b < n
      → length m + length b < f
      → length m + length b < fuel
      → Delivers base s b
      → (w : List (K × V)) (i : Option (K × V)) (fm ob : Bool) (c : ℕ)
      → Reaches f (state w m s i fm ob c) (live (merge m b))

  reach_advance :
      (n : ℕ)
      → Reaching n
      → (m b : List (K × V)) (s : S) → Advances base m s b
      → (f : ℕ) → length m + length b < suc n
      → length m + length b < suc f
      → length m + length b < fuel
      → (w : List (K × V)) (i : Option (K × V)) (fm ob : Bool) (c : ℕ)
      → Reaches (suc f) (state w m s i fm ob c) (live (merge m b))
  unfolding Reaches process_data merge_next live
  reach_advance n ih m b s a f ln lf lt w i fm ob c =
      elim (Bool-cases (vo.is_empty a.choice.chosen.1)) [
        | inl e ↦
            let less = a.shorter in
            let (s', run, d) =
              ih a.map_left a.base_left a.base_after f (omega arith) (omega arith) (omega arith)
                a.delivers w i a.choice.from_map a.choice.on_both c in
            (s', rw (a.picks, e, a.steps w i c, process_data) run, rw (a.merged, e, live) d)
        | inr e ↦
            let less = a.shorter in
            let (s', run, d) =
              ih a.map_left a.base_left a.base_after fuel (omega arith) (omega arith) (omega arith)
                a.delivers w (some a.choice.chosen) a.choice.from_map a.choice.on_both (c + 1) in
            (
              state w m s (some a.choice.chosen) a.choice.from_map a.choice.on_both (c + 1),
              rw (a.picks, e, process_data) refl,
              rw (a.merged, e, live)
                  (refl, (s', rw (a.steps w (some a.choice.chosen) (c + 1), merge_next) run, d)),
            )
      ]

  reach_end :
      (s : S)
      → Delivers base s []
      → (f : ℕ) (w : List (K × V)) (i : Option (K × V)) (fm ob : Bool) (c : ℕ)
      → Reaches (suc f) (state w [] s i fm ob c) []
  unfolding Reaches process_data process_get_data
  reach_end s now f w i fm ob c = (state w [] s none fm ob c, rw (now, process_data) refl, refl)

  reach : (n : ℕ) → Reaching n
  unfolding merge live
  reach zero m b s f ln lf lt d w i fm ob c = absurd (omega arith)
  reach (suc n) m b s zero ln lf lt d w i fm ob c = absurd (omega arith)
  reach (suc n) [] [] s (suc f) ln lf lt d w i fm ob c = reach_end s d f w i fm ob c
  reach (suc n) (x ∷ m) [] s (suc f) ln lf lt d w i fm ob c =
      reach_advance n (reach n) (x ∷ m) [] s (advance_map base x m s d) f ln lf lt w i fm ob c
  reach (suc n) [] (y ∷ b) s (suc f) ln lf lt d w i fm ob c =
      reach_advance n (reach n) [] (y ∷ b) s (advance_base base y b s d) f ln lf lt w i fm ob c
  reach (suc n) (x ∷ m) (y ∷ b) s (suc f) ln lf lt d w i fm ob c =
      reach_advance n (reach n) (x ∷ m) (y ∷ b) s (advance_both base x y m b s d) f ln lf lt w i fm
        ob c

  -- After `First`, the merging iterator delivers the live entries of the merge of the layer and of
  -- what the iterator below delivers.
  pub merge_first-StartsWith :
      (z : MergeState K V S) (b : List (K × V))
      → StartsWith base z.base_it b
      → length z.map_data + length b < fuel
      → StartsWith (merge_iterator base fuel) z (live (merge z.map_data b))
  unfolding merge_first Reaches
  merge_first-StartsWith z b (s, starts, d) enough =
      let (s', run, d') =
        reach (suc (length z.map_data + length b)) z.map_data b s fuel (omega arith) enough enough d
          z.map_data z.item z.is_map_data z.is_same_key z.count in
      (s', rw starts run, d')

  length-lower_bound : (k : K) (m : List (K × V)) → length (lower_bound k m) ≤ length m
  unfolding lower_bound
  length-lower_bound k [] = omega arith
  length-lower_bound k (x ∷ m) = elim (Bool-cases (key_lt x.0 k)) [
    | inl e ↦ rw (e, lower_bound) (let s = length-lower_bound k m in omega arith)
    | inr e ↦ rw (e, lower_bound) (omega arith)
  ]

  -- After `Seek` too, from the key on.
  pub merge_seek-Seeks :
      (z : MergeState K V S) (b : List (K × V))
      → Sorted z.map_data
      → Sorted b
      → Seeks base z.base_it b
      → length z.map_data + length b < fuel
      → Seeks (merge_iterator base fuel) z (live (merge z.map_data b))
  unfolding merge_seek Reaches
  merge_seek-Seeks z b sm sb seeks enough k full =
      let (s, found, d) = seeks k full in
      let lm = length-lower_bound k z.map_data in
      let lb = length-lower_bound k b in
      let (s', run, d') =
        reach (suc (length (lower_bound k z.map_data) + length (lower_bound k b)))
          (lower_bound k z.map_data) (lower_bound k b) s fuel (omega arith) (omega arith)
          (omega arith) d z.map_data z.item z.is_map_data z.is_same_key z.count in
      (
        s',
        rw (full, found, merge_seek) run,
        subst (λ xs. Delivers (merge_iterator base fuel) s' xs)
            (bound-live-merge k z.map_data b sm sb) d',
      )
