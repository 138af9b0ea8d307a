-- ===== src/DbIterator/Merge.antt =====
-- `CDBCacheIteratorImpl`, with its `CCacheMapIterator`: the entries of a layer merged with those of
-- the iterator below.
use inery_persistent_memory.Base.{
  ℕ, zero, suc, ◌+◌, Bool, true, false, not, Option, none, some, List, [], ◌∷◌, if◌then◌else◌,
}
use inery_persistent_memory.StdMap.{KeyOps, key_lt, lower_bound, upper_bound}
use inery_persistent_memory.Serialize.{ValueOps}
use inery_persistent_memory.LevelDb.Wrapper.{Outcome, ok, throws, assertion_failed, out_of_fuel}
use inery_persistent_memory.DbIterator.{Iterator, ◌>>=◌}

-- The map of the layer and the position in it (the entries that are left, none before `First`), the
-- iterator below, and the fields of the object.
pub record MergeState (K V S : Type 0) : Type 0 where
  pub map_data : List (K × V)
  pub map_it : List (K × V)
  pub base_it : S
  pub item : Option (K × V)
  pub is_map_data : Bool
  pub is_same_key : Bool
  pub count : ℕ

-- What `ProcessGetData` chooses: the entry, is_map_data, is_same_key.
pub record Choice (K V : Type 0) : Type 0 where
  pub chosen : K × V
  pub from_map : Bool
  pub on_both : Bool

module _ {K V : Type 0} ⦃ko : KeyOps K⦄ where
  -- ProcessGetData, with the test of `ProcessData` before it; `none` where both are at their ends
  unfoldable pub process_get_data : List (K × V) → Option (K × V) → Option (Choice K V)
  process_get_data [] none = none
  process_get_data (x ∷ m) none = some (record { chosen = x; from_map = true; on_both = false })
  process_get_data [] (some y) = some (record { chosen = y; from_map = false; on_both = false })
  process_get_data ((k, v) ∷ m) (some (j, w)) = some (
      if key_lt j k
      then record { chosen = (j, w); from_map = false; on_both = false }
      else record { chosen = (k, v); from_map = true; on_both = not (key_lt k j) })

module _ {K V S : Type 0} (base : Iterator K V S) where
  -- CCacheMapIterator::Next
  unfoldable pub map_next : List (K × V) → Outcome (List (K × V))
  map_next [] = throws assertion_failed
  map_next (x ∷ m) = ok m

  -- the base's `Next` after its `IsValid` is asserted
  unfoldable pub base_next_valid : Option (K × V) → S → Outcome S
  base_next_valid none b = throws assertion_failed
  base_next_valid (some x) b = base.next b

  -- InternalNext
  unfoldable pub internal_next : MergeState K V S → Outcome (MergeState K V S)
  internal_next s =
      if s.is_map_data
      then (map_next s.map_it >>= λ m.
          if s.is_same_key
          then (base_next_valid (base.current s.base_it) s.base_it >>= λ b.
              ok (record s { map_it = m; base_it = b }))
          else ok (record s { map_it = m }))
      else (base.next s.base_it >>= λ b. ok (record s { base_it = b }))

module _ {K V S : Type 0} ⦃ko : KeyOps K⦄ ⦃vo : ValueOps V⦄ (base : Iterator K V S) where
  abbrev pub choose : Choice K V → MergeState K V S → MergeState K V S
  choose c s = record s { is_map_data = c.from_map; is_same_key = c.on_both }

  -- ProcessData: the loop over the entries with empty values, on fuel
  unfoldable pub process_data : ℕ → MergeState K V S → Outcome (MergeState K V S)
  process_data zero s = throws out_of_fuel
  process_data (suc f) s = elim (process_get_data s.map_it (base.current s.base_it)) [
    | none ↦ ok (record s { item = none })
    | some c ↦ elim (vo.is_empty c.chosen.1) [
      | true ↦ internal_next base (choose c s) >>= λ s'. process_data f s'
      | false ↦ ok (record (choose c s) { item = some c.chosen; count = s.count + 1 })
    ]
  ]

  module _ (fuel : ℕ) where
    unfoldable pub merge_first : MergeState K V S → Outcome (MergeState K V S)
    merge_first s = base.first s.base_it >>= λ b.
        process_data fuel (record s { map_it = s.map_data; base_it = b })

    unfoldable pub merge_seek : K → MergeState K V S → Outcome (MergeState K V S)
    merge_seek k s =
        if ko.is_empty k
        then merge_first s
        else (base.seek k s.base_it >>= λ b.
            process_data fuel (record s { map_it = lower_bound k s.map_data; base_it = b }))

    unfoldable pub merge_seek_upper : K → MergeState K V S → Outcome (MergeState K V S)
    merge_seek_upper k s =
        if ko.is_empty k
        then merge_first s
        else (base.seek_upper k s.base_it >>= λ b.
            process_data fuel (record s { map_it = upper_bound k s.map_data; base_it = b }))

    unfoldable pub merge_next : MergeState K V S → Outcome (MergeState K V S)
    merge_next s = internal_next base s >>= λ s'. process_data fuel s'

    abbrev pub merge_iterator : Iterator K V (MergeState K V S)
    merge_iterator = record {
      current = λ s. s.item;
      first = merge_first;
      seek = merge_seek;
      seek_upper = merge_seek_upper;
      next = merge_next;
    }

-- the constructor: both iterators are before their first `First`
abbrev pub new_merge : {K V S : Type 0} → List (K × V) → S → MergeState K V S
new_merge m b = record {
  map_data = m;
  map_it = [];
  base_it = b;
  item = none;
  is_map_data = false;
  is_same_key = false;
  count = 0;
}
