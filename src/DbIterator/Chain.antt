-- ===== src/DbIterator/Chain.antt =====
-- `CDBCacheIteratorImpl::Create`: the iterator over a cache, its layers and its database.
use inery_persistent_memory.Base.{
  ℕ, ◌+◌, ◌≡◌, refl, true, false, Option, none, some, List, [], ◌∷◌, Bytes, starts_with,
  starts_with-append,
}
use inery_persistent_memory.StdMap.{KeyOps, find, lower_bound}
use inery_persistent_memory.StdMap.Order.{Sorted}
use inery_persistent_memory.Serialize.{Codec, ValueOps}
use inery_persistent_memory.DbConf.Prefix.{PrefixType, prefix_names}
use inery_persistent_memory.DbConf.Keys.{gen_db_key, is_key_prefix, parse_db_key-gen_db_key}
use inery_persistent_memory.LevelDb.{LevelDb}
use inery_persistent_memory.LevelDb.Wrapper.{ok, Lookup, found, absent}
use inery_persistent_memory.LevelDb.Access.{get_data}
use inery_persistent_memory.OpLog.{bytes_key}
use inery_persistent_memory.Composite.{Layer, Cache, detached, on_db, on_base}
use inery_persistent_memory.DbIterator.{
  LevelDbEntries, Iterator, DbState, read_item, db_item, db_process, db_first, db_seek, db_next,
  db_iterator,
}
use inery_persistent_memory.DbIterator.Merge.{MergeState, merge_iterator, new_merge}
use inery_persistent_memory.DbIterator.Delivery.{length, Delivers, StartsWith, Seeks}

-- an iterator with its state
pub record AnyIterator (K V : Type 0) : Type 1 where
  pub State : Type 0
  pub calls : Iterator K V State
  pub start : State

module _ {K V : Type 0} ⦃ko : KeyOps K⦄ ⦃vo : ValueOps V⦄ (fuel : ℕ) where
  abbrev pub layer_iterator : Layer K V → AnyIterator K V → AnyIterator K V
  layer_iterator l it = record {
    State = MergeState K V it.State;
    calls = merge_iterator it.calls fuel;
    start = new_merge l.map_data it.start;
  }

module _ {K V D : Type 0} ⦃kc : Codec K⦄ ⦃vc : Codec V⦄ ⦃ko : KeyOps K⦄ ⦃le : LevelDbEntries D⦄
    (p : PrefixType) where
  abbrev pub access_iterator : D → AnyIterator K V
  access_iterator d = record {
    State = DbState K V D;
    calls = db_iterator p;
    start = record { db = d; position = []; item = none };
  }

module _ {K V D : Type 0} ⦃ko : KeyOps K⦄ ⦃vo : ValueOps V⦄ ⦃kc : Codec K⦄ ⦃vc : Codec V⦄
    ⦃le : LevelDbEntries D⦄ (fuel : ℕ) (p : PrefixType) where
  -- Create; `none` is its assertion
  unfoldable pub create : Cache K V D → Option (AnyIterator K V)
  create (detached l) = none
  create (on_db l d) = some (layer_iterator fuel l (access_iterator p d))
  create (on_base l c) = elim (create c) [ none ↦ none | some it ↦ some (layer_iterator fuel l it) ]

-- the iterator at the entries of the database
abbrev pub encoded :
    {K V : Type 0} ⦃kc : Codec K⦄ ⦃vc : Codec V⦄
    → PrefixType
    → List (K × V)
    → List (Bytes × Bytes)
    → List (Bytes × Bytes)
encoded p [] rest = rest
encoded ⦃vc = vc⦄ p (x ∷ xs) rest = (gen_db_key p x.0, vc.encode x.1) ∷ encoded p xs rest

-- no entry, or one that is not of the prefix
abbrev pub Ends : PrefixType → List (Bytes × Bytes) → Type 0
Ends p [] = Unit
Ends p (x ∷ xs) = starts_with (prefix_names p) x.0 ≡ false

abbrev pub as_lookup : {V : Type 0} → Option V → Lookup V
as_lookup (some v) = found v
as_lookup none = absent

module _ {K V D : Type 0} ⦃ko : KeyOps K⦄ ⦃kc : Codec K⦄ ⦃vc : Codec V⦄ ⦃ldb : LevelDb D⦄
    ⦃le : LevelDbEntries D⦄ (p : PrefixType) where
  -- What the database holds under the prefix: in the order of their bytes its entries are the items,
  -- which are in the order of their keys too, a seek of a key finds the first item
  -- that is not less, and each key is read to its item.
  pub record Holds (d : D) (items : List (K × V)) : Type 0 where
    pub others : List (Bytes × Bytes)
    pub stands : lower_bound (prefix_names p) (le.entries d) ≡ encoded p items others
    pub seeks :
        (k : K)
        → lower_bound (gen_db_key p k) (le.entries d) ≡ encoded p (lower_bound k items) others
    pub ends : Ends p others
    pub in_order : Sorted items
    pub reads : (k : K) → get_data p k d ≡ as_lookup (find k items)

abbrev first_item : {A : Type 0} → List A → Option A
first_item [] = none
first_item (x ∷ xs) = some x

module _ {K : Type 0} ⦃kc : Codec K⦄ (p : PrefixType) where
  starts_with-gen_db_key : (k : K) → starts_with (prefix_names p) (gen_db_key p k) ≡ true
  unfolding gen_db_key
  starts_with-gen_db_key k = starts_with-append (prefix_names p) (kc.encode k)

module _ {K V : Type 0} ⦃kc : Codec K⦄ ⦃vc : Codec V⦄ (p : PrefixType) where
  db_item-encoded :
      (items : List (K × V)) (others : List (Bytes × Bytes))
      → is_key_prefix p ≡ true
      → Ends p others
      → db_item p (encoded p items others) ≡ ok (first_item items)
  unfolding db_item read_item
  db_item-encoded [] [] h e = refl
  db_item-encoded [] (x ∷ xs) h e = rw e
  db_item-encoded (x ∷ xs) others h e = rw (
    starts_with-gen_db_key p x.0,
    parse_db_key-gen_db_key p x.0 h,
    vc.decode-encode x.1,
    read_item,
  )

module _ {K V D : Type 0} ⦃ko : KeyOps K⦄ ⦃kc : Codec K⦄ ⦃vc : Codec V⦄ ⦃le : LevelDbEntries D⦄
    (p : PrefixType) where
  at_items : D → List (K × V) → List (Bytes × Bytes) → DbState K V D
  at_items d items others = record {
    db = d;
    position = encoded p items others;
    item = first_item items;
  }

  at_items-Delivers :
      (d : D) (items : List (K × V)) (others : List (Bytes × Bytes))
      → is_key_prefix p ≡ true
      → Ends p others
      → Delivers (db_iterator p) (at_items d items others) items
  unfolding at_items db_next db_process
  at_items-Delivers d [] others h e = refl
  at_items-Delivers d (x ∷ xs) others h e = (
    refl,
    (
      at_items d xs others,
      rw (db_item-encoded p xs others h e) refl,
      at_items-Delivers d xs others h e,
    ),
  )

  pub db_first-StartsWith :
      ⦃ldb : LevelDb D⦄ (d : D) (items : List (K × V))
      → is_key_prefix p ≡ true
      → Holds p d items
      → StartsWith (access_iterator p d).calls (access_iterator p d).start items
  unfolding at_items db_first db_process
  db_first-StartsWith d items h q = (
    at_items d items q.others,
    rw (q.stands, db_item-encoded p items q.others h q.ends) refl,
    at_items-Delivers d items q.others h q.ends,
  )

module _ {K V D : Type 0} ⦃ko : KeyOps K⦄ ⦃kc : Codec K⦄ ⦃vc : Codec V⦄ ⦃le : LevelDbEntries D⦄
    ⦃ldb : LevelDb D⦄ (p : PrefixType) where
  pub db_seek-Seeks :
      (d : D) (items : List (K × V))
      → is_key_prefix p ≡ true
      → Holds p d items
      → Seeks (access_iterator p d).calls (access_iterator p d).start items
  unfolding at_items db_seek db_process
  db_seek-Seeks d items h q k full = (
    at_items p d (lower_bound k items) q.others,
    rw (full, q.seeks k, db_item-encoded p (lower_bound k items) q.others h q.ends, db_seek) refl,
    at_items-Delivers p d (lower_bound k items) q.others h q.ends,
  )

-- the number of the entries in all the maps
abbrev pub cached : {K V D : Type 0} → Cache K V D → ℕ
cached (detached l) = length l.map_data
cached (on_db l d) = length l.map_data
cached (on_base l c) = length l.map_data + cached c
