-- ===== src/DbIterator.antt =====
-- persistence/dbiterator.h: the iterators over a cache, which merge its layers and the database.
pub mod Merge
pub mod Delivery
pub mod MergeLaws
pub mod Entries
pub mod SeekEntries
pub mod Merged
pub mod Chain
pub mod Contract
pub mod Prefix
use inery_persistent_memory.Base.{
  ℕ, zero, suc, ◌+◌, Bool, true, false, not, Option, none, some, List, [], ◌∷◌, ◌||◌, if◌then◌else◌,
  Bytes, starts_with, bytes_eq,
}
use inery_persistent_memory.StdMap.{KeyOps, key_lt, lower_bound, upper_bound}
use inery_persistent_memory.Serialize.{Codec, ValueOps}
use inery_persistent_memory.DbConf.Prefix.{PrefixType, prefix_names}
use inery_persistent_memory.DbConf.Keys.{
  gen_db_key, parse_db_key, Parsed, rejected, parsed, stream_error,
}
use inery_persistent_memory.OpLog.{bytes_key}
use inery_persistent_memory.LevelDb.Wrapper.{
  Outcome, ok, throws, assertion_failed, iterator_key_error, iterator_value_error, stream_failure,
  out_of_fuel,
}
use inery_persistent_memory.Composite.{Layer, Cache, detached, on_db, on_base}

-- `DB::NewIterator`: the entries of a database, in the order of the bytes of their keys. A position
-- of a `leveldb::Iterator` is the list of the entries that are left.
pub record LevelDbEntries (D : Type 0) : Type 0 where
  pub entries : D → List (Bytes × Bytes)

-- `CDBBaseIterator`: an object with its state and its virtual functions. `current` is the key and
-- the value while `is_valid` is set.
pub record Iterator (K V S : Type 0) : Type 0 where
  pub current : S → Option (K × V)
  pub first : S → Outcome S
  pub seek : K → S → Outcome S
  pub seek_upper : K → S → Outcome S
  pub next : S → Outcome S

infixl 5 ◌>>=◌
abbrev pub ◌>>=◌ : {A B : Type 0} → Outcome A → (A → Outcome B) → Outcome B
ok a >>= f = f a
throws e >>= f = throws e

-- CDBAccessIterator
pub record DbState (K V D : Type 0) : Type 0 where
  pub db : D
  pub position : List (Bytes × Bytes)
  pub item : Option (K × V)

module _ {K V : Type 0} ⦃kc : Codec K⦄ ⦃vc : Codec V⦄ (p : PrefixType) where
  -- the value of an entry whose key has been read
  unfoldable pub read_item : Parsed K → Bytes → Outcome (Option (K × V))
  read_item rejected value = throws iterator_key_error
  read_item stream_error value = throws stream_failure
  read_item (parsed k) value = elim (vc.decode value) [
    | none ↦ throws iterator_value_error
    | some v ↦ ok (some (k, v))
  ]

  unfoldable pub db_item : List (Bytes × Bytes) → Outcome (Option (K × V))
  db_item [] = ok none
  db_item ((key, value) ∷ rest) =
      if starts_with (prefix_names p) key then read_item (parse_db_key p key) value else ok none

module _ {K V D : Type 0} ⦃kc : Codec K⦄ ⦃vc : Codec V⦄ (p : PrefixType) where
  -- ProcessData
  unfoldable pub db_process : D → List (Bytes × Bytes) → Outcome (DbState K V D)
  db_process d position =
      db_item p position >>= λ item. ok (record { db = d; position = position; item = item })

-- `Seek`, then past the entry if it has the key itself
unfoldable pub skip_key : Bytes → List (Bytes × Bytes) → List (Bytes × Bytes)
skip_key key [] = []
skip_key key ((j, v) ∷ rest) = if bytes_eq j key then rest else (j, v) ∷ rest

abbrev pub rest_of {ℓ} : {A : Type ℓ} → List A → List A
rest_of [] = []
rest_of (x ∷ xs) = xs

module _ {K V D : Type 0} ⦃ko : KeyOps K⦄ ⦃kc : Codec K⦄ ⦃vc : Codec V⦄ ⦃le : LevelDbEntries D⦄
    (p : PrefixType) where
  unfoldable pub db_first : DbState K V D → Outcome (DbState K V D)
  db_first s = db_process p s.db (lower_bound (prefix_names p) (le.entries s.db))

  unfoldable pub db_seek : K → DbState K V D → Outcome (DbState K V D)
  db_seek k s =
      if ko.is_empty k
      then db_first s
      else db_process p s.db (lower_bound (gen_db_key p k) (le.entries s.db))

  unfoldable pub db_seek_upper : K → DbState K V D → Outcome (DbState K V D)
  db_seek_upper k s =
      if ko.is_empty k
      then db_first s
      else db_process p s.db
          (skip_key (gen_db_key p k) (lower_bound (gen_db_key p k) (le.entries s.db)))

  unfoldable pub db_next : DbState K V D → Outcome (DbState K V D)
  db_next s = db_process p s.db (rest_of s.position)

  abbrev pub db_iterator : Iterator K V (DbState K V D)
  db_iterator = record {
    current = λ s. s.item;
    first = db_first;
    seek = db_seek;
    seek_upper = db_seek_upper;
    next = db_next;
  }
