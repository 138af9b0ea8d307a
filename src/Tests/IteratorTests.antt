-- ===== src/Tests/IteratorTests.antt =====
-- An iterator over a sample cache of two layers and a database that holds entries of two prefixes.
use inery_persistent_memory.Base.{
  ℕ, ◌≡◌, refl, false, Option, none, some, Bytes, List, [], ◌∷◌, arith, bytes_lt, bytes_eq,
}
use inery_persistent_memory.StdMap.{find, same, lower_bound}
use inery_persistent_memory.DbConf.Prefix.{vote, cdp, prefix_names}
use inery_persistent_memory.DbConf.Keys.{gen_db_key, is_key_prefix}
use inery_persistent_memory.LevelDb.Wrapper.{read, get_bytes}
use inery_persistent_memory.LevelDb.Access.{get_data}
use inery_persistent_memory.Composite.{Cache, on_db, on_base}
use inery_persistent_memory.Composite.View.{database}
use inery_persistent_memory.DbIterator.Chain.{AnyIterator, create, Holds}
use inery_persistent_memory.DbIterator.Contract.{Enumerates, create-Enumerates}
use inery_persistent_memory.Serialize.{Codec}
use inery_persistent_memory.StdMap.Order.{Sorted}
use inery_persistent_memory.Composite.View.{view}
use inery_persistent_memory.DbIterator.Chain.{as_lookup}
use inery_persistent_memory.DbIterator.Delivery.{StartsWith}
use inery_persistent_memory.DbIterator.Prefix.{prefix_iterator, with_prefix, prefix_iterator_lem}
use inery_persistent_memory.DbUtil.KeyOrder.{uint_key, pair_key}
use inery_persistent_memory.DbUtil.{uint_value}
use inery_persistent_memory.Tests.Samples.{nat_codec, upper_layer}
use inery_persistent_memory.Tests.Stores.{Store, store_leveldb, store_entries}

abbrev store : Store
store =
    (gen_db_key {K = ℕ} cdp 3, 9 ∷ [])
    ∷ (gen_db_key {K = ℕ} vote 2, 22 ∷ [])
    ∷ (gen_db_key {K = ℕ} vote 6, 66 ∷ [])
    ∷ []

abbrev stored : List (ℕ × ℕ)
stored = (2, 22) ∷ (6, 66) ∷ []

abbrev stack : Cache ℕ ℕ Store
stack =
    on_base upper_layer
      (on_db (record { map_data = (2, 20) ∷ (5, 50) ∷ []; is_calc_size = false; size = 0 }) store)

holds : Holds vote store stored
unfolding gen_db_key get_data find lower_bound same bytes_lt read get_bytes prefix_names
holds = record {
  others = [];
  stands = refl;
  seeks = λ k. ground arith;
  ends = tt;
  in_order = ((refl, tt), (tt, tt));
  reads = λ k. ground arith;
}

create-Enumerates_example :
    (it : AnyIterator ℕ ℕ) × (create 7 vote stack ≡ some it) × Enumerates 7 vote stack it 6
create-Enumerates_example =
    create-Enumerates 7 vote stack store stored (unfold is_key_prefix bytes_eq in refl)
      (unfold database in refl) holds (((refl, tt), (tt, tt)), ((refl, tt), (tt, tt))) (omega arith)

abbrev decode_pair : Bytes → Option (ℕ × ℕ)
decode_pair (a ∷ b ∷ []) = some (a, b)
decode_pair _ = none

instance abbrev pair_codec : Codec (ℕ × ℕ)
pair_codec = record {
  encode = λ k. k.0 ∷ k.1 ∷ [];
  decode = decode_pair;
  serialize_size = λ k. 8;
  decode-encode = λ k. refl;
}

abbrev pair_store : Store
pair_store = (gen_db_key {K = ℕ × ℕ} cdp (3, 1), 9 ∷ []) ∷ []

-- the entries of 3 are (3, 1) and (3, 8)
abbrev pairs : Cache (ℕ × ℕ) ℕ Store
pairs =
    on_base (record { map_data = ((3, 2), 0) ∷ ((3, 8), 80) ∷ []; is_calc_size = false; size = 0 })
      (on_db
        (record {
          map_data = ((2, 7), 20) ∷ ((3, 2), 50) ∷ ((4, 1), 60) ∷ [];
          is_calc_size = false;
          size = 0;
        })
        pair_store)

abbrev pair_stored : List ((ℕ × ℕ) × ℕ)
pair_stored = ((3, 1), 9) ∷ []

pair_stored-Holds : Holds cdp pair_store pair_stored
unfolding gen_db_key get_data find lower_bound same bytes_lt read get_bytes prefix_names
pair_stored-Holds = record {
  others = [];
  stands = refl;
  seeks = λ k. ground arith;
  ends = tt;
  in_order = (tt, tt);
  reads = λ k. ground arith;
}

prefix_iterator_lem_example :
    (it : AnyIterator (ℕ × ℕ) ℕ) × (create 9 cdp pairs ≡ some it)
    × ((items : List ((ℕ × ℕ) × ℕ)) × Sorted items
        × ((k : ℕ × ℕ) → as_lookup (find k items) ≡ view cdp k pairs)
        × StartsWith (prefix_iterator it.calls 3) it.start (with_prefix 3 items))
prefix_iterator_lem_example =
    prefix_iterator_lem 9 cdp 3 pairs pair_store pair_stored refl (λ b. ground arith)
      (unfold is_key_prefix bytes_eq in refl) (unfold database in refl) pair_stored-Holds
      (((refl, tt), (tt, tt)), ((refl, (refl, tt)), ((refl, tt), (tt, tt)))) (omega arith)
