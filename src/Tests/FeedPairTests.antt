-- ===== src/Tests/FeedPairTests.antt =====
-- The coin pairs of the price feeds, over an empty database.
use inery_persistent_memory.Base.{
  ℕ, ◌≡◌, refl, Bool, true, false, not, ◌&&◌, ◌||◌, Option, none, some, [], ◌∷◌, Bytes,
}
use inery_persistent_memory.StdMap.{same}
use inery_persistent_memory.Serialize.{Codec}
use inery_persistent_memory.DbUtil.KeyOrder.{uint_key}
use inery_persistent_memory.DbUtil.{list_value}
use inery_persistent_memory.LevelDb.Wrapper.{ok}
use inery_persistent_memory.Simple.{simple_on_db, simple_on_base, SimpleSession}
use inery_persistent_memory.Simple.View.{simple_peek}
use inery_persistent_memory.PriceFeed.Cache.{
  KeySet, add_feed_coin_pair, erase_feed_coin_pair, has_feed_coin_pair,
}
use inery_persistent_memory.PriceFeed.Cache.Pairs.{feed_coin_pairs_lem}
use inery_persistent_memory.Tests.Samples.{Db, empty_db, db_leveldb}

abbrev pub encode_set : KeySet ℕ → Bytes
encode_set [] = []
encode_set (x ∷ l) = x.0 ∷ encode_set l

abbrev pub decode_set : Bytes → Option (KeySet ℕ)
decode_set [] = some []
decode_set (n ∷ bs) = elim (decode_set bs) [ none ↦ none | some l ↦ some ((n, tt) ∷ l) ]

pub decode_set-encode_set : (l : KeySet ℕ) → decode_set (encode_set l) ≡ some l
decode_set-encode_set [] = refl
decode_set-encode_set ((n, tt) ∷ l) = rw (decode_set-encode_set l) refl

instance abbrev pub set_codec : Codec (KeySet ℕ)
set_codec = record {
  encode = encode_set;
  decode = decode_set;
  serialize_size = λ l. 4;
  decode-encode = decode_set-encode_set;
}

abbrev feed_pairs : SimpleSession (KeySet ℕ) Db
feed_pairs = record {
  cache = simple_on_base none (simple_on_db (some ((2, tt) ∷ (5, tt) ∷ [])) empty_db);
  op_log_map = none;
}

feed_coin_pairs_lem_example :
    (b : Bool) × ((has_feed_coin_pair 2 feed_pairs.cache).0 ≡ ok b)
    × ((add_feed_coin_pair 4 feed_pairs).0 ≡ ok true)
    × ((has_feed_coin_pair 2 (add_feed_coin_pair 4 feed_pairs).1.cache).0
        ≡ ok (same {K = ℕ} 2 4 || b))
    × ((erase_feed_coin_pair (λ p. false) 4 feed_pairs).0 ≡ ok true)
    × ((has_feed_coin_pair 2 (erase_feed_coin_pair (λ p. false) 4 feed_pairs).1.cache).0
        ≡ ok (not (same {K = ℕ} 2 4) && b))
unfolding simple_peek
feed_coin_pairs_lem_example = feed_coin_pairs_lem (λ p. false) 4 2 feed_pairs refl (λ e h. cc)
