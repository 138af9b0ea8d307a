-- ===== src/PriceFeed/Cache.antt =====
-- `IneryPriceFeedCache` of persistence/pricefeeddb.h and .cpp: the coin pairs that have price feeds, and
-- the median prices of the last block.
pub mod Pairs
use inery_persistent_memory.Base.{
  ℕ, Bool, true, false, Option, none, some, List, [], ◌∷◌, if◌then◌else◌,
}
use inery_persistent_memory.StdMap.{KeyOps, find, emplace, erase_at}
use inery_persistent_memory.Serialize.{Codec}
use inery_persistent_memory.DbUtil.{list_value}
use inery_persistent_memory.DbConf.Prefix.{price_feed_coin_pairs, median_prices}
use inery_persistent_memory.LevelDb.{LevelDb}
use inery_persistent_memory.LevelDb.Wrapper.{Outcome, ok, throws, Lookup, found, absent, failed}
use inery_persistent_memory.Simple.{SimpleCache, SimpleSession, simple_get_data, simple_set_data}
use inery_persistent_memory.PriceFeed.Median.{MedianPriceDetail}

-- std::set
abbrev pub KeySet : Type 0 → Type 0
KeySet P = List (P × Unit {0})

abbrev pub PriceDetailMap : Type 0 → Type 0
PriceDetailMap P = List (P × MedianPriceDetail)

-- m.count(k) of a set or a map
unfoldable pub count : {K V : Type 0} ⦃ko : KeyOps K⦄ → K → List (K × V) → Bool
count k m = elim (find k m) [ none ↦ false | some _ ↦ true ]

module _ {P : Type 0} ⦃po : KeyOps P⦄ where
  -- the entry of a pair in the map that was read
  unfoldable pub detail_in : P → Lookup (PriceDetailMap P) → Lookup MedianPriceDetail
  detail_in pair (found m) = elim (find pair m) [ none ↦ absent | some d ↦ found d ]
  detail_in pair absent = absent
  detail_in pair (failed e) = failed e

module _ {P D : Type 0} ⦃po : KeyOps P⦄ ⦃pc : Codec (PriceDetailMap P)⦄ ⦃ldb : LevelDb D⦄ where
  -- GetMedianPriceDetail
  unfoldable pub get_median_price_detail :
      P
      → SimpleCache (PriceDetailMap P) D
      → Lookup MedianPriceDetail × SimpleCache (PriceDetailMap P) D
  get_median_price_detail pair c =
      let (r, c') = simple_get_data median_prices c in (detail_in pair r, c')

  -- GetMedianPrice: 0 where there is none
  unfoldable pub read_median_price :
      P → SimpleCache (PriceDetailMap P) D → Outcome ℕ × SimpleCache (PriceDetailMap P) D
  read_median_price pair c =
      let (r, c') = get_median_price_detail pair c in
      (elim r [ found d ↦ ok d.price | absent ↦ ok 0 | failed e ↦ throws e ], c')

  -- GetMedianPrices and SetMedianPrices
  unfoldable pub get_median_prices :
      SimpleCache (PriceDetailMap P) D
      → Outcome (PriceDetailMap P) × SimpleCache (PriceDetailMap P) D
  get_median_prices c =
      let (r, c') = simple_get_data median_prices c in
      (elim r [ found m ↦ ok m | absent ↦ ok [] | failed e ↦ throws e ], c')

  unfoldable pub set_median_prices :
      PriceDetailMap P
      → SimpleSession (PriceDetailMap P) D
      → Outcome Bool × SimpleSession (PriceDetailMap P) D
  set_median_prices m s = simple_set_data median_prices m s

module _ {P : Type 0} where
  -- the set that was read, empty where there is none
  unfoldable pub pairs_or_none : Lookup (KeySet P) → Outcome (KeySet P)
  pairs_or_none (found pairs) = ok pairs
  pairs_or_none absent = ok []
  pairs_or_none (failed e) = throws e

module _ {P D : Type 0} ⦃po : KeyOps P⦄ ⦃sc : Codec (KeySet P)⦄ ⦃ldb : LevelDb D⦄ where
  -- GetFeedCoinPairs
  unfoldable pub get_feed_coin_pairs :
      SimpleCache (KeySet P) D → Lookup (KeySet P) × SimpleCache (KeySet P) D
  get_feed_coin_pairs c = simple_get_data price_feed_coin_pairs c

  -- the branches of `AddFeedCoinPair` and `EraseFeedCoinPair` on the set that was read
  unfoldable pub add_to :
      P
      → Outcome (KeySet P)
      → SimpleSession (KeySet P) D
      → Outcome Bool × SimpleSession (KeySet P) D
  add_to pair (throws e) s = (throws e, s)
  add_to pair (ok pairs) s =
      if count pair pairs
      then (ok true, s)
      else simple_set_data price_feed_coin_pairs (emplace pair tt pairs).0 s

  unfoldable pub erase_from :
      P
      → Outcome (KeySet P)
      → SimpleSession (KeySet P) D
      → Outcome Bool × SimpleSession (KeySet P) D
  erase_from pair (throws e) s = (throws e, s)
  erase_from pair (ok pairs) s =
      if count pair pairs
      then simple_set_data price_feed_coin_pairs (erase_at pair pairs) s
      else (ok true, s)

  -- AddFeedCoinPair
  unfoldable pub add_feed_coin_pair :
      P → SimpleSession (KeySet P) D → Outcome Bool × SimpleSession (KeySet P) D
  add_feed_coin_pair pair s =
      let (r, c) = get_feed_coin_pairs s.cache in
      add_to pair (pairs_or_none r) (record s { cache = c })

  -- EraseFeedCoinPair; the pairs of `kPriceFeedCoinPairSet` are not erased
  unfoldable pub erase_feed_coin_pair :
      (P → Bool) → P → SimpleSession (KeySet P) D → Outcome Bool × SimpleSession (KeySet P) D
  erase_feed_coin_pair is_fixed pair s =
      if is_fixed pair
      then (ok true, s)
      else (let (r, c) = get_feed_coin_pairs s.cache in
          erase_from pair (pairs_or_none r) (record s { cache = c }))

  -- HasFeedCoinPair
  unfoldable pub has_feed_coin_pair :
      P → SimpleCache (KeySet P) D → Outcome Bool × SimpleCache (KeySet P) D
  has_feed_coin_pair pair c =
      let (r, c') = get_feed_coin_pairs c in
      (elim (pairs_or_none r) [ ok pairs ↦ ok (count pair pairs) | throws e ↦ throws e ], c')
