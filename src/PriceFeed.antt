-- ===== src/PriceFeed.antt =====
-- persistence/pricefeeddb.h and .cpp: the prices that users fed, by coin pair, height and user, in
-- `IneryPricePointMemCache`, a cache in memory over others of its kind.
pub mod Prices
pub mod Flush
pub mod Median
pub mod Blocks
pub mod Cache
use inery_persistent_memory.Base.{
  ℕ, Bool, true, false, Option, none, some, List, [], ◌∷◌, if◌then◌else◌,
}
use inery_persistent_memory.StdMap.{KeyOps, find, insert, emplace, put_at, erase_at}
use inery_persistent_memory.LevelDb.Wrapper.{Outcome, ok, throws, assertion_failed}

-- BlockUserPriceMap: from a height to the prices of the users; no prices mark a deleted height
abbrev pub UserPrices : Type 0 → Type 0
UserPrices R = List (R × ℕ)

abbrev pub BlockUserPriceMap : Type 0 → Type 0 → Type 0
BlockUserPriceMap H R = List (H × UserPrices R)

-- CoinPricePointMap
abbrev pub CoinPricePointMap : Type 0 → Type 0 → Type 0 → Type 0
CoinPricePointMap P H R = List (P × BlockUserPriceMap H R)

-- `m[k]` where it is read: the value, or an empty map for a new key
abbrev pub entries_at : {K A : Type 0} ⦃ko : KeyOps K⦄ → K → List (K × List A) → List A
entries_at k m = elim (find k m) [ none ↦ [] | some xs ↦ xs ]

-- the heights that a layer has deleted, and the prices found so far
pub record Gathered (H R : Type 0) : Type 0 where
  pub expired : List (H × Unit {0})
  pub prices : BlockUserPriceMap H R

module _ {H R : Type 0} ⦃ho : KeyOps H⦄ where
  -- IneryConsecutiveBlockPrice::AddUserPrice
  unfoldable pub add_user_price :
      ⦃ro : KeyOps R⦄ → H → R → ℕ → BlockUserPriceMap H R → BlockUserPriceMap H R
  add_user_price height user price m = put_at height (put_at user price (entries_at height m)) m

  -- IneryConsecutiveBlockPrice::DeleteUserPrice
  unfoldable pub delete_user_price : H → BlockUserPriceMap H R → BlockUserPriceMap H R
  delete_user_price height m = put_at height [] m

  -- one turn of the loop of `GetBlockUserPrices`
  unfoldable pub gather : H → UserPrices R → Gathered H R → Gathered H R
  gather height [] g = record g { expired = (emplace height tt g.expired).0 }
  gather height (x ∷ xs) g = elim (find height g.expired) [
    | some _ ↦ g
    | none ↦ elim (find height g.prices) [
      | some _ ↦ g
      | none ↦ record g { prices = insert height (x ∷ xs) g.prices }
    ]
  ]

  unfoldable pub gather_layer : BlockUserPriceMap H R → Gathered H R → Gathered H R
  gather_layer [] g = g
  gather_layer (x ∷ m) g = gather_layer m (gather x.0 x.1 g)

module _ {P H R : Type 0} ⦃po : KeyOps P⦄ ⦃ho : KeyOps H⦄ where
  -- GetBlockUserPrices with its set of expired heights, through the cache and its bases
  unfoldable pub gather_prices : P → List (CoinPricePointMap P H R) → Gathered H R → Gathered H R
  gather_prices pair [] g = g
  gather_prices pair (m ∷ bases) g = gather_prices pair bases (gather_layer (entries_at pair m) g)

  -- GetBlockUserPrices
  unfoldable pub get_block_user_prices : P → List (CoinPricePointMap P H R) → BlockUserPriceMap H R
  get_block_user_prices pair layers =
      (gather_prices pair layers (record { expired = []; prices = [] })).prices

module _ {P H R : Type 0} ⦃po : KeyOps P⦄ ⦃ho : KeyOps H⦄ ⦃ro : KeyOps R⦄ where
  -- ExistBlockUserPrice, through the cache and its bases
  unfoldable pub exist_block_user_price : H → R → P → List (CoinPricePointMap P H R) → Bool
  exist_block_user_price height user pair [] = false
  exist_block_user_price height user pair (m ∷ bases) =
      elim (find user (entries_at height (entries_at pair m))) [
        | some _ ↦ true
        | none ↦ exist_block_user_price height user pair bases
      ]

  -- AddPrice: the points up to the first that the user has fed for the height, and the result
  unfoldable pub add_price :
      H
      → R
      → List (P × ℕ)
      → CoinPricePointMap P H R
      → List (CoinPricePointMap P H R)
      → Bool × CoinPricePointMap P H R
  add_price height user [] m bases = (true, m)
  add_price height user (x ∷ points) m bases =
      if exist_block_user_price height user x.0 (m ∷ bases)
      then (false, m)
      else add_price height user points
          (put_at x.0 (add_user_price height user x.1 (entries_at x.0 m)) m) bases

module _ {R : Type 0} ⦃ro : KeyOps R⦄ where
  -- the inner loop of `BatchWrite`: `emplace` keeps a price that is there
  unfoldable pub emplace_all : UserPrices R → UserPrices R → UserPrices R
  emplace_all [] prices = prices
  emplace_all (x ∷ xs) prices = emplace_all xs (emplace x.0 x.1 prices).0

module _ {H R : Type 0} ⦃ho : KeyOps H⦄ ⦃ro : KeyOps R⦄ where
  unfoldable pub write_height : H → UserPrices R → BlockUserPriceMap H R → BlockUserPriceMap H R
  write_height height [] m = erase_at height m
  write_height height (x ∷ xs) m = put_at height (emplace_all (x ∷ xs) (entries_at height m)) m

  unfoldable pub write_heights :
      BlockUserPriceMap H R → BlockUserPriceMap H R → BlockUserPriceMap H R
  write_heights [] m = m
  write_heights (x ∷ heights) m = write_heights heights (write_height x.0 x.1 m)

module _ {P H R : Type 0} ⦃po : KeyOps P⦄ ⦃ho : KeyOps H⦄ ⦃ro : KeyOps R⦄ where
  -- a pair without heights is not touched
  unfoldable pub write_pair :
      P → BlockUserPriceMap H R → CoinPricePointMap P H R → CoinPricePointMap P H R
  write_pair pair [] m = m
  write_pair pair (x ∷ heights) m = put_at pair (write_heights (x ∷ heights) (entries_at pair m)) m

  -- BatchWrite
  unfoldable pub batch_write_prices :
      CoinPricePointMap P H R → CoinPricePointMap P H R → CoinPricePointMap P H R
  batch_write_prices [] m = m
  batch_write_prices (x ∷ pairs) m = batch_write_prices pairs (write_pair x.0 x.1 m)

  -- Flush, of the first of the layers into the second
  unfoldable pub flush_prices :
      List (CoinPricePointMap P H R) → Outcome (List (CoinPricePointMap P H R))
  flush_prices [] = throws assertion_failed
  flush_prices (m ∷ []) = throws assertion_failed
  flush_prices (m ∷ base ∷ bases) = ok ([] ∷ batch_write_prices m base ∷ bases)
