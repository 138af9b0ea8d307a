-- ===== src/PriceFeed/Median.antt =====
-- The median prices of `IneryPricePointMemCache`, persistence/pricefeeddb.cpp.
pub mod Sort
pub mod Numbers
pub mod Window
pub mod Details
use inery_persistent_memory.Base.{
  ℕ, zero, suc, ◌+◌, ◌-◌, ◌/◌, ◌%◌, Bool, true, false, Option, none, some, List, [], ◌∷◌, ◌++◌,
  if◌then◌else◌, ltb, leb, ◌==◌, u32_mod, u64_mod,
}
use inery_persistent_memory.StdMap.{KeyOps, find, emplace}
use inery_persistent_memory.DbUtil.KeyOrder.{uint_key}
use inery_persistent_memory.DbIterator.Delivery.{length}
use inery_persistent_memory.PriceFeed.{
  UserPrices, BlockUserPriceMap, CoinPricePointMap, get_block_user_prices,
}

-- CMedianPriceDetail
pub record MedianPriceDetail : Type 0 where
  pub price : ℕ
  pub last_feed_height : ℕ

abbrev pub no_price : MedianPriceDetail
no_price = record { price = 0; last_feed_height = 0 }

-- std::sort
unfoldable pub insert_sorted : ℕ → List ℕ → List ℕ
insert_sorted x [] = x ∷ []
insert_sorted x (y ∷ ys) = if leb x y then x ∷ y ∷ ys else y ∷ insert_sorted x ys

unfoldable pub sort : List ℕ → List ℕ
sort [] = []
sort (x ∷ xs) = insert_sorted x (sort xs)

-- numbers[i], for an index in range
unfoldable pub nth : ℕ → List ℕ → ℕ
nth i [] = 0
nth zero (x ∷ xs) = x
nth (suc i) (x ∷ xs) = nth i xs

-- ComputeMedianNumber; the size is a uint32_t, and the sum a uint64_t
unfoldable pub compute_median_number : List ℕ → ℕ
compute_median_number numbers =
    let size = length numbers % u32_mod in
    if ltb size 2
    then (if size == 0 then 0 else nth 0 numbers)
    else (if size % 2 == 0
        then ((nth (size / 2 - 1) (sort numbers) + nth (size / 2) (sort numbers)) % u64_mod) / 2
        else nth (size / 2) (sort numbers))

-- the prices collected so far, and `last_feed_height`
pub record Collected : Type 0 where
  pub prices : List ℕ
  pub last_feed_height : ℕ

module _ {R : Type 0} where
  -- the loop over the users of a height
  unfoldable pub push_prices : UserPrices R → List ℕ → List ℕ
  push_prices [] prices = prices
  push_prices (x ∷ xs) prices = push_prices xs (prices ++ x.1 ∷ [])

  -- one turn of the loop over the heights
  unfoldable pub window_step : ℕ → ℕ → BlockUserPriceMap ℕ R → Collected → Collected
  window_step block_height height m w = elim (find height m) [
    | none ↦ w
    | some ps ↦ record {
      prices = push_prices ps w.prices;
      last_feed_height = if height == block_height then block_height else w.last_feed_height;
    }
  ]

  -- the loop, from a height down to the first that is not above `beginBlockHeight`
  unfoldable pub window_loop : ℕ → ℕ → ℕ → BlockUserPriceMap ℕ R → Collected → Collected
  window_loop begin_height block_height zero m w = w
  window_loop begin_height block_height (suc h) m w =
      let rest = window_loop begin_height block_height h m (window_step block_height (suc h) m w) in
      if ltb begin_height (suc h) then rest else w

  -- ComputeBlockMedianPrice of the prices of a pair; subtraction on ℕ stops at 0, which is
  -- `beginBlockHeight` of a block that is not above the window
  unfoldable pub compute_block_median_price : ℕ → ℕ → BlockUserPriceMap ℕ R → MedianPriceDetail
  compute_block_median_price block_height slide_window m =
      let w =
        window_loop (block_height - slide_window) block_height block_height m
          (record { prices = []; last_feed_height = 0 }) in
      record { price = compute_median_number w.prices; last_feed_height = w.last_feed_height }

  unfoldable pub median_unless_empty : ℕ → ℕ → BlockUserPriceMap ℕ R → MedianPriceDetail
  median_unless_empty block_height slide_window [] = no_price
  median_unless_empty block_height slide_window (x ∷ m) =
      compute_block_median_price block_height slide_window (x ∷ m)

-- the correction of `GetMedianPrice` by the latest median price of the pair
unfoldable pub reuse_latest : ℕ → Option MedianPriceDetail → MedianPriceDetail → MedianPriceDetail
reuse_latest block_height none d = d
reuse_latest block_height (some latest) d =
    if d.price == 0
    then latest
    else (if d.last_feed_height == block_height
        then d
        else record d { last_feed_height = latest.last_feed_height })

module _ {P R : Type 0} ⦃po : KeyOps P⦄ where
  -- ComputeBlockMedianPrice of a pair
  unfoldable pub compute_pair_median_price :
      ℕ → ℕ → P → List (CoinPricePointMap P ℕ R) → MedianPriceDetail
  compute_pair_median_price block_height slide_window pair layers =
      median_unless_empty block_height slide_window (get_block_user_prices pair layers)

  -- GetMedianPrice
  unfoldable pub get_median_price :
      ℕ → ℕ → List (P × MedianPriceDetail) → List (CoinPricePointMap P ℕ R) → P → MedianPriceDetail
  get_median_price block_height slide_window latest layers pair =
      reuse_latest block_height (find pair latest)
        (compute_pair_median_price block_height slide_window pair layers)

module _ {P : Type 0} where
  -- The loop of `CalcMedianPriceDetails` that erases the pairs without permission: `check_asset`
  -- is what `CheckAsset` and `HasPerms` say of the first of the pair, `none` where it is missing.
  unfoldable pub permitted_pairs : (P → Option Bool) → List P → Option (List P)
  permitted_pairs check_asset [] = some []
  permitted_pairs check_asset (pair ∷ pairs) = elim (check_asset pair) [
    | none ↦ none
    | some allowed ↦ elim (permitted_pairs check_asset pairs) [
      | none ↦ none
      | some rest ↦ some (if allowed then pair ∷ rest else rest)
    ]
  ]

module _ {P : Type 0} ⦃po : KeyOps P⦄ where
  -- the loop over the pairs that are left
  unfoldable pub median_of_pairs :
      (P → MedianPriceDetail) → List P → List (P × MedianPriceDetail) → List (P × MedianPriceDetail)
  median_of_pairs get [] m = m
  median_of_pairs get (pair ∷ pairs) m =
      median_of_pairs get pairs (if (get pair).price == 0 then m else (emplace pair (get pair) m).0)

module _ {P R : Type 0} ⦃po : KeyOps P⦄ where
  -- CalcMedianPriceDetails, `none` where it returns false; the window is what `ReadSlideWindow`
  -- read, the pairs are what `GetFeedCoinPairs` read, if it found any
  unfoldable pub calc_median_price_details :
      Option ℕ
      → List (P × MedianPriceDetail)
      → Option (List P)
      → (P → Option Bool)
      → ℕ
      → List (CoinPricePointMap P ℕ R)
      → Option (List (P × MedianPriceDetail))
  calc_median_price_details none latest feed_pairs check_asset block_height layers = none
  calc_median_price_details (some window) latest none check_asset block_height layers = some []
  calc_median_price_details (some window) latest (some pairs) check_asset block_height layers =
      elim (permitted_pairs check_asset pairs) [
        | none ↦ none
        | some allowed ↦
            some (median_of_pairs (get_median_price block_height window latest layers) allowed [])
      ]

-- the loop of `CalcMedianPrices` over the details
unfoldable pub prices_of : {P : Type 0} → List (P × MedianPriceDetail) → List (P × ℕ)
prices_of [] = []
prices_of (x ∷ m) = (x.0, x.1.price) ∷ prices_of m
