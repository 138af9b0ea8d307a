-- ===== src/Tests/PriceTests.antt =====
-- Prices in two layers.
use inery_persistent_memory.Base.{ℕ, ◌≡◌, refl, List, [], ◌∷◌}
use inery_persistent_memory.StdMap.{find, same}
use inery_persistent_memory.PriceFeed.{
  CoinPricePointMap, entries_at, flush_prices, get_block_user_prices,
}
use inery_persistent_memory.PriceFeed.Prices.{decided, flat, get_block_user_prices_lem}
use inery_persistent_memory.LevelDb.Wrapper.{ok}
use inery_persistent_memory.PriceFeed.Flush.{Flushed, flush_prices_lem}
use inery_persistent_memory.DbUtil.KeyOrder.{uint_key}

abbrev layers : List (CoinPricePointMap ℕ ℕ ℕ)
layers =
    ((1, (10, []) ∷ (12, (3, 300) ∷ []) ∷ []) ∷ [])
    ∷ ((1, (10, (3, 100) ∷ []) ∷ (11, (4, 200) ∷ []) ∷ []) ∷ [])
    ∷ []

get_block_user_prices_lem_example :
    find 10 (get_block_user_prices 1 layers) ≡ flat (decided 1 10 layers)
get_block_user_prices_lem_example = get_block_user_prices_lem 1 10 layers

abbrev upper_prices : CoinPricePointMap ℕ ℕ ℕ
upper_prices = (1, (10, []) ∷ (12, (3, 300) ∷ (5, 310) ∷ []) ∷ []) ∷ []

abbrev lower_prices : CoinPricePointMap ℕ ℕ ℕ
lower_prices = (1, (10, (3, 100) ∷ []) ∷ (12, (3, 290) ∷ []) ∷ []) ∷ []

flush_prices_lem_example :
    (base : CoinPricePointMap ℕ ℕ ℕ) × (flush_prices (upper_prices ∷ lower_prices ∷ [])
      ≡ ok ([] ∷ base ∷ []))
    × Flushed
        (find 12 (entries_at 1 upper_prices))
        (find 12 (entries_at 1 lower_prices))
        (find 12 (entries_at 1 base))
unfolding find same
flush_prices_lem_example =
    flush_prices_lem 1 12 upper_prices lower_prices [] (tt, tt) ((refl, tt), (tt, tt))
