-- ===== src/Tests/MedianTests.antt =====
-- Median prices of two heights, and a block that is deleted.
use inery_persistent_memory.Base.{
  ℕ, ◌≤◌, ◌≡◌, refl, sym, ◌∙◌, subst, Bool, true, false, ◌&&◌, ◌||◌, Option, none, some, List, [],
  ◌∷◌, if◌then◌else◌, arith, Bool-cases, inl, inr,
}
use mathlib.Core.Option.{some-injective}
use inery_persistent_memory.StdMap.{find, same}
use inery_persistent_memory.DbUtil.KeyOrder.{uint_key}
use inery_persistent_memory.DbIterator.{rest_of}
use inery_persistent_memory.PriceFeed.{
  UserPrices, BlockUserPriceMap, CoinPricePointMap, get_block_user_prices,
}
use inery_persistent_memory.PriceFeed.Median.{
  MedianPriceDetail, compute_block_median_price, window_loop, window_step, push_prices,
  get_median_price, calc_median_price_details,
}
use inery_persistent_memory.PriceFeed.Median.Sort.{Within}
use inery_persistent_memory.PriceFeed.Median.Window.{InWindow, fed, block_median-Within}
use inery_persistent_memory.PriceFeed.Median.Details.{
  has_pair, allows, unless_zero, calc_details_lem,
}
use inery_persistent_memory.PriceFeed.Blocks.{
  price_feed, other_tx, FeedBlock, delete_block_from_cache,
}
use inery_persistent_memory.PriceFeed.Blocks.Deleted.{is_some, feeds, delete_block_lem}

abbrev fed_prices : BlockUserPriceMap ℕ ℕ
fed_prices = (10, (3, 100) ∷ (4, 120) ∷ []) ∷ (11, (3, 110) ∷ []) ∷ []

fed-Within :
    (h : ℕ)
    → InWindow 11 5 h
    → (qs : UserPrices ℕ) → find h fed_prices ≡ some qs
    → Within 100 120 (fed qs)
unfolding find
fed-Within h w qs e = elim (Bool-cases (same h 10)) [
  | inl s ↦
      let q : (3, 100) ∷ (4, 120) ∷ [] ≡ qs = some-injective _ _ (sym (rw s refl) ∙ e) in
      subst (λ l. Within 100 120 (fed l)) q
        (omega arith, omega arith, (omega arith, omega arith, tt))
  | inr s ↦ elim (Bool-cases (same h 11)) [
    | inl t ↦
        let q : (3, 110) ∷ [] ≡ qs = some-injective _ _ (sym (rw s (rw t refl)) ∙ e) in
        subst (λ l. Within 100 120 (fed l)) q (omega arith, omega arith, tt)
    | inr t ↦ let gone : find h fed_prices ≡ none = rw s (rw t refl) in cc
  ]
]

block_median-Within_example :
    (100 ≤ (compute_block_median_price 11 5 fed_prices).price)
    × ((compute_block_median_price 11 5 fed_prices).price ≤ 120)
unfolding window_loop window_step push_prices find same
block_median-Within_example =
    block_median-Within 100 120 11 5 11 fed_prices (3, 110) [] fed-Within
      (omega arith, omega arith, omega arith) refl (omega arith) (omega arith)

abbrev fed_layers : List (CoinPricePointMap ℕ ℕ ℕ)
fed_layers = ((1, fed_prices) ∷ (2, (11, (4, 70) ∷ []) ∷ []) ∷ []) ∷ []

abbrev latest_prices : List (ℕ × MedianPriceDetail)
latest_prices = (3, record { price = 55; last_feed_height = 7 }) ∷ []

-- the asset of the pair 2 has no permission
abbrev check_pair : ℕ → Option Bool
check_pair p = some (if same p 2 then false else true)

calc_details_lem_example :
    (details : List (ℕ × MedianPriceDetail)) × (calc_median_price_details
        (some 5)
        latest_prices
        (some (1 ∷ 2 ∷ 3 ∷ []))
        check_pair
        11
        fed_layers
      ≡ some details)
    × ((p : ℕ)
        → find p details ≡ (
            if has_pair p (1 ∷ 2 ∷ 3 ∷ []) && allows (check_pair p)
            then unless_zero (get_median_price 11 5 latest_prices fed_layers p)
            else none))
calc_details_lem_example =
    calc_details_lem 5 11 latest_prices (1 ∷ 2 ∷ 3 ∷ []) check_pair fed_layers refl

abbrev fed_block : FeedBlock ℕ ℕ
fed_block = record {
  height = 11;
  vptx = other_tx ∷ price_feed 3 ((1, 110) ∷ []) ∷ price_feed 4 ((2, 70) ∷ []) ∷ other_tx ∷ [];
}

abbrev fed_cache : CoinPricePointMap ℕ ℕ ℕ
fed_cache = (3, (10, (3, 55) ∷ []) ∷ []) ∷ []

delete_block_lem_example :
    find 11 (get_block_user_prices 1 (delete_block_from_cache fed_block fed_cache ∷ fed_layers)) ≡ (
      if (feeds 1 (rest_of fed_block.vptx) || is_some (find 1 fed_cache)) && same {K = ℕ} 11 11
      then none
      else find 11 (get_block_user_prices 1 (fed_cache ∷ fed_layers)))
delete_block_lem_example = delete_block_lem fed_block fed_cache fed_layers 1 11
