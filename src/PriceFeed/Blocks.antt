-- ===== src/PriceFeed/Blocks.antt =====
-- The blocks of `IneryPricePointMemCache`, persistence/pricefeeddb.cpp: the prices of a new block are
-- there already, those of the block that leaves the window are deleted, and the other way round
-- where a block is undone.
pub mod Deleted
use inery_persistent_memory.Base.{
  ℕ, zero, suc, ◌+◌, ◌%◌, Bool, true, false, Option, none, some, List, [], ◌∷◌, if◌then◌else◌, ltb,
  u32_mod,
}
use inery_persistent_memory.StdMap.{KeyOps, emplace, put_at}
use inery_persistent_memory.DbUtil.KeyOrder.{uint_key}
use inery_persistent_memory.DbIterator.{rest_of}
use inery_persistent_memory.DbIterator.Delivery.{length}
use inery_persistent_memory.PriceFeed.{CoinPricePointMap, entries_at, delete_user_price, add_price}

-- A transaction of a block: a price feed with its user and its points, or another.
pub data BlockTx (P R : Type 0) : Type 0 where
  price_feed : R → List (P × ℕ) → BlockTx P R
  other_tx : BlockTx P R

-- GetHeight() and vptx of a block
pub record FeedBlock (P R : Type 0) : Type 0 where
  pub height : ℕ
  pub vptx : List (BlockTx P R)

module _ {P R : Type 0} ⦃po : KeyOps P⦄ ⦃ro : KeyOps R⦄ where
  -- the loop of `AddPriceByBlock`; what `AddPrice` returns is not looked at
  unfoldable pub add_feeds :
      ℕ
      → List (BlockTx P R)
      → CoinPricePointMap P ℕ R
      → List (CoinPricePointMap P ℕ R)
      → CoinPricePointMap P ℕ R
  add_feeds height [] m bases = m
  add_feeds height (other_tx ∷ txs) m bases = m
  add_feeds height (price_feed user points ∷ txs) m bases =
      add_feeds height txs (add_price height user points m bases).1 bases

  -- AddPriceByBlock
  unfoldable pub add_price_by_block :
      FeedBlock P R
      → CoinPricePointMap P ℕ R
      → List (CoinPricePointMap P ℕ R)
      → CoinPricePointMap P ℕ R
  add_price_by_block block m bases =
      if ltb (length block.vptx) 3 then m else add_feeds block.height (rest_of block.vptx) m bases

module _ {P : Type 0} ⦃po : KeyOps P⦄ where
  -- the pairs of one price feed are put into `deletingSet`
  unfoldable pub insert_pairs : List (P × ℕ) → List (P × Unit {0}) → List (P × Unit {0})
  insert_pairs [] pairs = pairs
  insert_pairs (x ∷ points) pairs = insert_pairs points (emplace x.0 tt pairs).0

module _ {P R : Type 0} ⦃po : KeyOps P⦄ where
  unfoldable pub deleting_set : List (BlockTx P R) → List (P × Unit {0}) → List (P × Unit {0})
  deleting_set [] pairs = pairs
  deleting_set (other_tx ∷ txs) pairs = pairs
  deleting_set (price_feed user points ∷ txs) pairs = deleting_set txs (insert_pairs points pairs)

  -- the loop over `deletingSet`
  unfoldable pub delete_pairs :
      ℕ → List (P × Unit {0}) → CoinPricePointMap P ℕ R → CoinPricePointMap P ℕ R
  delete_pairs height [] m = m
  delete_pairs height (x ∷ pairs) m =
      delete_pairs height pairs (put_at x.0 (delete_user_price height (entries_at x.0 m)) m)

module _ {P R : Type 0} where
  -- the loop over the pairs of the cache
  unfoldable pub delete_height : ℕ → CoinPricePointMap P ℕ R → CoinPricePointMap P ℕ R
  delete_height height [] = []
  delete_height height (x ∷ m) = (x.0, delete_user_price height x.1) ∷ delete_height height m

module _ {P R : Type 0} ⦃po : KeyOps P⦄ where
  -- DeleteBlockFromCache
  unfoldable pub delete_block_from_cache :
      FeedBlock P R → CoinPricePointMap P ℕ R → CoinPricePointMap P ℕ R
  delete_block_from_cache block m =
      delete_height block.height
        (delete_pairs block.height (deleting_set (rest_of block.vptx) []) m)

-- A chain of block indexes, the tip first: `pprev` of an index is the next of the list, and the null
-- pointer is the end. What is left after n steps back:
unfoldable pub ancestors : {I : Type 0} → ℕ → List I → List I
ancestors zero chain = chain
ancestors (suc n) [] = []
ancestors (suc n) (i ∷ chain) = ancestors n chain

-- `int n = slideWindow; while (n-- > 0)`: how often the loop runs
unfoldable pub int_steps : ℕ → ℕ
int_steps slide_window = let n = slide_window % u32_mod in if ltb n 2147483648 then n else 0

-- the first of a chain, read from the disk; `none` is a null pointer or a read that failed
unfoldable pub read_first : {I B : Type 0} → (I → Option B) → List I → Option B
read_first read [] = none
read_first read (i ∷ chain) = read i

module _ {P R I : Type 0} ⦃po : KeyOps P⦄ ⦃ro : KeyOps R⦄ (read : I → Option (FeedBlock P R)) where
  -- the loop of `ReleadBlocks`: false where a block could not be read
  unfoldable pub reload_loop :
      ℕ
      → ℕ
      → List I
      → CoinPricePointMap P ℕ R
      → List (CoinPricePointMap P ℕ R)
      → Bool × CoinPricePointMap P ℕ R
  reload_loop slide_window count [] m bases = (true, m)
  reload_loop slide_window count (i ∷ chain) m bases = elim (ltb count slide_window) [
    | false ↦ (true, m)
    | true ↦ elim (read i) [
      | none ↦ (false, m)
      | some block ↦
          reload_loop slide_window ((count + 1) % u32_mod) chain (add_price_by_block block m bases)
            bases
    ]
  ]

  -- ReleadBlocks, with what `ReadSlideWindow` read
  unfoldable pub reload_blocks :
      Option ℕ
      → List I
      → CoinPricePointMap P ℕ R
      → List (CoinPricePointMap P ℕ R)
      → Bool × CoinPricePointMap P ℕ R
  reload_blocks none chain m bases = (false, m)
  reload_blocks (some window) chain m bases = reload_loop window 0 chain m bases

module _ {P R I : Type 0} ⦃po : KeyOps P⦄ (read : I → Option (FeedBlock P R)) where
  -- PushBlock, for a tip of the height
  unfoldable pub push_block :
      Option ℕ → ℕ → List I → CoinPricePointMap P ℕ R → Bool × CoinPricePointMap P ℕ R
  push_block none tip_height chain m = (false, m)
  push_block (some window) tip_height chain m =
      if ltb (window % u32_mod) tip_height
      then elim (read_first read (ancestors (int_steps window) chain)) [
        | none ↦ (false, m)
        | some block ↦ (true, delete_block_from_cache block m)
      ]
      else (true, m)

module _ {P R I : Type 0} ⦃po : KeyOps P⦄ ⦃ro : KeyOps R⦄ (read : I → Option (FeedBlock P R)) where
  -- UndoBlock; a chain that ends before the block that comes back is a null pointer that the code
  -- reads through, here a read that fails
  unfoldable pub undo_block :
      Option ℕ
      → ℕ
      → List I
      → FeedBlock P R
      → CoinPricePointMap P ℕ R
      → List (CoinPricePointMap P ℕ R)
      → Bool × CoinPricePointMap P ℕ R
  undo_block none tip_height chain block m bases = (false, m)
  undo_block (some window) tip_height chain block m bases =
      let deleted = delete_block_from_cache block m in
      if ltb (window % u32_mod) tip_height
      then elim (read_first read (ancestors (int_steps window) chain)) [
        | none ↦ (false, deleted)
        | some back ↦ (true, add_price_by_block back deleted bases)
      ]
      else (true, deleted)
