-- ===== src/Tests/TxTests.antt =====
-- A cache of transaction ids over two others.
use inery_persistent_memory.Base.{ℕ, ◌≡◌, refl, true, false, not, ◌&&◌, ◌||◌, [], ◌∷◌}
use inery_persistent_memory.DbUtil.KeyOrder.{uint_key}
use inery_persistent_memory.LevelDb.Wrapper.{ok}
use inery_persistent_memory.TxCache.{
  TxIdMap, TxCache, has_tx, flush_txs, add_block_tx, remove_block_tx,
}
use inery_persistent_memory.TxCache.Contract.{flush_txs_lem, block_tx_lem, contains_tx}

abbrev middle_ids : TxIdMap ℕ
middle_ids = (4, true) ∷ (5, true) ∷ []

abbrev bottom_ids : TxIdMap ℕ
bottom_ids = (1, true) ∷ (6, true) ∷ []

abbrev tx_cache : TxCache ℕ
tx_cache = record { txids = (1, false) ∷ (2, true) ∷ []; bases = middle_ids ∷ bottom_ids ∷ [] }

flush_txs_lem_example :
    (base : TxIdMap ℕ) × (flush_txs tx_cache
      ≡ ok (record { txids = []; bases = base ∷ bottom_ids ∷ [] }))
    × ((t : ℕ)
        → (has_tx t (record { txids = []; bases = base ∷ bottom_ids ∷ [] }) ≡ has_tx t tx_cache)
          × (has_tx t (record { txids = base; bases = bottom_ids ∷ [] }) ≡ has_tx t tx_cache))
flush_txs_lem_example =
    flush_txs_lem tx_cache middle_ids (bottom_ids ∷ []) refl ((refl, tt), (tt, tt))

abbrev hash_of : ℕ → ℕ
hash_of n = n

block_tx_lem_example :
    ((add_block_tx hash_of (5 ∷ 7 ∷ []) tx_cache).0 ≡ true)
    × ((remove_block_tx hash_of (5 ∷ 7 ∷ []) tx_cache).0 ≡ true)
    × (has_tx 5 (add_block_tx hash_of (5 ∷ 7 ∷ []) tx_cache).1
        ≡ (contains_tx hash_of 5 (5 ∷ 7 ∷ []) || has_tx 5 tx_cache))
    × (has_tx 5 (remove_block_tx hash_of (5 ∷ 7 ∷ []) tx_cache).1
        ≡ (not (contains_tx hash_of 5 (5 ∷ 7 ∷ [])) && has_tx 5 tx_cache))
    × ((add_block_tx hash_of (5 ∷ 7 ∷ []) tx_cache).1.bases ≡ tx_cache.bases)
    × ((remove_block_tx hash_of (5 ∷ 7 ∷ []) tx_cache).1.bases ≡ tx_cache.bases)
block_tx_lem_example = block_tx_lem hash_of (5 ∷ 7 ∷ []) tx_cache 5
