-- ===== src/TxCache.antt =====
-- persistence/txdb.h and .cpp: `IneryTxMemCache`, the transaction ids of recent blocks in memory.
pub mod Contract
use inery_persistent_memory.Base.{ℕ, Bool, true, false, none, some, List, [], ◌∷◌, if◌then◌else◌}
use inery_persistent_memory.StdMap.{KeyOps, find, put_at, erase_at}
use inery_persistent_memory.LevelDb.Wrapper.{Outcome, ok, throws, assertion_failed}
use inery_persistent_memory.DbIterator.Delivery.{length}

-- TxIdMap: whether the transaction with an id exists
abbrev pub TxIdMap : Type 0 → Type 0
TxIdMap T = List (T × Bool)

-- A cache object with the maps of the caches that `pBase` leads to, the nearest first.
pub record TxCache (T : Type 0) : Type 0 where
  pub txids : TxIdMap T
  pub bases : List (TxIdMap T)

module _ {T : Type 0} ⦃ko : KeyOps T⦄ where
  unfoldable pub has_tx_in : T → List (TxIdMap T) → Bool
  has_tx_in txid [] = false
  has_tx_in txid (m ∷ bases) = elim (find txid m) [ some b ↦ b | none ↦ has_tx_in txid bases ]

  -- HasTx
  unfoldable pub has_tx : T → TxCache T → Bool
  has_tx txid c = has_tx_in txid (c.txids ∷ c.bases)

  -- the assignments of one id: with a base, and without one, where a missing id says the same
  unfoldable pub mark_removed : T → List (TxIdMap T) → TxIdMap T → TxIdMap T
  mark_removed txid [] m = erase_at txid m
  mark_removed txid (_ ∷ _) m = put_at txid false m

  unfoldable pub write_tx : T → Bool → List (TxIdMap T) → TxIdMap T → TxIdMap T
  write_tx txid true bases m = put_at txid true m
  write_tx txid false bases m = mark_removed txid bases m

  -- BatchWrite, into the first map, with the bases below it
  unfoldable pub batch_write_txs : TxIdMap T → List (TxIdMap T) → TxIdMap T → TxIdMap T
  batch_write_txs [] bases m = m
  batch_write_txs (x ∷ xs) bases m = batch_write_txs xs bases (write_tx x.0 x.1 bases m)

  -- Flush
  unfoldable pub flush_txs : TxCache T → Outcome (TxCache T)
  flush_txs c = elim c.bases [
    | [] ↦ throws assertion_failed
    | m ∷ bases ↦ ok (record { txids = []; bases = batch_write_txs c.txids bases m ∷ bases })
  ]

module _ {T : Type 0} where
  -- Clear and GetSize
  unfoldable pub clear_txs : TxCache T → TxCache T
  clear_txs c = record c { txids = [] }

  unfoldable pub get_tx_count : TxCache T → ℕ
  get_tx_count c = length c.txids

module _ {B T : Type 0} ⦃ko : KeyOps T⦄ (get_hash : B → T) where
  -- the loops of `AddBlockTx` and `RemoveBlockTx` over the transactions of a block
  unfoldable pub add_txs : List B → TxIdMap T → TxIdMap T
  add_txs [] m = m
  add_txs (tx ∷ txs) m = add_txs txs (put_at (get_hash tx) true m)

  unfoldable pub remove_txs : List B → List (TxIdMap T) → TxIdMap T → TxIdMap T
  remove_txs [] bases m = m
  remove_txs (tx ∷ txs) bases m = remove_txs txs bases (mark_removed (get_hash tx) bases m)

  unfoldable pub add_block_tx : List B → TxCache T → Bool × TxCache T
  add_block_tx txs c = (true, record c { txids = add_txs txs c.txids })

  unfoldable pub remove_block_tx : List B → TxCache T → Bool × TxCache T
  remove_block_tx txs c = (true, record c { txids = remove_txs txs c.bases c.txids })
