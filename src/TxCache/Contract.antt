-- ===== src/TxCache/Contract.antt =====
-- `HasTx` after the calls of `IneryTxMemCache`.
use inery_persistent_memory.Base.{
  ◌≡◌, refl, ◌∙◌, Bool, true, false, not, ◌&&◌, ◌||◌, Option, none, some, List, [], ◌∷◌,
  if◌then◌else◌, arith, Bool-cases, inl, inr,
}
use inery_persistent_memory.StdMap.{KeyOps, find, same, put_at, erase_at}
use inery_persistent_memory.StdMap.Find.{same→eq, find-put_at, find-erase_at}
use inery_persistent_memory.StdMap.Order.{Sorted, find-AllAbove}
use inery_persistent_memory.LevelDb.Wrapper.{ok}
use inery_persistent_memory.TxCache.{
  TxIdMap, TxCache, has_tx_in, has_tx, mark_removed, write_tx, batch_write_txs, flush_txs, add_txs,
  remove_txs, add_block_tx, remove_block_tx,
}

-- the entry of a map, or else what the bases say
abbrev or_below : Option Bool → Bool → Bool
or_below (some b) below = b
or_below none below = below

module _ {T : Type 0} ⦃ko : KeyOps T⦄ where
  has_tx_in-cons :
      (t : T) (m : TxIdMap T) (bases : List (TxIdMap T))
      → has_tx_in t (m ∷ bases) ≡ or_below (find t m) (has_tx_in t bases)
  unfolding has_tx_in
  has_tx_in-cons t m bases =
      elim (find t m)
        as (λ o.
          (elim o [ some b ↦ b | none ↦ has_tx_in t bases ]) ≡ or_below o (has_tx_in t bases)) [
            | none ↦ refl
            | some b ↦ refl
          ]

  has_tx_in-put_at :
      (t j : T) (b : Bool) (m : TxIdMap T) (bases : List (TxIdMap T))
      → has_tx_in t (put_at j b m ∷ bases) ≡ (if same t j then b else has_tx_in t (m ∷ bases))
  has_tx_in-put_at t j b m bases =
      has_tx_in-cons t (put_at j b m) bases
      ∙ rw (find-put_at j t b m, has_tx_in-cons t m bases)
          (elim (Bool-cases (same t j)) [ inl e ↦ rw e refl | inr e ↦ rw e refl ])

  has_tx_in-mark_removed :
      (t j : T) (bases : List (TxIdMap T)) (m : TxIdMap T)
      → has_tx_in t (mark_removed j bases m ∷ bases)
        ≡ (if same t j then false else has_tx_in t (m ∷ bases))
  unfolding mark_removed
  has_tx_in-mark_removed t j (b ∷ bases) m = has_tx_in-put_at t j false m (b ∷ bases)
  has_tx_in-mark_removed t j [] m =
      has_tx_in-cons t (erase_at j m) []
      ∙ rw (find-erase_at j t m, has_tx_in-cons t m [])
          (elim (Bool-cases (same t j)) [
            | inl e ↦ rw e (unfold has_tx_in in refl)
            | inr e ↦ rw e refl
          ])

  has_tx_in-write_tx :
      (t j : T) (b : Bool) (bases : List (TxIdMap T)) (m : TxIdMap T)
      → has_tx_in t (write_tx j b bases m ∷ bases)
        ≡ (if same t j then b else has_tx_in t (m ∷ bases))
  unfolding write_tx
  has_tx_in-write_tx t j true bases m = has_tx_in-put_at t j true m bases
  has_tx_in-write_tx t j false bases m = has_tx_in-mark_removed t j bases m

  has_tx_in-batch_write :
      (t : T) (xs : TxIdMap T) (bases : List (TxIdMap T)) (m : TxIdMap T)
      → Sorted xs
      → has_tx_in t (batch_write_txs xs bases m ∷ bases)
        ≡ or_below (find t xs) (has_tx_in t (m ∷ bases))
  unfolding batch_write_txs find
  has_tx_in-batch_write t [] bases m s = refl
  has_tx_in-batch_write t (x ∷ xs) bases m s =
      has_tx_in-batch_write t xs bases (write_tx x.0 x.1 bases m) s.1
      ∙ rw (has_tx_in-write_tx t x.0 x.1 bases m) (elim (Bool-cases (same t x.0)) [
        | inl e ↦
            let gone : find t xs ≡ none = rw (same→eq t x.0 e) (find-AllAbove x.0 xs s.0) in
            rw (e, gone) refl
        | inr e ↦ rw e refl
      ])

  -- `Flush` of a cache over a base, with its map in order, empties the cache and leaves the caches
  -- below the base, and every transaction is found as before, in the cache as in the base.
  pub flush_txs_lem :
      (c : TxCache T) (base : TxIdMap T) (bases : List (TxIdMap T))
      → c.bases ≡ base ∷ bases
      → Sorted c.txids
      → (base' : TxIdMap T) × (flush_txs c ≡ ok (record { txids = []; bases = base' ∷ bases }))
        × ((t : T)
            → (has_tx t (record { txids = []; bases = base' ∷ bases }) ≡ has_tx t c)
              × (has_tx t (record { txids = base'; bases = bases }) ≡ has_tx t c))
  unfolding flush_txs has_tx find
  flush_txs_lem c base bases h s = (
    batch_write_txs c.txids bases base,
    rw (h, flush_txs) refl,
    λ t.
        let below = has_tx_in-batch_write t c.txids bases base s in
        (
          has_tx_in-cons t [] (batch_write_txs c.txids bases base ∷ bases)
              ∙ below
              ∙ rw (has_tx_in-cons t c.txids c.bases, h) refl,
          below ∙ rw (has_tx_in-cons t c.txids c.bases, h) refl,
        ),
  )

-- whether one of the transactions has the id
abbrev pub contains_tx : {B T : Type 0} ⦃ko : KeyOps T⦄ → (B → T) → T → List B → Bool
contains_tx get_hash t [] = false
contains_tx get_hash t (tx ∷ txs) = same t (get_hash tx) || contains_tx get_hash t txs

module _ {B T : Type 0} ⦃ko : KeyOps T⦄ (get_hash : B → T) where
  has_tx_in-add_txs :
      (t : T) (txs : List B) (m : TxIdMap T) (bases : List (TxIdMap T))
      → has_tx_in t (add_txs get_hash txs m ∷ bases)
        ≡ (contains_tx get_hash t txs || has_tx_in t (m ∷ bases))
  unfolding add_txs
  has_tx_in-add_txs t [] m bases = refl
  has_tx_in-add_txs t (tx ∷ txs) m bases =
      has_tx_in-add_txs t txs (put_at (get_hash tx) true m) bases
      ∙ rw (has_tx_in-put_at t (get_hash tx) true m bases) (ground arith)

  has_tx_in-remove_txs :
      (t : T) (txs : List B) (bases : List (TxIdMap T)) (m : TxIdMap T)
      → has_tx_in t (remove_txs get_hash txs bases m ∷ bases)
        ≡ (not (contains_tx get_hash t txs) && has_tx_in t (m ∷ bases))
  unfolding remove_txs
  has_tx_in-remove_txs t [] bases m = refl
  has_tx_in-remove_txs t (tx ∷ txs) bases m =
      has_tx_in-remove_txs t txs bases (mark_removed (get_hash tx) bases m)
      ∙ rw (has_tx_in-mark_removed t (get_hash tx) bases m) (ground arith)

  -- `AddBlockTx` and `RemoveBlockTx` return true. After the first, the transactions that `HasTx`
  -- finds are those of the block and those it found before; after the second, those it found before
  -- but the block's. Neither changes the caches below.
  pub block_tx_lem :
      (txs : List B) (c : TxCache T) (t : T)
      → ((add_block_tx get_hash txs c).0 ≡ true)
        × ((remove_block_tx get_hash txs c).0 ≡ true)
        × (has_tx t (add_block_tx get_hash txs c).1 ≡ (contains_tx get_hash t txs || has_tx t c))
        × (has_tx t (remove_block_tx get_hash txs c).1
            ≡ (not (contains_tx get_hash t txs) && has_tx t c))
        × ((add_block_tx get_hash txs c).1.bases ≡ c.bases)
        × ((remove_block_tx get_hash txs c).1.bases ≡ c.bases)
  unfolding add_block_tx remove_block_tx has_tx
  block_tx_lem txs c t = (
    refl,
    refl,
    has_tx_in-add_txs t txs c.txids c.bases,
    has_tx_in-remove_txs t txs c.bases c.txids,
    refl,
    refl,
  )
