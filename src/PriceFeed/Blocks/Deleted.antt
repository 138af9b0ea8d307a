-- ===== src/PriceFeed/Blocks/Deleted.antt =====
-- `DeleteBlockFromCache`: which prices are gone.
use inery_persistent_memory.Base.{
  ℕ, ◌≡◌, refl, ap, sym, ◌∙◌, Bool, true, false, ◌&&◌, ◌||◌, Option, none, some, List, [], ◌∷◌,
  if◌then◌else◌, arith, Bool-cases, Option-cases, inl, inr,
}
use inery_persistent_memory.StdMap.{KeyOps, find, same, emplace, put_at}
use inery_persistent_memory.StdMap.Find.{same→eq, find-insert, find-put_at}
use inery_persistent_memory.DbUtil.KeyOrder.{uint_key}
use inery_persistent_memory.DbIterator.{rest_of}
use inery_persistent_memory.DbIterator.Entries.{first_of}
use inery_persistent_memory.PriceFeed.{
  UserPrices, CoinPricePointMap, entries_at, delete_user_price, get_block_user_prices,
}
use inery_persistent_memory.PriceFeed.Prices.{entry_of, flat, decided, get_block_user_prices_lem}
use inery_persistent_memory.PriceFeed.Flush.{entries_at-put_at, entries_at-cons}
use inery_persistent_memory.PriceFeed.Blocks.{
  BlockTx, price_feed, other_tx, FeedBlock, insert_pairs, deleting_set, delete_pairs, delete_height,
  delete_block_from_cache,
}

abbrev pub is_some : {A : Type 0} → Option A → Bool
is_some none = false
is_some (some a) = true

nested :
    {A : Type 0} (a b c : Bool) (o : Option (List A))
    → (if b && c then some [] else (if a && c then some [] else o))
      ≡ (if (a || b) && c then some [] else o)
nested a b c o = ground arith

decided_unless :
    {R : Type 0} (b : Bool) (o : Option (UserPrices R)) (below : Option (Option (UserPrices R)))
    → flat (first_of (entry_of (if b then some [] else o)) below)
      ≡ (if b then none else flat (first_of (entry_of o) below))
decided_unless true o below = refl
decided_unless false o below = refl

module _ {P : Type 0} ⦃po : KeyOps P⦄ where
  holds-cons :
      (p : P) (x : P × Unit {0}) (s : List (P × Unit {0}))
      → (same p x.0 || is_some (find p s)) ≡ is_some (find p (x ∷ s))
  unfolding find
  holds-cons p x s = elim (Bool-cases (same p x.0)) [ inl e ↦ rw e refl | inr e ↦ rw e refl ]

  abbrev pub has_point : P → List (P × ℕ) → Bool
  has_point p [] = false
  has_point p (x ∷ points) = same p x.0 || has_point p points

  holds_emplaced :
      (p q : P) (s : List (P × Unit {0}))
      → is_some (find p (emplace q tt s).0) ≡ (same p q || is_some (find p s))
  unfolding emplace
  holds_emplaced p q s = elim (Option-cases (find q s)) [
    | inl e ↦
        rw (e, emplace)
          (ap is_some (find-insert q p tt s e)
            ∙ elim (Bool-cases (same p q)) [ inl h ↦ rw h refl | inr h ↦ rw h refl ])
    | inr (u, e) ↦
        rw (e, emplace)
          (elim (Bool-cases (same p q)) [
            | inl h ↦ rw h (rw (same→eq p q h) (rw e refl))
            | inr h ↦ rw h refl
          ])
  ]

  holds_points :
      (p : P) (points : List (P × ℕ)) (s : List (P × Unit {0}))
      → is_some (find p (insert_pairs points s)) ≡ (has_point p points || is_some (find p s))
  unfolding insert_pairs
  holds_points p [] s = refl
  holds_points p (x ∷ points) s =
      holds_points p points (emplace x.0 tt s).0 ∙ rw (holds_emplaced p x.0 s) (ground arith)

module _ {P R : Type 0} ⦃po : KeyOps P⦄ where
  -- whether one of the price feeds at the head of the transactions is about the pair
  abbrev pub feeds : P → List (BlockTx P R) → Bool
  feeds p [] = false
  feeds p (other_tx ∷ txs) = false
  feeds p (price_feed user points ∷ txs) = has_point p points || feeds p txs

  holds_feeds :
      (p : P) (txs : List (BlockTx P R)) (s : List (P × Unit {0}))
      → is_some (find p (deleting_set txs s)) ≡ (feeds p txs || is_some (find p s))
  unfolding deleting_set
  holds_feeds p [] s = refl
  holds_feeds p (other_tx ∷ txs) s = refl
  holds_feeds p (price_feed user points ∷ txs) s =
      holds_feeds p txs (insert_pairs points s) ∙ rw (holds_points p points s) (ground arith)

  -- what a layer has for the pair at a height
  abbrev at : P → ℕ → CoinPricePointMap P ℕ R → Option (List (R × ℕ))
  at p h m = find h (entries_at p m)

  at-deleted :
      (p q : P) (h height : ℕ) (m : CoinPricePointMap P ℕ R)
      → at p h (put_at q (delete_user_price height (entries_at q m)) m)
        ≡ (if same p q && same h height then some [] else at p h m)
  unfolding delete_user_price
  at-deleted p q h height m =
      ap (find h) (entries_at-put_at q p (delete_user_price height (entries_at q m)) m)
      ∙ elim (Bool-cases (same p q)) [
        | inl s ↦ rw s (rw (same→eq p q s) (find-put_at height h [] (entries_at q m)))
        | inr s ↦ rw s refl
      ]

  at-delete_pairs :
      (p : P) (h height : ℕ) (pairs : List (P × Unit {0})) (m : CoinPricePointMap P ℕ R)
      → at p h (delete_pairs height pairs m)
        ≡ (if is_some (find p pairs) && same h height then some [] else at p h m)
  unfolding delete_pairs find
  at-delete_pairs p h height [] m = refl
  at-delete_pairs p h height (x ∷ pairs) m =
      at-delete_pairs p h height pairs (put_at x.0 (delete_user_price height (entries_at x.0 m)) m)
      ∙ rw (at-deleted p x.0 h height m) (
          nested (same p x.0) (is_some (find p pairs)) (same h height) (at p h m)
          ∙ ap (λ b. if b && same h height then some [] else at p h m) (holds-cons p x pairs))

  holds-delete_pairs :
      (p : P) (height : ℕ) (pairs : List (P × Unit {0})) (m : CoinPricePointMap P ℕ R)
      → is_some (find p (delete_pairs height pairs m))
        ≡ (is_some (find p pairs) || is_some (find p m))
  unfolding delete_pairs find
  holds-delete_pairs p height [] m = refl
  holds-delete_pairs p height (x ∷ pairs) m =
      let l = delete_user_price height (entries_at x.0 m) in
      holds-delete_pairs p height pairs (put_at x.0 l m)
      ∙ rw (find-put_at x.0 p l m)
          (elim (Bool-cases (same p x.0)) [ inl s ↦ rw s (ground arith) | inr s ↦ rw s refl ])

  at-delete_height :
      (p : P) (h height : ℕ) (m : CoinPricePointMap P ℕ R)
      → at p h (delete_height height m)
        ≡ (if is_some (find p m) && same h height then some [] else at p h m)
  unfolding delete_height find delete_user_price
  at-delete_height p h height [] = refl
  at-delete_height p h height (x ∷ m) =
      ap (find h) (entries_at-cons p (x.0, delete_user_price height x.1) (delete_height height m))
      ∙ elim (Bool-cases (same p x.0)) [
        | inl s ↦ rw s (
            find-put_at height h [] x.1
            ∙ ap (λ o. if same h height then some [] else o)
                (sym (ap (find h) (entries_at-cons p x m) ∙ rw s refl)))
        | inr s ↦ rw s (
            at-delete_height p h height m
            ∙ ap (λ o. if is_some (find p m) && same h height then some [] else o)
                (sym (ap (find h) (entries_at-cons p x m) ∙ rw s refl)))
      ]

  at-delete_block :
      (block : FeedBlock P R) (m : CoinPricePointMap P ℕ R) (p : P) (h : ℕ)
      → at p h (delete_block_from_cache block m) ≡ (
          if (feeds p (rest_of block.vptx) || is_some (find p m)) && same h block.height
          then some []
          else at p h m)
  unfolding delete_block_from_cache find
  at-delete_block block m p h =
      let pairs : List (P × Unit {0}) = deleting_set (rest_of block.vptx) [] in
      let fed = holds_feeds p (rest_of block.vptx) [] in
      at-delete_height p h block.height (delete_pairs block.height pairs m)
      ∙ rw
          (holds-delete_pairs p block.height pairs m, at-delete_pairs p h block.height pairs m, fed)
          (ground arith)

  -- `DeleteBlockFromCache` over any caches below: afterwards `GetBlockUserPrices` finds no prices
  -- at the height of the block, for the pairs of the price feeds that follow its first transaction
  -- and for those that the cache has an entry of; all else it finds as before.
  pub delete_block_lem :
      (block : FeedBlock P R) (m : CoinPricePointMap P ℕ R) (bases : List (CoinPricePointMap P ℕ R))
      (p : P) (h : ℕ)
      → find h (get_block_user_prices p (delete_block_from_cache block m ∷ bases)) ≡ (
          if (feeds p (rest_of block.vptx) || is_some (find p m)) && same h block.height
          then none
          else find h (get_block_user_prices p (m ∷ bases)))
  delete_block_lem block m bases p h =
      get_block_user_prices_lem p h (delete_block_from_cache block m ∷ bases)
      ∙ ap (λ o. flat (first_of (entry_of o) (decided p h bases))) (at-delete_block block m p h)
      ∙ decided_unless ((feeds p (rest_of block.vptx) || is_some (find p m)) && same h block.height)
          (at p h m) (decided p h bases)
      ∙ ap
          (λ o.
            if (feeds p (rest_of block.vptx) || is_some (find p m)) && same h block.height
            then none
            else o)
          (sym (get_block_user_prices_lem p h (m ∷ bases)))
