-- ===== src/PriceFeed/Median/Window.antt =====
-- `ComputeBlockMedianPrice`: which prices count, and where the median lies.
use inery_persistent_memory.Base.{
  ℕ, zero, suc, ◌+◌, ◌-◌, ◌≤◌, ◌<◌, ◌≡◌, refl, ap, ◌∙◌, subst, true, some, List, [], ◌∷◌, ◌++◌, ltb,
  ◌==◌, arith, Bool-cases, Option-cases, inl, inr, u32_mod,
}
use inery_persistent_memory.StdMap.{find}
use inery_persistent_memory.DbUtil.KeyOrder.{uint_key}
use inery_persistent_memory.DbIterator.Delivery.{length}
use inery_persistent_memory.PriceFeed.{UserPrices, BlockUserPriceMap}
use inery_persistent_memory.PriceFeed.Median.{
  Collected, compute_median_number, push_prices, window_step, window_loop,
  compute_block_median_price,
}
use inery_persistent_memory.PriceFeed.Median.Sort.{Within}
use inery_persistent_memory.PriceFeed.Median.Numbers.{median-Within}

-- the heights that are in the window of a block
abbrev pub InWindow : ℕ → ℕ → ℕ → Type 0
InWindow block_height slide_window h =
    (block_height < h + slide_window) × (0 < h) × (h ≤ block_height)

Within-snoc :
    (lo hi x : ℕ) (l : List ℕ) → lo ≤ x → x ≤ hi → Within lo hi l → Within lo hi (l ++ x ∷ [])
Within-snoc lo hi x [] a b w = (a, b, tt)
Within-snoc lo hi x (y ∷ l) a b w = (w.0, w.1, Within-snoc lo hi x l a b w.2)

length-snoc : (x : ℕ) (l : List ℕ) → length (l ++ x ∷ []) ≡ suc (length l)
length-snoc x [] = refl
length-snoc x (y ∷ l) = ap suc (length-snoc x l)

some_median-Within :
    (lo hi : ℕ) (l : List ℕ)
    → Within lo hi l
    → 0 < length l
    → hi < 9223372036854775808
    → length l < u32_mod
    → (lo ≤ compute_median_number l) × (compute_median_number l ≤ hi)
some_median-Within lo hi [] w p h b = absurd (omega arith)
some_median-Within lo hi (x ∷ l) w p h b = median-Within lo hi x l w h b

module _ {R : Type 0} where
  abbrev pub fed : UserPrices R → List ℕ
  fed [] = []
  fed (x ∷ xs) = x.1 ∷ fed xs

  step-same :
      (block_height h : ℕ) (m m' : BlockUserPriceMap ℕ R) (w : Collected)
      → find h m ≡ find h m'
      → window_step block_height h m w ≡ window_step block_height h m' w
  unfolding window_step
  step-same block_height h m m' w e = rw (e, window_step) refl

  loop-same :
      (begin block_height h : ℕ) (m m' : BlockUserPriceMap ℕ R) (w : Collected)
      → ((j : ℕ) → begin < j → j ≤ h → find j m ≡ find j m')
      → window_loop begin block_height h m w ≡ window_loop begin block_height h m' w
  unfolding window_loop
  loop-same begin block_height zero m m' w e = refl
  loop-same begin block_height (suc h) m m' w e = elim (Bool-cases (ltb begin (suc h))) [
    | inr b ↦ rw b refl
    | inl b ↦
        let above : begin < suc h = ground arith in
        rw b (
          ap (window_loop begin block_height h m)
            (step-same block_height (suc h) m m' w (e (suc h) above (omega arith)))
          ∙ loop-same begin block_height h m m' (window_step block_height (suc h) m' w)
              (λ j p q. e j p (omega arith)))
  ]

  -- The median price of a block depends on the prices at the heights of its window only.
  pub window_only :
      (block_height slide_window : ℕ) (m m' : BlockUserPriceMap ℕ R)
      → ((h : ℕ) → InWindow block_height slide_window h → find h m ≡ find h m')
      → compute_block_median_price block_height slide_window m
        ≡ compute_block_median_price block_height slide_window m'
  unfolding compute_block_median_price
  window_only block_height slide_window m m' e =
      ap
        (λ w. record {
          price = compute_median_number w.prices;
          last_feed_height = w.last_feed_height;
        })
        (loop-same (block_height - slide_window) block_height block_height m m'
          (record { prices = []; last_feed_height = 0 })
          (λ j p q. e j (omega arith, omega arith, q)))

  push-Within :
      (lo hi : ℕ) (ps : UserPrices R) (l : List ℕ)
      → Within lo hi (fed ps)
      → Within lo hi l
      → Within lo hi (push_prices ps l)
  unfolding push_prices
  push-Within lo hi [] l a b = b
  push-Within lo hi (x ∷ xs) l a b =
      push-Within lo hi xs (l ++ x.1 ∷ []) a.2 (Within-snoc lo hi x.1 l a.0 a.1 b)

  length-push : (ps : UserPrices R) (l : List ℕ) → length (push_prices ps l) ≡ length ps + length l
  unfolding push_prices
  length-push [] l = omega arith
  length-push (x ∷ xs) l =
      let rest = length-push xs (l ++ x.1 ∷ []) in let one = length-snoc x.1 l in omega arith

  step-Within :
      (lo hi block_height h : ℕ) (m : BlockUserPriceMap ℕ R) (w : Collected)
      → ((ps : UserPrices R) → find h m ≡ some ps → Within lo hi (fed ps))
      → Within lo hi w.prices
      → Within lo hi (window_step block_height h m w).prices
  unfolding window_step
  step-Within lo hi block_height h m w a b = elim (Option-cases (find h m)) [
    | inl e ↦ rw (e, window_step) b
    | inr (ps, e) ↦ rw (e, window_step) (push-Within lo hi ps w.prices (a ps e) b)
  ]

  loop-Within :
      (lo hi begin block_height h : ℕ) (m : BlockUserPriceMap ℕ R) (w : Collected)
      → ((j : ℕ)
          → begin < j
          → j ≤ h
          → (ps : UserPrices R) → find j m ≡ some ps
          → Within lo hi (fed ps))
      → Within lo hi w.prices
      → Within lo hi (window_loop begin block_height h m w).prices
  unfolding window_loop
  loop-Within lo hi begin block_height zero m w a b = b
  loop-Within lo hi begin block_height (suc h) m w a b = elim (Bool-cases (ltb begin (suc h))) [
    | inr e ↦ rw (e, window_loop) b
    | inl e ↦
        rw (e, window_loop)
          (loop-Within lo hi begin block_height h m (window_step block_height (suc h) m w)
            (λ j p q. a j p (omega arith))
            (step-Within lo hi block_height (suc h) m w (a (suc h) (ground arith) (omega arith)) b))
  ]

  step-length :
      (block_height h : ℕ) (m : BlockUserPriceMap ℕ R) (w : Collected)
      → length w.prices ≤ length (window_step block_height h m w).prices
  unfolding window_step
  step-length block_height h m w = elim (Option-cases (find h m)) [
    | inl e ↦ rw (e, window_step) (omega arith)
    | inr (ps, e) ↦ rw (e, window_step) (let n = length-push ps w.prices in omega arith)
  ]

  loop-length :
      (begin block_height h : ℕ) (m : BlockUserPriceMap ℕ R) (w : Collected)
      → length w.prices ≤ length (window_loop begin block_height h m w).prices
  unfolding window_loop
  loop-length begin block_height zero m w = omega arith
  loop-length begin block_height (suc h) m w = elim (Bool-cases (ltb begin (suc h))) [
    | inr e ↦ rw (e, window_loop) (omega arith)
    | inl e ↦
        let one = step-length block_height (suc h) m w in
        let rest = loop-length begin block_height h m (window_step block_height (suc h) m w) in
        rw (e, window_loop) (omega arith)
  ]

  loop-some :
      (begin block_height h j : ℕ) (m : BlockUserPriceMap ℕ R) (w : Collected) (x : R × ℕ)
      (ps : UserPrices R)
      → begin < j
      → j ≤ h
      → find j m ≡ some (x ∷ ps)
      → 0 < length (window_loop begin block_height h m w).prices
  unfolding window_loop window_step
  loop-some begin block_height zero j m w x ps a b e = absurd (omega arith)
  loop-some begin block_height (suc h) j m w x ps a b e =
      let inside : ltb begin (suc h) ≡ true = ground arith in
      rw (inside, window_loop)
        (elim (Bool-cases (j == suc h)) [
          | inr n ↦
              loop-some begin block_height h j m (window_step block_height (suc h) m w) x ps a
                (ground arith) e
          | inl n ↦
              let here : find (suc h) m ≡ some (x ∷ ps) =
                subst (λ i. find i m ≡ some (x ∷ ps)) (ground arith) e in
              let one : 0 < length (window_step block_height (suc h) m w).prices =
                rw (here, window_step) (let n = length-push (x ∷ ps) w.prices in omega arith) in
              let rest =
                loop-length begin block_height h m (window_step block_height (suc h) m w) in
              omega arith
        ])

  -- the prices that count for the median of a block
  abbrev pub window_prices : ℕ → ℕ → BlockUserPriceMap ℕ R → List ℕ
  window_prices block_height slide_window m =
      (window_loop (block_height - slide_window) block_height block_height m
        (record { prices = []; last_feed_height = 0 })).prices

  -- If every price at the heights of the window lies within bounds below 2 ^ 63, if one of the
  -- heights has a price, and if there are fewer than 2 ^ 32 prices, the median price of the block
  -- lies within the bounds.
  pub block_median-Within :
      (lo hi block_height slide_window j : ℕ) (m : BlockUserPriceMap ℕ R) (x : R × ℕ)
      (ps : UserPrices R)
      → ((h : ℕ)
          → InWindow block_height slide_window h
          → (qs : UserPrices R) → find h m ≡ some qs
          → Within lo hi (fed qs))
      → InWindow block_height slide_window j
      → find j m ≡ some (x ∷ ps)
      → hi < 9223372036854775808
      → length (window_prices block_height slide_window m) < u32_mod
      → (lo ≤ (compute_block_median_price block_height slide_window m).price)
        × ((compute_block_median_price block_height slide_window m).price ≤ hi)
  unfolding compute_block_median_price
  block_median-Within lo hi block_height slide_window j m x ps all i e h b =
      some_median-Within lo hi (window_prices block_height slide_window m)
        (loop-Within lo hi (block_height - slide_window) block_height block_height m
          (record { prices = []; last_feed_height = 0 })
          (λ k p q. all k (omega arith, omega arith, q)) tt)
        (loop-some (block_height - slide_window) block_height block_height j m
          (record { prices = []; last_feed_height = 0 }) x ps (let (a, c, d) = i in omega arith)
          (i.2) e)
        h b
