-- ===== src/PriceFeed/Median/Details.antt =====
-- `CalcMedianPriceDetails` and `CalcMedianPrices`: which pairs get a median price.
use inery_persistent_memory.Base.{
  ℕ, ◌≡◌, refl, ap, ◌∙◌, Bool, true, false, ◌&&◌, ◌||◌, Option, none, some, List, [], ◌∷◌,
  if◌then◌else◌, ◌==◌, arith, Bool-cases, Option-cases, inl, inr,
}
use inery_persistent_memory.StdMap.{KeyOps, find, same, emplace}
use inery_persistent_memory.StdMap.Find.{same→eq, find-insert}
use inery_persistent_memory.DbIterator.Entries.{first_of, first_of-none}
use inery_persistent_memory.PriceFeed.{CoinPricePointMap}
use inery_persistent_memory.PriceFeed.Median.{
  MedianPriceDetail, get_median_price, permitted_pairs, median_of_pairs, calc_median_price_details,
}

abbrev pub is_known : Option Bool → Bool
is_known none = false
is_known (some b) = true

-- whether the assets of all the pairs exist
abbrev pub all_known : {P : Type 0} → (P → Option Bool) → List P → Bool
all_known check_asset [] = true
all_known check_asset (pair ∷ pairs) = is_known (check_asset pair) && all_known check_asset pairs

abbrev pub allows : Option Bool → Bool
allows none = false
allows (some b) = b

-- a median price of 0 is left out
abbrev pub unless_zero : MedianPriceDetail → Option MedianPriceDetail
unless_zero d = if d.price == 0 then none else some d

is_known-some : (o : Option Bool) → is_known o ≡ true → (b : Bool) × (o ≡ some b)
is_known-some none h = cc
is_known-some (some b) h = (b, refl)

first_of-again :
    {A : Type 0} (a u : Option A) (b : Bool)
    → first_of (first_of a u) (if b then u else none) ≡ first_of a u
first_of-again (some x) u b = refl
first_of-again none (some y) b = refl
first_of-again none none true = refl
first_of-again none none false = refl

first_of-skip : {A : Type 0} (a y : Option A) → first_of (first_of a none) y ≡ first_of a y
first_of-skip (some x) y = refl
first_of-skip none y = refl

module _ {P : Type 0} ⦃po : KeyOps P⦄ where
  abbrev pub has_pair : P → List P → Bool
  has_pair p [] = false
  has_pair p (q ∷ pairs) = same p q || has_pair p pairs

  head_permitted :
      (check_asset : P → Option Bool) (p q : P) (b : Bool) (rest pairs : List P)
      → check_asset q ≡ some b
      → has_pair p rest ≡ (has_pair p pairs && allows (check_asset p))
      → has_pair p (if b then q ∷ rest else rest)
        ≡ (has_pair p (q ∷ pairs) && allows (check_asset p))
  head_permitted check_asset p q true rest pairs e h = elim (Bool-cases (same p q)) [
    | inl s ↦ rw s (rw (same→eq p q s) (rw e refl))
    | inr s ↦ rw s h
  ]
  head_permitted check_asset p q false rest pairs e h = elim (Bool-cases (same p q)) [
    | inl s ↦
        let no : allows (check_asset p) ≡ false = rw (same→eq p q s) (rw e refl) in
        h ∙ rw (s, no) (ground arith)
    | inr s ↦ rw s h
  ]

  permitted :
      (check_asset : P → Option Bool) (pairs : List P)
      → all_known check_asset pairs ≡ true
      → (allowed : List P) × (permitted_pairs check_asset pairs ≡ some allowed)
        × ((p : P) → has_pair p allowed ≡ (has_pair p pairs && allows (check_asset p)))
  unfolding permitted_pairs
  permitted check_asset [] h = ([], refl, λ p. refl)
  permitted check_asset (q ∷ pairs) h =
      let (b, e) = is_known-some (check_asset q) (ground arith) in
      let (rest, r, w) = permitted check_asset pairs (ground arith) in
      (
        if b then q ∷ rest else rest,
        rw (e, permitted_pairs) (rw r refl),
        λ p. head_permitted check_asset p q b rest pairs e (w p),
      )

  refused :
      (check_asset : P → Option Bool) (pairs : List P)
      → all_known check_asset pairs ≡ false
      → permitted_pairs check_asset pairs ≡ none
  unfolding permitted_pairs
  refused check_asset [] h = cc
  refused check_asset (q ∷ pairs) h = elim (Option-cases (check_asset q)) [
    | inl e ↦ rw (e, permitted_pairs) refl
    | inr (b, e) ↦
        let known : is_known (check_asset q) ≡ true = rw e refl in
        rw (e, permitted_pairs) (rw (refused check_asset pairs (ground arith)) refl)
  ]

  find-emplace :
      (p q : P) (d : MedianPriceDetail) (m : List (P × MedianPriceDetail))
      → find p (emplace q d m).0 ≡ first_of (find p m) (if same p q then some d else none)
  unfolding emplace
  find-emplace p q d m = elim (Option-cases (find q m)) [
    | inl e ↦
        rw (e, emplace)
          (find-insert q p d m e ∙ elim (Bool-cases (same p q)) [
            | inl s ↦ rw s (rw (same→eq p q s) (rw e refl))
            | inr s ↦ rw s (first_of-none (find p m))
          ])
    | inr (v, e) ↦
        rw (e, emplace)
          (elim (Bool-cases (same p q)) [
            | inl s ↦ rw s (rw (same→eq p q s) (rw e refl))
            | inr s ↦ rw s (first_of-none (find p m))
          ])
  ]

  -- one turn of the loop
  find-turn :
      (p q : P) (d : MedianPriceDetail) (m : List (P × MedianPriceDetail))
      → find p (if d.price == 0 then m else (emplace q d m).0)
        ≡ first_of (find p m) (if same p q then unless_zero d else none)
  find-turn p q d m = elim (Bool-cases (d.price == 0)) [
    | inl z ↦ rw z (elim (Bool-cases (same p q)) [
      | inl s ↦ rw s (first_of-none (find p m))
      | inr s ↦ rw s (first_of-none (find p m))
    ])
    | inr z ↦ rw z (find-emplace p q d m)
  ]

  median_of_pairs-find :
      (get : P → MedianPriceDetail) (p : P) (pairs : List P) (m : List (P × MedianPriceDetail))
      → find p (median_of_pairs get pairs m)
        ≡ first_of (find p m) (if has_pair p pairs then unless_zero (get p) else none)
  unfolding median_of_pairs
  median_of_pairs-find get p [] m = first_of-none (find p m)
  median_of_pairs-find get p (q ∷ pairs) m =
      median_of_pairs-find get p pairs (if (get q).price == 0 then m else (emplace q (get q) m).0)
      ∙ ap (λ o. first_of o (if has_pair p pairs then unless_zero (get p) else none))
          (find-turn p q (get q) m)
      ∙ elim (Bool-cases (same p q)) [
        | inl s ↦ rw s (
            rw (same→eq p q s) (first_of-again (find q m) (unless_zero (get q)) (has_pair q pairs)))
        | inr s ↦ rw s (first_of-skip (find p m) _)
      ]

module _ {P R : Type 0} ⦃po : KeyOps P⦄ where
  -- Where the slide window and the feed pairs can be read, `CalcMedianPriceDetails` succeeds if
  -- the asset of every feed pair exists, and the details then are those of `GetMedianPrice` for
  -- the feed pairs whose asset has the permission and whose median price is not 0, and of no others.
  pub calc_details_lem :
      (window block_height : ℕ) (latest : List (P × MedianPriceDetail)) (pairs : List P)
      (check_asset : P → Option Bool) (layers : List (CoinPricePointMap P ℕ R))
      → all_known check_asset pairs ≡ true
      → (details : List (P × MedianPriceDetail)) × (calc_median_price_details
            (some window)
            latest
            (some pairs)
            check_asset
            block_height
            layers
          ≡ some details)
        × ((p : P)
            → find p details ≡ (
                if has_pair p pairs && allows (check_asset p)
                then unless_zero (get_median_price block_height window latest layers p)
                else none))
  unfolding calc_median_price_details find
  calc_details_lem window block_height latest pairs check_asset layers h =
      let (allowed, e, w) = permitted check_asset pairs h in
      let get = get_median_price block_height window latest layers in
      (
        median_of_pairs get allowed [],
        rw (e, calc_median_price_details) refl,
        λ p. median_of_pairs-find get p allowed [] ∙ rw (w p) refl,
      )

  -- If an asset of a feed pair does not exist, it fails.
  pub missing_asset :
      (window block_height : ℕ) (latest : List (P × MedianPriceDetail)) (pairs : List P)
      (check_asset : P → Option Bool) (layers : List (CoinPricePointMap P ℕ R))
      → all_known check_asset pairs ≡ false
      → calc_median_price_details (some window) latest (some pairs) check_asset block_height layers
        ≡ none
  unfolding calc_median_price_details
  missing_asset window block_height latest pairs check_asset layers h =
      rw (refused check_asset pairs h, calc_median_price_details) refl
