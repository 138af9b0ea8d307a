-- ===== src/PriceFeed/Prices.antt =====
-- `GetBlockUserPrices` against what the layers hold at each height.
use inery_persistent_memory.Base.{
  ◌≡◌, refl, ap, sym, ◌∙◌, false, Option, none, some, List, [], ◌∷◌, if◌then◌else◌, Bool-cases,
  Option-cases, inl, inr,
}
use inery_persistent_memory.StdMap.{KeyOps, find, emplace, same}
use inery_persistent_memory.StdMap.Find.{same→eq, same_refl, find-insert}
use inery_persistent_memory.DbIterator.Entries.{first_of, first_of-none}
use inery_persistent_memory.PriceFeed.{
  UserPrices, BlockUserPriceMap, CoinPricePointMap, entries_at, Gathered, gather, gather_layer,
  gather_prices, get_block_user_prices,
}

-- a deleted height, or the prices
abbrev pub entry : {R : Type 0} → UserPrices R → Option (UserPrices R)
entry [] = none
entry (x ∷ xs) = some (x ∷ xs)

abbrev pub entry_of : {R : Type 0} → Option (UserPrices R) → Option (Option (UserPrices R))
entry_of none = none
entry_of (some ps) = some (entry ps)

abbrev pub flat : {A : Type 0} → Option (Option A) → Option A
flat none = none
flat (some o) = o

-- what is known of a height: nothing, that it is deleted, or its prices
abbrev known_of :
    {R : Type 0} → Option (UserPrices R) → Option (Unit {0}) → Option (Option (UserPrices R))
known_of (some ps) e = some (some ps)
known_of none (some _) = some none
known_of none none = none

deleted_now :
    {R : Type 0} (o : Option (UserPrices R))
    → known_of o (some tt) ≡ first_of (known_of o none) (some none)
deleted_now none = refl
deleted_now (some ps) = refl

deleted_before :
    {R : Type 0} (o : Option (UserPrices R)) (u : Unit {0}) (y : Option (Option (UserPrices R)))
    → known_of o (some u) ≡ first_of (known_of o (some u)) y
deleted_before none u y = refl
deleted_before (some ps) u y = refl

module _ {H R : Type 0} ⦃ho : KeyOps H⦄ where
  known : H → Gathered H R → Option (Option (UserPrices R))
  known h g = known_of (find h g.prices) (find h g.expired)

  gather_here :
      (j : H) (ps : UserPrices R) (g : Gathered H R)
      → known j (gather j ps g) ≡ first_of (known j g) (some (entry ps))
  unfolding known gather emplace
  gather_here j [] g = elim (Option-cases (find j g.expired)) [
    | inl e ↦
        rw (e, emplace)
          (rw (find-insert j j tt g.expired e) (rw (same_refl j) (deleted_now (find j g.prices))))
    | inr (u, e) ↦ rw (e, emplace) (rw e (deleted_before (find j g.prices) u (some none)))
  ]
  gather_here j (x ∷ xs) g = elim (Option-cases (find j g.expired)) [
    | inr (u, e) ↦ rw (e, gather) (rw e (deleted_before (find j g.prices) u (some (some (x ∷ xs)))))
    | inl e ↦ elim (Option-cases (find j g.prices)) [
      | inr (ps, q) ↦ rw (e, q, gather) (rw q refl)
      | inl q ↦ rw (e, q, gather) (rw (find-insert j j (x ∷ xs) g.prices q) (rw (same_refl j) refl))
    ]
  ]

  gather_elsewhere :
      (h j : H) (ps : UserPrices R) (g : Gathered H R)
      → same h j ≡ false
      → known h (gather j ps g) ≡ known h g
  unfolding known gather emplace
  gather_elsewhere h j [] g s = elim (Option-cases (find j g.expired)) [
    | inl e ↦ rw (e, emplace) (rw (find-insert j h tt g.expired e) (rw s refl))
    | inr (u, e) ↦ rw (e, emplace) refl
  ]
  gather_elsewhere h j (x ∷ xs) g s = elim (Option-cases (find j g.expired)) [
    | inr (u, e) ↦ rw (e, gather) refl
    | inl e ↦ elim (Option-cases (find j g.prices)) [
      | inr (ps, q) ↦ rw (e, q, gather) refl
      | inl q ↦ rw (e, q, gather) (rw (find-insert j h (x ∷ xs) g.prices q) (rw s refl))
    ]
  ]

  known-gather :
      (h j : H) (ps : UserPrices R) (g : Gathered H R)
      → known h (gather j ps g) ≡ first_of (known h g) (if same h j then some (entry ps) else none)
  known-gather h j ps g = elim (Bool-cases (same h j)) [
    | inr s ↦ rw s (gather_elsewhere h j ps g s ∙ first_of-none (known h g))
    | inl s ↦ rw s (rw (same→eq h j s) (gather_here j ps g))
  ]

first_of_assoc :
    {A : Type 0} → (a b c : Option A) → first_of (first_of a b) c ≡ first_of a (first_of b c)
first_of_assoc none b c = refl
first_of_assoc (some x) b c = refl

flat-known_of :
    {R : Type 0} (o : Option (UserPrices R)) (e : Option (Unit {0})) → flat (known_of o e) ≡ o
flat-known_of (some ps) e = refl
flat-known_of none (some u) = refl
flat-known_of none none = refl

module _ {H R : Type 0} ⦃ho : KeyOps H⦄ where
  entry_of-find :
      (h : H) (x : H × UserPrices R) (m : BlockUserPriceMap H R)
      → first_of (if same h x.0 then some (entry x.1) else none) (entry_of (find h m))
        ≡ entry_of (find h (x ∷ m))
  unfolding find
  entry_of-find h x m = elim (Bool-cases (same h x.0)) [ inl s ↦ rw s refl | inr s ↦ rw s refl ]

  known-gather_layer :
      (h : H) (m : BlockUserPriceMap H R) (g : Gathered H R)
      → known h (gather_layer m g) ≡ first_of (known h g) (entry_of (find h m))
  unfolding gather_layer
  known-gather_layer h [] g = unfold find in first_of-none (known h g)
  known-gather_layer h (x ∷ m) g =
      known-gather_layer h m (gather x.0 x.1 g)
      ∙ ap (λ k. first_of k (entry_of (find h m))) (known-gather h x.0 x.1 g)
      ∙ first_of_assoc (known h g) (if same h x.0 then some (entry x.1) else none)
          (entry_of (find h m))
      ∙ ap (first_of (known h g)) (entry_of-find h x m)

module _ {P H R : Type 0} ⦃po : KeyOps P⦄ ⦃ho : KeyOps H⦄ where
  -- What the layers hold of a pair at a height: the first that has the height decides, whether it
  -- deletes it or has prices.
  abbrev pub decided : P → H → List (CoinPricePointMap P H R) → Option (Option (UserPrices R))
  decided pair h [] = none
  decided pair h (m ∷ bases) =
      first_of (entry_of (find h (entries_at pair m))) (decided pair h bases)

  known-gather_prices :
      (pair : P) (h : H) (layers : List (CoinPricePointMap P H R)) (g : Gathered H R)
      → known h (gather_prices pair layers g) ≡ first_of (known h g) (decided pair h layers)
  unfolding gather_prices
  known-gather_prices pair h [] g = first_of-none (known h g)
  known-gather_prices pair h (m ∷ bases) g =
      known-gather_prices pair h bases (gather_layer (entries_at pair m) g)
      ∙ ap (λ k. first_of k (decided pair h bases)) (known-gather_layer h (entries_at pair m) g)
      ∙ first_of_assoc (known h g) (entry_of (find h (entries_at pair m))) (decided pair h bases)

  -- `GetBlockUserPrices` finds at each height the prices of the first layer that has an entry for
  -- the height, and none where that entry is empty or no layer has one.
  pub get_block_user_prices_lem :
      (pair : P) (h : H) (layers : List (CoinPricePointMap P H R))
      → find h (get_block_user_prices pair layers) ≡ flat (decided pair h layers)
  unfolding get_block_user_prices known find
  get_block_user_prices_lem pair h layers =
      let g : Gathered H R = gather_prices pair layers (record { expired = []; prices = [] }) in
      sym (flat-known_of (find h g.prices) (find h g.expired))
      ∙ ap flat (known-gather_prices pair h layers (record { expired = []; prices = [] }))
