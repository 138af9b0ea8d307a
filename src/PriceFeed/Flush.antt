-- ===== src/PriceFeed/Flush.antt =====
-- `BatchWrite` and `Flush` of `IneryPricePointMemCache`.
use inery_persistent_memory.Base.{
  ℕ, Option-cases, ◌≡◌, refl, ap, sym, ◌∙◌, Option, none, some, List, [], ◌∷◌, if◌then◌else◌,
  Bool-cases, inl, inr,
}
use inery_persistent_memory.StdMap.{KeyOps, find, same, put_at, emplace}
use inery_persistent_memory.StdMap.Find.{same→eq, find-put_at, find-erase_at, find-insert}
use inery_persistent_memory.StdMap.Order.{Sorted, find-AllAbove}
use inery_persistent_memory.LevelDb.Wrapper.{ok}
use inery_persistent_memory.PriceFeed.{
  UserPrices, BlockUserPriceMap, CoinPricePointMap, entries_at, emplace_all, write_height,
  write_heights, write_pair, batch_write_prices, flush_prices,
}

abbrev list_of : {A : Type 0} → Option (List A) → List A
list_of none = []
list_of (some xs) = xs

entries_at-find :
    {K A : Type 0} ⦃ko : KeyOps K⦄
    → (k : K) (m : List (K × List A)) → entries_at k m ≡ list_of (find k m)
entries_at-find k m = elim (find k m) as (λ o. (elim o [ none ↦ [] | some xs ↦ xs ]) ≡ list_of o) [
  | none ↦ refl
  | some xs ↦ refl
]

-- the first of two prices
abbrev pub or_else : {A : Type 0} → Option A → Option A → Option A
or_else none later = later
or_else (some x) later = some x

no_more : {A : Type 0} (o : Option A) → o ≡ or_else o none
no_more none = refl
no_more (some x) = refl

grouped : {A : Type 0} (o p q : Option A) → or_else (or_else o p) q ≡ or_else o (or_else p q)
grouped none p q = refl
grouped (some x) p q = refl

-- The entry of a height in the base after a flush, from the entry in the layer and the one that was
-- in the base: a layer without an entry changes nothing, one that has deleted the height leaves
-- no entry, and else each user has the price of the base, or that of the layer if there was none.
abbrev pub Flushed :
    {R : Type 0} ⦃ro : KeyOps R⦄
    → Option (UserPrices R)
    → Option (UserPrices R)
    → Option (UserPrices R)
    → Type 0
Flushed none base after = after ≡ base
Flushed (some []) base after = after ≡ none
Flushed {R = R} (some (x ∷ xs)) base after =
    (prices : UserPrices R) × (after ≡ some prices)
    × ((user : R) → find user prices ≡ or_else (find user (list_of base)) (find user (x ∷ xs)))

-- what the code makes of the two entries
abbrev flushed :
    {R : Type 0} ⦃ro : KeyOps R⦄
    → Option (UserPrices R)
    → Option (UserPrices R)
    → Option (UserPrices R)
flushed none base = base
flushed (some []) base = none
flushed (some (x ∷ xs)) base = some (emplace_all (x ∷ xs) (list_of base))

module _ {R : Type 0} ⦃ro : KeyOps R⦄ where
  find-emplace :
      (k u : R) (v : ℕ) (m : UserPrices R)
      → find u (emplace k v m).0 ≡ or_else (find u m) (if same u k then some v else none)
  unfolding emplace
  find-emplace k u v m = elim (Option-cases (find k m)) [
    | inr (w, e) ↦
        rw (e, emplace)
          (elim (Bool-cases (same u k)) [
            | inl s ↦ rw s (rw (same→eq u k s) (rw e refl))
            | inr s ↦ rw s (no_more (find u m))
          ])
    | inl e ↦
        rw (e, emplace)
          (find-insert k u v m e ∙ elim (Bool-cases (same u k)) [
            | inl s ↦ rw s (rw (same→eq u k s) (rw e refl))
            | inr s ↦ rw s (no_more (find u m))
          ])
  ]

  find-emplace_all :
      (u : R) (xs m : UserPrices R) → find u (emplace_all xs m) ≡ or_else (find u m) (find u xs)
  unfolding emplace_all find
  find-emplace_all u [] m = no_more (find u m)
  find-emplace_all u (x ∷ xs) m =
      find-emplace_all u xs (emplace x.0 x.1 m).0
      ∙ ap (λ o. or_else o (find u xs)) (find-emplace x.0 u x.1 m)
      ∙ elim (Bool-cases (same u x.0)) [
        | inl s ↦ rw s (grouped (find u m) (some x.1) (find u xs))
        | inr s ↦ rw s (grouped (find u m) none (find u xs))
      ]

  flushed-Flushed : (layer base : Option (UserPrices R)) → Flushed layer base (flushed layer base)
  flushed-Flushed none base = refl
  flushed-Flushed (some []) base = refl
  flushed-Flushed (some (x ∷ xs)) base =
      (emplace_all (x ∷ xs) (list_of base), refl, λ u. find-emplace_all u (x ∷ xs) (list_of base))

module _ {H R : Type 0} ⦃ho : KeyOps H⦄ ⦃ro : KeyOps R⦄ where
  find-write_height :
      (j h : H) (ps : UserPrices R) (m : BlockUserPriceMap H R)
      → find h (write_height j ps m) ≡ (if same h j then flushed (some ps) (find h m) else find h m)
  unfolding write_height
  find-write_height j h [] m = find-erase_at j h m
  find-write_height j h (x ∷ xs) m =
      find-put_at j h (emplace_all (x ∷ xs) (entries_at j m)) m ∙ elim (Bool-cases (same h j)) [
        | inl s ↦
            rw s
              (rw (same→eq h j s) (ap (λ l. some (emplace_all (x ∷ xs) l)) (entries_at-find j m)))
        | inr s ↦ rw s refl
      ]

  find-write_heights :
      (h : H) (heights m : BlockUserPriceMap H R)
      → Sorted heights
      → find h (write_heights heights m) ≡ flushed (find h heights) (find h m)
  unfolding write_heights find
  find-write_heights h [] m s = refl
  find-write_heights h (x ∷ heights) m s =
      find-write_heights h heights (write_height x.0 x.1 m) s.1
      ∙ ap (flushed (find h heights)) (find-write_height x.0 h x.1 m)
      ∙ elim (Bool-cases (same h x.0)) [
        | inl e ↦
            let gone : find h heights ≡ none =
              rw (same→eq h x.0 e) (find-AllAbove x.0 heights s.0) in
            rw (e, gone) refl
        | inr e ↦ rw e refl
      ]

module _ {P A : Type 0} ⦃po : KeyOps P⦄ where
  pub entries_at-put_at :
      (q p : P) (l : List A) (m : List (P × List A))
      → entries_at p (put_at q l m) ≡ (if same p q then l else entries_at p m)
  entries_at-put_at q p l m =
      entries_at-find p (put_at q l m)
      ∙ ap list_of (find-put_at q p l m)
      ∙ elim (Bool-cases (same p q)) [
        | inl s ↦ rw s refl
        | inr s ↦ rw s (sym (entries_at-find p m))
      ]

  pub entries_at-cons :
      (p : P) (x : P × List A) (m : List (P × List A))
      → entries_at p (x ∷ m) ≡ (if same p x.0 then x.1 else entries_at p m)
  unfolding find
  entries_at-cons p x m = entries_at-find p (x ∷ m) ∙ elim (Bool-cases (same p x.0)) [
    | inl s ↦ rw s refl
    | inr s ↦ rw s (sym (entries_at-find p m))
  ]

module _ {P H R : Type 0} ⦃po : KeyOps P⦄ ⦃ho : KeyOps H⦄ ⦃ro : KeyOps R⦄ where
  entries_at-write_pair :
      (q p : P) (heights : BlockUserPriceMap H R) (m : CoinPricePointMap P H R)
      → entries_at p (write_pair q heights m)
        ≡ (if same p q then write_heights heights (entries_at p m) else entries_at p m)
  unfolding write_pair write_heights
  entries_at-write_pair q p [] m = elim (Bool-cases (same p q)) [
    | inl s ↦ rw s refl
    | inr s ↦ rw s refl
  ]
  entries_at-write_pair q p (x ∷ heights) m =
      entries_at-put_at q p (write_heights (x ∷ heights) (entries_at q m)) m
      ∙ elim (Bool-cases (same p q)) [ inl s ↦ rw s (rw (same→eq p q s) refl) | inr s ↦ rw s refl ]

  entries_at-batch_write :
      (p : P) (pairs m : CoinPricePointMap P H R)
      → Sorted pairs
      → entries_at p (batch_write_prices pairs m)
        ≡ write_heights (entries_at p pairs) (entries_at p m)
  unfolding batch_write_prices write_heights find
  entries_at-batch_write p [] m s = refl
  entries_at-batch_write p (x ∷ pairs) m s =
      entries_at-batch_write p pairs (write_pair x.0 x.1 m) s.1
      ∙ ap (write_heights (entries_at p pairs)) (entries_at-write_pair x.0 p x.1 m)
      ∙ elim (Bool-cases (same p x.0)) [
        | inl e ↦
            let gone : find p pairs ≡ none = rw (same→eq p x.0 e) (find-AllAbove x.0 pairs s.0) in
            let none_left : entries_at p pairs ≡ [] = entries_at-find p pairs ∙ ap list_of gone in
            let first : entries_at p (x ∷ pairs) ≡ x.1 = entries_at-cons p x pairs ∙ rw e refl in
            rw e (
              ap (λ l. write_heights l (write_heights x.1 (entries_at p m))) none_left
              ∙ ap (λ l. write_heights l (entries_at p m)) (sym first))
        | inr e ↦
            let rest : entries_at p (x ∷ pairs) ≡ entries_at p pairs =
              entries_at-cons p x pairs ∙ rw e refl in
            rw e (ap (λ l. write_heights l (entries_at p m)) (sym rest))
      ]

  -- `Flush` of a cache over a base empties the cache and leaves the caches below the base. For each
  -- pair and height, where the cache has no entry, the base keeps its own; where the cache has
  -- deleted the height, the base has no entry afterwards; where the cache has prices, each user
  -- has in the base the price of before, or the price of the cache if there was none.
  pub flush_prices_lem :
      (pair : P) (h : H) (m base : CoinPricePointMap P H R) (bases : List (CoinPricePointMap P H R))
      → Sorted m
      → Sorted (entries_at pair m)
      → (base' : CoinPricePointMap P H R) × (flush_prices (m ∷ base ∷ bases)
          ≡ ok ([] ∷ base' ∷ bases))
        × Flushed
            (find h (entries_at pair m))
            (find h (entries_at pair base))
            (find h (entries_at pair base'))
  unfolding flush_prices
  flush_prices_lem pair h m base bases s sp =
      let new : find h (entries_at pair (batch_write_prices m base))
          ≡ flushed (find h (entries_at pair m)) (find h (entries_at pair base)) =
        ap (find h) (entries_at-batch_write pair m base s)
        ∙ find-write_heights h (entries_at pair m) (entries_at pair base) sp in
      (
        batch_write_prices m base,
        refl,
        rw new (flushed-Flushed (find h (entries_at pair m)) (find h (entries_at pair base))),
      )
