-- ===== src/DbIterator/Prefix.antt =====
-- `CommonPrefixMatcher` and `CDBPrefixIterator` of persistence/dbiterator.h, for keys that are pairs
-- and the prefixes that are their first components. A tuple is a pair nested to the right.
use inery_persistent_memory.Base.{
  ℕ, ◌+◌, ◌<◌, ◌≡◌, refl, ap, sym, subst, Bool, true, false, Option, none, some, List, [], ◌∷◌,
  if◌then◌else◌, arith, Bool-cases, inl, inr,
}
use inery_persistent_memory.StdMap.{KeyOps, key_lt, same, find, lower_bound}
use inery_persistent_memory.StdMap.Order.{AllAbove, Sorted}
use inery_persistent_memory.Serialize.{Codec, ValueOps, make_empty_value}
use inery_persistent_memory.DbUtil.KeyOrder.{pair_key}
use inery_persistent_memory.DbConf.Prefix.{PrefixType}
use inery_persistent_memory.DbConf.Keys.{is_key_prefix}
use inery_persistent_memory.LevelDb.{LevelDb}
use inery_persistent_memory.LevelDb.Wrapper.{Outcome}
use inery_persistent_memory.Composite.{Cache}
use inery_persistent_memory.Composite.View.{view, database}
use inery_persistent_memory.Composite.WellFormed.{WellFormed}
use inery_persistent_memory.DbIterator.{LevelDbEntries, Iterator}
use inery_persistent_memory.DbIterator.Delivery.{length, Delivers, StartsWith}
use inery_persistent_memory.DbIterator.Chain.{AnyIterator, create, Holds, as_lookup, cached}
use inery_persistent_memory.DbIterator.Contract.{create-Enumerates}

module _ {A B : Type 0} where
  -- MakeKeyByPrefix of a pair and its first component
  unfoldable pub make_key_by_prefix : ⦃vb : ValueOps B⦄ → A → A × B
  make_key_by_prefix prefix = (prefix, make_empty_value)

  -- MatchPrefix of a pair and its first component
  unfoldable pub match_prefix : ⦃ka : KeyOps A⦄ → A × B → A → Bool
  match_prefix key prefix = same key.0 prefix

module _ {A B V S : Type 0} ⦃ka : KeyOps A⦄ ⦃kb : KeyOps B⦄ ⦃vb : ValueOps B⦄
    (it : Iterator (A × B) V S) (prefix : A) where
  -- an entry that does not match makes the iterator invalid
  unfoldable pub matched : Option ((A × B) × V) → Option ((A × B) × V)
  matched none = none
  matched (some x) = if match_prefix x.0 prefix then some x else none

  unfoldable pub prefix_first : S → Outcome S
  prefix_first s = it.seek (make_key_by_prefix prefix) s

  unfoldable pub prefix_seek : A × B → S → Outcome S
  prefix_seek k s = if KeyOps.is_empty pair_key k then prefix_first s else it.seek k s

  unfoldable pub prefix_seek_upper : A × B → S → Outcome S
  prefix_seek_upper k s = if KeyOps.is_empty pair_key k then prefix_first s else it.seek_upper k s

  -- CDBPrefixIterator
  abbrev pub prefix_iterator : Iterator (A × B) V S
  prefix_iterator = record {
    current = λ s. matched (it.current s);
    first = prefix_first;
    seek = prefix_seek;
    seek_upper = prefix_seek_upper;
    next = it.next;
  }

module _ {A B V : Type 0} ⦃ka : KeyOps A⦄ ⦃kb : KeyOps B⦄ (prefix : A) where
  -- the entries of the prefix
  unfoldable pub with_prefix : List ((A × B) × V) → List ((A × B) × V)
  with_prefix [] = []
  with_prefix (x ∷ l) = let rest = with_prefix l in if same x.0.0 prefix then x ∷ rest else rest

  -- the entries up to the first of another prefix
  while_prefix : List ((A × B) × V) → List ((A × B) × V)
  while_prefix [] = []
  while_prefix (x ∷ l) = let rest = while_prefix l in if same x.0.0 prefix then x ∷ rest else []

  beyond :
      (k : A × B) (l : List ((A × B) × V))
      → ka.lt prefix k.0 ≡ true
      → AllAbove k l
      → with_prefix l ≡ []
  unfolding with_prefix same
  beyond k [] h a = refl
  beyond k (x ∷ l) h a =
      let later : ka.lt prefix x.0.0 ≡ true =
        ground (arith, a.0, ka.lt_trans prefix k.0 x.0.0, ka.lt_connected k.0 x.0.0) in
      let other : same x.0.0 prefix ≡ false = ground arith in
      rw (other, with_prefix) (beyond k l h a.1)

  while-with :
      (k : A × B) (l : List ((A × B) × V))
      → ka.lt k.0 prefix ≡ false
      → AllAbove k l
      → Sorted l
      → while_prefix l ≡ with_prefix l
  unfolding while_prefix with_prefix same
  while-with k [] h a s = refl
  while-with k (x ∷ l) h a s = elim (Bool-cases (same x.0.0 prefix)) [
    | inl e ↦ rw (e, while_prefix, with_prefix) (ap (λ r. x ∷ r) (while-with k l h a.1 s.1))
    | inr e ↦
        let not_before : ka.lt x.0.0 prefix ≡ false =
          ground (arith, a.0, ka.lt_trans k.0 x.0.0 prefix, ka.lt_connected k.0 x.0.0) in
        let after : ka.lt prefix x.0.0 ≡ true = ground arith in
        rw (e, while_prefix, with_prefix) (sym (beyond x.0 l after s.0))
  ]

module _ {A B V : Type 0} ⦃ka : KeyOps A⦄ ⦃kb : KeyOps B⦄ ⦃vb : ValueOps B⦄ (prefix : A) where
  -- from the least key of the prefix, up to another prefix
  while-lower_bound :
      (l : List ((A × B) × V))
      → ((b : B) → kb.lt b make_empty_value ≡ false)
      → Sorted l
      → while_prefix prefix (lower_bound (make_key_by_prefix prefix) l) ≡ with_prefix prefix l
  unfolding while_prefix with_prefix lower_bound make_key_by_prefix same
  while-lower_bound [] least s = refl
  while-lower_bound (x ∷ l) least s = elim (Bool-cases (key_lt x.0 (make_key_by_prefix prefix))) [
    | inl e ↦
        let before : ka.lt x.0.0 prefix ≡ true = ground (arith, least x.0.1) in
        let other : same x.0.0 prefix ≡ false = ground arith in
        rw (e, other, lower_bound, with_prefix) (while-lower_bound l least s.1)
    | inr e ↦
        let not_before : ka.lt x.0.0 prefix ≡ false = ground arith in
        rw (e, lower_bound)
          (elim (Bool-cases (same x.0.0 prefix)) [
            | inl h ↦
                rw (h, while_prefix, with_prefix)
                  (ap (λ r. x ∷ r) (while-with prefix x.0 l not_before s.0 s.1))
            | inr h ↦
                let after : ka.lt prefix x.0.0 ≡ true = ground arith in
                rw (h, while_prefix, with_prefix) (sym (beyond prefix x.0 l after s.0))
          ])
  ]

module _ {A B V S : Type 0} ⦃ka : KeyOps A⦄ ⦃kb : KeyOps B⦄ ⦃vb : ValueOps B⦄
    (it : Iterator (A × B) V S) (prefix : A) where
  while-Delivers :
      (s : S) (l : List ((A × B) × V))
      → Delivers it s l
      → Delivers (prefix_iterator it prefix) s (while_prefix prefix l)
  unfolding while_prefix matched match_prefix
  while-Delivers s [] d = rw d refl
  while-Delivers s (x ∷ l) d =
      let (here, (s', next, rest)) = d in
      elim (Bool-cases (same x.0.0 prefix)) [
        | inl e ↦
            rw (e, while_prefix)
              (rw (here, matched) (rw (e, match_prefix) refl), (s', next, while-Delivers s' l rest))
        | inr e ↦ rw (e, while_prefix) (rw (here, matched) (rw (e, match_prefix) refl))
      ]

module _ {A B V D : Type 0} ⦃ka : KeyOps A⦄ ⦃kb : KeyOps B⦄ ⦃vo : ValueOps V⦄ ⦃vb : ValueOps B⦄
    ⦃kc : Codec (A × B)⦄ ⦃vc : Codec V⦄ ⦃ldb : LevelDb D⦄ ⦃le : LevelDbEntries D⦄ (fuel : ℕ)
    (p : PrefixType) where
  -- For a cache over a database that holds the items, with its maps in order and enough fuel, whose
  -- keys are pairs in which no second component is less than the empty one: the iterator over the
  -- keys with a first component that is not empty delivers exactly the entries that the cache
  -- shows under it, in the order of the keys.
  pub prefix_iterator_lem :
      (prefix : A) (c : Cache (A × B) V D) (d : D) (stored : List ((A × B) × V))
      → ka.is_empty prefix ≡ false
      → ((b : B) → kb.lt b make_empty_value ≡ false)
      → is_key_prefix p ≡ true
      → database c ≡ some d
      → Holds p d stored
      → WellFormed c
      → cached c + length stored < fuel
      → (it : AnyIterator (A × B) V) × (create fuel p c ≡ some it)
        × ((items : List ((A × B) × V)) × Sorted items
            × ((k : A × B) → as_lookup (find k items) ≡ view p k c)
            × StartsWith (prefix_iterator it.calls prefix) it.start (with_prefix prefix items))
  unfolding make_key_by_prefix prefix_first
  prefix_iterator_lem prefix c d stored full least hp hd h w enough =
      let (it, made, n) = create-Enumerates fuel p c d stored hp hd h w enough in
      let (s, found_there, delivers) = n.seeks (make_key_by_prefix prefix) (rw full refl) in
      (
        it,
        made,
        (
          n.items,
          n.in_order,
          n.shows,
          (
            s,
            found_there,
            subst (Delivers (prefix_iterator it.calls prefix) s)
                (while-lower_bound prefix n.items least n.in_order)
                (while-Delivers it.calls prefix s (lower_bound (prefix, make_empty_value) n.items)
                  delivers),
          ),
        ),
      )
