-- ===== src/DbIterator/MergeLaws.antt =====
-- One step of the merging iterator.
use inery_persistent_memory.Base.{
  ℕ, ◌+◌, ◌<◌, ◌≡◌, refl, ap, Bool, true, false, Option, some, List, [], ◌∷◌, arith, Bool-cases,
  inl, inr,
}
use inery_persistent_memory.StdMap.{KeyOps, key_lt}
use inery_persistent_memory.LevelDb.Wrapper.{ok}
use inery_persistent_memory.DbIterator.{Iterator}
use inery_persistent_memory.DbIterator.Merge.{
  MergeState, Choice, process_get_data, map_next, base_next_valid, internal_next,
}
use inery_persistent_memory.DbIterator.Delivery.{length, Delivers, merge}

-- a state by its fields
abbrev pub state :
    {K V S : Type 0}
    → List (K × V)
    → List (K × V)
    → S
    → Option (K × V)
    → Bool
    → Bool
    → ℕ
    → MergeState K V S
state w m b i f o n = record {
  map_data = w;
  map_it = m;
  base_it = b;
  item = i;
  is_map_data = f;
  is_same_key = o;
  count = n;
}

module _ {K V S : Type 0} ⦃ko : KeyOps K⦄ (base : Iterator K V S) where
  -- one step of the merge, where one of the two has an entry left
  pub record Advances (m : List (K × V)) (s : S) (b : List (K × V)) : Type 0 where
    pub choice : Choice K V
    pub picks : process_get_data m (base.current s) ≡ some choice
    pub map_left : List (K × V)
    pub base_after : S
    pub base_left : List (K × V)
    pub steps :
        (w : List (K × V)) (i : Option (K × V)) (n : ℕ)
        → internal_next base (state w m s i choice.from_map choice.on_both n)
          ≡ ok (state w map_left base_after i choice.from_map choice.on_both n)
    pub delivers : Delivers base base_after base_left
    pub merged : merge m b ≡ choice.chosen ∷ merge map_left base_left
    pub shorter : length map_left + length base_left < length m + length b

  pub advance_map :
      (x : K × V) (m : List (K × V)) (s : S) → Delivers base s [] → Advances (x ∷ m) s []
  unfolding process_get_data internal_next map_next merge
  advance_map x m s d = record {
    choice = record { chosen = x; from_map = true; on_both = false };
    picks = rw d;
    map_left = m;
    base_after = s;
    base_left = [];
    steps = λ w i n. refl;
    delivers = d;
    merged = ap (λ t. x ∷ t) (merge_nil m);
    shorter = omega arith;
  }
    where
      merge_nil : (l : List (K × V)) → l ≡ merge l []
      merge_nil [] = refl
      merge_nil (z ∷ l) = refl

  pub advance_base :
      (y : K × V) (b : List (K × V)) (s : S) → Delivers base s (y ∷ b) → Advances [] s (y ∷ b)
  unfolding process_get_data internal_next merge
  advance_base y b s (now, (s', next, d)) = record {
    choice = record { chosen = y; from_map = false; on_both = false };
    picks = rw now;
    map_left = [];
    base_after = s';
    base_left = b;
    steps = λ w i n. rw next;
    delivers = d;
    merged = refl;
    shorter = omega arith;
  }

  pub advance_both :
      (x y : K × V) (m b : List (K × V)) (s : S)
      → Delivers base s (y ∷ b)
      → Advances (x ∷ m) s (y ∷ b)
  unfolding process_get_data internal_next map_next base_next_valid merge
  advance_both x y m b s (now, (s', next, d)) = elim (Bool-cases (key_lt y.0 x.0)) [
    | inl e ↦ record {
      choice = record { chosen = y; from_map = false; on_both = false };
      picks = rw (now, e);
      map_left = x ∷ m;
      base_after = s';
      base_left = b;
      steps = λ w i n. rw next;
      delivers = d;
      merged = rw (e, merge);
      shorter = omega arith;
    }
    | inr e ↦ elim (Bool-cases (key_lt x.0 y.0)) [
      | inl l ↦ record {
        choice = record { chosen = x; from_map = true; on_both = false };
        picks = rw (now, e, l);
        map_left = m;
        base_after = s;
        base_left = y ∷ b;
        steps = λ w i n. refl;
        delivers = (now, (s', next, d));
        merged = rw (e, l, merge);
        shorter = omega arith;
      }
      | inr l ↦ record {
        choice = record { chosen = x; from_map = true; on_both = true };
        picks = rw (now, e, l);
        map_left = m;
        base_after = s';
        base_left = b;
        steps = λ w i n. rw (now, next);
        delivers = d;
        merged = rw (e, l, merge);
        shorter = omega arith;
      }
    ]
  ]
