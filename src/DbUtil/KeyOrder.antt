-- ===== src/DbUtil/KeyOrder.antt =====
-- `operator<` of the keys, with `db_util::IsEmpty`.
use inery_persistent_memory.Base.{ℕ, ◌≡◌, ap₂, Bool, true, false, not, ◌&&◌, ◌||◌, ltb, ◌==◌, arith}
use inery_persistent_memory.StdMap.{KeyOps}

pub ltb_irrefl : (a : ℕ) → ltb a a ≡ false
ltb_irrefl a = ground arith

pub ltb_trans : (a b c : ℕ) → ltb a b ≡ true → ltb b c ≡ true → ltb a c ≡ true
ltb_trans a b c h k = ground arith

pub ltb_connected : (a b : ℕ) → ltb a b ≡ false → ltb b a ≡ false → a ≡ b
ltb_connected a b h k = ground arith

-- the unsigned types
instance abbrev pub uint_key : KeyOps ℕ
uint_key = record {
  lt = ltb;
  is_empty = λ k. k == 0;
  lt_irrefl = ltb_irrefl;
  lt_trans = ltb_trans;
  lt_connected = ltb_connected;
}

module _ {A B : Type 0} ⦃ka : KeyOps A⦄ ⦃kb : KeyOps B⦄ where
  -- operator< of `std::pair`
  abbrev pub pair_lt : A × B → A × B → Bool
  pair_lt x y = ka.lt x.0 y.0 || (not (ka.lt y.0 x.0) && kb.lt x.1 y.1)

  pub pair_lt_irrefl : (x : A × B) → pair_lt x x ≡ false
  pair_lt_irrefl x = ground (arith, ka.lt_irrefl x.0, kb.lt_irrefl x.1)

  pub pair_lt_connected : (x y : A × B) → pair_lt x y ≡ false → pair_lt y x ≡ false → x ≡ y
  pair_lt_connected x y h k =
      let first : x.0 ≡ y.0 = ka.lt_connected x.0 y.0 (ground arith) (ground arith) in
      let second : x.1 ≡ y.1 = kb.lt_connected x.1 y.1 (ground arith) (ground arith) in
      ap₂ (λ a b. (a, b)) first second

  pub pair_lt_trans : (x y z : A × B) → pair_lt x y ≡ true → pair_lt y z ≡ true → pair_lt x z ≡ true
  pair_lt_trans x y z h k = ground (
    arith,
    ka.lt_trans x.0 y.0 z.0,
    ka.lt_trans z.0 x.0 y.0,
    ka.lt_trans y.0 z.0 x.0,
    ka.lt_connected x.0 y.0,
    ka.lt_connected y.0 z.0,
    ka.lt_irrefl x.0,
    kb.lt_trans x.1 y.1 z.1,
  )

-- pair, and the tuples, which are pairs nested to the right
instance abbrev pub pair_key : {A B : Type 0} ⦃ka : KeyOps A⦄ ⦃kb : KeyOps B⦄ → KeyOps (A × B)
pair_key ⦃ka⦄ ⦃kb⦄ = record {
  lt = pair_lt;
  is_empty = λ x. ka.is_empty x.0 && kb.is_empty x.1;
  lt_irrefl = pair_lt_irrefl;
  lt_trans = pair_lt_trans;
  lt_connected = pair_lt_connected;
}
