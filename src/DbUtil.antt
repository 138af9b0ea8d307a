-- ===== src/DbUtil.antt =====
-- `db_util` of persistence/dbaccess.h: which values of the types that caches hold are empty, and the
-- order of keys that are numbers, pairs or tuples.
pub mod KeyOrder
use inery_persistent_memory.Base.{
  ℕ, ◌≡◌, refl, Bool, true, false, not, ◌&&◌, ◌||◌, Option, none, some, List, [], ◌∷◌, ltb, ◌==◌,
  arith,
}
use inery_persistent_memory.Serialize.{ValueOps}

-- DEFINE_NUMERIC_DB_FUNC, for the unsigned types
instance abbrev pub uint_value : ValueOps ℕ
uint_value = record {
  is_empty = λ v. v == 0;
  set_empty = λ v. 0;
  default = 0;
  set_empty_is_empty = λ v. refl;
}

instance abbrev pub bool_value : ValueOps Bool
bool_value = record {
  is_empty = not;
  set_empty = λ v. false;
  default = false;
  set_empty_is_empty = λ v. refl;
}

abbrev pub no_items : {A : Type 0} → List A → Bool
no_items [] = true
no_items (x ∷ xs) = false

-- vector, basic_string, set and map: `empty()` and `clear()`
instance abbrev pub list_value : {A : Type 0} → ValueOps (List A)
list_value = record {
  is_empty = no_items;
  set_empty = λ v. [];
  default = [];
  set_empty_is_empty = λ v. refl;
}

abbrev pub no_value : {A : Type 0} → Option A → Bool
no_value none = true
no_value (some a) = false

-- optional
instance abbrev pub optional_value : {A : Type 0} → ValueOps (Option A)
optional_value = record {
  is_empty = no_value;
  set_empty = λ v. none;
  default = none;
  set_empty_is_empty = λ v. refl;
}

pub pair_set_empty_is_empty :
    {A B : Type 0} ⦃va : ValueOps A⦄ ⦃vb : ValueOps B⦄
    → (x : A × B) → va.is_empty (va.set_empty x.0) && vb.is_empty (vb.set_empty x.1) ≡ true
pair_set_empty_is_empty ⦃va⦄ ⦃vb⦄ x =
    ground (arith, va.set_empty_is_empty x.0, vb.set_empty_is_empty x.1)

-- pair, and the tuples, which are pairs nested to the right
instance abbrev pub pair_value :
    {A B : Type 0} ⦃va : ValueOps A⦄ ⦃vb : ValueOps B⦄ → ValueOps (A × B)
pair_value ⦃va⦄ ⦃vb⦄ = record {
  is_empty = λ x. va.is_empty x.0 && vb.is_empty x.1;
  set_empty = λ x. (va.set_empty x.0, vb.set_empty x.1);
  default = (va.default, vb.default);
  set_empty_is_empty = pair_set_empty_is_empty;
}

module _ {A : Type 0} ⦃va : ValueOps A⦄ where
  abbrev pub pointee_is_empty : Option A → Bool
  pointee_is_empty none = true
  pointee_is_empty (some a) = va.is_empty a

  abbrev pub pointee_set_empty : Option A → Option A
  pointee_set_empty none = some (va.set_empty va.default)
  pointee_set_empty (some a) = some (va.set_empty a)

  pub pointee_set_empty_is_empty : (o : Option A) → pointee_is_empty (pointee_set_empty o) ≡ true
  pointee_set_empty_is_empty none = va.set_empty_is_empty va.default
  pointee_set_empty_is_empty (some a) = va.set_empty_is_empty a

-- shared_ptr, `none` being the null pointer
abbrev pub shared_ptr_value : {A : Type 0} ⦃va : ValueOps A⦄ → ValueOps (Option A)
shared_ptr_value = record {
  is_empty = pointee_is_empty;
  set_empty = pointee_set_empty;
  default = none;
  set_empty_is_empty = pointee_set_empty_is_empty;
}
