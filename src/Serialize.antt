-- ===== src/Serialize.antt =====
-- What the persistence layer relies on in `CDataStream` (basics/serialize.h, not in the repository):
-- reading back what was written gives the value that was written.
use inery_persistent_memory.Base.{ℕ, ◌≡◌, Bool, true, Option, some, Bytes}

-- `operator<<` and `operator>>` of a type, `none` being an exception of the stream, and
-- `GetSerializeSize`.
pub record Codec (A : Type 0) : Type 0 where
  pub encode : A → Bytes
  pub decode : Bytes → Option A
  pub serialize_size : A → ℕ
  pub decode-encode : (a : A) → decode (encode a) ≡ some a

-- The value types of the caches: `db_util::IsEmpty`, `db_util::SetEmpty` and the default
-- constructor.
pub record ValueOps (V : Type 0) : Type 0 where
  pub is_empty : V → Bool
  pub set_empty : V → V
  pub default : V
  pub set_empty_is_empty : (v : V) → is_empty (set_empty v) ≡ true

-- MakeEmptyValue
abbrev pub make_empty_value : {V : Type 0} ⦃vo : ValueOps V⦄ → V
make_empty_value ⦃vo⦄ = vo.set_empty vo.default
