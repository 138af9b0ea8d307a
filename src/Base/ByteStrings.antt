-- ===== src/Base/ByteStrings.antt =====
-- Byte strings: equality, prefixes and the order of `std::string`.
use inery_persistent_memory.Base.Tests.{ltb, ◌==◌}
use Prim.Native.Nat.{ℕ}
use mathlib.Core.Path.{◌≡◌, refl}
use mathlib.Core.Bool.{Bool, true, false, ◌&&◌, ◌||◌}
use mathlib.Core.List.{List, [], ◌∷◌, ◌++◌}
use native.Mathlib.Omega.{arith}

abbrev pub Bytes : Type 0
Bytes = List ℕ

-- operator== of `std::string`
unfoldable pub bytes_eq : Bytes → Bytes → Bool
bytes_eq [] [] = true
bytes_eq (a ∷ x) (b ∷ y) = a == b && bytes_eq x y
bytes_eq _ _ = false

-- operator< of `std::string` and of `leveldb::Slice`
unfoldable pub bytes_lt : Bytes → Bytes → Bool
bytes_lt [] [] = false
bytes_lt [] (b ∷ y) = true
bytes_lt (a ∷ x) [] = false
bytes_lt (a ∷ x) (b ∷ y) = ltb a b || (a == b && bytes_lt x y)

-- Slice::starts_with, the prefix first
unfoldable pub starts_with : Bytes → Bytes → Bool
starts_with [] s = true
starts_with (a ∷ p) [] = false
starts_with (a ∷ p) (b ∷ s) = a == b && starts_with p s

-- CDataStream::ignore
unfoldable pub drop_bytes : Bytes → Bytes → Bytes
drop_bytes [] s = s
drop_bytes (a ∷ p) [] = []
drop_bytes (a ∷ p) (b ∷ s) = drop_bytes p s

pub bytes_eq_refl : (a : Bytes) → bytes_eq a a ≡ true
unfolding bytes_eq
bytes_eq_refl [] = refl
bytes_eq_refl (a ∷ x) = ground (arith, bytes_eq_refl x)

pub bytes_eq→eq : (a b : Bytes) → bytes_eq a b ≡ true → a ≡ b
unfolding bytes_eq
bytes_eq→eq [] [] h = refl
bytes_eq→eq (a ∷ x) (b ∷ y) h = ground (arith, bytes_eq→eq x y)
bytes_eq→eq _ _ h = cc

pub bytes_lt_irrefl : (a : Bytes) → bytes_lt a a ≡ false
unfolding bytes_lt
bytes_lt_irrefl [] = refl
bytes_lt_irrefl (a ∷ x) = ground (arith, bytes_lt_irrefl x)

pub bytes_lt_trans :
    (a b c : Bytes) → bytes_lt a b ≡ true → bytes_lt b c ≡ true → bytes_lt a c ≡ true
unfolding bytes_lt
bytes_lt_trans [] [] c h k = cc
bytes_lt_trans [] (b ∷ y) [] h k = cc
bytes_lt_trans [] (b ∷ y) (c ∷ z) h k = refl
bytes_lt_trans (a ∷ x) [] c h k = cc
bytes_lt_trans (a ∷ x) (b ∷ y) [] h k = cc
bytes_lt_trans (a ∷ x) (b ∷ y) (c ∷ z) h k = ground (arith, bytes_lt_trans x y z)

pub bytes_lt_connected : (a b : Bytes) → bytes_lt a b ≡ false → bytes_lt b a ≡ false → a ≡ b
unfolding bytes_lt
bytes_lt_connected [] [] h k = refl
bytes_lt_connected [] (b ∷ y) h k = cc
bytes_lt_connected (a ∷ x) [] h k = cc
bytes_lt_connected (a ∷ x) (b ∷ y) h k = ground (arith, bytes_lt_connected x y)

pub starts_with-append : (p s : Bytes) → starts_with p (p ++ s) ≡ true
unfolding starts_with
starts_with-append [] s = refl
starts_with-append (a ∷ p) s = ground (arith, starts_with-append p s)

pub drop_bytes-append : (p s : Bytes) → drop_bytes p (p ++ s) ≡ s
unfolding drop_bytes
drop_bytes-append [] s = refl
drop_bytes-append (a ∷ p) s = drop_bytes-append p s

-- Of two prefixes of one text, one is a prefix of the other.
pub prefixes_comparable :
    (p q x y : Bytes) → p ++ x ≡ q ++ y → starts_with p q || starts_with q p ≡ true
unfolding starts_with
prefixes_comparable [] q x y h = refl
prefixes_comparable (a ∷ p) [] x y h = refl
prefixes_comparable (a ∷ p) (b ∷ q) x y h = ground (arith, prefixes_comparable p q x y)
