-- ===== src/DbConf/Keys.antt =====
-- The database keys of persistence/dbconf.h: `ParseKeyPrefixType`, `GenDbKey`, `ParseDbKey`.
use inery_persistent_memory.Base.{
  ℕ, zero, suc, ◌≡◌, ◌≢◌, refl, ap, sym, ◌∙◌, Bool, true, not, ◌&&◌, ◌||◌, Option, none, some, List,
  [], ◌∷◌, ◌++◌, ◌==◌, if◌then◌else◌, arith, Bytes, bytes_eq, starts_with, drop_bytes,
  starts_with-append, drop_bytes-append, prefixes_comparable,
}
use mathlib.Core.Option.{some-injective}
use inery_persistent_memory.Serialize.{Codec}
use inery_persistent_memory.DbConf.Prefix.{
  PrefixType, empty, prefix_count, prefix_names, prefix_list, index,
}

-- gPrefixNameMap.find(name): of two entries of one name the map keeps the first.
find_prefix : Bytes → List PrefixType → Option PrefixType
find_prefix name [] = none
find_prefix name (p ∷ ps) = if bytes_eq (prefix_names p) name then some p else find_prefix name ps

or_empty : Option PrefixType → PrefixType
or_empty none = empty
or_empty (some p) = p

unfoldable pub parse_key_prefix_type : Bytes → PrefixType
unfolding find_prefix or_empty
parse_key_prefix_type name = or_empty (find_prefix name prefix_list)

-- What `ParseDbKey` does: it returns false, it fills the key in, or the stream throws.
pub data Parsed (K : Type 0) : Type 0 where
  rejected : Parsed K
  parsed : K → Parsed K
  stream_error : Parsed K

module _ {K : Type 0} ⦃kc : Codec K⦄ where
  unfoldable pub gen_db_key : PrefixType → K → Bytes
  gen_db_key p k = prefix_names p ++ kc.encode k

  abbrev from_stream : Option K → Parsed K
  from_stream none = stream_error
  from_stream (some k) = parsed k

  unfoldable pub parse_db_key : PrefixType → Bytes → Parsed K
  parse_db_key p slice =
      if bytes_eq (prefix_names p) [] || not (starts_with (prefix_names p) slice)
      then rejected
      else from_stream (kc.decode (drop_bytes (prefix_names p) slice))

-- Every enumerator but the count is found again by its text.
pub parse_key_prefix_type-prefix_names :
    (p : PrefixType) → p ≢ prefix_count → parse_key_prefix_type (prefix_names p) ≡ p
unfolding parse_key_prefix_type prefix_names bytes_eq
parse_key_prefix_type-prefix_names empty h = refl
parse_key_prefix_type-prefix_names prefix_count h = absurd (h refl)
parse_key_prefix_type-prefix_names _ h = refl

-- An enumerator that keys are made with.
unfoldable pub is_key_prefix : PrefixType → Bool
unfolding prefix_names
is_key_prefix p = not (bytes_eq (prefix_names p) [])

nth : List PrefixType → ℕ → Option PrefixType
nth [] i = none
nth (p ∷ ps) zero = some p
nth (p ∷ ps) (suc i) = nth ps i

nth-index : (p : PrefixType) → nth prefix_list (index p) ≡ some p
unfolding nth index
nth-index empty = refl
nth-index _ = refl

pub index-injective : (p q : PrefixType) → index p ≡ index q → p ≡ q
index-injective p q h =
    some-injective _ _ (sym (nth-index p) ∙ ap (nth prefix_list) h ∙ nth-index q)

-- the test of one pair, which the table makes for all
apart : PrefixType → PrefixType → Bool
apart p q =
    bytes_eq (prefix_names p) []
    || (bytes_eq (prefix_names q) []
        || (index p == index q
            || not (
                starts_with (prefix_names p) (prefix_names q)
                || starts_with (prefix_names q) (prefix_names p))))

all_of : (PrefixType → Bool) → List PrefixType → Bool
all_of f [] = true
all_of f (p ∷ ps) = f p && all_of f ps

all_of_sound :
    (f : PrefixType → Bool) (ps : List PrefixType) (i : ℕ) (p : PrefixType)
    → all_of f ps ≡ true
    → nth ps i ≡ some p
    → f p ≡ true
unfolding all_of nth
all_of_sound f [] i p h e = cc
all_of_sound f (q ∷ ps) zero p h e = ground arith
all_of_sound f (q ∷ ps) (suc i) p h e = ground (arith, all_of_sound f ps i p)

apart_table : all_of (λ p. all_of (apart p) prefix_list) prefix_list ≡ true
unfolding all_of apart prefix_names index bytes_eq starts_with
apart_table = refl

apart_all : (p q : PrefixType) → apart p q ≡ true
apart_all p q =
    all_of_sound (apart p) prefix_list (index q) q
      (all_of_sound (λ r. all_of (apart r) prefix_list) prefix_list (index p) p apart_table
        (nth-index p))
      (nth-index q)

-- No two texts of key prefixes begin alike, so keys of different caches never collide.
pub prefix_apart :
    (p q : PrefixType) (x y : Bytes)
    → is_key_prefix p ≡ true
    → is_key_prefix q ≡ true
    → prefix_names p ++ x ≡ prefix_names q ++ y
    → p ≡ q
unfolding apart is_key_prefix
prefix_apart p q x y hp hq e =
    index-injective p q
      (ground (arith, apart_all p q, prefixes_comparable (prefix_names p) (prefix_names q) x y))

append-cancel : (p x y : Bytes) → p ++ x ≡ p ++ y → x ≡ y
append-cancel p x y e = sym (drop_bytes-append p x) ∙ ap (drop_bytes p) e ∙ drop_bytes-append p y

module _ {K : Type 0} ⦃kc : Codec K⦄ where
  encode-injective : (a b : K) → kc.encode a ≡ kc.encode b → a ≡ b
  encode-injective a b e =
      some-injective _ _ (sym (kc.decode-encode a) ∙ ap kc.decode e ∙ kc.decode-encode b)

  pub gen_db_key-injective : (p : PrefixType) (a b : K) → gen_db_key p a ≡ gen_db_key p b → a ≡ b
  unfolding gen_db_key
  gen_db_key-injective p a b e = encode-injective a b (append-cancel (prefix_names p) _ _ e)

  -- What `GenDbKey` made, `ParseDbKey` takes apart.
  pub parse_db_key-gen_db_key :
      (p : PrefixType) (k : K) → is_key_prefix p ≡ true → parse_db_key p (gen_db_key p k) ≡ parsed k
  unfolding parse_db_key gen_db_key is_key_prefix
  parse_db_key-gen_db_key p k h =
      rw
        (
          starts_with-append (prefix_names p) (kc.encode k),
          drop_bytes-append (prefix_names p) (kc.encode k),
          kc.decode-encode k,
        )
        (ground arith)

  -- For two different prefixes of keys: `ParseDbKey` takes apart what `GenDbKey` made under its
  -- prefix, and the keys of the one are none of the other.
  pub gen_db_key_lem :
      {J : Type 0} ⦃jc : Codec J⦄ (p q : PrefixType) (k : K) (j : J)
      → is_key_prefix p ≡ true
      → is_key_prefix q ≡ true
      → p ≢ q
      → (parse_db_key p (gen_db_key p k) ≡ parsed k) × (gen_db_key p k ≢ gen_db_key q j)
  unfolding gen_db_key
  gen_db_key_lem ⦃jc⦄ p q k j hp hq n = (
    parse_db_key-gen_db_key p k hp,
    λ e. n (prefix_apart p q (kc.encode k) (jc.encode j) hp hq e),
  )
