-- ===== src/Tests/ParamTests.antt =====
-- Changes of the interest of positions at two heights.
use inery_persistent_memory.Base.{
  ℕ, ◌≡◌, refl, false, ◌&&◌, Option, none, some, List, [], ◌∷◌, leb, if◌then◌else◌, arith, Bytes,
}
use inery_persistent_memory.StdMap.{find, same}
use inery_persistent_memory.Serialize.{Codec}
use inery_persistent_memory.DbUtil.{list_value}
use inery_persistent_memory.DbUtil.KeyOrder.{uint_key}
use inery_persistent_memory.DbConf.Prefix.{cdp_interest_params}
use inery_persistent_memory.LevelDb.Wrapper.{ok}
use inery_persistent_memory.Composite.{Layer, Cache, on_db}
use inery_persistent_memory.Composite.View.{view, peek}
use inery_persistent_memory.SysParam.{
  InterestParams, InterestParamChange, ChangeMap, get_cdp_interest_param_changes,
}
use inery_persistent_memory.SysParam.Changes.{
  in_force, params_at, stored_changes, interest_changes_lem,
}
use inery_persistent_memory.Tests.Samples.{
  Db, empty_db, nat_codec, db_leveldb, empty_db-AllReadable,
}

abbrev encode_changes : ChangeMap → Bytes
encode_changes [] = []
encode_changes ((h, x) ∷ m) = h ∷ x.param_a ∷ x.param_b ∷ encode_changes m

abbrev decode_changes : Bytes → Option ChangeMap
decode_changes (h ∷ a ∷ b ∷ bs) = elim (decode_changes bs) [
  | none ↦ none
  | some m ↦ some ((h, record { param_a = a; param_b = b }) ∷ m)
]
decode_changes [] = some []
decode_changes _ = none

decode_changes-encode_changes : (m : ChangeMap) → decode_changes (encode_changes m) ≡ some m
decode_changes-encode_changes [] = refl
decode_changes-encode_changes ((h, x) ∷ m) = rw (decode_changes-encode_changes m) refl

instance abbrev changes_codec : Codec ChangeMap
changes_codec = record {
  encode = encode_changes;
  decode = decode_changes;
  serialize_size = λ m. 4;
  decode-encode = decode_changes-encode_changes;
}

abbrev default_params : InterestParams
default_params = record { param_a = 2; param_b = 1 }

abbrev interest_layer : Layer ℕ ChangeMap
interest_layer = record {
  map_data =
      (
        5,
        (10, record { param_a = 3; param_b = 1 }) ∷ (20, record { param_a = 4; param_b = 1 }) ∷ [],
      )
      ∷ [];
  is_calc_size = false;
  size = 0;
}

abbrev interest : Cache ℕ ChangeMap Db
interest = on_db interest_layer empty_db

interest_changes_lem_example :
    (changes : List InterestParamChange) × ((get_cdp_interest_param_changes default_params 5 7 25
        interest).0
      ≡ ok changes)
    × ((h : ℕ)
        → in_force h changes ≡ (
            if leb 7 h && leb h 25
            then params_at h default_params (stored_changes (view cdp_interest_params 5 interest))
              ∷ []
            else []))
unfolding view peek find same
interest_changes_lem_example =
    interest_changes_lem default_params 5 7 25 interest refl
      (empty_db-AllReadable {K = ℕ} {V = ChangeMap} cdp_interest_params interest_layer 5)
      ((refl, tt), (tt, tt)) (omega arith)
