-- ===== src/SysParam.antt =====
-- `InerySysParamDBCache` of persistence/sysparamdb.h: parameters with defaults, and the changes of the
-- interest of positions. Heights are not negative, and an `IneryVarIntValue` is its number, where
-- the numbers that count as empty are a parameter.
pub mod Changes
pub mod Values
pub mod TotalBps
use inery_persistent_memory.Base.{
  ℕ, ◌-◌, Bool, true, false, Option, none, some, List, [], ◌∷◌, ltb, if◌then◌else◌,
}
use inery_persistent_memory.StdMap.{KeyOps, same, find, put_at}
use inery_persistent_memory.Serialize.{Codec, ValueOps}
use inery_persistent_memory.DbUtil.KeyOrder.{uint_key, pair_key}
use inery_persistent_memory.DbUtil.{list_value}
use inery_persistent_memory.DbConf.Prefix.{
  sys_param, producer_fee, cdp_param, cdp_interest_params, total_bps_size, new_total_bps_size,
}
use inery_persistent_memory.LevelDb.{LevelDb}
use inery_persistent_memory.LevelDb.Wrapper.{
  Outcome, ok, throws, assertion_failed, Lookup, found, absent, failed,
}
use inery_persistent_memory.Composite.{Cache, Session, cache_get_data, set_data}
use inery_persistent_memory.Simple.{SimpleCache, SimpleSession, simple_get_data, simple_set_data}

pub record InterestParams : Type 0 where
  pub param_a : ℕ
  pub param_b : ℕ

pub record InterestParamChange : Type 0 where
  pub begin_height : ℕ
  pub end_height : ℕ
  pub param_a : ℕ
  pub param_b : ℕ

-- IneryCdpInterestParamChangeMap
abbrev pub ChangeMap : Type 0
ChangeMap = List (ℕ × InterestParams)

-- the value that was stored, or the default
unfoldable pub value_or : ℕ → Lookup ℕ → Lookup ℕ
value_or default (found v) = found v
value_or default absent = found default
value_or default (failed e) = failed e

module _ {T D : Type 0} ⦃ko : KeyOps T⦄ ⦃vo : ValueOps ℕ⦄ ⦃kc : Codec T⦄ ⦃vc : Codec ℕ⦄
    ⦃ldb : LevelDb D⦄ where
  -- GetParam, where `table` has the defaults of `kSysParamTable`; absent if it returns false
  unfoldable pub get_param : List (T × ℕ) → T → Cache T ℕ D → Lookup ℕ × Cache T ℕ D
  get_param table t c = elim (find t table) [
    | none ↦ (absent, c)
    | some default ↦ let (r, c') = cache_get_data sys_param t c in (value_or default r, c')
  ]

  -- SetParam
  unfoldable pub set_param : T → ℕ → Session T ℕ D → Outcome Bool × Session T ℕ D
  set_param t v s = set_data sys_param t v s

module _ {C T D : Type 0} ⦃co : KeyOps C⦄ ⦃ko : KeyOps T⦄ ⦃vo : ValueOps ℕ⦄ ⦃kc : Codec (C × T)⦄
    ⦃vc : Codec ℕ⦄ ⦃ldb : LevelDb D⦄ where
  -- GetCdpParam, with the defaults of `kCdpParamTable`
  unfoldable pub get_cdp_param :
      List (T × ℕ) → C → T → Cache (C × T) ℕ D → Lookup ℕ × Cache (C × T) ℕ D
  get_cdp_param table pair t c = elim (find t table) [
    | none ↦ (absent, c)
    | some default ↦ let (r, c') = cache_get_data cdp_param (pair, t) c in (value_or default r, c')
  ]

  -- SetCdpParam
  unfoldable pub set_cdp_param :
      C → T → ℕ → Session (C × T) ℕ D → Outcome Bool × Session (C × T) ℕ D
  set_cdp_param pair t v s = set_data cdp_param (pair, t) v s

  -- SetProducerFee and GetProducerFee
  unfoldable pub set_producer_fee :
      C → T → ℕ → Session (C × T) ℕ D → Outcome Bool × Session (C × T) ℕ D
  set_producer_fee tx_type symbol fee s = set_data producer_fee (tx_type, symbol) fee s

  unfoldable pub get_producer_fee : C → T → Cache (C × T) ℕ D → Lookup ℕ × Cache (C × T) ℕ D
  get_producer_fee tx_type symbol c = cache_get_data producer_fee (tx_type, symbol) c

-- the map that was read, empty where there is none
unfoldable pub changes_or_none : Lookup ChangeMap → Outcome ChangeMap
changes_or_none (found m) = ok m
changes_or_none absent = ok []
changes_or_none (failed e) = throws e

module _ {C D : Type 0} ⦃co : KeyOps C⦄ ⦃kc : Codec C⦄ ⦃vc : Codec ChangeMap⦄
    ⦃ldb : LevelDb D⦄ where
  -- the end of `SetCdpInterestParam`, on the other parameter that was read
  unfoldable pub store_change :
      C
      → ℕ
      → (ℕ → InterestParams)
      → Lookup ℕ
      → ChangeMap
      → Session C ChangeMap D
      → Outcome Bool × Session C ChangeMap D
  store_change pair height item (found other) m s =
      set_data cdp_interest_params pair (put_at height (item other) m) s
  store_change pair height item absent m s = (ok false, s)
  store_change pair height item (failed e) m s = (throws e, s)

module _ {C T D : Type 0} ⦃co : KeyOps C⦄ ⦃ko : KeyOps T⦄ ⦃vo : ValueOps ℕ⦄ ⦃kc : Codec C⦄
    ⦃tc : Codec (C × T)⦄ ⦃nc : Codec ℕ⦄ ⦃vc : Codec ChangeMap⦄ ⦃ldb : LevelDb D⦄ where
  -- the branches of `SetCdpInterestParam` on the kind of parameter, where `kind_a` is
  -- `CDP_INTEREST_PARAM_A` and `kind_b` is `CDP_INTEREST_PARAM_B`
  unfoldable pub change_param :
      (table : List (T × ℕ)) (kind_a kind_b : T)
      → C
      → T
      → ℕ
      → ℕ
      → Outcome ChangeMap
      → Session C ChangeMap D × Cache (C × T) ℕ D
      → Outcome Bool × (Session C ChangeMap D × Cache (C × T) ℕ D)
  change_param table kind_a kind_b pair kind height value (throws e) s = (throws e, s)
  change_param table kind_a kind_b pair kind height value (ok m) s =
      if same kind kind_a
      then (let (b, params) = get_cdp_param table pair kind_b s.1 in
          let (o, changes) =
            store_change pair height (λ other. record { param_a = value; param_b = other }) b m
              s.0 in
          (o, (changes, params)))
      else (if same kind kind_b
          then (let (a, params) = get_cdp_param table pair kind_a s.1 in
              let (o, changes) =
                store_change pair height (λ other. record { param_a = other; param_b = value }) a m
                  s.0 in
              (o, (changes, params)))
          else (throws assertion_failed, s))

  -- SetCdpInterestParam
  unfoldable pub set_cdp_interest_param :
      (table : List (T × ℕ)) (kind_a kind_b : T)
      → C
      → T
      → ℕ
      → ℕ
      → Session C ChangeMap D × Cache (C × T) ℕ D
      → Outcome Bool × (Session C ChangeMap D × Cache (C × T) ℕ D)
  set_cdp_interest_param table kind_a kind_b pair kind height value s =
      let (r, c) = cache_get_data cdp_interest_params pair s.0.cache in
      change_param table kind_a kind_b pair kind height value (changes_or_none r)
        (record s.0 { cache = c }, s.1)

-- the loop over `it` that finds `beginChangeIt`, and the entries after it
unfoldable pub begin_change :
    ℕ → Option InterestParams → ChangeMap → Option InterestParams × ChangeMap
begin_change begin best [] = (best, [])
begin_change begin best (x ∷ m) =
    let rest = begin_change begin (some x.1) m in if ltb begin x.0 then (best, x ∷ m) else rest

unfoldable pub change_from : ℕ → InterestParams → InterestParamChange
change_from height x = record {
  begin_height = height;
  end_height = 0;
  param_a = x.param_a;
  param_b = x.param_b;
}

-- the loop that pushes the changes, where `back` is `changes.back()`
unfoldable pub push_changes : ℕ → InterestParamChange → ChangeMap → List InterestParamChange
push_changes end back [] = record back { end_height = end } ∷ []
push_changes end back (x ∷ m) =
    let rest = push_changes end (change_from x.0 x.1) m in
    if ltb end x.0
    then record back { end_height = end } ∷ []
    else record back { end_height = x.0 - 1 } ∷ rest

-- the parameters at the begin, or those of `GetCdpParamDefaultValue`
unfoldable pub params_or : InterestParams → Option InterestParams → InterestParams
params_or default none = default
params_or default (some x) = x

-- `GetCdpInterestParamChanges` after the map was read
unfoldable pub changes_between : InterestParams → ℕ → ℕ → ChangeMap → List InterestParamChange
changes_between default begin end m =
    let (first, rest) = begin_change begin none m in
    push_changes end (change_from begin (params_or default first)) rest

module _ {C D : Type 0} ⦃co : KeyOps C⦄ ⦃kc : Codec C⦄ ⦃vc : Codec ChangeMap⦄
    ⦃ldb : LevelDb D⦄ where
  -- GetCdpInterestParamChanges
  unfoldable pub get_cdp_interest_param_changes :
      InterestParams
      → C
      → ℕ
      → ℕ
      → Cache C ChangeMap D
      → Outcome (List InterestParamChange) × Cache C ChangeMap D
  get_cdp_interest_param_changes default pair begin end c =
      let (r, c') = cache_get_data cdp_interest_params pair c in
      (
        elim (changes_or_none r) [
          | ok m ↦ ok (changes_between default begin end m)
          | throws e ↦ throws e
        ],
        c',
      )
