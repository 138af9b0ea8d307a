-- ===== src/SysParam/Changes.antt =====
-- `GetCdpInterestParamChanges`: which parameters are in force at which height.
use inery_persistent_memory.Base.{
  ℕ, ◌≤◌, ◌≡◌, ◌≢◌, refl, ap, ◌∙◌, false, ◌&&◌, Option, none, some, List, [], ◌∷◌, ltb, leb,
  if◌then◌else◌, arith, Bool-cases, inl, inr,
}
use inery_persistent_memory.StdMap.{KeyOps}
use inery_persistent_memory.StdMap.Order.{AllAbove, Sorted, AllAbove-trans}
use inery_persistent_memory.DbUtil.KeyOrder.{uint_key}
use inery_persistent_memory.DbUtil.{list_value}
use inery_persistent_memory.Serialize.{Codec}
use inery_persistent_memory.DbConf.Prefix.{cdp_interest_params}
use inery_persistent_memory.LevelDb.{LevelDb}
use inery_persistent_memory.LevelDb.Wrapper.{ok, Lookup, found, absent, failed, DbError}
use inery_persistent_memory.Composite.{Cache, cache_get_data}
use inery_persistent_memory.Composite.View.{view}
use inery_persistent_memory.Composite.Contract.{Readable, cache_get_data_lem}
use inery_persistent_memory.Cdp.Writes.{Readable-view}
use inery_persistent_memory.SysParam.{
  changes_or_none, get_cdp_interest_param_changes, InterestParams, InterestParamChange, ChangeMap,
  begin_change, change_from, push_changes, params_or, changes_between,
}

-- the parameters of the last change that is not above the height
unfoldable pub params_at : ℕ → InterestParams → ChangeMap → InterestParams
params_at h x [] = x
params_at h x (y ∷ m) = let rest = params_at h y.1 m in if ltb h y.0 then x else rest

-- the parameters of the changes whose range has the height
unfoldable pub in_force : ℕ → List InterestParamChange → List InterestParams
in_force h [] = []
in_force h (c ∷ l) =
    let rest = in_force h l in
    if leb c.begin_height h && leb h c.end_height
    then record { param_a = c.param_a; param_b = c.param_b } ∷ rest
    else rest

push_changes-in_force :
    (h end b : ℕ) (x : InterestParams) (m : ChangeMap)
    → b ≤ end
    → AllAbove b m
    → Sorted m
    → in_force h (push_changes end (change_from b x) m)
      ≡ (if leb b h && leb h end then params_at h x m ∷ [] else [])
unfolding push_changes change_from params_at in_force
push_changes-in_force h end b x [] le a s = refl
push_changes-in_force h end b x (y ∷ m) le a s = elim (Bool-cases (ltb end y.0)) [
  | inl e ↦ rw (e, push_changes) (ground arith)
  | inr e ↦
      rw (e, push_changes)
        (ground (arith, push_changes-in_force h end y.0 y.1 m (ground arith) s.0 s.1, a.0))
]

-- the map is split at the begin
begin_change-params :
    (h b : ℕ) (default : InterestParams) (best : Option InterestParams) (m : ChangeMap)
    → b ≤ h
    → Sorted m
    → (params_at h (params_or default (begin_change b best m).0) (begin_change b best m).1
        ≡ params_at h (params_or default best) m)
      × AllAbove b (begin_change b best m).1
      × Sorted (begin_change b best m).1
unfolding begin_change params_at params_or
begin_change-params h b default best [] le s = (refl, tt, tt)
begin_change-params h b default best (y ∷ m) le s = elim (Bool-cases (ltb b y.0)) [
  | inl e ↦ rw (e, begin_change) (refl, (e, AllAbove-trans b y.0 m e s.0), s)
  | inr e ↦
      let (same_params, above, sorted) = begin_change-params h b default (some y.1) m le s.1 in
      let reached : ltb h y.0 ≡ false = ground arith in
      rw (e, begin_change) (same_params ∙ rw (reached, params_at) refl, above, sorted)
]

changes_between-in_force :
    (default : InterestParams) (b end h : ℕ) (m : ChangeMap)
    → b ≤ end
    → Sorted m
    → in_force h (changes_between default b end m)
      ≡ (if leb b h && leb h end then params_at h default m ∷ [] else [])
unfolding changes_between params_or
changes_between-in_force default b end h m le s =
    let (_, above, sorted) = begin_change-params b b default none m (omega arith) s in
    push_changes-in_force h end b (params_or default (begin_change b none m).0)
      (begin_change b none m).1 le above sorted
    ∙ elim (Bool-cases (leb b h)) [
      | inr e ↦ rw e refl
      | inl e ↦ rw e (
          ap (λ x. if leb h end then x ∷ [] else [])
            (begin_change-params h b default none m (ground arith) s).0)
    ]

-- the changes that a cache shows
abbrev pub stored_changes : Lookup ChangeMap → ChangeMap
stored_changes (found m) = m
stored_changes absent = []
stored_changes (failed e) = []

changes_or_none-stored :
    (r : Lookup ChangeMap)
    → ((e : DbError) → r ≢ failed e)
    → changes_or_none r ≡ ok (stored_changes r)
unfolding changes_or_none
changes_or_none-stored (found m) n = refl
changes_or_none-stored absent n = refl
changes_or_none-stored (failed e) n = absurd (n e refl)

module _ {C D : Type 0} ⦃co : KeyOps C⦄ ⦃kc : Codec C⦄ ⦃vc : Codec ChangeMap⦄
    ⦃ldb : LevelDb D⦄ where
  -- For a coin pair that is not empty, a cache that can be read there and shows a map in order, and
  -- a begin that is not above the end: `GetCdpInterestParamChanges` returns a list in which each
  -- height from the begin to the end lies in the range of exactly one change, with the parameters
  -- of the last stored change that is not above the height or else the defaults, and other
  -- heights lie in none.
  pub interest_changes_lem :
      (default : InterestParams) (pair : C) (b end : ℕ) (c : Cache C ChangeMap D)
      → co.is_empty pair ≡ false
      → Readable cdp_interest_params pair c
      → Sorted (stored_changes (view cdp_interest_params pair c))
      → b ≤ end
      → (changes : List InterestParamChange) × ((get_cdp_interest_param_changes default pair b end
            c).0
          ≡ ok changes)
        × ((h : ℕ)
            → in_force h changes ≡ (
                if leb b h && leb h end
                then params_at h default (stored_changes (view cdp_interest_params pair c)) ∷ []
                else []))
  unfolding get_cdp_interest_param_changes
  interest_changes_lem default pair b end c full n s le =
      let (got, _) = cache_get_data_lem cdp_interest_params pair c in
      let shows : (cache_get_data cdp_interest_params pair c).0 ≡ view cdp_interest_params pair c =
        got ∙ rw full refl in
      let m = stored_changes (view cdp_interest_params pair c) in
      let map_read =
        changes_or_none-stored (view cdp_interest_params pair c)
          (Readable-view cdp_interest_params pair c n) in
      (
        changes_between default b end m,
        rw (shows, map_read, get_cdp_interest_param_changes) refl,
        λ h. changes_between-in_force default b end h m le s,
      )
