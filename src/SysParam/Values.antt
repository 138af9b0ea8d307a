-- ===== src/SysParam/Values.antt =====
-- `GetParam` and `GetCdpParam` after `SetParam` and `SetCdpParam`, with the defaults.
use inery_persistent_memory.Base.{
  ℕ, ◌≡◌, refl, ap, sym, ◌∙◌, true, false, some, List, if◌then◌else◌, Bool-cases, inl, inr,
}
use inery_persistent_memory.StdMap.{KeyOps, same, find}
use inery_persistent_memory.StdMap.Find.{same_refl}
use inery_persistent_memory.Serialize.{Codec, ValueOps}
use inery_persistent_memory.DbConf.Prefix.{sys_param}
use inery_persistent_memory.LevelDb.{LevelDb}
use inery_persistent_memory.LevelDb.Wrapper.{ok, found}
use inery_persistent_memory.Composite.{Cache, Session, visible, set_data}
use inery_persistent_memory.Composite.View.{view}
use inery_persistent_memory.Composite.Contract.{cache_get_data_lem}
use inery_persistent_memory.Cdp.Writes.{AllReadable, set_everywhere}
use inery_persistent_memory.SysParam.{value_or, get_param, set_param}

value_or-visible :
    ⦃vo : ValueOps ℕ⦄ (default v : ℕ)
    → value_or default (visible (found v)) ≡ found (if vo.is_empty v then default else v)
unfolding value_or
value_or-visible ⦃vo⦄ default v = elim (Bool-cases (vo.is_empty v)) [
  | inl e ↦ rw e refl
  | inr e ↦ rw e refl
]

module _ {T D : Type 0} ⦃ko : KeyOps T⦄ ⦃vo : ValueOps ℕ⦄ ⦃kc : Codec T⦄ ⦃vc : Codec ℕ⦄
    ⦃ldb : LevelDb D⦄ where
  get_param-view :
      (table : List (T × ℕ)) (t : T) (default : ℕ) (c : Cache T ℕ D)
      → find t table ≡ some default
      → ko.is_empty t ≡ false
      → (get_param table t c).0 ≡ value_or default (view sys_param t c)
  unfolding get_param
  get_param-view table t default c h full =
      rw (h, get_param)
        (ap (value_or default) ((cache_get_data_lem sys_param t c).0 ∙ rw full refl))

  -- For a kind of parameter that has a default and is not the empty key, where no read fails:
  -- `SetParam` succeeds, and then `GetParam` returns the value, or the default if the value counts as empty;
  -- for the other kinds it returns what it returned before.
  pub set_param_lem :
      (table : List (T × ℕ)) (t u : T) (v default default_u : ℕ) (s : Session T ℕ D)
      → find t table ≡ some default
      → find u table ≡ some default_u
      → ko.is_empty t ≡ false
      → ko.is_empty u ≡ false
      → same u t ≡ false
      → AllReadable sys_param s.cache
      → ((set_param t v s).0 ≡ ok true)
        × ((get_param table t (set_param t v s).1.cache).0
            ≡ found (if vo.is_empty v then default else v))
        × ((get_param table u (set_param t v s).1.cache).0 ≡ (get_param table u s.cache).0)
  unfolding set_param
  set_param_lem table t u v default default_u s h hu full full_u apart all =
      let (o, w, kept) = set_everywhere sys_param t v s full all in
      let c = (set_data sys_param t v s).1.cache in
      (
        o,
        get_param-view table t default c h full
            ∙ ap (value_or default) (w t ∙ rw (same_refl t) refl)
            ∙ value_or-visible default v,
        get_param-view table u default_u c hu full_u
            ∙ ap (value_or default_u) (w u ∙ rw apart refl)
            ∙ sym (get_param-view table u default_u s.cache hu full_u),
      )
