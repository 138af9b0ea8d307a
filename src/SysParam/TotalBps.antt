-- ===== src/SysParam/TotalBps.antt =====
-- The number of block producers in `InerySysParamDBCache` of persistence/sysparamdb.h.
use inery_persistent_memory.Base.{ℕ, Bool, ltb, if◌then◌else◌}
use inery_persistent_memory.Serialize.{Codec, ValueOps}
use inery_persistent_memory.DbUtil.{uint_value}
use inery_persistent_memory.DbConf.Prefix.{total_bps_size, new_total_bps_size}
use inery_persistent_memory.LevelDb.{LevelDb}
use inery_persistent_memory.LevelDb.Wrapper.{Outcome, ok, throws, found, absent, failed}
use inery_persistent_memory.Simple.{SimpleCache, SimpleSession, simple_get_data, simple_set_data}

module _ {D : Type 0} ⦃po : ValueOps (ℕ × ℕ)⦄ ⦃nc : Codec ℕ⦄ ⦃pc : Codec (ℕ × ℕ)⦄
    ⦃ldb : LevelDb D⦄ where
  -- SetNewTotalBpsSize and SetCurrentTotalBpsSize
  unfoldable pub set_new_total_bps_size :
      ℕ → ℕ → SimpleSession (ℕ × ℕ) D → Outcome Bool × SimpleSession (ℕ × ℕ) D
  set_new_total_bps_size size effective_height s =
      simple_set_data new_total_bps_size (effective_height, size) s

  unfoldable pub set_current_total_bps_size :
      ℕ → SimpleSession ℕ D → Outcome Bool × SimpleSession ℕ D
  set_current_total_bps_size size s = simple_set_data total_bps_size size s

  -- the current size, or the number of delegates of the configuration
  unfoldable pub current_or :
      ℕ
      → SimpleCache (ℕ × ℕ) D × SimpleCache ℕ D
      → Outcome ℕ × (SimpleCache (ℕ × ℕ) D × SimpleCache ℕ D)
  current_or delegate_num c =
      let (r, current) = simple_get_data total_bps_size c.1 in
      (
        elim r [ found size ↦ ok size | absent ↦ ok delegate_num | failed e ↦ throws e ],
        (c.0, current),
      )

  -- GetTotalBpsSize
  unfoldable pub get_total_bps_size :
      ℕ
      → ℕ
      → SimpleCache (ℕ × ℕ) D × SimpleCache ℕ D
      → Outcome ℕ × (SimpleCache (ℕ × ℕ) D × SimpleCache ℕ D)
  get_total_bps_size delegate_num height c =
      let (r, new) = simple_get_data new_total_bps_size c.0 in
      let current = current_or delegate_num (new, c.1) in
      elim r [
        | found x ↦ if ltb height x.0 then current else (ok x.1, (new, c.1))
        | absent ↦ current
        | failed e ↦ (throws e, (new, c.1))
      ]
