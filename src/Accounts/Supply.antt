-- ===== src/Accounts/Supply.antt =====
-- `GetAssetTotalSupply` against the accounts that the cache shows.
use inery_persistent_memory.Base.{
  ℕ, zero, suc, ◌+◌, ◌%◌, ◌<◌, ◌≡◌, refl, ap, ◌∙◌, some, List, [], ◌∷◌, arith, add_u64, u64_mod,
  bytes_eq,
}
use inery_persistent_memory.StdMap.{KeyOps, find}
use inery_persistent_memory.StdMap.Order.{Sorted}
use inery_persistent_memory.Serialize.{Codec, ValueOps}
use inery_persistent_memory.DbConf.Prefix.{keyid_account}
use inery_persistent_memory.DbConf.Keys.{is_key_prefix}
use inery_persistent_memory.LevelDb.{LevelDb}
use inery_persistent_memory.LevelDb.Wrapper.{ok}
use inery_persistent_memory.Composite.{Cache}
use inery_persistent_memory.Composite.View.{view, database}
use inery_persistent_memory.Composite.WellFormed.{WellFormed}
use inery_persistent_memory.DbIterator.{LevelDbEntries, Iterator}
use inery_persistent_memory.DbIterator.Delivery.{length, Delivers}
use inery_persistent_memory.DbIterator.Chain.{Holds, as_lookup, cached}
use inery_persistent_memory.DbIterator.Contract.{create-Enumerates}
use inery_persistent_memory.Accounts.{
  AccountOps, AccountToken, token_total, supply_loop, get_asset_total_supply,
}

-- the amounts of one token, and those of all accounts, without a bound
abbrev pub amounts : AccountToken → ℕ
amounts t = t.free_amount + t.voted_amount + t.frozen_amount + t.staked_amount + t.pledged_amount

abbrev pub sum_of : {A R K B T : Type 0} → AccountOps A R K B T → T → List (K × A) → ℕ
sum_of ao t [] = 0
sum_of ao t (x ∷ xs) = amounts (ao.get_token x.1 t) + sum_of ao t xs

token_total-amounts : (t : AccountToken) → token_total t ≡ amounts t % u64_mod
unfolding token_total add_u64
token_total-amounts t = omega arith

module _ {A R K B T S : Type 0} (ao : AccountOps A R K B T) (it : Iterator K A S) (t : T) where
  supply_loop-sum :
      (n : ℕ) (s : S) (l : List (K × A)) (total : ℕ)
      → Delivers it s l
      → length l < n
      → total < u64_mod
      → supply_loop ao it t n s total ≡ ok ((total + sum_of ao t l) % u64_mod)
  unfolding supply_loop add_u64
  supply_loop-sum zero s l total d h b = absurd (omega arith)
  supply_loop-sum (suc n) s [] total d h b = rw (d, supply_loop) (ap ok (omega arith))
  supply_loop-sum (suc n) s (x ∷ l) total d h b =
      let (here, (s', next, rest)) = d in
      let one = token_total-amounts (ao.get_token x.1 t) in
      rw (here, supply_loop)
        (rw next (
          supply_loop-sum n s' l (add_u64 total (token_total (ao.get_token x.1 t))) rest
            (omega arith) (omega arith)
          ∙ ap ok (omega arith)))

module _ {A R K B T D : Type 0} (ao : AccountOps A R K B T) ⦃ko : KeyOps K⦄ ⦃va : ValueOps A⦄
    ⦃ck : Codec K⦄ ⦃ca : Codec A⦄ ⦃ldb : LevelDb D⦄ ⦃le : LevelDbEntries D⦄ where
  -- Over a database that holds the accounts, with the maps in order and enough fuel,
  -- `GetAssetTotalSupply` returns the sum of all amounts of the token over the accounts that the
  -- cache shows, each counted once, in 64 bits.
  pub get_asset_total_supply_lem :
      (fuel : ℕ) (t : T) (c : Cache K A D) (d : D) (stored : List (K × A))
      → database c ≡ some d
      → Holds keyid_account d stored
      → WellFormed c
      → cached c + length stored < fuel
      → (items : List (K × A)) × Sorted items
        × ((k : K) → as_lookup (find k items) ≡ view keyid_account k c)
        × (get_asset_total_supply ao fuel t c ≡ some (ok (sum_of ao t items % u64_mod)))
  unfolding get_asset_total_supply is_key_prefix bytes_eq
  get_asset_total_supply_lem fuel t c d stored hd h w enough =
      let (it, made, n) = create-Enumerates fuel keyid_account c d stored refl hd h w enough in
      let (s, starts, delivers) = n.delivers in
      let short = n.short in
      (
        n.items,
        n.in_order,
        n.shows,
        rw (made, get_asset_total_supply)
            (rw starts (
              rw
                (supply_loop-sum ao it.calls t fuel s n.items 0 delivers (omega arith)
                  (omega arith))
                (ap (λ v. some (ok v)) (omega arith)))),
      )
