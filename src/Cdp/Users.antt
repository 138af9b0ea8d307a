-- ===== src/Cdp/Users.antt =====
-- The entries of the users, which say for an owner and a pair which position the owner has.
use inery_persistent_memory.Base.{
  ◌≡◌, refl, ap, sym, ◌∙◌, subst, Option, some, if◌then◌else◌, Bool-cases, inl, inr,
}
use inery_persistent_memory.StdMap.{KeyOps, same}
use inery_persistent_memory.StdMap.Find.{same→eq, same_refl}
use inery_persistent_memory.Serialize.{Codec, ValueOps}
use inery_persistent_memory.DbUtil.{optional_value}
use inery_persistent_memory.DbUtil.KeyOrder.{uint_key, pair_key}
use inery_persistent_memory.LevelDb.{LevelDb}
use inery_persistent_memory.LevelDb.Wrapper.{Lookup, found, absent}
use inery_persistent_memory.Cdp.{RatioOps, UserCdp, CdpGlobalData, RatioKey, HeightKey, CdpDb}
use inery_persistent_memory.Cdp.Filled.{Filled}
use inery_persistent_memory.Cdp.Positions.{shown_cdps, shown_users}

found_injective : {A : Type 0} {a b : A} → found a ≡ found b → a ≡ b
found_injective h = cc

module _ {I P R Q : Type 0} ⦃io : KeyOps I⦄ ⦃po : KeyOps P⦄ ⦃ro : KeyOps R⦄ where
  abbrev pub user_key : UserCdp I P R Q → R × P
  user_key c = (c.owner_regid, c.coin_pair)

  -- The entries name exactly the positions: `stored` is what the map of positions shows, under
  -- their ids, and `users` what the cache of the users' entries shows.
  pub record ByUser (stored : I → Lookup (UserCdp I P R Q)) (users : R × P → Lookup (Option I))
      : Type 0 where
    pub named :
        (i : I) (c : UserCdp I P R Q) → stored i ≡ found c → users (user_key c) ≡ found (some i)
    pub backed :
        (k : R × P) (i : I)
        → users k ≡ found (some i)
        → (c : UserCdp I P R Q) × (stored i ≡ found c) × (user_key c ≡ k)

  pub ByUser-insert :
      (c : UserCdp I P R Q) (stored stored' : I → Lookup (UserCdp I P R Q))
      (users users' : R × P → Lookup (Option I))
      → ByUser stored users
      → stored c.cdpid ≡ absent
      → users (user_key c) ≡ absent
      → ((i : I) → stored' i ≡ (if same i c.cdpid then found c else stored i))
      → ((k : R × P) → users' k ≡ (if same k (user_key c) then found (some c.cdpid) else users k))
      → ByUser stored' users'
  ByUser-insert c stored stored' users users' x fresh free hs hu = record {
    named = λ i a h. elim (Bool-cases (same i c.cdpid)) [
      | inl s ↦
          let e : c ≡ a = found_injective (sym (hs i ∙ rw s refl) ∙ h) in
          subst (λ b. users' (user_key b) ≡ found (some i)) e
            (hu (user_key c)
              ∙ rw (same_refl (user_key c)) (ap (λ j. found (some j)) (sym (same→eq i c.cdpid s))))
      | inr s ↦
          let was : stored i ≡ found a = sym (hs i ∙ rw s refl) ∙ h in
          elim (Bool-cases (same (user_key a) (user_key c))) [
            | inl t ↦
                let taken : users (user_key c) ≡ found (some i) =
                  ap users (sym (same→eq (user_key a) (user_key c) t)) ∙ x.named i a was in
                cc
            | inr t ↦ hu (user_key a) ∙ rw t (x.named i a was)
          ]
    ];
    backed = λ k i h. elim (Bool-cases (same k (user_key c))) [
      | inl s ↦
          let e : some c.cdpid ≡ some i = found_injective (sym (hu k ∙ rw s refl) ∙ h) in
          let id : c.cdpid ≡ i = cc in
          (
            c,
            subst (λ j. stored' j ≡ found c) id (hs c.cdpid ∙ rw (same_refl c.cdpid) refl),
            sym (same→eq k (user_key c) s),
          )
      | inr s ↦
          let (a, was, key) = x.backed k i (sym (hu k ∙ rw s refl) ∙ h) in
          elim (Bool-cases (same i c.cdpid)) [
            | inl t ↦ let gone : stored i ≡ absent = ap stored (same→eq i c.cdpid t) ∙ fresh in cc
            | inr t ↦ (a, hs i ∙ rw t was, key)
          ]
    ];
  }

module _ {I P R Q D : Type 0} ⦃io : KeyOps I⦄ ⦃po : KeyOps P⦄ ⦃ro : KeyOps R⦄
    ⦃vc : ValueOps (UserCdp I P R Q)⦄ ⦃vg : ValueOps CdpGlobalData⦄ ⦃ci : Codec I⦄ ⦃cp : Codec P⦄
    ⦃cc : Codec (UserCdp I P R Q)⦄ ⦃cg : Codec CdpGlobalData⦄ ⦃cu : Codec (R × P)⦄
    ⦃co : Codec (Option I)⦄ ⦃cr : Codec (RatioKey I P)⦄ ⦃ch : Codec (HeightKey I P)⦄
    ⦃ldb : LevelDb D⦄ (ratio_ops : RatioOps Q) where
  -- the users' entries of an object name exactly its positions
  abbrev pub UsersNamed : CdpDb I P R Q D → Type 0
  UsersNamed db = ByUser (shown_cdps ratio_ops db) (shown_users ratio_ops db)
