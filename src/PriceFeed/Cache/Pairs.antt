-- ===== src/PriceFeed/Cache/Pairs.antt =====
-- `HasFeedCoinPair` after `AddFeedCoinPair` and `EraseFeedCoinPair`.
use inery_persistent_memory.Base.{
  ◌≡◌, ◌≢◌, refl, ap, sym, ◌∙◌, Bool, true, false, not, ◌&&◌, ◌||◌, none, some, [], ◌∷◌,
  if◌then◌else◌, Bool-cases, Option-cases, inl, inr,
}
use inery_persistent_memory.StdMap.{KeyOps, find, same, emplace, insert, erase_at}
use inery_persistent_memory.StdMap.Find.{same→eq, find-insert, find-erase_at}
use inery_persistent_memory.Serialize.{Codec}
use inery_persistent_memory.DbUtil.{list_value}
use inery_persistent_memory.DbConf.Prefix.{price_feed_coin_pairs}
use inery_persistent_memory.LevelDb.{LevelDb}
use inery_persistent_memory.LevelDb.Wrapper.{ok, Lookup, found, absent, failed, DbError}
use inery_persistent_memory.Composite.{visible}
use inery_persistent_memory.Simple.{SimpleCache, SimpleSession, simple_get_data}
use inery_persistent_memory.Simple.View.{simple_peek, simple_view}
use inery_persistent_memory.Simple.Reads.{simple_get_data_lem}
use inery_persistent_memory.Simple.Writes.{SimpleReadable, simple_set_data_lem}
use inery_persistent_memory.Cdp.Writes.{visible-failed}
use inery_persistent_memory.PriceFeed.Cache.{
  KeySet, count, pairs_or_none, get_feed_coin_pairs, add_to, erase_from, add_feed_coin_pair,
  erase_feed_coin_pair, has_feed_coin_pair,
}

module _ {P : Type 0} ⦃po : KeyOps P⦄ where
  -- the set that is shown
  abbrev pub pairs_in : Lookup (KeySet P) → KeySet P
  pairs_in (found l) = l
  pairs_in absent = []
  pairs_in (failed e) = []

  count-some : (q : P) (l : KeySet P) (u : Unit {0}) → find q l ≡ some u → count q l ≡ true
  unfolding count
  count-some q l u h = rw (h, count) refl

  count-none : (q : P) (l : KeySet P) → find q l ≡ none → count q l ≡ false
  unfolding count
  count-none q l h = rw (h, count) refl

  count-find :
      (q p : P) (l l' : KeySet P)
      → find q l' ≡ (if same q p then some tt else find q l)
      → count q l' ≡ (same q p || count q l)
  unfolding count
  count-find q p l l' h = elim (Bool-cases (same q p)) [
    | inl s ↦ rw s (count-some q l' tt (h ∙ rw s refl))
    | inr s ↦ rw s (let e : find q l' ≡ find q l = h ∙ rw s refl in rw (e, count) refl)
  ]

  pub count-emplace :
      (q p : P) (l : KeySet P)
      → count p l ≡ false
      → count q (emplace p tt l).0 ≡ (same q p || count q l)
  unfolding emplace
  count-emplace q p l h = elim (Option-cases (find p l)) [
    | inr (u, e) ↦ let there = count-some p l u e in cc
    | inl e ↦ rw (e, emplace) (count-find q p l (insert p tt l) (find-insert p q tt l e))
  ]

  pub count-erase_at :
      (q p : P) (l : KeySet P) → count q (erase_at p l) ≡ (not (same q p) && count q l)
  unfolding count
  count-erase_at q p l = elim (Bool-cases (same q p)) [
    | inl s ↦ rw s (count-none q (erase_at p l) (find-erase_at p q l ∙ rw s refl))
    | inr s ↦ rw s (
        let e : find q (erase_at p l) ≡ find q l = find-erase_at p q l ∙ rw s refl in
        rw (e, count) refl)
  ]

  pub count-same : (q p : P) (l : KeySet P) → count p l ≡ true → count q l ≡ (same q p || count q l)
  count-same q p l h = elim (Bool-cases (same q p)) [
    | inl s ↦ rw s (rw (same→eq q p s) h)
    | inr s ↦ rw s refl
  ]

  count-other :
      (q p : P) (l : KeySet P) → count p l ≡ false → count q l ≡ (not (same q p) && count q l)
  count-other q p l h = elim (Bool-cases (same q p)) [
    | inl s ↦ rw s (rw (same→eq q p s) h)
    | inr s ↦ rw s refl
  ]

module _ {P : Type 0} where
  pub stored_set :
      (r : Lookup (KeySet P))
      → ((e : DbError) → r ≢ failed e)
      → (l : KeySet P) × (visible r ≡ visible (found l)) × (pairs_or_none (visible r) ≡ ok l)
  unfolding pairs_or_none
  stored_set (found []) n = ([], refl, refl)
  stored_set (found (x ∷ l)) n = (x ∷ l, refl, refl)
  stored_set absent n = ([], refl, refl)
  stored_set (failed e) n = absurd (n e refl)

module _ {P D : Type 0} ⦃po : KeyOps P⦄ ⦃sc : Codec (KeySet P)⦄ ⦃ldb : LevelDb D⦄ where
  has_shown :
      (q : P) (c : SimpleCache (KeySet P) D) (l : KeySet P)
      → simple_view price_feed_coin_pairs c ≡ visible (found l)
      → (has_feed_coin_pair q c).0 ≡ ok (count q l)
  unfolding has_feed_coin_pair get_feed_coin_pairs pairs_or_none count find
  has_shown q c [] h =
      rw ((simple_get_data_lem price_feed_coin_pairs c).0 ∙ h, has_feed_coin_pair) refl
  has_shown q c (x ∷ l) h =
      rw ((simple_get_data_lem price_feed_coin_pairs c).0 ∙ h, has_feed_coin_pair) refl

  add_to_ok :
      (pair q : P) (l : KeySet P) (s : SimpleSession (KeySet P) D)
      → simple_view price_feed_coin_pairs s.cache ≡ visible (found l)
      → SimpleReadable price_feed_coin_pairs s.cache
      → ((add_to pair (ok l) s).0 ≡ ok true)
        × ((has_feed_coin_pair q (add_to pair (ok l) s).1.cache).0 ≡ ok (same q pair || count q l))
  unfolding add_to
  add_to_ok pair q l s h n = elim (Bool-cases (count pair l)) [
    | inl e ↦ rw (e, add_to) (refl, has_shown q s.cache l h ∙ ap ok (count-same q pair l e))
    | inr e ↦
        let new = (emplace pair tt l).0 in
        let (o, shown, lowers) = simple_set_data_lem price_feed_coin_pairs new s n in
        rw (e, add_to) (o, has_shown q _ new shown ∙ ap ok (count-emplace q pair l e))
  ]

  erase_from_ok :
      (pair q : P) (l : KeySet P) (s : SimpleSession (KeySet P) D)
      → simple_view price_feed_coin_pairs s.cache ≡ visible (found l)
      → SimpleReadable price_feed_coin_pairs s.cache
      → ((erase_from pair (ok l) s).0 ≡ ok true)
        × ((has_feed_coin_pair q (erase_from pair (ok l) s).1.cache).0
            ≡ ok (not (same q pair) && count q l))
  unfolding erase_from
  erase_from_ok pair q l s h n = elim (Bool-cases (count pair l)) [
    | inr e ↦ rw (e, erase_from) (refl, has_shown q s.cache l h ∙ ap ok (count-other q pair l e))
    | inl e ↦
        let new = erase_at pair l in
        let (o, shown, lowers) = simple_set_data_lem price_feed_coin_pairs new s n in
        rw (e, erase_from) (o, has_shown q _ new shown ∙ ap ok (count-erase_at q pair l))
  ]

  -- Where the database can be read, `AddFeedCoinPair` and, for a pair that is not fixed,
  -- `EraseFeedCoinPair` succeed; then `HasFeedCoinPair` finds the pair besides those it found
  -- before, or those it found before without the pair.
  pub feed_coin_pairs_lem :
      (is_fixed : P → Bool) (pair q : P) (s : SimpleSession (KeySet P) D)
      → is_fixed pair ≡ false
      → SimpleReadable price_feed_coin_pairs s.cache
      → (b : Bool) × ((has_feed_coin_pair q s.cache).0 ≡ ok b)
        × ((add_feed_coin_pair pair s).0 ≡ ok true)
        × ((has_feed_coin_pair q (add_feed_coin_pair pair s).1.cache).0 ≡ ok (same q pair || b))
        × ((erase_feed_coin_pair is_fixed pair s).0 ≡ ok true)
        × ((has_feed_coin_pair q (erase_feed_coin_pair is_fixed pair s).1.cache).0
            ≡ ok (not (same q pair) && b))
  unfolding add_feed_coin_pair erase_feed_coin_pair get_feed_coin_pairs simple_view
  feed_coin_pairs_lem is_fixed pair q s fixed n =
      let (l, shows, reads) = stored_set (simple_peek price_feed_coin_pairs s.cache) n in
      let (got, _, still, lowers, _) = simple_get_data_lem price_feed_coin_pairs s.cache in
      let after : SimpleSession (KeySet P) D = record s {
        cache = (simple_get_data price_feed_coin_pairs s.cache).1;
      } in
      let readable : SimpleReadable price_feed_coin_pairs after.cache = λ e h.
        let bad : found l ≡ failed e =
          visible-failed (found l) e (sym (still ∙ shows) ∙ ap visible h) in
        cc in
      let (a, a') = add_to_ok pair q l after (still ∙ shows) readable in
      let (e, e') = erase_from_ok pair q l after (still ∙ shows) readable in
      let known : pairs_or_none (simple_get_data price_feed_coin_pairs s.cache).0 ≡ ok l =
        ap pairs_or_none got ∙ reads in
      rw (fixed, known, add_feed_coin_pair, erase_feed_coin_pair)
        (count q l, has_shown q s.cache l shows, a, a', e, e')
