-- ===== src/Simple/Writes.antt =====
-- `SetData` and `EraseData` of a simple cache: what they show and log.
use inery_persistent_memory.Base.{
  ◌≡◌, ◌≢◌, refl, ap, sym, ◌∙◌, Bool, true, some, Bool-cases, inl, inr,
}
use inery_persistent_memory.Serialize.{Codec, ValueOps}
use inery_persistent_memory.DbConf.Prefix.{PrefixType}
use inery_persistent_memory.LevelDb.{LevelDb}
use inery_persistent_memory.LevelDb.Wrapper.{
  Outcome, ok, throws, Lookup, found, absent, failed, DbError,
}
use inery_persistent_memory.Composite.{visible}
use inery_persistent_memory.Simple.{
  SimpleCache, SimpleSession, ptr_data, log_old_single, get_data_ptr, simple_set_data,
  simple_set_found, simple_erase_data, simple_erase_found, old_or_empty,
}
use inery_persistent_memory.Simple.View.{
  simple_peek, simple_view, peek-with_data, simple_lower, lower-with_data,
}
use inery_persistent_memory.Simple.Reads.{PtrFinds, get_data_ptr-PtrFinds}

module _ {V D : Type 0} ⦃vo : ValueOps V⦄ ⦃vc : Codec V⦄ ⦃ldb : LevelDb D⦄ (p : PrefixType) where
  -- a write of a session: what was logged is what was shown
  pub record SimpleWrote (old : V) (v : V) (s s' : SimpleSession V D) : Type 0 where
    pub before : simple_view p s.cache ≡ visible (found old)
    pub after : simple_peek p s'.cache ≡ found v
    pub lowers : simple_lower p s'.cache ≡ simple_lower p s.cache
    pub logged : s'.op_log_map ≡ log_old_single p old s.op_log_map

  pub record SimpleQuiet (s s' : SimpleSession V D) : Type 0 where
    pub shown : simple_view p s'.cache ≡ simple_view p s.cache
    pub lowers : simple_lower p s'.cache ≡ simple_lower p s.cache
    pub silent : s'.op_log_map ≡ s.op_log_map

  -- What a call does: it writes one value, or nothing that is shown or logged.
  pub data SimpleEffect (s s' : SimpleSession V D) : Outcome Bool → Type 0 where
    simple_wrote : (old v : V) → SimpleWrote old v s s' → SimpleEffect s s' (ok true)
    simple_quiet : (out : Outcome Bool) → SimpleQuiet s s' → SimpleEffect s s' out

  set_found-Wrote :
      (v : V) (s : SimpleSession V D) (c' : SimpleCache V D) (r : Lookup V)
      → PtrFinds p s.cache c' r
      → ((e : DbError) → r ≢ failed e)
      → ((simple_set_found p v r (record s { cache = c' })).0 ≡ ok true)
        × SimpleWrote
            (old_or_empty (ptr_data c'))
            v
            s
            (simple_set_found p v r (record s { cache = c' })).1
  unfolding simple_set_found simple_view
  set_found-Wrote v s c' (failed e) f n = absurd (n e refl)
  set_found-Wrote v s c' absent f n = (
    refl,
    record {
      before =
          ap visible (sym f.result) ∙ rw f.holding (rw (vo.set_empty_is_empty vo.default) refl);
      after = peek-with_data p (some v) c';
      lowers = lower-with_data p (some v) c' ∙ f.lowers;
      logged = refl;
    },
  )
  set_found-Wrote v s c' (found old) f n = (
    refl,
    record {
      before = ap visible (sym f.result) ∙ rw f.holding refl;
      after = peek-with_data p (some v) c';
      lowers = lower-with_data p (some v) c' ∙ f.lowers;
      logged = refl;
    },
  )

  erase_found-Erased :
      (s : SimpleSession V D) (c' : SimpleCache V D) (r : Lookup V)
      → PtrFinds p s.cache c' r
      → SimpleEffect s
          (simple_erase_found p r (record s { cache = c' })).1
          (simple_erase_found p r (record s { cache = c' })).0
  unfolding simple_erase_found simple_view
  erase_found-Erased s c' (failed e) f =
      simple_quiet (throws e)
        (record { shown = ap visible f.shown; lowers = f.lowers; silent = refl })
  erase_found-Erased s c' absent f =
      simple_quiet (ok true)
        (record { shown = ap visible f.shown; lowers = f.lowers; silent = refl })
  erase_found-Erased s c' (found old) f = elim (Bool-cases (vo.is_empty old)) [
    | inl e ↦
        rw (e, simple_erase_found)
          (simple_quiet (ok true)
            (record { shown = ap visible f.shown; lowers = f.lowers; silent = refl }))
    | inr e ↦
        rw (e, simple_erase_found)
          (simple_wrote old (vo.set_empty old) (record {
            before = ap visible (sym f.result);
            after = peek-with_data p (some (vo.set_empty old)) c';
            lowers = lower-with_data p (some (vo.set_empty old)) c' ∙ f.lowers;
            logged = refl;
          }))
  ]

  abbrev pub SimpleReadable : SimpleCache V D → Type 0
  SimpleReadable c = (e : DbError) → simple_peek p c ≢ failed e

  -- Where the database can be read, `SetData` succeeds, the cache then shows the value, and the
  -- caches below show what they did.
  pub simple_set_data_lem :
      (v : V) (s : SimpleSession V D)
      → SimpleReadable s.cache
      → ((simple_set_data p v s).0 ≡ ok true)
        × (simple_view p (simple_set_data p v s).1.cache ≡ visible (found v))
        × (simple_lower p (simple_set_data p v s).1.cache ≡ simple_lower p s.cache)
  unfolding simple_set_data simple_view
  simple_set_data_lem v s n =
      let f = get_data_ptr-PtrFinds p s.cache in
      let (out, w) =
        set_found-Wrote v s (get_data_ptr p s.cache).1 (get_data_ptr p s.cache).0 f
          (λ e h. n e (sym f.result ∙ h)) in
      (out, ap visible w.after, w.lowers)

  set_found-Effect :
      (v : V) (s : SimpleSession V D) (c' : SimpleCache V D) (r : Lookup V)
      → PtrFinds p s.cache c' r
      → SimpleEffect s
          (simple_set_found p v r (record s { cache = c' })).1
          (simple_set_found p v r (record s { cache = c' })).0
  unfolding simple_set_found simple_view
  set_found-Effect v s c' (failed e) f =
      simple_quiet (throws e)
        (record { shown = ap visible f.shown; lowers = f.lowers; silent = refl })
  set_found-Effect v s c' absent f =
      simple_wrote _ v (set_found-Wrote v s c' absent f (λ e h. cc)).1
  set_found-Effect v s c' (found old) f =
      simple_wrote _ v (set_found-Wrote v s c' (found old) f (λ e h. cc)).1

  pub simple_set_data-Effect :
      (v : V) (s : SimpleSession V D)
      → SimpleEffect s (simple_set_data p v s).1 (simple_set_data p v s).0
  unfolding simple_set_data
  simple_set_data-Effect v s =
      set_found-Effect v s (get_data_ptr p s.cache).1 (get_data_ptr p s.cache).0
        (get_data_ptr-PtrFinds p s.cache)

  pub simple_erase_data-Effect :
      (s : SimpleSession V D) → SimpleEffect s (simple_erase_data p s).1 (simple_erase_data p s).0
  unfolding simple_erase_data
  simple_erase_data-Effect s =
      erase_found-Erased s (get_data_ptr p s.cache).1 (get_data_ptr p s.cache).0
        (get_data_ptr-PtrFinds p s.cache)
