-- ===== src/Tests/DelegateTests.antt =====
-- Votes in two layers over an empty database, and a list of active delegates.
use inery_persistent_memory.Base.{
  ℕ, ◌-◌, bytes_lt, Bool-cases, inl, inr, ◌≤◌, ◌≡◌, refl, true, false, Option, none, some, List, [],
  ◌∷◌, if◌then◌else◌, ◌==◌, arith, Bytes, bytes_eq,
}
use inery_persistent_memory.StdMap.{find, same, lower_bound}
use inery_persistent_memory.StdMap.Find.{same→eq}
use inery_persistent_memory.DbConf.Keys.{gen_db_key}
use inery_persistent_memory.StdMap.Order.{Sorted}
use inery_persistent_memory.Serialize.{Codec}
use inery_persistent_memory.DbUtil.{uint_value, list_value}
use inery_persistent_memory.DbUtil.KeyOrder.{uint_key, pair_key}
use inery_persistent_memory.OpLog.{bytes_key}
use inery_persistent_memory.DbConf.Prefix.{vote, prefix_names, active_delegates}
use inery_persistent_memory.LevelDb.Wrapper.{ok, found, absent, read, get_bytes}
use inery_persistent_memory.LevelDb.Access.{get_data, get_single}
use inery_persistent_memory.Composite.{Cache, Session, on_db, on_base}
use inery_persistent_memory.Composite.View.{view, peek, database}
use inery_persistent_memory.Composite.Contract.{Readable}
use inery_persistent_memory.Simple.{SimpleCache, SimpleSession, simple_on_db}
use inery_persistent_memory.Simple.View.{simple_peek}
use inery_persistent_memory.Simple.Writes.{SimpleReadable}
use inery_persistent_memory.DbIterator.Chain.{Holds, as_lookup}
use inery_persistent_memory.Delegates.{
  RegIdOps, VoteDelegate, VoteKey, ulong_max, vote_key, delegate_vote_to_key, not_empty, number_of,
  get_top_vote_delegates, set_delegate_votes, erase_delegate_votes, get_active_delegates,
  set_active_delegates, get_actived_delegate_num, is_active_delegate,
}
use inery_persistent_memory.Delegates.Top.{
  first_n, Descending, enough_votes, VoteOf, Keyed, get_top_vote_delegates_lem,
}
use inery_persistent_memory.Delegates.Votes.{same_votes, delegate_votes_lem}
use inery_persistent_memory.Delegates.Active.{is_listed, active_delegates_lem}
use inery_persistent_memory.Tests.Samples.{nat_codec, Db, db_leveldb, empty_db}
use inery_persistent_memory.Tests.Stores.{Store, store_leveldb, store_entries}

-- a regid is its raw bytes
instance abbrev raw_reg_id : RegIdOps Bytes
raw_reg_id = record {
  is_empty = λ r. bytes_eq r [];
  get_reg_id_raw = λ r. r;
  of_raw = λ r. r;
  of_raw-get_reg_id_raw = λ r. refl;
}

abbrev decode_vote_key : Bytes → Option VoteKey
decode_vote_key [] = none
decode_vote_key (n ∷ raw) = some (n, raw)

instance abbrev vote_key_codec : Codec VoteKey
vote_key_codec = record {
  encode = λ k. k.0 ∷ k.1;
  decode = decode_vote_key;
  serialize_size = λ k. 14;
  decode-encode = λ k. refl;
}

-- 150 votes for a delegate in the database
abbrev vote_store : Store
vote_store = (gen_db_key {K = VoteKey} vote (18446744073709551465, 8 ∷ []), 1 ∷ []) ∷ []

abbrev votes_stored : List (VoteKey × ℕ)
votes_stored = ((18446744073709551465, 8 ∷ []), 1) ∷ []

vote_store-Holds : Holds vote vote_store votes_stored
unfolding gen_db_key get_data find lower_bound same bytes_lt read get_bytes prefix_names
vote_store-Holds = record {
  others = [];
  stands = refl;
  seeks = λ k. ground arith;
  ends = tt;
  in_order = (tt, tt);
  reads = λ k. ground arith;
}

-- 300 votes for one delegate and 100 for another, and 200 for a third in the base
abbrev votes_below : Cache VoteKey ℕ Store
votes_below =
    on_db
      (record {
        map_data = ((18446744073709551415, 7 ∷ []), 1) ∷ [];
        is_calc_size = true;
        size = 0;
      })
      vote_store

abbrev votes : Cache VoteKey ℕ Store
votes =
    on_base
      (record {
        map_data = ((18446744073709551315, 5 ∷ []), 1) ∷ ((18446744073709551515, 6 ∷ []), 1) ∷ [];
        is_calc_size = false;
        size = 0;
      })
      votes_below

vote_of :
    (raw : Bytes) (v : ℕ)
    → v ≤ ulong_max
    → VoteOf (ulong_max - v, raw) (record { regid = raw; votes = v })
unfolding vote_key delegate_vote_to_key
vote_of raw v h = record { in_range = h; made = refl }

votes-VoteOf :
    (k : VoteKey) (n : ℕ) → view vote k votes ≡ found n → (d : VoteDelegate Bytes) × VoteOf k d
unfolding view peek find
votes-VoteOf k n h = elim (Bool-cases (same k (18446744073709551315, 5 ∷ []))) [
  | inl s ↦ rw (same→eq k _ s) (_, vote_of (5 ∷ []) 300 (omega arith))
  | inr s ↦ elim (Bool-cases (same k (18446744073709551515, 6 ∷ []))) [
    | inl t ↦ rw (same→eq k _ t) (_, vote_of (6 ∷ []) 100 (omega arith))
    | inr t ↦ elim (Bool-cases (same k (18446744073709551415, 7 ∷ []))) [
      | inl u ↦ rw (same→eq k _ u) (_, vote_of (7 ∷ []) 200 (omega arith))
      | inr u ↦ elim (Bool-cases (same k (18446744073709551465, 8 ∷ []))) [
        | inl w ↦ rw (same→eq k _ w) (_, vote_of (8 ∷ []) 150 (omega arith))
        | inr w ↦
            let gone : view vote k votes ≡ absent =
              rw (s, t, u, vote_store-Holds.reads k, w) refl in
            cc
      ]
    ]
  ]
]

get_top_vote_delegates_lem_example :
    (items : List (VoteKey × ℕ)) × (delegates : List (VoteDelegate Bytes)) × Sorted items
    × ((k : VoteKey) → as_lookup (find k items) ≡ view vote k votes)
    × Keyed items delegates
    × (get_top_vote_delegates {R = Bytes} 9 2 150 true votes
        ≡ some (
            ok (
              not_empty (first_n 2 (enough_votes 150 true delegates)),
              first_n 2 (enough_votes 150 true delegates),
            )))
    × Descending (first_n 2 (enough_votes 150 true delegates))
unfolding database
get_top_vote_delegates_lem_example =
    get_top_vote_delegates_lem 9 2 150 true votes vote_store votes_stored refl vote_store-Holds
      (((refl, tt), (tt, tt)), (tt, tt)) (omega arith) votes-VoteOf

abbrev seventh : Bytes
seventh = 7 ∷ []

abbrev vote_session : Session VoteKey ℕ Db
vote_session = record {
  cache = on_db (record { map_data = []; is_calc_size = true; size = 0 }) empty_db;
  op_log_map = none;
}

vote-Readable : Readable vote (vote_key seventh 200) vote_session.cache
unfolding peek find get_data read get_bytes
vote-Readable e q = cc

delegate_votes_lem_example :
    ((set_delegate_votes seventh 200 vote_session).0 ≡ ok true)
    × ((erase_delegate_votes seventh 200 vote_session).0 ≡ ok true)
    × ((q : Bytes) (w : ℕ)
        → w ≤ 18446744073709551615
        → (view vote (vote_key q w) (set_delegate_votes seventh 200 vote_session).1.cache ≡ (
            if same_votes q w seventh 200
            then found 1
            else view vote (vote_key q w) vote_session.cache))
          × (view vote (vote_key q w) (erase_delegate_votes seventh 200 vote_session).1.cache ≡ (
              if same_votes q w seventh 200
              then absent
              else view vote (vote_key q w) vote_session.cache)))
unfolding bytes_eq vote_key delegate_vote_to_key
delegate_votes_lem_example =
    delegate_votes_lem seventh 200 vote_session refl (omega arith) refl vote-Readable

abbrev delegates_bytes : List (VoteDelegate ℕ) → Bytes
delegates_bytes [] = []
delegates_bytes (d ∷ ds) = d.regid ∷ d.votes ∷ delegates_bytes ds

abbrev and_one : ℕ → ℕ → Option (List (VoteDelegate ℕ)) → Option (List (VoteDelegate ℕ))
and_one r v none = none
and_one r v (some ds) = some (record { regid = r; votes = v } ∷ ds)

abbrev decode_delegates : Bytes → Option (List (VoteDelegate ℕ))
decode_delegates [] = some []
decode_delegates (r ∷ []) = none
decode_delegates (r ∷ v ∷ rest) = and_one r v (decode_delegates rest)

decode-delegates_bytes :
    (ds : List (VoteDelegate ℕ)) → decode_delegates (delegates_bytes ds) ≡ some ds
decode-delegates_bytes [] = refl
decode-delegates_bytes (d ∷ ds) = rw (decode-delegates_bytes ds) refl

instance abbrev delegates_codec : Codec (List (VoteDelegate ℕ))
delegates_codec = record {
  encode = delegates_bytes;
  decode = decode_delegates;
  serialize_size = λ ds. 8;
  decode-encode = decode-delegates_bytes;
}

abbrev active_session : SimpleSession (List (VoteDelegate ℕ)) Db
active_session = record { cache = simple_on_db none empty_db; op_log_map = none }

active-Readable : SimpleReadable active_delegates active_session.cache
unfolding simple_peek get_single read get_bytes
active-Readable e q = cc

abbrev first_delegate : VoteDelegate ℕ
first_delegate = record { regid = 5; votes = 300 }

abbrev second_delegate : VoteDelegate ℕ
second_delegate = record { regid = 7; votes = 200 }

abbrev active_after : SimpleCache (List (VoteDelegate ℕ)) Db
active_after = (set_active_delegates (first_delegate ∷ second_delegate ∷ []) active_session).1.cache

active_delegates_lem_example :
    ((set_active_delegates (first_delegate ∷ second_delegate ∷ []) active_session).0 ≡ ok true)
    × ((get_active_delegates active_after).0 ≡ found (first_delegate ∷ second_delegate ∷ []))
    × ((get_actived_delegate_num active_after).0
        ≡ ok (number_of (first_delegate ∷ second_delegate ∷ [])))
    × ((r : ℕ)
        → (is_active_delegate (λ a b. a == b) r active_after).0
          ≡ ok (is_listed (λ a b. a == b) r (first_delegate ∷ second_delegate ∷ [])))
active_delegates_lem_example =
    active_delegates_lem (λ a b. a == b) first_delegate (second_delegate ∷ []) active_session
      active-Readable
