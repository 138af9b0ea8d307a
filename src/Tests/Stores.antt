-- ===== src/Tests/Stores.antt =====
-- A database as the list of its entries, in the order of the bytes of their keys.
use inery_persistent_memory.Base.{
  ◌≡◌, refl, ap, sym, ◌∙◌, Bool, true, false, Option, none, some, List, [], ◌∷◌, if◌then◌else◌,
  arith, Bytes, Bool-cases, inl, inr, bytes_eq, bytes_eq_refl, bytes_eq→eq,
}
use inery_persistent_memory.StdMap.{same, find, insert}
use inery_persistent_memory.StdMap.Find.{same→eq, same_refl, same_iff, find-insert}
use inery_persistent_memory.LevelDb.{
  LevelDb, Status, status_ok, not_found, BatchOp, put, delete, batch_get,
}
use inery_persistent_memory.OpLog.{bytes_key}
use inery_persistent_memory.DbIterator.{LevelDbEntries}

abbrev pub Store : Type 0
Store = List (Bytes × Bytes)

unfoldable pub remove : Bytes → Store → Store
remove k [] = []
remove k (x ∷ m) = if same k x.0 then remove k m else x ∷ remove k m

find-remove :
    (k j : Bytes) (m : Store) → find j (remove k m) ≡ (if same j k then none else find j m)
unfolding remove find
find-remove k j [] = ground arith
find-remove k j (x ∷ m) =
    ground (arith, find-remove k j m, same_iff j k, same_iff j x.0, same_iff k x.0)

abbrev pub status_of : Option Bytes → Status × Bytes
status_of (some v) = (status_ok, v)
status_of none = (not_found, [])

unfoldable pub apply : List BatchOp → Store → Store
apply [] m = m
apply (put k v ∷ ops) m = apply ops (insert k v (remove k m))
apply (delete k ∷ ops) m = apply ops (remove k m)

find-put :
    (k j v : Bytes) (m : Store)
    → find j (insert k v (remove k m)) ≡ (if same j k then some v else find j m)
find-put k j v m =
    find-insert k j v (remove k m) (find-remove k k m ∙ rw (same_refl k) refl)
    ∙ elim (Bool-cases (same j k)) [ inl e ↦ rw e | inr e ↦ rw e (find-remove k j m ∙ rw e refl) ]

same_bytes : (j k : Bytes) → same j k ≡ bytes_eq k j
same_bytes j k = elim (Bool-cases (same j k)) [
  | inl e ↦ rw (e, same→eq j k e, bytes_eq_refl k)
  | inr e ↦ elim (Bool-cases (bytes_eq k j)) [
    | inl h ↦ rw (bytes_eq→eq k j h) (same_refl j ∙ sym (bytes_eq_refl j))
    | inr h ↦ e ∙ sym h
  ]
]

status_of-if :
    (b : Bool) (o r : Option Bytes)
    → status_of (if b then o else r) ≡ (if b then status_of o else status_of r)
status_of-if true o r = refl
status_of-if false o r = refl

after_put :
    (k j v : Bytes) (m : Store)
    → status_of (find j (insert k v (remove k m)))
      ≡ (if bytes_eq k j then (status_ok, v) else status_of (find j m))
after_put k j v m =
    ap status_of (find-put k j v m)
    ∙ rw (same_bytes j k) (status_of-if (bytes_eq k j) (some v) (find j m))

after_delete :
    (k j : Bytes) (m : Store)
    → status_of (find j (remove k m))
      ≡ (if bytes_eq k j then (not_found, []) else status_of (find j m))
after_delete k j m =
    ap status_of (find-remove k j m)
    ∙ rw (same_bytes j k) (status_of-if (bytes_eq k j) none (find j m))

pub apply_lem :
    (ops : List BatchOp) (m : Store) (j : Bytes)
    → status_of (find j (apply ops m)) ≡ batch_get ops j (status_of (find j m))
unfolding apply batch_get
apply_lem [] m j = refl
apply_lem (put k v ∷ ops) m j =
    apply_lem ops (insert k v (remove k m)) j ∙ ap (batch_get ops j) (after_put k j v m)
apply_lem (delete k ∷ ops) m j =
    apply_lem ops (remove k m) j ∙ ap (batch_get ops j) (after_delete k j m)

instance abbrev pub store_leveldb : LevelDb Store
store_leveldb = record {
  get = λ d key. status_of (find key d);
  write = λ d ops. (status_ok, apply ops d);
  get_write = λ d ops key h. apply_lem ops d key;
}

instance abbrev pub store_entries : LevelDbEntries Store
store_entries = record { entries = λ d. d }
