-- ===== src/Cdp/Index.antt =====
-- An index of a map: for each value the entry under the value's key in the index.
use inery_persistent_memory.Base.{
  ◌≡◌, refl, ap, sym, ◌∙◌, true, if◌then◌else◌, Bool-cases, inl, inr, subst,
}
use inery_persistent_memory.StdMap.{KeyOps, same}
use inery_persistent_memory.StdMap.Find.{same→eq, same_refl}
use inery_persistent_memory.LevelDb.Wrapper.{Lookup, found, absent}

found_injective : {A : Type 0} {a b : A} → found a ≡ found b → a ≡ b
found_injective h = cc

module _ {I K C : Type 0} ⦃io : KeyOps I⦄ ⦃ko : KeyOps K⦄ (id_of : C → I) (key_of : C → K) where
  -- `stored` is what the map shows, `index` what the index shows
  pub record IndexedBy (stored : I → Lookup C) (index : K → Lookup C) : Type 0 where
    pub owned : (i : I) (c : C) → stored i ≡ found c → id_of c ≡ i
    pub listed : (i : I) (c : C) → stored i ≡ found c → index (key_of c) ≡ found c
    pub backed : (k : K) (c : C) → index k ≡ found c → (key_of c ≡ k) × (stored (id_of c) ≡ found c)

  -- an entry is new in the map, and in the index
  pub IndexedBy-insert :
      (c : C) (stored stored' : I → Lookup C) (index index' : K → Lookup C)
      → ((a b : C) → key_of a ≡ key_of b → id_of a ≡ id_of b)
      → IndexedBy stored index
      → stored (id_of c) ≡ absent
      → ((i : I) → stored' i ≡ (if same i (id_of c) then found c else stored i))
      → ((k : K) → index' k ≡ (if same k (key_of c) then found c else index k))
      → IndexedBy stored' index'
  IndexedBy-insert c stored stored' index index' key_id x fresh hs hi = record {
    owned = λ i a h. elim (Bool-cases (same i (id_of c))) [
      | inl s ↦
          let e : c ≡ a = found_injective (sym (hs i ∙ rw s refl) ∙ h) in
          ap id_of (sym e) ∙ sym (same→eq i (id_of c) s)
      | inr s ↦ x.owned i a (sym (hs i ∙ rw s refl) ∙ h)
    ];
    listed = λ i a h. elim (Bool-cases (same i (id_of c))) [
      | inl s ↦
          let e : c ≡ a = found_injective (sym (hs i ∙ rw s refl) ∙ h) in
          subst (λ b. index' (key_of b) ≡ found b) e
            (hi (key_of c) ∙ rw (same_refl (key_of c)) refl)
      | inr s ↦
          let was : stored i ≡ found a = sym (hs i ∙ rw s refl) ∙ h in
          elim (Bool-cases (same (key_of a) (key_of c))) [
            | inr t ↦ hi (key_of a) ∙ rw t (x.listed i a was)
            | inl t ↦
                let e : id_of a ≡ id_of c = key_id a c (same→eq (key_of a) (key_of c) t) in
                let gone : stored i ≡ absent = ap stored (sym (x.owned i a was) ∙ e) ∙ fresh in cc
          ]
    ];
    backed = λ k a h. elim (Bool-cases (same k (key_of c))) [
      | inl s ↦
          let e : c ≡ a = found_injective (sym (hi k ∙ rw s refl) ∙ h) in
          (
            ap key_of (sym e) ∙ sym (same→eq k (key_of c) s),
            subst (λ b. stored' (id_of b) ≡ found b) e
                (hs (id_of c) ∙ rw (same_refl (id_of c)) refl),
          )
      | inr s ↦
          let (key, was) = x.backed k a (sym (hi k ∙ rw s refl) ∙ h) in
          (
            key,
            elim (Bool-cases (same (id_of a) (id_of c))) [
              | inr t ↦ hs (id_of a) ∙ rw t was
              | inl t ↦
                  let gone : stored (id_of a) ≡ absent =
                    ap stored (same→eq (id_of a) (id_of c) t) ∙ fresh in
                  cc
            ],
          )
    ];
  }

  -- an entry leaves the map, and the index
  pub IndexedBy-erase :
      (c : C) (stored stored' : I → Lookup C) (index index' : K → Lookup C)
      → ((a b : C) → key_of a ≡ key_of b → id_of a ≡ id_of b)
      → IndexedBy stored index
      → stored (id_of c) ≡ found c
      → ((i : I) → stored' i ≡ (if same i (id_of c) then absent else stored i))
      → ((k : K) → index' k ≡ (if same k (key_of c) then absent else index k))
      → IndexedBy stored' index'
  IndexedBy-erase c stored stored' index index' key_id x there hs hi = record {
    owned = λ i a h. elim (Bool-cases (same i (id_of c))) [
      | inl s ↦ let gone : stored' i ≡ absent = hs i ∙ rw s refl in cc
      | inr s ↦ x.owned i a (sym (hs i ∙ rw s refl) ∙ h)
    ];
    listed = λ i a h. elim (Bool-cases (same i (id_of c))) [
      | inl s ↦ let gone : stored' i ≡ absent = hs i ∙ rw s refl in cc
      | inr s ↦
          let was : stored i ≡ found a = sym (hs i ∙ rw s refl) ∙ h in
          elim (Bool-cases (same (key_of a) (key_of c))) [
            | inr t ↦ hi (key_of a) ∙ rw t (x.listed i a was)
            | inl t ↦
                let e : i ≡ id_of c =
                  sym (x.owned i a was) ∙ key_id a c (same→eq (key_of a) (key_of c) t) in
                let again : same i (id_of c) ≡ true = rw e (same_refl (id_of c)) in cc
          ]
    ];
    backed = λ k a h. elim (Bool-cases (same k (key_of c))) [
      | inl s ↦ let gone : index' k ≡ absent = hi k ∙ rw s refl in cc
      | inr s ↦
          let (key, was) = x.backed k a (sym (hi k ∙ rw s refl) ∙ h) in
          (
            key,
            elim (Bool-cases (same (id_of a) (id_of c))) [
              | inr t ↦ hs (id_of a) ∙ rw t was
              | inl t ↦
                  let e : a ≡ c =
                    found_injective (sym was ∙ ap stored (same→eq (id_of a) (id_of c) t) ∙ there) in
                  let again : same k (key_of c) ≡ true =
                    rw (sym key ∙ ap key_of e) (same_refl (key_of c)) in
                  cc
            ],
          )
    ];
  }

  -- an entry takes the place of the one with its id
  pub IndexedBy-update :
      (old c : C) (stored stored' : I → Lookup C) (index between index' : K → Lookup C)
      → ((a b : C) → key_of a ≡ key_of b → id_of a ≡ id_of b)
      → IndexedBy stored index
      → stored (id_of old) ≡ found old
      → id_of old ≡ id_of c
      → ((i : I) → stored' i ≡ (if same i (id_of c) then found c else stored i))
      → ((k : K) → between k ≡ (if same k (key_of old) then absent else index k))
      → ((k : K) → index' k ≡ (if same k (key_of c) then found c else between k))
      → IndexedBy stored' index'
  IndexedBy-update old c stored stored' index between index' key_id x there e hs h1 h2 =
      let without : I → Lookup C = λ i. if same i (id_of old) then absent else stored i in
      IndexedBy-insert c without stored' between index' key_id
        (IndexedBy-erase old stored without index between key_id x there (λ i. refl) h1)
        (rw e (rw (same_refl (id_of c)) refl))
        (λ i. hs i ∙ elim (Bool-cases (same i (id_of c))) [
          | inl s ↦ rw s refl
          | inr s ↦ rw s (rw e (rw s refl))
        ])
        h2
