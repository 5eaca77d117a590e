-- ===== src/Hash/Insert.antt =====
-- A hash table after an element has been added.
use turkey_vm.Prelude.{
  ℕ, ◌+◌, ◌≡◌, ◌≢◌, refl, sym, ap, ◌∙◌, Bool, true, false, none, some, ◌∷◌, All, bit_and, ◌==◌,
  arith, if◌then◌else◌, inl, inr, Bool-cases,
}
use turkey_vm.Hash.{Table, find_candidate, hash_contains_cand}
use turkey_vm.Hash.Find.{Placed}
use turkey_vm.Hash.Rehash.{IsTable}
use turkey_vm.Hash.Keys.{
  IsEquality, IsNew, all-map, all-zip, Option-cases, find_candidate-triples, find_candidate-in,
  get-found, get-missing, Gives,
}

module _ (hash_code : ℕ → ℕ) (equals : ℕ → ℕ → Bool) (equality : IsEquality hash_code equals) where
  -- What is looked for after a new element.
  module _ (h : Table) (k v fresh : ℕ) (new : IsNew h fresh)
      (missing : hash_contains_cand hash_code equals h k ≡ none) where
    abbrev pub added : Table
    added = record h {
      triples = λ p. if fresh == p then record { x = k; y = hash_code k; z = v } else h.triples p;
      buckets = λ i. if bit_and (hash_code k) h.mask == i then fresh ∷ h.buckets i else h.buckets i;
      num_items = h.num_items + 1;
    }

    pub old_triple : (p : ℕ) → fresh ≢ p → added.triples p ≡ h.triples p
    old_triple p ne = let other : (fresh == p) ≡ false = ground arith in rw other refl

    pub new_triple : added.triples fresh ≡ record { x = k; y = hash_code k; z = v }
    new_triple = let self : (fresh == fresh) ≡ true = ground arith in rw self refl

    pub old_find :
        (k' i : ℕ)
        → find_candidate hash_code equals added.triples k' (h.buckets i)
          ≡ find_candidate hash_code equals h.triples k' (h.buckets i)
    old_find k' i =
        find_candidate-triples hash_code equals equality h.triples added.triples k' (h.buckets i)
          (all-map _ _ (h.buckets i) (λ p ne. ap (λ t. t.x) (old_triple p ne)) (new.outside i))

    pub added_cand :
        (k' : ℕ)
        → hash_contains_cand hash_code equals added k'
          ≡ (if equals k' k then some fresh else hash_contains_cand hash_code equals h k')
    unfolding hash_contains_cand find_candidate
    added_cand k' =
        let self : (fresh == fresh) ≡ true = ground arith in
        let old = old_find k' (bit_and (hash_code k') h.mask) in
        elim (Bool-cases (equals k' k)) [
          | inl b ↦
              let one : (bit_and (hash_code k) h.mask == bit_and (hash_code k') h.mask) ≡ true =
                rw (equality.respects k' k b) (ground arith) in
              rw (one, self, b, find_candidate) refl
          | inr b ↦
              elim (Bool-cases (bit_and (hash_code k) h.mask == bit_and (hash_code k') h.mask)) [
                | inl one ↦ rw (one, self, b, find_candidate) old
                | inr other ↦ rw (other, b) old
              ]
        ]

    pub added-IsTable : IsTable hash_code equals h → IsTable hash_code equals added
    added-IsTable table = record {
      power = table.power;
      sized = table.sized;
      masked = table.masked;
      placed = λ i.
          let rest : All (Placed hash_code equals added.triples h.mask i) (h.buckets i) =
            all-zip _ _ _ (h.buckets i)
              (λ p ne (kept, at). (
                ap (λ t. t.y) (old_triple p ne)
                    ∙ kept
                    ∙ ap (λ t. hash_code t.x) (sym (old_triple p ne)),
                ap (λ t. bit_and t.y h.mask) (old_triple p ne) ∙ at,
              ))
              (new.outside i) (table.placed i) in
          elim (Bool-cases (bit_and (hash_code k) h.mask == i)) [
            | inl b ↦
                let at : bit_and (hash_code k) h.mask ≡ i = ground arith in
                let self : (fresh == fresh) ≡ true = ground arith in
                rw b ((rw self (refl, at)), rest)
            | inr b ↦ rw b rest
          ];
    }

    pub added-Gives : (k' : ℕ) → Gives hash_code equals equality h k v added k'
    added-Gives k' =
        let self : (fresh == fresh) ≡ true = ground arith in
        elim (Bool-cases (equals k' k)) [
          | inl b ↦
              let at : hash_contains_cand hash_code equals added k' ≡ some fresh =
                added_cand k' ∙ rw b refl in
              rw b (get-found hash_code equals equality added k' fresh at ∙ rw self refl)
          | inr b ↦
              let at : hash_contains_cand hash_code equals added k'
                  ≡ hash_contains_cand hash_code equals h k' =
                added_cand k' ∙ rw b refl in
              rw b (elim (Option-cases (hash_contains_cand hash_code equals h k')) [
                | inl none_there ↦
                    get-missing hash_code equals equality added k' (at ∙ none_there)
                    ∙ sym (get-missing hash_code equals equality h k' none_there)
                | inr (e, found) ↦
                    get-found hash_code equals equality added k' e (at ∙ found)
                    ∙ ap (λ t. t.z)
                        (old_triple e (
                          find_candidate-in hash_code equals equality (λ p. fresh ≢ p) h k' e
                            new.outside found))
                    ∙ sym (get-found hash_code equals equality h k' e found)
              ])
        ]
