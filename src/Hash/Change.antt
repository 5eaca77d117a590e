-- ===== src/Hash/Change.antt =====
-- A hash table after the value of an element has changed.
use turkey_vm.Prelude.{
  ℕ, ◌≡◌, refl, sym, ap, ◌∙◌, Bool, true, false, some, List, [], ◌∷◌, All, bit_and, ◌==◌, arith,
  if◌then◌else◌, inl, inr, Bool-cases,
}
use turkey_vm.Hash.{Triple, Table, hash_contains_cand}
use turkey_vm.Hash.Rehash.{IsTable}
use turkey_vm.Hash.Keys.{
  IsEquality, all-map, Option-cases, find_candidate-triples, found_at_one, get-found, get-missing,
  cand-equal, cand-hit, Gives,
}

module _ (hash_code : ℕ → ℕ) (equals : ℕ → ℕ → Bool) (equality : IsEquality hash_code equals) where
  -- What is looked for after the value of an element has changed.
  module _ (h : Table) (k v e : ℕ) (found : hash_contains_cand hash_code equals h k ≡ some e) where
    abbrev pub changed : Table
    changed = record h {
      triples = λ p. if e == p then record (h.triples e) { z = v } else h.triples p;
    }

    pub same_part :
        (f : Triple → ℕ)
        → ((t : Triple) → f (record t { z = v }) ≡ f t)
        → (p : ℕ) → f (changed.triples p) ≡ f (h.triples p)
    same_part f keeps p = elim (Bool-cases (e == p)) [
      | inl b ↦
          let same : e ≡ p = ground arith in
          rw b (keeps (h.triples e) ∙ ap (λ q. f (h.triples q)) same)
      | inr b ↦ rw b refl
    ]

    pub same_found :
        (k' : ℕ)
        → hash_contains_cand hash_code equals changed k' ≡ hash_contains_cand hash_code equals h k'
    unfolding hash_contains_cand
    same_found k' =
        find_candidate-triples hash_code equals equality h.triples changed.triples k'
          (h.buckets (bit_and (hash_code k') h.mask))
          (all-of (h.buckets (bit_and (hash_code k') h.mask)))
      where
        all-of : (es : List ℕ) → All (λ p. (changed.triples p).x ≡ (h.triples p).x) es
        all-of [] = tt
        all-of (p ∷ es) = (same_part (λ t. t.x) (λ t. refl) p, all-of es)

    pub changed-IsTable : IsTable hash_code equals h → IsTable hash_code equals changed
    changed-IsTable table = record {
      power = table.power;
      sized = table.sized;
      masked = table.masked;
      placed = λ i.
          all-map _ _ (h.buckets i)
            (λ p (kept, at). (
              same_part (λ t. t.y) (λ t. refl) p
                  ∙ kept
                  ∙ ap hash_code (sym (same_part (λ t. t.x) (λ t. refl) p)),
              ap (λ y. bit_and y h.mask) (same_part (λ t. t.y) (λ t. refl) p) ∙ at,
            ))
            (table.placed i);
    }

  pub changed-Gives :
      (h : Table) (k v e : ℕ) (found : hash_contains_cand hash_code equals h k ≡ some e) (k' : ℕ)
      → Gives hash_code equals equality h k v (changed h k v e found) k'
  changed-Gives h k v e found k' = elim (Bool-cases (equals k' k)) [
    | inl b ↦
        let self : (e == e) ≡ true = ground arith in
        rw b (
          get-found hash_code equals equality (changed h k v e found) k' e
            (same_found h k v e found k' ∙ cand-equal hash_code equals equality h k' k b ∙ found)
          ∙ rw self refl)
    | inr b ↦ rw b (elim (Option-cases (hash_contains_cand hash_code equals h k')) [
      | inl missing ↦
          get-missing hash_code equals equality (changed h k v e found) k'
            (same_found h k v e found k' ∙ missing)
          ∙ sym (get-missing hash_code equals equality h k' missing)
      | inr (e', found') ↦
          let other : (e == e') ≡ false = elim (Bool-cases (e == e')) [
            | inr d ↦ d
            | inl d ↦
                let one : e ≡ e' = ground arith in
                let hit : equals k' (h.triples e).x ≡ true =
                  rw (← one) at (cand-hit hash_code equals equality h k' e' found') in
                absurd (
                  let bad : true ≡ false =
                    sym (
                      found_at_one hash_code equals equality h.triples k k' e
                        (cand-hit hash_code equals equality h k e found) hit)
                    ∙ b in
                  cc)
          ] in
          get-found hash_code equals equality (changed h k v e found) k' e'
            (same_found h k v e found k' ∙ found')
          ∙ rw other refl
          ∙ sym (get-found hash_code equals equality h k' e' found')
    ])
  ]
