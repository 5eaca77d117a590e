-- ===== src/Hash/Find.antt =====
-- Where the search of a hash table finds a key.
use turkey_vm.Prelude.{
  ℕ, zero, suc, ◌+◌, ◌<◌, ◌≤◌, ◌≡◌, ◌≢◌, refl, sym, ◌∙◌, Bool, true, false, Option, none, some,
  List, [], ◌∷◌, ◌++◌, All, bit_and, ◌==◌, arith, if◌then◌else◌, inl, inr, Bool-cases,
}
use turkey_vm.Hash.{Triple, find_candidate}

-- The elements of a list that go to a bucket.
abbrev pub going : (ℕ → Triple) → ℕ → ℕ → List ℕ → List ℕ
going triples mask j [] = []
going triples mask j (e ∷ es) =
    if bit_and (triples e).y mask == j then e ∷ going triples mask j es else going triples mask j es

-- The elements of so many buckets, from one on.
abbrev pub all_of : (ℕ → List ℕ) → ℕ → ℕ → List ℕ
all_of buckets i zero = []
all_of buckets i (suc n) = buckets i ++ all_of buckets (i + 1) n

module _ (hash_code : ℕ → ℕ) (equals : ℕ → ℕ → Bool) where
  -- The element keeps the hash code of its key, and stands in the bucket of that code.
  abbrev pub Kept : (ℕ → Triple) → ℕ → Type 0
  Kept triples e = (triples e).y ≡ hash_code (triples e).x

  abbrev pub Placed : (ℕ → Triple) → ℕ → ℕ → ℕ → Type 0
  Placed triples mask i e = Kept triples e × (bit_and (triples e).y mask ≡ i)

  -- Equal keys have one hash code.
  abbrev pub Respects : Type 0
  Respects = (k k' : ℕ) → equals k k' ≡ true → hash_code k ≡ hash_code k'

  module _ (respects : Respects) (triples : ℕ → Triple) (k : ℕ) where
    abbrev find : List ℕ → Option ℕ
    find = find_candidate hash_code equals triples k

    miss :
        (mask e : ℕ)
        → Kept triples e
        → bit_and (triples e).y mask ≢ bit_and (hash_code k) mask
        → equals k (triples e).x ≡ false
    miss mask e kept ne = elim (Bool-cases (equals k (triples e).x)) [
      | inr h ↦ h
      | inl h ↦ absurd (ne (rw (kept, respects k (triples e).x h) refl))
    ]

    -- Only the elements of the bucket of the key matter.
    pub find_candidate-going :
        (mask : ℕ) (es : List ℕ)
        → All (Kept triples) es
        → find_candidate hash_code equals triples k
            (going triples mask (bit_and (hash_code k) mask) es)
          ≡ find_candidate hash_code equals triples k es
    unfolding find_candidate
    find_candidate-going mask [] kept = refl
    find_candidate-going mask (e ∷ es) (here, kept) =
        let idx = bit_and (hash_code k) mask in
        elim (Bool-cases (bit_and (triples e).y mask == idx)) [
          | inl b ↦ elim (Bool-cases (equals k (triples e).x)) [
            | inl h ↦ rw (b, h, find_candidate) refl
            | inr h ↦ rw (b, h, find_candidate) (find_candidate-going mask es kept)
          ]
          | inr b ↦
              let other = miss mask e here (let ne = b in ground arith) in
              rw (b, other, find_candidate) (find_candidate-going mask es kept)
        ]

    pub find_candidate-append_none :
        (xs ys : List ℕ)
        → find_candidate hash_code equals triples k xs ≡ none
        → find_candidate hash_code equals triples k (xs ++ ys)
          ≡ find_candidate hash_code equals triples k ys
    unfolding find_candidate
    find_candidate-append_none [] ys h = refl
    find_candidate-append_none (e ∷ es) ys h = elim (Bool-cases (equals k (triples e).x)) [
      | inl b ↦ absurd (let bad : some e ≡ none = rw (b, find_candidate) at h in cc)
      | inr b ↦
          rw (b, find_candidate) (find_candidate-append_none es ys (rw (b, find_candidate) at h))
    ]

    pub find_candidate-none_append :
        (xs ys : List ℕ)
        → find_candidate hash_code equals triples k ys ≡ none
        → find_candidate hash_code equals triples k (xs ++ ys)
          ≡ find_candidate hash_code equals triples k xs
    unfolding find_candidate
    find_candidate-none_append [] ys h = h
    find_candidate-none_append (e ∷ es) ys h = elim (Bool-cases (equals k (triples e).x)) [
      | inl b ↦ rw (b, find_candidate) refl
      | inr b ↦ rw (b, find_candidate) (find_candidate-none_append es ys h)
    ]

    -- A bucket that is not that of the key has no element for it.
    pub find_candidate-other :
        (mask i : ℕ) (es : List ℕ)
        → All (Placed triples mask i) es
        → i ≢ bit_and (hash_code k) mask
        → find_candidate hash_code equals triples k es ≡ none
    unfolding find_candidate
    find_candidate-other mask i [] placed ne = refl
    find_candidate-other mask i (e ∷ es) ((kept, at), placed) ne =
        rw (miss mask e kept (λ same. ne (sym at ∙ same)), find_candidate)
          (find_candidate-other mask i es placed ne)

    module _ (mask : ℕ) (buckets : ℕ → List ℕ)
        (placed : (i : ℕ) → All (Placed triples mask i) (buckets i)) where
      beyond :
          (n i : ℕ)
          → bit_and (hash_code k) mask < i
          → find_candidate hash_code equals triples k (all_of buckets i n) ≡ none
      unfolding find_candidate
      beyond zero i h = refl
      beyond (suc n) i h =
          find_candidate-append_none (buckets i) (all_of buckets (i + 1) n)
            (find_candidate-other mask i (buckets i) (placed i) (omega arith))
          ∙ beyond n (i + 1) (omega arith)

      pub find_candidate-all_of :
          (n i : ℕ)
          → i ≤ bit_and (hash_code k) mask
          → bit_and (hash_code k) mask < i + n
          → find_candidate hash_code equals triples k (all_of buckets i n)
            ≡ find_candidate hash_code equals triples k (buckets (bit_and (hash_code k) mask))
      find_candidate-all_of zero i low high = absurd (omega arith)
      find_candidate-all_of (suc n) i low high =
          elim (Bool-cases (i == bit_and (hash_code k) mask)) [
            | inl b ↦
                let same : i ≡ bit_and (hash_code k) mask = ground arith in
                find_candidate-none_append (buckets i) (all_of buckets (i + 1) n)
                  (beyond n (i + 1) (omega arith))
                ∙ rw same refl
            | inr b ↦
                let ne : i ≢ bit_and (hash_code k) mask = ground arith in
                find_candidate-append_none (buckets i) (all_of buckets (i + 1) n)
                  (find_candidate-other mask i (buckets i) (placed i) ne)
                ∙ find_candidate-all_of n (i + 1) (omega arith) (omega arith)
          ]
