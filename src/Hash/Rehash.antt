-- ===== src/Hash/Rehash.antt =====
-- What a hash table finds after it has moved its elements to other buckets.
use mathlib.Core.List.{append-nil, append_assoc}
use native.Mathlib.Nat.{mod-lt, one-le-pow}
use turkey_vm.Prelude.{
  ℕ, zero, suc, ◌+◌, ◌-◌, ◌^◌, ◌<◌, ◌≡◌, refl, sym, ap, ◌∙◌, Bool, List, [], ◌∷◌, ◌++◌, All,
  bit_and, ◌==◌, arith, if◌then◌else◌, inl, inr, Bool-cases,
}
use turkey_vm.Words.Mask.{bit_and_mask}
use turkey_vm.Hash.{Triple, Table, move_bucket, move_buckets, rehash, hash_contains_cand}
use turkey_vm.Hash.Find.{
  going, all_of, Kept, Placed, Respects, find_candidate-going, find_candidate-all_of,
}

module _ (triples : ℕ → Triple) (mask : ℕ) where
  move_bucket-going :
      (new : ℕ → List ℕ) (es : List ℕ) (j : ℕ)
      → move_bucket triples mask new es j ≡ new j ++ going triples mask j es
  unfolding move_bucket
  move_bucket-going new [] j = sym (append-nil (new j))
  move_bucket-going new (e ∷ es) j =
      move_bucket-going (λ i. if bit_and (triples e).y mask == i then new i ++ e ∷ [] else new i) es
        j
      ∙ elim (Bool-cases (bit_and (triples e).y mask == j)) [
        | inl b ↦ rw b (append_assoc (new j) (e ∷ []) (going triples mask j es))
        | inr b ↦ rw b refl
      ]

  going-append :
      (xs ys : List ℕ) (j : ℕ)
      → going triples mask j (xs ++ ys) ≡ going triples mask j xs ++ going triples mask j ys
  going-append [] ys j = refl
  going-append (e ∷ es) ys j = elim (Bool-cases (bit_and (triples e).y mask == j)) [
    | inl b ↦ rw b (ap (λ r. e ∷ r) (going-append es ys j))
    | inr b ↦ rw b (going-append es ys j)
  ]

  move_buckets-going :
      (old new : ℕ → List ℕ) (n i j : ℕ)
      → move_buckets triples mask old new i n j ≡ new j ++ going triples mask j (all_of old i n)
  unfolding move_buckets
  move_buckets-going old new zero i j = sym (append-nil (new j))
  move_buckets-going old new (suc n) i j =
      move_buckets-going old (move_bucket triples mask new (old i)) n (i + 1) j
      ∙ ap (λ r. r ++ going triples mask j (all_of old (i + 1) n)) (move_bucket-going new (old i) j)
      ∙ append_assoc (new j) (going triples mask j (old i))
          (going triples mask j (all_of old (i + 1) n))
      ∙ ap (λ r. new j ++ r) (sym (going-append (old i) (all_of old (i + 1) n) j))

All-append : (P : ℕ → Type 0) (xs ys : List ℕ) → All P xs → All P ys → All P (xs ++ ys)
All-append P [] ys h h' = h'
All-append P (x ∷ xs) ys (here, h) h' = (here, All-append P xs ys h h')

module _ (hash_code : ℕ → ℕ) (equals : ℕ → ℕ → Bool) where
  -- The number of buckets is a power of two, the mask takes that many low bits, and each element
  -- keeps the hash code of its key and stands in the bucket that the mask gives for it.
  pub record IsTable (h : Table) : Type 0 where
    pub power : ℕ
    pub sized : h.size ≡ 2 ^ power
    pub masked : h.mask ≡ 2 ^ power - 1
    pub placed : (i : ℕ) → All (Placed hash_code equals h.triples h.mask i) (h.buckets i)

  Kept-all :
      (triples : ℕ → Triple) (mask i : ℕ) (es : List ℕ)
      → All (Placed hash_code equals triples mask i) es
      → All (Kept hash_code equals triples) es
  Kept-all triples mask i [] h = tt
  Kept-all triples mask i (e ∷ es) ((kept, at), h) = (kept, Kept-all triples mask i es h)

  Kept-all_of :
      (h : Table)
      → IsTable h
      → (n i : ℕ) → All (Kept hash_code equals h.triples) (all_of h.buckets i n)
  Kept-all_of h table zero i = tt
  Kept-all_of h table (suc n) i =
      All-append _ (h.buckets i) (all_of h.buckets (i + 1) n)
        (Kept-all h.triples h.mask i (h.buckets i) (table.placed i)) (Kept-all_of h table n (i + 1))

  going-Placed :
      (triples : ℕ → Triple) (mask j : ℕ) (es : List ℕ)
      → All (Kept hash_code equals triples) es
      → All (Placed hash_code equals triples mask j) (going triples mask j es)
  going-Placed triples mask j [] h = tt
  going-Placed triples mask j (e ∷ es) (kept, h) =
      elim (Bool-cases (bit_and (triples e).y mask == j)) [
        | inl b ↦ rw b ((kept, (let same = b in ground arith)), going-Placed triples mask j es h)
        | inr b ↦ rw b (going-Placed triples mask j es h)
      ]

  -- Every hash code gives a bucket.
  pub bucket_lt : (h : Table) → IsTable h → (code : ℕ) → bit_and code h.mask < h.size
  bucket_lt h table code =
      rw (table.masked, table.sized, bit_and_mask table.power code)
        (mod-lt code (one-le-pow table.power 2 (omega arith)))

  -- A table whose elements are where they belong is one again after `rehash` to a power of two.
  pub rehash-IsTable : (h : Table) (power : ℕ) → IsTable h → IsTable (rehash (2 ^ power) h)
  unfolding rehash
  rehash-IsTable h power table = record {
    power = power;
    sized = refl;
    masked = refl;
    placed = λ j. rw (move_buckets-going h.triples (2 ^ power - 1) h.buckets (λ i. []) h.size 0 j) (
        going-Placed h.triples (2 ^ power - 1) j (all_of h.buckets 0 h.size)
          (Kept-all_of h table h.size 0));
  }

  -- `rehash` to any size does not change what is found: on a table whose elements are where they
  -- belong, with equal keys having one hash code, the search for each key finds the same element.
  pub rehash-finds :
      Respects hash_code equals
      → (h : Table) (size k : ℕ) → IsTable h
      → hash_contains_cand hash_code equals (rehash size h) k
        ≡ hash_contains_cand hash_code equals h k
  unfolding rehash hash_contains_cand
  rehash-finds respects h size k table =
      let idx = bit_and (hash_code k) (size - 1) in
      let here = bucket_lt h table (hash_code k) in
      rw (move_buckets-going h.triples (size - 1) h.buckets (λ i. []) h.size 0 idx) (
        find_candidate-going hash_code equals respects h.triples k (size - 1)
          (all_of h.buckets 0 h.size) (Kept-all_of h table h.size 0)
        ∙ find_candidate-all_of hash_code equals respects h.triples k h.mask h.buckets table.placed
            h.size 0 (omega arith) (omega arith))
