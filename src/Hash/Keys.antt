-- ===== src/Hash/Keys.antt =====
-- What a hash table relies on in its functions, and what follows for the search.
use mathlib.Core.Path.{subst}
use turkey_vm.Prelude.{
  ℕ, ◌≡◌, ◌≢◌, refl, sym, ap, ◌∙◌, Bool, true, Option, none, some, List, [], ◌∷◌, All, bit_and,
  if◌then◌else◌, inl, inr, ◌⊎◌, Bool-cases,
}
use turkey_vm.Hash.{Triple, Table, find_candidate, hash_contains_cand, hash_get}
use turkey_vm.Hash.Find.{Respects}

-- What the table relies on in the functions that it is made with: each key equals itself, equal keys
-- equal the same keys, and they have one hash code.
pub record IsEquality (hash_code : ℕ → ℕ) (equals : ℕ → ℕ → Bool) : Type 0 where
  pub reflexive : (k : ℕ) → equals k k ≡ true
  pub congruent : (k k' a : ℕ) → equals k k' ≡ true → equals k a ≡ equals k' a
  pub respects : Respects hash_code equals

-- The triple is not that of an element of the table.
pub record IsNew (h : Table) (fresh : ℕ) : Type 0 where
  pub address : fresh ≢ 0
  pub outside : (i : ℕ) → All (λ e. fresh ≢ e) (h.buckets i)

pub all-map : (P Q : ℕ → Type 0) (es : List ℕ) → ((e : ℕ) → P e → Q e) → All P es → All Q es
all-map P Q [] f h = tt
all-map P Q (e ∷ es) f (here, h) = (f e here, all-map P Q es f h)

pub all-zip :
    (P Q R : ℕ → Type 0) (es : List ℕ)
    → ((e : ℕ) → P e → Q e → R e)
    → All P es
    → All Q es
    → All R es
all-zip P Q R [] f h h' = tt
all-zip P Q R (e ∷ es) f (here, h) (here', h') = (f e here here', all-zip P Q R es f h h')

pub Option-cases : (r : Option ℕ) → (r ≡ none) ⊎ ((e : ℕ) × (r ≡ some e))
Option-cases none = inl refl
Option-cases (some e) = inr (e, refl)

module _ (hash_code : ℕ → ℕ) (equals : ℕ → ℕ → Bool) (equality : IsEquality hash_code equals) where
  -- The search looks at keys only.
  pub find_candidate-triples :
      (t t' : ℕ → Triple) (k : ℕ) (es : List ℕ)
      → All (λ e. (t' e).x ≡ (t e).x) es
      → find_candidate hash_code equals t' k es ≡ find_candidate hash_code equals t k es
  unfolding find_candidate
  find_candidate-triples t t' k [] same = refl
  find_candidate-triples t t' k (e ∷ es) (here, same) =
      rw (here, find_candidate-triples t t' k es same) refl

  pub find_candidate-equal :
      (t : ℕ → Triple) (k k' : ℕ) (es : List ℕ)
      → equals k k' ≡ true
      → find_candidate hash_code equals t k es ≡ find_candidate hash_code equals t k' es
  unfolding find_candidate
  find_candidate-equal t k k' [] same = refl
  find_candidate-equal t k k' (e ∷ es) same =
      rw (equality.congruent k k' (t e).x same, find_candidate-equal t k k' es same) refl

  pub find_candidate-hit :
      (t : ℕ → Triple) (k e : ℕ) (es : List ℕ)
      → find_candidate hash_code equals t k es ≡ some e
      → equals k (t e).x ≡ true
  unfolding find_candidate
  find_candidate-hit t k e [] h = cc
  find_candidate-hit t k e (e' ∷ es) h = elim (Bool-cases (equals k (t e').x)) [
    | inl b ↦
        let same : e' ≡ e = let i = rw (b, find_candidate) at h in cc in
        ap (λ p. equals k (t p).x) (sym same) ∙ b
    | inr b ↦ find_candidate-hit t k e es (rw (b, find_candidate) at h)
  ]

  pub find_candidate-among :
      (P : ℕ → Type 0) (t : ℕ → Triple) (k e : ℕ) (es : List ℕ)
      → All P es
      → find_candidate hash_code equals t k es ≡ some e
      → P e
  unfolding find_candidate
  find_candidate-among P t k e [] all h = cc
  find_candidate-among P t k e (e' ∷ es) (here, all) h = elim (Bool-cases (equals k (t e').x)) [
    | inl b ↦ subst P (let i = rw (b, find_candidate) at h in cc) here
    | inr b ↦ find_candidate-among P t k e es all (rw (b, find_candidate) at h)
  ]

  pub find_candidate-in :
      (P : ℕ → Type 0) (h : Table) (k e : ℕ)
      → ((i : ℕ) → All P (h.buckets i))
      → hash_contains_cand hash_code equals h k ≡ some e
      → P e
  unfolding hash_contains_cand
  find_candidate-in P h k e all found =
      find_candidate-among P h.triples k e (h.buckets (bit_and (hash_code k) h.mask)) (all _) found

  -- Two keys that are found at one element are equal.
  pub found_at_one :
      (t : ℕ → Triple) (k k' e : ℕ)
      → equals k (t e).x ≡ true
      → equals k' (t e).x ≡ true
      → equals k' k ≡ true
  found_at_one t k k' e h h' =
      equality.congruent k' (t e).x k h'
      ∙ sym (equality.congruent k (t e).x k h)
      ∙ equality.reflexive k

  pub get-found :
      (h : Table) (k e : ℕ)
      → hash_contains_cand hash_code equals h k ≡ some e
      → hash_get hash_code equals h k ≡ (h.triples e).z
  unfolding hash_get
  get-found h k e found = rw (found, hash_get) refl

  pub get-missing :
      (h : Table) (k : ℕ)
      → hash_contains_cand hash_code equals h k ≡ none
      → hash_get hash_code equals h k ≡ 0
  unfolding hash_get
  get-missing h k missing = rw (missing, hash_get) refl

  pub cand-equal :
      (h : Table) (k k' : ℕ)
      → equals k k' ≡ true
      → hash_contains_cand hash_code equals h k ≡ hash_contains_cand hash_code equals h k'
  unfolding hash_contains_cand
  cand-equal h k k' same =
      rw (equality.respects k k' same)
        (find_candidate-equal h.triples k k' (h.buckets (bit_and (hash_code k') h.mask)) same)

  pub cand-hit :
      (h : Table) (k e : ℕ)
      → hash_contains_cand hash_code equals h k ≡ some e
      → equals k (h.triples e).x ≡ true
  unfolding hash_contains_cand
  cand-hit h k e found =
      find_candidate-hit h.triples k e (h.buckets (bit_and (hash_code k) h.mask)) found

  -- The table gives `v` for `k`, and what `h` gave for the other keys.
  abbrev pub Gives : Table → ℕ → ℕ → Table → ℕ → Type 0
  Gives h k v h' k' =
      hash_get hash_code equals h' k' ≡ (if equals k' k then v else hash_get hash_code equals h k')
