-- ===== src/Hash.antt =====
-- src/lib/hash.c and src/lib/triple.c: hash tables. A key and a value are the numbers of their
-- pointers, `NULL` is zero. The chain of a bucket is the sequence of its elements, which are pointers
-- to triples. The counters of `status`, which are only printed, are left out.
pub mod Find
pub mod Rehash
pub mod Keys
pub mod Change
pub mod Insert
pub mod Put
use turkey_vm.Prelude.{
  ℕ, zero, suc, ◌+◌, ◌-◌, ◌*◌, ◌/◌, ◌%◌, ◌^◌, Bool, true, false, Option, none, some, List, [], ◌∷◌,
  ◌++◌, bit_and, ltb, leb, ◌==◌, ◌&&◌, if◌then◌else◌, Run, ok, halt, ◌>>=◌, undefined,
}

-- `Triple_t`, by the use of its three parts: the key, its hash code and the value.
pub record Triple : Type 0 where
  pub x : ℕ
  pub y : ℕ
  pub z : ℕ

-- `Hash_t`, with the triples that its elements point to.
pub record Table : Type 0 where
  pub buckets : ℕ → List ℕ
  pub triples : ℕ → Triple
  pub num_items : ℕ
  pub size : ℕ
  pub mask : ℕ

abbrev pub init_size : ℕ
init_size = 4096

unfoldable pub hash_new : (ℕ → Triple) → Table
hash_new triples = record {
  buckets = λ i. [];
  triples = triples;
  num_items = 0;
  size = init_size;
  mask = 4095;
}

-- The loops that move the elements of `rehash`, over one bucket and over all of them.
unfoldable pub move_bucket : (ℕ → Triple) → ℕ → (ℕ → List ℕ) → List ℕ → ℕ → List ℕ
move_bucket triples mask new [] = new
move_bucket triples mask new (e ∷ es) =
    move_bucket triples mask
      (λ i. if bit_and (triples e).y mask == i then new i ++ e ∷ [] else new i) es

unfoldable pub move_buckets : (ℕ → Triple) → ℕ → (ℕ → List ℕ) → (ℕ → List ℕ) → ℕ → ℕ → ℕ → List ℕ
unfolding move_bucket
move_buckets triples mask old new i zero = new
move_buckets triples mask old new i (suc n) =
    move_buckets triples mask old (move_bucket triples mask new (old i)) (i + 1) n

-- `size` is what `expansion` or `contraction` makes of the old one.
unfoldable pub rehash : ℕ → Table → Table
unfolding move_buckets
rehash size h = record h {
  size = size;
  mask = size - 1;
  buckets = move_buckets h.triples (size - 1) h.buckets (λ i. []) 0 h.size;
}

abbrev pub expansion : ℕ → ℕ
expansion size = size * 2

abbrev pub contraction : ℕ → ℕ
contraction size = size / 2

-- `hashCode` and `equals` are the functions that the table is made with.
module _ (hash_code : ℕ → ℕ) (equals : ℕ → ℕ → Bool) where
  unfoldable pub find_candidate : (ℕ → Triple) → ℕ → List ℕ → Option ℕ
  find_candidate triples k [] = none
  find_candidate triples k (e ∷ es) =
      if equals k (triples e).x then some e else find_candidate triples k es

  unfoldable pub hash_contains_cand : Table → ℕ → Option ℕ
  unfolding find_candidate
  hash_contains_cand h k = find_candidate h.triples k (h.buckets (bit_and (hash_code k) h.mask))

  unfoldable pub hash_contains_key : Table → ℕ → Bool
  hash_contains_key h k = elim (hash_contains_cand h k) [ none ↦ false | some e ↦ true ]

  unfoldable pub hash_get : Table → ℕ → ℕ
  hash_get h k = elim (hash_contains_cand h k) [ none ↦ 0 | some e ↦ (h.triples e).z ]

  -- `dup` is the function for a key that is there, if the table has one. `fresh` is the triple that
  -- `malloc` returns. The load is compared as a quotient of longs, and 0.75 is 3/4.
  unfoldable pub hash_put : Option {0} (ℕ → ℕ → Run {0} Unit) → ℕ → Table → ℕ → ℕ → Run (ℕ × Table)
  hash_put dup fresh h k v = elim (hash_contains_cand h k) [
    | some e ↦ elim dup [
      | some call ↦ do done ← call (h.triples e).x k; ok (0, h)
      | none ↦ ok (
        (h.triples e).z,
        record h { triples = λ p. if e == p then record (h.triples e) { z = v } else h.triples p },
      )
    ]
    | none ↦ elim (fresh == 0) [
      | true ↦ halt undefined
      | false ↦
          let idx = bit_and (hash_code k) h.mask in
          let added : Table = record h {
            triples =
                λ p. if fresh == p then record { x = k; y = hash_code k; z = v } else h.triples p;
            buckets = λ i. if idx == i then fresh ∷ h.buckets i else h.buckets i;
            num_items = h.num_items + 1;
          } in
          ok (
            0,
            if leb (3 * added.size) (4 * added.num_items)
                then rehash (expansion added.size) added
                else added,
          )
    ]
  ]

  -- `List_remove` of the element itself. Where one is removed, `num_items` is not zero.
  unfoldable pub remove_element : ℕ → List ℕ → List ℕ
  remove_element e [] = []
  remove_element e (e' ∷ es) = if e == e' then es else e' ∷ remove_element e es

  unfoldable pub hash_remove : Table → ℕ → ℕ × Table
  unfolding remove_element
  hash_remove h k = elim (hash_contains_cand h k) [
    | none ↦ (0, h)
    | some e ↦
        let idx = bit_and (h.triples e).y h.mask in
        let less : Table = record h {
          buckets = λ i. if idx == i then remove_element e (h.buckets i) else h.buckets i;
          num_items = h.num_items - 1;
        } in
        (
          (h.triples e).z,
          if leb (4 * less.num_items) less.size && ltb init_size less.size
              then rehash (contraction less.size) less
              else less,
        )
  ]
