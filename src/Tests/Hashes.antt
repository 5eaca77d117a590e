-- ===== src/Tests/Hashes.antt =====
-- A hash table of four buckets with one element, under the hash code that is the key itself.
use turkey_vm.Prelude.{
  ℕ, ◌≡◌, refl, Bool, none, [], ◌∷◌, arith, ◌==◌, if◌then◌else◌, inl, inr, Bool-cases, Returns,
}
use turkey_vm.Hash.{Table, hash_put, hash_get, hash_contains_cand, rehash}
use turkey_vm.Hash.Rehash.{IsTable, rehash-finds}
use turkey_vm.Hash.Keys.{IsEquality, IsNew}
use turkey_vm.Hash.Put.{hash_put-get}

abbrev code : ℕ → ℕ
code k = k

abbrev same : ℕ → ℕ → Bool
same a b = a == b

abbrev table : Table
table = record {
  buckets = λ i. if i == 1 then 9 ∷ [] else [];
  triples = λ p. if p == 9 then record { x = 5; y = 5; z = 70 } else record { x = 0; y = 0; z = 0 };
  num_items = 1;
  size = 4;
  mask = 3;
}

table-IsTable : IsTable code same table
table-IsTable = record {
  power = 2;
  sized = refl;
  masked = refl;
  placed = λ i. elim (Bool-cases (i == 1)) [
    | inl b ↦ rw b ((refl, (let e : i ≡ 1 = ground arith in rw e refl)), tt)
    | inr b ↦ rw b tt
  ];
}

same-IsEquality : IsEquality code same
same-IsEquality = record {
  reflexive = λ k. ground arith;
  congruent = λ k k' a h. ground arith;
  respects = λ k k' h. ground arith;
}

table-IsNew : IsNew table 11
table-IsNew = record {
  address = omega arith;
  outside = λ i. elim (Bool-cases (i == 1)) [ inl b ↦ rw b (omega arith, tt) | inr b ↦ rw b tt ];
}

hash_put-get_example :
    Returns
      (hash_put code same none 11 table 6 80)
      (λ (r, h'). (r ≡ 0) × IsTable code same h' × (hash_get code same h' 5 ≡ 70))
unfolding hash_get hash_contains_cand
hash_put-get_example =
    hash_put-get code same same-IsEquality table 6 80 11 table-IsTable table-IsNew 5

rehash-finds_example :
    hash_contains_cand code same (rehash 8 table) 5 ≡ hash_contains_cand code same table 5
rehash-finds_example = rehash-finds code same same-IsEquality.respects table 8 5 table-IsTable
