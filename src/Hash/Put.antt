-- ===== src/Hash/Put.antt =====
-- What a hash table gives for its keys after `Hash_put`.
use native.Mathlib.Nat.{pow-suc}
use turkey_vm.Prelude.{
  ℕ, suc, ◌+◌, ◌*◌, ◌^◌, ◌≡◌, refl, sym, ◌∙◌, Bool, false, none, leb, ◌==◌, arith, if◌then◌else◌,
  inl, inr, Bool-cases, Returns,
}
use turkey_vm.Hash.{Table, hash_contains_cand, hash_get, hash_put, rehash}
use turkey_vm.Hash.Rehash.{IsTable, rehash-IsTable, rehash-finds}
use turkey_vm.Hash.Keys.{IsEquality, IsNew, Option-cases, get-found, get-missing, Gives}
use turkey_vm.Hash.Change.{changed, changed-IsTable, changed-Gives}
use turkey_vm.Hash.Insert.{added, added-IsTable, added-Gives}

module _ (hash_code : ℕ → ℕ) (equals : ℕ → ℕ → Bool) (equality : IsEquality hash_code equals) where
  rehash-Gives :
      (h h' : Table) (k v k' size : ℕ)
      → IsTable hash_code equals h'
      → Gives hash_code equals equality h k v h' k'
      → Gives hash_code equals equality h k v (rehash size h') k'
  unfolding rehash
  rehash-Gives h h' k v k' size table gives = same_get ∙ gives
    where
      same_get : hash_get hash_code equals (rehash size h') k' ≡ hash_get hash_code equals h' k'
      same_get =
          let same = rehash-finds hash_code equals equality.respects h' size k' table in
          elim (Option-cases (hash_contains_cand hash_code equals h' k')) [
            | inl missing ↦
                get-missing hash_code equals equality (rehash size h') k' (same ∙ missing)
                ∙ sym (get-missing hash_code equals equality h' k' missing)
            | inr (e, found) ↦
                get-found hash_code equals equality (rehash size h') k' e (same ∙ found)
                ∙ sym (get-found hash_code equals equality h' k' e found)
          ]

  -- On a table whose elements are where they belong, with no function for a key that is there, and
  -- with a new triple, where `equals` and `hashCode` are as a table wants them: `Hash_put` returns what
  -- the table gave for the key, and leaves a table whose elements are where they belong; it gives the
  -- value for each key that equals the key, and for each other key what the table gave before,
  -- whether the table has grown or not.
  pub hash_put-get :
      (h : Table) (k v fresh : ℕ)
      → IsTable hash_code equals h
      → IsNew h fresh
      → (k' : ℕ)
      → Returns (hash_put hash_code equals none fresh h k v) (λ (r, h').
        (r ≡ hash_get hash_code equals h k)
        × IsTable hash_code equals h'
        × (hash_get hash_code equals h' k'
            ≡ (if equals k' k then v else hash_get hash_code equals h k')))
  unfolding hash_put
  hash_put-get h k v fresh table new k' =
      elim (Option-cases (hash_contains_cand hash_code equals h k)) [
        | inr (e, found) ↦ (
          ((h.triples e).z, changed hash_code equals equality h k v e found),
          rw (found, hash_put) refl,
          (
            sym (get-found hash_code equals equality h k e found),
            changed-IsTable hash_code equals equality h k v e found table,
            changed-Gives hash_code equals equality h k v e found k',
          ),
        )
        | inl missing ↦
            let address : (fresh == 0) ≡ false = let ne = new.address in ground arith in
            let t = added hash_code equals equality h k v fresh new missing in
            let is = added-IsTable hash_code equals equality h k v fresh new missing table in
            let gives = added-Gives hash_code equals equality h k v fresh new missing k' in
            let nothing = sym (get-missing hash_code equals equality h k missing) in
            elim (Bool-cases (leb (3 * h.size) (4 * (h.num_items + 1)))) [
              | inr b ↦ ((0, t), rw (missing, address, b, hash_put) refl, (nothing, is, gives))
              | inl b ↦ (
                (0, rehash (h.size * 2) t),
                rw (missing, address, b, hash_put) refl,
                (nothing, grown t is, rehash-Gives h t k v k' (h.size * 2) is gives),
              )
            ]
      ]
    where
      grown :
          (t : Table)
          → IsTable hash_code equals t
          → IsTable hash_code equals (rehash (t.size * 2) t)
      grown t is =
          let twice : t.size * 2 ≡ 2 ^ suc is.power = rw (is.sized) (sym (pow-suc 2 is.power)) in
          rw twice (rehash-IsTable hash_code equals t (suc is.power) is)
