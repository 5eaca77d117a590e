-- ===== src/Classes/Link.antt =====
-- The table that `linkMethod` fills.
use turkey_vm.Prelude.{
  ℕ, ◌<◌, ◌≡◌, ◌≢◌, refl, sym, ◌∙◌, true, false, Option, some, List, [], ◌∷◌, All, inl, inr,
  Bool-cases, arith, if◌then◌else◌, lt→ltb, ◌==◌, ok, Returns,
}
use turkey_vm.Classes.{MethodBlock, omitted, set_method, link_methods}
use turkey_vm.Classes.Prepare.{Distinct, All-map}

-- The table answers for the methods of the list, and has its old entries elsewhere.
pub record Filled (table : ℕ → Option MethodBlock) (mbs : List MethodBlock)
    (table' : ℕ → Option MethodBlock) : Type 0 where
  pub own : All (λ mb. omitted mb ≡ false → table' mb.methods_table_idx ≡ some mb) mbs
  pub rest :
      (i : ℕ) → All (λ mb. omitted mb ≡ false → mb.methods_table_idx ≢ i) mbs → table' i ≡ table i

module _ (size : ℕ) where
  set_method-ok :
      (table : ℕ → Option MethodBlock) (mb : MethodBlock)
      → mb.methods_table_idx < size
      → set_method size table mb ≡ ok (λ i. if mb.methods_table_idx == i then some mb else table i)
  unfolding set_method
  set_method-ok table mb h = rw (lt→ltb mb.methods_table_idx size h) refl

  -- On methods with numbers in the table, no two the same, the loop returns, and the table answers
  -- for all of them.
  pub link_methods-Filled :
      (mbs : List MethodBlock) (table : ℕ → Option MethodBlock)
      → All (λ mb. omitted mb ≡ false → mb.methods_table_idx < size) mbs
      → Distinct mbs
      → Returns (link_methods size table mbs) (Filled table mbs)
  unfolding link_methods
  link_methods-Filled [] table fits distinct =
      (table, refl, record { own = tt; rest = λ i h. refl })
  link_methods-Filled (mb ∷ mbs) table (fit, fits) (apart, distinct) =
      elim (Bool-cases (omitted mb)) [
        | inl o ↦
            let (table', runs, filled) = link_methods-Filled mbs table fits distinct in
            (
              table',
              rw (o, link_methods) runs,
              record {
                own = ((λ v. absurd (cc)), filled.own);
                rest = λ i (h, hs). filled.rest i hs;
              },
            )
        | inr o ↦
            let table₁ : ℕ → Option MethodBlock =
              λ i. if mb.methods_table_idx == i then some mb else table i in
            let (table', runs, filled) = link_methods-Filled mbs table₁ fits distinct in
            let here : (mb.methods_table_idx == mb.methods_table_idx) ≡ true = ground arith in
            (
              table',
              rw (o, set_method-ok table mb (fit o), link_methods) runs,
              record {
                own = (
                  (λ v. filled.rest mb.methods_table_idx (all-swap mb mbs v apart) ∙ rw here refl),
                  filled.own,
                );
                rest = λ i (h, hs).
                    let other : (mb.methods_table_idx == i) ≡ false =
                      let ne = h o in ground arith in
                    filled.rest i hs ∙ rw other refl;
              },
            )
      ]
    where
      all-swap :
          (mb : MethodBlock) (mbs : List MethodBlock)
          → omitted mb ≡ false
          → All
              (λ other.
                omitted mb ≡ false
                → omitted other ≡ false
                → mb.methods_table_idx ≢ other.methods_table_idx)
              mbs
          → All
              (λ other. omitted other ≡ false → other.methods_table_idx ≢ mb.methods_table_idx)
              mbs
      all-swap mb mbs v h = All-map mbs (λ other ne v' e. ne v v' (sym e)) h
