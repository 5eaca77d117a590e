-- ===== src/Classes/Prepare.antt =====
-- The numbers that `prepareMethod` gives to the methods of a class.
use turkey_vm.Prelude.{
  ℕ, ◌+◌, ◌%◌, ◌^◌, ◌<◌, ◌≤◌, ◌≡◌, ◌≢◌, ◌⊎◌, refl, ap, sym, ◌∙◌, true, false, some, none, List, [],
  ◌∷◌, length, All, inl, inr, Bool-cases, arith, ltb, ltb→lt,
}
use turkey_vm.Classes.{
  MethodBlock, LoadedClass, null, class_block, find_method, omitted, table_size, prepare_methods,
  inherited_table,
}
use turkey_vm.Classes.Search.{Option-cases, find_method-Named, some-injective}

-- A loaded class whose table answers: a method that is found in it and has an entry stands there.
pub record IsLinked (c : LoadedClass) : Type 0 where
  pub placed :
      (name type : List ℕ) (mb : MethodBlock)
      → find_method c name type ≡ some mb
      → omitted mb ≡ false
      → inherited_table c mb.methods_table_idx ≡ some mb
  pub size_lt : table_size c < 2 ^ 16

-- A method has an entry exactly when the method that it overrides has one.
abbrev pub Agrees : LoadedClass → MethodBlock → Type 0
Agrees super mb =
    (super_mb : MethodBlock)
    → find_method super mb.name mb.type ≡ some super_mb
    → omitted super_mb ≡ omitted mb

-- No two methods share name and type.
abbrev pub Unique : List MethodBlock → Type 0
Unique [] = Unit
Unique (mb ∷ mbs) = All (λ other. mb.name ≡ other.name → mb.type ≢ other.type) mbs × Unique mbs

-- No two of the methods that have entries share one.
abbrev pub Distinct : List MethodBlock → Type 0
Distinct [] = Unit
Distinct (mb ∷ mbs) =
    All
      (λ other.
        omitted mb ≡ false → omitted other ≡ false → mb.methods_table_idx ≢ other.methods_table_idx)
      mbs
    × Distinct mbs

-- The number is that of the method that is overridden, or a new one, from `low` and below `high`.
abbrev pub Numbered : LoadedClass → ℕ → ℕ → MethodBlock → Type 0
Numbered super low high mb =
    omitted mb ≡ false
    → ((super_mb : MethodBlock) × (find_method super mb.name mb.type ≡ some super_mb)
        × (omitted super_mb ≡ false)
        × (mb.methods_table_idx ≡ super_mb.methods_table_idx))
      ⊎ ((find_method super mb.name mb.type ≡ none)
          × (table_size super + low ≤ mb.methods_table_idx)
          × (mb.methods_table_idx < table_size super + high))

pub All-map :
    {P Q : MethodBlock → Type 0} (mbs : List MethodBlock)
    → ((mb : MethodBlock) → P mb → Q mb)
    → All P mbs
    → All Q mbs
All-map [] f h = tt
All-map (x ∷ xs) f (here, there) = (f x here, All-map xs f there)

pub All-zip :
    {P Q R : MethodBlock → Type 0} (mbs : List MethodBlock)
    → ((mb : MethodBlock) → P mb → Q mb → R mb)
    → All P mbs
    → All Q mbs
    → All R mbs
All-zip [] f h h' = tt
All-zip (x ∷ xs) f (here, there) (here', there') = (f x here here', All-zip xs f there there')

pub All-of :
    {P : MethodBlock → Type 0} (mbs : List MethodBlock) → ((mb : MethodBlock) → P mb) → All P mbs
All-of [] f = tt
All-of (x ∷ xs) f = (f x, All-of xs f)

module _ (super : LoadedClass) (linked : IsLinked super) where
  -- The numbers in use are below the size of the table.
  pub placed-lt :
      (name type : List ℕ) (mb : MethodBlock)
      → find_method super name type ≡ some mb
      → omitted mb ≡ false
      → mb.methods_table_idx < table_size super
  placed-lt name type mb h v = below super (linked.placed name type mb h v)
    where
      below :
          (c : LoadedClass)
          → inherited_table c mb.methods_table_idx ≡ some mb
          → mb.methods_table_idx < table_size c
      below null e = cc
      below (class_block up cb) e =
          elim (Bool-cases (ltb mb.methods_table_idx cb.methods_table_size)) [
            | inl h ↦ ltb→lt _ _ h
            | inr h ↦ absurd (let bad : none ≡ some mb = rw h at e in cc)
          ]

  -- Methods with one number are one method.
  pub placed-injective :
      (name type name' type' : List ℕ) (mb mb' : MethodBlock)
      → find_method super name type ≡ some mb
      → omitted mb ≡ false
      → find_method super name' type' ≡ some mb'
      → omitted mb' ≡ false
      → mb.methods_table_idx ≡ mb'.methods_table_idx
      → mb ≡ mb'
  placed-injective name type name' type' mb mb' h v h' v' e = some-injective (
      sym (linked.placed name type mb h v)
      ∙ ap (inherited_table super) e
      ∙ linked.placed name' type' mb' h' v')

  -- What the loop leaves: the methods with their numbers, and how many new numbers there are.
  pub record Prepared (mbs : List MethodBlock) (low : ℕ) (result : List MethodBlock × ℕ)
      : Type 1 where
    pub above : low ≤ result.1
    pub few : result.1 ≤ low + length mbs
    pub numbered : All (Numbered super low result.1) result.0
    pub distinct : Distinct result.0
    pub kept :
        (P : MethodBlock → Type 0)
        → ((mb : MethodBlock) (i : ℕ) → P mb → P (record mb { methods_table_idx = i }))
        → All P mbs
        → All P result.0

  widen :
      (low high : ℕ) (mb : MethodBlock)
      → Numbered super (low + 1) high mb
      → Numbered super low high mb
  widen low high mb h v = elim (h v) [
    | inl inherited ↦ inl inherited
    | inr (nothing, above, below) ↦ inr (nothing, omega arith, below)
  ]

  skip :
      (mb : MethodBlock) (mbs : List MethodBlock) (low : ℕ) (rest : List MethodBlock) (end : ℕ)
      → omitted mb ≡ true
      → Prepared mbs low (rest, end)
      → Prepared (mb ∷ mbs) low (mb ∷ rest, end)
  skip mb mbs low rest end o p = record {
    above = p.above;
    few = let few = p.few in omega arith;
    numbered = ((λ v. absurd (cc)), p.numbered);
    distinct = (All-of rest (λ other v. absurd (cc)), p.distinct);
    kept = λ P renumbered (here, there). (here, p.kept P renumbered there);
  }

  module _ (mb : MethodBlock) (mbs : List MethodBlock) (low : ℕ) (rest : List MethodBlock) (end : ℕ)
      (unique : All (λ other. mb.name ≡ other.name → mb.type ≢ other.type) mbs) where
    inherit :
        (super_mb : MethodBlock)
        → find_method super mb.name mb.type ≡ some super_mb
        → omitted super_mb ≡ false
        → Prepared mbs low (rest, end)
        → Prepared
            (mb ∷ mbs)
            low
            (record mb { methods_table_idx = super_mb.methods_table_idx } ∷ rest, end)
    inherit super_mb found v p = record {
      above = p.above;
      few = let few = p.few in omega arith;
      numbered = ((λ o. inl (super_mb, found, v, refl)), p.numbered);
      distinct = (
        All-zip rest
            (λ other differs numbered o o'. elim (numbered o') [
              | inl (other_mb, found', v', e) ↦ λ same.
                  let one =
                    placed-injective _ _ _ _ super_mb other_mb found v found' v' (same ∙ e) in
                  let (n, t) = find_method-Named _ _ super super_mb found in
                  let (n', t') = find_method-Named _ _ super other_mb found' in
                  differs (sym n ∙ ap (λ m. m.name) one ∙ n') (sym t ∙ ap (λ m. m.type) one ∙ t')
              | inr (nothing, from, to) ↦
                  λ same. let less = placed-lt _ _ super_mb found v in omega arith
            ])
            (p.kept (λ other. mb.name ≡ other.name → mb.type ≢ other.type) (λ other i h. h) unique)
            p.numbered,
        p.distinct,
      );
      kept = λ P renumbered (here, there). (renumbered mb _ here, p.kept P renumbered there);
    }

    add :
        find_method super mb.name mb.type ≡ none
        → Prepared mbs (low + 1) (rest, end)
        → Prepared
            (mb ∷ mbs)
            low
            (record mb { methods_table_idx = table_size super + low } ∷ rest, end)
    add nothing p = record {
      above = let above = p.above in omega arith;
      few = let few = p.few in omega arith;
      numbered = (
        (λ o. inr (nothing, omega arith, (let above = p.above in omega arith))),
        All-map rest (widen low end) p.numbered,
      );
      distinct = (
        All-map rest
            (λ other numbered o o'. elim (numbered o') [
              | inl (other_mb, found', v', e) ↦
                  λ same. let less = placed-lt _ _ other_mb found' v' in omega arith
              | inr (nothing', from, to) ↦ λ same. omega arith
            ])
            p.numbered,
        p.distinct,
      );
      kept = λ P renumbered (here, there). (renumbered mb _ here, p.kept P renumbered there);
    }

  -- On the methods of a class, no two of the same name and type, that agree with those that they
  -- override: the loop keeps names and types, and each method with an entry has the number of the
  -- method that it overrides, or else a new one, no two the same.
  pub prepare_methods-Prepared :
      (mbs : List MethodBlock) (low : ℕ)
      → Unique mbs
      → All (Agrees super) mbs
      → table_size super + (low + length mbs) < 2 ^ 16
      → Prepared mbs low (prepare_methods super (table_size super) low mbs)
  unfolding prepare_methods
  prepare_methods-Prepared [] low unique agree room = record {
    above = omega arith;
    few = omega arith;
    numbered = tt;
    distinct = tt;
    kept = λ P renumbered h. h;
  }
  prepare_methods-Prepared (mb ∷ mbs) low (here, unique) (agrees, agree) room =
      let result = prepare_methods super (table_size super) low mbs in
      let result' = prepare_methods super (table_size super) (low + 1) mbs in
      let p = prepare_methods-Prepared mbs low unique agree (omega arith) in
      let p' = prepare_methods-Prepared mbs (low + 1) unique agree (omega arith) in
      elim (Bool-cases (omitted mb)) [
        | inl o ↦ rw (o, prepare_methods) (skip mb mbs low result.0 result.1 o p)
        | inr o ↦ elim (Option-cases (find_method super mb.name mb.type)) [
          | inl e ↦
              let next : (low + 1) % 2 ^ 16 ≡ low + 1 = omega arith in
              let number : (table_size super + low) % 2 ^ 16 ≡ table_size super + low =
                omega arith in
              rw (o, e, next, number, prepare_methods)
                (add mb mbs low result'.0 result'.1 here e p')
          | inr (super_mb, e) ↦
              rw (o, e, prepare_methods)
                (inherit mb mbs low result.0 result.1 here super_mb e (agrees super_mb e ∙ o) p)
        ]
      ]
