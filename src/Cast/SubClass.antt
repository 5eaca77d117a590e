-- ===== src/Cast/SubClass.antt =====
-- `isSubClassOf` against the relation that the super classes make.
use turkey_vm.Prelude.{
  ℕ, zero, suc, ◌≡◌, ◌≢◌, refl, ◌∙◌, Bool, true, false, some, inl, inr, Bool-cases, ◌==◌, arith,
}
use turkey_vm.Cast.{Class, is_sub_class_of}

-- `test` is `class`, or its super class is a subclass of `class`.
pub data SubClass (table : ℕ → Class) (class : ℕ) : ℕ → Type 0 where
  same : class ≢ 0 → SubClass table class class
  inherits :
      {test : ℕ} → test ≢ 0 → SubClass table class (table test).super → SubClass table class test

-- The super classes of `test` end after so many steps.
pub data Depth (table : ℕ → Class) : ℕ → ℕ → Type 0 where
  top : Depth table 0 zero
  below : {test n : ℕ} → test ≢ 0 → Depth table (table test).super n → Depth table test (suc n)

zero-no_SubClass :
    (table : ℕ → Class) (class test : ℕ) → test ≡ 0 → SubClass table class test → false ≡ true
zero-no_SubClass table class test e (same ne) = absurd (ne e)
zero-no_SubClass table class test e (inherits ne up) = absurd (ne e)

module _ (table : ℕ → Class) (class test n : ℕ) (ne : test ≢ 0) where
  not_null : (test == 0) ≡ false
  not_null = ground arith

  stops : (test == class) ≡ true → is_sub_class_of table (suc n) class test ≡ some true
  unfolding is_sub_class_of
  stops e = rw (not_null, e, is_sub_class_of) refl

  goes_up :
      (test == class) ≡ false
      → is_sub_class_of table (suc n) class test ≡ is_sub_class_of table n class (table test).super
  unfolding is_sub_class_of
  goes_up e = rw (not_null, e, is_sub_class_of) refl

  found : (test == class) ≡ true → SubClass table class test
  found e = let e' : test ≡ class = ground arith in rw (← e') (same ne)

parent :
    (table : ℕ → Class) (class test : ℕ)
    → (test == class) ≡ false
    → SubClass table class test
    → SubClass table class (table test).super
parent table class test e (same ne) = absurd (let d : class ≢ class = ground arith in d refl)
parent table class test e (inherits ne up) = up

-- `isSubClassOf` returns when the chain of super classes from the tested class on ends, and says
-- whether the tested class is the other, or inherits from it.
pub is_sub_class_of-decides :
    (table : ℕ → Class) (class test n : ℕ)
    → Depth table test n
    → (b : Bool) × (is_sub_class_of table (suc n) class test ≡ some b)
      × (b ≡ true → SubClass table class test)
      × (SubClass table class test → b ≡ true)
unfolding is_sub_class_of
is_sub_class_of-decides table class test n top =
    (false, refl, (λ e. absurd (cc)), λ s. zero-no_SubClass table class 0 refl s)
is_sub_class_of-decides table class test n (below {n = m} ne up) =
    elim (Bool-cases (test == class)) [
      | inl e ↦
          (true, stops table class test n ne e, (λ h. found table class test n ne e), λ s. refl)
      | inr e ↦
          let (b, runs, sound, complete) =
            is_sub_class_of-decides table class (table test).super m up in
          (
            b,
            goes_up table class test n ne e ∙ runs,
            (λ h. inherits ne (sound h)),
            λ s. complete (parent table class test e s),
          )
    ]
