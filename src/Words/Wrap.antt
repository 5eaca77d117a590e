-- ===== src/Words/Wrap.antt =====
-- Sums, differences and products of patterns, modulo the width, are the patterns of those of the
-- integers.
use turkey_vm.Prelude.{
  ℕ, ℤ, suc, ◌+◌, ◌-◌, ◌*◌, ◌%◌, ◌^◌, ◌<◌, ◌≤◌, ◌≡◌, arith, ltb, ◌+ℤ◌, ◌-ℤ◌, ◌*ℤ◌, pos, sub_ℕ,
  signed32, signed64, wrap32, wrap64, inl, inr, ap, ltb-false, Bool-cases,
}

module _ (a b : ℕ) (ha : a < 2 ^ 32) (hb : b < 2 ^ 32) where
  pub add_wrap32 : (a + b) % 2 ^ 32 ≡ wrap32 (signed32 a +ℤ signed32 b)
  unfolding ◌+ℤ◌
  add_wrap32 = ground arith

  pub sub_wrap32 : (a + 2 ^ 32 - b) % 2 ^ 32 ≡ wrap32 (signed32 a -ℤ signed32 b)
  unfolding ◌-ℤ◌
  sub_wrap32 = ground arith

pub neg_wrap32 : (a : ℕ) → a < 2 ^ 32 → (2 ^ 32 - a) % 2 ^ 32 ≡ wrap32 (pos 0 -ℤ signed32 a)
unfolding ◌-ℤ◌
neg_wrap32 a ha = ground arith

pub wrap32-lt : (z : ℤ) → wrap32 z < 2 ^ 32
wrap32-lt z = ground arith

-- The pattern of a difference is fixed by any number that is congruent to it.
pub wrap32-sub_ℕ : (m p q k : ℕ) → m + q ≡ p + k * 2 ^ 32 → m % 2 ^ 32 ≡ wrap32 (sub_ℕ p q)
wrap32-sub_ℕ m p q k h = ground arith

module _ (a b : ℕ) (ha : a < 2 ^ 32) (hb : b < 2 ^ 32) where
  pub mul_wrap32 : a * b % 2 ^ 32 ≡ wrap32 (signed32 a *ℤ signed32 b)
  unfolding ◌*ℤ◌
  mul_wrap32 = elim (Bool-cases (ltb a (2 ^ 31))) [
    | inl p ↦ elim (Bool-cases (ltb b (2 ^ 31))) [
      | inl q ↦ rw (p, q) (wrap32-sub_ℕ (a * b) _ _ 0 (omega arith))
      | inr q ↦
          let e : suc (2 ^ 32 - b - 1) + b ≡ 2 ^ 32 = omega arith in
          rw (p, q) (wrap32-sub_ℕ (a * b) _ _ a (omega (arith, ap (λ (t : ℕ). a * t) e)))
    ]
    | inr p ↦ elim (Bool-cases (ltb b (2 ^ 31))) [
      | inl q ↦
          let e : suc (2 ^ 32 - a - 1) + a ≡ 2 ^ 32 = omega arith in
          rw (p, q) (wrap32-sub_ℕ (a * b) _ _ b (omega (arith, ap (λ (t : ℕ). t * b) e)))
      | inr q ↦
          let e : suc (2 ^ 32 - a - 1) + a ≡ 2 ^ 32 = omega arith in
          let e' : suc (2 ^ 32 - b - 1) + b ≡ 2 ^ 32 = omega arith in
          let s = ap (λ (t : ℕ). t * b) e in
          let s' = ap (λ (t : ℕ). suc (2 ^ 32 - a - 1) * t) e' in
          let big : 2 ^ 32 ≤ a + b =
            omega (arith, ltb-false a (2 ^ 31) p, ltb-false b (2 ^ 31) q) in
          rw (p, q) (wrap32-sub_ℕ (a * b) _ _ (a + b - 2 ^ 32) (omega (arith, s, s')))
    ]
  ]

module _ (a b : ℕ) (ha : a < 2 ^ 64) (hb : b < 2 ^ 64) where
  pub add_wrap64 : (a + b) % 2 ^ 64 ≡ wrap64 (signed64 a +ℤ signed64 b)
  unfolding ◌+ℤ◌
  add_wrap64 = ground arith

  pub sub_wrap64 : (a + 2 ^ 64 - b) % 2 ^ 64 ≡ wrap64 (signed64 a -ℤ signed64 b)
  unfolding ◌-ℤ◌
  sub_wrap64 = ground arith

pub neg_wrap64 : (a : ℕ) → a < 2 ^ 64 → (2 ^ 64 - a) % 2 ^ 64 ≡ wrap64 (pos 0 -ℤ signed64 a)
unfolding ◌-ℤ◌
neg_wrap64 a ha = ground arith

pub wrap64-lt : (z : ℤ) → wrap64 z < 2 ^ 64
wrap64-lt z = ground arith

-- The pattern of a difference is fixed by any number that is congruent to it.
pub wrap64-sub_ℕ : (m p q k : ℕ) → m + q ≡ p + k * 2 ^ 64 → m % 2 ^ 64 ≡ wrap64 (sub_ℕ p q)
wrap64-sub_ℕ m p q k h = ground arith

module _ (a b : ℕ) (ha : a < 2 ^ 64) (hb : b < 2 ^ 64) where
  pub mul_wrap64 : a * b % 2 ^ 64 ≡ wrap64 (signed64 a *ℤ signed64 b)
  unfolding ◌*ℤ◌
  mul_wrap64 = elim (Bool-cases (ltb a (2 ^ 63))) [
    | inl p ↦ elim (Bool-cases (ltb b (2 ^ 63))) [
      | inl q ↦ rw (p, q) (wrap64-sub_ℕ (a * b) _ _ 0 (omega arith))
      | inr q ↦
          let e : suc (2 ^ 64 - b - 1) + b ≡ 2 ^ 64 = omega arith in
          rw (p, q) (wrap64-sub_ℕ (a * b) _ _ a (omega (arith, ap (λ (t : ℕ). a * t) e)))
    ]
    | inr p ↦ elim (Bool-cases (ltb b (2 ^ 63))) [
      | inl q ↦
          let e : suc (2 ^ 64 - a - 1) + a ≡ 2 ^ 64 = omega arith in
          rw (p, q) (wrap64-sub_ℕ (a * b) _ _ b (omega (arith, ap (λ (t : ℕ). t * b) e)))
      | inr q ↦
          let e : suc (2 ^ 64 - a - 1) + a ≡ 2 ^ 64 = omega arith in
          let e' : suc (2 ^ 64 - b - 1) + b ≡ 2 ^ 64 = omega arith in
          let s = ap (λ (t : ℕ). t * b) e in
          let s' = ap (λ (t : ℕ). suc (2 ^ 64 - a - 1) * t) e' in
          let big : 2 ^ 64 ≤ a + b =
            omega (arith, ltb-false a (2 ^ 63) p, ltb-false b (2 ^ 63) q) in
          rw (p, q) (wrap64-sub_ℕ (a * b) _ _ (a + b - 2 ^ 64) (omega (arith, s, s')))
    ]
  ]
