-- ===== src/Words/Divide.antt =====
-- Division of patterns by magnitudes against the truncated division of the integers.
use native.Mathlib.Nat.{div-le_self, div-add-mod, mod-lt}
use turkey_vm.Prelude.{
  ℕ, ℤ, zero, suc, ◌+◌, ◌-◌, ◌*◌, ◌/◌, ◌%◌, ◌^◌, ◌<◌, ◌≤◌, ◌≡◌, arith, ltb, if◌then◌else◌, pos,
  negsuc, pos_part, neg_part, sub_ℕ, signed32, signed64, wrap32, wrap64, inl, inr, ap, ltb-false,
  Bool-cases,
}

-- The integer with the magnitude `n`, and the sign of `z`.
abbrev pub with_sign : ℤ → ℕ → ℤ
with_sign (pos _) n = pos n
with_sign (negsuc _) n = sub_ℕ 0 n

abbrev pub abs : ℤ → ℕ
abs z = pos_part z + neg_part z

-- The quotient rounded towards zero, and the remainder that has the sign of the dividend.
abbrev pub quot : ℤ → ℤ → ℤ
quot a (pos b) = with_sign a (abs a / b)
quot a (negsuc b) =
    sub_ℕ (neg_part (with_sign a (abs a / suc b))) (pos_part (with_sign a (abs a / suc b)))

abbrev pub rem : ℤ → ℤ → ℤ
rem a b = with_sign a (abs a % abs b)

module _ (a b : ℕ) (ha : a < 2 ^ 32) (hb : b < 2 ^ 32) (nonzero : 0 < b) where
  pub quot-wrap32 :
      (if ltb a (2 ^ 31)
        then (if ltb b (2 ^ 31) then a / b else (2 ^ 32 - a / (2 ^ 32 - b)) % 2 ^ 32)
        else (if ltb b (2 ^ 31)
            then (2 ^ 32 - (2 ^ 32 - a) / b) % 2 ^ 32
            else (2 ^ 32 - a) / (2 ^ 32 - b)))
      ≡ wrap32 (quot (signed32 a) (signed32 b))
  quot-wrap32 = ground (
    arith,
    div-le_self a b,
    div-le_self a (2 ^ 32 - b),
    div-le_self (2 ^ 32 - a) b,
    div-le_self (2 ^ 32 - a) (2 ^ 32 - b),
  )

-- Negation of patterns goes through products.
mul_neg :
    (q r : ℕ) → q ≤ 2 ^ 32 → (2 ^ 32 - q) % 2 ^ 32 * r % 2 ^ 32 ≡ (2 ^ 32 - q * r % 2 ^ 32) % 2 ^ 32
mul_neg zero r h = omega arith
mul_neg (suc q) r h =
    let e : (2 ^ 32 - suc q) + suc q ≡ 2 ^ 32 = omega arith in
    let small : (2 ^ 32 - suc q) % 2 ^ 32 ≡ 2 ^ 32 - suc q = omega arith in
    rw small (omega (arith, ap (λ (t : ℕ). t * r) e))

neg_mul :
    (q r : ℕ) → 0 < r → r ≤ 2 ^ 32 → q * (2 ^ 32 - r) % 2 ^ 32 ≡ (2 ^ 32 - q * r % 2 ^ 32) % 2 ^ 32
neg_mul q r some_r h =
    let e : (2 ^ 32 - r) + r ≡ 2 ^ 32 = omega arith in omega (arith, ap (λ (t : ℕ). q * t) e)

neg_mul_neg :
    (q r : ℕ)
    → q ≤ 2 ^ 32
    → 0 < r
    → r ≤ 2 ^ 32
    → (2 ^ 32 - q) % 2 ^ 32 * (2 ^ 32 - r) % 2 ^ 32 ≡ q * r % 2 ^ 32
neg_mul_neg q r h some_r h' = omega (arith, mul_neg q (2 ^ 32 - r) h, neg_mul q r some_r h')

module _ (a b : ℕ) (ha : a < 2 ^ 32) (hb : b < 2 ^ 32) (nonzero : 0 < b) where
  -- From the quotient `q` of the magnitudes.
  rest : (p r : ℕ) → p ≤ 2 ^ 32 → (p / r * r ≤ p) × (p / r * r + p % r ≡ p)
  rest p r h = let e = div-add-mod p r in (omega (arith, e), omega (arith, e))

  pub rem-wrap32 :
      (a
          + 2 ^ 32
          - (if ltb a (2 ^ 31)
              then (if ltb b (2 ^ 31) then a / b else (2 ^ 32 - a / (2 ^ 32 - b)) % 2 ^ 32)
              else (if ltb b (2 ^ 31)
                  then (2 ^ 32 - (2 ^ 32 - a) / b) % 2 ^ 32
                  else (2 ^ 32 - a) / (2 ^ 32 - b)))
            * b
            % 2 ^ 32)
        % 2 ^ 32
      ≡ wrap32 (rem (signed32 a) (signed32 b))
  rem-wrap32 = elim (Bool-cases (ltb a (2 ^ 31))) [
    | inl s ↦ elim (Bool-cases (ltb b (2 ^ 31))) [
      | inl t ↦ rw (s, t) (ground (arith, rest a b (omega arith)))
      | inr t ↦
          let back : 2 ^ 32 - (2 ^ 32 - b) ≡ b = omega arith in
          let big = ltb-false b (2 ^ 31) t in
          let r = 2 ^ 32 - b in
          let x =
            rw back at (
              neg_mul_neg (a / r) r (omega (arith, div-le_self a r)) (omega arith) (omega arith)) in
          rw (s, t, x) (ground (arith, rest a r (omega arith)))
    ]
    | inr s ↦ elim (Bool-cases (ltb b (2 ^ 31))) [
      | inl t ↦
          let big = ltb-false a (2 ^ 31) s in
          let p = 2 ^ 32 - a in
          let x = mul_neg (p / b) b (omega (arith, div-le_self p b)) in
          rw (s, t, x) (ground (arith, rest p b (omega arith)))
      | inr t ↦
          let back : 2 ^ 32 - (2 ^ 32 - b) ≡ b = omega arith in
          let big = ltb-false a (2 ^ 31) s in
          let r = 2 ^ 32 - b in
          let p = 2 ^ 32 - a in
          let x = rw back at (neg_mul (p / r) r (omega arith) (omega arith)) in
          rw (s, t, x) (ground (arith, rest p r (omega arith)))
    ]
  ]

module _ (a b : ℕ) (ha : a < 2 ^ 64) (hb : b < 2 ^ 64) (nonzero : 0 < b) where
  pub quot-wrap64 :
      (if ltb a (2 ^ 63)
        then (if ltb b (2 ^ 63) then a / b else (2 ^ 64 - a / (2 ^ 64 - b)) % 2 ^ 64)
        else (if ltb b (2 ^ 63)
            then (2 ^ 64 - (2 ^ 64 - a) / b) % 2 ^ 64
            else (2 ^ 64 - a) / (2 ^ 64 - b)))
      ≡ wrap64 (quot (signed64 a) (signed64 b))
  quot-wrap64 = ground (
    arith,
    div-le_self a b,
    div-le_self a (2 ^ 64 - b),
    div-le_self (2 ^ 64 - a) b,
    div-le_self (2 ^ 64 - a) (2 ^ 64 - b),
  )

  pub rem-wrap64 :
      (if ltb a (2 ^ 63)
        then (if ltb b (2 ^ 63) then a % b else a % (2 ^ 64 - b))
        else (if ltb b (2 ^ 63)
            then (2 ^ 64 - (2 ^ 64 - a) % b) % 2 ^ 64
            else (2 ^ 64 - (2 ^ 64 - a) % (2 ^ 64 - b)) % 2 ^ 64))
      ≡ wrap64 (rem (signed64 a) (signed64 b))
  rem-wrap64 =
      let small : (n : ℕ) → n % (2 ^ 64 - b) < 2 ^ 64 - b = λ n. mod-lt n (omega arith) in
      ground (arith, mod-lt a nonzero, mod-lt (2 ^ 64 - a) nonzero, small a, small (2 ^ 64 - a))
