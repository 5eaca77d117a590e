-- ===== src/Words/Mask.antt =====
-- `&` with a mask of low ones is the remainder by a power of two, at every width.
use Prim.Native.Nat.{min, digits, bit_and-bitwise}
use native.Mathlib.Nat.{
  pow-suc, mul_comm, zero-mod, mod-eq_of_lt, mod-lt, add-mul-mod_self_left, div-add-mod, one-le-pow,
}
use turkey_vm.Prelude.{
  ℕ, zero, suc, ◌+◌, ◌-◌, ◌*◌, ◌/◌, ◌%◌, ◌^◌, ◌≤◌, ◌<◌, ◌≡◌, refl, arith, bit_and, ap, ◌∙◌,
}

-- The lowest digit of a number modulo `2 * p`, apart from the others.
mod_double : (p a : ℕ) → 0 < p → a % (2 * p) ≡ a / 2 % p * 2 + a % 2
mod_double p a h =
    let u = a / 2 % p in
    let t = a / 2 / p in
    let e : a ≡ u * 2 + a % 2 + 2 * p * t = omega (arith, div-add-mod (a / 2) p) in
    let small : u < p = mod-lt (a / 2) h in
    ap (λ (x : ℕ). x % (2 * p)) e
    ∙ add-mul-mod_self_left (u * 2 + a % 2) (2 * p) t
    ∙ mod-eq_of_lt (omega arith)

-- `k` ones.
abbrev ones : ℕ → ℕ
ones zero = 0
ones (suc k) = 1 + 2 * ones k

ones-lem : (k : ℕ) → 1 + ones k ≡ 2 ^ k
ones-lem zero = refl
ones-lem (suc k) = omega (arith, ones-lem k, pow-suc 2 k)

-- The digits are taken with some count `n` that is no less than the number.
digits_mask : (n k a : ℕ) → a ≤ n → digits (λ b. zero) min n a (ones k) ≡ a % 2 ^ k
digits_mask zero k a le = let e : a ≡ 0 = omega arith in rw (e, zero-mod)
digits_mask (suc n) k zero le = rw zero-mod
digits_mask (suc n) zero (suc a) le = omega (arith, digits_mask n 0 (suc a / 2) (omega arith))
digits_mask (suc n) (suc k) (suc a) le =
    let half : (1 + 2 * ones k) / 2 ≡ ones k = omega arith in
    let one : (1 + 2 * ones k) % 2 ≡ 1 = omega arith in
    let ih = digits_mask n k (suc a / 2) (omega arith) in
    rw
      (
        half,
        one,
        ih,
        pow-suc 2 k,
        mul_comm (2 ^ k) 2,
        mod_double (2 ^ k) (suc a) (one-le-pow k 2 (omega arith)),
      )
      (omega arith)

pub bit_and_mask : (k a : ℕ) → bit_and a (2 ^ k - 1) ≡ a % 2 ^ k
bit_and_mask k a =
    let e : 2 ^ k - 1 ≡ ones k = omega (arith, ones-lem k) in
    rw e (bit_and-bitwise a (ones k) ∙ digits_mask a k a (omega arith))
