-- ===== src/Words/Shift.antt =====
-- Shifts of patterns against multiplication and floor division of the integers.
use native.Mathlib.Nat.{div-le_self}
use turkey_vm.Prelude.{
  ℕ, ℤ, suc, ◌+◌, ◌-◌, ◌*◌, ◌/◌, ◌%◌, ◌^◌, ◌<◌, ◌≡◌, arith, ltb, if◌then◌else◌, ◌*ℤ◌, pos, negsuc,
  signed32, signed64, wrap32, wrap64, inl, inr, ap, Bool-cases,
}
use turkey_vm.Words.Wrap.{wrap32-sub_ℕ, wrap64-sub_ℕ}

-- Division rounded down, by a positive number.
abbrev pub floor_div : ℤ → ℕ → ℤ
floor_div (pos n) d = pos (n / d)
floor_div (negsuc n) d = negsuc (n / d)

-- A left shift multiplies, also where the factor is no pattern of a positive number.
pub shl_wrap32 : (a p : ℕ) → a < 2 ^ 32 → a * p % 2 ^ 32 ≡ wrap32 (signed32 a *ℤ pos p)
unfolding ◌*ℤ◌
shl_wrap32 a p ha = elim (Bool-cases (ltb a (2 ^ 31))) [
  | inl q ↦ rw q (wrap32-sub_ℕ (a * p) _ _ 0 (omega arith))
  | inr q ↦
      let e : suc (2 ^ 32 - a - 1) + a ≡ 2 ^ 32 = omega arith in
      rw q (wrap32-sub_ℕ (a * p) _ _ p (omega (arith, ap (λ (t : ℕ). t * p) e)))
]

-- A right shift that repeats the sign bit rounds down.
pub shr_wrap32 :
    (a d : ℕ)
    → a < 2 ^ 32
    → (if ltb a (2 ^ 31) then a / d else 2 ^ 32 - 1 - (2 ^ 32 - 1 - a) / d)
      ≡ wrap32 (floor_div (signed32 a) d)
shr_wrap32 a d ha =
    ground (arith, div-le_self a d, div-le_self (2 ^ 32 - 1 - a) d, div-le_self (2 ^ 32 - a - 1) d)

-- A left shift multiplies, also where the factor is no pattern of a positive number.
pub shl_wrap64 : (a p : ℕ) → a < 2 ^ 64 → a * p % 2 ^ 64 ≡ wrap64 (signed64 a *ℤ pos p)
unfolding ◌*ℤ◌
shl_wrap64 a p ha = elim (Bool-cases (ltb a (2 ^ 63))) [
  | inl q ↦ rw q (wrap64-sub_ℕ (a * p) _ _ 0 (omega arith))
  | inr q ↦
      let e : suc (2 ^ 64 - a - 1) + a ≡ 2 ^ 64 = omega arith in
      rw q (wrap64-sub_ℕ (a * p) _ _ p (omega (arith, ap (λ (t : ℕ). t * p) e)))
]

-- A right shift that repeats the sign bit rounds down.
pub shr_wrap64 :
    (a d : ℕ)
    → a < 2 ^ 64
    → (if ltb a (2 ^ 63) then a / d else 2 ^ 64 - 1 - (2 ^ 64 - 1 - a) / d)
      ≡ wrap64 (floor_div (signed64 a) d)
shr_wrap64 a d ha =
    ground (arith, div-le_self a d, div-le_self (2 ^ 64 - 1 - a) d, div-le_self (2 ^ 64 - a - 1) d)
