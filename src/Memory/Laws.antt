-- ===== src/Memory/Laws.antt =====
-- A read after a write, at the same place and apart from it.
use native.Mathlib.Nat.{pow-suc}
use turkey_vm.Prelude.{
  ℕ, zero, suc, ◌+◌, ◌/◌, ◌%◌, ◌^◌, ◌<◌, ◌≤◌, ◌≡◌, ◌⊎◌, inl, inr, refl, ◌∙◌, arith, update,
}
use turkey_vm.Memory.{read_bytes, write_bytes}

pub write_bytes-before : (n : ℕ) (m : ℕ → ℕ) (p v j : ℕ) → j < p → write_bytes n m p v j ≡ m j
unfolding write_bytes
write_bytes-before zero m p v j h = refl
write_bytes-before (suc n) m p v j h =
    write_bytes-before n (update m p (v % 256)) (p + 1) (v / 256) j (omega arith) ∙ ground arith

pub write_bytes-behind : (n : ℕ) (m : ℕ → ℕ) (p v j : ℕ) → p + n ≤ j → write_bytes n m p v j ≡ m j
unfolding write_bytes
write_bytes-behind zero m p v j h = refl
write_bytes-behind (suc n) m p v j h =
    write_bytes-behind n (update m p (v % 256)) (p + 1) (v / 256) j (omega arith) ∙ ground arith

pub read_bytes-congr :
    (n : ℕ) (m k : ℕ → ℕ) (p : ℕ)
    → ((j : ℕ) → p ≤ j → j < p + n → m j ≡ k j)
    → read_bytes n m p ≡ read_bytes n k p
unfolding read_bytes
read_bytes-congr zero m k p h = refl
read_bytes-congr (suc n) m k p h = omega (
  arith,
  h p (omega arith) (omega arith),
  read_bytes-congr n m k (p + 1) (λ j a b. h j (omega arith) (omega arith)),
)

-- What is written is read again.
pub read_bytes-write_bytes :
    (n : ℕ) (m : ℕ → ℕ) (p v : ℕ) → v < 256 ^ n → read_bytes n (write_bytes n m p v) p ≡ v
unfolding read_bytes write_bytes
read_bytes-write_bytes zero m p v h = omega arith
read_bytes-write_bytes (suc n) m p v h =
    let first : write_bytes n (update m p (v % 256)) (p + 1) (v / 256) p ≡ v % 256 =
      write_bytes-before n (update m p (v % 256)) (p + 1) (v / 256) p (omega arith)
      ∙ ground arith in
    omega (
      arith,
      first,
      read_bytes-write_bytes n (update m p (v % 256)) (p + 1) (v / 256)
          (omega (arith, pow-suc 256 n)),
    )

-- A number apart from the bytes that are written stays.
pub read_bytes-apart :
    (n k : ℕ) (m : ℕ → ℕ) (p q v : ℕ)
    → (q + k ≤ p) ⊎ (p + n ≤ q)
    → read_bytes k (write_bytes n m p v) q ≡ read_bytes k m q
read_bytes-apart n k m p q v (inl h) =
    read_bytes-congr k (write_bytes n m p v) m q λ j a b. write_bytes-before n m p v j (omega arith)
read_bytes-apart n k m p q v (inr h) =
    read_bytes-congr k (write_bytes n m p v) m q λ j a b. write_bytes-behind n m p v j (omega arith)

pub read_bytes-lt : (n : ℕ) (m : ℕ → ℕ) (p : ℕ) → ((j : ℕ) → m j < 256) → read_bytes n m p < 256 ^ n
unfolding read_bytes
read_bytes-lt zero m p h = omega arith
read_bytes-lt (suc n) m p h = omega (arith, h p, pow-suc 256 n, read_bytes-lt n m (p + 1) h)

pub write_bytes-bytes :
    (n : ℕ) (m : ℕ → ℕ) (p v : ℕ) → ((j : ℕ) → m j < 256) → (j : ℕ) → write_bytes n m p v j < 256
unfolding write_bytes
write_bytes-bytes zero m p v h = h
write_bytes-bytes (suc n) m p v h =
    write_bytes-bytes n (update m p (v % 256)) (p + 1) (v / 256) λ j. ground (arith, h j)
