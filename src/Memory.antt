-- ===== src/Memory.antt =====
-- Blocks of bytes, in which C reads and writes numbers of several bytes, the low byte first.
pub mod Laws
use turkey_vm.Prelude.{ℕ, zero, suc, ◌+◌, ◌*◌, ◌/◌, ◌%◌, update}

-- The number in the `n` bytes from position `p` on.
unfoldable pub read_bytes : ℕ → (ℕ → ℕ) → ℕ → ℕ
read_bytes zero m p = 0
read_bytes (suc n) m p = m p + 256 * read_bytes n m (p + 1)

-- The block with the low `n` bytes of `v` from position `p` on.
unfoldable pub write_bytes : ℕ → (ℕ → ℕ) → ℕ → ℕ → ℕ → ℕ
write_bytes zero m p v = m
write_bytes (suc n) m p v = write_bytes n (update m p (v % 256)) (p + 1) (v / 256)
