-- ===== src/Frame/Writes.antt =====
-- What one store, read of the code or move in it does to the abstract view.
use turkey_vm.Prelude.{
  ℕ, ◌+◌, ◌-◌, ◌/◌, ◌%◌, ◌^◌, ◌<◌, ◌≡◌, refl, arith, update, ok, pos, ◌+ℤ◌, signed32,
}
use turkey_vm.Frame.Defs.{Frame, store, store_wide, advance, pc_move}
use turkey_vm.Frame.View.{operands, IsFrame, Leaves, words_above-congr}

module _ (f : Frame) (valid : IsFrame f) where
  -- Writing one local variable, and two.
  pub store-Leaves :
      (v i : ℕ)
      → v < 2 ^ 32
      → i < f.bottom
      → (g : Frame) × (store f v i ≡ ok g) × Leaves f (update f.cell i v) f.pc (operands f) g
  unfolding operands store
  store-Leaves v i small room =
      let n = f.ostack - f.bottom in
      (
        record f { cell = update f.cell i v },
        ground arith,
        record {
          valid = ground arith;
          stack = words_above-congr (update f.cell i v) f.cell f.bottom n (λ j p q. ground arith);
          keeps = λ j p. refl;
          at = refl;
          bottom = refl;
          top = refl;
          code = refl;
        },
      )

  pub store_wide-Leaves :
      (v i : ℕ)
      → v < 2 ^ 64
      → i + 1 < f.bottom
      → (g : Frame) × (store_wide f v i ≡ ok g)
        × Leaves f (update (update f.cell i (v % 2 ^ 32)) (i + 1) (v / 2 ^ 32)) f.pc (operands f) g
  unfolding operands store_wide
  store_wide-Leaves v i small room =
      let n = f.ostack - f.bottom in
      let cell' = update (update f.cell i (v % 2 ^ 32)) (i + 1) (v / 2 ^ 32) in
      (
        record f { cell = cell' },
        ground arith,
        record {
          valid = ground arith;
          stack = words_above-congr cell' f.cell f.bottom n (λ j p q. ground arith);
          keeps = λ j p. refl;
          at = refl;
          bottom = refl;
          top = refl;
          code = refl;
        },
      )

  -- Moving on in the code.
  pub advance-Leaves : (k : ℕ) → Leaves f f.cell (f.pc + k) (operands f) (advance f k)
  unfolding operands advance
  advance-Leaves k = record {
    valid = ground arith;
    stack = refl;
    keeps = λ j p. refl;
    at = refl;
    bottom = refl;
    top = refl;
    code = refl;
  }

  -- A jump forward by `x`, and back by `2 ^ 32 - x`.
  pub pc_move-Leaves :
      (x target : ℕ)
      → x < 2 ^ 32
      → pos f.pc +ℤ signed32 x ≡ pos target
      → (g : Frame) × (pc_move x f ≡ ok g) × Leaves f f.cell target (operands f) g
  unfolding operands pc_move ◌+ℤ◌
  pc_move-Leaves x target small h = (
    record f { pc = target; pc_offset = (f.pc_offset + x) % 2 ^ 32 },
    ground arith,
    record {
      valid = ground arith;
      stack = refl;
      keeps = λ j p. refl;
      at = refl;
      bottom = refl;
      top = refl;
      code = refl;
    },
  )
