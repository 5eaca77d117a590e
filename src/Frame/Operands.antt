-- ===== src/Frame/Operands.antt =====
-- The rules for `push` and `pop`: a handler goes on with the abstract stack shorter or longer.
use turkey_vm.Prelude.{
  ℕ, ◌+◌, ◌-◌, ◌*◌, ◌/◌, ◌%◌, ◌^◌, ◌<◌, ◌≡◌, refl, ◌≢◌, true, List, ◌∷◌, arith, length, Run, ok,
  ◌>>=◌, Returns,
}
use turkey_vm.Frame.Defs.{
  Frame, Operand, type_int, type_long, type_ulong, type_double, type_uint, type_reference,
  type_float, pop, push, pop_slot, pop_wide,
}
use turkey_vm.Frame.View.{operands, Leaves, length-operands}
use turkey_vm.Frame.Steps.{is_word, is_wide, Effect, Leaves-trans}
use turkey_vm.Frame.Effects.{
  words_above-cons, check_stack-ok, pop_slot-Leaves, pop_wide-Leaves, push_slot-Leaves,
  push_wide-Leaves,
}

module _ {f g : Frame} {l : ℕ → ℕ} {p : ℕ} {vs : List ℕ} where
  -- Each operand is a word.
  operand-lt : {v : ℕ} → Leaves f l p (v ∷ vs) g → v < 2 ^ 32
  unfolding operands
  operand-lt {v} s =
      let n = g.ostack - g.bottom in
      let (left, here, rest) = words_above-cons g.cell g.bottom n v vs s.stack in
      rw here at (s.valid.words (g.bottom + (n - 1)))

  -- So is each pair of them, as a number of 64 bits.
  low_operand-lt : {high low : ℕ} → Leaves f l p (high ∷ low ∷ vs) g → low + high * 2 ^ 32 < 2 ^ 64
  unfolding operands
  low_operand-lt {high} {low} s =
      let n = g.ostack - g.bottom in
      let (left, here, rest) = words_above-cons g.cell g.bottom n high (low ∷ vs) s.stack in
      let (left', here', rest') = words_above-cons g.cell g.bottom (n - 1) low vs rest in
      let a : high < 2 ^ 32 = rw here at (s.valid.words (g.bottom + (n - 1))) in
      let b : low < 2 ^ 32 = rw here' at (s.valid.words (g.bottom + (n - 1 - 1))) in omega arith

  pop_slot-Effect :
      {v : ℕ} → Leaves f l p (v ∷ vs) g → (h : Frame) × (pop_slot g ≡ ok (v, h)) × Leaves f l p vs h
  pop_slot-Effect {v} s =
      let (h, runs, t) = pop_slot-Leaves g s.valid v vs s.stack in
      (h, runs, Leaves-trans s t s.at s.keeps)

  pub pop-Effect :
      {v : ℕ} (t : Operand)
      → is_word t ≡ true
      → Leaves f l p (v ∷ vs) g
      → (h : Frame) × (pop g t ≡ ok (v, h)) × Leaves f l p vs h
  unfolding pop
  pop-Effect type_int w s = pop_slot-Effect s
  pop-Effect type_float w s = pop_slot-Effect s
  pop-Effect type_reference w s = pop_slot-Effect s
  pop-Effect type_uint w s = pop_slot-Effect s
  pop-Effect _ w s = cc

  pub with_pop :
      {A : Type 0} {v : ℕ} {P : A → Type 0} (t : Operand) (k : ℕ × Frame → Run A)
      → is_word t ≡ true
      → Leaves f l p (v ∷ vs) g
      → ((h : Frame) → v < 2 ^ 32 → Leaves f l p vs h → Returns (k (v, h)) P)
      → Returns (pop g t >>= k) P
  with_pop t k w s next = let (h, runs, s') = pop-Effect t w s in rw runs (next h (operand-lt s) s')

  pop_wide-Effect :
      {high low : ℕ}
      → Leaves f l p (high ∷ low ∷ vs) g
      → (h : Frame) × (pop_wide g ≡ ok (low + high * 2 ^ 32, h)) × Leaves f l p vs h
  pop_wide-Effect {high} {low} s =
      let (h, runs, t) = pop_wide-Leaves g s.valid high low vs s.stack in
      (h, runs, Leaves-trans s t s.at s.keeps)

  pub pop_wide_type-Effect :
      {high low : ℕ} (t : Operand)
      → is_wide t ≡ true
      → Leaves f l p (high ∷ low ∷ vs) g
      → (h : Frame) × (pop g t ≡ ok (low + high * 2 ^ 32, h)) × Leaves f l p vs h
  unfolding pop
  pop_wide_type-Effect type_long w s = pop_wide-Effect s
  pop_wide_type-Effect type_ulong w s = pop_wide-Effect s
  pop_wide_type-Effect type_double w s =
      let (h, runs, s') = pop_wide-Effect s in (h, rw (runs, check_stack-ok h s'.valid), s')
  pop_wide_type-Effect _ w s = cc

  pub with_pop_wide :
      {A : Type 0} {high low : ℕ} {P : A → Type 0} (t : Operand) (k : ℕ × Frame → Run A)
      → is_wide t ≡ true
      → Leaves f l p (high ∷ low ∷ vs) g
      → ((h : Frame)
          → low + high * 2 ^ 32 < 2 ^ 64
          → Leaves f l p vs h
          → Returns (k (low + high * 2 ^ 32, h)) P)
      → Returns (pop g t >>= k) P
  with_pop_wide t k w s next =
      let (h, runs, s') = pop_wide_type-Effect t w s in rw runs (next h (low_operand-lt s) s')

  push_int-Effect :
      (v : ℕ)
      → Leaves f l p vs g
      → v < 2 ^ 32
      → length vs < f.top - f.bottom
      → Effect f (push g v type_int) l p (v ∷ vs)
  push_int-Effect v s small room =
      let n : length vs ≡ g.ostack - g.bottom = rw s.stack at (length-operands g) in
      let (h, runs, t) =
        push_slot-Leaves g s.valid v small (omega (arith, s.bottom, s.top, s.valid.lower)) in
      (h, runs, Leaves-trans s (rw s.stack at t) s.at s.keeps)

  -- Room is measured on the abstract stack.
  pub push-Effect :
      (v : ℕ) (t : Operand)
      → is_word t ≡ true
      → Leaves f l p vs g
      → v < 2 ^ 32
      → length vs < f.top - f.bottom
      → Effect f (push g v t) l p (v ∷ vs)
  unfolding push
  push-Effect v type_int w s small room = push_int-Effect v s small room
  push-Effect v type_float w s small room = push_int-Effect v s small room
  push-Effect v type_reference w s small room = push_int-Effect v s small room
  push-Effect v type_uint w s small room = push_int-Effect v s small room
  push-Effect v _ w s small room = cc

  push_long-Effect :
      (v : ℕ)
      → Leaves f l p vs g
      → v < 2 ^ 64
      → length vs + 1 < f.top - f.bottom
      → Effect f (push g v type_long) l p ((v / 2 ^ 32) ∷ (v % 2 ^ 32) ∷ vs)
  push_long-Effect v s small room =
      let n : length vs ≡ g.ostack - g.bottom = rw s.stack at (length-operands g) in
      let (h, runs, t) =
        push_wide-Leaves g s.valid v small (omega (arith, s.bottom, s.top, s.valid.lower)) in
      (h, runs, Leaves-trans s (rw s.stack at t) s.at s.keeps)

  -- `push` does not know `TYPE_ULONG`.
  pub push_wide-Effect :
      (v : ℕ) (t : Operand)
      → is_wide t ≡ true
      → t ≢ type_ulong
      → Leaves f l p vs g
      → v < 2 ^ 64
      → length vs + 1 < f.top - f.bottom
      → Effect f (push g v t) l p ((v / 2 ^ 32) ∷ (v % 2 ^ 32) ∷ vs)
  unfolding push
  push_wide-Effect v type_long w n s small room = push_long-Effect v s small room
  push_wide-Effect v type_double w n s small room = push_long-Effect v s small room
  push_wide-Effect v type_ulong w n s small room = absurd (n refl)
  push_wide-Effect v _ w n s small room = cc

  pub with_push :
      {A : Type 0} {P : A → Type 0} (v : ℕ) (t : Operand) (k : Frame → Run A)
      → is_word t ≡ true
      → Leaves f l p vs g
      → v < 2 ^ 32
      → length vs < f.top - f.bottom
      → ((h : Frame) → Leaves f l p (v ∷ vs) h → Returns (k h) P)
      → Returns (push g v t >>= k) P
  with_push v t k w s small room next =
      let (h, runs, s') = push-Effect v t w s small room in rw runs (next h s')
