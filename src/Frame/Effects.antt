-- ===== src/Frame/Effects.antt =====
-- What one push, pop, load, store or read of the code does to the abstract view.
use turkey_vm.Prelude.{
  ℕ, zero, suc, ◌+◌, ◌-◌, ◌*◌, ◌/◌, ◌%◌, ◌^◌, ◌<◌, ◌≡◌, refl, List, ◌∷◌, arith, lt→ltb, update, ok,
}
use turkey_vm.Frame.Defs.{
  Frame, type_int, type_long, top_slot, second_slot, check_stack, pop_slot, pop_wide, push,
}
use turkey_vm.Frame.View.{words_above, operands, IsFrame, Leaves, words_above-update}

pub words_above-cons :
    (m : ℕ → ℕ) (b n v : ℕ) (vs : List ℕ)
    → words_above m b n ≡ v ∷ vs
    → (0 < n) × (m (b + (n - 1)) ≡ v) × (words_above m b (n - 1) ≡ vs)
words_above-cons m b zero v vs h = cc
words_above-cons m b (suc n) v vs h =
    let e : suc n - 1 ≡ n = omega arith in rw e (omega arith, cc, cc)

module _ (f : Frame) (valid : IsFrame f) where
  top_slot-ok : 0 < f.ostack → top_slot f ≡ ok (f.ostack - 1)
  unfolding top_slot
  top_slot-ok h = ground arith

  pub check_stack-ok : check_stack f ≡ ok f
  unfolding check_stack
  check_stack-ok = ground arith

  second_slot-ok : 1 < f.ostack → second_slot f ≡ ok (f.ostack - 2)
  unfolding second_slot
  second_slot-ok h = ground arith

  -- Taking one word.
  pub pop_slot-Leaves :
      (v : ℕ) (vs : List ℕ)
      → operands f ≡ v ∷ vs
      → (g : Frame) × (pop_slot f ≡ ok (v, g)) × Leaves f f.cell f.pc vs g
  unfolding operands pop_slot
  pop_slot-Leaves v vs h =
      let i = f.ostack - 1 in
      let (left, here, rest) = words_above-cons f.cell f.bottom (f.ostack - f.bottom) v vs h in
      let e : f.bottom + (f.ostack - f.bottom - 1) ≡ i = omega arith in
      let d : i - f.bottom ≡ f.ostack - f.bottom - 1 = omega arith in
      let value : f.cell i ≡ v = rw e at here in
      (
        record f { cell = update f.cell i 0; ostack = i },
        rw (top_slot-ok (omega arith), lt→ltb i f.size (omega arith), value) (ground arith),
        record {
          valid = ground (arith);
          stack =
              rw (d, words_above-update f.cell f.bottom (f.ostack - f.bottom - 1) i 0 (omega arith))
                rest;
          keeps = λ j p. ground arith;
          at = refl;
          bottom = refl;
          top = refl;
          code = refl;
        },
      )

  -- Taking two words, the high one on top.
  pub pop_wide-Leaves :
      (high low : ℕ) (vs : List ℕ)
      → operands f ≡ high ∷ low ∷ vs
      → (g : Frame) × (pop_wide f ≡ ok (low + high * 2 ^ 32, g)) × Leaves f f.cell f.pc vs g
  unfolding operands pop_wide
  pop_wide-Leaves high low vs h =
      let i = f.ostack - 2 in
      let n = f.ostack - f.bottom in
      let (left, here, rest) = words_above-cons f.cell f.bottom n high (low ∷ vs) h in
      let (left', here', rest') = words_above-cons f.cell f.bottom (n - 1) low vs rest in
      let e : f.bottom + (n - 1) ≡ i + 1 = omega arith in
      let e' : f.bottom + (n - 1 - 1) ≡ i = omega arith in
      let d : i - f.bottom ≡ n - 1 - 1 = omega arith in
      let value : f.cell (i + 1) ≡ high = rw e at here in
      let value' : f.cell i ≡ low = rw e' at here' in
      let cell' = update (update f.cell i 0) (i + 1) 0 in
      (
        record f { cell = cell'; ostack = i },
        rw
            (
              second_slot-ok (omega arith),
              lt→ltb i f.size (omega arith),
              lt→ltb (i + 1) f.size (omega arith),
              value,
              value',
            )
            (ground arith),
        record {
          valid = ground (arith);
          stack =
              rw
                (
                  d,
                  words_above-update (update f.cell i 0) f.bottom (n - 1 - 1) (i + 1) 0
                      (omega arith),
                  words_above-update f.cell f.bottom (n - 1 - 1) i 0 (omega arith),
                )
                rest';
          keeps = λ j p. ground arith;
          at = refl;
          bottom = refl;
          top = refl;
          code = refl;
        },
      )

  -- Putting one word.
  pub push_slot-Leaves :
      (v : ℕ)
      → v < 2 ^ 32
      → f.ostack < f.top
      → (g : Frame) × (push f v type_int ≡ ok g) × Leaves f f.cell f.pc (v ∷ operands f) g
  unfolding operands push
  push_slot-Leaves v small room =
      let n = f.ostack - f.bottom in
      let d : f.ostack + 1 - f.bottom ≡ suc n = omega arith in
      let e : f.bottom + n ≡ f.ostack = omega arith in
      (
        record f { cell = update f.cell f.ostack v; ostack = f.ostack + 1 },
        ground arith,
        record {
          valid = ground arith;
          stack =
              rw (d, e, words_above-update f.cell f.bottom n f.ostack v (omega arith))
                (ground arith);
          keeps = λ j p. ground arith;
          at = refl;
          bottom = refl;
          top = refl;
          code = refl;
        },
      )

  -- Putting two words, the high one on top. The room is not what `push` checks.
  pub push_wide-Leaves :
      (v : ℕ)
      → v < 2 ^ 64
      → f.ostack + 1 < f.top
      → (g : Frame) × (push f v type_long ≡ ok g)
        × Leaves f f.cell f.pc ((v / 2 ^ 32) ∷ (v % 2 ^ 32) ∷ operands f) g
  unfolding operands push
  push_wide-Leaves v small room =
      let n = f.ostack - f.bottom in
      let d : f.ostack + 1 + 1 - f.bottom ≡ suc (suc n) = omega arith in
      let e : f.bottom + n ≡ f.ostack = omega arith in
      let e' : f.bottom + suc n ≡ f.ostack + 1 = omega arith in
      let cell₁ = update f.cell f.ostack (v % 2 ^ 32) in
      (
        record f { cell = update cell₁ (f.ostack + 1) (v / 2 ^ 32); ostack = f.ostack + 1 + 1 },
        ground arith,
        record {
          valid = ground arith;
          stack =
              rw
                (
                  d,
                  e,
                  e',
                  words_above-update cell₁ f.bottom n (f.ostack + 1) (v / 2 ^ 32) (omega arith),
                  words_above-update f.cell f.bottom n f.ostack (v % 2 ^ 32) (omega arith),
                )
                (ground arith);
          keeps = λ j p. ground arith;
          at = refl;
          bottom = refl;
          top = refl;
          code = refl;
        },
      )
