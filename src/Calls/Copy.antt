-- ===== src/Calls/Copy.antt =====
-- What the loop that copies arguments leaves.
use turkey_vm.Prelude.{
  ℕ, suc, ◌+◌, ◌-◌, ◌^◌, ◌<◌, ◌≤◌, ◌≡◌, refl, ◌∙◌, List, [], ◌∷◌, ◌++◌, arith, lt→ltb, length,
  update, ok,
}
use turkey_vm.Frame.Defs.{Frame, top_slot, read_slot, write_slot}
use turkey_vm.Frame.View.{words_above, operands, IsFrame, Leaves, words_above-update}
use turkey_vm.Frame.Steps.{Leaves-self, Leaves-trans}
use turkey_vm.Frame.Effects.{words_above-cons}
use turkey_vm.Calls.Defs.{copy_args}

-- A block has the words `args` in its first cells, the head of the list in the highest, and is
-- otherwise as `before`.
pub record Holds (before : ℕ → ℕ) (args : List ℕ) (cell : ℕ → ℕ) : Type 0 where
  pub args_in : words_above cell 0 (length args) ≡ args
  pub others : (i : ℕ) → length args ≤ i → cell i ≡ before i
  pub words : ((i : ℕ) → before i < 2 ^ 32) → (i : ℕ) → cell i < 2 ^ 32

module _ (f : Frame) (valid : IsFrame f) where
  -- One round takes the top word.
  abbrev taken : Frame
  taken = record f { cell = update f.cell (f.ostack - 1) 0; ostack = f.ostack - 1 }

  round :
      (v : ℕ) (vs : List ℕ)
      → operands f ≡ v ∷ vs
      → (0 < f.ostack) × (f.cell (f.ostack - 1) ≡ v) × Leaves f f.cell f.pc vs taken
  unfolding operands
  round v vs h =
      let i = f.ostack - 1 in
      let (left, here, rest) = words_above-cons f.cell f.bottom (f.ostack - f.bottom) v vs h in
      let e : f.bottom + (f.ostack - f.bottom - 1) ≡ i = omega arith in
      let d : i - f.bottom ≡ f.ostack - f.bottom - 1 = omega arith in
      (
        omega arith,
        rw e at here,
        record {
          valid = ground arith;
          stack =
              rw (d, words_above-update f.cell f.bottom (f.ostack - f.bottom - 1) i 0 (omega arith))
                rest;
          keeps = λ j p. ground arith;
          at = refl;
          bottom = refl;
          top = refl;
          code = refl;
        },
      )

  top_slot-is : 0 < f.ostack → top_slot f ≡ ok (f.ostack - 1)
  unfolding top_slot
  top_slot-is h = ground arith

  copy_args-round :
      (v n size : ℕ) (cell : ℕ → ℕ)
      → 0 < f.ostack
      → f.cell (f.ostack - 1) ≡ v
      → n < size
      → copy_args (suc n) f size cell ≡ copy_args n taken size (update cell n v)
  unfolding copy_args read_slot write_slot
  copy_args-round v n size cell some_word here room =
      rw
        (
          top_slot-is some_word,
          lt→ltb (f.ostack - 1) f.size (omega (arith, valid.upper, valid.fits)),
          lt→ltb n size room,
          here,
        )
        refl

update-words :
    (cell : ℕ → ℕ) (n v i : ℕ) → v < 2 ^ 32 → cell i < 2 ^ 32 → update cell n v i < 2 ^ 32
update-words cell n v i small h = ground arith

-- The first word goes behind the others.
Holds-cons :
    (cell c : ℕ → ℕ) (v : ℕ) (args : List ℕ)
    → v < 2 ^ 32
    → Holds (update cell (length args) v) args c
    → Holds cell (v ∷ args) c
Holds-cons cell c v args small held = record {
  args_in =
      let top : c (length args) ≡ v = held.others (length args) (omega arith) ∙ ground arith in
      let e : 0 + length args ≡ length args = omega arith in rw (e, top, held.args_in) refl;
  others = λ i p. held.others i (omega arith) ∙ ground arith;
  words = λ w. held.words (λ i. update-words cell (length args) v i small (w i));
}

pub copy_args-Holds :
    (args : List ℕ) (f : Frame) (valid : IsFrame f) (s : List ℕ) (size : ℕ) (cell : ℕ → ℕ)
    → operands f ≡ args ++ s
    → length args ≤ size
    → (g : Frame) × (c : ℕ → ℕ) × (copy_args (length args) f size cell ≡ ok (g, c))
      × Leaves f f.cell f.pc s g
      × Holds cell args c
unfolding copy_args
copy_args-Holds [] f valid s size cell h room = (
  f,
  cell,
  refl,
  Leaves-self f valid h,
  record { args_in = refl; others = λ i p. refl; words = λ w. w },
)
copy_args-Holds (v ∷ args) f valid s size cell h room =
    let (some_word, here, l) = round f valid v (args ++ s) h in
    let n = length args in
    let (g, c, runs, l', held) =
      copy_args-Holds args (taken f valid) l.valid s size (update cell n v) l.stack (omega arith) in
    let small : v < 2 ^ 32 = rw here at (valid.words (f.ostack - 1)) in
    (
      g,
      c,
      copy_args-round f valid v n size cell some_word here (omega arith) ∙ runs,
      Leaves-trans l l' refl l.keeps,
      Holds-cons cell c v args small held,
    )
