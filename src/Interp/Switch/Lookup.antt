-- ===== src/Interp/Switch/Lookup.antt =====
-- `lookupswitch`: where the pc goes.
use turkey_vm.Prelude.{
  ℕ, suc, ◌+◌, ◌-◌, ◌^◌, ◌<◌, ◌≡◌, refl, ◌∙◌, true, false, Option, none, some, List, [], ◌∷◌, ◌==◌,
  ◌≤◌, ◌≢◌, length, ltb, ok, Returns, ap, pos, ◌+ℤ◌, signed32, arith, ltb,
}
use turkey_vm.Frame.Defs.{Frame, type_int}
use turkey_vm.Frame.View.{operands, IsFrame, Leaves}
use turkey_vm.Frame.Steps.{Effect, Leaves-self}
use turkey_vm.Frame.Operands.{with_pop}
use turkey_vm.Frame.Fetch.{WordAt, with_u4}
use turkey_vm.Interp.Switch.Moves.{
  aligned, step_back, with_move, with_pad, offset-is, switch_jump-Effect,
}
use turkey_vm.Interp.Switch.{read_pairs, find_pair, exe_opc_lookupswitch, switch_jump}

-- The pairs of keys and offsets in the code, from position `q` on, and where they end.
abbrev pub PairsAt : List ℕ → ℕ → List (ℕ × ℕ) → Type 0
PairsAt code q [] = Unit
PairsAt code q ((key, offset) ∷ pairs) =
    WordAt code q key × WordAt code (q + 4) offset × PairsAt code (q + 4 + 4) pairs

abbrev pub behind : ℕ → List (ℕ × ℕ) → ℕ
behind q [] = q
behind q (pair ∷ pairs) = behind (q + 4 + 4) pairs

behind-le : (q : ℕ) (pairs : List (ℕ × ℕ)) → q ≤ behind q pairs
behind-le q [] = omega arith
behind-le q (pair ∷ pairs) = omega (arith, behind-le (q + 4 + 4) pairs)

-- The offset for a key: that of the first pair that has it, else the default.
pub data Chosen (key def : ℕ) : List (ℕ × ℕ) → ℕ → Type 0 where
  default : Chosen key def [] def
  here : {offset : ℕ} {pairs : List (ℕ × ℕ)} → Chosen key def ((key, offset) ∷ pairs) offset
  later :
      {other offset jump : ℕ} {pairs : List (ℕ × ℕ)}
      → key ≢ other
      → Chosen key def pairs jump
      → Chosen key def ((other, offset) ∷ pairs) jump

abbrev or_default : ℕ → Option ℕ → ℕ
or_default def none = def
or_default def (some jump) = jump

find_pair-Chosen :
    (key def jump : ℕ) (pairs : List (ℕ × ℕ))
    → Chosen key def pairs jump
    → or_default def (find_pair key pairs) ≡ jump
unfolding find_pair
find_pair-Chosen key def jump pairs default = refl
find_pair-Chosen key def jump pairs here = let e : (key == key) ≡ true = ground arith in rw e refl
find_pair-Chosen key def jump pairs (later {other} {pairs = rest} ne c) =
    let e : (key == other) ≡ false = ground arith in rw e (find_pair-Chosen key def jump rest c)

read_pairs-Returns :
    (f : Frame) (l : ℕ → ℕ) (vs : List ℕ) (pairs : List (ℕ × ℕ)) (q : ℕ) (g : Frame)
    → PairsAt f.code q pairs
    → Leaves f l q vs g
    → Returns
        (read_pairs (length pairs) g)
        (λ (read, h). (read ≡ pairs) × Leaves f l (behind q pairs) vs h)
unfolding read_pairs
read_pairs-Returns f l vs [] q g there s = (([], g), refl, (refl, s))
read_pairs-Returns f l vs ((key, offset) ∷ pairs) q g there s = with_u4 _ there.0 s λ f₁ l₁.
    with_u4 _ there.1 l₁ λ f₂ l₂.
      let ((read, h), runs, (same, s')) =
        read_pairs-Returns f l vs pairs (q + 4 + 4) f₂ there.2 l₂ in
      rw runs (((key, offset) ∷ read, h), refl, (ap (λ ps. (key, offset) ∷ ps) same, s'))

read_pairs-Leaves :
    (f : Frame) {g : Frame} {l : ℕ → ℕ} {q : ℕ} {vs : List ℕ} (pairs : List (ℕ × ℕ))
    → PairsAt f.code q pairs
    → Leaves f l q vs g
    → (h : Frame) × (read_pairs (length pairs) g ≡ ok (pairs, h)) × Leaves f l (behind q pairs) vs h
read_pairs-Leaves f {g} {l} {q} {vs} pairs there s =
    let ((read, h), runs, (same, s')) = read_pairs-Returns f l vs pairs q g there s in
    (h, runs ∙ ap (λ ps. ok (ps, h)) same, s')

chosen-Effect :
    {f : Frame} {l : ℕ → ℕ} {target : ℕ} {vs : List ℕ} (g : Frame) (base def : ℕ) (x : Option ℕ)
    → Effect f (switch_jump base (or_default def x) g) l target vs
    → Effect f
        (elim x [ none ↦ switch_jump base def g | some jump ↦ switch_jump base jump g ])
        l
        target
        vs
chosen-Effect g base def none h = h
chosen-Effect g base def (some jump) h = h

-- What stands at the instruction at position `p`.
pub record LookupAt (code : List ℕ) (p def : ℕ) (pairs : List (ℕ × ℕ)) : Type 0 where
  pub def_at : WordAt code (aligned p) def
  pub count_at : WordAt code (aligned p + 4) (length pairs)
  pub pairs_at : PairsAt code (aligned p + 4 + 4) pairs

module _ (f : Frame) (valid : IsFrame f) (p def : ℕ) (pairs : List (ℕ × ℕ)) (key : ℕ) (s : List ℕ)
    (at : f.pc ≡ suc p) (table : LookupAt f.code p def pairs)
    (inside : behind (aligned p + 4 + 4) pairs < 2 ^ 31) (few : length pairs < 2 ^ 31)
    (on_top : operands f ≡ key ∷ s) where
  -- On a frame in order that has read a `lookupswitch` at position `p`, whose pairs are fewer than
  -- 2 ^ 31 and whose numbers lie in the first 2 ^ 31 bytes of the code from the next multiple of
  -- four on, with a target below 2 ^ 31: the operand is taken, and the pc goes to the target, `p`
  -- plus the signed offset of the first pair that has the operand as its key, or plus the default
  -- offset if no pair has; all else stays.
  pub lookupswitch-target :
      (jump target : ℕ)
      → Chosen key def pairs jump
      → jump < 2 ^ 32
      → pos p +ℤ signed32 jump ≡ pos target
      → target < 2 ^ 31
      → Effect f (exe_opc_lookupswitch f) f.cell target s
  unfolding exe_opc_lookupswitch
  lookupswitch-target jump target c jump_lt e small =
      let started : Leaves f f.cell (suc p) (key ∷ s) f = rw (← at) (Leaves-self f valid on_top) in
      let end = behind (aligned p + 4 + 4) pairs in
      let far = behind-le (aligned p + 4 + 4) pairs in
      with_move (2 ^ 32 - 1) p _ started (omega arith) (step_back p) λ f₁ l₁.
        with_pop type_int _ refl l₁ λ f₂ key_lt l₂. with_pad _ l₂ (omega (arith, far)) λ f₃ l₃.
          with_u4 _ table.def_at l₃ λ f₄ l₄. with_u4 _ table.count_at l₄ λ f₅ l₅.
            let (f₆, runs, l₆) = read_pairs-Leaves f pairs table.pairs_at l₅ in
            let test : ltb (length pairs) (2 ^ 31) ≡ true = ground arith in
            rw (test, runs)
              (chosen-Effect f₆ f₂.pc_offset def (find_pair key pairs) (
                rw (find_pair-Chosen key def jump pairs c) (
                  switch_jump-Effect p end f₂.pc_offset jump target l₆
                    (offset-is l₂ (omega (arith, far))) (omega (arith, far)) inside small jump_lt
                    e)))
