-- ===== src/Frame/Steps.antt =====
-- How the proofs about handlers are put together: what has been left so far, relative to the frame
-- `f` that the handler started on.
use turkey_vm.Prelude.{
  ℕ, ◌-◌, ◌≤◌, ◌<◌, ◌≡◌, refl, ◌∙◌, Bool, true, false, List, arith, length, Run, Returns,
}
use turkey_vm.Frame.Defs.{
  Frame, Operand, type_int, type_long, type_ulong, type_double, type_char, type_uint,
  type_reference, type_float,
}
use turkey_vm.Frame.View.{operands, IsFrame, Leaves, length-operands}

-- The types that take one slot, and those that take two.
abbrev pub is_word : Operand → Bool
is_word type_int = true
is_word type_float = true
is_word type_reference = true
is_word type_uint = true
is_word type_long = false
is_word type_ulong = false
is_word type_double = false
is_word type_char = false

abbrev pub is_wide : Operand → Bool
is_wide type_long = true
is_wide type_double = true
is_wide type_ulong = true
is_wide type_int = false
is_wide type_float = false
is_wide type_reference = false
is_wide type_uint = false
is_wide type_char = false

-- The handler returns normally, and leaves the frame so.
abbrev pub Effect : Frame → Run Frame → (ℕ → ℕ) → ℕ → List ℕ → Type 0
Effect f r locals pc vs = Returns r (Leaves f locals pc vs)

-- The operands of a frame fit between its bounds.
pub operands-room :
    (f : Frame) {vs : List ℕ} → IsFrame f → operands f ≡ vs → length vs ≤ f.top - f.bottom
operands-room f valid h = let n = rw h at (length-operands f) in omega arith

pub Leaves-self :
    (f : Frame) {vs : List ℕ} → IsFrame f → operands f ≡ vs → Leaves f f.cell f.pc vs f
Leaves-self f valid h = record {
  valid = valid;
  stack = h;
  keeps = λ i p. refl;
  at = refl;
  bottom = refl;
  top = refl;
  code = refl;
}

pub Leaves-trans :
    {f g h : Frame} {l m k : ℕ → ℕ} {p q r : ℕ} {vs ws : List ℕ}
    → Leaves f l p vs g
    → Leaves g m q ws h
    → q ≡ r
    → ((i : ℕ) → i < f.bottom → m i ≡ k i)
    → Leaves f k r ws h
Leaves-trans {f} {g} a b there same = record {
  valid = b.valid;
  stack = b.stack;
  keeps = λ i p. b.keeps i (rw a.bottom p) ∙ same i p;
  at = b.at ∙ there;
  bottom = b.bottom ∙ a.bottom;
  top = b.top ∙ a.top;
  code = b.code ∙ a.code;
}
