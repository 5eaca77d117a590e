-- ===== src/Interp/Rules.antt =====
-- The shapes that many handlers of src/interp/interp.c share: what they leave on the stack.
use turkey_vm.Prelude.{
  ℕ, ◌+◌, ◌*◌, ◌/◌, ◌%◌, ◌^◌, ◌<◌, ◌≡◌, ◌≢◌, refl, true, List, ◌∷◌, arith, ◌>>=◌,
}
use turkey_vm.Frame.Defs.{Frame, Operand, type_int, type_long, type_ulong, pop, push}
use turkey_vm.Frame.View.{operands, IsFrame}
use turkey_vm.Frame.Steps.{is_word, is_wide, Effect, Leaves-self, operands-room}
use turkey_vm.Frame.Operands.{with_pop, with_pop_wide, push-Effect, push_wide-Effect}

-- The words of a long long on the abstract stack: the high one on top.
abbrev pub long_on : ℕ → List ℕ → List ℕ
long_on v s = (v / 2 ^ 32) ∷ (v % 2 ^ 32) ∷ s

pub long_parts : (v : ℕ) → v % 2 ^ 32 + v / 2 ^ 32 * 2 ^ 32 ≡ v
long_parts v = omega arith

long-ne-ulong : type_long ≢ type_ulong
long-ne-ulong = λ e. cc

module _ (f : Frame) (valid : IsFrame f) where
  pub unary-Effect :
      (t : Operand) (op : ℕ → ℕ) (a r : ℕ) (s : List ℕ)
      → is_word t ≡ true
      → operands f ≡ a ∷ s
      → (a < 2 ^ 32 → (op a ≡ r) × (r < 2 ^ 32))
      → Effect f (pop f t >>= λ (value, f₁). push f₁ (op value) type_int) f.cell f.pc (r ∷ s)
  unary-Effect t op a r s w h is = with_pop t _ w (Leaves-self f valid h) λ f₁ ha l₁.
      rw (is ha).0
        (push-Effect r type_int refl l₁ (is ha).1 (omega (arith, operands-room f valid h)))

  pub binary-Effect :
      (t t' : Operand) (op : ℕ → ℕ → ℕ) (a b r : ℕ) (s : List ℕ)
      → is_word t ≡ true
      → is_word t' ≡ true
      → operands f ≡ b ∷ a ∷ s
      → (a < 2 ^ 32 → b < 2 ^ 32 → (op a b ≡ r) × (r < 2 ^ 32))
      → Effect f
          (pop f t >>= λ (value2, f₁).
            pop f₁ t' >>= λ (value1, f₂). push f₂ (op value1 value2) type_int)
          f.cell
          f.pc
          (r ∷ s)
  binary-Effect t t' op a b r s w w' h is = with_pop t _ w (Leaves-self f valid h) λ f₁ hb l₁.
      with_pop t' _ w' l₁ λ f₂ ha l₂.
        rw (is ha hb).0
          (push-Effect r type_int refl l₂ (is ha hb).1 (omega (arith, operands-room f valid h)))

  -- On long longs.
  pub long_unary-Effect :
      (op : ℕ → ℕ) (a r : ℕ) (s : List ℕ)
      → operands f ≡ long_on a s
      → (a < 2 ^ 64 → (op a ≡ r) × (r < 2 ^ 64))
      → Effect f
          (pop f type_long >>= λ (value, f₁). push f₁ (op value) type_long)
          f.cell
          f.pc
          (long_on r s)
  long_unary-Effect op a r s h is =
      with_pop_wide type_long _ refl (Leaves-self f valid h) λ f₁ ha l₁.
        rw (long_parts a, (is (rw long_parts at ha)).0)
          (push_wide-Effect r type_long refl long-ne-ulong l₁ (is (rw long_parts at ha)).1
            (omega (arith, operands-room f valid h)))

  pub long_binary-Effect :
      (t' : Operand) (op : ℕ → ℕ → ℕ) (a b r : ℕ) (s : List ℕ)
      → is_wide t' ≡ true
      → operands f ≡ long_on b (long_on a s)
      → (a < 2 ^ 64 → b < 2 ^ 64 → (op a b ≡ r) × (r < 2 ^ 64))
      → Effect f
          (pop f type_long >>= λ (value2, f₁).
            pop f₁ t' >>= λ (value1, f₂). push f₂ (op value1 value2) type_long)
          f.cell
          f.pc
          (long_on r s)
  long_binary-Effect t' op a b r s w' h is =
      with_pop_wide type_long _ refl (Leaves-self f valid h) λ f₁ hb l₁.
        with_pop_wide t' _ w' l₁ λ f₂ ha l₂.
          let both = is (rw long_parts at ha) (rw long_parts at hb) in
          rw (long_parts a, long_parts b, both.0)
            (push_wide-Effect r type_long refl long-ne-ulong l₂ both.1
              (omega (arith, operands-room f valid h)))

  -- A long long under an int, as the shifts want.
  pub long_int-Effect :
      (t' : Operand) (op : ℕ → ℕ → ℕ) (a b r : ℕ) (s : List ℕ)
      → is_wide t' ≡ true
      → operands f ≡ b ∷ long_on a s
      → (a < 2 ^ 64 → b < 2 ^ 32 → (op a b ≡ r) × (r < 2 ^ 64))
      → Effect f
          (pop f type_int >>= λ (value2, f₁).
            pop f₁ t' >>= λ (value1, f₂). push f₂ (op value1 value2) type_long)
          f.cell
          f.pc
          (long_on r s)
  long_int-Effect t' op a b r s w' h is =
      with_pop type_int _ refl (Leaves-self f valid h) λ f₁ hb l₁.
        with_pop_wide t' _ w' l₁ λ f₂ ha l₂.
          let both = is (rw long_parts at ha) hb in
          rw (long_parts a, both.0)
            (push_wide-Effect r type_long refl long-ne-ulong l₂ both.1
              (omega (arith, operands-room f valid h)))
