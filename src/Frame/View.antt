-- ===== src/Frame/View.antt =====
-- The abstract view of a frame: the operand stack as a list, and what a handler may leave changed.
use turkey_vm.Prelude.{
  ℕ, zero, suc, ◌+◌, ◌-◌, ◌%◌, ◌^◌, ◌≤◌, ◌<◌, ◌≡◌, refl, List, [], ◌∷◌, arith, length, update,
}
use turkey_vm.Frame.Defs.{Frame}

-- The `n` words above index `b`, the last one first.
abbrev pub words_above : (ℕ → ℕ) → ℕ → ℕ → List ℕ
words_above m b zero = []
words_above m b (suc n) = m (b + n) ∷ words_above m b n

-- The operand stack, the top first.
unfoldable pub operands : Frame → List ℕ
operands f = words_above f.cell f.bottom (f.ostack - f.bottom)

-- A frame in order: the stack pointer is between its bounds, these are those of the block, each
-- word has 32 bits, and `pc_offset` is the position of `pc`.
pub record IsFrame (f : Frame) : Type 0 where
  pub lower : f.bottom ≤ f.ostack
  pub upper : f.ostack ≤ f.top
  pub fits : f.top ≡ f.size
  pub words : (i : ℕ) → f.cell i < 2 ^ 32
  pub synced : f.pc_offset ≡ f.pc % 2 ^ 32

-- `g` is in order, has the operands `vs` and the local variables `locals`, stands at `pc`, and is
-- otherwise as `f`.
pub record Leaves (f : Frame) (locals : ℕ → ℕ) (pc : ℕ) (vs : List ℕ) (g : Frame) : Type 0 where
  pub valid : IsFrame g
  pub stack : operands g ≡ vs
  pub keeps : (i : ℕ) → i < f.bottom → g.cell i ≡ locals i
  pub at : g.pc ≡ pc
  pub bottom : g.bottom ≡ f.bottom
  pub top : g.top ≡ f.top
  pub code : g.code ≡ f.code

pub length-words_above : (m : ℕ → ℕ) (b n : ℕ) → length (words_above m b n) ≡ n
length-words_above m b zero = refl
length-words_above m b (suc n) = omega (arith, length-words_above m b n)

-- The number of operands is the distance of the pointers.
pub length-operands : (f : Frame) → length (operands f) ≡ f.ostack - f.bottom
unfolding operands
length-operands f = length-words_above f.cell f.bottom (f.ostack - f.bottom)

pub words_above-congr :
    (m k : ℕ → ℕ) (b n : ℕ)
    → ((i : ℕ) → b ≤ i → i < b + n → m i ≡ k i)
    → words_above m b n ≡ words_above k b n
words_above-congr m k b zero h = refl
words_above-congr m k b (suc n) h = rw (
  h (b + n) (omega arith) (omega arith),
  words_above-congr m k b n (λ i p q. h i p (omega arith)),
)

-- A write at or past the end of the operands does not show.
pub words_above-update :
    (m : ℕ → ℕ) (b n i v : ℕ) → b + n ≤ i → words_above (update m i v) b n ≡ words_above m b n
words_above-update m b n i v h = words_above-congr (update m i v) m b n (λ j p q. ground arith)
