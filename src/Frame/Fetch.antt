-- ===== src/Frame/Fetch.antt =====
-- The rules for reading the code and for moving in it.
use turkey_vm.Prelude.{
  ℕ, ◌+◌, ◌*◌, ◌^◌, ◌<◌, ◌≡◌, refl, List, get_elem?, some, Run, ok, ◌>>=◌, Returns, pos, ◌+ℤ◌,
  signed32,
}
use turkey_vm.Frame.Defs.{Frame, interp_u1, interp_u2, interp_u4, fetch, advance, pc_move}
use turkey_vm.Frame.View.{Leaves}
use turkey_vm.Frame.Steps.{Effect, Leaves-trans}
use turkey_vm.Frame.Writes.{advance-Leaves, pc_move-Leaves}

-- The four bytes of the code at position `p`, the high one first, make `w`.
pub record WordAt (code : List ℕ) (p w : ℕ) : Type 0 where
  pub b₀ : ℕ
  pub b₁ : ℕ
  pub b₂ : ℕ
  pub b₃ : ℕ
  pub first : get_elem? code (p + 0) ≡ some b₀
  pub second : get_elem? code (p + 1) ≡ some b₁
  pub third : get_elem? code (p + 2) ≡ some b₂
  pub fourth : get_elem? code (p + 3) ≡ some b₃
  pub value : b₀ * 2 ^ 24 + b₁ * 2 ^ 16 + b₂ * 2 ^ 8 + b₃ ≡ w
  pub small : w < 2 ^ 32

module _ {f g : Frame} {l : ℕ → ℕ} {p : ℕ} {vs : List ℕ} where
  fetch-ok : (k b : ℕ) → Leaves f l p vs g → get_elem? f.code (p + k) ≡ some b → fetch g k ≡ ok b
  unfolding fetch
  fetch-ok k b s there =
      let there' : get_elem? g.code (g.pc + k) ≡ some b = rw (s.code, s.at) there in
      rw (there', fetch)

  advance-Effect : (k : ℕ) → Leaves f l p vs g → Leaves f l (p + k) vs (advance g k)
  advance-Effect k s = Leaves-trans s (rw s.stack at (advance-Leaves g s.valid k)) (rw s.at) s.keeps

  pub with_u1 :
      {A : Type 0} {P : A → Type 0} {b : ℕ} (k : ℕ × Frame → Run A)
      → get_elem? f.code (p + 0) ≡ some b
      → Leaves f l p vs g
      → ((h : Frame) → Leaves f l (p + 1) vs h → Returns (k (b, h)) P)
      → Returns (interp_u1 g >>= k) P
  unfolding interp_u1
  with_u1 {b} k there s next = rw (fetch-ok 0 b s there) (next (advance g 1) (advance-Effect 1 s))

  pub with_u2 :
      {A : Type 0} {P : A → Type 0} {b c : ℕ} (k : ℕ × Frame → Run A)
      → get_elem? f.code (p + 0) ≡ some b
      → get_elem? f.code (p + 1) ≡ some c
      → Leaves f l p vs g
      → ((h : Frame) → Leaves f l (p + 2) vs h → Returns (k (b * 2 ^ 8 + c, h)) P)
      → Returns (interp_u2 g >>= k) P
  unfolding interp_u2
  with_u2 {b} {c} k there there' s next =
      rw (fetch-ok 0 b s there, fetch-ok 1 c s there') (next (advance g 2) (advance-Effect 2 s))

  pub pc_move-Effect :
      (x target : ℕ)
      → Leaves f l p vs g
      → x < 2 ^ 32
      → pos p +ℤ signed32 x ≡ pos target
      → Effect f (pc_move x g) l target vs
  pc_move-Effect x target s small e =
      let (h, runs, t) = pc_move-Leaves g s.valid x target small (rw s.at e) in
      (h, runs, Leaves-trans s (rw s.stack at t) refl s.keeps)

  -- Four bytes at a position make a number.
  pub with_u4 :
      {A : Type 0} {P : A → Type 0} {w : ℕ} (k : ℕ × Frame → Run A)
      → WordAt f.code p w
      → Leaves f l p vs g
      → ((h : Frame) → Leaves f l (p + 4) vs h → Returns (k (w, h)) P)
      → Returns (interp_u4 g >>= k) P
  unfolding interp_u4
  with_u4 {w} k there s next =
      rw
        (
          fetch-ok 0 there.b₀ s there.first,
          fetch-ok 1 there.b₁ s there.second,
          fetch-ok 2 there.b₂ s there.third,
          fetch-ok 3 there.b₃ s there.fourth,
          there.value,
        )
        (next (advance g 4) (advance-Effect 4 s))
