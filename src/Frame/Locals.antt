-- ===== src/Frame/Locals.antt =====
-- The rules for `LOAD` and `STORE`.
use turkey_vm.Prelude.{
  ℕ, ◌+◌, ◌*◌, ◌/◌, ◌%◌, ◌^◌, ◌<◌, ◌≡◌, List, arith, lt→ltb, update, Run, ◌>>=◌, Returns,
}
use turkey_vm.Frame.Defs.{Frame, load, load_wide, store, store_wide}
use turkey_vm.Frame.View.{Leaves}
use turkey_vm.Frame.Steps.{Effect, Leaves-trans}
use turkey_vm.Frame.Writes.{store-Leaves, store_wide-Leaves}

module _ {f g : Frame} {l : ℕ → ℕ} {p : ℕ} {vs : List ℕ} where
  local-is : (i : ℕ) → i < f.bottom → Leaves f l p vs g → (g.cell i ≡ l i) × (l i < 2 ^ 32)
  local-is i room s = (s.keeps i room, rw (s.keeps i room) at (s.valid.words i))

  pub with_load :
      {A : Type 0} {P : A → Type 0} (i : ℕ) (k : ℕ → Run A)
      → i < f.bottom
      → Leaves f l p vs g
      → (l i < 2 ^ 32 → Returns (k (l i)) P)
      → Returns (load g i >>= k) P
  unfolding load
  with_load i k room s next =
      let (same, small) = local-is i room s in
      rw (lt→ltb i g.size (omega (arith, s.bottom, s.valid.fits)), same) (next small)

  pub with_load_wide :
      {A : Type 0} {P : A → Type 0} (i : ℕ) (k : ℕ → Run A)
      → i + 1 < f.bottom
      → Leaves f l p vs g
      → (l i + l (i + 1) * 2 ^ 32 < 2 ^ 64 → Returns (k (l i + l (i + 1) * 2 ^ 32)) P)
      → Returns (load_wide g i >>= k) P
  unfolding load_wide
  with_load_wide i k room s next =
      let (same, small) = local-is i (omega arith) s in
      let (same', small') = local-is (i + 1) room s in
      rw
        (
          lt→ltb i g.size (omega (arith, s.bottom, s.valid.fits)),
          lt→ltb (i + 1) g.size (omega (arith, s.bottom, s.valid.fits)),
          same,
          same',
        )
        (next (omega arith))

  pub store-Effect :
      (v i : ℕ)
      → Leaves f l p vs g
      → v < 2 ^ 32
      → i < f.bottom
      → Effect f (store g v i) (update l i v) p vs
  store-Effect v i s small room =
      let (h, runs, t) = store-Leaves g s.valid v i small (rw s.bottom room) in
      (h, runs, Leaves-trans s (rw s.stack at t) s.at (λ j q. ground (arith, s.keeps j q)))

  pub store_wide-Effect :
      (v i : ℕ)
      → Leaves f l p vs g
      → v < 2 ^ 64
      → i + 1 < f.bottom
      → Effect f (store_wide g v i) (update (update l i (v % 2 ^ 32)) (i + 1) (v / 2 ^ 32)) p vs
  store_wide-Effect v i s small room =
      let (h, runs, t) = store_wide-Leaves g s.valid v i small (rw s.bottom room) in
      (h, runs, Leaves-trans s (rw s.stack at t) s.at (λ j q. ground (arith, s.keeps j q)))
