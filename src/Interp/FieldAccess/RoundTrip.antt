-- ===== src/Interp/FieldAccess/RoundTrip.antt =====
-- What `getfield` reads after `putfield` has written.
use turkey_vm.Prelude.{
  ℕ, ◌+◌, ◌-◌, ◌*◌, ◌^◌, ◌≤◌, ◌≡◌, ◌≢◌, some, List, ◌∷◌, length, get_elem?, Run, ok, Option,
  Returns,
}
use turkey_vm.Frame.Defs.{Frame}
use turkey_vm.Frame.View.{operands, IsFrame}
use turkey_vm.Frame.Steps.{Effect}
use turkey_vm.Objects.{Object, Heap}
use turkey_vm.Classes.{LoadedClass, FieldBlock, field_words}
use turkey_vm.Classes.Layout.{Instance, HasLayout}
use turkey_vm.Classes.Fields.{FieldOf}
use turkey_vm.Interp.FieldAccess.{exe_opc_getfield, exe_opc_putfield}
use turkey_vm.Interp.FieldAccess.Stored.{ObjectAt, field_value}
use turkey_vm.Interp.FieldAccess.Access.{field_on, getfield-Effect, putfield-Effect}

-- The frame is in order with a reference to `r` on top of `s`, the code goes on with the bytes of an
-- index that resolves to the instance field `fb` of the class `c`, and there is room for its value.
pub record Asks (c : LoadedClass) (resolve : ℕ → Run (Option FieldBlock)) (r : ℕ) (f : Frame)
    (fb : FieldBlock) (s : List ℕ) : Type 0 where
  pub valid : IsFrame f
  pub b₀ : ℕ
  pub b₁ : ℕ
  pub first : get_elem? f.code (f.pc + 0) ≡ some b₀
  pub second : get_elem? f.code (f.pc + 1) ≡ some b₁
  pub resolved : resolve (b₀ * 2 ^ 8 + b₁) ≡ ok (some fb)
  pub member : FieldOf fb c
  pub inst : Instance fb
  pub stack : operands f ≡ r ∷ s
  pub room : length s + field_words fb ≤ f.top - f.bottom

Asks-Effect :
    (heap : Heap) (r : ℕ) (o : Object) (c : LoadedClass)
    → ObjectAt heap r o c
    → HasLayout c
    → (resolve : ℕ → Run (Option FieldBlock)) (f : Frame) (fb : FieldBlock) (s : List ℕ)
    → Asks c resolve r f fb s
    → Effect f
        (exe_opc_getfield resolve heap f)
        f.cell
        (f.pc + 2)
        (field_on fb (field_value fb o) s)
Asks-Effect heap r o c a layout resolve f fb s q =
    getfield-Effect heap r o c a layout resolve f q.valid s q.b₀ q.b₁ q.first q.second fb q.resolved
      q.member q.inst q.stack q.room

-- On a frame in order with a value on top of a reference to an object of a class whose fields are
-- laid out, the code going on with the bytes of an index that resolves to an instance field of the
-- class: `putfield` returns, and in the heap that it leaves `getfield` of the same field, on a frame
-- that asks for it of the object, leaves the value, and `getfield` of another instance field of the
-- class leaves what that field had before.
pub putfield-getfield :
    (heap : Heap) (r : ℕ) (o : Object) (c : LoadedClass)
    → ObjectAt heap r o c
    → HasLayout c
    → (resolve : ℕ → Run (Option FieldBlock)) (f : Frame) → IsFrame f
    → (s : List ℕ) (b₀ b₁ : ℕ) → get_elem? f.code (f.pc + 0) ≡ some b₀
    → get_elem? f.code (f.pc + 1) ≡ some b₁
    → (fb : FieldBlock) → resolve (b₀ * 2 ^ 8 + b₁) ≡ ok (some fb)
    → FieldOf fb c
    → Instance fb
    → (v : ℕ) → operands f ≡ field_on fb v (r ∷ s)
    → (f₁ f₂ : Frame) (fb' : FieldBlock) (s₁ s₂ : List ℕ) → Asks c resolve r f₁ fb s₁
    → Asks c resolve r f₂ fb' s₂
    → fb ≢ fb'
    → Returns (exe_opc_putfield resolve heap f) (λ (heap', g).
      Effect f₁ (exe_opc_getfield resolve heap' f₁) f₁.cell (f₁.pc + 2) (field_on fb v s₁)
      × Effect f₂
          (exe_opc_getfield resolve heap' f₂)
          f₂.cell
          (f₂.pc + 2)
          (field_on fb' (field_value fb' o) s₂))
putfield-getfield heap r o c a layout resolve f valid s b₀ b₁ first second fb resolved member inst v
      h f₁ f₂ fb' s₁ s₂ q₁ q₂ ne =
    let ((heap', g), runs, (l, stored)) =
      putfield-Effect heap r o c a layout resolve f valid s b₀ b₁ first second fb resolved member
        inst v h in
    (
      (heap', g),
      runs,
      (
        rw stored.kept at
            (Asks-Effect heap' r stored.object c stored.at layout resolve f₁ fb s₁ q₁),
        rw (stored.others fb' q₂.member q₂.inst ne) at
            (Asks-Effect heap' r stored.object c stored.at layout resolve f₂ fb' s₂ q₂),
      ),
    )
