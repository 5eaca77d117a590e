-- ===== src/Interp/Creation/Instances.antt =====
-- What `new` leaves: an object whose fields are those of its class.
use turkey_vm.Prelude.{
  ℕ, zero, suc, ◌+◌, ◌-◌, ◌*◌, ◌^◌, ◌<◌, ◌≡◌, ◌≢◌, refl, true, false, List, ◌∷◌, some, arith,
  length, get_elem?, ◌==◌, Run, ok, Returns,
}
use turkey_vm.Memory.{read_bytes}
use turkey_vm.Frame.Defs.{Frame, type_reference}
use turkey_vm.Frame.View.{operands, IsFrame, Leaves}
use turkey_vm.Frame.Steps.{Leaves-self}
use turkey_vm.Frame.Operands.{push-Effect}
use turkey_vm.Frame.Fetch.{with_u2}
use turkey_vm.Objects.{Object, Heap, object_object, set_object, alloc_object}
use turkey_vm.Objects.Alloc.{sys_malloc-ok}
use turkey_vm.Classes.{LoadedClass, FieldBlock, object_words, field_words}
use turkey_vm.Interp.Creation.{exe_opc_new}
use turkey_vm.Interp.FieldAccess.Stored.{ObjectAt, field_value}

-- At `r` stands a new object of the class `c`, each field of it zero; the objects at other addresses
-- are those of `heap`.
pub record NewObject (heap : Heap) (r class : ℕ) (c : LoadedClass) (heap' : Heap) : Type 0 where
  pub object : Object
  pub at : ObjectAt heap' r object c
  pub of_class : object.class ≡ class
  pub zeros : (fb : FieldBlock) → field_value fb object ≡ 0
  pub elsewhere : (p : ℕ) → p ≢ r → heap' p ≡ heap p

zero_bytes : (n p : ℕ) → read_bytes n (λ i. 0) p ≡ 0
unfolding read_bytes
zero_bytes zero p = refl
zero_bytes (suc n) p = omega (arith, zero_bytes n (p + 1))

abbrev instance_of : ℕ → ℕ → Object
instance_of class words = record {
  class = class;
  kind = object_object;
  length = words;
  atype = 0;
  el_size = 4;
  bytes = words * 4;
  cell = λ p. 0;
}

alloc_object-new :
    (fresh class : ℕ) (c : LoadedClass) (heap : Heap)
    → fresh ≢ 0
    → object_words c < 2 ^ 28
    → (alloc_object fresh class (object_words c) heap
        ≡ ok (fresh, set_object heap fresh (instance_of class (object_words c))))
      × NewObject heap fresh class c (set_object heap fresh (instance_of class (object_words c)))
unfolding alloc_object set_object
alloc_object-new fresh class c heap ne small = (
  rw (sys_malloc-ok (object_words c) 4 (omega arith) (omega arith) fresh ne) refl,
  record {
    object = instance_of class (object_words c);
    at = record {
      address = ne;
      found = let e : (fresh == fresh) ≡ true = ground arith in rw e refl;
      words_lt = omega arith;
      sized = refl;
      cells = λ p. omega arith;
    };
    of_class = refl;
    zeros = λ fb. zero_bytes (field_words fb * 4) ((fb.offset - 1) * 4);
    elsewhere = λ p other. let e : (fresh == p) ≡ false = ground arith in rw e refl;
  },
)

-- On a frame in order with room for a word, where `resolveClass`, on the index in the two bytes next
-- in the code, returns a class of fewer than 2 ^ 28 words and leaves a heap, and `malloc` then returns
-- an address that is neither `NULL` nor 2 ^ 32 or more: `new` leaves the address, where a new object
-- of the class stands with all its fields zero; the objects at other addresses are those of the heap
-- that `resolveClass` left, and the rest of the frame stays.
pub new-NewObject :
    (resolve_class : ℕ → Heap → Run ((ℕ × ℕ) × Heap)) (fresh : ℕ) (heap heap₁ : Heap) (f : Frame)
    → IsFrame f
    → (s : List ℕ) → operands f ≡ s
    → length s < f.top - f.bottom
    → (b₀ b₁ : ℕ) → get_elem? f.code (f.pc + 0) ≡ some b₀
    → get_elem? f.code (f.pc + 1) ≡ some b₁
    → (class : ℕ) (c : LoadedClass)
    → resolve_class (b₀ * 2 ^ 8 + b₁) heap ≡ ok ((class, object_words c), heap₁)
    → object_words c < 2 ^ 28
    → fresh ≢ 0
    → fresh < 2 ^ 32
    → Returns (exe_opc_new resolve_class fresh heap f) (λ (heap', g).
      Leaves f f.cell (f.pc + 2) (fresh ∷ s) g × NewObject heap₁ fresh class c heap')
unfolding exe_opc_new
new-NewObject resolve_class fresh heap heap₁ f valid s h room b₀ b₁ first second class c resolved
      words ne small =
    with_u2 _ first second (Leaves-self f valid h) λ f₁ l₁.
      let (runs, new) = alloc_object-new fresh class c heap₁ ne words in
      let (g, pushed, l₂) = push-Effect fresh type_reference refl l₁ small room in
      rw (resolved, runs, pushed) (_, refl, (l₂, new))
