-- ===== src/Classes/Search.antt =====
-- What the search for methods finds.
use mathlib.Core.Path.{subst}
use turkey_vm.Prelude.{
  ◌≡◌, ◌⊎◌, refl, true, false, ◌&&◌, Option, some, none, List, [], ◌∷◌, All, inl, inr, Bool-cases,
}
use turkey_vm.Classes.{
  Text, equals, MethodBlock, LoadedClass, null, class_block, find_method_in_current, find_method,
}
use turkey_vm.Classes.Texts.{and-parts, equals-≡, equals_refl}

-- The method has this name and this type.
abbrev pub Named : Text → Text → MethodBlock → Type 0
Named name type mb = (mb.name ≡ name) × (mb.type ≡ type)

pub some-injective : {A : Type 0} {a b : A} → some a ≡ some b → a ≡ b
some-injective h = cc

pub Option-cases : {A : Type 0} (r : Option A) → (r ≡ none) ⊎ ((x : A) × (r ≡ some x))
Option-cases none = inl refl
Option-cases (some x) = inr (x, refl)

module _ (name type : Text) where
  hit-Named :
      (mb : MethodBlock) → (equals mb.name name && equals mb.type type) ≡ true → Named name type mb
  hit-Named mb h =
      let (n, t) = and-parts _ _ h in (equals-≡ mb.name name n, equals-≡ mb.type type t)

  no-hit :
      (mb : MethodBlock)
      → (equals mb.name name && equals mb.type type) ≡ false
      → Named name type mb
      → true ≡ false
  no-hit mb h (n, t) = rw (n, t, equals_refl name, equals_refl type) at h

  -- What is found has the name and the type, and all that the methods of the class share.
  pub find_method_in_current-found :
      (P : MethodBlock → Type 0) (mbs : List MethodBlock) (mb : MethodBlock)
      → All P mbs
      → find_method_in_current mbs name type ≡ some mb
      → Named name type mb × P mb
  unfolding find_method_in_current
  find_method_in_current-found P [] mb all h = cc
  find_method_in_current-found P (x ∷ xs) mb (here, there) h =
      elim (Bool-cases (equals x.name name && equals x.type type)) [
        | inl e ↦
            let same : x ≡ mb = some-injective (rw e at h) in
            subst (λ m. Named name type m × P m) same (hit-Named x e, here)
        | inr e ↦ find_method_in_current-found P xs mb there (rw e at h)
      ]

  -- Where nothing is found, no method has the name and the type.
  pub find_method_in_current-none :
      (mbs : List MethodBlock)
      → find_method_in_current mbs name type ≡ none
      → All (λ mb. Named name type mb → true ≡ false) mbs
  unfolding find_method_in_current
  find_method_in_current-none [] h = tt
  find_method_in_current-none (x ∷ xs) h =
      elim (Bool-cases (equals x.name name && equals x.type type)) [
        | inl e ↦ absurd (let bad : some x ≡ none = rw e at h in cc)
        | inr e ↦ (no-hit x e, find_method_in_current-none xs (rw e at h))
      ]

All-unit : (mbs : List MethodBlock) → All {0, 0} (λ mb. Unit) mbs
All-unit [] = tt
All-unit (x ∷ xs) = (tt, All-unit xs)

module _ (name type : Text) where
  pub find_method-Named :
      (c : LoadedClass) (mb : MethodBlock) → find_method c name type ≡ some mb → Named name type mb
  unfolding find_method
  find_method-Named null mb h = cc
  find_method-Named (class_block super cb) mb h =
      elim (Option-cases (find_method_in_current cb.methods name type)) [
        | inl e ↦ find_method-Named super mb (rw (e, find_method) at h)
        | inr (x, e) ↦
            let same : x ≡ mb = some-injective (rw (e, find_method) at h) in
            subst (Named name type) same
              (find_method_in_current-found name type (λ y. Unit) cb.methods x (All-unit cb.methods)
                e).0
      ]
