-- ===== src/Classes/Texts.antt =====
-- Equal texts.
use turkey_vm.Prelude.{ℕ, ◌≡◌, refl, Bool, true, false, ◌&&◌, [], ◌∷◌, arith, ◌==◌}
use turkey_vm.Classes.{Text, equals}

pub and-parts : (a b : Bool) → (a && b) ≡ true → (a ≡ true) × (b ≡ true)
and-parts true true h = (refl, refl)
and-parts true false h = cc
and-parts false b h = cc

same-number : (a b : ℕ) → (a == b) ≡ true → a ≡ b
same-number a b h = ground arith

pub equals-≡ : (a b : Text) → equals a b ≡ true → a ≡ b
unfolding equals
equals-≡ [] [] h = refl
equals-≡ [] (b ∷ bs) h = cc
equals-≡ (a ∷ rest) [] h = cc
equals-≡ (a ∷ rest) (b ∷ rest') h =
    let (here, there) = and-parts _ _ h in rw (same-number a b here, equals-≡ rest rest' there) refl

pub equals_refl : (a : Text) → equals a a ≡ true
unfolding equals
equals_refl [] = refl
equals_refl (a ∷ rest) = let e : (a == a) ≡ true = ground arith in rw (e, equals_refl rest) refl
