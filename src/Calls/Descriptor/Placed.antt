-- ===== src/Calls/Descriptor/Placed.antt =====
-- Words placed in a block one after another.
use turkey_vm.Prelude.{
  ℕ, zero, suc, ◌+◌, ◌^◌, ◌<◌, ◌≤◌, ◌≡◌, refl, ◌∙◌, ap, true, List, [], ◌∷◌, ◌++◌, ltb, lt→ltb,
  length, update, All, ok, arith,
}
use turkey_vm.Calls.Descriptor.{copy_words}

-- `cell` with the words from index `sp` on.
abbrev pub placed : (ℕ → ℕ) → ℕ → List ℕ → ℕ → ℕ
placed cell sp [] = cell
placed cell sp (w ∷ ws) = placed (update cell sp w) (sp + 1) ws

-- The words of a block in the order of their indices.
abbrev pub words_from : (ℕ → ℕ) → ℕ → ℕ → List ℕ
words_from m b zero = []
words_from m b (suc n) = m b ∷ words_from m (b + 1) n

pub placed-append :
    (cell : ℕ → ℕ) (sp : ℕ) (ws vs : List ℕ)
    → placed (placed cell sp ws) (sp + length ws) vs ≡ placed cell sp (ws ++ vs)
placed-append cell sp [] vs = let e : sp + 0 ≡ sp = omega arith in ap (λ n. placed cell n vs) e
placed-append cell sp (w ∷ ws) vs =
    let e : sp + suc (length ws) ≡ sp + 1 + length ws = omega arith in
    ap (λ n. placed (placed (update cell sp w) (sp + 1) ws) n vs) e
    ∙ placed-append (update cell sp w) (sp + 1) ws vs

placed-before : (cell : ℕ → ℕ) (sp i : ℕ) (ws : List ℕ) → i < sp → placed cell sp ws i ≡ cell i
placed-before cell sp i [] h = refl
placed-before cell sp i (w ∷ ws) h =
    placed-before (update cell sp w) (sp + 1) i ws (omega arith) ∙ ground arith

pub placed-behind :
    (cell : ℕ → ℕ) (sp i : ℕ) (ws : List ℕ) → sp + length ws ≤ i → placed cell sp ws i ≡ cell i
placed-behind cell sp i [] h = refl
placed-behind cell sp i (w ∷ ws) h =
    placed-behind (update cell sp w) (sp + 1) i ws (omega arith) ∙ ground arith

pub words_from-placed :
    (cell : ℕ → ℕ) (sp : ℕ) (ws : List ℕ) → words_from (placed cell sp ws) sp (length ws) ≡ ws
words_from-placed cell sp [] = refl
words_from-placed cell sp (w ∷ ws) =
    let here : placed (update cell sp w) (sp + 1) ws sp ≡ w =
      placed-before (update cell sp w) (sp + 1) sp ws (omega arith) ∙ ground arith in
    rw (here, words_from-placed (update cell sp w) (sp + 1) ws) refl

update-words :
    (cell : ℕ → ℕ) (n v i : ℕ) → v < 2 ^ 32 → cell i < 2 ^ 32 → update cell n v i < 2 ^ 32
update-words cell n v i small h = ground arith

pub placed-words :
    (cell : ℕ → ℕ) (sp : ℕ) (ws : List ℕ)
    → All (λ (w : ℕ). w < 2 ^ 32) ws
    → ((i : ℕ) → cell i < 2 ^ 32)
    → (i : ℕ) → placed cell sp ws i < 2 ^ 32
placed-words cell sp [] small h i = h i
placed-words cell sp (w ∷ ws) small h i =
    placed-words (update cell sp w) (sp + 1) ws small.1
      (λ j. update-words cell sp w j small.0 (h j)) i

pub copy_words-placed :
    (ws more : List ℕ) (size : ℕ) (cell : ℕ → ℕ) (sp : ℕ)
    → sp + length ws ≤ size
    → copy_words (length ws) (ws ++ more) size cell sp
      ≡ ok (more, placed cell sp ws, sp + length ws)
unfolding copy_words
copy_words-placed [] more size cell sp room =
    let e : sp ≡ sp + 0 = omega arith in ap (λ n. ok (more, cell, n)) e
copy_words-placed (w ∷ ws) more size cell sp room =
    let e : sp + 1 + length ws ≡ sp + suc (length ws) = omega arith in
    let inside : ltb sp size ≡ true = lt→ltb sp size (omega arith) in
    rw (inside, copy_words)
      (copy_words-placed ws more size (update cell sp w) (sp + 1) (omega arith)
        ∙ ap (λ n. ok (more, placed (update cell sp w) (sp + 1) ws, n)) e)

-- The first `k` elements of a list, and the others.
pub parted :
    (k : ℕ) (ws : List ℕ)
    → k ≤ length ws
    → (front : List ℕ) × (back : List ℕ) × (ws ≡ front ++ back) × (length front ≡ k)
parted zero ws h = ([], ws, refl, refl)
parted (suc k) [] h = absurd (omega (arith, h))
parted (suc k) (w ∷ ws) h =
    let (front, back, e, n) = parted k ws (omega arith) in
    (w ∷ front, back, ap (λ l. w ∷ l) e, omega arith)
