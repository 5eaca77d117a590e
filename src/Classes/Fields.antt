-- ===== src/Classes/Fields.antt =====
-- Where the fields of a class stand in its objects.
use mathlib.Core.Path.{subst}
use turkey_vm.Prelude.{
  ℕ, ◌+◌, ◌≤◌, ◌≡◌, ◌⊎◌, sym, ap, ◌∙◌, true, false, List, [], ◌∷◌, inl, inr, arith,
}
use turkey_vm.Classes.{
  FieldBlock, ClassBlock, LoadedClass, null, class_block, field_words, object_words, has,
  acc_static,
}
use turkey_vm.Classes.Layout.{Instance, Laid, done, static, placed, HasLayout}

-- The field is in the list.
pub data Among (fb : FieldBlock) : List FieldBlock → Type 0 where
  here : {head : FieldBlock} {fbs : List FieldBlock} → head ≡ fb → Among fb (head ∷ fbs)
  there : {other : FieldBlock} {fbs : List FieldBlock} → Among fb fbs → Among fb (other ∷ fbs)

-- The field is declared by the class, or by one that it inherits from.
pub data FieldOf (fb : FieldBlock) : LoadedClass → Type 0 where
  own :
      {super : LoadedClass} {cb : ClassBlock}
      → Among fb cb.fields
      → FieldOf fb (class_block super cb)
  up :
      {super : LoadedClass} {cb : ClassBlock} → FieldOf fb super → FieldOf fb (class_block super cb)

-- The words of the two fields, or the fields, are the same or apart.
abbrev pub Apart : FieldBlock → FieldBlock → Type 0
Apart fb fb' =
    (fb ≡ fb')
    ⊎ ((fb.offset + field_words fb ≤ fb'.offset) ⊎ (fb'.offset + field_words fb' ≤ fb.offset))

abbrev Within : ℕ → ℕ → FieldBlock → Type 0
Within from end fb = (from ≤ fb.offset) × (fb.offset + field_words fb ≤ end)

ordered : (from end : ℕ) (fbs : List FieldBlock) → Laid from fbs end → from ≤ end
ordered from end fbs done = omega arith
ordered from end _ (static s laid) = ordered from end _ laid
ordered from end (fb ∷ fbs) (placed s e laid) = omega (arith, ordered _ end fbs laid)

both :
    (fb x : FieldBlock) → x ≡ fb → has x.access_flags acc_static ≡ true → Instance fb → true ≡ false
both fb x e s i = sym s ∙ ap (λ y. has y.access_flags acc_static) e ∙ i

within :
    (fb : FieldBlock) (from end : ℕ) (fbs : List FieldBlock)
    → Laid from fbs end
    → Among fb fbs
    → Instance fb
    → Within from end fb
within fb from end _ done among i = elim among [ ]
within fb from end _ (static s laid) (here e) i =
    absurd (let bad : true ≡ false = both fb _ e s i in cc)
within fb from end _ (static s laid) (there among) i = within fb from end _ laid among i
within fb from end (x ∷ fbs) (placed s e laid) (here same) i =
    let le = ordered (from + field_words x) end fbs laid in
    subst (Within from end) same (omega arith, omega arith)
within fb from end (x ∷ fbs) (placed s e laid) (there among) i =
    let (a, b) = within fb (from + field_words x) end fbs laid among i in (omega arith, b)

module _ (fb fb' : FieldBlock) (i : Instance fb) (i' : Instance fb') where
  Apart-in_list :
      (from end : ℕ) (fbs : List FieldBlock)
      → Laid from fbs end
      → Among fb fbs
      → Among fb' fbs
      → Apart fb fb'
  Apart-in_list from end [] laid a a' = elim a [ ]
  Apart-in_list from end (x ∷ fbs) (static s laid) (here e) a' =
      absurd (let bad : true ≡ false = both fb x e s i in cc)
  Apart-in_list from end (x ∷ fbs) (static s laid) (there a) (here e) =
      absurd (let bad : true ≡ false = both fb' x e s i' in cc)
  Apart-in_list from end (x ∷ fbs) (static s laid) (there a) (there a') =
      Apart-in_list from end fbs laid a a'
  Apart-in_list from end (x ∷ fbs) (placed s e laid) (here same) (here same') =
      inl (sym same ∙ same')
  Apart-in_list from end (x ∷ fbs) (placed s e laid) (here same) (there a') =
      let (low, high) = within fb' (from + field_words x) end fbs laid a' i' in
      subst (λ y. Apart y fb') same (inr (inl (omega arith)))
  Apart-in_list from end (x ∷ fbs) (placed s e laid) (there a) (here same) =
      let (low, high) = within fb (from + field_words x) end fbs laid a i in
      subst (Apart fb) same (inr (inr (omega arith)))
  Apart-in_list from end (x ∷ fbs) (placed s e laid) (there a) (there a') =
      Apart-in_list (from + field_words x) end fbs laid a a'

-- An instance field of a class that has its layout lies within the words of its objects.
pub field_within :
    (fb : FieldBlock) (c : LoadedClass)
    → HasLayout c
    → FieldOf fb c
    → Instance fb
    → (1 ≤ fb.offset) × (fb.offset + field_words fb ≤ 1 + object_words c)
field_within fb null layout f i = elim f [ ]
field_within fb (class_block super cb) (above, laid) (own among) i =
    let (low, high) = within fb (1 + object_words super) (cb.obj_size + 1) cb.fields laid among i in
    (omega arith, omega arith)
field_within fb (class_block super cb) (above, laid) (up inherited) i =
    let (low, high) = field_within fb super above inherited i in
    (
      low,
      (let le = ordered (1 + object_words super) (cb.obj_size + 1) cb.fields laid in omega arith),
    )

-- Two instance fields of a class that has its layout, its own or inherited, are one field, or the
-- words of one end before those of the other begin.
pub fields-Apart :
    (fb fb' : FieldBlock) (c : LoadedClass)
    → HasLayout c
    → FieldOf fb c
    → FieldOf fb' c
    → Instance fb
    → Instance fb'
    → Apart fb fb'
fields-Apart fb fb' null layout f f' i i' = elim f [ ]
fields-Apart fb fb' (class_block super cb) (above, laid) (own a) (own a') i i' =
    Apart-in_list fb fb' i i' (1 + object_words super) (cb.obj_size + 1) cb.fields laid a a'
fields-Apart fb fb' (class_block super cb) (above, laid) (own a) (up b) i i' =
    let (low, high) = within fb (1 + object_words super) (cb.obj_size + 1) cb.fields laid a i in
    let (low', high') = field_within fb' super above b i' in inr (inr (omega arith))
fields-Apart fb fb' (class_block super cb) (above, laid) (up b) (own a) i i' =
    let (low, high) = within fb' (1 + object_words super) (cb.obj_size + 1) cb.fields laid a i' in
    let (low', high') = field_within fb super above b i in inr (inl (omega arith))
fields-Apart fb fb' (class_block super cb) (above, laid) (up b) (up b') i i' =
    fields-Apart fb fb' super above b b' i i'
