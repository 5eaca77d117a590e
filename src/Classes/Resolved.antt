-- ===== src/Classes/Resolved.antt =====
-- What the search for fields finds.
use mathlib.Core.Path.{subst, sym}
use turkey_vm.Prelude.{
  ◌≡◌, refl, true, false, ◌&&◌, Option, some, none, List, [], ◌∷◌, inl, inr, Bool-cases, Returns,
}
use turkey_vm.Classes.{
  Text, equals, FieldBlock, ClassBlock, LoadedClass, null, class_block, find_field_in_current,
  find_field,
}
use turkey_vm.Classes.Texts.{and-parts, equals-≡, equals_refl}
use turkey_vm.Classes.Search.{Option-cases, some-injective}
use turkey_vm.Classes.Fields.{Among, here, there, FieldOf, own, up}

-- The field has this name and this type.
abbrev pub Called : Text → Text → FieldBlock → Type 0
Called name type fb = (fb.name ≡ name) × (fb.type ≡ type)

module _ (name type : Text) where
  current-Among :
      (fbs : List FieldBlock) (fb : FieldBlock)
      → find_field_in_current fbs name type ≡ some fb
      → Among fb fbs × Called name type fb
  unfolding find_field_in_current
  current-Among [] fb h = cc
  current-Among (x ∷ xs) fb h = elim (Bool-cases (equals x.name name && equals x.type type)) [
    | inl e ↦
        let same : x ≡ fb = some-injective (rw (e, find_field_in_current) at h) in
        let (n, t) = and-parts _ _ e in
        (here same, subst (Called name type) same (equals-≡ x.name name n, equals-≡ x.type type t))
    | inr e ↦
        let (among, called) = current-Among xs fb (rw (e, find_field_in_current) at h) in
        (there among, called)
  ]

  none-Among :
      (fbs : List FieldBlock) (fb : FieldBlock)
      → find_field_in_current fbs name type ≡ none
      → Among fb fbs
      → Called name type fb
      → true ≡ false
  unfolding find_field_in_current
  none-Among [] fb h a called = elim a [ ]
  none-Among (x ∷ xs) fb h a called = elim (Bool-cases (equals x.name name && equals x.type type)) [
    | inl e ↦ absurd (let bad : some x ≡ none = rw (e, find_field_in_current) at h in cc)
    | inr e ↦ later x xs fb e (none-Among xs fb (rw (e, find_field_in_current) at h)) a called
  ]
    where
      later :
          (x : FieldBlock) (xs : List FieldBlock) (fb : FieldBlock)
          → (equals x.name name && equals x.type type) ≡ false
          → (Among fb xs → Called name type fb → true ≡ false)
          → Among fb (x ∷ xs)
          → Called name type fb
          → true ≡ false
      later x xs fb e rest (here same) called =
          let (n, t) = subst (Called name type) (sym same) called in
          rw (n, t, equals_refl name, equals_refl type) at e
      later x xs fb e rest (there a) called = rest a called

  -- What a search from a class on may give: a field that the class declares or inherits, with the name
  -- and the type, or none, where there is none.
  pub data Decided (c : LoadedClass) : Option FieldBlock → Type 0 where
    found : {fb : FieldBlock} → FieldOf fb c → Called name type fb → Decided c (some fb)
    missing :
        ((fb : FieldBlock) → FieldOf fb c → Called name type fb → true ≡ false) → Decided c none

  lift :
      (super : LoadedClass) (cb : ClassBlock) (r : Option FieldBlock)
      → find_field_in_current cb.fields name type ≡ none
      → Decided super r
      → Decided (class_block super cb) r
  lift super cb _ e (found f called) = found (up f) called
  lift super cb _ e (missing nowhere) = missing (both nowhere)
    where
      both :
          ((fb : FieldBlock) → FieldOf fb super → Called name type fb → true ≡ false)
          → (fb : FieldBlock) → FieldOf fb (class_block super cb)
          → Called name type fb
          → true ≡ false
      both nowhere fb (own among) called = none-Among cb.fields fb e among called
      both nowhere fb (up f) called = nowhere fb f called

  no_fields : (fb : FieldBlock) → FieldOf fb null → Called name type fb → true ≡ false
  no_fields fb f called = elim f [ ]

  -- From a class on, the search for a field returns; the field that it finds is declared by the class
  -- or by one that it inherits from and has the name and the type, and if it finds none, then there
  -- is none.
  pub find_field-Decided :
      (super : LoadedClass) (cb : ClassBlock)
      → Returns (find_field (class_block super cb) name type) (Decided (class_block super cb))
  unfolding find_field
  find_field-Decided null cb = elim (Option-cases (find_field_in_current cb.fields name type)) [
    | inr (fb, e) ↦
        let (among, called) = current-Among cb.fields fb e in
        (some fb, rw (e, find_field) refl, found (own among) called)
    | inl e ↦ (none, rw (e, find_field) refl, lift null cb none e (missing no_fields))
  ]
  find_field-Decided (class_block super' cb') cb =
      let (r, runs, decided) = find_field-Decided super' cb' in
      elim (Option-cases (find_field_in_current cb.fields name type)) [
        | inr (fb, e) ↦
            let (among, called) = current-Among cb.fields fb e in
            (some fb, rw (e, find_field) refl, found (own among) called)
        | inl e ↦ (r, rw (e, find_field) runs, lift (class_block super' cb') cb r e decided)
      ]
