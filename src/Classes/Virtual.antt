-- ===== src/Classes/Virtual.antt =====
-- The choice of the method of a call, by its number and by its name.
use mathlib.Core.Path.{subst}
use turkey_vm.Prelude.{
  ℕ, ◌+◌, ◌*◌, ◌^◌, ◌<◌, ◌≡◌, refl, ap, sym, ◌∙◌, false, some, none, List, length, inl, inr,
  Bool-cases, ltb, ok,
}
use turkey_vm.Classes.{
  MethodBlock, ClassBlock, LoadedClass, null, class_block, find_method_in_current, find_method,
  omitted, object_words, has, acc_interface, inherited_table, load_class_block, select_virtual,
  select_interface,
}
use turkey_vm.Classes.Search.{Option-cases, find_method-Named}
use turkey_vm.Classes.Dispatch.{IsReady, IsLoaded, load-block}

-- The class is `base`, whose table and fields are as the loading leaves them, or was prepared and
-- linked over one that extends `base`. The block that it was made from is a class, not an interface;
-- its methods differ in name or type, each has an entry exactly when the one that it overrides in
-- the super classes has one, and there is room in 16 bits for the entries (`IsReady`); and the words
-- of its objects stay below 2 ^ 31.
pub data Extends (base : LoadedClass) : LoadedClass → Type 0 where
  itself : IsLoaded base → Extends base base
  extended :
      {super c : LoadedClass} {cb : ClassBlock}
      → Extends base super
      → IsReady super cb
      → has cb.access_flags acc_interface ≡ false
      → 1 + object_words super + 2 * length cb.fields < 2 ^ 31
      → load_class_block super cb ≡ ok c
      → Extends base c

pub ok-injective : {A : Type 0} {a b : A} → ok a ≡ ok b → a ≡ b
ok-injective h = cc

-- What a super class finds is found, or overridden.
find_method-super :
    (super : LoadedClass) (cb : ClassBlock) (name type : List ℕ) (super_mb : MethodBlock)
    → find_method super name type ≡ some super_mb
    → (mb : MethodBlock) × (find_method (class_block super cb) name type ≡ some mb)
unfolding find_method
find_method-super super cb name type super_mb h =
    elim (Option-cases (find_method_in_current cb.methods name type)) [
      | inl e ↦ (super_mb, rw (e, find_method) h)
      | inr (mb, e) ↦ (mb, rw (e, find_method) refl)
    ]

-- A class with the answer to a name and a type, under the number `number`.
record Answers (c : LoadedClass) (name type : List ℕ) (number : ℕ) : Type 0 where
  loaded : IsLoaded c
  method : MethodBlock
  found : find_method c name type ≡ some method
  entry : omitted method ≡ false
  numbered : method.methods_table_idx ≡ number

answers :
    {base c : LoadedClass} (name type : List ℕ) (r : MethodBlock)
    → Extends base c
    → find_method base name type ≡ some r
    → omitted r ≡ false
    → Answers c name type r.methods_table_idx
answers name type r (itself loaded) h v = record {
  loaded = loaded;
  method = r;
  found = h;
  entry = v;
  numbered = refl;
}
answers name type r (extended {super = super} {c = c} {cb = cb} up ready is_class words runs) h v =
    let a = answers name type r up h v in
    let (c', runs', (loaded, keeps, (cb', shape))) =
      load-block super a.loaded cb ready is_class words in
    let same : c' ≡ c = ok-injective (sym runs' ∙ runs) in
    let (mb, found) = find_method-super super cb' name type a.method a.found in
    let found' : find_method c' name type ≡ some mb =
      ap (λ x. find_method x name type) shape ∙ found in
    let (entry, number) = keeps name type a.method mb a.found a.entry found' in
    subst (λ x. Answers x name type r.methods_table_idx) same
      (record {
        loaded = loaded;
        method = mb;
        found = found';
        entry = entry;
        numbered = number ∙ a.numbered;
      })

module _ (r : MethodBlock) (name type : List ℕ) where
  selected :
      (c : LoadedClass) (mb : MethodBlock)
      → inherited_table c mb.methods_table_idx ≡ some mb
      → mb.methods_table_idx ≡ r.methods_table_idx
      → select_virtual c r ≡ ok mb
  unfolding select_virtual
  selected null mb h e = cc
  selected (class_block super cb) mb h e =
      let h' : inherited_table (class_block super cb) r.methods_table_idx ≡ some mb =
        ap (inherited_table (class_block super cb)) (sym e) ∙ h in
      elim (Bool-cases (ltb r.methods_table_idx cb.methods_table_size)) [
        | inl b ↦ rw (b, rw b at h', select_virtual) refl
        | inr b ↦ absurd (let bad : none ≡ some mb = rw b at h' in cc)
      ]

  null_finds : find_method null name type ≡ none
  unfolding find_method
  null_finds = refl

  searched :
      (c : LoadedClass) (mb : MethodBlock)
      → find_method c name type ≡ some mb
      → r.name ≡ name
      → r.type ≡ type
      → select_interface c r ≡ ok mb
  unfolding select_interface
  searched null mb h n t = absurd (let bad : none ≡ some mb = sym null_finds ∙ h in cc)
  searched (class_block super cb) mb h n t = rw (n, t, h, select_interface) refl

  -- Where a class extends `base`, and the search by a name and a type finds from `base` on a method
  -- `r` that has an entry (it is not static, private, `<init>` or `<clinit>`): the entry of the class
  -- under the number of `r` is the method that the search finds from the class on, and so the virtual
  -- call and the interface call of `r` choose the same method. That a class extends `base` means:
  -- `base` is as the loading leaves a class, with each method that has an entry under its number in
  -- a table of fewer than 2 ^ 16 entries and with its fields laid out; and the class is `base`, or
  -- comes from it by preparing and linking classes, each over the one before. Each of these satisfies
  -- the following. It is not an interface. No two of its methods share name and type. Each of its
  -- methods has an entry exactly when the one of that name and type found in its super classes, if
  -- there is one, has an entry; so none overrides a private or static method with one that has an
  -- entry, which would replace entry 0. Its methods and the entries of its super class are together
  -- fewer than 2 ^ 16. The words of its super class's objects, two more for each of its fields and
  -- one are together fewer than 2 ^ 31.
  pub select_virtual-select_interface :
      {base c : LoadedClass}
      → Extends base c
      → find_method base name type ≡ some r
      → omitted r ≡ false
      → (mb : MethodBlock) × (find_method c name type ≡ some mb)
        × (select_virtual c r ≡ ok mb)
        × (select_interface c r ≡ ok mb)
  select_virtual-select_interface {base = base} {c = c} up h v =
      let a = answers name type r up h v in
      let (n, t) = find_method-Named name type base r h in
      let there = a.loaded.linked.placed name type a.method a.found a.entry in
      (a.method, a.found, selected c a.method there a.numbered, searched c a.method a.found n t)
