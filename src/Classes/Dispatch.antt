-- ===== src/Classes/Dispatch.antt =====
-- The tables of methods and the search for methods agree: the invariant of loaded classes, and the
-- choice of a method by its number.
use mathlib.Core.Path.{subst}
use turkey_vm.Prelude.{
  ℕ, ◌+◌, ◌-◌, ◌*◌, ◌%◌, ◌^◌, ◌<◌, ◌≡◌, refl, ap, sym, ◌∙◌, false, Option, some, none, List, length,
  All, inl, inr, arith, lt→ltb, Returns,
}
use turkey_vm.Classes.{
  MethodBlock, ClassBlock, LoadedClass, class_block, find_method_in_current, find_method, omitted,
  table_size, prepare_methods, prepare_method, inherited_table, prepare_class, link_class,
  link_method, prepare_field, object_words, has, acc_interface, load_class_block,
}
use turkey_vm.Classes.Search.{
  Option-cases, find_method_in_current-found, find_method_in_current-none, find_method-Named,
  some-injective,
}
use turkey_vm.Classes.Prepare.{
  IsLinked, Agrees, Unique, Distinct, Numbered, All-map, All-zip, placed-lt, placed-injective,
  Prepared, prepare_methods-Prepared,
}
use turkey_vm.Classes.Layout.{HasLayout, prepare_fields-Laid}
use turkey_vm.Classes.Link.{Filled, link_methods-Filled}

-- The methods of a class block that is about to be prepared.
pub record IsReady (super : LoadedClass) (cb : ClassBlock) : Type 0 where
  pub unique : Unique cb.methods
  pub agree : All (Agrees super) cb.methods
  pub room : table_size super + length cb.methods < 2 ^ 16

-- A method that overrides another with an entry has the same entry.
abbrev pub Keeps : LoadedClass → LoadedClass → Type 0
Keeps super c =
    (name type : List ℕ) (super_mb mb : MethodBlock)
    → find_method super name type ≡ some super_mb
    → omitted super_mb ≡ false
    → find_method c name type ≡ some mb
    → (omitted mb ≡ false) × (mb.methods_table_idx ≡ super_mb.methods_table_idx)

module _ (super : LoadedClass) (linked : IsLinked super) (cb : ClassBlock) (mbs : List MethodBlock)
    (end : ℕ) (numbered : All (Numbered super 0 end) mbs) (distinct : Distinct mbs)
    (table : ℕ → Option MethodBlock) (filled : Filled (inherited_table super) mbs table) where
  -- The table of the class, of its own methods and those of its super class.
  answer :
      (name type : List ℕ) (mb : MethodBlock)
      → find_method (class_block super (record cb { methods = mbs })) name type ≡ some mb
      → omitted mb ≡ false
      → (table mb.methods_table_idx ≡ some mb) × (mb.methods_table_idx < table_size super + end)
  unfolding find_method
  answer name type mb h v = elim (Option-cases (find_method_in_current mbs name type)) [
    | inr (x, e) ↦
        let same : x ≡ mb = some-injective (rw (e, find_method) at h) in
        let (n, own) = find_method_in_current-found name type _ mbs x filled.own e in
        let (n', number) = find_method_in_current-found name type _ mbs x numbered e in
        let v' : omitted x ≡ false = rw same v in
        subst
          (λ m.
            (table m.methods_table_idx ≡ some m) × (m.methods_table_idx < table_size super + end))
          same
          (
            own v',
            elim (number v') [
              | inl (super_mb, found, entry, same_number) ↦
                  let less = placed-lt super linked _ _ super_mb found entry in omega arith
              | inr (nothing, from, to) ↦ to
            ],
          )
    | inl e ↦
        let above : find_method super name type ≡ some mb = rw (e, find_method) at h in
        let less = placed-lt super linked _ _ mb above v in
        let others = find_method_in_current-none name type mbs e in
        (
          filled.rest mb.methods_table_idx (
                All-zip mbs
                  (λ other number unnamed v'. elim (number v') [
                    | inl (super_mb, found, entry, same_number) ↦ λ same.
                        let one =
                          placed-injective super linked _ _ _ _ super_mb mb found entry above v
                            (sym same_number ∙ same) in
                        let (n, t) = find_method-Named _ _ super super_mb found in
                        let (n', t') = find_method-Named _ _ super mb above in
                        absurd (
                          let bad = unnamed (
                            sym n ∙ ap (λ m. m.name) one ∙ n',
                            sym t ∙ ap (λ m. m.type) one ∙ t',
                          ) in
                          cc)
                    | inr (nothing, from, to) ↦ λ same. omega arith
                  ])
                  numbered others)
              ∙ linked.placed name type mb above v,
          omega arith,
        )
  ]

  keep : All (Agrees super) mbs → Keeps super (class_block super (record cb { methods = mbs }))
  unfolding find_method
  keep agree name type super_mb mb above v h =
      elim (Option-cases (find_method_in_current mbs name type)) [
        | inr (x, e) ↦
            let same : x ≡ mb = some-injective (rw (e, find_method) at h) in
            let ((n, t), number) = find_method_in_current-found name type _ mbs x numbered e in
            let ((n', t'), agrees) = find_method_in_current-found name type _ mbs x agree e in
            let above' : find_method super x.name x.type ≡ some super_mb = rw (n, t) above in
            let v' : omitted x ≡ false = sym (agrees super_mb above') ∙ v in
            subst (λ m. (omitted m ≡ false) × (m.methods_table_idx ≡ super_mb.methods_table_idx))
              same
              (
                v',
                elim (number v') [
                  | inl (found_mb, found, entry, same_number) ↦
                      let one : found_mb ≡ super_mb = some-injective (sym found ∙ above') in
                      same_number ∙ ap (λ m. m.methods_table_idx) one
                  | inr (nothing, from, to) ↦
                      absurd (let bad : none ≡ some super_mb = sym nothing ∙ above' in cc)
                ],
              )
        | inl e ↦
            let one : super_mb ≡ mb = some-injective (sym above ∙ rw (e, find_method) at h) in
            (sym (ap omitted one) ∙ v, ap (λ m. m.methods_table_idx) (sym one))
      ]

  IsLinked-block :
      (size : ℕ)
      → size ≡ table_size super + end
      → size < 2 ^ 16
      → IsLinked (
          class_block super
            (record cb { methods = mbs; methods_table = table; methods_table_size = size }))
  unfolding find_method
  IsLinked-block size e small = record {
    placed = λ name type mb h v.
        let (there, less) = answer name type mb h v in
        rw (lt→ltb mb.methods_table_idx size (omega arith)) there;
    size_lt = small;
  }

prepare-Prepared :
    (super : LoadedClass) (linked : IsLinked super) (cb : ClassBlock) (ready : IsReady super cb)
    → Prepared super linked cb.methods 0
        (prepare_methods super (table_size super % 2 ^ 16) 0 cb.methods)
prepare-Prepared super linked cb ready =
    let small : table_size super % 2 ^ 16 ≡ table_size super =
      let l = linked.size_lt in omega arith in
    rw small (
      prepare_methods-Prepared super linked cb.methods 0 ready.unique ready.agree
        (omega (arith, ready.room)))

renumbered-Agrees :
    (super : LoadedClass) (mb : MethodBlock) (i : ℕ)
    → Agrees super mb
    → Agrees super (record mb { methods_table_idx = i })
unfolding omitted
renumbered-Agrees super mb i h = h

-- A loaded class: its table answers, and its fields lie one behind the other.
pub record IsLoaded (c : LoadedClass) : Type 0 where
  pub linked : IsLinked c
  pub layout : HasLayout c

module _ (super : LoadedClass) (loaded : IsLoaded super) (cb : ClassBlock)
    (ready : IsReady super cb) (is_class : has cb.access_flags acc_interface ≡ false)
    (words : 1 + object_words super + 2 * length cb.fields < 2 ^ 31) where
  -- What the loading of the class leaves.
  pub load-block :
      Returns
        (load_class_block super cb)
        (λ c. IsLoaded c × Keeps super c × ((cb' : ClassBlock) × (c ≡ class_block super cb')))
  unfolding load_class_block prepare_class prepare_method prepare_field link_class link_method
  load-block =
      let result = prepare_methods super (table_size super % 2 ^ 16) 0 cb.methods in
      let p = prepare-Prepared super loaded.linked cb ready in
      let ((fields, end), laid_runs, (laid, from_end, few)) =
        prepare_fields-Laid cb.fields (1 + object_words super) words in
      let size_small : table_size super % 2 ^ 16 ≡ table_size super =
        let l = loaded.linked.size_lt in omega arith in
      let fits : All
          (λ mb. omitted mb ≡ false → mb.methods_table_idx < table_size super % 2 ^ 16 + result.1)
          result.0 =
        All-map result.0 (number_lt result.1 size_small) p.numbered in
      let (table, link_runs, filled) =
        link_methods-Filled (table_size super % 2 ^ 16 + result.1) result.0 (inherited_table super)
          fits p.distinct in
      let block : ClassBlock = record cb {
        methods = result.0;
        methods_table = table;
        methods_table_size = table_size super % 2 ^ 16 + result.1;
        fields = fields;
        obj_size = end - 1;
      } in
      (
        class_block super block,
        rw (laid_runs, is_class, link_runs) refl,
        (
          record {
            linked =
                IsLinked-block super loaded.linked block result.0 result.1 p.numbered p.distinct
                  table filled _ (omega arith)
                  (let few_methods = p.few in let room = ready.room in omega arith);
            layout = (loaded.layout, (let back : end - 1 + 1 ≡ end = omega arith in rw back laid));
          },
          keep super loaded.linked block result.0 result.1 p.numbered p.distinct table filled
              (p.kept (Agrees super) (renumbered-Agrees super) ready.agree),
          (block, refl),
        ),
      )
    where
      number_lt :
          (end : ℕ)
          → table_size super % 2 ^ 16 ≡ table_size super
          → (mb : MethodBlock) → Numbered super 0 end mb
          → omitted mb ≡ false
          → mb.methods_table_idx < table_size super % 2 ^ 16 + end
      number_lt end small mb h v = elim (h v) [
        | inl (super_mb, found, entry, same) ↦
            let less = placed-lt super loaded.linked _ _ super_mb found entry in omega arith
        | inr (nothing, from, to) ↦ omega arith
      ]

  -- Over a super class that is loaded, a class block of a class, not an interface, whose methods
  -- differ in name or type and have an entry exactly if those that they override have one, with
  -- numbers of methods and words of fields in range: preparing and linking return, and what they
  -- return is a loaded class again: each method with an entry stands in the table under its number,
  -- and the fields of its objects lie one behind the other, behind those of the super class.
  pub load-IsLoaded : Returns (load_class_block super cb) IsLoaded
  load-IsLoaded = let (c, runs, (loaded, keeps, block)) = load-block in (c, runs, loaded)
