-- ===== src/Tests/Classes.antt =====
-- A class with one method and one field, and a class over it that overrides the method.
use mathlib.Core.Path.{subst}
use turkey_vm.Prelude.{
  ℕ, ◌≡◌, refl, ap, sym, ◌∙◌, some, none, [], ◌∷◌, arith, ltb, ◌==◌, if◌then◌else◌, ok, Returns,
}
use turkey_vm.Classes.{
  LoadedClass, null, class_block, ClassBlock, FieldBlock, MethodBlock, equals, has, omitted,
  find_method, select_virtual, select_interface, load_class_block,
}
use turkey_vm.Classes.Search.{some-injective}
use turkey_vm.Classes.Dispatch.{IsReady, IsLoaded, load-IsLoaded}
use turkey_vm.Classes.Virtual.{
  Extends, itself, extended, ok-injective, select_virtual-select_interface,
}

abbrev run_method : ℕ → MethodBlock
run_method body = record {
  access_flags = 1;
  name = 114 ∷ [];
  type = 40 ∷ 41 ∷ 86 ∷ [];
  methods_table_idx = 0;
  body = body;
}

abbrev x_field : FieldBlock
x_field = record { access_flags = 1; name = 120 ∷ []; type = 73 ∷ []; static_value = 0; offset = 0 }

-- As they are read.
abbrev raw : ℕ → ClassBlock
raw body = record {
  access_flags = 33;
  fields = x_field ∷ [];
  methods = run_method body ∷ [];
  methods_table = λ i. none;
  methods_table_size = 0;
  obj_size = 0;
}

null-IsLoaded : IsLoaded null
unfolding find_method
null-IsLoaded = record {
  linked = record { placed = λ name type mb h v. cc; size_lt = omega arith };
  layout = tt;
}

raw-IsReady : IsReady null (raw 5)
unfolding find_method
raw-IsReady = record { unique = (tt, tt); agree = ((λ super_mb h. cc), tt); room = omega arith }

load-IsLoaded_example : Returns (load_class_block null (raw 5)) IsLoaded
unfolding has
load-IsLoaded_example = load-IsLoaded null null-IsLoaded (raw 5) raw-IsReady refl (omega arith)

abbrev base : LoadedClass
base = class_block null (record {
  access_flags = 33;
  fields = record x_field { offset = 1 } ∷ [];
  methods = run_method 5 ∷ [];
  methods_table = λ i. if 0 == i then some (run_method 5) else none;
  methods_table_size = 1;
  obj_size = 1;
})

base-loads : load_class_block null (raw 5) ≡ ok base
unfolding load_class_block
base-loads = refl

base-IsLoaded : IsLoaded base
unfolding has
base-IsLoaded =
    let (c, runs, loaded) =
      load-IsLoaded null null-IsLoaded (raw 5) raw-IsReady refl (omega arith) in
    subst IsLoaded (ok-injective (sym runs ∙ base-loads)) loaded

-- The class over it, whose method has the number of the one that it overrides.
abbrev derived : LoadedClass
derived = class_block base (record {
  access_flags = 33;
  fields = record x_field { offset = 2 } ∷ [];
  methods = run_method 6 ∷ [];
  methods_table = λ i.
      if 0 == i
      then some (run_method 6)
      else if ltb i 1
      then (if 0 == i then some (run_method 5) else none)
      else none;
  methods_table_size = 1;
  obj_size = 2;
})

derived-loads : load_class_block base (raw 6) ≡ ok derived
unfolding load_class_block
derived-loads = refl

overriding-IsReady : IsReady base (raw 6)
unfolding find_method equals omitted
overriding-IsReady = record {
  unique = (tt, tt);
  agree = ((λ super_mb h. ap omitted (sym (some-injective h))), tt);
  room = omega arith;
}

derived-Extends : Extends base derived
unfolding has
derived-Extends =
    extended (itself base-IsLoaded) overriding-IsReady refl (omega arith) derived-loads

base-finds : find_method base (114 ∷ []) (40 ∷ 41 ∷ 86 ∷ []) ≡ some (run_method 5)
unfolding find_method equals
base-finds = refl

select_virtual-select_interface_example :
    (mb : MethodBlock) × (find_method derived (114 ∷ []) (40 ∷ 41 ∷ 86 ∷ []) ≡ some mb)
    × (select_virtual derived (run_method 5) ≡ ok mb)
    × (select_interface derived (run_method 5) ≡ ok mb)
unfolding omitted
select_virtual-select_interface_example =
    select_virtual-select_interface (run_method 5) (114 ∷ []) (40 ∷ 41 ∷ 86 ∷ []) derived-Extends
      base-finds refl
