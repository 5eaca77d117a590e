-- ===== src/Tests/Casts.antt =====
-- Casts at concrete classes.
use turkey_vm.Cast.{Class, is_sub_class_of}
use turkey_vm.Cast.SubClass.{below, top, Depth, SubClass, is_sub_class_of-decides}
use turkey_vm.Prelude.{Bool, [], arith, false, if◌then◌else◌, some, suc, true, ℕ, ◌==◌, ◌≡◌}

-- Class 3 extends 2, which extends 1.
abbrev some_class : ℕ → Class
some_class c = record {
  super = if c == 3 then 2 else if c == 2 then 1 else 0;
  interfaces = [];
  is_interface = false;
  is_array = false;
  element = 0;
  dim = 0;
}

some-Depth : Depth some_class 3 3
some-Depth =
    below {n = 2} (λ e. omega arith)
      (below {n = 1} (λ e. omega arith) (below {n = 0} (λ e. omega arith) top))

is_sub_class_of-decides_example :
    (b : Bool) × (is_sub_class_of some_class (suc 3) 1 3 ≡ some b)
    × (b ≡ true → SubClass some_class 1 3)
    × (SubClass some_class 1 3 → b ≡ true)
is_sub_class_of-decides_example = is_sub_class_of-decides some_class 1 3 3 some-Depth
