-- ===== src/Tests/Lists.antt =====
-- A list of 5 and 7, and an empty one.
use turkey_vm.Prelude.{
  ℕ, ◌<◌, ◌≡◌, refl, true, none, some, [], ◌∷◌, ◌++◌, arith, ◌==◌, if◌then◌else◌, ok, ◌>>=◌,
  Returns,
}
use turkey_vm.Lists.{
  Store, list_add_first, list_add_last, list_size, list_contains, list_remove, stack_push,
  stack_pop,
}
use turkey_vm.Lists.Chain.{Cells, end, link, IsList}
use turkey_vm.Lists.Walk.{list_size-length, list_contains-any}
use turkey_vm.Lists.Add.{IsFree, Holds, list_add_first-Holds}
use turkey_vm.Lists.AddLast.{list_add_last-Holds}
use turkey_vm.Lists.Remove.{list_remove-removed}
use turkey_vm.Lists.Stacks.{IsStack, stack_pop-stack_push}

abbrev store : Store
store p =
    if p == 8
    then some (record { value = 24; next = 16 })
    else if p == 16
    then some (record { value = 5; next = 24 })
    else if p == 24
    then some (record { value = 7; next = 0 })
    else none

abbrev cells : Cells
cells = (16, 5) ∷ (24, 7) ∷ []

two-IsList : IsList store 8 24 cells
two-IsList = record {
  first = 16;
  address = omega arith;
  header = refl;
  apart = (omega arith, (omega arith, tt));
  chain = link (omega arith) refl (omega arith, tt) (link (omega arith) refl tt end);
}

two-Holds : Holds store 8 cells
two-Holds = (24, two-IsList, refl)

free : (a : ℕ) → 24 < a → IsFree a 8 cells
free a h = record {
  address = omega arith;
  not_list = omega arith;
  outside = (omega arith, (omega arith, tt));
}

list_add_first-Holds_example :
    Returns (list_add_first 32 40 8 9 store) (λ store'. Holds store' 8 ((40, 9) ∷ cells))
list_add_first-Holds_example =
    list_add_first-Holds 32 40 8 9 cells store two-Holds (free 32 (omega arith))
      (free 40 (omega arith))

list_add_last-Holds_example :
    Returns (list_add_last 32 40 8 9 store) (λ store'. Holds store' 8 (cells ++ (40, 9) ∷ []))
list_add_last-Holds_example =
    list_add_last-Holds 32 40 8 9 cells store two-Holds (free 32 (omega arith))
      (free 40 (omega arith))

list_size-length_example : list_size 3 8 store ≡ ok (some 2)
list_size-length_example = list_size-length store 8 24 cells two-IsList 3 (omega arith)

list_contains-any_example : list_contains (λ a b. a == b) 3 8 7 store ≡ ok (some true)
list_contains-any_example =
    list_contains-any store 8 24 cells two-IsList 3 (omega arith) (λ a b. a == b) 7
      (omega arith, (omega arith, tt))

list_remove-removed_example :
    Returns
      (list_remove (λ a b. a == b) 3 8 7 store)
      (λ result. (store' : Store) × (result ≡ some (7, store')) × IsList store' 8 24 ((16, 5) ∷ []))
list_remove-removed_example =
    list_remove-removed (λ a b. a == b) 7 store 3 8 24 cells two-IsList (omega arith) (omega arith)

stack_pop-stack_push_example :
    Returns
      (stack_push 32 40 8 9 store >>= λ store'. stack_pop 8 store')
      (λ (r, store''). (r ≡ 9) × IsStack store'' 8 (5 ∷ 7 ∷ []))
stack_pop-stack_push_example =
    stack_pop-stack_push store 8 24 32 40 9 cells two-IsList (free 32 (omega arith))
      (free 40 (omega arith))
