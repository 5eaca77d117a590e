-- ===== src/Lists/Stacks.antt =====
-- The stack of src/lib/stack.c on top of the list.
use turkey_vm.Prelude.{
  ℕ, suc, ◌+◌, ◌<◌, ◌≡◌, refl, true, false, some, List, [], ◌∷◌, length, ◌==◌, arith, ok, halt,
  error, ◌>>=◌, Returns,
}
use turkey_vm.Lists.{Store, list_is_empty, stack_push, stack_pop, stack_size, stack_seek}
use turkey_vm.Lists.Chain.{
  Cells, IsList, node_at-ok, assert_list-ok, not_null, Chain-null, Chain-not_null,
}
use turkey_vm.Lists.Walk.{values, list_size-length, list_get_index_of-element}
use turkey_vm.Lists.Add.{IsFree, list_add_first-IsList}
use turkey_vm.Lists.Remove.{list_remove_first-rest}

list_is_empty-empty :
    (store : Store) (l tail : ℕ) → IsList store l tail [] → list_is_empty l store ≡ ok true
unfolding list_is_empty
list_is_empty-empty store l tail list =
    let none_first : (list.first == 0) ≡ true =
      let e = Chain-null store list.first list.chain in ground arith in
    rw (assert_list-ok l list.address, node_at-ok store l _ list.address list.header, none_first)
      refl

list_is_empty-full :
    (store : Store) (l tail p d : ℕ) (cells : Cells)
    → IsList store l tail ((p, d) ∷ cells)
    → list_is_empty l store ≡ ok false
unfolding list_is_empty
list_is_empty-full store l tail p d cells list =
    rw
      (
        assert_list-ok l list.address,
        node_at-ok store l _ list.address list.header,
        not_null list.first (Chain-not_null store list.first p d cells list.chain),
      )
      refl

-- A stack with these elements, the top one first.
abbrev pub IsStack : Store → ℕ → List ℕ → Type 0
IsStack store stk elements =
    (tail : ℕ) × (cells : Cells) × IsList store stk tail cells × (values cells ≡ elements)

stack_pop-full :
    (store : Store) (l tail p d : ℕ) (cells : Cells)
    → IsList store l tail ((p, d) ∷ cells)
    → Returns (stack_pop l store) (λ (r, store'). (r ≡ d) × IsList store' l tail cells)
unfolding stack_pop
stack_pop-full store l tail p d cells list =
    rw (list_is_empty-full store l tail p d cells list)
      (list_remove_first-rest store l tail p d cells list)

module _ (store : Store) (stk tail a b x : ℕ) (cells : Cells) (list : IsList store stk tail cells)
    (free_a : IsFree a stk cells) (free_b : IsFree b stk cells) where
  -- On a stack, with two addresses that are free for the nodes that are made: `Stack_push` and then
  -- `Stack_pop` return the element that was pushed, and leave a stack of the elements from before.
  pub stack_pop-stack_push :
      Returns
        (stack_push a b stk x store >>= λ store'. stack_pop stk store')
        (λ (r, store''). (r ≡ x) × IsStack store'' stk (values cells))
  unfolding stack_push
  stack_pop-stack_push =
      let (store', runs, (t, pushed)) =
        list_add_first-IsList a b stk x tail cells store list free_a free_b in
      let ((r, store''), runs', (same, popped)) = stack_pop-full store' stk t b x cells pushed in
      rw (runs, runs') ((r, store''), refl, (same, (t, cells, popped, refl)))

  -- After `Stack_push`, `Stack_size` returns one more than there were elements, and `Stack_seek` the
  -- element that was pushed, where the steps given are more than the nodes.
  pub stack_push-sees :
      (n : ℕ)
      → length cells + 1 < n
      → (stack_push a b stk x store >>= λ store'. stack_size n stk store')
          ≡ ok (some (length cells + 1))
        × ((stack_push a b stk x store >>= λ store'. stack_seek n stk store') ≡ ok (some x))
  unfolding stack_push stack_size stack_seek
  stack_push-sees n enough =
      let (store', runs, (t, pushed)) =
        list_add_first-IsList a b stk x tail cells store list free_a free_b in
      let count : suc (length cells) ≡ length cells + 1 = omega arith in
      let size = list_size-length store' stk t ((b, x) ∷ cells) pushed n (omega arith) in
      let top =
        list_get_index_of-element store' stk t ((b, x) ∷ cells) pushed n (omega arith) 0
          (omega arith) in
      (rw runs (rw count at size), rw runs top)

-- `Stack_pop` on an empty stack ends the process with the error.
pub stack_pop-empty :
    (store : Store) (stk tail : ℕ) → IsList store stk tail [] → stack_pop stk store ≡ halt error
unfolding stack_pop
stack_pop-empty store stk tail list = rw (list_is_empty-empty store stk tail list) refl
