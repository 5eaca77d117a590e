-- ===== src/Lists.antt =====
-- src/lib/list.c and src/lib/stack.c: singly linked lists on a store of nodes. A list is a node of
-- its own, the header, whose `next` is the first node and whose `data` is the last one. A pointer is
-- an address, `NULL` is zero.
pub mod Chain
pub mod Add
pub mod AddLast
pub mod Walk
pub mod Remove
pub mod Stacks
use turkey_vm.Prelude.{
  ℕ, zero, suc, ◌+◌, ◌-◌, ◌%◌, ◌^◌, Bool, true, false, Option, none, some, leb, ◌==◌, if◌then◌else◌,
  Run, ok, halt, ◌>>=◌, error, assertion_failed, undefined,
}

-- `struct List_t`; `value` is its `data`.
pub record Node : Type 0 where
  pub value : ℕ
  pub next : ℕ

abbrev pub Store : Type 0
Store = ℕ → Option Node

-- `*p`, which C leaves undefined at `NULL` and where no node is.
unfoldable pub node_at : Store → ℕ → Run Node
node_at store p =
    if p == 0 then halt undefined else elim (store p) [ none ↦ halt undefined | some n ↦ ok n ]

unfoldable pub set_node : Store → ℕ → Node → Store
set_node store p n q = if p == q then some n else store q

-- `Mem_new` and the assignments to the two fields; `fresh` is what `malloc` returns.
unfoldable pub list_new_node : ℕ → ℕ → ℕ → Store → Run (ℕ × Store)
unfolding set_node
list_new_node fresh x l store =
    if fresh == 0
    then halt undefined
    else ok (fresh, set_node store fresh (record { value = x; next = l }))

unfoldable pub list_new : ℕ → Store → Run (ℕ × Store)
unfolding set_node
list_new fresh store =
    if fresh == 0
    then halt undefined
    else ok (fresh, set_node store fresh (record { value = 0; next = 0 }))

unfoldable pub assert_list : ℕ → Run ℕ
assert_list l = if l == 0 then halt assertion_failed else ok l

-- The first node that is made is not used.
unfoldable pub list_add_first : ℕ → ℕ → ℕ → ℕ → Store → Run Store
unfolding assert_list list_new list_new_node node_at set_node
list_add_first fresh fresh' l x store = do
  list ← assert_list l
  (t, store₁) ← list_new fresh store
  head ← node_at store₁ l
  (t', store₂) ← list_new_node fresh' x head.next store₁
  head₁ ← node_at store₂ l
  if head₁.value == 0
      then ok (set_node store₂ l (record { value = t'; next = t' }))
      else ok (set_node store₂ l (record head₁ { next = t' }))

unfoldable pub list_add_last : ℕ → ℕ → ℕ → ℕ → Store → Run Store
unfolding assert_list list_add_first list_new_node node_at set_node
list_add_last fresh fresh' l x store = do
  list ← assert_list l
  head ← node_at store l
  if head.next == 0 then list_add_first fresh fresh' l x store else (do
    (p, store₁) ← list_new_node fresh' x 0 store
    tail ← node_at store₁ head.value
    head₁ ← node_at (set_node store₁ head.value (record tail { next = p })) l
    ok (
        set_node (set_node store₁ head.value (record tail { next = p })) l
          (record head₁ { value = p })))

-- In the loops `none` is a walk that is not done in so many steps.
unfoldable pub size_loop : Store → ℕ → ℕ → ℕ → Run (Option ℕ)
unfolding node_at
size_loop store zero i p = ok none
size_loop store (suc n) i p = elim (p == 0) [
  | true ↦ ok (some i)
  | false ↦ do node ← node_at store p; size_loop store n (i + 1) node.next
]

unfoldable pub list_size : ℕ → ℕ → Store → Run (Option ℕ)
unfolding assert_list node_at size_loop
list_size n l store = do list ← assert_list l; head ← node_at store l; size_loop store n 0 head.next

unfoldable pub list_is_empty : ℕ → Store → Run Bool
unfolding assert_list node_at
list_is_empty l store = do list ← assert_list l; head ← node_at store l; ok (head.next == 0)

unfoldable pub index_loop : Store → ℕ → ℕ → ℕ → Run (Option ℕ)
unfolding node_at
index_loop store zero index p = ok none
index_loop store (suc n) index p = elim (p == 0) [
  | true ↦ ok (some 0)
  | false ↦ do
    node ← node_at store p
    elim (index == 0) [
      | true ↦ ok (some node.value)
      | false ↦ index_loop store n (index - 1) node.next
    ]
]

-- `index` is the pattern of an int; a negative one ends the process.
unfoldable pub list_get_index_of : ℕ → ℕ → ℕ → Store → Run (Option ℕ)
unfolding assert_list node_at index_loop
list_get_index_of n l index store = do
  list ← assert_list l
  head ← node_at store l
  if leb (2 ^ 31) index then halt error else index_loop store n index head.next

unfoldable pub list_get_first : ℕ → Store → Run ℕ
unfolding assert_list node_at
list_get_first l store = do list ← assert_list l; head ← node_at store l; ok head.next

unfoldable pub contains_loop : (ℕ → ℕ → Bool) → Store → ℕ → ℕ → ℕ → Run (Option ℕ)
unfolding node_at
contains_loop f store zero x p = ok none
contains_loop f store (suc n) x p = elim (p == 0) [
  | true ↦ ok (some 0)
  | false ↦ do
    node ← node_at store p
    elim (f x node.value) [
      | true ↦ ok (some node.value)
      | false ↦ contains_loop f store n x node.next
    ]
]

unfoldable pub list_contains_internal : (ℕ → ℕ → Bool) → ℕ → ℕ → ℕ → Store → Run (Option ℕ)
unfolding assert_list node_at contains_loop
list_contains_internal f n l x store = do
  list ← assert_list l
  head ← node_at store l
  contains_loop f store n x head.next

unfoldable pub list_contains : (ℕ → ℕ → Bool) → ℕ → ℕ → ℕ → Store → Run (Option Bool)
unfolding list_contains_internal
list_contains f n l x store = do
  found ← list_contains_internal f n l x store
  elim found [ none ↦ ok none | some p ↦ ok (some (if p == 0 then false else true)) ]

unfoldable pub list_remove_first : ℕ → Store → Run (ℕ × Store)
unfolding assert_list node_at set_node
list_remove_first l store = do
  list ← assert_list l
  head ← node_at store l
  if head.next == 0 then halt error else (do
    p ← node_at store head.next
    ok (p.value, set_node store l (record head { next = p.next })))

unfoldable pub remove_loop : (ℕ → ℕ → Bool) → ℕ → ℕ → ℕ → ℕ → Store → Run (Option (ℕ × Store))
unfolding node_at set_node
remove_loop equals zero x prev current store = ok none
remove_loop equals (suc n) x prev current store = elim (current == 0) [
  | true ↦ ok (some (0, store))
  | false ↦ do
    node ← node_at store current
    elim (equals x node.value) [
      | true ↦ do
        before ← node_at store prev
        ok (some (node.value, set_node store prev (record before { next = node.next })))
      | false ↦ remove_loop equals n x current node.next store
    ]
]

unfoldable pub list_remove : (ℕ → ℕ → Bool) → ℕ → ℕ → ℕ → Store → Run (Option (ℕ × Store))
unfolding assert_list node_at remove_loop
list_remove equals n l x store = do
  list ← assert_list l
  if x == 0
      then halt assertion_failed
      else (do head ← node_at store l; remove_loop equals n x l head.next store)

unfoldable pub stack_new : ℕ → Store → Run (ℕ × Store)
unfolding list_new
stack_new fresh store = list_new fresh store

unfoldable pub stack_is_empty : ℕ → Store → Run Bool
unfolding list_is_empty
stack_is_empty stk store = list_is_empty stk store

unfoldable pub stack_push : ℕ → ℕ → ℕ → ℕ → Store → Run Store
unfolding list_add_first
stack_push fresh fresh' stk x store = list_add_first fresh fresh' stk x store

unfoldable pub stack_pop : ℕ → Store → Run (ℕ × Store)
unfolding list_is_empty list_remove_first
stack_pop stk store = do
  empty ← list_is_empty stk store
  if empty then halt error else list_remove_first stk store

unfoldable pub stack_size : ℕ → ℕ → Store → Run (Option ℕ)
unfolding list_size
stack_size n stk store = list_size n stk store

unfoldable pub stack_seek : ℕ → ℕ → Store → Run (Option ℕ)
unfolding list_get_index_of
stack_seek n stk store = list_get_index_of n stk 0 store
