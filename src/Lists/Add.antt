-- ===== src/Lists/Add.antt =====
-- Adding in front of a list.
use turkey_vm.Prelude.{
  ℕ, ◌≡◌, ◌≢◌, refl, sym, ◌∙◌, true, false, some, [], ◌∷◌, ◌==◌, arith, if◌then◌else◌, inl, inr,
  Bool-cases, ok, Returns,
}
use turkey_vm.Lists.{Store, node_at, set_node, list_new_node, list_new, list_add_first}
use turkey_vm.Lists.Chain.{
  Cells, Outside, Chain, link, not_null, node_at-ok, assert_list-ok, set_node-same, set_node-other,
  Chain-set_node, IsList, Last,
}

-- An address that `malloc` may return: no node of the list, and not the list.
pub record IsFree (a l : ℕ) (cells : Cells) : Type 0 where
  pub address : a ≢ 0
  pub not_list : l ≢ a
  pub outside : Outside a cells

-- The list has these nodes, and its header names the last of them.
abbrev pub Holds : Store → ℕ → Cells → Type 0
Holds store l cells = (tail : ℕ) × IsList store l tail cells × Last tail cells

pub list_new_node-ok :
    (a x q : ℕ) (store : Store)
    → a ≢ 0
    → list_new_node a x q store ≡ ok (a, set_node store a (record { value = x; next = q }))
unfolding list_new_node
list_new_node-ok a x q store ne = rw (not_null a ne) refl

list_new-ok :
    (a : ℕ) (store : Store)
    → a ≢ 0
    → list_new a store ≡ ok (a, set_node store a (record { value = 0; next = 0 }))
unfolding list_new
list_new-ok a store ne = rw (not_null a ne) refl

-- In the store that `List_addFirst` has made before it writes to the header.
module _ (a b l x tail : ℕ) (cells : Cells) (store : Store) (list : IsList store l tail cells)
    (free_a : IsFree a l cells) (free_b : IsFree b l cells) where
  abbrev made : Store
  made =
      set_node (set_node store a (record { value = 0; next = 0 })) b
        (record { value = x; next = list.first })

  header_after : made l ≡ some (record { value = tail; next = list.first })
  header_after =
      set_node-other _ b l _ (λ e. free_b.not_list (sym e))
      ∙ set_node-other store a l _ (λ e. free_a.not_list (sym e))
      ∙ list.header

  chain_after : Chain made list.first cells
  chain_after =
      Chain-set_node _ b _ list.first cells free_b.outside
        (Chain-set_node store a _ list.first cells free_a.outside list.chain)

  added : (t : ℕ) → IsList (set_node made l (record { value = t; next = b })) l t ((b, x) ∷ cells)
  added t = record {
    first = b;
    address = list.address;
    header = set_node-same made l _;
    apart = (free_b.not_list, list.apart);
    chain =
        link free_b.address (set_node-other made l b _ free_b.not_list ∙ set_node-same _ b _)
          free_b.outside (Chain-set_node made l _ list.first cells list.apart chain_after);
  }

  runs : list_add_first a b l x store ≡ (
      if tail == 0
      then ok (set_node made l (record { value = b; next = b }))
      else ok (set_node made l (record { value = tail; next = b })))
  unfolding list_add_first
  runs =
      let before : node_at (set_node store a (record { value = 0; next = 0 })) l
          ≡ ok (record { value = tail; next = list.first }) =
        node_at-ok (set_node store a (record { value = 0; next = 0 })) l _ list.address (
          set_node-other store a l (record { value = 0; next = 0 }) (λ e. free_a.not_list (sym e))
          ∙ list.header) in
      rw
        (
          assert_list-ok l list.address,
          list_new-ok a store free_a.address,
          before,
          list_new_node-ok b x list.first (set_node store a (record { value = 0; next = 0 }))
              free_b.address,
          node_at-ok made l _ list.address header_after,
        )
        refl

pub Last-not_null :
    (store : Store) (p tail : ℕ) (c : ℕ × ℕ) (cells : Cells)
    → Chain store p (c ∷ cells)
    → Last tail (c ∷ cells)
    → tail ≢ 0
Last-not_null store p tail c [] (link ne there out rest) e = λ z. ne (sym e ∙ z)
Last-not_null store p tail c (c' ∷ cells) (link ne there out rest) h =
    Last-not_null store _ tail c' cells rest h

-- On a list whose header names its last node, with two addresses that are free for the nodes that
-- are made: `List_addFirst` returns, and the list has the element in front of the others, its
-- header naming the last node again.
pub list_add_first-Holds :
    (a b l x : ℕ) (cells : Cells) (store : Store)
    → Holds store l cells
    → IsFree a l cells
    → IsFree b l cells
    → Returns (list_add_first a b l x store) (λ store'. Holds store' l ((b, x) ∷ cells))
list_add_first-Holds a b l x [] store (tail, list, last) free_a free_b =
    let empty : (tail == 0) ≡ true = ground arith in
    rw (runs a b l x tail [] store list free_a free_b, empty)
      (_, refl, (b, added a b l x tail [] store list free_a free_b b, refl))
list_add_first-Holds a b l x (c ∷ cells) store (tail, list, last) free_a free_b =
    let full : (tail == 0) ≡ false =
      not_null tail (Last-not_null store list.first tail c cells list.chain last) in
    rw (runs a b l x tail (c ∷ cells) store list free_a free_b, full)
      (_, refl, (tail, added a b l x tail (c ∷ cells) store list free_a free_b tail, last))

-- Whatever the header names, adding in front makes a list again.
pub list_add_first-IsList :
    (a b l x tail : ℕ) (cells : Cells) (store : Store)
    → IsList store l tail cells
    → IsFree a l cells
    → IsFree b l cells
    → Returns
        (list_add_first a b l x store)
        (λ store'. (t : ℕ) × IsList store' l t ((b, x) ∷ cells))
list_add_first-IsList a b l x tail cells store list free_a free_b = elim (Bool-cases (tail == 0)) [
  | inl e ↦
      rw (runs a b l x tail cells store list free_a free_b, e)
        (_, refl, (b, added a b l x tail cells store list free_a free_b b))
  | inr e ↦
      rw (runs a b l x tail cells store list free_a free_b, e)
        (_, refl, (tail, added a b l x tail cells store list free_a free_b tail))
]
