-- ===== src/Lists/AddLast.antt =====
-- Adding behind the last node of a list.
use turkey_vm.Prelude.{
  ℕ, ◌≡◌, ◌≢◌, refl, sym, ◌∙◌, true, false, some, [], ◌∷◌, ◌++◌, ◌==◌, arith, Returns,
}
use turkey_vm.Lists.{Store, set_node, list_add_first, list_add_last}
use turkey_vm.Lists.Chain.{
  Cells, Outside, Chain, end, link, not_null, node_at-ok, assert_list-ok, set_node-same,
  set_node-other, Chain-set_node, IsList, Last, Chain-null, Chain-not_null,
}
use turkey_vm.Lists.Add.{IsFree, Holds, list_new_node-ok, Last-not_null, list_add_first-Holds}

Outside-append :
    (p b x : ℕ) (cells : Cells) → Outside p cells → p ≢ b → Outside p (cells ++ (b, x) ∷ [])
Outside-append p b x [] out ne = (ne, tt)
Outside-append p b x ((a, d) ∷ cells) (here, out) ne = (here, Outside-append p b x cells out ne)

Last-Outside :
    (p t : ℕ) (c : ℕ × ℕ) (cells : Cells) → Outside p (c ∷ cells) → Last t (c ∷ cells) → t ≢ p
Last-Outside p t c [] (ne, out) e = λ same. ne (sym same ∙ e)
Last-Outside p t c (c' ∷ cells) (ne, out) h = Last-Outside p t c' cells out h

Last-append : (b x : ℕ) (cells : Cells) → Last b (cells ++ (b, x) ∷ [])
Last-append b x [] = refl
Last-append b x (c ∷ []) = refl
Last-append b x (c ∷ c' ∷ cells) = Last-append b x (c' ∷ cells)

-- The last node can be made to point to a new one.
module _ (store : Store) (t b x : ℕ) (ne_b : b ≢ 0)
    (there_b : store b ≡ some (record { value = x; next = 0 })) where
  Chain-append :
      (p : ℕ) (c : ℕ × ℕ) (cells : Cells)
      → Chain store p (c ∷ cells)
      → Last t (c ∷ cells)
      → Outside b (c ∷ cells)
      → (d : ℕ) × (store t ≡ some (record { value = d; next = 0 }))
        × Chain (set_node store t (record { value = d; next = b })) p ((c ∷ cells) ++ (b, x) ∷ [])
  Chain-append p (_, d) [] (link ne there out end) e (apart, out_b) = (
    d,
    rw e there,
    link ne (rw e (set_node-same store p (record { value = d; next = b })))
        ((λ same. apart (sym same)), tt)
        (link ne_b (set_node-other store t b _ (λ same. apart (sym same ∙ e)) ∙ there_b) tt end),
  )
  Chain-append p (_, d) (c' ∷ cells) (link {q = q} ne there out rest) h (apart, out_b) =
      let (d', at, chain) = Chain-append q c' cells rest h out_b in
      (
        d',
        at,
        link ne (set_node-other store t p _ (Last-Outside p t c' cells out h) ∙ there)
            (Outside-append p b x (c' ∷ cells) out (λ same. apart (sym same))) chain,
      )

module _ (a b l x tail : ℕ) (c : ℕ × ℕ) (cells : Cells) (store : Store)
    (list : IsList store l tail (c ∷ cells)) (last : Last tail (c ∷ cells))
    (free : IsFree b l (c ∷ cells)) where
  abbrev grown : Store
  grown = set_node store b (record { value = x; next = 0 })

  chain_grown : Chain grown list.first (c ∷ cells)
  chain_grown = Chain-set_node store b _ list.first (c ∷ cells) free.outside list.chain

  header_grown : grown l ≡ some (record { value = tail; next = list.first })
  header_grown = set_node-other store b l _ (λ e. free.not_list (sym e)) ∙ list.header

  not_empty : (list.first == 0) ≡ false
  not_empty = not_null list.first (Chain-not_null store list.first _ _ cells list.chain)

  add_last :
      Returns (list_add_last a b l x store) (λ store'. Holds store' l ((c ∷ cells) ++ (b, x) ∷ []))
  unfolding list_add_last
  add_last =
      let (d, at_tail, chain) =
        Chain-append grown tail b x free.address (set_node-same store b _) list.first c cells
          chain_grown last free.outside in
      let t_apart = Last-Outside l tail c cells list.apart last in
      let linked : Store = set_node grown tail (record { value = d; next = b }) in
      let header : linked l ≡ some (record { value = tail; next = list.first }) =
        set_node-other grown tail l (record { value = d; next = b }) t_apart ∙ header_grown in
      let t_nonzero = Last-not_null store list.first tail c cells list.chain last in
      let apart = Outside-append l b x (c ∷ cells) list.apart free.not_list in
      rw
        (
          assert_list-ok l list.address,
          node_at-ok store l _ list.address list.header,
          not_empty,
          list_new_node-ok b x 0 store free.address,
          node_at-ok grown tail _ t_nonzero at_tail,
          node_at-ok linked l _ list.address header,
        )
        (
          set_node linked l (record { value = b; next = list.first }),
          refl,
          (
            b,
            record {
              first = list.first;
              address = list.address;
              header = set_node-same linked l (record { value = b; next = list.first });
              apart = apart;
              chain =
                  Chain-set_node linked l (record { value = b; next = list.first }) list.first
                    ((c ∷ cells) ++ (b, x) ∷ []) apart chain;
            },
            Last-append b x (c ∷ cells),
          ),
        )

empty-add_last :
    (a b l x tail : ℕ) (store : Store)
    → IsList store l tail []
    → list_add_last a b l x store ≡ list_add_first a b l x store
unfolding list_add_last
empty-add_last a b l x tail store list =
    let none_first : (list.first == 0) ≡ true =
      let e = Chain-null store list.first list.chain in ground arith in
    rw (assert_list-ok l list.address, node_at-ok store l _ list.address list.header, none_first)
      refl

-- On a list whose header names its last node, with two addresses that are free for the nodes that
-- are made: `List_addLast` returns, and the list has the element behind the others, its header
-- naming the last node again.
pub list_add_last-Holds :
    (a b l x : ℕ) (cells : Cells) (store : Store)
    → Holds store l cells
    → IsFree a l cells
    → IsFree b l cells
    → Returns (list_add_last a b l x store) (λ store'. Holds store' l (cells ++ (b, x) ∷ []))
list_add_last-Holds a b l x [] store (tail, list, last) free_a free_b =
    rw (empty-add_last a b l x tail store list)
      (list_add_first-Holds a b l x [] store (tail, list, last) free_a free_b)
list_add_last-Holds a b l x (c ∷ cells) store (tail, list, last) free_a free_b =
    add_last a b l x tail c cells store list last free_b
