-- ===== src/Lists/Remove.antt =====
-- Removing from a list.
use turkey_vm.Prelude.{
  ℕ, zero, suc, ◌<◌, ◌≡◌, ◌≢◌, refl, sym, ◌∙◌, Bool, Option, some, [], ◌∷◌, length, arith,
  if◌then◌else◌, inl, inr, Bool-cases, Run, ok, Returns,
}
use turkey_vm.Lists.{Store, set_node, remove_loop, list_remove, list_remove_first}
use turkey_vm.Lists.Chain.{
  Cells, Outside, Chain, end, link, not_null, node_at-ok, assert_list-ok, set_node-same,
  set_node-other, Chain-set_node, IsList,
}
use turkey_vm.Lists.Walk.{values, first_that}

-- The nodes less the first one whose element passes the test.
abbrev pub removed : (ℕ → Bool) → Cells → Cells
removed f [] = []
removed f ((p, d) ∷ cells) = if f d then cells else (p, d) ∷ removed f cells

Outside-removed :
    (f : ℕ → Bool) (a : ℕ) (cells : Cells) → Outside a cells → Outside a (removed f cells)
Outside-removed f a [] out = tt
Outside-removed f a ((p, d) ∷ cells) (here, out) = elim (Bool-cases (f d)) [
  | inl e ↦ rw e out
  | inr e ↦ rw e (here, Outside-removed f a cells out)
]

-- What the loop leaves behind the node `prev`, whose element is `v`; nodes elsewhere stay.
record Unlinked (store : Store) (f : ℕ → Bool) (prev v : ℕ) (cells : Cells)
    (run : Run (Option (ℕ × Store))) : Type 0 where
  after : Store
  first : ℕ
  runs : run ≡ ok (some (first_that f (values cells), after))
  before : after prev ≡ some (record { value = v; next = first })
  chain : Chain after first (removed f cells)
  elsewhere : (a : ℕ) → a ≢ prev → Outside a cells → after a ≡ store a

module _ (equals : ℕ → ℕ → Bool) (x : ℕ) (store : Store) where
  remove_loop-Unlinked :
      (n prev v current : ℕ) (cells : Cells)
      → Chain store current cells
      → prev ≢ 0
      → store prev ≡ some (record { value = v; next = current })
      → Outside prev cells
      → length cells < n
      → Unlinked store (equals x) prev v cells (remove_loop equals n x prev current store)
  unfolding remove_loop
  remove_loop-Unlinked zero prev v current cells chain ne there out h = absurd (omega arith)
  remove_loop-Unlinked (suc n) prev v current _ end ne there out h = record {
    after = store;
    first = 0;
    runs = refl;
    before = there;
    chain = end;
    elsewhere = λ a ne' out'. refl;
  }
  remove_loop-Unlinked (suc n) prev v current _
        (link {d = d} {q = q} {cells = cells} ne' there' out' rest) ne there (apart, out) h =
      let at = node_at-ok store current _ ne' there' in
      elim (Bool-cases (equals x d)) [
        | inl e ↦ record {
          after = set_node store prev (record { value = v; next = q });
          first = q;
          runs =
              rw (not_null current ne', at, e, node_at-ok store prev _ ne there, remove_loop) refl;
          before = set_node-same store prev _;
          chain =
              rw e (Chain-set_node store prev (record { value = v; next = q }) q cells out rest);
          elsewhere = λ a other _. set_node-other store prev a _ (λ same. other (sym same));
        }
        | inr e ↦
            let u = remove_loop-Unlinked n current d q cells rest ne' there' out' (omega arith) in
            record {
              after = u.after;
              first = current;
              runs = rw (not_null current ne', at, e, remove_loop) u.runs;
              before = u.elsewhere prev apart out ∙ there;
              chain =
                  rw e (link ne' u.before (Outside-removed (equals x) current cells out') u.chain);
              elsewhere = λ a other (here, outside). u.elsewhere a here outside;
            }
      ]

  -- On a list of fewer nodes than the steps given, and for an element that is not `NULL`:
  -- `List_remove` returns the first element that equals the given one, or `NULL`, and the list has
  -- the other nodes in their order; its header still names the same last node.
  pub list_remove-removed :
      (n l tail : ℕ) (cells : Cells)
      → IsList store l tail cells
      → x ≢ 0
      → length cells < n
      → Returns (list_remove equals n l x store) (λ result.
        (store' : Store) × (result ≡ some (first_that (equals x) (values cells), store'))
        × IsList store' l tail (removed (equals x) cells))
  unfolding list_remove
  list_remove-removed n l tail cells list ne enough =
      let u =
        remove_loop-Unlinked n l tail list.first cells list.chain list.address list.header
          list.apart enough in
      rw
        (
          assert_list-ok l list.address,
          not_null x ne,
          node_at-ok store l _ list.address list.header,
          u.runs,
        )
        (
          some (first_that (equals x) (values cells), u.after),
          refl,
          (
            u.after,
            refl,
            record {
              first = u.first;
              address = list.address;
              header = u.before;
              apart = Outside-removed (equals x) l cells list.apart;
              chain = u.chain;
            },
          ),
        )

behind :
    (store : Store) (p a d : ℕ) (cells : Cells)
    → Chain store p ((a, d) ∷ cells)
    → (q : ℕ) × (p ≢ 0) × (store p ≡ some (record { value = d; next = q })) × Chain store q cells
behind store p a d cells (link {q = q} ne there out rest) = (q, ne, there, rest)

-- `List_removeFirst` returns the element of the first node, and the list has the other nodes; its
-- header still names the same last node.
pub list_remove_first-rest :
    (store : Store) (l tail p d : ℕ) (cells : Cells)
    → IsList store l tail ((p, d) ∷ cells)
    → Returns (list_remove_first l store) (λ (r, store'). (r ≡ d) × IsList store' l tail cells)
unfolding list_remove_first
list_remove_first-rest store l tail p d cells list =
    let (q, ne, there, rest) = behind store list.first p d cells list.chain in
    let (apart, out) = list.apart in
    rw
      (
        assert_list-ok l list.address,
        node_at-ok store l _ list.address list.header,
        not_null list.first ne,
        there,
      )
      (
        (d, set_node store l (record { value = tail; next = q })),
        refl,
        (
          refl,
          record {
            first = q;
            address = list.address;
            header = set_node-same store l _;
            apart = out;
            chain = Chain-set_node store l (record { value = tail; next = q }) q cells out rest;
          },
        ),
      )
