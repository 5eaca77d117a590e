-- ===== src/Lists/Chain.antt =====
-- What a list on the store stands for: the addresses and data of its nodes, in order.
use turkey_vm.Prelude.{
  ℕ, ◌≡◌, ◌≢◌, refl, ◌∙◌, false, true, some, List, [], ◌∷◌, All, ◌==◌, arith, ok,
}
use turkey_vm.Lists.{Node, Store, node_at, set_node, assert_list}

abbrev pub Cells : Type 0
Cells = List (ℕ × ℕ)

-- The address is not that of a node of the list.
abbrev pub Outside : ℕ → Cells → Type 0
Outside a cells = All (λ (p, d). a ≢ p) cells

-- From `p` the pointers lead through different nodes to `NULL`.
pub data Chain (store : Store) : ℕ → Cells → Type 0 where
  end : Chain store 0 []
  link :
      {p d q : ℕ} {cells : Cells}
      → p ≢ 0
      → store p ≡ some (record { value = d; next = q })
      → Outside p cells
      → Chain store q cells
      → Chain store p ((p, d) ∷ cells)

pub not_null : (p : ℕ) → p ≢ 0 → (p == 0) ≡ false
not_null p ne = ground arith

pub node_at-ok :
    (store : Store) (p : ℕ) (n : Node) → p ≢ 0 → store p ≡ some n → node_at store p ≡ ok n
unfolding node_at
node_at-ok store p n ne h = rw (not_null p ne, h, node_at) refl

pub assert_list-ok : (l : ℕ) → l ≢ 0 → assert_list l ≡ ok l
unfolding assert_list
assert_list-ok l ne = rw (not_null l ne) refl

pub set_node-same : (store : Store) (p : ℕ) (n : Node) → set_node store p n p ≡ some n
unfolding set_node
set_node-same store p n = let e : (p == p) ≡ true = ground arith in rw e refl

pub set_node-other : (store : Store) (p q : ℕ) (n : Node) → p ≢ q → set_node store p n q ≡ store q
unfolding set_node
set_node-other store p q n ne = let e : (p == q) ≡ false = ground arith in rw e refl

-- A chain does not change where its nodes do not.
pub Chain-same :
    (store store' : Store) (p : ℕ) (cells : Cells)
    → Chain store p cells
    → All (λ (a, d). store' a ≡ store a) cells
    → Chain store' p cells
Chain-same store store' p _ end same = end
Chain-same store store' p _ (link {q = q} {cells = cells} ne there out rest) (here, same) =
    link ne (here ∙ there) out (Chain-same store store' q cells rest same)

pub same-Outside :
    (store : Store) (a : ℕ) (n : Node) (cells : Cells)
    → Outside a cells
    → All (λ (p, d). set_node store a n p ≡ store p) cells
same-Outside store a n [] out = tt
same-Outside store a n ((p, d) ∷ cells) (ne, out) =
    (set_node-other store a p n ne, same-Outside store a n cells out)

-- A change at an address outside spares the chain.
pub Chain-set_node :
    (store : Store) (a : ℕ) (n : Node) (p : ℕ) (cells : Cells)
    → Outside a cells
    → Chain store p cells
    → Chain (set_node store a n) p cells
Chain-set_node store a n p cells out chain =
    Chain-same store (set_node store a n) p cells chain (same-Outside store a n cells out)

-- The list at `l` has these nodes.
pub record IsList (store : Store) (l tail : ℕ) (cells : Cells) : Type 0 where
  pub first : ℕ
  pub address : l ≢ 0
  pub header : store l ≡ some (record { value = tail; next = first })
  pub apart : Outside l cells
  pub chain : Chain store first cells

-- The header names the last node, and none for the empty list.
abbrev pub Last : ℕ → Cells → Type 0
Last tail [] = tail ≡ 0
Last tail ((p, d) ∷ []) = tail ≡ p
Last tail (c ∷ c' ∷ cells) = Last tail (c' ∷ cells)

-- Where the chain is empty its pointer is `NULL`, and only there.
pub Chain-null : (store : Store) (p : ℕ) → Chain store p [] → p ≡ 0
Chain-null store p end = refl

pub Chain-not_null :
    (store : Store) (p a d : ℕ) (cells : Cells) → Chain store p ((a, d) ∷ cells) → p ≢ 0
Chain-not_null store p a d cells (link ne there out rest) = ne
