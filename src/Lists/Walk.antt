-- ===== src/Lists/Walk.antt =====
-- The walks along a list return, and what they find.
use turkey_vm.Prelude.{
  ℕ, zero, suc, ◌+◌, ◌-◌, ◌^◌, ◌<◌, ◌≡◌, ◌≢◌, refl, Bool, true, false, ◌||◌, some, List, [], ◌∷◌,
  All, length, ◌==◌, leb, arith, if◌then◌else◌, inl, inr, Bool-cases, ok,
}
use turkey_vm.Lists.{
  Store, size_loop, list_size, index_loop, list_get_index_of, contains_loop, list_contains_internal,
  list_contains,
}
use turkey_vm.Lists.Chain.{Cells, Chain, end, link, not_null, node_at-ok, assert_list-ok, IsList}

-- The data of the nodes.
abbrev pub values : Cells → List ℕ
values [] = []
values ((p, d) ∷ cells) = d ∷ values cells

-- The element at an index, and `NULL` behind the last one.
abbrev pub element : List ℕ → ℕ → ℕ
element [] i = 0
element (x ∷ xs) zero = x
element (x ∷ xs) (suc i) = element xs i

-- Some element of the list passes the test.
abbrev pub any : (ℕ → Bool) → List ℕ → Bool
any f [] = false
any f (x ∷ xs) = f x || any f xs

-- The first element that passes the test, and `NULL` if none does.
abbrev pub first_that : (ℕ → Bool) → List ℕ → ℕ
first_that f [] = 0
first_that f (x ∷ xs) = if f x then x else first_that f xs

module _ (store : Store) where
  size_loop-counts :
      (p n i : ℕ) (cells : Cells)
      → Chain store p cells
      → length cells < n
      → size_loop store n i p ≡ ok (some (i + length cells))
  unfolding size_loop
  size_loop-counts p zero i cells chain h = absurd (omega arith)
  size_loop-counts p (suc n) i _ end h = let e : i + 0 ≡ i = omega arith in rw e refl
  size_loop-counts p (suc n) i _ (link {d = d} {q = q} {cells = cells} ne there out rest) h =
      let e : i + 1 + length cells ≡ i + suc (length cells) = omega arith in
      rw (not_null p ne, node_at-ok store p _ ne there, size_loop)
        (rw e at (size_loop-counts q n (i + 1) cells rest (omega arith)))

  index_loop-element :
      (p n i : ℕ) (cells : Cells)
      → Chain store p cells
      → length cells < n
      → index_loop store n i p ≡ ok (some (element (values cells) i))
  unfolding index_loop
  index_loop-element p zero i cells chain h = absurd (omega arith)
  index_loop-element p (suc n) i _ end h = refl
  index_loop-element p (suc n) zero _ (link {d = d} {q = q} {cells = cells} ne there out rest) h =
      rw (not_null p ne, node_at-ok store p _ ne there, index_loop) refl
  index_loop-element p (suc n) (suc i) _ (link {d = d} {q = q} {cells = cells} ne there out rest)
        h =
      let later : (suc i == 0) ≡ false = ground arith in
      let back : suc i - 1 ≡ i = omega arith in
      rw (not_null p ne, node_at-ok store p _ ne there, later, back, index_loop)
        (index_loop-element q n i cells rest (omega arith))

  contains_loop-first :
      (f : ℕ → ℕ → Bool) (x p n : ℕ) (cells : Cells)
      → Chain store p cells
      → length cells < n
      → contains_loop f store n x p ≡ ok (some (first_that (f x) (values cells)))
  unfolding contains_loop
  contains_loop-first f x p zero cells chain h = absurd (omega arith)
  contains_loop-first f x p (suc n) _ end h = refl
  contains_loop-first f x p (suc n) _ (link {d = d} {q = q} {cells = cells} ne there out rest) h =
      let at = node_at-ok store p _ ne there in
      elim (Bool-cases (f x d)) [
        | inl e ↦ rw (not_null p ne, at, e, contains_loop) refl
        | inr e ↦
            rw (not_null p ne, at, e, contains_loop)
              (contains_loop-first f x q n cells rest (omega arith))
      ]

  module _ (l tail : ℕ) (cells : Cells) (list : IsList store l tail cells) (n : ℕ)
      (enough : length cells < n) where
    -- On a list of fewer nodes than the steps given, `List_size` returns the number of its nodes.
    pub list_size-length : list_size n l store ≡ ok (some (length cells))
    unfolding list_size
    list_size-length =
        let none_yet : 0 + length cells ≡ length cells = omega arith in
        rw (assert_list-ok l list.address, node_at-ok store l _ list.address list.header)
          (rw none_yet at (size_loop-counts list.first n 0 cells list.chain enough))

    -- On a list of fewer nodes than the steps given, `List_getIndexOf` returns the element at an index
    -- that is not negative, and `NULL` for an index behind the last element.
    pub list_get_index_of-element :
        (i : ℕ) → i < 2 ^ 31 → list_get_index_of n l i store ≡ ok (some (element (values cells) i))
    unfolding list_get_index_of
    list_get_index_of-element i small =
        let positive : leb (2 ^ 31) i ≡ false = ground arith in
        rw (assert_list-ok l list.address, node_at-ok store l _ list.address list.header, positive)
          (index_loop-element list.first n i cells list.chain enough)

    pub list_contains_internal-first :
        (f : ℕ → ℕ → Bool) (x : ℕ)
        → list_contains_internal f n l x store ≡ ok (some (first_that (f x) (values cells)))
    unfolding list_contains_internal
    list_contains_internal-first f x =
        rw (assert_list-ok l list.address, node_at-ok store l _ list.address list.header)
          (contains_loop-first f x list.first n cells list.chain enough)

    -- On a list of fewer nodes than the steps given, none of them with `NULL` for its element:
    -- `List_contains` returns whether some element equals the given one.
    pub list_contains-any :
        (f : ℕ → ℕ → Bool) (x : ℕ)
        → All (λ v. v ≢ 0) (values cells)
        → list_contains f n l x store ≡ ok (some (any (f x) (values cells)))
    unfolding list_contains
    list_contains-any f x nonzero =
        rw (list_contains_internal-first f x, truth (f x) (values cells) nonzero) refl
      where
        truth :
            (g : ℕ → Bool) (vs : List ℕ)
            → All (λ v. v ≢ 0) vs
            → (if first_that g vs == 0 then false else true) ≡ any g vs
        truth g [] h = refl
        truth g (v ∷ vs) (here, there) = elim (Bool-cases (g v)) [
          | inl e ↦ rw (e, not_null v here) refl
          | inr e ↦ rw e (truth g vs there)
        ]
