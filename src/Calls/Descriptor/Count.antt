-- ===== src/Calls/Descriptor/Count.antt =====
-- The whole loops: `parseArgs` counts the words of the parameters, and `SCAN_SIG` copies as many.
use turkey_vm.Prelude.{
  ℕ, zero, suc, ◌+◌, ◌<◌, ◌≡◌, refl, ◌∙◌, ap, false, some, List, [], ◌∷◌, ◌++◌, ◌==◌, All, length,
  length-append, ok, arith,
}
use turkey_vm.Calls.Descriptor.{close, count_round, count_loop, parse_args}
use turkey_vm.Calls.Descriptor.Types.{
  FieldType, IsFieldType, IsNotFloat, print_types, print_descriptor, words_of, total_words,
}
use turkey_vm.Calls.Descriptor.Rounds.{
  letter, tail_of, print_type-parts, letter-open, count_round-print,
}

count_loop-round :
    (c : ℕ) (rest : List ℕ) (n count k : ℕ) (next : List ℕ)
    → (c == close) ≡ false
    → count_round c rest ≡ ok (k, next)
    → count_loop (suc n) (c ∷ rest) count ≡ count_loop n next (count + k)
unfolding count_loop
count_loop-round c rest n count k next inside goes = rw (inside, goes, count_loop) refl

count_loop-print :
    (ts : List FieldType) (behind : List ℕ) (n count : ℕ)
    → All IsFieldType ts
    → length ts < n
    → count_loop n (print_types ts behind) count ≡ some (ok (count + total_words ts))
unfolding count_loop
count_loop-print ts behind zero count h enough = absurd (omega (arith, enough))
count_loop-print [] behind (suc n) count h enough =
    let e : count ≡ count + 0 = omega arith in ap (λ k. some (ok k)) e
count_loop-print (t ∷ ts) behind (suc n) count h enough =
    let e : count + words_of t + total_words ts ≡ count + (words_of t + total_words ts) =
      omega arith in
    ap (λ text. count_loop (suc n) (text ++ print_types ts behind) count) (print_type-parts t)
    ∙ count_loop-round (letter t) (tail_of t ++ print_types ts behind) n count (words_of t)
        (print_types ts behind) (letter-open t) (count_round-print t (print_types ts behind) h.0)
    ∙ count_loop-print ts behind n (count + words_of t) h.1 (omega arith)
    ∙ ap (λ k. some (ok k)) e

pub length-print_types :
    (ts : List FieldType) (behind : List ℕ) → length ts < length (print_types ts behind)
length-print_types [] behind = omega arith
length-print_types (t ∷ ts) behind =
    rw (print_type-parts t, length-append (tail_of t) (print_types ts behind))
      (omega (arith, length-print_types ts behind))

-- `parseArgs` returns on the descriptor of every list of parameter types without a float, and counts
-- the words that the parameters take on the stack: two for a long or a double, one for any other
-- type, arrays included. Names have no semicolon; what is behind the parameters does not matter.
pub parse_args-counts :
    (ts : List FieldType) (behind : List ℕ)
    → All IsFieldType ts
    → All IsNotFloat ts
    → parse_args (print_descriptor ts behind) ≡ some (ok (total_words ts))
unfolding parse_args count_loop count_round
parse_args-counts ts behind h no_float =
    count_loop-print ts behind (suc (length (print_types ts behind))) 0 h
      (omega (arith, length-print_types ts behind))
    ∙ (let e : 0 + total_words ts ≡ total_words ts = omega arith in ap (λ k. some (ok k)) e)
