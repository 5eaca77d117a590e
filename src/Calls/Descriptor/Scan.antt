-- ===== src/Calls/Descriptor/Scan.antt =====
-- `SCAN_SIG` in `createFrame`: the arguments that C gives become the local variables.
use turkey_vm.Prelude.{
  ℕ, zero, suc, ◌+◌, ◌-◌, ◌^◌, ◌<◌, ◌≤◌, ◌≡◌, refl, ◌∙◌, ap, sym, Bool, false, some, List, [], ◌∷◌,
  ◌++◌, ◌==◌, if◌then◌else◌, All, length, length-append, ok, arith,
}
use turkey_vm.Frame.Defs.{Frame}
use turkey_vm.Frame.View.{operands, IsFrame}
use turkey_vm.Calls.Defs.{Method, create_frame₀}
use turkey_vm.Calls.Passing.{arg_words}
use turkey_vm.Calls.Descriptor.{
  close, scan_round, copy_words, scan_loop, scan_sig, create_frame_from,
}
use turkey_vm.Calls.Descriptor.Types.{
  FieldType, IsFieldType, print_types, print_descriptor, words_of, total_words,
}
use turkey_vm.Calls.Descriptor.Rounds.{
  letter, tail_of, print_type-parts, letter-open, scan_round-print,
}
use turkey_vm.Calls.Descriptor.Count.{length-print_types}
use turkey_vm.Calls.Descriptor.Placed.{
  placed, words_from, placed-append, placed-behind, words_from-placed, placed-words,
  copy_words-placed, parted,
}

scan_loop-round :
    (c : ℕ) (rest : List ℕ) (n : ℕ) (ws more : List ℕ) (size : ℕ) (cell : ℕ → ℕ) (sp : ℕ)
    (next : List ℕ)
    → (c == close) ≡ false
    → scan_round c rest ≡ ok (length ws, next)
    → sp + length ws ≤ size
    → scan_loop (suc n) (c ∷ rest) (ws ++ more) size cell sp
      ≡ scan_loop n next more size (placed cell sp ws) (sp + length ws)
unfolding scan_loop
scan_loop-round c rest n ws more size cell sp next inside goes room =
    rw (inside, goes, copy_words-placed ws more size cell sp room, scan_loop) refl

scan_loop-print :
    (ts : List FieldType) (behind : List ℕ) (n : ℕ) (ws : List ℕ) (size : ℕ) (cell : ℕ → ℕ) (sp : ℕ)
    → All IsFieldType ts
    → length ts < n
    → length ws ≡ total_words ts
    → sp + length ws ≤ size
    → scan_loop n (print_types ts behind) ws size cell sp ≡ some (ok (placed cell sp ws))
unfolding scan_loop
scan_loop-print ts behind zero ws size cell sp h enough count room = absurd (omega (arith, enough))
scan_loop-print [] behind (suc n) [] size cell sp h enough count room = refl
scan_loop-print [] behind (suc n) (w ∷ ws) size cell sp h enough count room =
    absurd (omega (arith, count))
scan_loop-print (t ∷ ts) behind (suc n) ws size cell sp h enough count room =
    let (front, back, e, k) = parted (words_of t) ws (omega arith) in
    let sum : length ws ≡ length front + length back =
      ap (λ (l : List ℕ). length l) e ∙ length-append front back in
    ap (λ (text : List ℕ). scan_loop (suc n) (text ++ print_types ts behind) ws size cell sp)
      (print_type-parts t)
    ∙ ap
        (λ (l : List ℕ).
          scan_loop (suc n) (letter t ∷ tail_of t ++ print_types ts behind) l size cell sp)
        e
    ∙ scan_loop-round (letter t) (tail_of t ++ print_types ts behind) n front back size cell sp
        (print_types ts behind) (letter-open t)
        (scan_round-print t (print_types ts behind) h.0
          ∙ ap (λ (j : ℕ). ok (j, print_types ts behind)) (sym k))
        (omega arith)
    ∙ scan_loop-print ts behind n back size (placed cell sp front) (sp + length front) h.1
        (omega arith) (omega arith) (omega arith)
    ∙ ap (λ (c : ℕ → ℕ). some (ok c))
        (placed-append cell sp front back ∙ ap (λ (l : List ℕ). placed cell sp l) (sym e))

-- The new frame, once the words are placed.
filled : Bool → Method → List ℕ → Frame
unfolding create_frame₀
filled checked mb args = record (create_frame₀ checked mb) { cell = placed (λ i. 0) 0 args }

module _ (mb : Method) (ts : List FieldType) (behind args : List ℕ) (named : All IsFieldType ts)
    (small : All (λ (w : ℕ). w < 2 ^ 32) args) (parsed : mb.args_count ≡ total_words ts)
    (count : length args ≡ arg_words mb) (room : length args ≤ mb.max_locals) where
  this_words : ℕ
  this_words = if mb.is_static then 0 else 1

  filled-runs :
      (checked : Bool)
      → create_frame_from checked mb (print_descriptor ts behind) args
        ≡ some (ok (filled checked mb args))
  unfolding this_words create_frame_from create_frame₀ scan_sig filled
  filled-runs checked =
      let size = mb.max_stack + mb.max_locals in
      let total : length args ≡ this_words + total_words ts = ground arith in
      let (front, back, e, k) = parted this_words args (omega arith) in
      let sum : length args ≡ length front + length back =
        ap (λ (l : List ℕ). length l) e ∙ length-append front back in
      let first =
        ap (λ (l : List ℕ). copy_words (this_words) l size (λ i. 0) 0) e
        ∙ ap (λ (j : ℕ). copy_words j (front ++ back) size (λ i. 0) 0) (sym k)
        ∙ copy_words-placed front back size (λ i. 0) 0 (omega arith) in
      let second =
        scan_loop-print ts behind (suc (length (print_types ts behind))) back size
          (placed (λ i. 0) 0 front) (0 + length front) named
          (omega (arith, length-print_types ts behind)) (omega arith) (omega arith) in
      let whole =
        placed-append (λ i. 0) 0 front back ∙ ap (λ (l : List ℕ). placed (λ i. 0) 0 l) (sym e) in
      rw (first, second, whole, create_frame_from) refl

  filled-IsFrame : (checked : Bool) → IsFrame (filled checked mb args)
  unfolding filled create_frame₀
  filled-IsFrame checked = record {
    lower = omega arith;
    upper = omega arith;
    fits = omega arith;
    words = placed-words (λ i. 0) 0 args small (λ i. omega arith);
    synced = refl;
  }

  -- When C calls a method whose descriptor is that of some parameter types, with no semicolon in a
  -- name, whose `args_count` is the words of these, and whose local variables have room for its
  -- arguments, with as many words of 32 bits as arguments as it takes, `createFrame` returns a
  -- frame in order: its first local variables are the arguments in their order, the others are
  -- zero, and its operand stack is empty.
  pub create_frame_from-passes :
      (checked : Bool)
      → (new : Frame) × (create_frame_from checked mb (print_descriptor ts behind) args
          ≡ some (ok new))
        × IsFrame new
        × (operands new ≡ [])
        × (words_from new.cell 0 (length args) ≡ args)
        × ((i : ℕ) → length args ≤ i → new.cell i ≡ 0)
  unfolding filled create_frame₀ operands
  create_frame_from-passes checked =
      let e : mb.max_locals - mb.max_locals ≡ 0 = omega arith in
      (
        filled checked mb args,
        filled-runs checked,
        filled-IsFrame checked,
        rw e refl,
        words_from-placed (λ i. 0) 0 args,
        λ i p. placed-behind (λ i. 0) 0 i args (omega arith),
      )
