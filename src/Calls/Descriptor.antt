-- ===== src/Calls/Descriptor.antt =====
-- Method descriptors: `parseArgs` of src/classloader/class.c, and `SCAN_SIG` of
-- src/interp/stackmanager.h where `createFrame` uses it. A text is the list of its characters, as
-- numbers; what lies behind its end is not known to C.
pub mod Types
pub mod Rounds
pub mod Count
pub mod Placed
pub mod Scan
use turkey_vm.Prelude.{
  ℕ, zero, suc, ◌+◌, ◌*◌, ◌^◌, Bool, true, false, ◌||◌, Option, none, some, List, [], ◌∷◌, ltb,
  ◌==◌, if◌then◌else◌, length, update, Run, ok, halt, undefined, ◌>>=◌,
}
use turkey_vm.Frame.Defs.{Frame}
use turkey_vm.Calls.Defs.{Method, create_frame₀}

-- `)`, `;`, `[`, and the letters of types.
abbrev pub close : ℕ
close = 41

abbrev pub semicolon : ℕ
semicolon = 59

abbrev pub bracket : ℕ
bracket = 91

abbrev pub letter_object : ℕ
letter_object = 76

abbrev pub is_wide_letter : ℕ → Bool
is_wide_letter c = (c == 74) || (c == 68)

abbrev pub is_base_letter : ℕ → Bool
is_base_letter c = (c == 73) || (c == 67) || (c == 66) || (c == 70) || (c == 83) || (c == 90)

-- `while (*ptr != ';') ptr++; ptr++`.
unfoldable pub skip_name : List ℕ → Run (List ℕ)
skip_name [] = halt undefined
skip_name (c ∷ rest) = let later = skip_name rest in if c == semicolon then ok rest else later

-- `ptr++` while it stands at a bracket.
unfoldable pub skip_brackets : List ℕ → List ℕ
skip_brackets [] = []
skip_brackets (c ∷ rest) =
    let later = skip_brackets rest in if c == bracket then later else c ∷ rest

-- What follows the brackets of an array type: a name, or one letter.
unfoldable pub skip_element : List ℕ → Run (List ℕ)
unfolding skip_name
skip_element [] = halt undefined
skip_element (c ∷ rest) = if c == letter_object then skip_name rest else ok rest

-- One round of the loop of `parseArgs`, at a character that is not `)`: the words that it counts,
-- and where it goes on.
unfoldable pub count_round : ℕ → List ℕ → Run (ℕ × List ℕ)
unfolding skip_name skip_brackets skip_element
count_round c rest =
    if is_base_letter c
    then ok (1, rest)
    else if is_wide_letter c
    then ok (2, rest)
    else if c == letter_object
    then (do next ← skip_name rest; ok (1, next))
    else if c == bracket
    then (do next ← skip_element (skip_brackets rest); ok (1, next))
    else ok (0, rest)

-- The loop of `parseArgs`, for so many rounds at most; `none` is a loop that goes on.
unfoldable pub count_loop : ℕ → List ℕ → ℕ → Option (Run ℕ)
unfolding count_round
count_loop zero text count = none
count_loop (suc n) [] count = some (halt undefined)
count_loop (suc n) (c ∷ rest) count = elim (c == close) [
  | true ↦ some (ok count)
  | false ↦ elim (count_round c rest) [
    | halt reason ↦ some (halt reason)
    | ok (k, next) ↦ count_loop n next (count + k)
  ]
]

-- Each round takes a character or more.
unfoldable pub parse_args : List ℕ → Option (Run ℕ)
unfolding count_loop
parse_args text = count_loop (suc (length text)) text 0

-- One round of `SCAN_SIG`: how many words it copies, and where it goes on.
unfoldable pub scan_round : ℕ → List ℕ → Run (ℕ × List ℕ)
unfolding skip_brackets skip_element
scan_round c rest = if is_wide_letter c then ok (2, rest) else do
  next ← skip_element (if c == bracket then skip_brackets rest else c ∷ rest)
  ok (1, next)

-- `VA_SINGLE` and `VA_DOUBLE`: so many words go from the arguments of C to the cells from `sp` on,
-- the low word of a pair first.
unfoldable pub copy_words : ℕ → List ℕ → ℕ → (ℕ → ℕ) → ℕ → Run (List ℕ × (ℕ → ℕ) × ℕ)
copy_words zero jargs size cell sp = ok (jargs, cell, sp)
copy_words (suc k) [] size cell sp = halt undefined
copy_words (suc k) (w ∷ jargs) size cell sp = elim (ltb sp size) [
  | true ↦ copy_words k jargs size (update cell sp w) (sp + 1)
  | false ↦ halt undefined
]

unfoldable pub scan_loop : ℕ → List ℕ → List ℕ → ℕ → (ℕ → ℕ) → ℕ → Option (Run (ℕ → ℕ))
unfolding scan_round copy_words
scan_loop zero text jargs size cell sp = none
scan_loop (suc n) [] jargs size cell sp = some (halt undefined)
scan_loop (suc n) (c ∷ rest) jargs size cell sp = elim (c == close) [
  | true ↦ some (ok cell)
  | false ↦ elim (scan_round c rest) [
    | halt reason ↦ some (halt reason)
    | ok (k, next) ↦ elim (copy_words k jargs size cell sp) [
      | halt reason ↦ some (halt reason)
      | ok (jargs₁, cell₁, sp₁) ↦ scan_loop n next jargs₁ size cell₁ sp₁
    ]
  ]
]

-- `SCAN_SIG`, which starts behind `(`.
unfoldable pub scan_sig : List ℕ → List ℕ → ℕ → (ℕ → ℕ) → ℕ → Option (Run (ℕ → ℕ))
unfolding scan_loop
scan_sig [] jargs size cell sp = some (halt undefined)
scan_sig (c ∷ text) jargs size cell sp = scan_loop (suc (length text)) text jargs size cell sp

-- `createFrame` with arguments from C. `text` is `mb->type`; a method that is not static takes the
-- first word for its local variable 0.
unfoldable pub create_frame_from : Bool → Method → List ℕ → List ℕ → Option (Run Frame)
unfolding create_frame₀ copy_words scan_sig
create_frame_from checked mb text jargs =
    let frame = create_frame₀ checked mb in
    elim (copy_words (if mb.is_static then 0 else 1) jargs frame.size frame.cell 0) [
      | halt reason ↦ some (halt reason)
      | ok (jargs₁, cell, sp) ↦ elim (scan_sig text jargs₁ frame.size cell sp) [
        | none ↦ none
        | some (halt reason) ↦ some (halt reason)
        | some (ok cell₁) ↦ some (ok (record frame { cell = cell₁ }))
      ]
    ]
