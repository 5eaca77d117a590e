-- ===== src/Calls/Descriptor/Rounds.antt =====
-- One round of the two loops, at the text of a type.
use turkey_vm.Prelude.{ℕ, ◌≡◌, ◌≢◌, refl, false, List, [], ◌∷◌, ◌++◌, ◌==◌, All, ok, arith}
use turkey_vm.Calls.Descriptor.{
  close, semicolon, bracket, letter_object, skip_name, skip_brackets, skip_element, count_round,
  scan_round,
}
use turkey_vm.Calls.Descriptor.Types.{
  FieldType, byte, char, double, float, int, long, short, boolean, object, array, IsFieldType,
  print_type, words_of,
}

-- A name ends at the first semicolon.
skip_name-append :
    (name rest : List ℕ)
    → All (λ (c : ℕ). c ≢ semicolon) name
    → skip_name ((name ++ semicolon ∷ []) ++ rest) ≡ ok rest
unfolding skip_name
skip_name-append [] rest h = refl
skip_name-append (c ∷ name) rest h =
    let e : (c == semicolon) ≡ false = ground arith in rw e (skip_name-append name rest h.1)

skip_element-print :
    (t : FieldType) (rest : List ℕ)
    → IsFieldType t
    → skip_element (skip_brackets (print_type t ++ rest)) ≡ ok rest
unfolding skip_brackets skip_element
skip_element-print byte rest h = refl
skip_element-print char rest h = refl
skip_element-print double rest h = refl
skip_element-print float rest h = refl
skip_element-print int rest h = refl
skip_element-print long rest h = refl
skip_element-print short rest h = refl
skip_element-print boolean rest h = refl
skip_element-print (object name) rest h = skip_name-append name rest h
skip_element-print (array t) rest h = skip_element-print t rest h

-- The first character of the text of a type, and what follows it.
abbrev pub letter : FieldType → ℕ
letter byte = 66
letter char = 67
letter double = 68
letter float = 70
letter int = 73
letter long = 74
letter short = 83
letter boolean = 90
letter (object name) = letter_object
letter (array t) = bracket

abbrev pub tail_of : FieldType → List ℕ
tail_of (object name) = name ++ semicolon ∷ []
tail_of (array t) = print_type t
tail_of _ = []

pub print_type-parts : (t : FieldType) → print_type t ≡ letter t ∷ tail_of t
print_type-parts byte = refl
print_type-parts _ = refl

pub letter-open : (t : FieldType) → (letter t == close) ≡ false
letter-open byte = refl
letter-open _ = refl

pub count_round-print :
    (t : FieldType) (rest : List ℕ)
    → IsFieldType t
    → count_round (letter t) (tail_of t ++ rest) ≡ ok (words_of t, rest)
unfolding count_round
count_round-print (object name) rest h = rw (skip_name-append name rest h) refl
count_round-print (array t) rest h = rw (skip_element-print t rest h) refl
count_round-print _ rest h = refl

pub scan_round-print :
    (t : FieldType) (rest : List ℕ)
    → IsFieldType t
    → scan_round (letter t) (tail_of t ++ rest) ≡ ok (words_of t, rest)
unfolding scan_round
scan_round-print (object name) rest h = rw (skip_name-append name rest h) refl
scan_round-print (array t) rest h = rw (skip_element-print t rest h) refl
scan_round-print _ rest h = refl
