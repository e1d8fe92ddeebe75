-- ===== src/Groups/Context/Budget.antt =====
-- The budget of characters of `_assemble_group_context`.
use hermes_vector_platform.Prelude.{
  Text, ℕ, ◌+◌, ◌-◌, ◌≤◌, ◌<◌, ◌≡◌, refl, ap, Bool, true, false, some, List, [], ◌∷◌, ◌++◌, reverse,
  codes, length, length-append, length-take-le, take, join, arith,
}
use mathlib.Core.List.{reverse_aux}
use hermes_vector_platform.Prelude.Maybe.{some_inj}
use hermes_vector_platform.Groups.Context.{
  context_header, clip_history_line, one_line, separator, choose_lines, context_block,
  assemble_group_context,
}

-- The length of the lines with a line break behind each.
unfoldable weight : List Text → ℕ
weight [] = 0
weight (line ∷ lines) = length line + 1 + weight lines

weight-append : (xs ys : List Text) → weight (xs ++ ys) ≡ weight xs + weight ys
unfolding weight
weight-append [] ys = omega arith
weight-append (x ∷ xs) ys = omega (arith, weight-append xs ys)

length-join_lines :
    (line : Text) (lines : List Text)
    → length (join (codes "\n") (line ∷ lines)) + 1 ≡ weight (line ∷ lines)
unfolding join weight
length-join_lines line [] = omega arith
length-join_lines line (l ∷ ls) =
    omega (arith, length-join_lines l ls, length-append line (b'\n' ∷ join (codes "\n") (l ∷ ls)))

clip_fits : (line : Text) (room : ℕ) → weight (one_line (clip_history_line line room)) ≤ room + 1
unfolding weight clip_history_line
clip_fits line room = ground (
  arith,
  length-take-le 1 line,
  length-take-le (room - 1) line,
  length-append (take (room - 1) line) (0x2026 ∷ []),
)

clip_nothing : (line : Text) → weight (one_line (clip_history_line line 0)) ≡ 0
unfolding weight clip_history_line
clip_nothing line = refl

-- What the lines that are chosen add, with a break in front of each but the first, fits.
choose_lines_fit :
    (budget used : ℕ) (started : Bool) (lines : List Text)
    → used ≤ budget
    → used + weight (choose_lines budget used started lines) ≤ budget + (1 - separator started)
unfolding choose_lines weight
choose_lines_fit budget used started [] h = ground arith
choose_lines_fit budget used true (line ∷ lines) h = ground (
  arith,
  choose_lines_fit budget (used + 1 + length line) true lines,
  clip_fits line (budget - used - 1),
  clip_nothing line,
)
choose_lines_fit budget used false (line ∷ lines) h = ground (
  arith,
  choose_lines_fit budget (used + 0 + length line) true lines,
  clip_fits line (budget - used - 0),
  clip_nothing line,
)

weight-reverse_aux : (xs acc : List Text) → weight (reverse_aux xs acc) ≡ weight xs + weight acc
unfolding weight
weight-reverse_aux [] acc = omega arith
weight-reverse_aux (x ∷ xs) acc = omega (arith, weight-reverse_aux xs (x ∷ acc))

context_block_fits :
    (lines : List Text) (budget : ℕ) (block : Text)
    → weight lines ≤ budget + 1
    → context_block lines ≡ some block
    → length block ≤ length context_header + 1 + budget
unfolding context_block
context_block_fits [] budget block h e = absurd (ground arith)
context_block_fits (line ∷ lines) budget block h e =
    let size = length-append context_header (b'\n' ∷ join (codes "\n") (line ∷ lines)) in
    let same = ap length (some_inj e) in omega (arith, same, size, length-join_lines line lines)

-- With a budget of characters that is not zero, the block of background lines has at most that many
-- characters, the header included.
pub assemble_group_context_fits :
    (lines : List Text) (max_chars : ℕ) (block : Text)
    → 0 < max_chars
    → assemble_group_context lines max_chars ≡ some block
    → length block ≤ max_chars
unfolding assemble_group_context weight
assemble_group_context_fits lines max_chars block pos e =
    let budget = max_chars - length context_header - 1 in
    let chosen = choose_lines budget 0 false (reverse lines) in
    let kept = weight-reverse_aux chosen [] in
    let fits = choose_lines_fit budget 0 false (reverse lines) (omega arith) in
    ground (arith, kept, fits, context_block_fits (reverse chosen) budget block)
