-- ===== src/Groups/Context/OneLine.antt =====
-- The lines of the background block are single lines.
use hermes_vector_platform.Prelude.{
  Text, ℕ, ◌≡◌, refl, sym, ap, ◌∙◌, Bool, true, false, not, ◌&&◌, none, some, List, [], ◌∷◌, ◌++◌,
  codes, nonempty, or_else, all, all-append, words_from, ◌==◌, words, join, if◌then◌else◌, arith,
}
use hermes_vector_platform.Prelude.Maybe.{some_inj}
use hermes_vector_platform.Groups.Context.{
  blank_chars, flatten_history_text, safe_history_label, bracketed, history_prefix,
  format_history_line,
}

-- A character that stands in no background line.
abbrev pub is_plain : ℕ → Bool
is_plain c = not (c == 10) && not (c == 13)

abbrev all_plain : List Text → Bool
all_plain [] = true
all_plain (t ∷ ts) = all is_plain t && all_plain ts

blank_chars_plain :
    (is_printable : ℕ → Bool) (s : Text) → all is_plain (blank_chars is_printable s) ≡ true
unfolding blank_chars
blank_chars_plain is_printable [] = refl
blank_chars_plain is_printable (c ∷ s) = ground (arith, blank_chars_plain is_printable s)

words_from_plain :
    (s : Text)
    → all is_plain s ≡ true
    → (all is_plain (words_from s).0 && all_plain (words_from s).1) ≡ true
unfolding words_from
words_from_plain [] h = refl
words_from_plain (c ∷ s) h = ground (arith, words_from_plain s)

words_plain : (s : Text) → all is_plain s ≡ true → all_plain (words s) ≡ true
unfolding words
words_plain s h = ground (arith, words_from_plain s)

join_plain : (ts : List Text) → all_plain ts ≡ true → all is_plain (join (codes " ") ts) ≡ true
unfolding join
join_plain [] h = refl
join_plain (t ∷ []) h = ground arith
join_plain (t ∷ u ∷ ts) h =
    ground (arith, join_plain (u ∷ ts), all-append is_plain t (b' ' ∷ join (codes " ") (u ∷ ts)))

flatten_plain :
    (is_printable : ℕ → Bool) (s : Text) → all is_plain (flatten_history_text is_printable s) ≡ true
unfolding flatten_history_text
flatten_plain is_printable s =
    join_plain (words (blank_chars is_printable s))
      (words_plain _ (blank_chars_plain is_printable s))

or_else_plain :
    (s t : Text) → all is_plain s ≡ true → all is_plain t ≡ true → all is_plain (or_else s t) ≡ true
or_else_plain [] t h k = k
or_else_plain (c ∷ s) t h k = h

append_plain :
    (s t : Text) → all is_plain s ≡ true → all is_plain t ≡ true → all is_plain (s ++ t) ≡ true
append_plain s t h k = ground (arith, all-append is_plain s t)

bracketed_plain : (s : Text) → all is_plain s ≡ true → all is_plain (bracketed s) ≡ true
bracketed_plain s h =
    append_plain (codes "[") (s ++ codes "]") refl (append_plain s (codes "]") h refl)

prefix_plain :
    (label : Text) (mine unverified : Bool)
    → all is_plain label ≡ true
    → all is_plain (history_prefix label mine unverified) ≡ true
unfolding history_prefix
prefix_plain label true unverified h =
    append_plain (bracketed label) (codes " [bot]") (bracketed_plain label h) refl
prefix_plain label false true h =
    append_plain (codes "[unverified] ") (bracketed label) refl (bracketed_plain label h)
prefix_plain label false false h = bracketed_plain label h

body_plain :
    (b : Bool) (flat prefix line : Text)
    → all is_plain prefix ≡ true
    → all is_plain flat ≡ true
    → (let body = if b then codes "(attachment)" else flat in
        if nonempty body then some (prefix ++ (codes " " ++ body)) else none)
      ≡ some line
    → all is_plain line ≡ true
body_plain true flat prefix line p h e =
    ap (all is_plain) (sym (some_inj e)) ∙ append_plain prefix (codes " (attachment)") p refl
body_plain false [] prefix line p h e = absurd (ground arith)
body_plain false (c ∷ s) prefix line p h e =
    ap (all is_plain) (sym (some_inj e)) ∙ append_plain prefix (codes " " ++ (c ∷ s)) p h

-- A background line contains no line feed and no carriage return, whatever the name and the text of
-- the message are, so neither can begin a line of its own.
pub format_history_line_plain :
    (is_printable : ℕ → Bool) (name text : Text) (is_file mine unverified : Bool) (line : Text)
    → format_history_line is_printable name text is_file mine unverified ≡ some line
    → all is_plain line ≡ true
unfolding format_history_line safe_history_label
format_history_line_plain is_printable name text is_file mine unverified line e =
    let flat = flatten_history_text is_printable text in
    let label = or_else (flatten_history_text is_printable name) (codes "unknown") in
    let label_plain =
      or_else_plain (flatten_history_text is_printable name) (codes "unknown")
        (flatten_plain is_printable name) refl in
    body_plain (not (nonempty flat) && is_file) flat (history_prefix label mine unverified) line
      (prefix_plain label mine unverified label_plain) (flatten_plain is_printable text) e
