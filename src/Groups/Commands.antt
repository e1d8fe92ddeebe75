-- ===== src/Groups/Commands.antt =====
-- The typed commands of internal/groups.py. `same_letter` is the letter test of a regular expression
-- under IGNORECASE, a table of Python's `re` module.
use hermes_vector_platform.Prelude.{
  Text, ℕ, Bool, true, false, ◌&&◌, not, Option, none, some, List, [], ◌∷◌, codes, strip, lower,
  mem, nonempty, words, split_on, contains, is_space, length, drop, take, if◌then◌else◌, ◌==◌,
}
use hermes_vector_platform.Prelude.Maybe.{◌>>=◌}

abbrev slash_commands : List Text
slash_commands = codes "approve" ∷ codes "deny" ∷ []

-- `first[1:].split("@", 1)[0].lower()`
abbrev command_name : Text → Text
command_name rest = elim (split_on b'@' rest) [ [] ↦ [] | name ∷ names ↦ lower name ]

abbrev is_slash_word : List Text → Bool
is_slash_word [] = false
is_slash_word ([] ∷ tokens) = false
is_slash_word ((c ∷ rest) ∷ tokens) =
    if c == b'/'
    then (let name = command_name rest in
        nonempty name && (not (contains (codes "/") name) && mem name slash_commands))
    else false

-- `_group_slash_command`; the first of `split(None, 1)` is the first word
unfoldable pub group_slash_command : Text → Bool → Bool
group_slash_command text is_command = if is_command then true else is_slash_word (words text)

module _ (same_letter : ℕ → ℕ → Bool) where
  -- The text behind a word that is matched letter for letter.
  unfoldable pub after_word : Text → Text → Option Text
  after_word [] s = some s
  after_word (w ∷ ws) [] = none
  after_word (w ∷ ws) (c ∷ s) = if same_letter w c then after_word ws s else none

  -- `(?:\s+(\S+))?\s*$` behind the word: no argument, or one of them set off by white space.
  unfoldable pub argument : Text → Option Text
  argument [] = some []
  argument (c ∷ s) = elim (words s) [
    | [] ↦ if is_space c then some [] else none
    | arg ∷ [] ↦ if is_space c then some arg else none
    | arg ∷ more ∷ rest ↦ none
  ]

  -- `^/(word)(?:\s+(\S+))?\s*$`: the word as it is written, in lower case, and the argument.
  unfoldable pub match_word : Text → Text → Option (Text × Text)
  unfolding after_word argument
  match_word text word = do
    rest ← after_word (b'/' ∷ word) text
    arg ← argument rest
    some (lower (take (length word) (drop 1 text)), arg)

  -- The alternatives of a group are tried from the left.
  unfoldable pub match_words : Text → List Text → Option (Text × Text)
  unfolding match_word
  match_words text [] = none
  match_words text (word ∷ more) =
      let rest = match_words text more in
      elim (match_word text word) [ none ↦ rest | some found ↦ some found ]

  unfoldable pub parse_block_command : Text → Option (Text × Text)
  unfolding match_words
  parse_block_command text =
      match_words (strip text) (codes "block" ∷ codes "unblock" ∷ codes "blocked" ∷ [])

  unfoldable pub parse_invite_command : Text → Option (Text × Text)
  unfolding match_words
  parse_invite_command text =
      match_words (strip text) (codes "invites" ∷ codes "join" ∷ codes "decline" ∷ [])
