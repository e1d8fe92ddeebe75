-- ===== src/Groups/Mentions.antt =====
-- The mention gate of internal/groups.py. The tables of Python's `re` module are parameters:
-- `same_letter` is the letter test under IGNORECASE, `is_word` is `\w`.
use hermes_vector_platform.Prelude.{
  Text, ℕ, ◌+◌, ◌-◌, Bool, true, false, ◌&&◌, ◌||◌, not, Option, none, some, [], ◌∷◌, ◌++◌, codes,
  strip, nonempty, words, contains, starts_with, length, drop, join, leb, if◌then◌else◌, ◌==◌,
}
use hermes_vector_platform.Bech32.{normalize_npub}
use hermes_vector_platform.Env.{text_or}

abbrev alnum : ℕ → Bool
alnum c = (leb b'A' c && leb c b'Z') || (leb b'a' c && leb c b'z') || (leb b'0' c && leb c b'9')

-- A test of the neighbouring character, false at an end of the text.
abbrev at_char : (ℕ → Bool) → Option ℕ → Bool
at_char test none = false
at_char test (some c) = test c

abbrev head_of : Text → Option ℕ
head_of [] = none
head_of (c ∷ s) = some c

-- The character at an index, for the end of a match.
unfoldable pub nth_char : ℕ → Text → Option ℕ
nth_char n s = head_of (drop n s)

-- A matcher is given the character before a position and the text from there, and returns the length
-- of its match, 0 for none.
abbrev pub Matcher : Type 0
Matcher = Option ℕ → Text → ℕ

unfoldable pub literal : Text → Matcher
literal pattern prev s = if starts_with s pattern then length pattern else 0

-- `(?<![A-Za-z0-9])npub(?![A-Za-z0-9])`
unfoldable pub bare_npub : Text → Matcher
bare_npub npub prev s =
    if starts_with s npub
      && (not (at_char alnum prev) && not (at_char alnum (nth_char (length npub) s)))
    then length npub
    else 0

unfoldable pub search_from : Matcher → Option ℕ → Text → Bool
search_from match prev [] = false
search_from match prev (c ∷ s) = not (match prev (c ∷ s) == 0) || search_from match (some c) s

-- `re.sub`, and `str.replace`, by a space: `skip` characters of the last match are still to go.
unfoldable pub blank_from : Matcher → Option ℕ → ℕ → Text → Text
blank_from match prev skip [] = []
blank_from match prev skip (c ∷ s) =
    let found = if skip == 0 then match prev (c ∷ s) else 0 in
    let rest = blank_from match (some c) (if skip == 0 then found - 1 else skip - 1) s in
    if skip == 0 then (if found == 0 then c ∷ rest else b' ' ∷ rest) else rest

abbrev pub blank : Matcher → Text → Text
blank match s = blank_from match none 0 s

-- `normalize_npub(bot_npub or "") if bot_npub else None`
unfoldable pub bot_key : Option Text → Option Text
bot_key none = none
bot_key (some npub) = if nonempty npub then normalize_npub npub else none

module _ (same_letter : ℕ → ℕ → Bool) (is_word : ℕ → Bool) where
  unfoldable pub starts_with_letters : Text → Text → Bool
  starts_with_letters s [] = true
  starts_with_letters [] (p ∷ ps) = false
  starts_with_letters (c ∷ s) (p ∷ ps) = same_letter p c && starts_with_letters s ps

  -- `@name\b` under IGNORECASE, for a name that is not empty
  unfoldable pub at_name : Text → Matcher
  unfolding starts_with_letters nth_char
  at_name name prev s =
      let last = at_char is_word (nth_char (length name) s) in
      let next = at_char is_word (nth_char (length name + 1) s) in
      if starts_with_letters s (b'@' ∷ name) && (if last then not next else next)
      then length name + 1
      else 0

  unfoldable pub mentions_npub : Text → Option Text → Bool
  mentions_npub body none = false
  mentions_npub body (some npub) =
      contains (b'@' ∷ npub) body
      || (contains (codes "nostr:" ++ npub) body || search_from (bare_npub npub) none body)

  unfoldable pub mentions_name : Text → Text → Bool
  mentions_name body name = nonempty name && search_from (at_name name) none body

  unfoldable pub mentions_bot : Text → Option Text → Option Text → Bool
  mentions_bot text bot_npub bot_name =
      if nonempty (strip text)
      then mentions_npub text (bot_key bot_npub) || mentions_name text (strip (text_or bot_name []))
      else false

  unfoldable pub blank_npub : Text → Option Text → Text
  blank_npub body none = body
  blank_npub body (some npub) =
      blank (bare_npub npub)
        (blank (literal (codes "nostr:" ++ npub)) (blank (literal (b'@' ∷ npub)) body))

  unfoldable pub mention_remainder : Text → Option Text → Option Text → Text
  mention_remainder text bot_npub bot_name =
      let name = strip (text_or bot_name []) in
      let body = blank_npub text (bot_key bot_npub) in
      join (codes " ") (words (if nonempty name then blank (at_name name) body else body))
