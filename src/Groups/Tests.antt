-- ===== src/Groups/Tests.antt =====
-- Runs of the gates of internal/groups.py.
use hermes_vector_platform.Prelude.{
  Text, [], ◌∷◌, ◌++◌, ◌≤◌, length, all, arith, ℕ, ◌≡◌, refl, true, false, Bool, none, some, codes,
  ◌==◌, ◌||◌, ◌&&◌, leb, [], ◌++◌, text_eq, mem, words, contains, split_on, join, ◌+◌, nonempty,
  if◌then◌else◌,
}
use hermes_vector_platform.Bech32.{codec, normalize_npub}
use hermes_vector_platform.Prelude.Dicts.{add}
use hermes_vector_platform.Env.{Environ, scoped_env_str}
use hermes_vector_platform.Groups.{
  sender_is_authorized, npub_or_text, channel_or_text, allowed_npubs, npubs_from_env,
  npubs_from_csv, collect, group_sender_is_authorized, is_home_operator, merge_allowed_users,
}
use hermes_vector_platform.Groups.Access.{
  lists_user, lists_channel, sender_is_authorized_iff, group_sender_is_authorized_iff,
  gates_of_spelling,
}
use hermes_vector_platform.Groups.Merge.{merge_allowed_users_lem}
use hermes_vector_platform.Bech32.Tests.{key_hex, key_npub}
use hermes_vector_platform.Groups.Commands.{group_slash_command, parse_block_command}
use hermes_vector_platform.Groups.Mentions.{mentions_bot, mention_remainder}
use hermes_vector_platform.Groups.Mentions
use hermes_vector_platform.Groups.Context.{
  blank_chars, flatten_history_text, safe_history_label, history_prefix, format_history_line,
  context_header, clip_history_line, choose_lines, context_block, assemble_group_context,
}
use hermes_vector_platform.Groups.Context.Budget.{assemble_group_context_fits}
use hermes_vector_platform.Groups.Context.OneLine.{is_plain, format_history_line_plain}

-- ASCII versions of the tables.
abbrev pub same_letter : ℕ → ℕ → Bool
same_letter p c =
    p == c
    || ((leb b'a' p && leb p b'z') && c + 32 == p)
    || ((leb b'A' p && leb p b'Z') && p + 32 == c)

abbrev pub is_word : ℕ → Bool
is_word c =
    (leb b'A' c && leb c b'Z')
    || (leb b'a' c && leb c b'z')
    || (leb b'0' c && leb c b'9')
    || c == b'_'

block :
    parse_block_command same_letter (codes " /Block  npub1xyz ")
    ≡ some (codes "block", codes "npub1xyz")
unfolding codec parse_block_command words
block = refl

blocked : parse_block_command same_letter (codes "/blocked") ≡ some (codes "blocked", [])
unfolding codec parse_block_command words
blocked = refl

no_block : parse_block_command same_letter (codes "/block a b") ≡ none
unfolding codec parse_block_command words
no_block = refl

slash : group_slash_command (codes "/approve@bot now") false ≡ true
unfolding codec group_slash_command words split_on contains mem text_eq
slash = refl

mention :
    mentions_bot same_letter is_word (codes "hey @hermes!") (some key_npub) (some (codes "Hermes"))
    ≡ true
unfolding codec mentions_bot contains Mentions.mentions_npub Mentions.mentions_name Mentions.bot_key
    Mentions.search_from Mentions.bare_npub Mentions.at_name
mention = refl

no_mention :
    mentions_bot same_letter is_word
      (codes "hey @hermesx @everyone")
      (some key_npub)
      (some (codes "Hermes"))
    ≡ false
unfolding codec mentions_bot contains Mentions.mentions_npub Mentions.mentions_name Mentions.bot_key
    Mentions.search_from Mentions.bare_npub Mentions.at_name
no_mention = refl

remainder :
    mention_remainder same_letter is_word
      (codes " @Hermes  what is up")
      (some key_npub)
      (some (codes "Hermes"))
    ≡ codes "what is up"
unfolding codec mention_remainder contains words join Mentions.blank_npub Mentions.bot_key
    Mentions.blank_from Mentions.bare_npub Mentions.at_name Mentions.literal
remainder = refl

abbrev pub gate_env : Environ
gate_env = record {
  scoped_secret = none;
  vars = λ name.
      if text_eq name (codes "VECTOR_ALLOWED_USERS") then some (codes " x, " ++ key_hex) else none;
}

sender : sender_is_authorized gate_env key_npub ≡ true
unfolding codec sender_is_authorized npub_or_text allowed_npubs npubs_from_env npubs_from_csv
    collect scoped_env_str split_on add text_eq mem
sender = refl

sender_is_authorized_iff_example : sender_is_authorized gate_env key_hex ≡ (
    nonempty (npub_or_text key_hex)
    && lists_user gate_env (codes "VECTOR_ALLOWED_USERS") (npub_or_text key_hex))
sender_is_authorized_iff_example = sender_is_authorized_iff gate_env key_hex

group_sender_is_authorized_iff_example : group_sender_is_authorized gate_env key_hex key_hex ≡ (
    (nonempty (channel_or_text key_hex)
      && lists_channel gate_env (codes "VECTOR_GROUP_ALLOW_ALL") (channel_or_text key_hex))
    || (nonempty (npub_or_text key_hex)
        && (lists_user gate_env (codes "VECTOR_ALLOWED_USERS") (npub_or_text key_hex)
            || lists_user gate_env (codes "VECTOR_GROUP_ALLOWED_USERS") (npub_or_text key_hex))))
group_sender_is_authorized_iff_example = group_sender_is_authorized_iff gate_env key_hex key_hex

canonical : normalize_npub key_hex ≡ some key_npub
unfolding codec
canonical = refl

canonical_npub : normalize_npub key_npub ≡ some key_npub
unfolding codec
canonical_npub = refl

gates_of_spelling_example :
    (sender_is_authorized gate_env key_hex ≡ sender_is_authorized gate_env key_npub)
    × (group_sender_is_authorized gate_env key_hex key_hex
        ≡ group_sender_is_authorized gate_env key_npub key_hex)
    × (is_home_operator gate_env key_hex ≡ is_home_operator gate_env key_npub)
gates_of_spelling_example = gates_of_spelling gate_env key_hex key_npub key_hex canonical

merge_allowed_users_lem_example :
    mem key_npub (npubs_from_csv (merge_allowed_users key_npub key_hex))
    ≡ (text_eq key_npub key_npub || mem key_npub (npubs_from_csv key_hex))
merge_allowed_users_lem_example = merge_allowed_users_lem key_npub key_hex key_npub canonical_npub

abbrev is_ascii : ℕ → Bool
is_ascii c = leb 32 c && leb c 126

history_line :
    format_history_line is_ascii (codes "bob") (codes "a\n[New message]") false false true
    ≡ some (codes "[unverified] [bob] a [New message]")
unfolding codec format_history_line flatten_history_text safe_history_label history_prefix
    blank_chars words join
history_line = refl

format_history_line_plain_example : all is_plain (codes "[unverified] [bob] a [New message]") ≡ true
format_history_line_plain_example =
    format_history_line_plain is_ascii (codes "bob") (codes "a\n[New message]") false false true
      (codes "[unverified] [bob] a [New message]") history_line

abbrev small_block : Text
small_block = context_header ++ codes "\n[a] h…"

clipped_block :
    assemble_group_context (codes "[b] old" ∷ codes "[a] hello" ∷ []) (length context_header + 7)
    ≡ some small_block
unfolding assemble_group_context choose_lines clip_history_line context_block join
clipped_block = refl

assemble_group_context_fits_example : length small_block ≤ length context_header + 7
assemble_group_context_fits_example =
    assemble_group_context_fits (codes "[b] old" ∷ codes "[a] hello" ∷ [])
      (length context_header + 7) small_block (omega arith) clipped_block
