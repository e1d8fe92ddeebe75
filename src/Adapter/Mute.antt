-- ===== src/Adapter/Mute.antt =====
-- `_try_block_command` of adapter.py.
use hermes_vector_platform.Prelude.{
  Text, ℕ, suc, Bool, true, false, ◌||◌, Option, none, some, List, [], ◌∷◌, ◌++◌, map, codes, strip,
  text_eq, nonempty, or_else, length, join, if◌then◌else◌,
}
use hermes_vector_platform.Prelude.Values.{digits_of}
use hermes_vector_platform.Bech32.{normalize_npub}
use hermes_vector_platform.Env.{text_or}
use hermes_vector_platform.Groups.{is_home_operator}
use hermes_vector_platform.Groups.Commands.{parse_block_command}
use hermes_vector_platform.Groups.Mentions.{bot_key}
use hermes_vector_platform.Adapter.{Adapter, World}
use hermes_vector_platform.Adapter.Act.{Act, pure, ◌>>=◌, gets}
use hermes_vector_platform.Adapter.Labels.{truncate_npub}
use hermes_vector_platform.Adapter.Outbound.{send}
use hermes_vector_platform.Adapter.Blocklist.{Muted, block_user, list_blocked}

-- A line of the list that `/blocked` answers with.
abbrev muted_line : Muted → Text
muted_line row =
    let label = or_else (strip row.name) (strip row.display_name) in
    codes "- "
    ++ (truncate_npub row.npub
        ++ (if nonempty label then codes " (" ++ (label ++ codes ")") else []))

unfoldable pub blocked_body : List Muted → Text
blocked_body [] = codes "No blocked users."
blocked_body (row ∷ rows) =
    let n = length (row ∷ rows) in
    join (codes "\n")
      ((codes "Blocked (" ++ (digits_of (suc n) n ++ codes "):")) ∷ map muted_line (row ∷ rows))

-- A message to the peer, after which the command is consumed.
unfoldable pub reply_to_command : World → Text → Text → Act Bool
reply_to_command w peer body = do sent ← send w peer body none; pure true

abbrev pub is_bot : Option Text → Text → Bool
is_bot none target = false
is_bot (some bot) target = text_eq target bot

-- `(bot and target == bot) or target == commander`
unfoldable pub is_self : Adapter → Text → Text → Bool
is_self s peer target =
    is_bot (bot_key s.npub) target || text_eq target (text_or (normalize_npub peer) peer)

unfoldable pub mute_target : World → Text → Text → Option Text → Act Bool
mute_target w peer cmd none = reply_to_command w peer (codes "Usage: /" ++ (cmd ++ codes " <npub>"))
mute_target w peer cmd (some target) = do
  self ← gets (λ s. is_self s peer target)
  let unblock = text_eq cmd (codes "unblock")
  if self then reply_to_command w peer (codes "Cannot block that npub.") else (do
    ok ← block_user w target unblock
    if ok
        then reply_to_command w peer (
            (if unblock then codes "Unblocked " else codes "Blocked ")
            ++ (truncate_npub target ++ codes "."))
        else reply_to_command w peer
            (codes "Could not " ++ (cmd ++ (codes " " ++ (truncate_npub target ++ codes ".")))))

unfoldable pub run_block_command : World → Text → Option (Text × Text) → Act Bool
run_block_command w peer none = pure false
run_block_command w peer (some (cmd, arg)) =
    if text_eq cmd (codes "blocked")
    then (do rows ← list_blocked w; reply_to_command w peer (blocked_body rows))
    else mute_target w peer cmd (normalize_npub arg)

unfoldable pub try_block_command : (ℕ → ℕ → Bool) → World → Text → Text → Act Bool
try_block_command same_letter w peer text =
    if is_home_operator w.env peer
    then run_block_command w peer (parse_block_command same_letter text)
    else pure false
