-- ===== src/Adapter/Invites.antt =====
-- Parked community invites: `list_pending_invites`, `accept_invite`, `decline_invite` and
-- `_try_invite_command` of adapter.py.
use hermes_vector_platform.Prelude.{
  Text, ℕ, suc, Bool, false, ◌&&◌, Option, none, some, List, [], ◌∷◌, ◌++◌, map, codes, strip,
  text_eq, nonempty, or_else, length, join, if◌then◌else◌,
}
use hermes_vector_platform.Prelude.Values.{Value, get, text_of, is_obj, items_of, digits_of, truthy}
use hermes_vector_platform.Bech32.{normalize_channel_id}
use hermes_vector_platform.Env.{text_or}
use hermes_vector_platform.Groups.{is_home_operator}
use hermes_vector_platform.Groups.Commands.{parse_invite_command}
use hermes_vector_platform.Adapter.{World, get_invites, post_accept, post_decline}
use hermes_vector_platform.Adapter.Act.{Act, pure, ◌>>=◌, ◌>>◌, gets, ask}
use hermes_vector_platform.Adapter.Labels.{truncate_npub}
use hermes_vector_platform.Adapter.Outbound.{is_200}
use hermes_vector_platform.Adapter.Blocklist.{json_200}
use hermes_vector_platform.Adapter.Mute.{reply_to_command}
use hermes_vector_platform.Adapter.Rooms.{
  Room, ingest_joined_channels, mark_channels_notified, format_joined_notice,
}

unfoldable pub accepted : Option Value → Option Value
accepted none = none
accepted (some body) = if is_obj body then some body else none

unfoldable pub accept_invite : World → Text → Act (Option Value)
accept_invite w cid = do
  connected ← gets (λ s. s.connected)
  if connected
      then (do reply ← ask w (post_accept cid); pure (accepted (json_200 reply)))
      else pure none

unfoldable pub decline_invite : World → Text → Act Bool
decline_invite w cid = do
  connected ← gets (λ s. s.connected)
  if connected then (do reply ← ask w (post_decline cid); pure (is_200 reply)) else pure false

-- A row of `list_pending_invites`.
pub record Invite : Type 0 where
  pub community_id : Text
  pub name : Text
  pub inviter_npub : Text

unfoldable pub invite_rows : List Value → List Invite
invite_rows [] = []
invite_rows (row ∷ rows) =
    let rest = invite_rows rows in
    let raw = text_of (get (codes "community_id") row) in
    let cid = text_or (normalize_channel_id raw) (strip raw) in
    if is_obj row && nonempty cid
    then record {
      community_id = cid;
      name = text_of (get (codes "name") row);
      inviter_npub = text_of (get (codes "inviter_npub") row);
    }
      ∷ rest
    else rest

unfoldable pub pending_rows : Option Value → List Invite
pending_rows none = []
pending_rows (some body) = invite_rows (items_of (get (codes "invites") body))

unfoldable pub list_pending_invites : World → Act (List Invite)
list_pending_invites w = do
  connected ← gets (λ s. s.connected)
  if connected
      then (do reply ← ask w get_invites; pure (pending_rows (json_200 reply)))
      else pure []

abbrev when_text : Text → List Text → List Text
when_text test lines = if nonempty test then lines else []

unfoldable pub invite_lines : Invite → List Text
invite_lines row =
    let cid = strip row.community_id in
    let inviter = strip row.inviter_npub in
    (codes "- " ++ or_else (strip row.name) (codes "(unnamed)"))
    ∷ (when_text cid ((codes "  community_id: " ++ cid) ∷ [])
        ++ when_text inviter ((codes "  from: " ++ truncate_npub inviter) ∷ []))

unfoldable pub all_invite_lines : List Invite → List Text
all_invite_lines [] = []
all_invite_lines (row ∷ rows) = invite_lines row ++ all_invite_lines rows

unfoldable pub format_pending_invites : List Invite → Text
format_pending_invites [] = codes "No parked invites."
format_pending_invites (row ∷ rows) =
    let n = length (row ∷ rows) in
    join (codes "\n") (
      (codes "Parked invites (" ++ (digits_of (suc n) n ++ codes "):"))
      ∷ (all_invite_lines (row ∷ rows)
          ++ ([]
              ∷ codes "Join: /join <community_id>"
              ∷ codes "Decline: /decline <community_id>"
              ∷ [])))

-- The answer to `/join` once the sidecar has joined, with the rooms of the community.
unfoldable pub joined : World → Text → Text → Text → List Room → Act Bool
joined w peer community_id name [] =
    reply_to_command w peer (codes "Joined " ++ (or_else name (codes "the community") ++ codes "."))
joined w peer community_id name (room ∷ rooms) = do
  mark_channels_notified (map (λ r. r.channel_id) (room ∷ rooms))
  reply_to_command w peer (format_joined_notice community_id (room ∷ rooms) name)

-- `if not data`: an empty object counts as a failure.
unfoldable pub join_reply : World → Text → Text → Option Value → Act Bool
join_reply w peer cid none =
    reply_to_command w peer
      (codes "Could not join " ++ (cid ++ codes ". Is that invite still parked?"))
join_reply w peer cid (some data') =
    let community_id = or_else (text_of (get (codes "community_id") data')) cid in
    let name = strip (text_of (get (codes "name") data')) in
    if truthy data'
    then (do
      rooms ← ingest_joined_channels community_id (items_of (get (codes "channels") data')) name
      joined w peer community_id name rooms)
    else reply_to_command w peer
        (codes "Could not join " ++ (cid ++ codes ". Is that invite still parked?"))

unfoldable pub invite_target : World → Text → Text → Option Text → Act Bool
invite_target w peer cmd none =
    reply_to_command w peer (codes "Usage: /" ++ (cmd ++ codes " <community_id>"))
invite_target w peer cmd (some cid) =
    if text_eq cmd (codes "join")
    then (do data' ← accept_invite w cid; join_reply w peer cid data')
    else (do
      dropped ← decline_invite w cid
      if dropped
          then reply_to_command w peer (codes "Declined invite " ++ (cid ++ codes "."))
          else reply_to_command w peer
              (codes "Could not decline " ++ (cid ++ codes ". Is that invite still parked?")))

unfoldable pub run_invite_command : World → Text → Option (Text × Text) → Act Bool
run_invite_command w peer none = pure false
run_invite_command w peer (some (cmd, arg)) =
    if text_eq cmd (codes "invites")
    then (do rows ← list_pending_invites w; reply_to_command w peer (format_pending_invites rows))
    else invite_target w peer cmd (normalize_channel_id arg)

unfoldable pub try_invite_command : (ℕ → ℕ → Bool) → World → Text → Text → Act Bool
try_invite_command same_letter w peer text =
    if is_home_operator w.env peer
    then run_invite_command w peer (parse_invite_command same_letter text)
    else pure false
