-- ===== src/Inbound/Channel.antt =====
-- `_handle_group_message` of internal/inbound.py: a message in a channel of a community.
use hermes_vector_platform.Prelude.{
  Text, Bool, ◌&&◌, ◌||◌, not, Option, none, some, List, [], ◌∷◌, ◌++◌, ◌+◌, codes, nonempty, strip,
  mem, if◌then◌else◌,
}
use hermes_vector_platform.Prelude.Values.{Value, get, truthy}
use hermes_vector_platform.Bech32.{normalize_channel_id}
use hermes_vector_platform.Env.{community_download_all, group_context_enabled}
use hermes_vector_platform.Groups.{npub_or_text, remember_channel, group_sender_is_authorized}
use hermes_vector_platform.Groups.Commands.{group_slash_command}
use hermes_vector_platform.Groups.Mentions.{bot_key, mentions_bot, mention_remainder}
use hermes_vector_platform.Adapter.{
  Adapter, World, Source, Saved, Event, turn, file, fetch_context, stash_group_file,
  ingest_group_file, replay_breadcrumb,
}
use hermes_vector_platform.Adapter.Act.{Act, pure, ◌>>=◌, ◌>>◌, gets, modify, skip, emit, save}
use hermes_vector_platform.Adapter.Rooms.{notify_joined_channels}
use hermes_vector_platform.Adapter.Sync.{channel_row}
use hermes_vector_platform.Adapter.Mute.{is_bot}
use hermes_vector_platform.Inbound.{
  is_empty, text_field, or_none, attachments_of, is_file, has_caption, msg_id, reply_to_text,
  is_superseded_replay, check_duplicate, note_inbound, type_of_media, media_of_saved,
  write_inbox_breadcrumb, group_source,
}

abbrev caption : Value → Text
caption msg = text_field (codes "text") msg

abbrev reply_to : Value → Text
reply_to msg = text_field (codes "reply_to") msg

abbrev pub group_peer : Value → Text
group_peer msg = npub_or_text (text_field (codes "npub") msg)

abbrev community_of : Value → Option Text
community_of msg = or_none (text_field (codes "community_id") msg)

-- A file event that can be stashed.
unfoldable pub has_files : Value → Bool
has_files msg = is_file msg && (nonempty (attachments_of msg) && nonempty (msg_id msg))

unfoldable pub reply_to_bot : Text → List Text → Bool
reply_to_bot ref sent = nonempty (strip ref) && mem (strip ref) sent

-- `_group_slash_command` of the message
abbrev pub is_slash : Value → Bool
is_slash msg = group_slash_command (caption msg) (truthy (get (codes "is_command") msg))

-- The mention gate: a mention, a reply to the bot, or a slash command.
unfoldable pub is_addressed : World → Adapter → Value → Bool
is_addressed w s msg =
    mentions_bot w.same_letter w.is_word (caption msg) (bot_key s.npub) (some w.bot_name)
    || (reply_to_bot (reply_to msg) s.sent_message_ids || is_slash msg)

-- A mention of files without more words.
unfoldable pub is_mention_only : World → Adapter → Value → List Saved → Bool
is_mention_only w s msg saved =
    nonempty saved
    && (not (
          nonempty (
            mention_remainder w.same_letter w.is_word (caption msg) (bot_key s.npub)
              (some w.bot_name)))
        && (not (is_slash msg) && not (reply_to_bot (reply_to msg) s.sent_message_ids)))

-- `_group_channel_context`, as the world has it
unfoldable pub fetch : World → Text → Value → Act (Option Text)
fetch w channel_id msg s =
    let effect = fetch_context channel_id (msg_id msg) (get (codes "at_ms") msg) in
    (w.channel_context s.calls, record s { calls = s.calls + 1; trace = effect ∷ s.trace })

unfoldable pub group_context : World → Text → Value → Act (Option Text)
group_context w channel_id msg =
    if group_context_enabled w.env then fetch w channel_id msg else pure none

unfoldable pub group_event : World → Value → Source → List Saved → Option Text → Event
group_event w msg source saved context =
    let media = media_of_saved w saved in
    record {
      text = caption msg;
      message_type = type_of_media media.1;
      source = source;
      message_id = or_none (msg_id msg);
      reply_to_message_id = none;
      reply_to_text = reply_to_text msg;
      media_urls = media.0;
      media_types = media.1;
      channel_context = context;
    }

unfoldable pub group_start : World → Text → Value → Source → List Saved → Act (Unit {0})
group_start w channel_id msg source saved = do
  context ← group_context w channel_id msg
  emit (turn (group_event w msg source saved context))

unfoldable pub group_saved : World → Text → Value → Source → List Saved → Act (Unit {0})
group_saved w channel_id msg source saved = do
  only ← gets (λ s. is_mention_only w s msg saved)
  if only
      then write_inbox_breadcrumb source saved
      else if is_superseded_replay msg
      then emit (replay_breadcrumb source (caption msg) saved)
      else group_start w channel_id msg source saved

-- The files of the message that is replied to, and those of this one.
unfoldable pub group_files : World → Text → Value → Act (List Saved)
group_files w channel_id msg = do
  quoted ←
      if nonempty (reply_to msg)
      then save w (ingest_group_file channel_id (reply_to msg) (caption msg))
      else pure []
  own ←
      if has_files msg
      then save w (ingest_group_file channel_id (msg_id msg) (caption msg))
      else pure []
  pure (quoted ++ own)

unfoldable pub group_turn : World → Text → Value → Text → Act (Unit {0})
group_turn w channel_id msg peer = do
  note_inbound w channel_id (msg_id msg)
  source ← gets (λ s. group_source s channel_id peer (msg_id msg) (community_of msg))
  saved ← group_files w channel_id msg
  group_saved w channel_id msg source saved

unfoldable pub group_gate : World → Text → Value → Text → Act (Unit {0})
group_gate w channel_id msg peer = do
  addressed ← gets (λ s. is_addressed w s msg)
  if addressed
      then (if group_sender_is_authorized w.env peer channel_id
          then group_turn w channel_id msg peer
          else skip)
      else skip

-- The files are noted, and fetched at once where VECTOR_COMMUNITY_DOWNLOAD_ALL is on.
unfoldable pub group_stash : World → Text → Value → Text → Act (Unit {0})
group_stash w channel_id msg peer = do
  emit (
      file (
        stash_group_file channel_id (msg_id msg) peer (attachments_of msg) (community_of msg)
          (get (codes "at_ms") msg)))
  if community_download_all w.env
      then (do
        saved ← save w (ingest_group_file channel_id (msg_id msg) (caption msg))
        source ← gets (λ s. group_source s channel_id peer (msg_id msg) (community_of msg))
        write_inbox_breadcrumb source saved)
      else skip

unfoldable pub group_from : World → Text → Value → Text → Act (Unit {0})
group_from w channel_id msg peer = do
  own ← gets (λ s. is_bot (bot_key s.npub) peer)
  if own
      then skip
      else if has_files msg
      then (do
        group_stash w channel_id msg peer
        if has_caption msg then group_gate w channel_id msg peer else skip)
      else group_gate w channel_id msg peer

unfoldable pub group_message : World → Text → Value → Act (Unit {0})
group_message w channel_id msg = do
  duplicate ← check_duplicate (msg_id msg)
  if duplicate
      then skip
      else if is_empty msg
      then skip
      else if nonempty (group_peer msg)
      then group_from w channel_id msg (group_peer msg)
      else skip

unfoldable pub in_channel : World → Value → Option Text → Act (Unit {0})
in_channel w msg none = skip
in_channel w msg (some channel_id) = do
  modify (λ s. record s { known_channel_ids = remember_channel channel_id s.known_channel_ids })
  notify_joined_channels w (text_field (codes "community_id") msg) (channel_row channel_id [] ∷ [])
      []
  group_message w channel_id msg

unfoldable pub handle_group_message : World → Value → Act (Unit {0})
handle_group_message w msg =
    in_channel w msg (normalize_channel_id (text_field (codes "chat_id") msg))
