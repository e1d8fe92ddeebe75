-- ===== src/Inbound/Direct.antt =====
-- `_handle_message_event` of internal/inbound.py for a DM, from the check of its id to the turn.
use hermes_vector_platform.Prelude.{
  Text, Bool, ◌&&◌, not, none, List, [], codes, nonempty, if◌then◌else◌,
}
use hermes_vector_platform.Prelude.Values.{Value, get}
use hermes_vector_platform.Env.{pairing_enabled}
use hermes_vector_platform.Groups.{pending_inbox_key, sender_is_authorized}
use hermes_vector_platform.Groups.Mentions.{bot_key}
use hermes_vector_platform.Adapter.{
  World, Source, Saved, Event, document, turn, save_attachments, replay_breadcrumb,
}
use hermes_vector_platform.Adapter.Act.{Act, pure, ◌>>=◌, ◌>>◌, gets, skip, emit, save}
use hermes_vector_platform.Adapter.Blocklist.{is_blocked}
use hermes_vector_platform.Adapter.Mute.{is_bot, try_block_command}
use hermes_vector_platform.Adapter.Invites.{try_invite_command}
use hermes_vector_platform.Inbound.{
  Media, is_empty, is_bare_file, text_field, or_none, attachments_of, is_file, msg_id, direct_peer,
  reply_to_text, is_superseded_replay, check_duplicate, note_inbound, type_of_media,
  media_for_event, queue_pending_inbox, write_inbox_breadcrumb, ack_file_only, direct_source,
}

abbrev caption : Value → Text
caption msg = text_field (codes "text") msg

unfoldable pub direct_event : Value → Source → Media → Event
direct_event msg source media = record {
  text = caption msg;
  message_type = type_of_media media.1;
  source = source;
  message_id = or_none (msg_id msg);
  reply_to_message_id = none;
  reply_to_text = reply_to_text msg;
  media_urls = media.0;
  media_types = media.1;
  channel_context = none;
}

-- The event for a file from a stranger, which the gateway answers with a pairing code.
unfoldable pub pairing_event : Value → Source → Event
pairing_event msg source = record {
  text = codes "(file attachment)";
  message_type = document;
  source = source;
  message_id = or_none (msg_id msg);
  reply_to_message_id = none;
  reply_to_text = reply_to_text msg;
  media_urls = [];
  media_types = [];
  channel_context = none;
}

-- A file without a caption.
unfoldable pub file_only : World → Value → Text → Source → List Saved → Act (Unit {0})
file_only w msg peer source saved =
    if sender_is_authorized w.env peer
    then (do
      ack_file_only w peer saved
      write_inbox_breadcrumb source saved
      queue_pending_inbox w (pending_inbox_key peer none) saved)
    else if pairing_enabled w.env
    then emit (turn (pairing_event msg source))
    else skip

unfoldable pub save_direct : World → Value → Text → Act (List Saved)
save_direct w msg peer =
    if is_file msg && (nonempty (attachments_of msg) && sender_is_authorized w.env peer)
    then save w (
        save_attachments peer (attachments_of msg) (msg_id msg) (caption msg)
          (get (codes "at_ms") msg))
    else pure []

unfoldable pub direct_start : World → Value → Text → Source → List Saved → Act (Unit {0})
direct_start w msg peer source saved = do
  media ← media_for_event w (pending_inbox_key peer none) saved (is_file msg)
  emit (turn (direct_event msg source media))

unfoldable pub direct_saved : World → Value → Text → Source → List Saved → Act (Unit {0})
direct_saved w msg peer source saved =
    if is_bare_file msg
    then file_only w msg peer source saved
    else if is_superseded_replay msg
    then emit (replay_breadcrumb source (caption msg) saved)
    else direct_start w msg peer source saved

unfoldable pub direct_turn : World → Value → Text → Act (Unit {0})
direct_turn w msg peer = do
  note_inbound w peer (msg_id msg)
  source ← gets (λ s. direct_source s peer (msg_id msg))
  saved ← save_direct w msg peer
  direct_saved w msg peer source saved

unfoldable pub direct_commands : World → Value → Text → Act (Unit {0})
direct_commands w msg peer = do
  muted ← try_block_command w.same_letter w peer (caption msg)
  if muted then note_inbound w peer (msg_id msg) else (do
    invited ← try_invite_command w.same_letter w peer (caption msg)
    if invited then note_inbound w peer (msg_id msg) else direct_turn w msg peer)

-- VECTOR_PAIRING=off: strangers are dropped.
unfoldable pub shut_out : World → Text → Bool
shut_out w peer = not (pairing_enabled w.env) && not (sender_is_authorized w.env peer)

unfoldable pub direct_from : World → Value → Text → Act (Unit {0})
direct_from w msg peer = do
  own ← gets (λ s. is_bot (bot_key s.npub) peer)
  if own then skip else (do
    blocked ← is_blocked w peer
    if blocked then skip else if shut_out w peer then skip else direct_commands w msg peer)

unfoldable pub direct_message : World → Value → Act (Unit {0})
direct_message w msg = do
  duplicate ← check_duplicate (msg_id msg)
  if duplicate
      then skip
      else if is_empty msg
      then skip
      else if nonempty (direct_peer msg)
      then direct_from w msg (direct_peer msg)
      else skip
