-- ===== src/Inbound/Updates.antt =====
-- `_dispatch_sse_event`, `_handle_message_event`, `_handle_message_update` and
-- `_handle_message_delete` of internal/inbound.py.
use hermes_vector_platform.Prelude.{
  Text, Bool, ◌&&◌, ◌||◌, not, Option, none, some, List, [], ◌∷◌, ◌++◌, codes, nonempty, strip, mem,
  or_else, get_last?, if◌then◌else◌,
}
use hermes_vector_platform.Prelude.Values.{Value, null, str, get, truthy, is_obj, items_of}
use hermes_vector_platform.Bech32.{normalize_channel_id}
use hermes_vector_platform.Recent.{remember_reaction_id}
use hermes_vector_platform.Groups.{npub_or_text}
use hermes_vector_platform.Groups.Mentions.{bot_key}
use hermes_vector_platform.Adapter.{
  Adapter, World, Source, Event, turn, file, unlink_pointer, unlink_pending,
}
use hermes_vector_platform.Adapter
use hermes_vector_platform.Adapter.Act.{Act, ◌>>=◌, ◌>>◌, gets, modify, skip, emit}
use hermes_vector_platform.Adapter.Labels.{forget_last_inbound}
use hermes_vector_platform.Adapter.Outbound.{mark_seen}
use hermes_vector_platform.Adapter.Rooms.{notify_joined_channels}
use hermes_vector_platform.Adapter.Sync.{sync_joined_channels}
use hermes_vector_platform.Adapter.Mute.{is_bot}
use hermes_vector_platform.Inbound.{
  text_field, or_none, is_text, unwrap, msg_id, direct_peer, is_superseded_replay, direct_source,
}
use hermes_vector_platform.Inbound.Direct.{direct_message, shut_out}
use hermes_vector_platform.Inbound.Channel.{handle_group_message}

unfoldable pub received : World → Value → Act (Unit {0})
received w msg =
    if is_obj msg && not (truthy (get (codes "is_mine") msg))
    then (if truthy (get (codes "is_group") msg)
        then handle_group_message w msg
        else direct_message w msg)
    else skip

unfoldable pub handle_message_event : World → Value → Act (Unit {0})
handle_message_event w msg = received w (unwrap (codes "message") msg)

-- The ids of the reactions are remembered, in their order.
unfoldable pub remember_reactions : List Value → Act (Unit {0})
remember_reactions [] = skip
remember_reactions (row ∷ rows) = do
  if nonempty (text_field (codes "id") row)
      then modify (λ s. record s {
        seen_reaction_ids = remember_reaction_id (text_field (codes "id") row) s.seen_reaction_ids;
      })
      else skip
  remember_reactions rows

abbrev is_ours : Adapter → Value → Bool
is_ours s msg = truthy (get (codes "mine") msg) || mem (msg_id msg) s.sent_message_ids

unfoldable pub is_seen_reaction : Adapter → Text → Bool
is_seen_reaction s id = nonempty id && mem id s.seen_reaction_ids

unfoldable pub reaction_event : Value → Value → Source → Event
reaction_event msg last source =
    let react_id = text_field (codes "id") last in
    let quoted = text_field (codes "text") msg in
    record {
      text = codes "reaction:added:" ++ text_field (codes "emoji") last;
      message_type = Adapter.text;
      source = source;
      message_id = or_none react_id;
      reply_to_message_id = some (msg_id msg);
      reply_to_text = if nonempty quoted then str quoted else null;
      media_urls = [];
      media_types = [];
      channel_context = none;
    }

unfoldable pub reaction_turn : World → Value → Text → Value → Act (Unit {0})
reaction_turn w msg peer last = do
  own ← gets (λ s. is_bot (bot_key s.npub) (npub_or_text (text_field (codes "author_id") last)))
  if own then skip else if shut_out w peer then skip else (do
    source ← gets (λ s. direct_source s peer (text_field (codes "id") last))
    emit (turn (reaction_event msg last source)))

unfoldable pub reaction : World → Value → Text → List Value → Value → Act (Unit {0})
reaction w msg peer rows last = do
  seen ← gets (λ s. is_seen_reaction s (text_field (codes "id") last))
  ours ← gets (λ s. is_ours s msg)
  remember_reactions rows
  if seen || (not ours || not (nonempty (text_field (codes "emoji") last)))
      then skip
      else if is_superseded_replay msg
      then skip
      else reaction_turn w msg peer last

unfoldable pub last_reaction : World → Value → Text → List Value → Option Value → Act (Unit {0})
last_reaction w msg peer rows none = skip
last_reaction w msg peer rows (some last) =
    if is_obj last then reaction w msg peer rows last else skip

unfoldable pub updated : World → Value → Act (Unit {0})
updated w msg =
    let rows = items_of (get (codes "reactions") msg) in
    if is_obj msg && (nonempty (direct_peer msg) && nonempty (msg_id msg))
    then last_reaction w msg (direct_peer msg) rows (get_last? rows)
    else skip

unfoldable pub handle_message_update : World → Value → Act (Unit {0})
handle_message_update w msg = updated w (unwrap (codes "message_update") msg)

unfoldable pub unlink_channel_file : Text → Option Text → Act (Unit {0})
unlink_channel_file id none = skip
unlink_channel_file id (some channel) =
    if nonempty id then emit (file (unlink_pending channel id)) else skip

unfoldable pub deleted : World → Value → Act (Unit {0})
deleted w msg =
    let id = or_else (msg_id msg) (text_field (codes "message_id") msg) in
    let chat_id = text_field (codes "chat_id") msg in
    if is_obj msg
    then (do
      mark_seen id
      forget_last_inbound w chat_id id
      if nonempty id then emit (file (unlink_pointer id)) else skip
      unlink_channel_file id (normalize_channel_id chat_id))
    else skip

unfoldable pub handle_message_delete : World → Value → Act (Unit {0})
handle_message_delete w msg = deleted w (unwrap (codes "message_delete") msg)

-- `data["data"]` where it is a mapping, else the event itself
unfoldable pub inner_of : Value → Value
inner_of msg = let inner = get (codes "data") msg in if is_obj inner then inner else msg

unfoldable pub ready : Value → Act (Unit {0})
ready inner =
    let npub = text_field (codes "npub") inner in
    if nonempty npub then modify (λ s. record s { npub = some npub }) else skip

unfoldable pub community_joined : World → Value → Act (Unit {0})
community_joined w inner =
    let channels = items_of (get (codes "channels") inner) in
    let community_id = text_field (codes "community_id") inner in
    if nonempty channels
    then notify_joined_channels w community_id channels (strip (text_field (codes "name") inner))
    else if nonempty community_id
    then sync_joined_channels w
    else skip

unfoldable pub dispatch_sse_event : World → Value → Act (Unit {0})
dispatch_sse_event w msg =
    let kind = get (codes "type") msg in
    if is_text kind (codes "ready")
    then ready (inner_of msg)
    else if is_text kind (codes "message")
    then handle_message_event w msg
    else if is_text kind (codes "message_update")
    then handle_message_update w msg
    else if is_text kind (codes "message_delete")
    then handle_message_delete w msg
    else if is_text kind (codes "community_joined")
    then community_joined w (inner_of msg)
    else skip
