-- ===== src/Inbound.antt =====
-- internal/inbound.py: what the handlers of the sidecar's events share. A handler reads the fields
-- of the event's JSON object; ids in it are texts.
pub mod Direct
pub mod Channel
pub mod Updates
pub mod NoTurn
pub mod Gates
pub mod OneTurn
pub mod OneEvent
pub mod Redelivery
pub mod Stream
pub mod Tests
mod StreamTests
use hermes_vector_platform.Prelude.{
  Text, ℕ, Bool, true, false, ◌&&◌, ◌||◌, not, Option, none, some, List, [], ◌∷◌, ◌++◌, map, codes,
  strip, lower, mem, text_eq, nonempty, or_else, starts_with, contains, ◌+◌, any, length, get_last?,
  split_on, drop, join, if◌then◌else◌,
}
use hermes_vector_platform.Prelude.Dicts.{lookup, put, pop}
use hermes_vector_platform.Prelude.Values.{
  Value, null, str, get, has, text_of, truthy, is_obj, items_of, digits_of,
}
use hermes_vector_platform.Bech32.{normalize_npub}
use hermes_vector_platform.Env.{text_or}
use hermes_vector_platform.Recent.{is_duplicate}
use hermes_vector_platform.Groups.{npub_or_text}
use hermes_vector_platform.Adapter.{
  Adapter, World, Source, Saved, MessageType, photo, video, audio, voice, document,
  inbox_breadcrumb,
}
use hermes_vector_platform.Adapter
use hermes_vector_platform.Adapter.Act.{Act, pure, ◌>>=◌, ◌>>◌, gets, modify, skip, emit}
use hermes_vector_platform.Adapter.Labels.{peer_label, group_label_cached, record_last_inbound}
use hermes_vector_platform.Adapter.Outbound.{send}

-- `str(msg_data.get(key) or "")`
abbrev pub text_field : Text → Value → Text
text_field key msg = text_of (get key msg)

-- `text or None`
abbrev pub or_none : Text → Option Text
or_none t = if nonempty t then some t else none

-- `v == text`
abbrev pub is_text : Value → Text → Bool
is_text (str t) text = text_eq t text
is_text v text = false

-- The event behind its envelope.
unfoldable pub unwrap : Text → Value → Value
unwrap kind msg =
    if is_obj msg && (is_text (get (codes "type") msg) kind && has (codes "data") msg)
    then get (codes "data") msg
    else msg

abbrev pub attachments_of : Value → List Value
attachments_of msg = items_of (get (codes "attachments") msg)

unfoldable pub is_file : Value → Bool
is_file msg = truthy (get (codes "is_file") msg) || nonempty (attachments_of msg)

unfoldable pub has_caption : Value → Bool
has_caption msg = nonempty (strip (text_field (codes "text") msg))

-- `not text.strip() and not is_file`
unfoldable pub is_empty : Value → Bool
is_empty msg = not (has_caption msg) && not (is_file msg)

-- `is_file and not text.strip()`
unfoldable pub is_bare_file : Value → Bool
is_bare_file msg = is_file msg && not (has_caption msg)

abbrev pub msg_id : Value → Text
msg_id msg = text_field (codes "id") msg

-- The peer of a DM, by its key or else by the chat.
abbrev pub direct_peer : Value → Text
direct_peer msg =
    npub_or_text (or_else (text_field (codes "npub") msg) (text_field (codes "chat_id") msg))

abbrev pub reply_to_text : Value → Value
reply_to_text msg = let v = get (codes "reply_to_text") msg in if truthy v then v else null

unfoldable pub is_superseded_replay : Value → Bool
is_superseded_replay msg =
    is_obj msg && (truthy (get (codes "replayed") msg) && truthy (get (codes "superseded") msg))

-- `_is_duplicate` on the adapter's ids
unfoldable pub check_duplicate : Text → Act Bool
check_duplicate id s =
    let (dup, ids) = is_duplicate id s.inbound_ids in (dup, record s { inbound_ids = ids })

-- `if msg_id: self._record_last_inbound(chat, msg_id)`
unfoldable pub note_inbound : World → Text → Text → Act (Unit {0})
note_inbound w chat_id id = if nonempty id then record_last_inbound w chat_id id else skip

unfoldable pub message_type_for_mime : Text → MessageType
message_type_for_mime mime =
    let m = lower mime in
    if starts_with m (codes "image/")
    then photo
    else if starts_with m (codes "video/")
    then video
    else if starts_with m (codes "audio/")
    then (if mem m (codes "audio/ogg" ∷ codes "audio/opus" ∷ codes "audio/ogg; codecs=opus" ∷ [])
        then voice
        else audio)
    else document

-- `MessageType.TEXT`, or the type of the first file.
unfoldable pub type_of_media : List Text → MessageType
type_of_media [] = Adapter.text
type_of_media (mime ∷ mimes) = message_type_for_mime mime

-- The paths and types of the files of a turn.
abbrev pub Media : Type 0
Media = List Text × List Text

unfoldable pub media_of_saved : World → List Saved → Media
media_of_saved w saved = (map w.turn_path saved, map (λ f. f.mime) saved)

abbrev waiting : Text → Adapter → List (Text × Text)
waiting key s = elim (lookup key s.pending_inbox) [ none ↦ [] | some files ↦ files ]

abbrev clear_pending : Text → Act (Unit {0})
clear_pending key = modify (λ s. record s { pending_inbox = pop key s.pending_inbox })

-- A caption takes the files that wait for it; the third value of the source is `type_of_media`.
unfoldable pub media_for_event : World → Text → List Saved → Bool → Act Media
media_for_event w key [] is_file = do
  files ← gets (waiting key)
  if is_file
      then pure ([], [])
      else (do clear_pending key; pure (map (λ f. f.0) files, map (λ f. f.1) files))
media_for_event w key (f ∷ fs) is_file = do clear_pending key; pure (media_of_saved w (f ∷ fs))

unfoldable pub enqueue : World → List (Text × Text) → List Saved → List (Text × Text)
enqueue w pending [] = pending
enqueue w pending (f ∷ fs) =
    let seen = any (λ p. text_eq p.0 (w.turn_path f)) pending in
    enqueue w (if seen then pending else pending ++ ((w.turn_path f, f.mime) ∷ [])) fs

unfoldable pub queue_pending_inbox : World → Text → List Saved → Act (Unit {0})
queue_pending_inbox w key saved =
    modify
      (λ s. record s { pending_inbox = put key (enqueue w (waiting key s) saved) s.pending_inbox })

unfoldable pub write_inbox_breadcrumb : Source → List Saved → Act (Unit {0})
write_inbox_breadcrumb source [] = skip
write_inbox_breadcrumb source (f ∷ fs) = emit (inbox_breadcrumb source (f ∷ fs))

-- `path.name`, without its prefix up to the first dash
unfoldable pub shown_name : Saved → Text
shown_name f =
    let name = text_or (get_last? (split_on b'/' f.path)) [] in
    if contains (codes "-") name then join (codes "-") (drop 1 (split_on b'-' name)) else name

unfoldable pub ack_body : List Saved → Text
ack_body [] = codes "couldn't save attachment"
ack_body (f ∷ []) = codes "saved " ++ shown_name f
ack_body (f ∷ g ∷ fs) =
    let n = length (f ∷ g ∷ fs) in
    codes "saved "
    ++ (digits_of (1 + n) n
        ++ (codes " files: " ++ join (codes ", ") (map shown_name (f ∷ g ∷ fs))))

unfoldable pub ack_file_only : World → Text → List Saved → Act (Unit {0})
ack_file_only w chat_id saved = do sent ← send w chat_id (ack_body saved) none; skip

unfoldable pub direct_source : Adapter → Text → Text → Source
direct_source s peer id = record {
  chat_id = peer;
  chat_name = peer_label s peer;
  chat_type = codes "dm";
  user_id = peer;
  user_name = peer_label s peer;
  message_id = or_none id;
  parent_chat_id = none;
  role_authorized = false;
}

unfoldable pub group_source : Adapter → Text → Text → Text → Option Text → Source
group_source s channel_id peer id community_id = record {
  chat_id = channel_id;
  chat_name = group_label_cached s channel_id community_id;
  chat_type = codes "group";
  user_id = peer;
  user_name = peer_label s peer;
  message_id = or_none id;
  parent_chat_id = community_id;
  role_authorized = true;
}
