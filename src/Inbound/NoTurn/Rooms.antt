-- ===== src/Inbound/NoTurn/Rooms.antt =====
-- The methods of adapter.py for channels and invites, and the notes that a handler takes, start no
-- turn.
use hermes_vector_platform.Prelude.{Text, refl, Option, none, some, List, [], ◌∷◌, Bool, ℕ}
use hermes_vector_platform.Prelude.Dicts.{Dict}
use hermes_vector_platform.Prelude.Values.{Value}
use hermes_vector_platform.Adapter.{Adapter, World, Event, Source, Saved}
use hermes_vector_platform.Adapter.Act.{
  turns, modify, Keeps, Holds, Notes, HasTurns, keeps, Keeps-bind, Keeps-gets, Keeps-skip,
  Keeps-modify, Keeps-emit,
}
use hermes_vector_platform.Adapter.Labels.{remember_group_room, record_last_inbound}
use hermes_vector_platform.Adapter.Rooms.{
  Room, remember_rooms, ingest_joined_channels, mark_channels_notified, announced, announce,
  notify_joined_channels,
}
use hermes_vector_platform.Adapter.Invites.{
  accept_invite, decline_invite, list_pending_invites, joined, join_reply, invite_target,
  run_invite_command, try_invite_command,
}
use hermes_vector_platform.Inbound.{
  check_duplicate, note_inbound, ack_file_only, write_inbox_breadcrumb, queue_pending_inbox,
}
use hermes_vector_platform.Inbound.NoTurn.{send-Keeps, reply_to_command-Keeps}

module _ (Q : Notes → Type 0) (w : World) where
  pub remember_group_room-Keeps :
      (community_id channel_id community_name channel_name : Text)
      → Keeps (Holds Q) (remember_group_room community_id channel_id community_name channel_name)
  unfolding remember_group_room
  remember_group_room-Keeps community_id channel_id community_name channel_name =
      Keeps-modify Q _ (λ s. refl)

  pub remember_channel-Keeps :
      (f : Adapter → List Text)
      → Keeps (Holds Q) (modify (λ s. record s { known_channel_ids = f s }))
  remember_channel-Keeps f = Keeps-modify Q _ (λ s. refl)

  pub remember_name-Keeps :
      (f : Adapter → Dict) → Keeps (Holds Q) (modify (λ s. record s { community_names = f s }))
  remember_name-Keeps f = Keeps-modify Q _ (λ s. refl)

  remember_rooms-Keeps :
      (community_id comm_name : Text) (rooms : List Room)
      → Keeps (Holds Q) (remember_rooms community_id comm_name rooms)
  unfolding remember_rooms
  remember_rooms-Keeps community_id comm_name [] = search (keeps)
  remember_rooms-Keeps community_id comm_name (room ∷ rooms) =
      Keeps-bind _ _ (remember_channel-Keeps _) λ _.
        Keeps-bind _ _ (remember_group_room-Keeps _ _ _ _)
          λ _. remember_rooms-Keeps community_id comm_name rooms

  ingest_joined_channels-Keeps :
      (community_id : Text) (channels : List Value) (community_name : Text)
      → Keeps (Holds Q) (ingest_joined_channels community_id channels community_name)
  unfolding ingest_joined_channels
  ingest_joined_channels-Keeps community_id channels community_name =
      search (keeps, remember_rooms-Keeps, remember_name-Keeps) depth 9

  mark_channels_notified-Keeps : (ids : List Text) → Keeps (Holds Q) (mark_channels_notified ids)
  unfolding mark_channels_notified turns
  mark_channels_notified-Keeps ids =
      Keeps-bind _ _ (Keeps-modify Q _ (λ s. refl))
        λ _. Keeps-bind _ _ (Keeps-gets _) λ notified. Keeps-emit Q _ (λ es. refl)

  announced-Keeps :
      (community_id comm_name : Text) (room : Room) (rooms : List Room) (o : Option Text)
      → Keeps (Holds Q) (announced w community_id comm_name room rooms o)
  unfolding announced
  announced-Keeps community_id comm_name room rooms none = mark_channels_notified-Keeps _
  announced-Keeps community_id comm_name room rooms (some home) =
      search (keeps, mark_channels_notified-Keeps, send-Keeps) depth 9

  announce-Keeps :
      (community_id comm_name : Text) (rooms : List Room)
      → Keeps (Holds Q) (announce w community_id comm_name rooms)
  unfolding announce
  announce-Keeps community_id comm_name [] = search (keeps)
  announce-Keeps community_id comm_name (room ∷ rooms) = announced-Keeps _ _ _ _ _

  pub notify_joined_channels-Keeps :
      (community_id : Text) (channels : List Value) (community_name : Text)
      → Keeps (Holds Q) (notify_joined_channels w community_id channels community_name)
  unfolding notify_joined_channels
  notify_joined_channels-Keeps community_id channels community_name =
      search (keeps, ingest_joined_channels-Keeps, announce-Keeps) depth 9

  accept_invite-Keeps : (cid : Text) → Keeps (Holds Q) (accept_invite w cid)
  unfolding accept_invite
  accept_invite-Keeps cid = search (keeps)

  decline_invite-Keeps : (cid : Text) → Keeps (Holds Q) (decline_invite w cid)
  unfolding decline_invite
  decline_invite-Keeps cid = search (keeps)

  list_pending_invites-Keeps : Keeps (Holds Q) (list_pending_invites w)
  unfolding list_pending_invites
  list_pending_invites-Keeps = search (keeps)

  joined-Keeps :
      (peer community_id name : Text) (rooms : List Room)
      → Keeps (Holds Q) (joined w peer community_id name rooms)
  unfolding joined
  joined-Keeps peer community_id name [] = search (keeps, reply_to_command-Keeps)
  joined-Keeps peer community_id name (room ∷ rooms) =
      search (keeps, reply_to_command-Keeps, mark_channels_notified-Keeps)

  join_reply-Keeps :
      (peer cid : Text) (body : Option Value) → Keeps (Holds Q) (join_reply w peer cid body)
  unfolding join_reply
  join_reply-Keeps peer cid none = search (keeps, reply_to_command-Keeps)
  join_reply-Keeps peer cid (some body) =
      search (keeps, reply_to_command-Keeps, ingest_joined_channels-Keeps, joined-Keeps) depth 9

  invite_target-Keeps :
      (peer cmd : Text) (o : Option Text) → Keeps (Holds Q) (invite_target w peer cmd o)
  unfolding invite_target
  invite_target-Keeps peer cmd none = search (keeps, reply_to_command-Keeps)
  invite_target-Keeps peer cmd (some cid) =
      search
        (keeps, reply_to_command-Keeps, accept_invite-Keeps, decline_invite-Keeps, join_reply-Keeps)
        depth 9

  run_invite_command-Keeps :
      (peer : Text) (parsed : Option (Text × Text))
      → Keeps (Holds Q) (run_invite_command w peer parsed)
  unfolding run_invite_command
  run_invite_command-Keeps peer none = search (keeps)
  run_invite_command-Keeps peer (some (cmd, arg)) =
      search (keeps, list_pending_invites-Keeps, reply_to_command-Keeps, invite_target-Keeps) depth
        9

  pub try_invite_command-Keeps :
      (same_letter : ℕ → ℕ → Bool) (peer text : Text)
      → Keeps (Holds Q) (try_invite_command same_letter w peer text)
  unfolding try_invite_command
  try_invite_command-Keeps same_letter peer text = search (keeps, run_invite_command-Keeps)

  -- The notes of the handlers.
  record_last_inbound-Keeps :
      (chat_id id : Text) → Keeps (Holds Q) (record_last_inbound w chat_id id)
  unfolding record_last_inbound
  record_last_inbound-Keeps chat_id id = Keeps-modify Q _ (λ s. refl)

  pub note_inbound-Keeps : (chat_id id : Text) → Keeps (Holds Q) (note_inbound w chat_id id)
  unfolding note_inbound
  note_inbound-Keeps chat_id id = search (keeps, record_last_inbound-Keeps)

  pub ack_file_only-Keeps :
      (chat_id : Text) (saved : List Saved) → Keeps (Holds Q) (ack_file_only w chat_id saved)
  unfolding ack_file_only
  ack_file_only-Keeps chat_id saved = search (keeps, send-Keeps)

  pub write_inbox_breadcrumb-Keeps :
      (source : Source) (saved : List Saved) → Keeps (Holds Q) (write_inbox_breadcrumb source saved)
  unfolding write_inbox_breadcrumb turns
  write_inbox_breadcrumb-Keeps source [] = Keeps-skip
  write_inbox_breadcrumb-Keeps source (f ∷ fs) = Keeps-emit Q _ (λ es. refl)

  pub queue_pending_inbox-Keeps :
      (key : Text) (saved : List Saved) → Keeps (Holds Q) (queue_pending_inbox w key saved)
  unfolding queue_pending_inbox
  queue_pending_inbox-Keeps key saved = Keeps-modify Q _ (λ s. refl)

pub check_duplicate-Keeps :
    (events : List Event) (id : Text) → Keeps (HasTurns events) (check_duplicate id)
check_duplicate-Keeps events id = record { at = λ s h. unfold check_duplicate Holds in h }
