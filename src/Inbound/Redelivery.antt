-- ===== src/Inbound/Redelivery.antt =====
-- A message that the sidecar delivers twice: the handlers keep its id, and the id stops the second
-- delivery.
mod Seen
use hermes_vector_platform.Prelude.{
  Text, ◌≡◌, refl, some, List, [], ◌∷◌, Bool, true, false, codes, nonempty, mem, if◌then◌else◌,
}
use hermes_vector_platform.Prelude.Values.{Value}
use hermes_vector_platform.Adapter.{Adapter, World, Effect, Event, Source, Saved}
use hermes_vector_platform.Adapter.Act.{
  Act, HasTurns, AreTurns, turns, emit, Keeps, Holds, Notes, keeps, Keeps-skip, Keeps-bind,
  Keeps-gets, Keeps-if, ◌>>=◌, skip,
}
use hermes_vector_platform.Bech32.{normalize_channel_id}
use hermes_vector_platform.Recent.{is_duplicate, inbound_dedup_max}
use hermes_vector_platform.Recent.Window.{IsWindow, now_seen}
use hermes_vector_platform.Groups.{group_sender_is_authorized}
use hermes_vector_platform.Inbound.{
  text_field, is_bare_file, is_empty, has_caption, msg_id, direct_peer, is_superseded_replay,
  check_duplicate,
}
use hermes_vector_platform.Inbound.Direct.{
  direct_message, direct_from, direct_commands, direct_turn, direct_saved, direct_start, file_only,
}
use hermes_vector_platform.Inbound.Channel.{
  has_files, group_peer, group_message, group_from, group_gate, group_turn, group_saved,
  group_start, in_channel, handle_group_message,
}
use hermes_vector_platform.Inbound.NoTurn.{is_blocked-Keeps, try_block_command-Keeps}
use hermes_vector_platform.Inbound.NoTurn.Rooms.{
  notify_joined_channels-Keeps, remember_channel-Keeps, try_invite_command-Keeps,
  note_inbound-Keeps, ack_file_only-Keeps, write_inbox_breadcrumb-Keeps, queue_pending_inbox-Keeps,
}
use hermes_vector_platform.Inbound.NoTurn.Files.{
  media_for_event-Keeps, save_direct-Keeps, group_context-Keeps, group_files-Keeps,
  group_stash-Keeps,
}
use hermes_vector_platform.Inbound.Redelivery.Seen.{IsSeen, direct_from-Keeps, group_from-Keeps}

-- The id was seen, and the turns are the given ones.
abbrev IsSeenAfter : Text → List Event → Notes → Type 0
IsSeenAfter id events n = (mem id n.1 ≡ true) × (n.0 ≡ events)

-- The ids are a window.
abbrev IsKept : Notes → Type 0
IsKept n = IsWindow inbound_dedup_max n.1

-- Where `P` holds before `m`, `R` holds after it.
record Leads {ℓ} {A : Type ℓ} (P R : Adapter → Type 0) (m : Act A) : Type ℓ where
  pub at : (s : Adapter) → P s → R (m s).1

Leads-bind {ℓ κ} :
    {A : Type ℓ} {B : Type κ} {P R : Adapter → Type 0} (m : Act A) (f : A → Act B)
    → Keeps P m
    → ((a : A) → Leads P R (f a))
    → Leads P R (m >>= f)
Leads-bind m f p q = record { at = λ s h. unfold ◌>>=◌ in (q (m s).0).at (m s).1 (p.at s h) }

-- What follows the check of an id finds the id noted.
check_duplicate-Leads {ℓ} :
    {B : Type ℓ} (id : Text) (f : Bool → Act B)
    → nonempty id ≡ true
    → ((duplicate : Bool) → Keeps (Holds (IsSeen id)) (f duplicate))
    → Leads (Holds IsKept) (Holds (IsSeen id)) (check_duplicate id >>= f)
check_duplicate-Leads id f named rest = record {
  at = λ s kept.
      let noted : Holds (IsSeen id) (check_duplicate id s).1 =
        unfold check_duplicate Holds in now_seen id s.inbound_ids kept named in
      unfold ◌>>=◌ in (rest (check_duplicate id s).0).at (check_duplicate id s).1 noted;
}

-- An id that is noted stops the handler.
check_duplicate-stops :
    (id : Text) (events : List Event) (m : Act (Unit {0}))
    → nonempty id ≡ true
    → Leads
        (Holds (IsSeenAfter id events))
        (HasTurns events)
        (check_duplicate id >>= λ duplicate. if duplicate then skip else m)
check_duplicate-stops id events m named = record {
  at = λ s h. unfold ◌>>=◌ check_duplicate is_duplicate skip Holds in rw (named, h.0) h.1;
}

module _ (w : World) (msg : Value) (named : nonempty (msg_id msg) ≡ true) where
  direct_message-Leads : Leads (Holds IsKept) (Holds (IsSeen (msg_id msg))) (direct_message w msg)
  unfolding direct_message
  direct_message-Leads = check_duplicate-Leads (msg_id msg) _ named λ duplicate.
      Keeps-if duplicate _ _ Keeps-skip (
        Keeps-if (is_empty msg) _ _ Keeps-skip (
          Keeps-if (nonempty (direct_peer msg)) _ _
            (direct_from-Keeps (msg_id msg) w msg (direct_peer msg)) Keeps-skip))

  direct_message-stops :
      (events : List Event)
      → Leads (Holds (IsSeenAfter (msg_id msg) events)) (HasTurns events) (direct_message w msg)
  unfolding direct_message
  direct_message-stops events = check_duplicate-stops (msg_id msg) events _ named

  module _ (channel_id : Text) where
    in_channel-after :
        (P R : Notes → Type 0)
        → Leads (Holds P) (Holds R) (group_message w channel_id msg)
        → Leads (Holds P) (Holds R) (in_channel w msg (some channel_id))
    unfolding in_channel
    in_channel-after P R last =
        Leads-bind _ _ (remember_channel-Keeps P w _)
          λ _. Leads-bind _ _ (notify_joined_channels-Keeps P w _ _ _) λ _. last

    group_message-Leads :
        Leads (Holds IsKept) (Holds (IsSeen (msg_id msg))) (group_message w channel_id msg)
    unfolding group_message
    group_message-Leads = check_duplicate-Leads (msg_id msg) _ named λ duplicate.
        Keeps-if duplicate _ _ Keeps-skip (
          Keeps-if (is_empty msg) _ _ Keeps-skip (
            Keeps-if (nonempty (group_peer msg)) _ _
              (group_from-Keeps (msg_id msg) w msg channel_id (group_peer msg)) Keeps-skip))

    group_message-stops :
        (events : List Event)
        → Leads
            (Holds (IsSeenAfter (msg_id msg) events))
            (HasTurns events)
            (group_message w channel_id msg)
    unfolding group_message
    group_message-stops events = check_duplicate-stops (msg_id msg) events _ named

-- A DM that is delivered again, with the same id and whatever else it then holds, starts no agent
-- turn, if its id is not empty and the ids that were seen before were a window (at most 1024, none
-- of them twice).
pub redelivered_direct_message :
    (w : World) (msg again : Value) (s : Adapter)
    → nonempty (msg_id msg) ≡ true
    → msg_id again ≡ msg_id msg
    → IsWindow inbound_dedup_max s.inbound_ids
    → let s1 = (direct_message w msg s).1 in
      turns (direct_message w again s1).1.trace ≡ turns s1.trace
unfolding Holds
redelivered_direct_message w msg again s named same kept =
    let s1 = (direct_message w msg s).1 in
    let seen : mem (msg_id again) s1.inbound_ids ≡ true =
      rw same ((direct_message-Leads w msg named).at s kept) in
    (direct_message-stops w again (rw same named) (turns s1.trace)).at s1 (seen, refl)

-- A message in a channel that is delivered again, with the same id and channel and whatever else it
-- then holds, starts no agent turn, if its id is not empty and the ids that were seen before were a
-- window (at most 1024, none of them twice).
pub redelivered_group_message :
    (w : World) (msg again : Value) (s : Adapter) (channel_id : Text)
    → nonempty (msg_id msg) ≡ true
    → msg_id again ≡ msg_id msg
    → normalize_channel_id (text_field (codes "chat_id") msg) ≡ some channel_id
    → normalize_channel_id (text_field (codes "chat_id") again) ≡ some channel_id
    → IsWindow inbound_dedup_max s.inbound_ids
    → let s1 = (handle_group_message w msg s).1 in
      turns (handle_group_message w again s1).1.trace ≡ turns s1.trace
unfolding Holds handle_group_message
redelivered_group_message w msg again s channel_id named same here there kept =
    let s1 = (in_channel w msg (some channel_id) s).1 in
    let seen : mem (msg_id again) s1.inbound_ids ≡ true = rw same (
      (in_channel-after w msg named channel_id IsKept (IsSeen (msg_id msg))
          (group_message-Leads w msg named channel_id)).at
        s kept) in
    let id : nonempty (msg_id again) ≡ true = rw same named in
    rw (here, there)
      ((in_channel-after w again id channel_id (IsSeenAfter (msg_id again) (turns s1.trace))
          (AreTurns (turns s1.trace))
          (group_message-stops w again id channel_id (turns s1.trace))).at
        s1 (seen, refl))
