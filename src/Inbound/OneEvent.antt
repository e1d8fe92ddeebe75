-- ===== src/Inbound/OneEvent.antt =====
-- One event of the sidecar, of any kind, starts at most one agent turn: `_dispatch_sse_event`.
use hermes_vector_platform.Prelude.{
  Text, refl, inl, inr, Option, none, some, List, [], ◌∷◌, not, ◌&&◌, or_else, codes, nonempty,
}
use hermes_vector_platform.Prelude.Values.{Value, get, truthy, items_of, is_obj}
use hermes_vector_platform.Adapter.{Adapter, World, Event}
use hermes_vector_platform.Adapter.Act.{
  Act, modify, turns, Keeps, HasTurns, AreTurns, Holds, keeps, Keeps-skip, Keeps-bind, Keeps-emit,
  Keeps-modify, Keeps-if,
}
use hermes_vector_platform.Adapter.Labels.{forget_last_inbound}
use hermes_vector_platform.Adapter.Outbound.{mark_seen}
use hermes_vector_platform.Adapter.Sync.{
  note_channel, note_channels, sync_community, sync_communities, synced, sync_joined_channels,
}
use hermes_vector_platform.Inbound.{msg_id, direct_peer, text_field, is_text}
use hermes_vector_platform.Inbound.Channel.{in_channel, handle_group_message}
use hermes_vector_platform.Inbound.Updates.{
  received, handle_message_event, remember_reactions, reaction_turn, reaction, last_reaction,
  updated, handle_message_update, unlink_channel_file, deleted, handle_message_delete, ready,
  community_joined, dispatch_sse_event,
}
use hermes_vector_platform.Inbound.NoTurn.Rooms.{
  remember_channel-Keeps, remember_name-Keeps, remember_group_room-Keeps,
  notify_joined_channels-Keeps,
}
use hermes_vector_platform.Inbound.OneTurn.{
  OneMore, One, One-Keeps, One-if, one, direct_message-One, in_channel-One,
}

-- A turn for anyone.
abbrev pub Anyone : Event → Type 0
Anyone event = Unit {0}

One-Anyone {ℓ} :
    {A : Type ℓ} {Q : Event → Type 0} {events : List Event} (m : Act A)
    → One Q events m
    → One Anyone events m
One-Anyone m o = record {
  at = λ s h. elim (o.at s h) [ inl same ↦ inl same | inr more ↦ inr (more.0, more.1, tt) ];
}

module _ (events : List Event) (w : World) where
  note_channel-Keeps :
      (community_id community_name : Text) (ch : Value) (o : Option Text)
      → Keeps (HasTurns events) (note_channel community_id community_name ch o)
  unfolding note_channel
  note_channel-Keeps community_id community_name ch none = search (keeps)
  note_channel-Keeps community_id community_name ch (some cid) =
      Keeps-bind _ _ (remember_channel-Keeps (AreTurns events) w _) λ _.
        Keeps-bind _ _ (remember_group_room-Keeps (AreTurns events) w _ _ _ _) λ _. search (keeps)

  note_channels-Keeps :
      (community_id community_name : Text) (channels : List Value)
      → Keeps (HasTurns events) (note_channels community_id community_name channels)
  unfolding note_channels
  note_channels-Keeps community_id community_name [] = search (keeps)
  note_channels-Keeps community_id community_name (ch ∷ more) =
      let rest = note_channels-Keeps community_id community_name more in
      Keeps-if (is_obj ch) _ _
        (Keeps-bind _ _ (note_channel-Keeps community_id community_name ch _)
          λ row. Keeps-bind _ _ rest λ rows. search (keeps))
        rest

  sync_community-Keeps : (community : Value) → Keeps (HasTurns events) (sync_community w community)
  unfolding sync_community
  sync_community-Keeps community =
      search
        (
          keeps,
          remember_name-Keeps (AreTurns events) w,
          note_channels-Keeps,
          notify_joined_channels-Keeps,
        )
        depth 12

  sync_communities-Keeps : (rows : List Value) → Keeps (HasTurns events) (sync_communities w rows)
  unfolding sync_communities
  sync_communities-Keeps [] = search (keeps)
  sync_communities-Keeps (community ∷ more) =
      Keeps-bind _ _ (sync_community-Keeps community) λ _. sync_communities-Keeps more

  synced-Keeps : (body : Option Value) → Keeps (HasTurns events) (synced w body)
  unfolding synced
  synced-Keeps none = search (keeps)
  synced-Keeps (some body) = sync_communities-Keeps _

  sync_joined_channels-Keeps : Keeps (HasTurns events) (sync_joined_channels w)
  unfolding sync_joined_channels
  sync_joined_channels-Keeps = search (keeps, synced-Keeps)

  remember_reactions-Keeps : (rows : List Value) → Keeps (HasTurns events) (remember_reactions rows)
  unfolding remember_reactions
  remember_reactions-Keeps [] = search (keeps)
  remember_reactions-Keeps (row ∷ rows) =
      Keeps-bind _ _
        (Keeps-if (nonempty (text_field (codes "id") row)) _ _
          (Keeps-modify (AreTurns events) _ (λ s. refl)) Keeps-skip)
        λ _. remember_reactions-Keeps rows

  reaction-One :
      (msg : Value) (peer : Text) (rows : List Value) (last : Value)
      → One Anyone events (reaction w msg peer rows last)
  unfolding reaction reaction_turn
  reaction-One msg peer rows last = search (one, keeps, remember_reactions-Keeps) depth 14

  last_reaction-One :
      (msg : Value) (peer : Text) (rows : List Value) (o : Option Value)
      → One Anyone events (last_reaction w msg peer rows o)
  unfolding last_reaction
  last_reaction-One msg peer rows none = One-Keeps _ Keeps-skip
  last_reaction-One msg peer rows (some last) =
      One-if (is_obj last) _ _ (reaction-One msg peer rows last) (One-Keeps _ Keeps-skip)

  updated-One : (msg : Value) → One Anyone events (updated w msg)
  unfolding updated
  updated-One msg =
      One-if (is_obj msg && (nonempty (direct_peer msg) && nonempty (msg_id msg))) _ _
        (last_reaction-One msg _ _ _) (One-Keeps _ Keeps-skip)

  unlink_channel_file-Keeps :
      (id : Text) (o : Option Text) → Keeps (HasTurns events) (unlink_channel_file id o)
  unfolding unlink_channel_file turns
  unlink_channel_file-Keeps id none = Keeps-skip
  unlink_channel_file-Keeps id (some channel) =
      Keeps-if (nonempty id) _ _ (Keeps-emit (AreTurns events) _ (λ es. refl)) Keeps-skip

  mark_seen-Keeps : (id : Text) → Keeps (HasTurns events) (mark_seen id)
  mark_seen-Keeps id = record { at = λ s h. unfold mark_seen modify Holds in h }

  forget_last_inbound-Keeps :
      (chat_id id : Text) → Keeps (HasTurns events) (forget_last_inbound w chat_id id)
  unfolding forget_last_inbound
  forget_last_inbound-Keeps chat_id id = Keeps-modify (AreTurns events) _ (λ s. refl)

  deleted-Keeps : (msg : Value) → Keeps (HasTurns events) (deleted w msg)
  unfolding deleted turns
  deleted-Keeps msg =
      let id = or_else (msg_id msg) (text_field (codes "message_id") msg) in
      Keeps-if (is_obj msg) _ _
        (Keeps-bind _ _ (mark_seen-Keeps id) λ _.
          Keeps-bind _ _ (forget_last_inbound-Keeps _ id) λ _.
            Keeps-bind _ _
              (Keeps-if (nonempty id) _ _ (Keeps-emit (AreTurns events) _ (λ es. refl)) Keeps-skip)
              λ _. unlink_channel_file-Keeps id _)
        Keeps-skip

  ready-Keeps : (inner : Value) → Keeps (HasTurns events) (ready inner)
  unfolding ready
  ready-Keeps inner =
      Keeps-if (nonempty (text_field (codes "npub") inner)) _ _
        (Keeps-modify (AreTurns events) _ (λ s. refl)) Keeps-skip

  community_joined-Keeps : (inner : Value) → Keeps (HasTurns events) (community_joined w inner)
  unfolding community_joined
  community_joined-Keeps inner =
      Keeps-if (nonempty (items_of (get (codes "channels") inner))) _ _
        (notify_joined_channels-Keeps (AreTurns events) w _ _ _)
        (Keeps-if (nonempty (text_field (codes "community_id") inner)) _ _
          sync_joined_channels-Keeps Keeps-skip)

  any_channel-One : (msg : Value) (o : Option Text) → One Anyone events (in_channel w msg o)
  unfolding in_channel
  any_channel-One msg none = One-Keeps _ Keeps-skip
  any_channel-One msg (some channel_id) =
      One-Anyone _ (unfold in_channel in in_channel-One events w channel_id msg)

  received-One : (msg : Value) → One Anyone events (received w msg)
  unfolding received handle_group_message
  received-One msg =
      One-if (is_obj msg && not (truthy (get (codes "is_mine") msg))) _ _
        (One-if (truthy (get (codes "is_group") msg)) _ _ (any_channel-One msg _)
          (One-Anyone _ (direct_message-One events w msg)))
        (One-Keeps _ Keeps-skip)

  dispatch_sse_event-One : (msg : Value) → One Anyone events (dispatch_sse_event w msg)
  unfolding dispatch_sse_event handle_message_event handle_message_update handle_message_delete
  dispatch_sse_event-One msg =
      let kind = get (codes "type") msg in
      One-if (is_text kind (codes "ready")) _ _ (One-Keeps _ (ready-Keeps _)) (
        One-if (is_text kind (codes "message")) _ _ (received-One _) (
          One-if (is_text kind (codes "message_update")) _ _ (updated-One _) (
            One-if (is_text kind (codes "message_delete")) _ _ (One-Keeps _ (deleted-Keeps _)) (
              One-if (is_text kind (codes "community_joined")) _ _
                (One-Keeps _ (community_joined-Keeps _)) (One-Keeps _ Keeps-skip)))))

-- An event of the sidecar, of any kind and with any content, starts at most one agent turn.
pub event_starts_one_turn :
    (w : World) (msg : Value) (s : Adapter)
    → OneMore Anyone (turns s.trace) (turns (dispatch_sse_event w msg s).1.trace)
event_starts_one_turn w msg s = (dispatch_sse_event-One (turns s.trace) w msg).at s refl
