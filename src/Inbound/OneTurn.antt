-- ===== src/Inbound/OneTurn.antt =====
-- One event of the sidecar starts at most one agent turn, and for whom.
use hermes_vector_platform.Prelude.{
  Text, ◌≡◌, refl, ap, ◌⊎◌, inl, inr, some, List, ◌∷◌, Bool, true, false, codes, nonempty,
  if◌then◌else◌,
}
use hermes_vector_platform.Prelude.Values.{Value}
use hermes_vector_platform.Adapter.{Adapter, World, Event, Source, Saved, turn}
use hermes_vector_platform.Adapter.Act.{
  Act, ◌>>=◌, gets, turns, emit, Keeps, HasTurns, AreTurns, Holds, keeps, Keeps-skip, Keeps-gets,
  Keeps-emit,
}
use hermes_vector_platform.Inbound.NoTurn.Files.{
  media_for_event-Keeps, save_direct-Keeps, group_context-Keeps, group_files-Keeps,
  group_stash-Keeps,
}
use hermes_vector_platform.Adapter.Act.{skip}
use hermes_vector_platform.Bech32.{normalize_channel_id}
use hermes_vector_platform.Groups.{group_sender_is_authorized}
use hermes_vector_platform.Inbound.{
  text_field, is_bare_file, is_empty, has_caption, msg_id, direct_peer, is_superseded_replay,
  direct_source, group_source,
}
use hermes_vector_platform.Inbound.Direct.{
  direct_message, direct_from, direct_commands, direct_turn, direct_saved, direct_start, file_only,
  direct_event, pairing_event,
}
use hermes_vector_platform.Inbound.Channel.{
  has_files, group_peer, group_message, group_from, group_gate, group_turn, group_saved,
  group_start, group_event, in_channel, handle_group_message,
}
use hermes_vector_platform.Inbound.NoTurn.{is_blocked-Keeps, try_block_command-Keeps}
use hermes_vector_platform.Inbound.NoTurn.Rooms.{
  notify_joined_channels-Keeps, remember_channel-Keeps, try_invite_command-Keeps,
  check_duplicate-Keeps, note_inbound-Keeps, ack_file_only-Keeps, write_inbox_breadcrumb-Keeps,
  queue_pending_inbox-Keeps,
}

-- The turns after a step: those before, or one more with the property.
abbrev pub OneMore : (Event → Type 0) → List Event → List Event → Type 0
OneMore Q before after = (after ≡ before) ⊎ ((event : Event) × (after ≡ event ∷ before) × Q event)

pub record One {ℓ} {A : Type ℓ} (Q : Event → Type 0) (events : List Event) (m : Act A)
    : Type ℓ where
  pub at : (s : Adapter) → turns s.trace ≡ events → OneMore Q events (turns (m s).1.trace)

module _ {ℓ} {A : Type ℓ} {Q : Event → Type 0} {events : List Event} where
  pub One-Keeps : (m : Act A) → Keeps (HasTurns events) m → One Q events m
  One-Keeps m k = record { at = λ s h. inl (unfold Holds in k.at s h) }

  pub One-if :
      (b : Bool) (m n : Act A) → One Q events m → One Q events n → One Q events (if b then m else n)
  One-if true m n p q = p
  One-if false m n p q = q

module _ {ℓ κ} {A : Type ℓ} {B : Type κ} {Q : Event → Type 0} {events : List Event} where
  pub One-bind :
      (m : Act A) (f : A → Act B)
      → Keeps (HasTurns events) m
      → ((a : A) → One Q events (f a))
      → One Q events (m >>= f)
  One-bind m f p q = record {
    at = λ s h. unfold ◌>>=◌ in (q (m s).0).at (m s).1 (unfold Holds in p.at s h);
  }

-- What is read from the state is known.
pub One-read {ℓ κ} :
    {A : Type ℓ} {B : Type κ} {Q : Event → Type 0} {events : List Event} (g : Adapter → A)
    (f : A → Act B)
    → ((s : Adapter) → One Q events (f (g s)))
    → One Q events (gets g >>= f)
One-read g f q = record { at = λ s h. unfold ◌>>=◌ gets in (q s).at s h }

pub One-turn :
    {Q : Event → Type 0} {events : List Event} (e : Event) → Q e → One Q events (emit (turn e))
One-turn e q = record {
  at = λ s h. unfold emit turns in inr (e, ap (λ (es : List Event). e ∷ es) h, q);
}

pub ruleset one = (One-if, One-bind, One-turn, One-Keeps)

-- The turn is for the peer, in its own chat.
abbrev pub IsFor : Text → Event → Type 0
IsFor peer event = (event.source.chat_id ≡ peer) × (event.source.user_id ≡ peer)

module _ (events : List Event) (w : World) (msg : Value) (peer : Text) where
  direct_start-One :
      (source : Source) (saved : List Saved)
      → source.chat_id ≡ peer
      → source.user_id ≡ peer
      → One (IsFor peer) events (direct_start w msg peer source saved)
  unfolding direct_start direct_event
  direct_start-One source saved c u =
      One-bind _ _ (media_for_event-Keeps (AreTurns events) w _ _ _) λ media. One-turn _ (c, u)

  file_only-One :
      (source : Source) (saved : List Saved)
      → source.chat_id ≡ peer
      → source.user_id ≡ peer
      → One (IsFor peer) events (file_only w msg peer source saved)
  unfolding file_only pairing_event
  file_only-One source saved c u =
      search
        (
          one,
          keeps,
          ack_file_only-Keeps,
          write_inbox_breadcrumb-Keeps (AreTurns events) w,
          queue_pending_inbox-Keeps,
          c,
          u,
        )
        depth 9

  direct_saved-One :
      (source : Source) (saved : List Saved)
      → source.chat_id ≡ peer
      → source.user_id ≡ peer
      → One (IsFor peer) events (direct_saved w msg peer source saved)
  unfolding direct_saved turns
  direct_saved-One source saved c u =
      One-if (is_bare_file msg) _ _ (file_only-One source saved c u) (
        One-if (is_superseded_replay msg) _ _
          (One-Keeps _ (Keeps-emit (AreTurns events) _ (λ es. refl)))
          (direct_start-One source saved c u))

  direct_turn-One : One (IsFor peer) events (direct_turn w msg peer)
  unfolding direct_turn direct_source
  direct_turn-One = One-bind _ _ (note_inbound-Keeps (AreTurns events) w _ _) λ _. One-read _ _ λ s.
      One-bind _ _ (save_direct-Keeps (AreTurns events) w msg peer)
        λ saved. direct_saved-One (direct_source s peer (msg_id msg)) saved refl refl

  direct_from-One : One (IsFor peer) events (direct_from w msg peer)
  unfolding direct_from direct_commands
  direct_from-One =
      search
        (
          one, keeps, is_blocked-Keeps, try_block_command-Keeps, try_invite_command-Keeps,
          note_inbound-Keeps, direct_turn-One,
        )
        depth 14

pub direct_message-One :
    (events : List Event) (w : World) (msg : Value)
    → One (IsFor (direct_peer msg)) events (direct_message w msg)
unfolding direct_message
direct_message-One events w msg = One-bind _ _ (check_duplicate-Keeps events _) λ duplicate.
    One-if duplicate _ _ (One-Keeps _ Keeps-skip) (
      One-if (is_empty msg) _ _ (One-Keeps _ Keeps-skip) (
        One-if (nonempty (direct_peer msg)) _ _ (direct_from-One events w msg (direct_peer msg))
          (One-Keeps _ Keeps-skip)))

-- A DM starts at most one agent turn, and that turn is for its sender, in the chat of the sender.
pub direct_message_starts_one_turn :
    (w : World) (msg : Value) (s : Adapter)
    → OneMore (IsFor (direct_peer msg)) (turns s.trace) (turns (direct_message w msg s).1.trace)
direct_message_starts_one_turn w msg s = (direct_message-One (turns s.trace) w msg).at s refl

-- The turn is for the sender, in the channel, and the people gate lets the sender in.
abbrev pub IsLetIn : World → Text → Text → Event → Type 0
IsLetIn w channel_id peer event =
    (event.source.chat_id ≡ channel_id)
    × (event.source.user_id ≡ peer)
    × (group_sender_is_authorized w.env peer channel_id ≡ true)

module _ (events : List Event) (w : World) (channel_id : Text) (msg : Value) where
  group_saved-One :
      (peer : Text) (source : Source) (saved : List Saved)
      → source.chat_id ≡ channel_id
      → source.user_id ≡ peer
      → group_sender_is_authorized w.env peer channel_id ≡ true
      → One (IsLetIn w channel_id peer) events (group_saved w channel_id msg source saved)
  unfolding group_saved group_start group_event turns
  group_saved-One peer source saved c u allowed = One-bind _ _ (Keeps-gets _) λ only.
      One-if only _ _ (One-Keeps _ (write_inbox_breadcrumb-Keeps (AreTurns events) w _ _)) (
        One-if (is_superseded_replay msg) _ _
          (One-Keeps _ (Keeps-emit (AreTurns events) _ (λ es. refl)))
          (One-bind _ _ (group_context-Keeps (AreTurns events) w channel_id msg)
            λ context. One-turn _ (c, u, allowed)))

  group_turn-One :
      (peer : Text)
      → group_sender_is_authorized w.env peer channel_id ≡ true
      → One (IsLetIn w channel_id peer) events (group_turn w channel_id msg peer)
  unfolding group_turn group_source
  group_turn-One peer allowed = One-bind _ _ (note_inbound-Keeps (AreTurns events) w _ _) λ _.
      One-read _ _ λ s.
        One-bind _ _ (group_files-Keeps (AreTurns events) w channel_id msg)
          λ saved. group_saved-One peer _ saved refl refl allowed

  group_gate-One :
      (peer : Text) → One (IsLetIn w channel_id peer) events (group_gate w channel_id msg peer)
  unfolding group_gate
  group_gate-One peer = One-bind _ _ (Keeps-gets _) λ addressed.
      One-if addressed _ _ (gated (group_sender_is_authorized w.env peer channel_id) refl)
        (One-Keeps _ Keeps-skip)
    where
      gated :
          (b : Bool)
          → group_sender_is_authorized w.env peer channel_id ≡ b
          → One
              (IsLetIn w channel_id peer)
              events
              (if b then group_turn w channel_id msg peer else skip)
      gated true e = group_turn-One peer e
      gated false e = One-Keeps _ Keeps-skip

  group_from-One :
      (peer : Text) → One (IsLetIn w channel_id peer) events (group_from w channel_id msg peer)
  unfolding group_from
  group_from-One peer = One-bind _ _ (Keeps-gets _) λ own. One-if own _ _ (One-Keeps _ Keeps-skip) (
      One-if (has_files msg) _ _
        (One-bind _ _ (group_stash-Keeps (AreTurns events) w msg channel_id peer)
          λ _. One-if (has_caption msg) _ _ (group_gate-One peer) (One-Keeps _ Keeps-skip))
        (group_gate-One peer))

  group_message-One :
      One (IsLetIn w channel_id (group_peer msg)) events (group_message w channel_id msg)
  unfolding group_message
  group_message-One = One-bind _ _ (check_duplicate-Keeps events _) λ duplicate.
      One-if duplicate _ _ (One-Keeps _ Keeps-skip) (
        One-if (is_empty msg) _ _ (One-Keeps _ Keeps-skip) (
          One-if (nonempty (group_peer msg)) _ _ (group_from-One (group_peer msg))
            (One-Keeps _ Keeps-skip)))

  pub in_channel-One :
      One (IsLetIn w channel_id (group_peer msg)) events (in_channel w msg (some channel_id))
  unfolding in_channel
  in_channel-One = One-bind _ _ (remember_channel-Keeps (AreTurns events) w _) λ _.
      One-bind _ _ (notify_joined_channels-Keeps (AreTurns events) w _ _ _) λ _. group_message-One

-- A message in a channel starts at most one agent turn. That turn is for its sender, in the channel
-- of the message, and only for a sender that the people gate lets in.
pub group_message_starts_one_turn :
    (w : World) (msg : Value) (s : Adapter) (channel_id : Text)
    → normalize_channel_id (text_field (codes "chat_id") msg) ≡ some channel_id
    → OneMore
        (IsLetIn w channel_id (group_peer msg))
        (turns s.trace)
        (turns (handle_group_message w msg s).1.trace)
unfolding handle_group_message
group_message_starts_one_turn w msg s channel_id here =
    rw here ((in_channel-One (turns s.trace) w channel_id msg).at s refl)
