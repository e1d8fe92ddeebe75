-- ===== src/Inbound/Gates.antt =====
-- Which messages start no agent turn: what the gates of the handlers keep out.
use hermes_vector_platform.Prelude.{Text, ◌≡◌, refl, List, true, false, nonempty, arith}
use hermes_vector_platform.Prelude.Values.{Value}
use hermes_vector_platform.Env.{pairing_enabled}
use hermes_vector_platform.Groups.{sender_is_authorized}
use hermes_vector_platform.Adapter.{Adapter, World, Event, Source, Saved}
use hermes_vector_platform.Adapter.Act.{
  turns, Keeps, HasTurns, AreTurns, Holds, keeps, Keeps-skip, Keeps-bind, Keeps-emit, Keeps-if,
}
use hermes_vector_platform.Inbound.{
  is_bare_file, is_empty, has_caption, direct_peer, is_superseded_replay,
}
use hermes_vector_platform.Inbound.Direct.{
  shut_out, direct_message, direct_from, direct_commands, direct_turn, direct_saved, save_direct,
}
use hermes_vector_platform.Inbound.NoTurn.{is_blocked-Keeps, try_block_command-Keeps}
use hermes_vector_platform.Inbound.NoTurn.Rooms.{
  try_invite_command-Keeps, check_duplicate-Keeps, note_inbound-Keeps,
}

caption_not_bare : (msg : Value) → has_caption msg ≡ true → is_bare_file msg ≡ false
unfolding is_bare_file
caption_not_bare msg said = rw said (ground arith)

module _ (events : List Event) (w : World) (msg : Value) where
  -- A sender that VECTOR_PAIRING=off shuts out.
  direct_from-Keeps :
      (peer : Text) → shut_out w peer ≡ true → Keeps (HasTurns events) (direct_from w msg peer)
  unfolding direct_from
  direct_from-Keeps peer shut = rw shut (search (keeps, is_blocked-Keeps) depth 9)

  direct_message-Keeps :
      shut_out w (direct_peer msg) ≡ true → Keeps (HasTurns events) (direct_message w msg)
  unfolding direct_message
  direct_message-Keeps shut = Keeps-bind _ _ (check_duplicate-Keeps events _) λ duplicate.
      Keeps-if duplicate _ _ Keeps-skip (
        Keeps-if (is_empty msg) _ _ Keeps-skip (
          Keeps-if (nonempty (direct_peer msg)) _ _ (direct_from-Keeps (direct_peer msg) shut)
            Keeps-skip))

  -- A superseded replay with a caption.
  direct_saved-Keeps :
      (peer : Text) (source : Source) (saved : List Saved)
      → has_caption msg ≡ true
      → is_superseded_replay msg ≡ true
      → Keeps (HasTurns events) (direct_saved w msg peer source saved)
  unfolding direct_saved turns
  direct_saved-Keeps peer source saved said old =
      rw (caption_not_bare msg said, old) (Keeps-emit (AreTurns events) _ (λ es. refl))

  direct_turn-Keeps :
      (peer : Text)
      → has_caption msg ≡ true
      → is_superseded_replay msg ≡ true
      → Keeps (HasTurns events) (direct_turn w msg peer)
  unfolding direct_turn save_direct
  direct_turn-Keeps peer said old =
      let filed =
        λ (source : Source) (saved : List Saved). direct_saved-Keeps peer source saved said old in
      search (keeps, note_inbound-Keeps, filed) depth 9

  direct_replay-Keeps :
      has_caption msg ≡ true
      → is_superseded_replay msg ≡ true
      → Keeps (HasTurns events) (direct_message w msg)
  unfolding direct_message direct_from direct_commands
  direct_replay-Keeps said old =
      let started = λ (peer : Text). direct_turn-Keeps peer said old in
      search
        (
          keeps,
          check_duplicate-Keeps events,
          is_blocked-Keeps,
          try_block_command-Keeps,
          try_invite_command-Keeps,
          note_inbound-Keeps,
          started,
        )
        depth 14

-- A DM from a sender that is not on VECTOR_ALLOWED_USERS starts no agent turn while pairing is off,
-- whatever the message holds and whatever the sidecar answers meanwhile.
pub strangers_are_shut_out :
    (w : World) (msg : Value) (s : Adapter)
    → pairing_enabled w.env ≡ false
    → sender_is_authorized w.env (direct_peer msg) ≡ false
    → turns (direct_message w msg s).1.trace ≡ turns s.trace
unfolding shut_out Holds
strangers_are_shut_out w msg s off out =
    let shut : shut_out w (direct_peer msg) ≡ true = rw (off, out) refl in
    (direct_message-Keeps (turns s.trace) w msg shut).at s refl

-- A DM with a caption that a newer message supersedes, replayed after a reconnect, starts no agent
-- turn, whoever sent it.
pub superseded_replay_starts_no_turn :
    (w : World) (msg : Value) (s : Adapter)
    → has_caption msg ≡ true
    → is_superseded_replay msg ≡ true
    → turns (direct_message w msg s).1.trace ≡ turns s.trace
unfolding Holds
superseded_replay_starts_no_turn w msg s said old =
    (direct_replay-Keeps (turns s.trace) w msg said old).at s refl
