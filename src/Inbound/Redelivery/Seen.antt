-- ===== src/Inbound/Redelivery/Seen.antt =====
-- What the handlers do after the check of an id forgets no id that was seen.
use hermes_vector_platform.Prelude.{Text, ◌≡◌, List, true, mem}
use hermes_vector_platform.Prelude.Values.{Value}
use hermes_vector_platform.Adapter.{World, Effect, Source, Saved}
use hermes_vector_platform.Adapter.Act.{
  emit, Keeps, Holds, Notes, keeps, Keeps-skip, Keeps-bind, Keeps-gets, Keeps-if,
}
use hermes_vector_platform.Inbound.{has_caption}
use hermes_vector_platform.Inbound.Direct.{
  direct_from, direct_commands, direct_turn, direct_saved, direct_start, file_only,
}
use hermes_vector_platform.Inbound.Channel.{
  has_files, group_from, group_gate, group_turn, group_saved, group_start,
}
use hermes_vector_platform.Inbound.NoTurn.{is_blocked-Keeps, try_block_command-Keeps}
use hermes_vector_platform.Inbound.NoTurn.Rooms.{
  try_invite_command-Keeps, note_inbound-Keeps, ack_file_only-Keeps, write_inbox_breadcrumb-Keeps,
  queue_pending_inbox-Keeps,
}
use hermes_vector_platform.Inbound.NoTurn.Files.{
  media_for_event-Keeps, save_direct-Keeps, group_context-Keeps, group_files-Keeps,
  group_stash-Keeps,
}

-- The id is among those that were seen.
abbrev pub IsSeen : Text → Notes → Type 0
IsSeen id n = mem id n.1 ≡ true

module _ (id : Text) (w : World) (msg : Value) where
  any_emit-Keeps : (e : Effect) → Keeps (Holds (IsSeen id)) (emit e)
  any_emit-Keeps e = record { at = λ s h. unfold emit Holds in h }

  direct_start-Keeps :
      (peer : Text) (source : Source) (saved : List Saved)
      → Keeps (Holds (IsSeen id)) (direct_start w msg peer source saved)
  unfolding direct_start
  direct_start-Keeps peer source saved = search (keeps, media_for_event-Keeps, any_emit-Keeps)

  direct_saved-Keeps :
      (peer : Text) (source : Source) (saved : List Saved)
      → Keeps (Holds (IsSeen id)) (direct_saved w msg peer source saved)
  unfolding direct_saved file_only
  direct_saved-Keeps peer source saved =
      search
        (
          keeps,
          direct_start-Keeps,
          any_emit-Keeps,
          ack_file_only-Keeps,
          write_inbox_breadcrumb-Keeps (IsSeen id) w,
          queue_pending_inbox-Keeps,
        )
        depth 12

  direct_turn-Keeps : (peer : Text) → Keeps (Holds (IsSeen id)) (direct_turn w msg peer)
  unfolding direct_turn
  direct_turn-Keeps peer =
      search (keeps, note_inbound-Keeps, save_direct-Keeps, direct_saved-Keeps) depth 12

  pub direct_from-Keeps : (peer : Text) → Keeps (Holds (IsSeen id)) (direct_from w msg peer)
  unfolding direct_from direct_commands
  direct_from-Keeps peer =
      search
        (
          keeps, is_blocked-Keeps, try_block_command-Keeps, try_invite_command-Keeps,
          note_inbound-Keeps, direct_turn-Keeps,
        )
        depth 14

  group_saved-Keeps :
      (channel_id : Text) (source : Source) (saved : List Saved)
      → Keeps (Holds (IsSeen id)) (group_saved w channel_id msg source saved)
  unfolding group_saved group_start
  group_saved-Keeps channel_id source saved =
      search
        (keeps, write_inbox_breadcrumb-Keeps (IsSeen id) w, any_emit-Keeps, group_context-Keeps)
        depth 12

  group_gate-Keeps :
      (channel_id peer : Text) → Keeps (Holds (IsSeen id)) (group_gate w channel_id msg peer)
  unfolding group_gate group_turn
  group_gate-Keeps channel_id peer =
      search (keeps, note_inbound-Keeps, group_files-Keeps, group_saved-Keeps) depth 14

  pub group_from-Keeps :
      (channel_id peer : Text) → Keeps (Holds (IsSeen id)) (group_from w channel_id msg peer)
  unfolding group_from
  group_from-Keeps channel_id peer = Keeps-bind _ _ (Keeps-gets _) λ own.
      Keeps-if own _ _ Keeps-skip (
        Keeps-if (has_files msg) _ _
          (Keeps-bind _ _ (group_stash-Keeps (IsSeen id) w msg _ _)
            λ _. Keeps-if (has_caption msg) _ _ (group_gate-Keeps channel_id peer) Keeps-skip)
          (group_gate-Keeps channel_id peer))
