-- ===== src/Inbound/NoTurn/Files.antt =====
-- What the handlers do between their gates and the agent turn, which starts none: saving, stashing
-- and fetching.
use hermes_vector_platform.Prelude.{Text, refl, List, [], ◌∷◌, Bool}
use hermes_vector_platform.Prelude.Values.{Value}
use hermes_vector_platform.Adapter.{World, Saved}
use hermes_vector_platform.Adapter.Act.{
  turns, Keeps, Holds, Notes, keeps, Keeps-bind, Keeps-gets, Keeps-if, Keeps-modify, Keeps-emit,
}
use hermes_vector_platform.Inbound.{media_for_event}
use hermes_vector_platform.Inbound.Direct.{save_direct}
use hermes_vector_platform.Inbound.Channel.{fetch, group_context, group_files, group_stash}
use hermes_vector_platform.Inbound.NoTurn.Rooms.{write_inbox_breadcrumb-Keeps}

module _ (Q : Notes → Type 0) (w : World) where
  pub media_for_event-Keeps :
      (key : Text) (saved : List Saved) (file : Bool)
      → Keeps (Holds Q) (media_for_event w key saved file)
  unfolding media_for_event
  media_for_event-Keeps key [] file = Keeps-bind _ _ (Keeps-gets _) λ files.
      Keeps-if file _ _ (search (keeps))
        (Keeps-bind _ _ (Keeps-modify Q _ (λ s. refl)) λ _. search (keeps))
  media_for_event-Keeps key (f ∷ fs) file =
      Keeps-bind _ _ (Keeps-modify Q _ (λ s. refl)) λ _. search (keeps)

module _ (Q : Notes → Type 0) (w : World) (msg : Value) where
  pub save_direct-Keeps : (peer : Text) → Keeps (Holds Q) (save_direct w msg peer)
  unfolding save_direct
  save_direct-Keeps peer = search (keeps)

  pub group_stash-Keeps :
      (channel_id peer : Text) → Keeps (Holds Q) (group_stash w channel_id msg peer)
  unfolding group_stash turns
  group_stash-Keeps channel_id peer =
      Keeps-bind _ _ (Keeps-emit Q _ (λ es. refl))
        λ _. search (keeps, write_inbox_breadcrumb-Keeps Q w) depth 9

module _ (Q : Notes → Type 0) (w : World) (channel_id : Text) (msg : Value) where
  pub fetch-Keeps : Keeps (Holds Q) (fetch w channel_id msg)
  fetch-Keeps = record { at = λ s h. unfold fetch turns Holds in h }

  pub group_context-Keeps : Keeps (Holds Q) (group_context w channel_id msg)
  unfolding group_context
  group_context-Keeps = search (keeps, fetch-Keeps)

  pub group_files-Keeps : Keeps (Holds Q) (group_files w channel_id msg)
  unfolding group_files
  group_files-Keeps = search (keeps) depth 9
