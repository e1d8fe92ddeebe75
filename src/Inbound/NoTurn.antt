-- ===== src/Inbound/NoTurn.antt =====
-- The methods of adapter.py that the handlers call before they decide on a turn start none.
pub mod Rooms
pub mod Files
use hermes_vector_platform.Prelude.{
  Text, ◌≡◌, refl, Option, none, some, List, [], ◌∷◌, Bool, true, false, ℕ, if◌then◌else◌,
}
use hermes_vector_platform.Prelude.Values.{Value}
use hermes_vector_platform.Adapter.{Adapter, World, Event, Reply, unreachable, answer}
use hermes_vector_platform.Adapter.Act.{
  Act, pure, ◌>>=◌, gets, modify, skip, turns, Keeps, Holds, Notes, keeps, Keeps-pure, Keeps-gets,
  Keeps-if, Keeps-bind, Keeps-skip, Keeps-ask, Keeps-modify, Keeps-emit, Keeps-save,
}
use hermes_vector_platform.Adapter.Outbound.{SendResult, send, sent_reply, record_sent}
use hermes_vector_platform.Prelude.Dicts.{add}
use hermes_vector_platform.Recent.{remove}
use hermes_vector_platform.Adapter.Blocklist.{
  load_blocked, refreshed, mark_loaded, refresh_blocked, is_blocked, set_blocked, block_user,
  listed, list_blocked,
}
use hermes_vector_platform.Adapter.Mute.{
  reply_to_command, mute_target, run_block_command, try_block_command,
}

module _ (Q : Notes → Type 0) (w : World) where
  record_sent-Keeps : (id : Option Text) → Keeps (Holds Q) (record_sent id)
  unfolding record_sent
  record_sent-Keeps id = Keeps-modify Q _ (λ s. refl)

  sent_reply-Keeps : (r : Reply) → Keeps (Holds Q) (sent_reply r)
  unfolding sent_reply
  sent_reply-Keeps unreachable = search (keeps)
  sent_reply-Keeps (answer status error none) = search (keeps)
  sent_reply-Keeps (answer status error (some body)) = search (keeps, record_sent-Keeps)

  pub send-Keeps :
      (chat_id content : Text) (reply_to : Option Text)
      → Keeps (Holds Q) (send w chat_id content reply_to)
  unfolding send
  send-Keeps chat_id content reply_to = search (keeps, sent_reply-Keeps)

  -- The mute list.
  load_blocked-Keeps : (found : List Text) → Keeps (Holds Q) (load_blocked found)
  unfolding load_blocked
  load_blocked-Keeps found = Keeps-modify Q _ (λ s. refl)

  refreshed-Keeps : (body : Option Value) → Keeps (Holds Q) (refreshed body)
  unfolding refreshed
  refreshed-Keeps none = Keeps-skip
  refreshed-Keeps (some body) = load_blocked-Keeps _

  mark_loaded-Keeps : Keeps (Holds Q) mark_loaded
  unfolding mark_loaded
  mark_loaded-Keeps = Keeps-modify Q _ (λ s. refl)

  refresh_blocked-Keeps : Keeps (Holds Q) (refresh_blocked w)
  unfolding refresh_blocked
  refresh_blocked-Keeps = search (keeps, refreshed-Keeps, mark_loaded-Keeps)

  pub is_blocked-Keeps : (peer : Text) → Keeps (Holds Q) (is_blocked w peer)
  unfolding is_blocked
  is_blocked-Keeps peer = search (keeps, refresh_blocked-Keeps)

  set_blocked-Keeps :
      (target : Text) (unblock : Bool) → Keeps (Holds Q) (set_blocked target unblock)
  unfolding set_blocked
  set_blocked-Keeps target unblock = Keeps-modify Q _ (λ s. refl)

  block_user-Keeps : (npub : Text) (unblock : Bool) → Keeps (Holds Q) (block_user w npub unblock)
  unfolding block_user
  block_user-Keeps npub unblock = search (keeps, set_blocked-Keeps) depth 9

  listed-Keeps : (body : Option Value) → Keeps (Holds Q) (listed body)
  unfolding listed
  listed-Keeps none = search (keeps)
  listed-Keeps (some body) = search (keeps, load_blocked-Keeps)

  list_blocked-Keeps : Keeps (Holds Q) (list_blocked w)
  unfolding list_blocked
  list_blocked-Keeps = search (keeps, listed-Keeps, refresh_blocked-Keeps)

  reply_to_command-Keeps : (peer body : Text) → Keeps (Holds Q) (reply_to_command w peer body)
  unfolding reply_to_command
  reply_to_command-Keeps peer body = search (keeps, send-Keeps)

  mute_target-Keeps :
      (peer cmd : Text) (target : Option Text) → Keeps (Holds Q) (mute_target w peer cmd target)
  unfolding mute_target
  mute_target-Keeps peer cmd none = search (keeps, reply_to_command-Keeps)
  mute_target-Keeps peer cmd (some target) =
      search (keeps, reply_to_command-Keeps, block_user-Keeps)

  run_block_command-Keeps :
      (peer : Text) (parsed : Option (Text × Text))
      → Keeps (Holds Q) (run_block_command w peer parsed)
  unfolding run_block_command
  run_block_command-Keeps peer none = search (keeps)
  run_block_command-Keeps peer (some (cmd, arg)) =
      search (keeps, list_blocked-Keeps, reply_to_command-Keeps, mute_target-Keeps)

  pub try_block_command-Keeps :
      (same_letter : ℕ → ℕ → Bool) (peer text : Text)
      → Keeps (Holds Q) (try_block_command same_letter w peer text)
  unfolding try_block_command
  try_block_command-Keeps same_letter peer text = search (keeps, run_block_command-Keeps)
