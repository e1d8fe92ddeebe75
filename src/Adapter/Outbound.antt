-- ===== src/Adapter/Outbound.antt =====
-- What the adapter sends: `send`, `edit_message`, `delete_message` and the reactions of adapter.py.
use hermes_vector_platform.Prelude.{
  Text, Bool, true, false, ◌&&◌, ◌||◌, not, Option, none, some, [], codes, strip, nonempty, or_else,
  leb, ◌==◌, if◌then◌else◌,
}
use hermes_vector_platform.Prelude.Dicts.{lookup}
use hermes_vector_platform.Prelude.Values.{Value, get, text_of, is_obj}
use hermes_vector_platform.Env.{text_or}
use hermes_vector_platform.Recent.{record_sent_message, is_duplicate}
use hermes_vector_platform.Groups.{send_target}
use hermes_vector_platform.Adapter.{
  Adapter, World, Reply, unreachable, answer, post_send, post_edit, post_delete, post_react,
  post_unreact,
}
use hermes_vector_platform.Adapter.Act.{Act, pure, ◌>>=◌, ◌>>◌, gets, modify, ask}
use hermes_vector_platform.Adapter.Labels.{chat_key}

-- `SendResult`; the texts of errors are for the log and are not kept.
pub record SendResult : Type 0 where
  pub success : Bool
  pub message_id : Option Text
  pub retryable : Bool

abbrev pub failed : Bool → SendResult
failed retryable = record { success = false; message_id = none; retryable = retryable }

abbrev delivered : Option Text → SendResult
delivered id = record { success = true; message_id = id; retryable = false }

-- `data.get("id") or data.get("messageId")`
unfoldable pub sent_id : Value → Option Text
sent_id body =
    let id = text_of (get (codes "id") body) in
    let message_id = text_of (get (codes "messageId") body) in
    if nonempty id then some id else if nonempty message_id then some message_id else none

unfoldable pub record_sent : Option Text → Act (Unit {0})
record_sent id =
    modify (λ s. record s { sent_message_ids = record_sent_message id s.sent_message_ids })

-- The branches on the status and the body of `/send`.
unfoldable pub sent_reply : Reply → Act SendResult
sent_reply unreachable = pure (failed true)
sent_reply (answer status error none) =
    pure (if status == 200 then delivered none else failed (leb 500 status))
sent_reply (answer status error (some body)) =
    if status == 200
    then (if is_obj body
        then (do record_sent (sent_id body); pure (delivered (sent_id body)))
        else pure (delivered none))
    else pure (failed (leb 500 status))

unfoldable pub send : World → Text → Text → Option Text → Act SendResult
send w chat_id content reply_to = do
  s ← gets (λ s. s)
  if not (s.running && s.connected) || s.bridge_exited
      then pure (failed false)
      else (do reply ← ask w (post_send chat_id content reply_to); sent_reply reply)

-- `_is_duplicate` on the adapter's ids, the answer dropped
unfoldable pub mark_seen : Text → Act (Unit {0})
mark_seen id = modify (λ s. record s { inbound_ids = (is_duplicate id s.inbound_ids).1 })

unfoldable pub edited_reply : Text → Reply → Act SendResult
edited_reply target unreachable = pure (failed true)
edited_reply target (answer status error none) =
    pure (if status == 200 then delivered (some target) else failed (leb 500 status))
edited_reply target (answer status error (some body)) =
    let edit_id = text_of (get (codes "edit_id") body) in
    if status == 200
    then (if nonempty edit_id
        then (do record_sent (some edit_id); mark_seen edit_id; pure (delivered (some target)))
        else pure (delivered (some target)))
    else pure (failed (leb 500 status))

unfoldable pub edit_message : World → Text → Text → Text → Act SendResult
edit_message w chat_id message_id content = do
  let target = strip message_id
  s ← gets (λ s. s)
  if not (s.running && s.connected)
        || (not (nonempty target) || (not (nonempty content) || s.bridge_exited))
      then pure (failed false)
      else (do reply ← ask w (post_edit chat_id target content); edited_reply target reply)

unfoldable pub is_200 : Reply → Bool
is_200 unreachable = false
is_200 (answer status error body) = status == 200

unfoldable pub delete_message : World → Text → Text → Act Bool
delete_message w chat_id message_id = do
  connected ← gets (λ s. s.connected)
  if not connected || not (nonempty (strip message_id)) then pure false else (do
    reply ← ask w (post_delete (send_target chat_id) (strip message_id))
    pure (is_200 reply))

unfoldable pub send_reaction : World → Text → Text → Text → Option Text → Act Bool
send_reaction w chat_id message_id emoji emoji_url = do
  connected ← gets (λ s. s.connected)
  if not connected || (not (nonempty (strip message_id)) || not (nonempty (strip emoji)))
      then pure false
      else (do reply ← ask w (post_react chat_id message_id emoji emoji_url); pure (is_200 reply))

unfoldable pub retract_reaction : World → Text → Text → Act Bool
retract_reaction w chat_id message_id = do
  connected ← gets (λ s. s.connected)
  if not connected || not (nonempty (strip message_id))
      then pure false
      else (do reply ← ask w (post_unreact chat_id message_id); pure (is_200 reply))

-- `(message_id or "").strip() or self._last_inbound_by_chat.get(self._chat_key(chat_id))`
unfoldable pub reaction_target : World → Adapter → Text → Text → Text
reaction_target w s chat_id message_id =
    or_else (strip message_id) (text_or (lookup (chat_key w s chat_id) s.last_inbound_by_chat) [])

-- The target that was reacted to, `none` for a result with an error.
unfoldable pub add_reaction : World → Text → Text → Text → Act (Option Text)
add_reaction w chat_id emoji message_id = do
  target ← gets (λ s. reaction_target w s chat_id message_id)
  if nonempty target
      then (do
        ok ← send_reaction w chat_id target emoji none
        pure (if ok then some target else none))
      else pure none

unfoldable pub remove_reaction : World → Text → Text → Act (Option Text)
remove_reaction w chat_id message_id = do
  target ← gets (λ s. reaction_target w s chat_id message_id)
  if nonempty target
      then (do ok ← retract_reaction w chat_id target; pure (if ok then some target else none))
      else pure none
