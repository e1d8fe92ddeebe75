-- ===== src/Recent.antt =====
-- The bounded ordered dictionaries of adapter.py and internal/inbound.py: inbound ids, sent ids,
-- reaction ids, and the last inbound message of each chat. An `OrderedDict` is the list of its
-- entries, the oldest first.
pub mod Keys
pub mod Window
pub mod Entries
mod Tests
use hermes_vector_platform.Prelude.{
  Text, ℕ, Bool, true, false, Option, none, some, List, [], ◌∷◌, ◌++◌, map, ltb, length, text_eq,
  mem, nonempty, if◌then◌else◌,
}
use hermes_vector_platform.Prelude.Dicts.{Dict, lookup, pop}

-- INBOUND_DEDUP_MAX, LAST_INBOUND_CHATS_MAX, SENT_IDS_MAX
abbrev pub inbound_dedup_max : ℕ
inbound_dedup_max = 1024

abbrev pub last_inbound_chats_max : ℕ
last_inbound_chats_max = 200

abbrev pub sent_ids_max : ℕ
sent_ids_max = 1000

-- `while len(seen) > bound: seen.popitem(last=False)`
unfoldable pub trim {ℓ} : {A : Type ℓ} → ℕ → List A → List A
trim bound [] = []
trim bound (x ∷ xs) =
    let rest = trim bound xs in if ltb bound (length (x ∷ xs)) then rest else x ∷ xs

-- `del seen[key]`
unfoldable pub remove : Text → List Text → List Text
remove key [] = []
remove key (k ∷ ks) = let rest = remove key ks in if text_eq k key then rest else k ∷ rest

-- `_is_duplicate`: the answer, and the ids after the call
unfoldable pub is_duplicate : Text → List Text → Bool × List Text
is_duplicate msg_id seen =
    if nonempty msg_id
    then (if mem msg_id seen
        then (true, remove msg_id seen ++ (msg_id ∷ []))
        else (false, trim inbound_dedup_max (seen ++ (msg_id ∷ []))))
    else (false, seen)

-- `_record_sent_message`
unfoldable pub record_sent_message : Option Text → List Text → List Text
record_sent_message none sent = sent
record_sent_message (some message_id) sent =
    if nonempty message_id
    then trim sent_ids_max (remove message_id sent ++ (message_id ∷ []))
    else sent

-- `_remember_reaction_id`
unfoldable pub remember_reaction_id : Text → List Text → List Text
remember_reaction_id reaction_id seen =
    trim inbound_dedup_max (remove reaction_id seen ++ (reaction_id ∷ []))

-- The body of `_record_last_inbound` behind `_chat_key`.
unfoldable pub record_last : Text → Text → Dict → Dict
record_last key message_id last =
    trim last_inbound_chats_max (pop key last ++ ((key, message_id) ∷ []))

-- `last.get(key) == message_id`
abbrev pub is_last : Option Text → Text → Bool
is_last none message_id = false
is_last (some latest) message_id = text_eq latest message_id

-- The body of `_forget_last_inbound` behind `_chat_key`.
unfoldable pub forget_last : Text → Text → Dict → Dict
forget_last key message_id last =
    if is_last (lookup key last) message_id then pop key last else last
