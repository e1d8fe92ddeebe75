-- ===== src/Recent/Entries.antt =====
-- The last inbound message of each chat: `_record_last_inbound` and `_forget_last_inbound`.
use hermes_vector_platform.Prelude.{
  Text, ℕ, ◌≤◌, ◌<◌, ◌≡◌, ◌∙◌, arith, Bool, Bool-cases, inl, inr, Option, eq_of_text_eq, ◌&&◌, true,
  false, sym, refl, none, some, [], ◌∷◌, ◌++◌, length, text_eq, text_eq_refl, if◌then◌else◌,
}
use hermes_vector_platform.Prelude.Dicts.{Dict, lookup, pop, lookup-pop}
use hermes_vector_platform.Recent.{trim, is_last, record_last, forget_last, last_inbound_chats_max}
use hermes_vector_platform.Recent.Keys.{length-trim-le}

lookup-concat :
    (k j v : Text) (d : Dict)
    → lookup k (d ++ ((j, v) ∷ []))
      ≡ (elim (lookup k d) [ none ↦ (if text_eq j k then some v else none) | some w ↦ some w ])
unfolding lookup
lookup-concat k j v [] = ground arith
lookup-concat k j v ((i, w) ∷ d) = ground (arith, lookup-concat k j v d)

lookup-trim_last :
    (bound : ℕ) (k v : Text) (d : Dict)
    → 0 < bound
    → lookup k d ≡ none
    → lookup k (trim bound (d ++ ((k, v) ∷ []))) ≡ some v
unfolding lookup trim
lookup-trim_last bound k v [] h n = ground (arith, text_eq_refl k)
lookup-trim_last bound k v ((i, w) ∷ d) h n =
    ground (arith, lookup-trim_last bound k v d, lookup-concat k k v d, text_eq_refl k)

-- The message that was just recorded is the one that is found for its chat, and at most 200 chats are
-- kept.
pub lookup-record_last :
    (key message_id : Text) (last : Dict)
    → (lookup key (record_last key message_id last) ≡ some message_id)
      × (length (record_last key message_id last) ≤ last_inbound_chats_max)
unfolding record_last
lookup-record_last key message_id last = (
  lookup-trim_last last_inbound_chats_max key message_id (pop key last) (omega arith)
      (lookup-pop key key last ∙ rw (text_eq_refl key)),
  length-trim-le last_inbound_chats_max (pop key last ++ ((key, message_id) ∷ [])),
)

-- The entry of a chat, once a message of the chat `key` is forgotten.
abbrev pub without_message : Text → Text → Text → Option Text → Option Text
without_message other key message_id none = none
without_message other key message_id (some latest) =
    if text_eq other key && text_eq latest message_id then none else some latest

other_chat :
    (other key message_id : Text) (o : Option Text)
    → text_eq other key ≡ false
    → without_message other key message_id o ≡ o
other_chat other key message_id none e = refl
other_chat other key message_id (some latest) e = rw e refl

if_same :
    (b : Bool) (d e : Dict) (k : Text)
    → lookup k d ≡ lookup k e
    → lookup k (if b then d else e) ≡ lookup k e
if_same true d e k h = h
if_same false d e k h = refl

same_chat :
    (key message_id : Text) (o : Option Text) (last : Dict)
    → lookup key last ≡ o
    → lookup key (if is_last o message_id then pop key last else last)
      ≡ without_message key key message_id o
same_chat key message_id none last e = e
same_chat key message_id (some latest) last e = elim (Bool-cases (text_eq latest message_id)) [
  | inl same ↦ rw (same, text_eq_refl key) (lookup-pop key key last ∙ rw (text_eq_refl key) refl)
  | inr new ↦ rw (new, text_eq_refl key) e
]

-- Forgetting a message removes the entry of its chat where the entry is that very message. Where it is
-- another message the entry stays, and so do the entries of all other chats.
pub lookup-forget_last :
    (key message_id other : Text) (last : Dict)
    → lookup other (forget_last key message_id last)
      ≡ without_message other key message_id (lookup other last)
unfolding forget_last
lookup-forget_last key message_id other last = elim (Bool-cases (text_eq other key)) [
  | inl same ↦
      rw (eq_of_text_eq other key same) (same_chat key message_id (lookup key last) last refl)
  | inr apart ↦
      if_same (is_last (lookup key last) message_id) (pop key last) last other
        (lookup-pop other key last ∙ rw apart refl)
      ∙ sym (other_chat other key message_id (lookup other last) apart)
]
