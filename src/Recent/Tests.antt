-- ===== src/Recent/Tests.antt =====
-- Runs and instances for the bounded dictionaries.
use hermes_vector_platform.Prelude.{
  Text, ◌≤◌, ◌≡◌, refl, arith, true, some, List, [], ◌∷◌, codes, length, text_eq, mem,
}
use hermes_vector_platform.Prelude.Dicts.{Dict, lookup}
use hermes_vector_platform.Recent.{
  is_duplicate, record_last, forget_last, inbound_dedup_max, sent_ids_max, last_inbound_chats_max,
  remove,
}
use hermes_vector_platform.Recent.Keys.{distinct}
use hermes_vector_platform.Recent.Window.{
  IsWindow, run_ids, duplicate_within_window, is_duplicate-IsWindow,
}
use hermes_vector_platform.Recent.Entries.{lookup-record_last, lookup-forget_last, without_message}

abbrev two_ids : List Text
two_ids = codes "a" ∷ codes "b" ∷ []

moves_to_end : is_duplicate (codes "a") two_ids ≡ (true, codes "b" ∷ codes "a" ∷ [])
unfolding is_duplicate mem remove text_eq
moves_to_end = refl

two_ids-IsWindow : IsWindow inbound_dedup_max two_ids
unfolding distinct mem text_eq
two_ids-IsWindow = record { fits = omega arith; once = refl }

two_sent-IsWindow : IsWindow sent_ids_max two_ids
unfolding distinct mem text_eq
two_sent-IsWindow = record { fits = omega arith; once = refl }

duplicate_within_window_example :
    (is_duplicate (codes "a") (run_ids two_ids (is_duplicate (codes "a") two_ids).1)).0 ≡ true
duplicate_within_window_example =
    duplicate_within_window (codes "a") two_ids two_ids two_ids-IsWindow refl (omega arith)

is_duplicate-IsWindow_example : IsWindow inbound_dedup_max (is_duplicate (codes "c") two_ids).1
is_duplicate-IsWindow_example = is_duplicate-IsWindow (codes "c") two_ids two_ids-IsWindow

abbrev chats : Dict
chats = (codes "x", codes "1") ∷ (codes "y", codes "2") ∷ []

lookup-record_last_example :
    (lookup (codes "x") (record_last (codes "x") (codes "3") chats) ≡ some (codes "3"))
    × (length (record_last (codes "x") (codes "3") chats) ≤ last_inbound_chats_max)
lookup-record_last_example = lookup-record_last (codes "x") (codes "3") chats

lookup-forget_last_example :
    lookup (codes "y") (forget_last (codes "x") (codes "1") chats)
    ≡ without_message (codes "y") (codes "x") (codes "1") (lookup (codes "y") chats)
lookup-forget_last_example = lookup-forget_last (codes "x") (codes "1") (codes "y") chats
