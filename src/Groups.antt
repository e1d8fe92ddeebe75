-- ===== src/Groups.antt =====
-- internal/groups.py: allowlists, known channels and targets. Sets of ids are lists without
-- repetition; the module's `_known_channel_ids` is passed as an argument.
pub mod Commands
pub mod Mentions
pub mod Access
pub mod Merge
pub mod Context
mod Tests
use hermes_vector_platform.Prelude.{
  Text, ℕ, Bool, true, false, ◌&&◌, ◌||◌, Option, none, some, List, [], ◌∷◌, ◌++◌, codes, strip,
  lower, mem, text_eq, nonempty, or_else, split_on, join, if◌then◌else◌,
}
use hermes_vector_platform.Prelude.Dicts.{Dict, lookup, put, pop, add}
use hermes_vector_platform.Prelude.Sorted.{text_lt, sort}
use hermes_vector_platform.Bech32.{normalize_npub, normalize_channel_id}
use hermes_vector_platform.Env.{Environ, scoped_env_str, text_or}

-- `normalize_npub(x) or (x or "").strip()`
unfoldable pub npub_or_text : Text → Text
npub_or_text ref = text_or (normalize_npub ref) (strip ref)

-- `normalize_channel_id(x) or (x or "").strip().lower()`
unfoldable pub channel_or_text : Text → Text
channel_or_text ref = text_or (normalize_channel_id ref) (lower (strip ref))

unfoldable pub send_target : Text → Text
send_target chat_id = text_or (normalize_channel_id chat_id) (npub_or_text chat_id)

unfoldable pub pending_inbox_key : Text → Option Text → Text
pending_inbox_key peer none = peer
pending_inbox_key peer (some channel_id) = elim (normalize_channel_id channel_id) [
  | none ↦ peer
  | some cid ↦ cid ++ (codes ":" ++ peer)
]

-- The ids that the parts of a list are normalized to; a part that is no id is left out.
unfoldable pub collect : (Text → Option Text) → List Text → List Text
collect normalize [] = []
collect normalize (part ∷ parts) =
    let found = collect normalize parts in
    elim (normalize part) [ none ↦ found | some id ↦ add id found ]

unfoldable pub channel_ids_from_csv : Text → List Text
channel_ids_from_csv raw = collect normalize_channel_id (split_on b',' raw)

unfoldable pub channel_ids_from_env : Environ → Text → List Text
channel_ids_from_env e name = channel_ids_from_csv (scoped_env_str e name)

unfoldable pub group_allow_all_chats : Environ → List Text
group_allow_all_chats e = channel_ids_from_env e (codes "VECTOR_GROUP_ALLOW_ALL")

unfoldable pub remember_channel : Text → List Text → List Text
remember_channel channel_id known = elim (normalize_channel_id channel_id) [
  | none ↦ known
  | some cid ↦ add cid known
]

unfoldable pub is_known_channel : Environ → List Text → Text → Bool
is_known_channel e known channel_id =
    let cid = channel_or_text channel_id in
    nonempty cid && (mem cid known || mem cid (group_allow_all_chats e))

unfoldable pub parse_npub_target : Text → Option Text
parse_npub_target ref = normalize_npub ref

-- The parsed id; the second part of the pair is always None.
unfoldable pub parse_target_ref : Environ → List Text → Text → Option Text
parse_target_ref e known ref = elim (normalize_channel_id ref) [
  | none ↦ normalize_npub ref
  | some channel ↦
      if is_known_channel e known channel
      then some channel
      else (elim (normalize_npub ref) [ none ↦ some channel | some npub ↦ some npub ])
]

unfoldable pub npubs_from_csv : Text → List Text
npubs_from_csv raw = collect (λ part. normalize_npub (strip part)) (split_on b',' raw)

unfoldable pub npubs_from_env : Environ → Text → List Text
npubs_from_env e name = npubs_from_csv (scoped_env_str e name)

unfoldable pub allowed_npubs : Environ → List Text
allowed_npubs e = npubs_from_env e (codes "VECTOR_ALLOWED_USERS")

unfoldable pub group_allowed_users : Environ → List Text
group_allowed_users e = npubs_from_env e (codes "VECTOR_GROUP_ALLOWED_USERS")

unfoldable pub sender_is_authorized : Environ → Text → Bool
sender_is_authorized e peer =
    let npub = npub_or_text peer in nonempty npub && mem npub (allowed_npubs e)

unfoldable pub home_operator_npub : Environ → Option Text
home_operator_npub e = normalize_npub (strip (scoped_env_str e (codes "VECTOR_HOME_CHANNEL")))

-- `bool(npub and home and npub == home)`
abbrev pub is_operator : Text → Option Text → Bool
is_operator npub none = false
is_operator npub (some home) = nonempty npub && (nonempty home && text_eq npub home)

unfoldable pub is_home_operator : Environ → Text → Bool
is_home_operator e peer = is_operator (npub_or_text peer) (home_operator_npub e)

unfoldable pub group_sender_is_authorized : Environ → Text → Text → Bool
group_sender_is_authorized e peer channel_id =
    let cid = channel_or_text channel_id in
    let npub = npub_or_text peer in
    if nonempty cid && mem cid (group_allow_all_chats e)
    then true
    else if sender_is_authorized e peer
    then true
    else nonempty npub && mem npub (group_allowed_users e)

-- `if npub and npub not in seen: seen.append(npub)`
abbrev pub merge_one : List Text → Option Text → List Text
merge_one seen none = seen
merge_one seen (some npub) = add npub seen

-- The loop of `_merge_allowed_users`: `seen` in the order of first appearance.
unfoldable pub merge_parts : List Text → List Text → List Text
merge_parts seen [] = seen
merge_parts seen (part ∷ parts) = merge_parts (merge_one seen (normalize_npub (strip part))) parts

unfoldable pub merge_allowed_users : Text → Text → Text
merge_allowed_users operator_npub existing =
    join (codes ",") (merge_parts (operator_npub ∷ []) (split_on b',' existing))

-- `a | b` on sets
unfoldable pub union : List Text → List Text → List Text
union [] ys = ys
union (x ∷ xs) ys = add x (union xs ys)

-- `str(extra.get(key) or "")` for the texts that the settings hold
abbrev pub extra_text : Text → Dict → Text
extra_text key extra = text_or (lookup key extra) []

unfoldable pub sync_group_allowed_chats_extra : Environ → Dict → Dict
sync_group_allowed_chats_extra e extra =
    let ids = union (channel_ids_from_csv (extra_text (codes "group_allow_all") extra)) (
      union (channel_ids_from_csv (extra_text (codes "group_allowed_chats") extra))
        (group_allow_all_chats e)) in
    let extra' = pop (codes "group_allow_all") extra in
    if nonempty ids
    then put (codes "group_allowed_chats") (join (codes ",") (sort text_lt ids)) extra'
    else pop (codes "group_allowed_chats") extra'
