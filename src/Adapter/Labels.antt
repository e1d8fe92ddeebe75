-- ===== src/Adapter/Labels.antt =====
-- Labels of peers and rooms, and the last inbound message of a chat: helpers of adapter.py and of
-- internal/groups.py.
use hermes_vector_platform.Prelude.{
  Text, Bool, true, false, ◌&&◌, Option, none, some, [], ◌∷◌, ◌++◌, codes, strip, lower, text_eq,
  nonempty, or_else, ltb, length, take, if◌then◌else◌,
}
use hermes_vector_platform.Prelude.Dicts.{Dict, lookup, put}
use hermes_vector_platform.Prelude.Values.{Value, get, text_of}
use hermes_vector_platform.Bech32.{normalize_channel_id}
use hermes_vector_platform.Env.{text_or}
use hermes_vector_platform.Recent.{record_last, forget_last}
use hermes_vector_platform.Groups.{npub_or_text, is_known_channel}
use hermes_vector_platform.Adapter.{Adapter, World}
use hermes_vector_platform.Adapter.Act.{Act, modify}

unfoldable pub truncate_npub : Text → Text
truncate_npub npub =
    let text = strip npub in if ltb 16 (length text) then take 16 text ++ codes "..." else text

unfoldable pub group_chat_name : Text → Text → Text → Text
group_chat_name community_name channel_name fallback =
    let community = strip community_name in
    let channel = strip channel_name in
    if nonempty channel && (if text_eq (lower channel) (codes "general") then false else true)
    then (if nonempty community
        then community ++ ((b' ' ∷ 0xb7 ∷ b' ' ∷ []) ++ channel)
        else channel)
    else if nonempty community
    then community
    else truncate_npub fallback

-- `d.get(key) or default`, for a dictionary of texts
abbrev pub get_or_text : Text → Dict → Text → Text
get_or_text key d default = or_else (text_or (lookup key d) []) default

unfoldable pub profile_display_name : Value → Text → Text
profile_display_name profile fallback =
    let name = strip (text_of (get (codes "name") profile)) in
    let display_name = strip (text_of (get (codes "display_name") profile)) in
    if nonempty name
    then name
    else if nonempty display_name
    then display_name
    else truncate_npub fallback

unfoldable pub peer_label : Adapter → Text → Text
peer_label s peer = get_or_text peer s.profile_names (truncate_npub peer)

unfoldable pub group_label_cached : Adapter → Text → Option Text → Text
group_label_cached s channel_id community_id =
    let comm_id =
      or_else (strip (text_or community_id [])) (get_or_text channel_id s.channel_community []) in
    group_chat_name (text_or (lookup comm_id s.community_names) [])
      (text_or (lookup channel_id s.channel_names) []) (or_else comm_id channel_id)

-- `d[key] = value` behind an `if`
abbrev put_if : Bool → Text → Text → Dict → Dict
put_if test key value d = if test then put key value d else d

unfoldable pub remember_group_room : Text → Text → Text → Text → Act (Unit {0})
remember_group_room community_id channel_id community_name channel_name =
    let cid = text_or (normalize_channel_id channel_id) (strip channel_id) in
    let comm = strip community_id in
    let cname = strip community_name in
    let chname = strip channel_name in
    modify (λ s. record s {
      channel_community = put_if (nonempty cid && nonempty comm) cid comm s.channel_community;
      community_names = put_if (nonempty comm && nonempty cname) comm cname s.community_names;
      channel_names = put_if (nonempty cid && nonempty chname) cid chname s.channel_names;
    })

unfoldable pub chat_key : World → Adapter → Text → Text
chat_key w s chat_id =
    let raw = strip chat_id in
    elim (normalize_channel_id raw) [
      | none ↦ npub_or_text raw
      | some channel ↦
          if is_known_channel w.env s.known_channel_ids channel then channel else npub_or_text raw
    ]

unfoldable pub record_last_inbound : World → Text → Text → Act (Unit {0})
record_last_inbound w chat_id message_id = modify (λ s.
    let key = chat_key w s chat_id in
    record s {
      last_inbound_by_chat =
          if nonempty chat_id && (nonempty message_id && nonempty key)
          then record_last key message_id s.last_inbound_by_chat
          else s.last_inbound_by_chat;
    })

unfoldable pub forget_last_inbound : World → Text → Text → Act (Unit {0})
forget_last_inbound w chat_id message_id = modify (λ s. record s {
  last_inbound_by_chat =
      if nonempty chat_id && nonempty message_id
      then forget_last (chat_key w s chat_id) message_id s.last_inbound_by_chat
      else s.last_inbound_by_chat;
})
