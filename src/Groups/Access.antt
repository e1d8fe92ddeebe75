-- ===== src/Groups/Access.antt =====
-- Who is let in: the allowlists of internal/groups.py by their comma-separated entries.
use hermes_vector_platform.Prelude.{
  Text, ◌≡◌, refl, sym, ap, ◌∙◌, arith, Bool, true, false, ◌||◌, ◌&&◌, Option, none, some, List, [],
  ◌∷◌, codes, mem, text_eq, text_eq_iff, any, nonempty, strip, split_on, if◌then◌else◌,
}
use hermes_vector_platform.Prelude.Dicts.{add}
use hermes_vector_platform.Bech32.{normalize_npub, normalize_channel_id}
use hermes_vector_platform.Bech32.Canonical.{normalize_npub-normalize_npub}
use hermes_vector_platform.Env.{Environ, scoped_env_str}
use hermes_vector_platform.Recent.Keys.{mem-append}
use hermes_vector_platform.Groups.{
  npub_or_text, channel_or_text, collect, channel_ids_from_csv, channel_ids_from_env,
  group_allow_all_chats, npubs_from_csv, npubs_from_env, allowed_npubs, group_allowed_users,
  sender_is_authorized, home_operator_npub, is_home_operator, is_operator,
  group_sender_is_authorized,
}

pub mem-add : (k j : Text) (set : List Text) → mem k (add j set) ≡ (text_eq j k || mem k set)
unfolding add mem
mem-add k j set = ground (arith, mem-append k set (j ∷ []), text_eq_iff j k)

abbrev pub named_as : Option Text → Text → Bool
named_as none id = false
named_as (some found) id = text_eq found id

-- The entry is a spelling of the id.
abbrev pub names : (Text → Option Text) → Text → Text → Bool
names normalize id part = named_as (normalize part) id

mem-collect_step :
    (id : Text) (o : Option Text) (found : List Text) (b : Bool)
    → mem id found ≡ b
    → mem id (elim o [ none ↦ found | some j ↦ add j found ]) ≡ (named_as o id || b)
mem-collect_step id none found b h = h
mem-collect_step id (some j) found b h = mem-add id j found ∙ ap (λ (c : Bool). text_eq j id || c) h

pub mem-collect :
    (normalize : Text → Option Text) (id : Text) (parts : List Text)
    → mem id (collect normalize parts) ≡ any (names normalize id) parts
unfolding collect mem
mem-collect normalize id [] = refl
mem-collect normalize id (part ∷ parts) =
    mem-collect_step id (normalize part) (collect normalize parts) (any (names normalize id) parts)
      (mem-collect normalize id parts)

-- An entry of a comma-separated variable is a spelling of the key, or of the channel.
abbrev pub lists_user : Environ → Text → Text → Bool
lists_user e name npub =
    any (names (λ part. normalize_npub (strip part)) npub) (split_on b',' (scoped_env_str e name))

abbrev pub lists_channel : Environ → Text → Text → Bool
lists_channel e name cid =
    any (names normalize_channel_id cid) (split_on b',' (scoped_env_str e name))

mem-allowed_npubs :
    (e : Environ) (npub : Text)
    → mem npub (allowed_npubs e) ≡ lists_user e (codes "VECTOR_ALLOWED_USERS") npub
unfolding allowed_npubs npubs_from_env npubs_from_csv
mem-allowed_npubs e npub = mem-collect (λ part. normalize_npub (strip part)) npub _

mem-group_allowed_users :
    (e : Environ) (npub : Text)
    → mem npub (group_allowed_users e) ≡ lists_user e (codes "VECTOR_GROUP_ALLOWED_USERS") npub
unfolding group_allowed_users npubs_from_env npubs_from_csv
mem-group_allowed_users e npub = mem-collect (λ part. normalize_npub (strip part)) npub _

mem-group_allow_all_chats :
    (e : Environ) (cid : Text)
    → mem cid (group_allow_all_chats e) ≡ lists_channel e (codes "VECTOR_GROUP_ALLOW_ALL") cid
unfolding group_allow_all_chats channel_ids_from_env channel_ids_from_csv
mem-group_allow_all_chats e cid = mem-collect normalize_channel_id cid _

-- A sender is authorized for DMs exactly if it is not empty and an entry of VECTOR_ALLOWED_USERS is a
-- spelling of its key.
pub sender_is_authorized_iff :
    (e : Environ) (peer : Text)
    → sender_is_authorized e peer ≡ (
        nonempty (npub_or_text peer)
        && lists_user e (codes "VECTOR_ALLOWED_USERS") (npub_or_text peer))
unfolding sender_is_authorized
sender_is_authorized_iff e peer =
    ap (λ (b : Bool). nonempty (npub_or_text peer) && b) (mem-allowed_npubs e (npub_or_text peer))

-- A sender is authorized in a channel exactly if the channel is an entry of VECTOR_GROUP_ALLOW_ALL, or
-- the sender is not empty and an entry of VECTOR_ALLOWED_USERS or of VECTOR_GROUP_ALLOWED_USERS.
pub group_sender_is_authorized_iff :
    (e : Environ) (peer channel_id : Text)
    → group_sender_is_authorized e peer channel_id ≡ (
        (nonempty (channel_or_text channel_id)
          && lists_channel e (codes "VECTOR_GROUP_ALLOW_ALL") (channel_or_text channel_id))
        || (nonempty (npub_or_text peer)
            && (lists_user e (codes "VECTOR_ALLOWED_USERS") (npub_or_text peer)
                || lists_user e (codes "VECTOR_GROUP_ALLOWED_USERS") (npub_or_text peer))))
unfolding group_sender_is_authorized
group_sender_is_authorized_iff e peer channel_id =
    rw
      (
        sender_is_authorized_iff e peer,
        mem-group_allow_all_chats e (channel_or_text channel_id),
        mem-group_allowed_users e (npub_or_text peer),
      )
      (gate (nonempty (channel_or_text channel_id))
        (lists_channel e (codes "VECTOR_GROUP_ALLOW_ALL") (channel_or_text channel_id))
        (nonempty (npub_or_text peer))
        (lists_user e (codes "VECTOR_ALLOWED_USERS") (npub_or_text peer))
        (lists_user e (codes "VECTOR_GROUP_ALLOWED_USERS") (npub_or_text peer)))
  where
    gate :
        (c l n u g : Bool)
        → (if c && l then true else if n && u then true else n && g) ≡ ((c && l) || (n && (u || g)))
    gate c l true u g = ground arith
    gate c l false u g = ground arith

-- Every spelling of a key is treated like the canonical one.
npub_or_text_canonical :
    (ref npub : Text) → normalize_npub ref ≡ some npub → npub_or_text ref ≡ npub_or_text npub
unfolding npub_or_text
npub_or_text_canonical ref npub h = rw (h, normalize_npub-normalize_npub ref npub h)

-- The three gates answer alike for a spelling of a key and for the canonical key.
pub gates_of_spelling :
    (e : Environ) (ref npub channel_id : Text)
    → normalize_npub ref ≡ some npub
    → (sender_is_authorized e ref ≡ sender_is_authorized e npub)
      × (group_sender_is_authorized e ref channel_id ≡ group_sender_is_authorized e npub channel_id)
      × (is_home_operator e ref ≡ is_home_operator e npub)
unfolding is_home_operator
gates_of_spelling e ref npub channel_id h =
    let same = npub_or_text_canonical ref npub h in
    let dm : sender_is_authorized e ref ≡ sender_is_authorized e npub =
      sender_is_authorized_iff e ref ∙ rw same (sym (sender_is_authorized_iff e npub)) in
    let group : group_sender_is_authorized e ref channel_id
        ≡ group_sender_is_authorized e npub channel_id =
      group_sender_is_authorized_iff e ref channel_id
      ∙ rw same (sym (group_sender_is_authorized_iff e npub channel_id)) in
    (dm, group, ap (λ (n : Text). is_operator n (home_operator_npub e)) same)
