-- ===== src/Adapter/Rooms.antt =====
-- The channels that the bot is in: `_ingest_joined_channels`, `_mark_channels_notified` and
-- `_notify_joined_channels` of adapter.py, and the notice of internal/groups.py.
use hermes_vector_platform.Prelude.{
  Text, ◌&&◌, Option, none, some, List, [], ◌∷◌, ◌++◌, map, codes, strip, mem, nonempty, or_else,
  join, if◌then◌else◌,
}
use hermes_vector_platform.Prelude.Dicts.{lookup, put}
use hermes_vector_platform.Prelude.Values.{Value, get, text_of, is_obj}
use hermes_vector_platform.Bech32.{normalize_channel_id}
use hermes_vector_platform.Env.{text_or}
use hermes_vector_platform.Groups.{remember_channel, home_operator_npub, union}
use hermes_vector_platform.Adapter.{Adapter, World, persist_notified}
use hermes_vector_platform.Adapter.Act.{Act, pure, ◌>>=◌, ◌>>◌, gets, modify, skip, emit}
use hermes_vector_platform.Adapter.Labels.{remember_group_room}
use hermes_vector_platform.Adapter.Outbound.{send}

pub record Room : Type 0 where
  pub channel_id : Text
  pub name : Text

-- The rows that are mappings with a channel id.
unfoldable pub room_of : Value → Option Room
room_of row = elim (normalize_channel_id (text_of (get (codes "channel_id") row))) [
  | none ↦ none
  | some cid ↦
      if is_obj row
      then some (record { channel_id = cid; name = strip (text_of (get (codes "name") row)) })
      else none
]

unfoldable pub rooms_of : List Value → List Room
rooms_of [] = []
rooms_of (row ∷ rows) = elim (room_of row) [
  | none ↦ rooms_of rows
  | some room ↦ room ∷ rooms_of rows
]

unfoldable pub remember_rooms : Text → Text → List Room → Act (Unit {0})
remember_rooms community_id comm_name [] = skip
remember_rooms community_id comm_name (room ∷ rooms) = do
  modify
      (λ s. record s { known_channel_ids = remember_channel room.channel_id s.known_channel_ids })
  remember_group_room community_id room.channel_id comm_name room.name
  remember_rooms community_id comm_name rooms

-- `community_name.strip() or self._community_names.get(community_id.strip(), "")`
abbrev pub known_name : Adapter → Text → Text → Text
known_name s community_id community_name =
    or_else (strip community_name) (text_or (lookup (strip community_id) s.community_names) [])

unfoldable pub ingest_joined_channels : Text → List Value → Text → Act (List Room)
ingest_joined_channels community_id channels community_name = do
  comm_name ← gets (λ s. known_name s community_id community_name)
  if nonempty (strip community_id) && nonempty comm_name
      then modify
          (λ s. record s { community_names = put (strip community_id) comm_name s.community_names })
      else skip
  let rooms = rooms_of channels
  remember_rooms community_id comm_name rooms
  pure rooms

unfoldable pub mark_channels_notified : List Text → Act (Unit {0})
mark_channels_notified ids = do
  modify (λ s. record s { notified_channel_ids = union ids s.notified_channel_ids })
  notified ← gets (λ s. s.notified_channel_ids)
  emit (persist_notified notified)

unfoldable pub channel_line : Room → Text
channel_line room =
    codes "channel_id: "
    ++ (room.channel_id
        ++ (if nonempty room.name then codes "  (" ++ (room.name ++ codes ")") else []))

unfoldable pub format_joined_notice : Text → List Room → Text → Text
format_joined_notice community_id rooms community_name =
    let title = strip community_name in
    let cid = strip community_id in
    join (codes "\n") (
      (if nonempty title
        then codes "Vector: I joined " ++ (title ++ codes ".")
        else codes "Vector: I joined a community.")
      ∷ codes
          "Copy a channel_id into vector.communities.open_channels in config.yaml if you want every member to @mention me."
      ∷ []
      ∷ ((if nonempty cid then (codes "community_id: " ++ cid) ∷ [] else [])
          ++ (map channel_line rooms
              ++ ([]
                  ∷ codes "You can already @mention me there if you are on VECTOR_ALLOWED_USERS."
                  ∷ []))))

-- The rooms that were not announced yet.
unfoldable pub unannounced : List Text → List Room → List Room
unannounced notified [] = []
unannounced notified (room ∷ rooms) =
    let rest = unannounced notified rooms in
    if mem room.channel_id notified then rest else room ∷ rest

-- The notice to the operator, and the mark once it is delivered. Without an operator the rooms are
-- marked at once; without a connection they wait.
unfoldable pub announced : World → Text → Text → Room → List Room → Option Text → Act (Unit {0})
announced w community_id comm_name room rooms none =
    mark_channels_notified (map (λ r. r.channel_id) (room ∷ rooms))
announced w community_id comm_name room rooms (some home) = do
  live ← gets (λ s. s.running && s.connected)
  if live
      then (do
        result ← send w home (format_joined_notice community_id (room ∷ rooms) comm_name) none
        if result.success
            then mark_channels_notified (map (λ r. r.channel_id) (room ∷ rooms))
            else skip)
      else skip

unfoldable pub announce : World → Text → Text → List Room → Act (Unit {0})
announce w community_id comm_name [] = skip
announce w community_id comm_name (room ∷ rooms) =
    announced w community_id comm_name room rooms (home_operator_npub w.env)

unfoldable pub notify_joined_channels : World → Text → List Value → Text → Act (Unit {0})
notify_joined_channels w community_id channels community_name = do
  comm_name ← gets (λ s. known_name s community_id community_name)
  rooms ← ingest_joined_channels community_id channels comm_name
  notified ← gets (λ s. s.notified_channel_ids)
  announce w community_id comm_name (unannounced notified rooms)
