-- ===== src/Adapter/Sync.antt =====
-- `_sync_joined_channels` of adapter.py: the channels of the communities that the bot belongs to.
use hermes_vector_platform.Prelude.{
  Text, ◌&&◌, Option, none, some, List, [], ◌∷◌, ◌++◌, codes, strip, nonempty, if◌then◌else◌,
}
use hermes_vector_platform.Prelude.Dicts.{put}
use hermes_vector_platform.Prelude.Values.{
  Value, obj, str, field, end, get, text_of, is_obj, items_of,
}
use hermes_vector_platform.Bech32.{normalize_channel_id}
use hermes_vector_platform.Groups.{remember_channel}
use hermes_vector_platform.Adapter.{World, get_communities}
use hermes_vector_platform.Adapter.Act.{Act, pure, ◌>>=◌, ◌>>◌, gets, modify, skip, ask}
use hermes_vector_platform.Adapter.Labels.{remember_group_room}
use hermes_vector_platform.Adapter.Blocklist.{json_200}
use hermes_vector_platform.Adapter.Rooms.{notify_joined_channels}

-- `{"channel_id": cid, "name": name}`
abbrev pub channel_row : Text → Text → Value
channel_row cid name =
    obj [] (field (codes "channel_id") (str cid) (field (codes "name") (str name) end))

unfoldable pub note_channel : Text → Text → Value → Option Text → Act (List Value)
note_channel community_id community_name ch none = pure []
note_channel community_id community_name ch (some cid) = do
  modify (λ s. record s { known_channel_ids = remember_channel cid s.known_channel_ids })
  remember_group_room community_id cid community_name (strip (text_of (get (codes "name") ch)))
  pure (channel_row cid (text_of (get (codes "name") ch)) ∷ [])

unfoldable pub note_channels : Text → Text → List Value → Act (List Value)
note_channels community_id community_name [] = pure []
note_channels community_id community_name (ch ∷ more) =
    let rest = note_channels community_id community_name more in
    if is_obj ch
    then (do
      row ←
          note_channel community_id community_name ch
            (normalize_channel_id (text_of (get (codes "channel_id") ch)))
      rows ← rest
      pure (row ++ rows))
    else rest

unfoldable pub sync_community : World → Value → Act (Unit {0})
sync_community w community =
    let community_id = text_of (get (codes "community_id") community) in
    let community_name = strip (text_of (get (codes "name") community)) in
    if is_obj community
    then (do
      if nonempty community_id && nonempty community_name
          then modify (λ s. record s {
            community_names = put community_id community_name s.community_names;
          })
          else skip
      rows ← note_channels community_id community_name (items_of (get (codes "channels") community))
      if nonempty rows then notify_joined_channels w community_id rows community_name else skip)
    else skip

unfoldable pub sync_communities : World → List Value → Act (Unit {0})
sync_communities w [] = skip
sync_communities w (community ∷ more) = do sync_community w community; sync_communities w more

unfoldable pub synced : World → Option Value → Act (Unit {0})
synced w none = skip
synced w (some body) = sync_communities w (items_of (get (codes "communities") body))

unfoldable pub sync_joined_channels : World → Act (Unit {0})
sync_joined_channels w = do
  connected ← gets (λ s. s.connected)
  if connected then (do reply ← ask w get_communities; synced w (json_200 reply)) else skip
