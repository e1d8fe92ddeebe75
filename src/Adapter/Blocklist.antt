-- ===== src/Adapter/Blocklist.antt =====
-- The mute list of the sidecar as adapter.py keeps it.
use hermes_vector_platform.Prelude.{
  Text, Bool, true, false, ◌&&◌, ◌||◌, not, Option, none, some, List, [], ◌∷◌, map, codes, mem,
  nonempty, ◌==◌, if◌then◌else◌,
}
use hermes_vector_platform.Prelude.Dicts.{add}
use hermes_vector_platform.Prelude.Sorted.{text_lt, sort}
use hermes_vector_platform.Prelude.Values.{Value, get, text_of, is_obj, is_arr, items_of}
use hermes_vector_platform.Recent.{remove}
use hermes_vector_platform.Groups.{npub_or_text}
use hermes_vector_platform.Adapter.{World, Reply, unreachable, answer, get_block, post_block}
use hermes_vector_platform.Adapter.Act.{Act, pure, ◌>>=◌, ◌>>◌, gets, modify, skip, ask}
use hermes_vector_platform.Adapter.Outbound.{is_200}

-- The JSON of a reply with status 200, where it can be read.
unfoldable pub json_200 : Reply → Option Value
json_200 unreachable = none
json_200 (answer status error body) = if status == 200 then body else none

-- `row.get("npub") if isinstance(row, dict) else row`
abbrev pub row_npub : Value → Text
row_npub row = npub_or_text (text_of (if is_obj row then get (codes "npub") row else row))

unfoldable pub blocked_rows : List Value → List Text
blocked_rows [] = []
blocked_rows (row ∷ rows) =
    let found = blocked_rows rows in
    if nonempty (row_npub row) then add (row_npub row) found else found

unfoldable pub load_blocked : List Text → Act (Unit {0})
load_blocked found = modify (λ s. record s { blocked_npubs = found; blocked_loaded = true })

unfoldable pub refreshed : Option Value → Act (Unit {0})
refreshed none = skip
refreshed (some body) = load_blocked (blocked_rows (items_of (get (codes "blocked") body)))

unfoldable pub mark_loaded : Act (Unit {0})
mark_loaded = modify (λ s. record s { blocked_loaded = true })

unfoldable pub refresh_blocked : World → Act (Unit {0})
refresh_blocked w = do
  connected ← gets (λ s. s.connected)
  if connected then (do reply ← ask w get_block; refreshed (json_200 reply)) else mark_loaded

unfoldable pub is_blocked : World → Text → Act Bool
is_blocked w peer =
    let npub = npub_or_text peer in
    if nonempty npub
    then (do
      loaded ← gets (λ s. s.blocked_loaded)
      if loaded then skip else refresh_blocked w
      gets (λ s. mem npub s.blocked_npubs))
    else pure false

-- The cached list after the sidecar took the change.
unfoldable pub set_blocked : Text → Bool → Act (Unit {0})
set_blocked target unblock = modify (λ s. record s {
  blocked_npubs = if unblock then remove target s.blocked_npubs else add target s.blocked_npubs;
  blocked_loaded = true;
})

unfoldable pub block_user : World → Text → Bool → Act Bool
block_user w npub unblock = do
  let target = npub_or_text npub
  connected ← gets (λ s. s.connected)
  if not connected || not (nonempty target) then pure false else (do
    reply ← ask w (post_block target unblock)
    if is_200 reply then (do set_blocked target unblock; pure true) else pure false)

-- A row of `list_blocked`.
pub record Muted : Type 0 where
  pub npub : Text
  pub name : Text
  pub display_name : Text

abbrev pub bare : Text → Muted
bare npub = record { npub = npub; name = []; display_name = [] }

unfoldable pub muted_rows : List Value → List Muted
muted_rows [] = []
muted_rows (row ∷ rows) =
    let rest = muted_rows rows in
    if is_obj row && nonempty (row_npub row)
    then record {
      npub = row_npub row;
      name = text_of (get (codes "name") row);
      display_name = text_of (get (codes "display_name") row);
    }
      ∷ rest
    else rest

unfoldable pub found_npubs : List Muted → List Text
found_npubs [] = []
found_npubs (row ∷ rows) = add row.npub (found_npubs rows)

unfoldable pub listed : Option Value → Act (List Muted)
listed none = gets (λ s. map bare (sort text_lt s.blocked_npubs))
listed (some body) =
    let rows = get (codes "blocked") body in
    if is_arr rows
    then (do let out = muted_rows (items_of rows); load_blocked (found_npubs out); pure out)
    else pure []

unfoldable pub list_blocked : World → Act (List Muted)
list_blocked w = do
  refresh_blocked w
  connected ← gets (λ s. s.connected)
  if connected
      then (do reply ← ask w get_block; listed (json_200 reply))
      else gets (λ s. map bare (sort text_lt s.blocked_npubs))
