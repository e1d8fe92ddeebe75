-- ===== src/Setup.antt =====
-- The wizard's care of the bot's identity in internal/setup.py: the files are moved aside before a new
-- identity is made, and put back where that fails. A folder is a dictionary from file names to contents.
pub mod Recovery
mod Interrupted
mod Tests
use hermes_vector_platform.Prelude.{
  Text, Bool, true, false, not, ◌&&◌, ◌||◌, Option, none, some, List, [], ◌∷◌, ◌++◌, codes, strip,
  lower, mem, starts_with, nonempty, length, take, drop, text_eq, ◌-◌, if◌then◌else◌,
}
use hermes_vector_platform.Prelude.Dicts.{Dict, lookup, put, pop}
use hermes_vector_platform.Prelude.Values.{Value, has, is_obj}
use hermes_vector_platform.Sidecar.Prebuilt.{splitlines}

-- Which files the disk lets be unlinked and renamed, by their names.
pub record Moves : Type 0 where
  pub unlinks : Text → Bool
  pub renames : Text → Bool

abbrev pub identity_names : List Text
identity_names = codes "identity.nsec" ∷ codes "identity.mnemonic" ∷ []

abbrev pub bak_of : Text → Text
bak_of name = name ++ codes ".bak"

-- `src.replace(bak)`
abbrev pub rename_to : Text → Text → Text → Dict → Dict
rename_to name target content files = put target content (pop name files)

abbrev pub is_there : Option Text → Bool
is_there none = false
is_there (some content) = true

-- What a backup answers, `none` where an OSError leaves it, and the folder behind it.
abbrev pub Backup : Type 0 → Type 0
Backup A = Option A × Dict

unfoldable pub backup_found : Moves → Text → Option Text → Dict → Backup (Option Text)
backup_found m name none files = (some none, files)
backup_found m name (some content) files =
    let bak = bak_of name in
    if is_there (lookup bak files) && not (m.unlinks bak)
    then (none, files)
    else if m.renames name
    then (some (some bak), rename_to name bak content (pop bak files))
    else (none, pop bak files)

unfoldable pub backup_identity_file : Moves → Text → Dict → Backup (Option Text)
backup_identity_file m name files = backup_found m name (lookup name files) files

abbrev pub with_bak : Option Text → List Text → List Text
with_bak none baks = baks
with_bak (some bak) baks = bak ∷ baks

abbrev pub with_first : Option Text → Option (List Text) → Option (List Text)
with_first bak none = none
with_first bak (some baks) = some (with_bak bak baks)

-- The backup of a file, and those of the files behind it, which an OSError skips.
unfoldable pub behind_first : Backup (Option Text) → Backup (List Text) → Backup (List Text)
behind_first (none, moved) (baks, all_moved) = (none, moved)
behind_first (some bak, moved) (baks, all_moved) = (with_first bak baks, all_moved)

unfoldable pub backup_names : Moves → List Text → Dict → Backup (List Text)
backup_names m [] files = (some [], files)
backup_names m (name ∷ names) files =
    let first = backup_identity_file m name files in
    behind_first first (backup_names m names first.1)

unfoldable pub backup_identity : Moves → Dict → Backup (List Text)
backup_identity m files = backup_names m identity_names files

abbrev pub ends_with_bak : Text → Bool
ends_with_bak name = text_eq (drop (length name - 4) name) (codes ".bak")

-- `name[: -len(".bak")]`
abbrev pub original : Text → Text
original bak = take (length bak - 4) bak

-- The old file is unlinked if it can be, then the backup is renamed if it can be.
unfoldable pub restore_found : Moves → Text → Option Text → Dict → Dict
restore_found m bak none files = files
restore_found m bak (some content) files =
    if ends_with_bak bak
    then (let cleared = if m.unlinks (original bak) then pop (original bak) files else files in
        if m.renames bak then rename_to bak (original bak) content cleared else cleared)
    else files

unfoldable pub restore_identity_backup : Moves → Text → Dict → Dict
restore_identity_backup m bak files = restore_found m bak (lookup bak files) files

-- `for bak in baks: _restore_identity_backup(bak)`
unfoldable pub restore_all : Moves → List Text → Dict → Dict
restore_all m [] files = files
restore_all m (bak ∷ baks) files = restore_all m baks (restore_identity_backup m bak files)

-- `src.is_file() and src.stat().st_size > 0`
abbrev pub is_filled : Option Text → Bool
is_filled none = false
is_filled (some content) = nonempty content

-- One round of the loop.
unfoldable pub adopt_one : Moves → Text → Dict → Dict
adopt_one m name files =
    if is_filled (lookup name files) then files else restore_identity_backup m (bak_of name) files

unfoldable pub adopt_names : Moves → List Text → Dict → Dict
adopt_names m [] files = files
adopt_names m (name ∷ names) files = adopt_names m names (adopt_one m name files)

unfoldable pub adopt_stale_identity_backup : Moves → Dict → Dict
adopt_stale_identity_backup m files = adopt_names m identity_names files

unfoldable pub discard_identity_backups : Moves → List Text → Dict → Dict
discard_identity_backups m [] files = files
discard_identity_backups m (bak ∷ baks) files =
    discard_identity_backups m baks (if m.unlinks bak then pop bak files else files)

abbrev pub Bridge : Type 0
Bridge = Dict → Bool × Dict

-- `vector-bridge --setup` runs, which answers whether it made an identity and may change files, and the
-- backups are dropped or put back. Behind an OSError nothing is run, and there is no list of backups
-- to put back.
unfoldable pub run_setup : Moves → Bridge → Backup (List Text) → Bool × Dict
run_setup m bridge (none, moved) = (false, moved)
run_setup m bridge (some baks, aside) =
    let (ok, behind) = bridge aside in
    if ok
    then (true, discard_identity_backups m baks behind)
    else (false, restore_all m baks behind)

-- The identity is moved aside where it is to be replaced.
unfoldable pub replace_identity : Moves → Bool → Bridge → Dict → Bool × Dict
replace_identity m wipe bridge files =
    if wipe
    then run_setup m bridge (backup_identity m files)
    else run_setup m bridge (some [], files)

unfoldable pub identity_nsec_locally_unreadable : (Text → Bool) → Dict → Bool
identity_nsec_locally_unreadable readable files = elim (lookup (codes "identity.nsec") files) [
  | none ↦ false
  | some content ↦ if nonempty content then not (readable (codes "identity.nsec")) else true
]

unfoldable pub normalize_identity_choice : Text → Option Text
normalize_identity_choice raw =
    let value = lower (strip raw) in
    if mem value (codes "c" ∷ codes "create" ∷ codes "new" ∷ [])
    then some (codes "create")
    else if mem value (codes "n" ∷ codes "nsec" ∷ codes "import" ∷ codes "import nsec" ∷ [])
    then some (codes "nsec")
    else if mem value (codes "m" ∷ codes "mnemonic" ∷ codes "seed" ∷ codes "import mnemonic" ∷ [])
    then some (codes "mnemonic")
    else none

-- `"status" in data or "code" in data or "error" in data`
abbrev pub carries_report : Value → Bool
carries_report v = has (codes "status") v || has (codes "code") v || has (codes "error") v

abbrev pub report_or : Option Value → Option Value → Option Value
report_or none later = later
report_or (some v) later = if is_obj v then (if carries_report v then some v else later) else later

unfoldable pub report_in : (Text → Option Value) → List Text → Option Value
report_in loads [] = none
report_in loads (raw ∷ lines) =
    let later = report_in loads lines in
    if starts_with (strip raw) (codes "{") then report_or (loads (strip raw)) later else later

-- `json.loads`, with `none` where it raises, is the parameter.
unfoldable pub parse_bridge_json : (Text → Option Value) → Text → Option Value
parse_bridge_json loads text = report_in loads (splitlines text)
