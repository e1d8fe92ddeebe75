-- ===== src/Paths.antt =====
-- File names of internal/paths.py.
pub mod Sanitized
mod Tests
use hermes_vector_platform.Prelude.{
  Text, ℕ, Bool, true, false, not, ◌&&◌, ◌||◌, List, [], ◌∷◌, ◌==◌, leb, codes, strip, split_on,
  text_eq, get_last?, nonempty, or_else, take, if◌then◌else◌, Option,
}
use hermes_vector_platform.Env.{text_or}

abbrev pub inbox_name_max : ℕ
inbox_name_max = 180

unfoldable pub without_nul : Text → Text
without_nul [] = []
without_nul (c ∷ s) = let rest = without_nul s in if c == 0 then rest else c ∷ rest

-- The parts of a path that `Path` keeps.
unfoldable pub path_parts : List Text → List Text
path_parts [] = []
path_parts (part ∷ parts) =
    let rest = path_parts parts in
    if nonempty part && not (text_eq part (codes ".")) then part ∷ rest else rest

-- `Path(raw).name`
unfoldable pub path_name : Text → Text
path_name raw = text_or (get_last? (path_parts (split_on b'/' raw))) []

-- `[A-Za-z0-9._-]`
abbrev pub is_portable : ℕ → Bool
is_portable c =
    (leb b'A' c && leb c b'Z')
    || (leb b'a' c && leb c b'z')
    || (leb b'0' c && leb c b'9')
    || (c == b'.' || (c == b'_' || c == b'-'))

-- A run of other characters becomes one underscore; `inside` says that a run has begun.
unfoldable pub cleaned_from : Bool → Text → Text
cleaned_from inside [] = []
cleaned_from inside (c ∷ s) =
    let plain = cleaned_from false s in
    let run = cleaned_from true s in
    if is_portable c then c ∷ plain else if inside then run else b'_' ∷ run

abbrev pub is_edge : ℕ → Bool
is_edge c = c == b'.' || c == b'_'

unfoldable pub lstrip_edges : Text → Text
lstrip_edges [] = []
lstrip_edges (c ∷ s) = let rest = lstrip_edges s in if is_edge c then rest else c ∷ s

unfoldable pub rstrip_edges : Text → Text
rstrip_edges [] = []
rstrip_edges (c ∷ s) =
    let rest = rstrip_edges s in if is_edge c && not (nonempty rest) then [] else c ∷ rest

-- Behind `.strip("._")` the name is neither `.` nor `..`.
unfoldable pub sanitize_filename : Text → Text → Text
sanitize_filename name fallback =
    let raw = path_name (without_nul (strip name)) in
    take inbox_name_max (or_else (rstrip_edges (lstrip_edges (cleaned_from false raw))) fallback)
