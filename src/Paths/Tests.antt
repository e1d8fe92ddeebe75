-- ===== src/Paths/Tests.antt =====
-- Runs of the file names.
use hermes_vector_platform.Prelude.{
  ◌≡◌, ◌≤◌, refl, true, codes, all, length, strip, is_space, split_on, text_eq,
}
use hermes_vector_platform.Paths.{
  sanitize_filename, is_portable, inbox_name_max, without_nul, path_name, path_parts, cleaned_from,
  lstrip_edges, rstrip_edges,
}
use hermes_vector_platform.Paths.Sanitized.{starts_well, sanitize_filename_lem}

-- A path out of the folder is cut to its last part.
traversal : sanitize_filename (codes "../../.my photo!.png") (codes "file") ≡ codes "my_photo_.png"
unfolding sanitize_filename without_nul path_name path_parts cleaned_from lstrip_edges rstrip_edges
    strip is_space split_on text_eq
traversal = refl

sanitize_filename_lem_example :
    (length (sanitize_filename (codes "../../.my photo!.png") (codes "file")) ≤ inbox_name_max)
    × (all is_portable (sanitize_filename (codes "../../.my photo!.png") (codes "file")) ≡ true)
    × (starts_well (sanitize_filename (codes "../../.my photo!.png") (codes "file")) ≡ true)
sanitize_filename_lem_example =
    sanitize_filename_lem (codes "../../.my photo!.png") (codes "file") refl refl
