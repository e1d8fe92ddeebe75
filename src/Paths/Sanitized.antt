-- ===== src/Paths/Sanitized.antt =====
-- What a sanitized file name looks like.
use hermes_vector_platform.Prelude.{
  Text, ℕ, zero, suc, ◌≡◌, refl, ap, ◌≤◌, Bool, true, false, not, ◌&&◌, [], ◌∷◌, strip, nonempty,
  or_else, take, all, length, length-take-le, &&-eq-true, Bool-cases, inl, inr, if◌then◌else◌,
}
use hermes_vector_platform.Paths.{
  inbox_name_max, is_portable, is_edge, without_nul, path_name, cleaned_from, lstrip_edges,
  rstrip_edges, sanitize_filename,
}

run_portable :
    (inside : Bool) (s : Text)
    → all is_portable s ≡ true
    → all is_portable (if inside then s else b'_' ∷ s) ≡ true
run_portable true s h = h
run_portable false s h = h

all-cleaned_from : (inside : Bool) (s : Text) → all is_portable (cleaned_from inside s) ≡ true
unfolding cleaned_from
all-cleaned_from inside [] = refl
all-cleaned_from inside (c ∷ s) = elim (Bool-cases (is_portable c)) [
  | inl e ↦ rw (e, e) (all-cleaned_from false s)
  | inr e ↦ rw e (run_portable inside (cleaned_from true s) (all-cleaned_from true s))
]

-- The text is empty, or starts with neither a dot nor an underscore.
abbrev pub starts_well : Text → Bool
starts_well [] = true
starts_well (c ∷ s) = not (is_edge c)

-- A name that is safe: portable characters, and no leading dot.
abbrev IsGood : Text → Type 0
IsGood s = (all is_portable s ≡ true) × (starts_well s ≡ true)

lstrip_edges-IsGood : (s : Text) → all is_portable s ≡ true → IsGood (lstrip_edges s)
unfolding lstrip_edges
lstrip_edges-IsGood [] h = (refl, refl)
lstrip_edges-IsGood (c ∷ s) h =
    let (first, rest) = &&-eq-true (is_portable c) (all is_portable s) h in
    elim (Bool-cases (is_edge c)) [
      | inl e ↦ rw e (lstrip_edges-IsGood s rest)
      | inr e ↦ rw (e, first) (rest, ap not e)
    ]

rstrip_edges_portable :
    (s : Text) → all is_portable s ≡ true → all is_portable (rstrip_edges s) ≡ true
unfolding rstrip_edges
rstrip_edges_portable [] h = refl
rstrip_edges_portable (c ∷ s) h =
    let (first, rest) = &&-eq-true (is_portable c) (all is_portable s) h in
    elim (Bool-cases (is_edge c && not (nonempty (rstrip_edges s)))) [
      | inl e ↦ rw e refl
      | inr e ↦ rw (e, first) (rstrip_edges_portable s rest)
    ]

rstrip_edges_start : (s : Text) → starts_well s ≡ true → starts_well (rstrip_edges s) ≡ true
unfolding rstrip_edges
rstrip_edges_start [] h = refl
rstrip_edges_start (c ∷ s) h = elim (Bool-cases (is_edge c && not (nonempty (rstrip_edges s)))) [
  | inl e ↦ rw e refl
  | inr e ↦ rw e h
]

all-take : (n : ℕ) (s : Text) → all is_portable s ≡ true → all is_portable (take n s) ≡ true
all-take zero s h = refl
all-take (suc n) [] h = refl
all-take (suc n) (c ∷ s) h =
    let (first, rest) = &&-eq-true (is_portable c) (all is_portable s) h in
    rw first (all-take n s rest)

take-IsGood : (n : ℕ) (s : Text) → IsGood s → IsGood (take n s)
take-IsGood zero s g = (refl, refl)
take-IsGood (suc n) [] g = g
take-IsGood (suc n) (c ∷ s) g = (all-take (suc n) (c ∷ s) g.0, g.1)

or_else-IsGood : (s t : Text) → IsGood s → IsGood t → IsGood (or_else s t)
or_else-IsGood [] t p q = q
or_else-IsGood (c ∷ s) t p q = p

-- A sanitized name has at most 180 characters, all of them letters, digits, dots, underscores or dashes,
-- so that it names no other folder; and it does not start with a dot or an underscore. The same must
-- hold of the characters of the fallback.
pub sanitize_filename_lem :
    (name fallback : Text)
    → all is_portable fallback ≡ true
    → starts_well fallback ≡ true
    → (length (sanitize_filename name fallback) ≤ inbox_name_max)
      × (all is_portable (sanitize_filename name fallback) ≡ true)
      × (starts_well (sanitize_filename name fallback) ≡ true)
unfolding sanitize_filename
sanitize_filename_lem name fallback h k =
    let cleaned = cleaned_from false (path_name (without_nul (strip name))) in
    let (portable, start) = lstrip_edges-IsGood cleaned (all-cleaned_from false _) in
    let stripped : IsGood (rstrip_edges (lstrip_edges cleaned)) = (
      rstrip_edges_portable (lstrip_edges cleaned) portable,
      rstrip_edges_start (lstrip_edges cleaned) start,
    ) in
    let chosen = or_else (rstrip_edges (lstrip_edges cleaned)) fallback in
    let good =
      take-IsGood inbox_name_max chosen
        (or_else-IsGood (rstrip_edges (lstrip_edges cleaned)) fallback stripped (h, k)) in
    (length-take-le inbox_name_max chosen, good.0, good.1)
