-- ===== src/Groups/Merge.antt =====
-- `_merge_allowed_users`: what setup saves in VECTOR_ALLOWED_USERS, read back.
use mathlib.Core.Path.{subst, ap₂}
use hermes_vector_platform.Prelude.{
  Text, ◌≡◌, refl, ap, ◌∙◌, arith, Bool, false, Bool-cases, inl, inr, ◌||◌, Option, none, some,
  List, [], ◌∷◌, ◌++◌, codes, mem, text_eq, any, strip, split_on, split_from, join,
}
use hermes_vector_platform.Prelude.Dicts.{add}
use hermes_vector_platform.Bech32.{normalize_npub}
use hermes_vector_platform.Bech32.Canonical.{
  normalize_npub-normalize_npub, is_comma, normalize_npub_commas, strip_canonical,
}
use hermes_vector_platform.Groups.{
  merge_one, merge_parts, merge_allowed_users, npubs_from_csv, collect,
}
use hermes_vector_platform.Groups.Access.{mem-add, named_as, names, mem-collect}

abbrev user : Text → Option Text
user part = normalize_npub (strip part)

-- All ids of a list are canonical keys.
abbrev AllCanonical : List Text → Type 0
AllCanonical [] = Unit
AllCanonical (k ∷ ks) = (normalize_npub k ≡ some k) × AllCanonical ks

AllCanonical-add :
    (k : Text) (ks : List Text)
    → normalize_npub k ≡ some k
    → AllCanonical ks
    → AllCanonical (add k ks)
unfolding add
AllCanonical-add k ks h hs = elim (Bool-cases (mem k ks)) [
  | inl old ↦ rw old hs
  | inr new ↦ rw new (at_end ks hs)
]
  where
    at_end : (js : List Text) → AllCanonical js → AllCanonical (js ++ (k ∷ []))
    at_end [] hj = (h, tt)
    at_end (j ∷ js) (p, hj) = (p, at_end js hj)

merge_parts-AllCanonical :
    (seen parts : List Text) → AllCanonical seen → AllCanonical (merge_parts seen parts)
unfolding merge_parts
merge_parts-AllCanonical seen [] h = h
merge_parts-AllCanonical seen (part ∷ parts) h =
    merge_parts-AllCanonical (merge_one seen (user part)) parts (one (user part) refl)
  where
    one : (o : Option Text) → user part ≡ o → AllCanonical (merge_one seen o)
    one none e = h
    one (some npub) e =
        AllCanonical-add npub seen (normalize_npub-normalize_npub (strip part) npub e) h

mem-merge_parts :
    (k : Text) (seen parts : List Text)
    → mem k (merge_parts seen parts) ≡ (mem k seen || any (names user k) parts)
unfolding merge_parts
mem-merge_parts k seen [] = ground arith
mem-merge_parts k seen (part ∷ parts) =
    mem-merge_parts k (merge_one seen (user part)) parts
    ∙ one (user part) (any (names user k) parts)
  where
    one :
        (o : Option Text) (b : Bool)
        → (mem k (merge_one seen o) || b) ≡ (mem k seen || (named_as o k || b))
    one none b = refl
    one (some npub) b = ground (arith, mem-add k npub seen)

-- Splitting what was joined, where the separator stands in no part.
split_from_part : (x : Text) → any is_comma x ≡ false → split_from b',' x ≡ (x, [])
unfolding split_from
split_from_part [] h = refl
split_from_part (c ∷ x) h = ground (arith, split_from_part x)

split_from_more :
    (x s : Text)
    → any is_comma x ≡ false
    → split_from b',' (x ++ (b',' ∷ s)) ≡ (x, (split_from b',' s).0 ∷ (split_from b',' s).1)
unfolding split_from
split_from_more [] s h = refl
split_from_more (c ∷ x) s h = ground (arith, split_from_more x s)

NoCommas : List Text → Type 0
NoCommas [] = Unit
NoCommas (x ∷ xs) = (any is_comma x ≡ false) × NoCommas xs

split_on-join :
    (x : Text) (xs : List Text)
    → NoCommas (x ∷ xs)
    → split_on b',' (join (codes ",") (x ∷ xs)) ≡ x ∷ xs
unfolding split_on join NoCommas
split_on-join x [] (h, hs) = rw (split_from_part x h)
split_on-join x (y ∷ ys) (h, hs) =
    rw (split_from_more x (join (codes ",") (y ∷ ys)) h) (ap (◌∷◌ x) (split_on-join y ys hs))

AllCanonical-NoCommas : (ks : List Text) → AllCanonical ks → NoCommas ks
unfolding NoCommas
AllCanonical-NoCommas [] h = tt
AllCanonical-NoCommas (k ∷ ks) (p, h) = (normalize_npub_commas k k p, AllCanonical-NoCommas ks h)

-- A list of canonical keys is what it is read as.
read_canonical : (id : Text) (ks : List Text) → AllCanonical ks → any (names user id) ks ≡ mem id ks
unfolding mem
read_canonical id [] h = refl
read_canonical id (k ∷ ks) (p, h) =
    ap₂ (λ (o : Option Text) (b : Bool). named_as o id || b)
      (ap normalize_npub (strip_canonical k k p) ∙ p) (read_canonical id ks h)

merge_one-cons :
    (operator : Text) (seen : List Text) (o : Option Text)
    → (more : List Text) × (merge_one (operator ∷ seen) o ≡ operator ∷ more)
unfolding add
merge_one-cons operator seen none = (seen, refl)
merge_one-cons operator seen (some npub) = elim (Bool-cases (mem npub (operator ∷ seen))) [
  | inl old ↦ (seen, rw old)
  | inr new ↦ (seen ++ (npub ∷ []), rw new)
]

merge_parts-cons :
    (operator : Text) (parts seen : List Text)
    → (rest : List Text) × (merge_parts (operator ∷ seen) parts ≡ operator ∷ rest)
unfolding merge_parts
merge_parts-cons operator [] seen = (seen, refl)
merge_parts-cons operator (part ∷ parts) seen =
    let (more, shape) = merge_one-cons operator seen (user part) in
    let (rest, merged) = merge_parts-cons operator parts more in
    (rest, ap (λ (ks : List Text). merge_parts ks parts) shape ∙ merged)

one_key : (a b : Bool) → ((a || false) || b) ≡ (a || b)
one_key a b = ground arith

-- Where the operator is written as a canonical key, a reader of the saved list finds the operator,
-- the keys that were listed before, and no others.
pub merge_allowed_users_lem :
    (operator existing id : Text)
    → normalize_npub operator ≡ some operator
    → mem id (npubs_from_csv (merge_allowed_users operator existing))
      ≡ (text_eq operator id || mem id (npubs_from_csv existing))
unfolding merge_allowed_users npubs_from_csv mem
merge_allowed_users_lem operator existing id h =
    let parts = split_on b',' existing in
    let merged = merge_parts (operator ∷ []) parts in
    let canonical = merge_parts-AllCanonical (operator ∷ []) parts (h, tt) in
    let (rest, shape) = merge_parts-cons operator parts [] in
    let back : split_on b',' (join (codes ",") merged) ≡ merged = rw shape (
      split_on-join operator rest
        (AllCanonical-NoCommas (operator ∷ rest) (subst AllCanonical shape canonical))) in
    let only : (mem id (operator ∷ []) || any (names user id) parts)
        ≡ (text_eq operator id || mem id (collect user parts)) =
      rw (mem-collect user id parts) (one_key (text_eq operator id) (any (names user id) parts)) in
    mem-collect user id (split_on b',' (join (codes ",") merged))
    ∙ (ap (any (names user id)) back
        ∙ (read_canonical id merged canonical ∙ (mem-merge_parts id (operator ∷ []) parts ∙ only)))
