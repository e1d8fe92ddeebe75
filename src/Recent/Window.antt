-- ===== src/Recent/Window.antt =====
-- `_is_duplicate`, `_record_sent_message` and `_remember_reaction_id` as one operation on a window
-- of the most recent keys, and how long a key stays in the window.
use hermes_vector_platform.Prelude.{
  Text, ℕ, ◌+◌, ◌≤◌, ◌<◌, ◌≡◌, refl, ap, ◌∙◌, arith, Bool, true, false, Bool-cases, inl, inr, ◌||◌,
  Option, none, some, List, [], ◌∷◌, ◌++◌, length, length-append, text_eq, text_eq_iff,
  text_eq_refl, mem, nonempty, if◌then◌else◌,
}
use hermes_vector_platform.Recent.{
  trim, remove, is_duplicate, record_sent_message, remember_reaction_id, inbound_dedup_max,
  sent_ids_max,
}
use hermes_vector_platform.Recent.Keys.{
  trim_id, length-trim-le, mem-append, mem-remove, distinct, distinct-remove, distinct-concat,
  distinct-trim, length-remove-mem, length-remove-le,
}

-- The key is made the most recent one, and the oldest keys go that the bound leaves no room for.
unfoldable pub push : ℕ → Text → List Text → List Text
push bound key keys = trim bound (remove key keys ++ (key ∷ []))

pub record IsWindow (bound : ℕ) (keys : List Text) : Type 0 where
  pub fits : length keys ≤ bound
  pub once : distinct keys ≡ true

remove_absent : (k : Text) (ks : List Text) → mem k ks ≡ false → remove k ks ≡ ks
unfolding mem remove
remove_absent k [] h = refl
remove_absent k (i ∷ ks) h = ground (arith, remove_absent k ks)

-- On a window `_is_duplicate` answers membership and makes the id the most recent one.
pub is_duplicate-push :
    (msg_id : Text) (seen : List Text)
    → IsWindow inbound_dedup_max seen
    → nonempty msg_id ≡ true
    → is_duplicate msg_id seen ≡ (mem msg_id seen, push inbound_dedup_max msg_id seen)
unfolding is_duplicate push
is_duplicate-push msg_id seen w h = elim (Bool-cases (mem msg_id seen)) [
  | inl old ↦ rw (
    h,
    old,
    trim_id inbound_dedup_max (remove msg_id seen ++ (msg_id ∷ [])) (
        omega (
          arith,
          w.fits,
          length-append {0} (remove msg_id seen) (msg_id ∷ []),
          length-remove-mem msg_id seen old,
        )),
  )
  | inr new ↦ rw (h, new, remove_absent msg_id seen new)
]

-- Every one of the three keeps a window a window.
pub push-IsWindow :
    (bound : ℕ) (key : Text) (keys : List Text)
    → IsWindow bound keys
    → IsWindow bound (push bound key keys)
unfolding push
push-IsWindow bound key keys w = record {
  fits = length-trim-le bound (remove key keys ++ (key ∷ []));
  once = distinct-trim bound (remove key keys ++ (key ∷ [])) (
      distinct-concat key (remove key keys) (distinct-remove key keys w.once)
        (ground (arith, mem-remove key key keys, text_eq_refl key)));
}

-- How many keys are more recent than a key of the window.
behind : Text → List Text → ℕ
behind k [] = 0
behind k (x ∷ xs) = let rest = behind k xs in if mem k xs then rest else length xs

behind-remove :
    (k j : Text) (ks : List Text)
    → mem k ks ≡ true
    → text_eq k j ≡ false
    → behind k (remove j ks) ≤ behind k ks
unfolding mem remove behind
behind-remove k j [] h n = absurd (ground arith)
behind-remove k j (i ∷ ks) h n = ground (
  arith,
  behind-remove k j ks,
  mem-remove k j ks,
  length-remove-le j ks,
  text_eq_iff i j,
  text_eq_iff i k,
  text_eq_iff k j,
)

behind-concat :
    (k j : Text) (ks : List Text)
    → mem k ks ≡ true
    → text_eq j k ≡ false
    → behind k (ks ++ (j ∷ [])) ≡ behind k ks + 1
unfolding mem behind
behind-concat k j [] h n = absurd (ground arith)
behind-concat k j (i ∷ ks) h n =
    ground (arith, behind-concat k j ks, mem-append k ks (j ∷ []), length-append {0} ks (j ∷ []))

behind_last : (k : Text) (ks : List Text) → behind k (ks ++ (k ∷ [])) ≡ 0
unfolding mem behind
behind_last k [] = refl
behind_last k (i ∷ ks) = ground (arith, behind_last k ks, mem-append k ks (k ∷ []), text_eq_refl k)

behind-trim :
    (bound : ℕ) (k : Text) (ks : List Text)
    → mem k ks ≡ true
    → behind k ks < bound
    → (mem k (trim bound ks) ≡ true) × (behind k (trim bound ks) ≡ behind k ks)
unfolding mem behind trim
behind-trim bound k [] h n = absurd (ground arith)
behind-trim bound k (i ∷ ks) h n = elim (Bool-cases (mem k ks)) [
  | inl later ↦ ground (arith, behind-trim bound k ks)
  | inr only ↦ ground arith
]

mem_last : (k : Text) (b : Bool) → (b || mem k (k ∷ [])) ≡ true
unfolding mem
mem_last k b = ground (arith, text_eq_refl k)

-- One more key pushes an older one back by one place at most.
push_other :
    (bound : ℕ) (k j : Text) (ks : List Text)
    → mem k ks ≡ true
    → behind k ks + 1 < bound
    → (mem k (push bound j ks) ≡ true) × (behind k (push bound j ks) ≤ behind k ks + 1)
unfolding push
push_other bound k j ks h n = elim (Bool-cases (text_eq k j)) [
  | inl same ↦
      let e : k ≡ j = (text_eq_iff k j).0 same in
      let (kept, last) =
        behind-trim bound j (remove j ks ++ (j ∷ []))
          (rw (mem-append j (remove j ks) (j ∷ [])) (mem_last j (mem j (remove j ks))))
          (omega (arith, behind_last j (remove j ks))) in
      rw e (kept, omega (arith, last, behind_last j (remove j ks)))
  | inr other ↦
      let still : mem k (remove j ks) ≡ true = mem-remove k j ks ∙ rw (other, h) in
      let swapped : text_eq j k ≡ false = ground (arith, text_eq_iff k j, text_eq_iff j k) in
      let place = behind-concat k j (remove j ks) still swapped in
      let (kept, last) =
        behind-trim bound k (remove j ks ++ (j ∷ []))
          (rw (mem-append k (remove j ks) (j ∷ []), still))
          (omega (arith, place, behind-remove k j ks h other)) in
      (kept, omega (arith, last, place, behind-remove k j ks h other))
]

-- Calls of `_is_duplicate` one after the other.
pub run_ids : List Text → List Text → List Text
run_ids [] seen = seen
run_ids (i ∷ is) seen = run_ids is (is_duplicate i seen).1

step-IsWindow :
    (k i : Text) (seen : List Text)
    → IsWindow inbound_dedup_max seen
    → mem k seen ≡ true
    → behind k seen + 1 < inbound_dedup_max
    → IsWindow inbound_dedup_max (is_duplicate i seen).1
      × (mem k (is_duplicate i seen).1 ≡ true)
      × (behind k (is_duplicate i seen).1 ≤ behind k seen + 1)
step-IsWindow k i seen w h n = elim (Bool-cases (nonempty i)) [
  | inl id ↦
      let pushed : (is_duplicate i seen).1 ≡ push inbound_dedup_max i seen =
        ap (λ (r : Bool × List Text). r.1) (is_duplicate-push i seen w id) in
      let (kept, back) = push_other inbound_dedup_max k i seen h n in
      rw pushed (push-IsWindow inbound_dedup_max i seen w, kept, back)
  | inr blank ↦
      let same : (is_duplicate i seen).1 ≡ seen = unfold is_duplicate in rw blank in
      rw same (w, h, omega arith)
]

run-IsWindow :
    (k : Text) (ids seen : List Text)
    → IsWindow inbound_dedup_max seen
    → mem k seen ≡ true
    → behind k seen + length ids < inbound_dedup_max
    → IsWindow inbound_dedup_max (run_ids ids seen) × (mem k (run_ids ids seen) ≡ true)
unfolding run_ids
run-IsWindow k [] seen w h n = (w, h)
run-IsWindow k (i ∷ ids) seen w h n =
    let (w', h', n') = step-IsWindow k i seen w h (omega arith) in
    run-IsWindow k ids (is_duplicate i seen).1 w' h' (omega arith)

-- After a call with an id, the id is the most recent one.
just_seen :
    (k : Text) (seen : List Text)
    → IsWindow inbound_dedup_max seen
    → nonempty k ≡ true
    → (mem k (is_duplicate k seen).1 ≡ true) × (behind k (is_duplicate k seen).1 ≡ 0)
unfolding push
just_seen k seen w h =
    let (kept, last) =
      behind-trim inbound_dedup_max k (remove k seen ++ (k ∷ []))
        (rw (mem-append k (remove k seen) (k ∷ [])) (mem_last k (mem k (remove k seen))))
        (omega (arith, behind_last k (remove k seen))) in
    rw (is_duplicate-push k seen w h) (kept, omega (arith, last, behind_last k (remove k seen)))

pub now_seen :
    (k : Text) (seen : List Text)
    → IsWindow inbound_dedup_max seen
    → nonempty k ≡ true
    → mem k (is_duplicate k seen).1 ≡ true
now_seen k seen w h = (just_seen k seen w h).0

-- In a window of at most 1024 ids, an id that was seen, and is not empty, is still taken for a
-- duplicate after fewer than 1024 other calls, whatever ids these brought.
pub duplicate_within_window :
    (msg_id : Text) (ids seen : List Text)
    → IsWindow inbound_dedup_max seen
    → nonempty msg_id ≡ true
    → length ids < inbound_dedup_max
    → (is_duplicate msg_id (run_ids ids (is_duplicate msg_id seen).1)).0 ≡ true
duplicate_within_window msg_id ids seen w h n =
    let start = (is_duplicate msg_id seen).1 in
    let w' : IsWindow inbound_dedup_max start =
      rw (is_duplicate-push msg_id seen w h) (push-IsWindow inbound_dedup_max msg_id seen w) in
    let (there, last) = just_seen msg_id seen w h in
    let (w'', still) = run-IsWindow msg_id ids start w' there (omega arith) in
    rw (is_duplicate-push msg_id (run_ids ids start) w'' h) still

-- A call keeps the window: at most 1024 ids, none of them twice.
pub is_duplicate-IsWindow :
    (msg_id : Text) (seen : List Text)
    → IsWindow inbound_dedup_max seen
    → IsWindow inbound_dedup_max (is_duplicate msg_id seen).1
is_duplicate-IsWindow msg_id seen w = elim (Bool-cases (nonempty msg_id)) [
  | inl id ↦ rw (is_duplicate-push msg_id seen w id) (push-IsWindow inbound_dedup_max msg_id seen w)
  | inr blank ↦
      let same : (is_duplicate msg_id seen).1 ≡ seen = unfold is_duplicate in rw blank in rw same w
]

-- A call for a sent id keeps the window of sent ids: at most 1000 ids, none of them twice.
pub record_sent_message-IsWindow :
    (message_id : Option Text) (sent : List Text)
    → IsWindow sent_ids_max sent
    → IsWindow sent_ids_max (record_sent_message message_id sent)
unfolding record_sent_message
record_sent_message-IsWindow none sent w = w
record_sent_message-IsWindow (some []) sent w = w
record_sent_message-IsWindow (some (c ∷ cs)) sent w =
    unfold push in push-IsWindow sent_ids_max (c ∷ cs) sent w

pub remember_reaction_id-IsWindow :
    (reaction_id : Text) (seen : List Text)
    → IsWindow inbound_dedup_max seen
    → IsWindow inbound_dedup_max (remember_reaction_id reaction_id seen)
unfolding remember_reaction_id push
remember_reaction_id-IsWindow reaction_id seen w =
    push-IsWindow inbound_dedup_max reaction_id seen w
