-- ===== src/Groups/Context/History/Rows.antt =====
-- The rows of the background.
use mathlib.Core.Path.{subst}
use hermes_vector_platform.Prelude.{
  some, none, ap, ◌+◌, ◌*◌, ◌==◌, leb, ◌⊎◌, ◌||◌, Text, ℕ, zero, suc, ◌-◌, ◌≡◌, refl, ◌≤◌, ◌<◌,
  Bool, true, false, not, ◌&&◌, List, [], ◌∷◌, ltb, mem, nonempty, length, drop, all, length-drop,
  &&-eq-true, ltb→lt, Bool-cases, inl, inr, text_eq, if◌then◌else◌, Option, arith,
}
use hermes_vector_platform.Prelude.Numbers.{Signed, is_negative}
use hermes_vector_platform.Prelude.Sorted.{text_lt, insert_sorted, sort}
use hermes_vector_platform.Prelude.Values.{Value, is_obj}
use hermes_vector_platform.Groups.Context.History.{
  history_at_ms, is_before, is_recent, minus, of_nat, anchor, horizon_ms, pair_lt, signed_lt,
  signed_eq, Trigger, history_id_key, row_id, is_background, history_row_before_trigger, keep_rows,
  row_before, last_rows, context_rows,
}

if_all :
    (p : Value → Bool) (b : Bool) (xs ys : List Value)
    → (b ≡ true → all p xs ≡ true)
    → all p ys ≡ true
    → all p (if b then xs else ys) ≡ true
if_all p true xs ys g h = g refl
if_all p false xs ys g h = h

module _ (whole : Text → Option Signed) (t : Trigger) where
  all-keep_rows :
      (seen : List Text) (raw : List Value)
      → all (is_background whole t) (keep_rows whole t seen raw) ≡ true
  unfolding keep_rows
  all-keep_rows seen [] = refl
  all-keep_rows seen (item ∷ raw) =
      let skipped = all-keep_rows seen raw in
      let kept = all-keep_rows (if nonempty (row_id item) then row_id item ∷ seen else seen) raw in
      if_all _ (not (is_obj item)) _ _ (λ _. skipped)
        (if_all _ (nonempty (row_id item) && mem (row_id item) seen) _ _ (λ _. skipped)
          (if_all _ (is_background whole t item) _ _ (λ e. rw e kept) skipped))

module _ (p : Value → Bool) (before : Value → Value → Bool) where
  all-insert_sorted :
      (x : Value) (ys : List Value)
      → p x ≡ true
      → all p ys ≡ true
      → all p (insert_sorted before x ys) ≡ true
  unfolding insert_sorted
  all-insert_sorted x [] h k = rw h refl
  all-insert_sorted x (y ∷ ys) h k =
      let (first, rest) = &&-eq-true (p y) (all p ys) k in
      if_all p (before y x) _ _ (λ _. rw first (all-insert_sorted x ys h rest)) (rw (h, first) rest)

  all-sort : (xs : List Value) → all p xs ≡ true → all p (sort before xs) ≡ true
  unfolding sort
  all-sort [] h = refl
  all-sort (x ∷ xs) h =
      let (first, rest) = &&-eq-true (p x) (all p xs) h in
      all-insert_sorted x (sort before xs) first (all-sort xs rest)

all-drop : (p : Value → Bool) (n : ℕ) (xs : List Value) → all p xs ≡ true → all p (drop n xs) ≡ true
all-drop p zero xs h = h
all-drop p (suc n) [] h = refl
all-drop p (suc n) (x ∷ xs) h = all-drop p n xs (&&-eq-true (p x) (all p xs) h).1

all-last_rows :
    (p : Value → Bool) (n : ℕ) (xs : List Value) → all p xs ≡ true → all p (last_rows n xs) ≡ true
unfolding last_rows
all-last_rows p n xs h =
    if_all p (ltb 0 n && ltb n (length xs)) (drop (length xs - n) xs) xs
      (λ _. all-drop p (length xs - n) xs h) h

length-last_rows : (n : ℕ) (xs : List Value) → 0 < n → length (last_rows n xs) ≤ n
unfolding last_rows
length-last_rows n xs h = elim (Bool-cases (ltb 0 n && ltb n (length xs))) [
  | inl e ↦
      let more = ltb→lt n (length xs) (&&-eq-true (ltb 0 n) (ltb n (length xs)) e).1 in
      rw e (omega (arith, length-drop (length xs - n) xs))
  | inr e ↦ rw e (ground (arith))
]

all_implies :
    (p q : Value → Bool) (xs : List Value)
    → ((x : Value) → p x ≡ true → q x ≡ true)
    → all p xs ≡ true
    → all q xs ≡ true
all_implies p q [] f h = refl
all_implies p q (x ∷ xs) f h =
    let (first, rest) = &&-eq-true (p x) (all p xs) h in rw (f x first) (all_implies p q xs f rest)

-- The row is not the message with this id.
abbrev pub is_another : Text → Value → Bool
is_another id item =
    not (nonempty (history_id_key id) && text_eq (history_id_key (row_id item)) (history_id_key id))

another_lem :
    (whole : Text → Option Signed) (t : Trigger) (item : Value)
    → is_background whole t item ≡ true
    → is_another t.id item ≡ true
unfolding is_background history_row_before_trigger
another_lem whole t item h = ground (arith)

-- An integer as the difference of two numbers.
abbrev pub up : Signed → ℕ
up n = if is_negative n then 0 else n.magnitude

abbrev pub down : Signed → ℕ
down n = if is_negative n then n.magnitude else 0

-- The row is earlier than the message, or of the same time with a smaller id.
abbrev pub precedes : (Text → Option Signed) → Signed → Text → Value → Bool
precedes whole at id item =
    let a = history_at_ms whole item in
    let key = history_id_key (row_id item) in
    ltb (up a + down at) (up at + down a)
    || ((up a + down at == up at + down a) && (nonempty key && text_lt key (history_id_key id)))

-- The row is at most so many seconds older than the message; zero seconds stand for no bound.
abbrev pub is_young : (Text → Option Signed) → Signed → ℕ → Value → Bool
is_young whole at max_age item =
    let a = history_at_ms whole item in
    (max_age == 0) || leb (up at + down a) (up a + down at + max_age * 1000)

before_lem :
    (a at : Signed) (key cursor : Text)
    → is_before a key (some at) cursor ≡ true
    → (ltb (up a + down at) (up at + down a)
        || ((up a + down at == up at + down a) && (nonempty key && text_lt key cursor)))
      ≡ true
unfolding is_before pair_lt signed_lt signed_eq
before_lem a at key cursor h = ground arith

recent_lem :
    (a at : Signed) (k : ℕ)
    → is_recent a (some (minus at k)) ≡ true
    → leb (up at + down a) (up a + down at + k) ≡ true
unfolding minus signed_lt
recent_lem a at k h = ground arith

young_lem :
    (a at : Signed) (m : ℕ)
    → is_recent a (if ltb 0 m then some (minus at (m * 1000)) else none) ≡ true
    → ((m == 0) || leb (up at + down a) (up a + down at + m * 1000)) ≡ true
young_lem a at m h = elim (Bool-cases (ltb 0 m)) [
  | inl e ↦ rw (recent_lem a at (m * 1000) (rw e at h)) (ground arith)
  | inr e ↦ ground arith
]

before_row_lem :
    (a at : Signed) (id cursor : Text)
    → history_row_before_trigger a id (some at) cursor ≡ true
    → is_before a (history_id_key id) (some at) (history_id_key cursor) ≡ true
unfolding history_row_before_trigger
before_row_lem a at id cursor h = ground arith

row_lem :
    (whole : Text → Option Signed) (t : Trigger) (at : Signed) (item : Value)
    → t.at_ms ≡ some at
    → is_background whole t item ≡ true
    → (precedes whole at t.id item ≡ true) × (is_young whole at t.max_age item ≡ true)
unfolding is_background horizon_ms
row_lem whole t at item e h =
    let a = history_at_ms whole item in
    let (before, recent) =
      &&-eq-true (history_row_before_trigger a (row_id item) t.at_ms t.id)
        (is_recent a (horizon_ms t)) h in
    let anchored : anchor t ≡ at =
      ap (λ (o : Option Signed). elim o [ none ↦ of_nat t.now_ms | some n ↦ n ]) e in
    (
      before_lem a at (history_id_key (row_id item)) (history_id_key t.id) (
          before_row_lem a at (row_id item) t.id (
            subst (λ (o : Option Signed). history_row_before_trigger a (row_id item) o t.id ≡ true)
              e before)),
      young_lem a at t.max_age (
          subst
            (λ (n : Signed).
              is_recent a (if ltb 0 t.max_age then some (minus n (t.max_age * 1000)) else none)
              ≡ true)
            anchored recent),
    )

zero_or_pos : (n : ℕ) → (n ≡ 0) ⊎ (0 < n)
zero_or_pos zero = inl refl
zero_or_pos (suc n) = inr (omega arith)

capped : (n : ℕ) (xs : List Value) → (n ≡ 0) ⊎ (length (last_rows n xs) ≤ n)
capped n xs = elim (zero_or_pos n) [
  | inl none_set ↦ inl none_set
  | inr limit ↦ inr (length-last_rows n xs limit)
]

-- For a message whose time is known, each row of its background is earlier than it, or of the same time
-- with a smaller id; is not that message; and is not older than the settings allow, where they set a
-- bound in seconds. There are no more rows than the settings allow, unless these set no limit (0).
pub context_rows_lem :
    (whole : Text → Option Signed) (t : Trigger) (raw : List Value) (at : Signed)
    → t.at_ms ≡ some at
    → let rows = context_rows whole t raw in
      (all (precedes whole at t.id) rows ≡ true)
      × (all (is_another t.id) rows ≡ true)
      × (all (is_young whole at t.max_age) rows ≡ true)
      × ((t.max_n ≡ 0) ⊎ (length rows ≤ t.max_n))
unfolding context_rows
context_rows_lem whole t raw at e =
    let rows = sort (row_before whole) (keep_rows whole t [] raw) in
    let last = last_rows t.max_n rows in
    let kept = all-last_rows (is_background whole t) t.max_n rows (
      all-sort (is_background whole t) (row_before whole) (keep_rows whole t [] raw)
        (all-keep_rows whole t [] raw)) in
    (
      all_implies (is_background whole t) (precedes whole at t.id) last
          (λ item h. (row_lem whole t at item e h).0) kept,
      all_implies (is_background whole t) (is_another t.id) last (another_lem whole t) kept,
      all_implies (is_background whole t) (is_young whole at t.max_age) last
          (λ item h. (row_lem whole t at item e h).1) kept,
      capped t.max_n rows,
    )
