-- ===== src/Groups/Context/History.antt =====
-- `_group_channel_context` of adapter.py with `_history_row_before_trigger` of internal/groups.py: which
-- rows of a channel's history become background, and their block.
pub mod Rows
mod Tests
use hermes_vector_platform.Prelude.{
  Text, ℕ, Bool, true, false, not, ◌&&◌, ◌||◌, Option, none, some, List, [], ◌∷◌, ◌+◌, ◌-◌, ◌*◌,
  ◌==◌, ltb, leb, lower, mem, text_eq, nonempty, length, drop, codes, if◌then◌else◌,
}
use hermes_vector_platform.Prelude.Numbers.{Signed, is_negative, parse_int}
use hermes_vector_platform.Prelude.Sorted.{text_lt, sort}
use hermes_vector_platform.Prelude.Values.{
  Value, null, bool, int, str, other, get, truthy, text_of, is_obj,
}
use hermes_vector_platform.Bech32.{is_hex_id}
use hermes_vector_platform.Env.{
  Environ, group_context_max, group_context_max_chars, group_context_max_age_secs,
}
use hermes_vector_platform.Groups.{npub_or_text, group_sender_is_authorized}
use hermes_vector_platform.Groups.Context.{format_history_line, assemble_group_context, one_line}

abbrev pub of_nat : ℕ → Signed
of_nat n = record { negative = false; magnitude = n }

-- `a < b` and `a == b` of integers
unfoldable pub signed_lt : Signed → Signed → Bool
signed_lt a b =
    if is_negative a
    then (if is_negative b then ltb b.magnitude a.magnitude else true)
    else if is_negative b
    then false
    else ltb a.magnitude b.magnitude

unfoldable pub signed_eq : Signed → Signed → Bool
signed_eq a b = not (signed_lt a b) && not (signed_lt b a)

-- `n - k`
unfoldable pub minus : Signed → ℕ → Signed
minus n k =
    if is_negative n
    then record { negative = true; magnitude = n.magnitude + k }
    else if leb k n.magnitude
    then of_nat (n.magnitude - k)
    else record { negative = true; magnitude = k - n.magnitude }

-- `int(v)`, with `none` where it raises. A number that is no integer is read by the parameter.
unfoldable pub int_of : (Text → Option Signed) → Value → Option Signed
int_of whole (int n) = some n
int_of whole (bool b) = some (of_nat (if b then 1 else 0))
int_of whole (str t) = parse_int t
int_of whole (other b t) = whole t
int_of whole v = none

abbrev pub or_zero : Option Signed → Signed
or_zero none = of_nat 0
or_zero (some n) = n

unfoldable pub history_at_ms : (Text → Option Signed) → Value → Signed
history_at_ms whole item =
    let at = get (codes "at_ms") item in if truthy at then or_zero (int_of whole at) else of_nat 0

unfoldable pub history_id_key : Text → Text
history_id_key id = if is_hex_id id then lower id else id

abbrev pub row_id : Value → Text
row_id item = text_of (get (codes "id") item)

-- `(at, id) < (at', id')`
unfoldable pub pair_lt : Signed → Text → Signed → Text → Bool
pair_lt at id at' id' = signed_lt at at' || (signed_eq at at' && text_lt id id')

unfoldable pub is_before : Signed → Text → Option Signed → Text → Bool
is_before at_ms key none cursor = true
is_before at_ms key (some trigger_at) cursor =
    if nonempty key then pair_lt at_ms key trigger_at cursor else signed_lt at_ms trigger_at

unfoldable pub history_row_before_trigger : Signed → Text → Option Signed → Text → Bool
history_row_before_trigger at_ms id trigger_at trigger_id =
    let key = history_id_key id in
    let cursor = history_id_key trigger_id in
    if nonempty cursor && text_eq key cursor then false else is_before at_ms key trigger_at cursor

-- The message that the turn is for, and the settings.
pub record Trigger : Type 0 where
  pub id : Text
  pub at_ms : Option Signed
  pub max_n : ℕ
  pub max_chars : ℕ
  pub max_age : ℕ
  pub now_ms : ℕ

abbrev pub anchor : Trigger → Signed
anchor t = elim t.at_ms [ none ↦ of_nat t.now_ms | some at ↦ at ]

unfoldable pub horizon_ms : Trigger → Option Signed
horizon_ms t = if ltb 0 t.max_age then some (minus (anchor t) (t.max_age * 1000)) else none

abbrev pub is_recent : Signed → Option Signed → Bool
is_recent at none = true
is_recent at (some horizon) = not (signed_lt at horizon)

-- The two tests of a row that do not look at the other rows.
unfoldable pub is_background : (Text → Option Signed) → Trigger → Value → Bool
is_background whole t item =
    history_row_before_trigger (history_at_ms whole item) (row_id item) t.at_ms t.id
    && is_recent (history_at_ms whole item) (horizon_ms t)

-- The rows that pass, in their order; `seen` holds the ids of those so far.
unfoldable pub keep_rows : (Text → Option Signed) → Trigger → List Text → List Value → List Value
keep_rows whole t seen [] = []
keep_rows whole t seen (item ∷ raw) =
    let id = row_id item in
    let skipped = keep_rows whole t seen raw in
    let kept = item ∷ keep_rows whole t (if nonempty id then id ∷ seen else seen) raw in
    if not (is_obj item)
    then skipped
    else if nonempty id && mem id seen
    then skipped
    else if is_background whole t item
    then kept
    else skipped

abbrev pub row_before : (Text → Option Signed) → Value → Value → Bool
row_before whole a b = pair_lt (history_at_ms whole a) (row_id a) (history_at_ms whole b) (row_id b)

-- `rows[-max_n:]`, where there are more
unfoldable pub last_rows : ℕ → List Value → List Value
last_rows max_n rows =
    if ltb 0 max_n && ltb max_n (length rows) then drop (length rows - max_n) rows else rows

unfoldable pub context_rows : (Text → Option Signed) → Trigger → List Value → List Value
context_rows whole t raw = last_rows t.max_n (sort (row_before whole) (keep_rows whole t [] raw))

-- What names a speaker and prints a character.
pub record Printing : Type 0 where
  -- `_history_speaker_name`, by the key and by whether the row is the bot's own
  pub speaker : Text → Bool → Text
  pub is_printable : ℕ → Bool

unfoldable pub row_line : Environ → Printing → Text → Value → Option Text
row_line e p channel_id item =
    let mine = truthy (get (codes "mine") item) in
    let npub = npub_or_text (text_of (get (codes "npub") item)) in
    let unverified = not mine && not (group_sender_is_authorized e npub channel_id) in
    format_history_line p.is_printable (p.speaker npub mine) (text_of (get (codes "text") item))
      (truthy (get (codes "is_file") item)) mine unverified

abbrev with_line : Option Text → List Text → List Text
with_line none lines = lines
with_line (some line) lines = if nonempty line then line ∷ lines else lines

unfoldable pub row_lines : Environ → Printing → Text → List Value → List Text
row_lines e p channel_id [] = []
row_lines e p channel_id (item ∷ rows) =
    with_line (row_line e p channel_id item) (row_lines e p channel_id rows)

abbrev pub trigger_of : (Text → Option Signed) → Environ → ℕ → Text → Value → Trigger
trigger_of whole e now_ms trigger_id trigger_at_ms = record {
  id = trigger_id;
  at_ms = int_of whole trigger_at_ms;
  max_n = group_context_max e;
  max_chars = group_context_max_chars e;
  max_age = group_context_max_age_secs e;
  now_ms = now_ms;
}

-- The fetch asks for the rows before the trigger where its id and time allow it.
unfoldable pub use_before : Trigger → Bool
use_before t = elim t.at_ms [ none ↦ false | some at ↦ not (is_negative at) && is_hex_id t.id ]

abbrev pub fetch_cap : ℕ
fetch_cap = 50

abbrev pub min_of : ℕ → ℕ → ℕ
min_of a b = if leb a b then a else b

unfoldable pub fetch_count : Trigger → ℕ
fetch_count t =
    if t.max_n == 0
    then fetch_cap
    else if use_before t
    then min_of fetch_cap t.max_n
    else min_of fetch_cap (t.max_n + 1)

-- The block, by what the fetch of so many rows gives.
unfoldable pub group_channel_context :
    (Text → Option Signed)
    → Environ
    → Printing
    → (ℕ → Bool → List Value)
    → ℕ
    → Text
    → Text
    → Value
    → Option Text
group_channel_context whole e p fetched now_ms channel_id trigger_id trigger_at_ms =
    let t = trigger_of whole e now_ms trigger_id trigger_at_ms in
    let rows = context_rows whole t (fetched (fetch_count t) (use_before t)) in
    assemble_group_context (row_lines e p channel_id rows) t.max_chars
