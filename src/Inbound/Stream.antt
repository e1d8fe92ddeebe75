-- ===== src/Inbound/Stream.antt =====
-- `_sse_listener` of internal/inbound.py: the lines of the event stream, the resume point, and the
-- reconnections. An exception inside a handler is not modelled, but that of an event that is no
-- mapping.
pub mod Chunks
pub mod Frames
pub mod Backoff
use hermes_vector_platform.Prelude.{
  Text, ℕ, ◌*◌, Bool, true, false, not, ◌&&◌, ◌||◌, Option, none, some, List, [], ◌∷◌, ◌++◌, codes,
  strip, starts_with, nonempty, drop, leb, ◌==◌, if◌then◌else◌,
}
use hermes_vector_platform.Prelude.Values.{Value, is_obj}
use hermes_vector_platform.Adapter.{Adapter, World, open_stream, bridge_exit}
use hermes_vector_platform.Adapter.Act.{Act, pure, ◌>>=◌, ◌>>◌, gets, modify, skip, emit}
use hermes_vector_platform.Inbound.Updates.{dispatch_sse_event}

-- `line.rstrip("\r")`
unfoldable pub without_cr : Text → Text
without_cr [] = []
without_cr (c ∷ s) =
    let rest = without_cr s in if c == 13 && not (nonempty rest) then [] else c ∷ rest

-- What the loop over the chunks keeps of one connection.
pub record Stream : Type 0 where
  pub buffer : Text
  pub pending_id : Text

abbrev pub fresh : Stream
fresh = record { buffer = []; pending_id = [] }

-- The resume point is committed once the event is handed off.
unfoldable pub commit : Text → Act (Unit {0})
commit id = if nonempty id then modify (λ s. record s { sse_last_event_id = id }) else skip

-- An exception of a handler is logged, and the id is not committed.
unfoldable pub hand_off : World → Text → Value → Option Adapter → Act (Unit {0})
hand_off w id event none = do dispatch_sse_event w event; commit id
hand_off w id event (some left) = modify (λ s. left)

unfoldable pub handle_data : World → Text → Option Value → Act (Unit {0})
handle_data w id none = skip
handle_data w id (some event) =
    if is_obj event
    then (do raised ← gets (λ s. w.raised_at s event); hand_off w id event raised)
    else skip

-- A line; the result is the pending id.
unfoldable pub handle_line : World → Text → Text → Act Text
handle_line w line id =
    let data_str = strip (drop 5 line) in
    if not (nonempty line) || starts_with line (codes ":")
    then pure id
    else if starts_with line (codes "id:")
    then pure (strip (drop 3 line))
    else if starts_with line (codes "data:")
    then (if nonempty data_str
        then (do handle_data w id (w.parse_json data_str); pure [])
        else pure id)
    else pure id

unfoldable pub handle_lines : World → List Text → Text → Act Text
handle_lines w [] id = pure id
handle_lines w (line ∷ lines) id = do
  id' ← handle_line w (without_cr line) id
  handle_lines w lines id'

abbrev pub extend : ℕ → List Text × Text → List Text × Text
extend c ([], rest) = ([], c ∷ rest)
extend c (line ∷ lines, rest) = ((c ∷ line) ∷ lines, rest)

-- The complete lines of a buffer, and the rest behind the last line break.
unfoldable pub complete_lines : Text → List Text × Text
complete_lines [] = ([], [])
complete_lines (c ∷ s) =
    let (lines, rest) = complete_lines s in
    if c == 10 then ([] ∷ lines, rest) else extend c (lines, rest)

unfoldable pub feed : World → Text → Stream → Act Stream
feed w chunk stream = do
  let cut = complete_lines (stream.buffer ++ chunk)
  id ← handle_lines w cut.0 stream.pending_id
  pure (record { buffer = cut.1; pending_id = id })

-- What a connection brings: chunks of text, until it goes stale or ends; `exited` is a chunk behind
-- which the sidecar is found dead.
pub data Signal : Type 0 where
  chunk : Text → Signal
  exited : Signal

-- Whether the listener goes on behind the connection.
unfoldable pub read_stream : World → List Signal → Stream → Act Bool
read_stream w [] stream = pure true
read_stream w (exited ∷ signals) stream = do
  running ← gets (λ s. s.running)
  if running then (do emit bridge_exit; pure false) else pure true
read_stream w (chunk text ∷ signals) stream = do
  running ← gets (λ s. s.running)
  if running then (do stream' ← feed w text stream; read_stream w signals stream') else pure true

-- An attempt to connect: no status for a transport error.
pub record Attempt : Type 0 where
  pub status : Option ℕ
  pub signals : List Signal
  -- whether the sidecar is found dead before and behind it
  pub dead_before : Bool
  pub dead_behind : Bool

abbrev pub retry_delay_initial : ℕ
retry_delay_initial = 2

abbrev pub retry_delay_max : ℕ
retry_delay_max = 60

abbrev pub opened : Option ℕ → Bool
opened none = false
opened (some status) = status == 200

-- `min(backoff * 2, SSE_RETRY_DELAY_MAX)`
unfoldable pub next_backoff : ℕ → ℕ
next_backoff backoff = if leb (backoff * 2) retry_delay_max then backoff * 2 else retry_delay_max

unfoldable pub connect_stream : World → Attempt → Act Bool
connect_stream w a = do
  id ← gets (λ s. s.sse_last_event_id)
  emit (open_stream id)
  if opened a.status then read_stream w a.signals fresh else pure true

-- The listener over its attempts, with the delays that it waits, jitter aside.
unfoldable pub listen : World → List Attempt → ℕ → Act (List ℕ)
listen w [] backoff = pure []
listen w (a ∷ attempts) backoff =
    let start = if opened a.status then retry_delay_initial else backoff in
    let rest = listen w attempts (next_backoff start) in
    (do
      running ← gets (λ s. s.running)
      if running
          then (if a.dead_before then (do emit bridge_exit; pure []) else (do
            more ← connect_stream w a
            still ← gets (λ s. s.running)
            if more && still
                then (if a.dead_behind
                    then (do emit bridge_exit; pure [])
                    else (do delays ← rest; pure (start ∷ delays)))
                else pure []))
          else pure [])
