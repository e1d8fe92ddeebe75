-- ===== src/Inbound/Stream/Frames.antt =====
-- An event as the sidecar frames it is handed off once, and becomes the resume point.
use hermes_vector_platform.Prelude.{
  Text, ℕ, Bool, Option, none, not, ◌&&◌, some, ◌∷◌, ◌++◌, ◌==◌, codes,
}
use hermes_vector_platform.Prelude.Values.{Value}
use hermes_vector_platform.Adapter.{Adapter, World}
use hermes_vector_platform.Inbound.Updates.{dispatch_sse_event}

-- A text that can stand in a field of a frame.
abbrev pub is_inline : ℕ → Bool
is_inline c = not (c == 10) && not (c == 13)

-- The lines that the sidecar writes for an event.
abbrev pub frame : Text → Text → Text
frame id json = codes "id: " ++ (id ++ (b'\n' ∷ (codes "data: " ++ (json ++ codes "\n\n"))))

-- The adapter behind an event: as its handlers leave it, with the id as the resume point; or as an
-- exception of a handler leaves it, with no id committed.
abbrev pub left_by : World → Text → Value → Adapter → Option Adapter → Adapter
left_by w id event s none = record ((dispatch_sse_event w event s).1) { sse_last_event_id = id }
left_by w id event s (some left) = left

abbrev pub behind_event : World → Text → Value → Adapter → Adapter
behind_event w id event s = left_by w id event s (w.raised_at s event)
