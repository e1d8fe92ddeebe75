-- ===== src/Inbound/Stream/Chunks.antt =====
-- How the stream is cut into chunks does not matter.
use mathlib.Core.List.{append_assoc, append-nil}
use hermes_vector_platform.Prelude.{
  Text, ℕ, ◌≡◌, refl, sym, ap, ◌∙◌, false, inl, inr, Bool-cases, List, [], ◌∷◌, ◌++◌, ◌==◌,
}
use hermes_vector_platform.Adapter.{Adapter, World}
use hermes_vector_platform.Adapter.Act.{Act, pure, ◌>>=◌}
use hermes_vector_platform.Inbound.Stream.{
  Stream, complete_lines, extend, handle_line, handle_lines, without_cr, feed,
}

abbrev Cut : Type 0
Cut = List Text × Text

abbrev behind : List Text → Cut → Cut
behind lines (more, rest) = (lines ++ more, rest)

extend-behind :
    (c : ℕ) (cut : Cut) (b : Text)
    → (c == 10) ≡ false
    → extend c (behind cut.0 (complete_lines (cut.1 ++ b)))
      ≡ behind (extend c cut).0 (complete_lines ((extend c cut).1 ++ b))
unfolding complete_lines
extend-behind c ([], rest) b plain = rw plain
extend-behind c (line ∷ lines, rest) b plain = refl

complete_lines-append :
    (a b : Text)
    → complete_lines (a ++ b)
      ≡ behind (complete_lines a).0 (complete_lines ((complete_lines a).1 ++ b))
unfolding complete_lines
complete_lines-append [] b = refl
complete_lines-append (c ∷ s) b = elim (Bool-cases (c == 10)) [
  | inl end ↦ rw end (ap (λ (cut : Cut). ([] ∷ cut.0, cut.1)) (complete_lines-append s b))
  | inr plain ↦
      rw plain
        (ap (extend c) (complete_lines-append s b) ∙ extend-behind c (complete_lines s) b plain)
]

handle_lines-append :
    (w : World) (xs ys : List Text) (id : Text) (s : Adapter)
    → handle_lines w (xs ++ ys) id s ≡ (handle_lines w xs id >>= λ id'. handle_lines w ys id') s
unfolding handle_lines ◌>>=◌ pure
handle_lines-append w [] ys id s = refl
handle_lines-append w (x ∷ xs) ys id s =
    handle_lines-append w xs ys (handle_line w (without_cr x) id s).0
      (handle_line w (without_cr x) id s).1

-- Feeding two chunks one after the other leaves the stream and the adapter as feeding them in one
-- piece does, wherever the text is cut.
pub feed_in_pieces :
    (w : World) (a b : Text) (stream : Stream) (s : Adapter)
    → (feed w a stream >>= λ stream'. feed w b stream') s ≡ feed w (a ++ b) stream s
unfolding feed ◌>>=◌ pure
feed_in_pieces w a b stream s =
    let cut = complete_lines (stream.buffer ++ a) in
    let whole : complete_lines (stream.buffer ++ (a ++ b))
        ≡ behind cut.0 (complete_lines (cut.1 ++ b)) =
      ap complete_lines (sym (append_assoc stream.buffer a b))
      ∙ complete_lines-append (stream.buffer ++ a) b in
    let next = complete_lines (cut.1 ++ b) in
    let finish : Text → Text × Adapter → Stream × Adapter =
      λ rest r. (record { buffer = rest; pending_id = r.0 }, r.1) in
    sym (
      ap (λ (c : Cut). finish c.1 (handle_lines w c.0 stream.pending_id s)) whole
      ∙ ap (finish next.1) (handle_lines-append w cut.0 next.0 stream.pending_id s))

-- The chunks, one after the other.
unfoldable pub feed_all : World → List Text → Stream → Act Stream
feed_all w [] stream = pure stream
feed_all w (chunk ∷ chunks) stream = feed w chunk stream >>= λ stream'. feed_all w chunks stream'

abbrev pub concat : List Text → Text
concat [] = []
concat (chunk ∷ chunks) = chunk ++ concat chunks

-- A stream that arrives in chunks, however it is cut, leaves the connection and the adapter as it
-- does in one piece: the same events are dispatched in the same order, and the resume point is the
-- same.
pub feed_all-concat :
    (w : World) (chunk : Text) (chunks : List Text) (stream : Stream) (s : Adapter)
    → feed_all w (chunk ∷ chunks) stream s ≡ feed w (concat (chunk ∷ chunks)) stream s
unfolding feed_all ◌>>=◌ pure
feed_all-concat w chunk [] stream s = ap (λ (t : Text). feed w t stream s) (sym (append-nil chunk))
feed_all-concat w chunk (c ∷ chunks) stream s =
    feed_all-concat w c chunks (feed w chunk stream s).0 (feed w chunk stream s).1
    ∙ feed_in_pieces w chunk (concat (c ∷ chunks)) stream s
