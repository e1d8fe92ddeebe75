-- ===== src/Inbound/StreamTests.antt =====
-- Runs of the listener of internal/inbound.py, and of a message that arrives twice.
use hermes_vector_platform.Prelude.{
  ◌≡◌, refl, true, none, some, codes, [], ◌∷◌, text_eq, nonempty, if◌then◌else◌, arith, Text,
}
use hermes_vector_platform.Prelude.Values.{Value, obj, str, field, end, text_of, get, find}
use hermes_vector_platform.Recent.{inbound_dedup_max}
use hermes_vector_platform.Recent.Window.{IsWindow}
use hermes_vector_platform.Recent.Keys.{distinct}
use hermes_vector_platform.Bech32.Tests.{key_hex}
use hermes_vector_platform.Adapter.{World}
use hermes_vector_platform.Adapter.Act.{turns}
use hermes_vector_platform.Inbound.{msg_id}
use hermes_vector_platform.Inbound.Direct.{direct_message}
use hermes_vector_platform.Inbound.Channel.{handle_group_message}
use hermes_vector_platform.Inbound.Stream.{fresh, feed}
use hermes_vector_platform.Inbound.Stream.Chunks.{feed_all, feed_all-concat, concat}
use hermes_vector_platform.Inbound.Redelivery.{
  redelivered_direct_message, redelivered_group_message,
}
use hermes_vector_platform.Inbound.Tests.{idle, open_world, hello, addressed}

no_ids-IsWindow : IsWindow inbound_dedup_max idle.inbound_ids
no_ids-IsWindow = record { fits = omega arith; once = unfold distinct in refl }

named : nonempty (msg_id hello) ≡ true
unfolding text_of get find text_eq
named = refl

redelivered_direct_message_example :
    turns (direct_message open_world hello (direct_message open_world hello idle).1).1.trace
    ≡ turns (direct_message open_world hello idle).1.trace
redelivered_direct_message_example =
    redelivered_direct_message open_world hello hello idle named refl no_ids-IsWindow

redelivered_group_message_example :
    turns
      (handle_group_message open_world hello (handle_group_message open_world hello idle).1).1.trace
    ≡ turns (handle_group_message open_world hello idle).1.trace
redelivered_group_message_example =
    redelivered_group_message open_world hello hello idle key_hex named refl addressed addressed
      no_ids-IsWindow

-- A sidecar that sends one event, which the world's parser reads.
abbrev ready_json : Text
ready_json = codes "{\"type\":\"ready\"}"

abbrev ready_event : Value
ready_event = obj [] (field (codes "type") (str (codes "ready")) end)

abbrev parsing_world : World
parsing_world = record open_world {
  parse_json = λ t. if text_eq t ready_json then some ready_event else none;
}

feed_all-concat_example :
    feed_all parsing_world
      (codes "id: 7\nda" ∷ codes "ta: {\"type\":\"ready\"}\n\n" ∷ [])
      fresh
      idle
    ≡ feed parsing_world
        (concat (codes "id: 7\nda" ∷ codes "ta: {\"type\":\"ready\"}\n\n" ∷ []))
        fresh
        idle
feed_all-concat_example =
    feed_all-concat parsing_world (codes "id: 7\nda") (codes "ta: {\"type\":\"ready\"}\n\n" ∷ [])
      fresh idle
