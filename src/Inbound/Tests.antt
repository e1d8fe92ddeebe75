-- ===== src/Inbound/Tests.antt =====
-- Runs of the handlers of internal/inbound.py.
use hermes_vector_platform.Prelude.{
  ◌≡◌, refl, true, false, none, some, codes, ◌==◌, ◌&&◌, leb, [], text_eq, split_on, strip, lower,
  mem, if◌then◌else◌,
}
use hermes_vector_platform.Prelude.Values.{
  Value, obj, str, bool, field, end, get, text_of, truthy, show, find, is_obj,
}
use hermes_vector_platform.Bech32.{codec, normalize_channel_id}
use hermes_vector_platform.Bech32.Tests.{key_hex}
use hermes_vector_platform.Env.{Environ, pairing_enabled, scoped_env, env_flag}
use hermes_vector_platform.Groups.{
  npub_or_text, sender_is_authorized, allowed_npubs, npubs_from_env, npubs_from_csv, collect,
}
use hermes_vector_platform.Env
use hermes_vector_platform.Adapter.{Adapter, World, unreachable}
use hermes_vector_platform.Adapter.Act.{turns}
use hermes_vector_platform.Inbound.{text_field, has_caption, is_superseded_replay, direct_peer}
use hermes_vector_platform.Inbound.Direct.{direct_message}
use hermes_vector_platform.Inbound.Channel.{handle_group_message, group_peer}
use hermes_vector_platform.Inbound.Gates.{strangers_are_shut_out, superseded_replay_starts_no_turn}
use hermes_vector_platform.Inbound.Updates.{dispatch_sse_event}
use hermes_vector_platform.Inbound.OneEvent.{Anyone, event_starts_one_turn}
use hermes_vector_platform.Inbound.OneTurn.{
  OneMore, IsFor, IsLetIn, direct_message_starts_one_turn, group_message_starts_one_turn,
}

-- Pairing is off, and nobody is let in.
abbrev pub closed_world : World
closed_world = record {
  env = record {
    scoped_secret = none;
    vars = λ name. if text_eq name (codes "VECTOR_PAIRING") then some (codes "off") else none;
  };
  bot_name = codes "Hermes";
  reply = λ n. unreachable;
  saved_files = λ n. [];
  turn_path = λ f. f.path;
  channel_context = λ n. none;
  parse_json = λ t. none;
  raised_at = λ s v. none;
  same_letter = λ p c. p == c;
  is_word = λ c. leb b'a' c && leb c b'z';
}

abbrev pub idle : Adapter
idle = record {
  running = true;
  connected = true;
  bridge_exited = false;
  npub = none;
  inbound_ids = [];
  sent_message_ids = [];
  seen_reaction_ids = [];
  last_inbound_by_chat = [];
  blocked_npubs = [];
  blocked_loaded = true;
  pending_inbox = [];
  notified_channel_ids = [];
  known_channel_ids = [];
  profile_names = [];
  channel_names = [];
  community_names = [];
  channel_community = [];
  sse_last_event_id = [];
  calls = 0;
  trace = [];
}

abbrev pub note : Value
note = obj [] (
    field (codes "id") (str (codes "m1")) (
      field (codes "npub") (str (codes "alice")) (
        field (codes "chat_id") (str key_hex) (
          field (codes "text") (str (codes "hi @Hermes"))
            (field (codes "replayed") (bool true) (field (codes "superseded") (bool true) end))))))

off : pairing_enabled closed_world.env ≡ false
unfolding codec pairing_enabled scoped_env env_flag text_eq mem lower strip
off = refl

pub unlisted : sender_is_authorized closed_world.env (direct_peer note) ≡ false
unfolding codec sender_is_authorized npub_or_text allowed_npubs npubs_from_env npubs_from_csv
    collect Env.scoped_env_str scoped_env text_eq mem text_of get find truthy show strip split_on
unlisted = refl

said : has_caption note ≡ true
unfolding codec has_caption text_of get find truthy show strip text_eq
said = refl

old : is_superseded_replay note ≡ true
unfolding codec is_superseded_replay text_of get find truthy text_eq is_obj
old = refl

strangers_are_shut_out_example : turns (direct_message closed_world note idle).1.trace ≡ turns []
strangers_are_shut_out_example = strangers_are_shut_out closed_world note idle off unlisted

superseded_replay_starts_no_turn_example :
    turns (direct_message closed_world note idle).1.trace ≡ turns []
superseded_replay_starts_no_turn_example =
    superseded_replay_starts_no_turn closed_world note idle said old

-- Pairing is on, and the message is no replay.
abbrev pub open_world : World
open_world = record closed_world { env = record { scoped_secret = none; vars = λ name. none } }

abbrev pub hello : Value
hello = obj [] (
    field (codes "id") (str (codes "m2")) (
      field (codes "npub") (str (codes "alice")) (
        field (codes "chat_id") (str key_hex)
          (field (codes "text") (str (codes "hi @Hermes")) end))))

pub addressed : normalize_channel_id (text_field (codes "chat_id") hello) ≡ some key_hex
unfolding codec text_of get find truthy show text_eq
addressed = refl

direct_message_starts_one_turn_example :
    OneMore
      (IsFor (direct_peer hello))
      (turns [])
      (turns (direct_message open_world hello idle).1.trace)
direct_message_starts_one_turn_example = direct_message_starts_one_turn open_world hello idle

group_message_starts_one_turn_example :
    OneMore
      (IsLetIn open_world key_hex (group_peer hello))
      (turns [])
      (turns (handle_group_message open_world hello idle).1.trace)
group_message_starts_one_turn_example =
    group_message_starts_one_turn open_world hello idle key_hex addressed

abbrev hello_event : Value
hello_event = obj [] (field (codes "type") (str (codes "message")) (field (codes "data") hello end))

event_starts_one_turn_example :
    OneMore Anyone (turns []) (turns (dispatch_sse_event open_world hello_event idle).1.trace)
event_starts_one_turn_example = event_starts_one_turn open_world hello_event idle
