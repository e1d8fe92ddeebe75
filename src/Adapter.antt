-- ===== src/Adapter.antt =====
-- adapter.py: the state of `VectorAdapter` that its methods change, the sidecar's replies, and what
-- a method does to the outside, as a trace with the latest effect first.
-- The `n`-th call of the sidecar is answered by the `n`-th reply of the world.
pub mod Act
pub mod Labels
pub mod Outbound
pub mod Blocklist
pub mod Rooms
pub mod Invites
pub mod Sync
pub mod Mute
use hermes_vector_platform.Prelude.{
  Text, ℕ, ◌+◌, Bool, true, false, Option, none, some, List, [], ◌∷◌, text_eq, if◌then◌else◌,
}
use hermes_vector_platform.Prelude.Dicts.{Dict, Map}
use hermes_vector_platform.Prelude.Values.{Value}
use hermes_vector_platform.Env.{Environ}

-- The arguments of `build_source`, a function of the gateway.
pub record Source : Type 0 where
  pub chat_id : Text
  pub chat_name : Text
  pub chat_type : Text
  pub user_id : Text
  pub user_name : Text
  pub message_id : Option Text
  pub parent_chat_id : Option Text
  pub role_authorized : Bool

pub data MessageType : Type 0 where
  text photo video audio voice document : MessageType

pub record Event : Type 0 where
  pub text : Text
  pub message_type : MessageType
  pub source : Source
  pub message_id : Option Text
  pub reply_to_message_id : Option Text
  pub reply_to_text : Value
  pub media_urls : List Text
  pub media_types : List Text
  pub channel_context : Option Text

-- The calls of the sidecar's HTTP interface.
pub data Request : Type 0 where
  post_send : Text → Text → Option Text → Request
  post_edit : Text → Text → Text → Request
  post_delete : Text → Text → Request
  post_react : Text → Text → Text → Option Text → Request
  post_unreact : Text → Text → Request
  get_block : Request
  post_block : Text → Bool → Request
  get_invites : Request
  get_communities : Request
  post_accept : Text → Request
  post_decline : Text → Request

-- No reply for a transport error, else the status and the body, where it is JSON.
pub data Reply : Type 0 where
  unreachable : Reply
  answer : ℕ → Text → Option Value → Reply

-- A file that was saved: its path, the attachment's row and its MIME type.
pub record Saved : Type 0 where
  pub path : Text
  pub attachment : Value
  pub mime : Text

-- What is done with files and with the session's transcript, by its arguments.
pub data FileCall : Type 0 where
  save_attachments : Text → List Value → Text → Text → Value → FileCall
  stash_group_file : Text → Text → Text → List Value → Option Text → Value → FileCall
  ingest_group_file : Text → Text → Text → FileCall
  unlink_pointer : Text → FileCall
  unlink_pending : Text → Text → FileCall

pub data Effect : Type 0 where
  request : Request → Effect
  -- `handle_message`, the agent turn
  turn : Event → Effect
  file : FileCall → Effect
  inbox_breadcrumb : Source → List Saved → Effect
  replay_breadcrumb : Source → Text → List Saved → Effect
  fetch_context : Text → Text → Value → Effect
  persist_notified : List Text → Effect
  -- a connection to `/events` with the `Last-Event-ID`, and the report of a dead sidecar
  open_stream : Text → Effect
  bridge_exit : Effect

pub record Adapter : Type 0 where
  pub running : Bool
  -- whether `_http_client` is set, and whether the bridge process was found dead
  pub connected : Bool
  pub bridge_exited : Bool
  pub npub : Option Text
  pub inbound_ids : List Text
  pub sent_message_ids : List Text
  pub seen_reaction_ids : List Text
  pub last_inbound_by_chat : Dict
  pub blocked_npubs : List Text
  pub blocked_loaded : Bool
  pub pending_inbox : Map (List (Text × Text))
  pub notified_channel_ids : List Text
  pub known_channel_ids : List Text
  pub profile_names : Dict
  pub channel_names : Dict
  pub community_names : Dict
  pub channel_community : Dict
  pub sse_last_event_id : Text
  pub calls : ℕ
  pub trace : List Effect

-- What a method reads from outside: the environment, the bot's name, the replies, the files that
-- a call saves, the path that a turn is given for a file, the context of a channel, and the tables of
-- Python's `re` module.
pub record World : Type 0 where
  pub env : Environ
  pub bot_name : Text
  pub reply : ℕ → Reply
  pub saved_files : ℕ → List Saved
  pub turn_path : Saved → Text
  pub channel_context : ℕ → Option Text
  -- `json.loads`, `none` where it raises
  pub parse_json : Text → Option Value
  -- the state that an exception leaves behind, where handling the event raises one
  pub raised_at : Adapter → Value → Option Adapter
  pub same_letter : ℕ → ℕ → Bool
  pub is_word : ℕ → Bool
