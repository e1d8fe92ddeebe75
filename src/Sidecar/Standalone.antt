-- ===== src/Sidecar/Standalone.antt =====
-- `_standalone_send` of adapter.py: a message from another process, by way of the runtime record that
-- the gateway has published.
use hermes_vector_platform.Prelude.{
  Text, ℕ, Bool, true, false, not, Option, none, some, [], ◌∷◌, ◌==◌, codes, strip, mem, nonempty,
  or_else, leb, ◌&&◌, ◌||◌, if◌then◌else◌,
}
use hermes_vector_platform.Prelude.Values.{
  Value, null, bool, int, str, arr, obj, other, get, text_of, show, truthy, is_obj,
}
use hermes_vector_platform.Prelude.Numbers.{Signed, parse_int, is_negative}
use hermes_vector_platform.Env.{Environ, scoped_env, text_or}
use hermes_vector_platform.Sidecar.Session.{Host, Session, pid_alive}

-- `_client_host`, with DEFAULT_BRIDGE_HOST
unfoldable pub client_host : Text → Text
client_host bind_host =
    let host = strip (or_else bind_host (codes "127.0.0.1")) in
    if mem host (codes "0.0.0.0" ∷ codes "::" ∷ codes "[::]" ∷ []) then codes "127.0.0.1" else host

-- `json.loads`, with `none` where it raises, and `int` of a float by its text.
pub record Json : Type 0 where
  pub loads : Text → Option Value
  pub truncated : Text → Option Signed

-- `int(v)`, with `none` where it raises.
unfoldable pub as_int : Json → Value → Option Signed
as_int json null = none
as_int json (bool flag) = some (record { negative = false; magnitude = if flag then 1 else 0 })
as_int json (int n) = some n
as_int json (str t) = parse_int t
as_int json (arr t vs) = none
as_int json (obj t fs) = none
as_int json (other flag t) = json.truncated t

unfoldable pub coerce_port : Json → Value → Signed → Signed
coerce_port json v default = elim (as_int json v) [ none ↦ default | some n ↦ n ]

abbrev pub is_pid_alive : Bool → Host → Option Signed → Bool
is_pid_alive posix h none = false
is_pid_alive posix h (some n) =
    if is_negative n || leb n.magnitude 1
    then false
    else if not posix
    then true
    else pid_alive h n.magnitude

-- `_sidecar_pid_alive`: `posix` is whether the system is one.
unfoldable pub sidecar_pid_alive : Json → Bool → Host → Value → Bool
sidecar_pid_alive json posix h pid = is_pid_alive posix h (as_int json pid)

-- The request to the sidecar.
pub record Post : Type 0 where
  pub host : Text
  pub port : Signed
  pub token : Text
  pub to : Text
  pub body : Text

-- The answer: an error, or success, with a warning where files were left out.
pub data Delivery : Type 0 where
  no_sidecar : Bool → Delivery
  no_media : Delivery
  no_body : Delivery
  refused : ℕ → Delivery
  unreachable : Delivery
  delivered : Bool → Delivery

-- What is asked for.
pub record Job : Type 0 where
  pub chat_id : Text
  pub message : Text
  pub has_media : Bool
  pub extra : Value

abbrev pub job_host : Environ → Job → Text
job_host e j = client_host (
    or_else (text_of (get (codes "bridge_host") j.extra))
      (text_or (scoped_env e (codes "VECTOR_BRIDGE_HOST") none) []))

-- By the status of the answer, `none` where the call raises.
abbrev pub answer_of : Bool → Option ℕ → Delivery
answer_of has_media none = unreachable
answer_of has_media (some status) = if status == 200 then delivered has_media else refused status

abbrev pub Sending : Type 0
Sending = Option Post × Delivery

-- `extra.get("bridge_port") or _scoped_env("VECTOR_BRIDGE_PORT")`
abbrev pub set_port : Environ → Job → Value
set_port e j =
    let extra_port = get (codes "bridge_port") j.extra in
    if truthy extra_port
    then extra_port
    else elim (scoped_env e (codes "VECTOR_BRIDGE_PORT") none) [ none ↦ null | some t ↦ str t ]

-- DEFAULT_BRIDGE_PORT
abbrev pub default_port : Signed
default_port = record { negative = false; magnitude = 8096 }

unfoldable pub post_message : Environ → Job → Signed → Text → Option ℕ → Sending
post_message e j port token status =
    if nonempty (strip j.message)
    then (
      some (record {
        host = job_host e j;
        port = port;
        token = token;
        to = j.chat_id;
        body = j.message;
      }),
      answer_of j.has_media status,
    )
    else (none, if j.has_media then no_media else no_body)

-- `raw if isinstance(raw, dict) else None`
abbrev pub only_dict : Option Value → Option Value
only_dict none = none
only_dict (some v) = if is_obj v then some v else none

unfoldable pub read_runtime_record : Json → Option Text → Option Value
read_runtime_record json none = none
read_runtime_record json (some text) = only_dict (json.loads text)

-- With the token and the port of the record, where it is alive.
unfoldable pub send_by_record : Json → Bool → Host → Job → Option Value → Option ℕ → Sending
send_by_record json posix h j none status = (none, no_sidecar false)
send_by_record json posix h j (some r) status =
    let token = show (get (codes "token") r) in
    let port = coerce_port json (set_port h.env j) default_port in
    if truthy r && truthy (get (codes "token") r)
    then if sidecar_pid_alive json posix h (get (codes "pid") r)
      then if nonempty token
        then post_message h.env j (coerce_port json (get (codes "port") r) port) token status
        else (none, no_sidecar false)
      else (none, no_sidecar true)
    else (none, no_sidecar false)

-- The file of the record is as the gateway last left it.
unfoldable pub standalone_send : Json → Bool → Host → Job → Session → Option ℕ → Sending
standalone_send json posix h j s status =
    send_by_record json posix h j (read_runtime_record json s.runtime) status
