-- ===== src/Sidecar/Connect/Deliver.antt =====
-- A message from another process to the gateway that has connected.
use hermes_vector_platform.Prelude.{
  Text, ℕ, ◌≡◌, refl, sym, ap, ◌∙◌, Bool, true, false, Option, some, strip, nonempty, text_eq,
  if◌then◌else◌,
}
use hermes_vector_platform.Prelude.Maybe.{some_inj}
use hermes_vector_platform.Prelude.Values.{Value, get, find, show, truthy, is_obj}
use hermes_vector_platform.Sidecar.Session.{Session, Host, runtime_payload, nat}
use hermes_vector_platform.Sidecar.Standalone.{
  Json, Job, Sending, job_host, answer_of, sidecar_pid_alive, coerce_port, as_int, post_message,
  only_dict, read_runtime_record, send_by_record, standalone_send,
}
use hermes_vector_platform.Sidecar.Connect.{returned, connect}
use hermes_vector_platform.Sidecar.Connect.Record.{connect-Tells, connected-IsTold}

-- The request for a message, and what its answer comes to.
abbrev pub posted : Host → Job → ℕ → Text → Option ℕ → Sending
posted h j port token status = (
  some (record {
    host = job_host h.env j;
    port = record { negative = false; magnitude = port };
    token = token;
    to = j.chat_id;
    body = j.message;
  }),
  answer_of j.has_media status,
)

if_yes {ℓ} : {A : Type ℓ} (b : Bool) (x y : A) → b ≡ true → (if b then x else y) ≡ x
if_yes b x y e = rw e refl

send_by_payload :
    (json : Json) (posix : Bool) (h : Host) (j : Job) (port : ℕ) (token : Text) (pid : ℕ)
    (npub : Option Text) (status : Option ℕ)
    → nonempty token ≡ true
    → sidecar_pid_alive json posix h (nat pid) ≡ true
    → nonempty (strip j.message) ≡ true
    → send_by_record json posix h j (some (runtime_payload port token pid npub)) status
      ≡ posted h j port token status
unfolding send_by_record post_message runtime_payload get find text_eq truthy show coerce_port
    as_int
send_by_payload json posix h j port token pid npub status filled alive body =
    if_yes (nonempty token) _ _ filled
    ∙ (if_yes (sidecar_pid_alive json posix h (nat pid)) _ _ alive
        ∙ (if_yes (nonempty token) _ _ filled ∙ if_yes (nonempty (strip j.message)) _ _ body))

read_back :
    (json : Json) (h : Host) (port : ℕ) (token : Text) (pid : ℕ) (npub : Option Text)
    → let payload = runtime_payload port token pid npub in
      json.loads (h.dumps payload) ≡ some payload
      → read_runtime_record json (some (h.dumps payload)) ≡ some payload
unfolding read_runtime_record runtime_payload is_obj
read_back json h port token pid npub e = ap only_dict e

-- Once `connect` has returned True and could write the runtime record, a message with a body from
-- another process is posted to the port of the sidecar, with the token that the sidecar was started
-- with, whatever port the settings of that process name. The token is not empty, the process of the
-- session is alive, and loading the dumped record gives it back.
pub standalone_send-connect :
    (json : Json) (posix : Bool) (h : Host) (j : Job) (s : Session) (pid : ℕ) (status : Option ℕ)
    → (connect h s).0 ≡ returned true
    → (connect h s).1.process ≡ some pid
    → h.record_written ≡ true
    → ((npub : Option Text)
        → let payload = runtime_payload h.bridge_port h.new_token pid npub in
          json.loads (h.dumps payload) ≡ some payload)
    → nonempty h.new_token ≡ true
    → sidecar_pid_alive json posix h (nat pid) ≡ true
    → nonempty (strip j.message) ≡ true
    → standalone_send json posix h j (connect h s).1 status
      ≡ posted h j h.bridge_port h.new_token status
unfolding standalone_send
standalone_send-connect json posix h j s pid status up has_pid written round filled alive body =
    let (held, has_held, (npub, noted)) =
      connected-IsTold h (connect h s) up (connect-Tells h written s) in
    let same_pid : held ≡ pid = some_inj (sym has_held ∙ has_pid) in
    let text =
      ap (λ (p : ℕ). some (h.dumps (runtime_payload h.bridge_port h.new_token p npub))) same_pid in
    ap (λ (t : Option Text). send_by_record json posix h j (read_runtime_record json t) status)
      (noted ∙ text)
    ∙ (ap (λ (r : Option Value). send_by_record json posix h j r status)
          (read_back json h h.bridge_port h.new_token pid npub (round npub))
        ∙ send_by_payload json posix h j h.bridge_port h.new_token pid npub status filled alive
            body)
