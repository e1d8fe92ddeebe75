-- ===== src/Sidecar/Session.antt =====
-- `SidecarSession` of internal/sidecar.py: the sidecar process, the client that talks to it and its
-- runtime record, with the probes of processes in internal/bridge_bin.py.
use hermes_vector_platform.Prelude.{
  Text, ℕ, Bool, true, false, not, ◌&&◌, ◌||◌, Option, none, some, List, [], ◌∷◌, codes, contains,
  words, all, nonempty, leb, if◌then◌else◌,
}
use hermes_vector_platform.Prelude.Values.{Value, int, str, obj, field, end, Fields}
use hermes_vector_platform.Prelude.Numbers.{is_digit, parse_digits}
use hermes_vector_platform.Env.{Environ, text_or}

-- Why the adapter cannot go on: the codes of `_set_fatal_error`.
pub data Fatal : Type 0 where
  bridge_missing : Fatal
  identity_missing : Fatal
  port_in_use : Fatal
  spawn_failed : Fatal
  bridge_exited : Fatal
  startup_timeout : Fatal

unfoldable pub retryable : Fatal → Bool
retryable port_in_use = true
retryable bridge_exited = true
retryable startup_timeout = true
retryable _ = false

-- Calls of the gateway, which the adapter is a platform of.
pub data GatewayCall : Type 0 where
  acquire_lock : GatewayCall
  release_lock : GatewayCall
  mark_connected : GatewayCall
  mark_disconnected : GatewayCall
  set_fatal : Fatal → GatewayCall
  notify_fatal : GatewayCall

pub data Signal : Type 0 where
  sigterm : Signal
  sigkill : Signal

-- Who is signalled: a process group or one process.
pub data Target : Type 0 where
  to_group : ℕ → Target
  to_process : ℕ → Target

abbrev pub Kill : Type 0
Kill = Target × Signal

-- The session with the fields of the adapter that connecting changes. `runtime` is the text of the
-- runtime record's file; `calls` and `kills` hold what was called and signalled, the latest first.
pub record Session : Type 0 where
  pub http_client : Bool
  pub token : Option Text
  pub process : Option ℕ
  pub log_fh : Bool
  pub runtime : Option Text
  pub npub : Option Text
  pub running : Bool
  pub sse_task : Bool
  pub health_task : Bool
  pub calls : List GatewayCall
  pub kills : List Kill

-- A try of the port: something accepts, nothing does, or the wait before it is cancelled.
pub data Probe : Type 0 where
  listening : Probe
  free : Probe
  cancelled : Probe

-- How `spawn` ends; where it fails, whether its log file was open by then.
pub data Spawn : Type 0 where
  spawned : ℕ → Spawn
  failed : Bool → Spawn

-- A round of the wait for `/health`: the process has exited, no answer, an answer with its status and
-- JSON body, or the wait is cancelled.
pub data Poll : Type 0 where
  exited : Poll
  silent : Poll
  answered : ℕ → Value → Poll
  interrupted : Poll

-- Where the reaping of orphans is cancelled: in the inspection, in the wait behind SIGTERM, in the one
-- behind SIGKILL, or nowhere.
pub data Cancellation : Type 0 where
  at_inspection : Cancellation
  behind_sigterm : Cancellation
  behind_sigkill : Cancellation
  uncut : Cancellation

pub data Binary : Type 0 where
  override : Text → Binary
  built : Binary
  prebuilt : Binary

-- What the machine and the gateway answer.
pub record Host : Type 0 where
  pub env : Environ
  pub windows : Bool
  pub lock_granted : Bool
  pub is_file : Binary → Bool
  pub version_matches : Bool
  pub identity_present : Bool
  pub bridge_port : ℕ
  -- the first try of the port, the reaping, and the tries behind it
  pub first_probe : Bool
  pub reaping : Cancellation
  pub probes : List Probe
  pub new_token : Text
  pub spawn : Spawn
  pub polls : List Poll
  -- whether the welcome, the home community and the joined channels are dealt with without an
  -- exception
  pub settled : Bool
  -- whether the runtime record can be written and removed, and `json.dumps`
  pub record_written : Bool
  pub record_removed : Bool
  pub dumps : Value → Text
  -- `lsof` on the port, `ps` for a process, and `kill -0`
  pub lsof : Option Text
  pub ps : ℕ → Option Text
  pub answers : ℕ → Bool
  -- whether the process group can be signalled
  pub group_reached : Bool
  -- whether the process has exited when `stop` looks first, and behind SIGTERM
  pub exited_before : Bool
  pub exited_behind : Bool

unfoldable pub resolve_bridge_bin : Host → Text → Bool → Binary
resolve_bridge_bin h path require_current =
    if nonempty path
    then override path
    else if h.is_file built
    then built
    else if h.is_file prebuilt && (if require_current then h.version_matches else true)
    then prebuilt
    else built

unfoldable pub pids_of : List Text → List ℕ
pids_of [] = []
pids_of (word ∷ more) =
    let rest = pids_of more in
    if all is_digit word
    then elim (parse_digits 0 false word) [ none ↦ rest | some pid ↦ pid ∷ rest ]
    else rest

unfoldable pub find_listener_pids : Host → List ℕ
find_listener_pids h = pids_of (words (text_or h.lsof []))

unfoldable pub pid_is_vector_bridge : Host → ℕ → Bool
pid_is_vector_bridge h pid =
    if leb pid 1 then false else contains (codes "vector-bridge") (text_or (h.ps pid) [])

unfoldable pub pid_alive : Host → ℕ → Bool
pid_alive h pid = if leb pid 1 then false else h.answers pid

unfoldable pub filter {ℓ} : {A : Type ℓ} → (A → Bool) → List A → List A
filter p [] = []
filter p (x ∷ xs) = let rest = filter p xs in if p x then x ∷ rest else rest

abbrev pub stale_pids : Host → List ℕ
stale_pids h = filter (pid_is_vector_bridge h) (find_listener_pids h)

-- `os.kill` for each of them
unfoldable pub kill_all : Signal → List ℕ → Session → Session
kill_all sig [] s = s
kill_all sig (pid ∷ pids) s =
    kill_all sig pids (record s { kills = (to_process pid, sig) ∷ s.kills })

unfoldable pub clear_runtime : Host → Session → Session
clear_runtime h s = if h.record_removed then record s { runtime = none } else s

-- Whether the reaping is cancelled, and the session behind it.
abbrev pub Reaped : Type 0
Reaped = Bool × Session

-- SIGTERM for each of the orphans, and SIGKILL for those that are still there.
abbrev pub kill_stale : Host → Session → Session
kill_stale h s =
    kill_all sigkill (filter (pid_alive h) (stale_pids h)) (kill_all sigterm (stale_pids h) s)

unfoldable pub reap_stale : Host → Cancellation → Session → Reaped
reap_stale h at_inspection s = (true, s)
reap_stale h behind_sigterm s = (true, kill_all sigterm (stale_pids h) s)
reap_stale h behind_sigkill s = (true, kill_stale h s)
reap_stale h uncut s = (false, clear_runtime h (kill_stale h s))

-- Where there is nothing to reap, only the inspection can be cancelled.
unfoldable pub reap_nothing : Cancellation → Session → Reaped
reap_nothing at_inspection s = (true, s)
reap_nothing cut s = (false, s)

unfoldable pub reap_orphans : Host → Session → Reaped
reap_orphans h s =
    if h.windows
    then (false, s)
    else if nonempty (stale_pids h)
    then reap_stale h h.reaping s
    else reap_nothing h.reaping s

-- `signal`: the process group, or the process where there is no group to reach.
unfoldable pub signal : Host → ℕ → Signal → Session → Session
signal h pid sig s =
    let target =
      if (h.windows || leb pid 1) || not h.group_reached then to_process pid else to_group pid in
    record s { kills = (target, sig) ∷ s.kills }

unfoldable pub stop_process : Host → ℕ → Session → Session
stop_process h pid s =
    if h.exited_before
    then s
    else (let terminated = signal h pid sigterm s in
        if h.exited_behind then terminated else signal h pid sigkill terminated)

unfoldable pub stop_found : Host → Option ℕ → Session → Session
stop_found h none s = s
stop_found h (some pid) s = record (stop_process h pid s) { process = none }

unfoldable pub stop : Host → Session → Session
stop h s = stop_found h s.process s

unfoldable pub close_log : Session → Session
close_log s = record s { log_fh = false }

unfoldable pub aclose_http : Session → Session
aclose_http s = record s { http_client = false }

unfoldable pub shutdown_transport : Host → Session → Session
shutdown_transport h s = clear_runtime h (aclose_http (close_log (stop h s)))

abbrev pub nat : ℕ → Value
nat n = int (record { negative = false; magnitude = n })

abbrev pub npub_field : Option Text → Fields
npub_field none = end
npub_field (some npub) = if nonempty npub then field (codes "npub") (str npub) end else end

-- The payload of `_write_runtime_record`
unfoldable pub runtime_payload : ℕ → Text → ℕ → Option Text → Value
runtime_payload port token pid npub = obj [] (
    field (codes "port") (nat port)
      (field (codes "token") (str token) (field (codes "pid") (nat pid) (npub_field npub))))

abbrev pub pid_or_zero : Option ℕ → ℕ
pid_or_zero none = 0
pid_or_zero (some pid) = pid

unfoldable pub publish_runtime : Host → Session → Session
publish_runtime h s =
    let payload =
      runtime_payload h.bridge_port (text_or s.token []) (pid_or_zero s.process) s.npub in
    if h.record_written then record s { runtime = some (h.dumps payload) } else s
