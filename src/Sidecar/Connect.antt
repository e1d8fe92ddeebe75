-- ===== src/Sidecar/Connect.antt =====
-- `connect` and `disconnect` of adapter.py, with the exit of the sidecar and its health monitor.
mod Same
pub mod Release
pub mod Ending
pub mod Success
pub mod Reasons
pub mod Reach
mod Record
mod Deliver
mod Tests
use hermes_vector_platform.Prelude.{
  Text, ℕ, zero, suc, Bool, true, false, not, ◌&&◌, Option, none, some, List, [], ◌∷◌, ◌==◌, codes,
  strip, text_eq, if◌then◌else◌,
}
use hermes_vector_platform.Prelude.Values.{Value, get, truthy, text_of}
use hermes_vector_platform.Env.{scoped_env_str}
use hermes_vector_platform.Inbound.{is_text}
use hermes_vector_platform.Sidecar.Session.{
  Fatal, bridge_missing, identity_missing, port_in_use, spawn_failed, bridge_exited,
  startup_timeout, GatewayCall, acquire_lock, release_lock, mark_connected, mark_disconnected,
  set_fatal, notify_fatal, Session, Probe, listening, free, cancelled, Spawn, spawned, failed, Poll,
  exited, silent, answered, interrupted, Host, resolve_bridge_bin, reap_orphans, Reaped, close_log,
  shutdown_transport, publish_runtime,
}

-- How `connect` ends: it returns, or an exception leaves it.
pub data Outcome : Type 0 where
  returned : Bool → Outcome
  raised : Outcome

abbrev pub Ending : Type 0
Ending = Outcome × Session

abbrev pub call : GatewayCall → Session → Session
call c s = record s { calls = c ∷ s.calls }

-- The early returns: the error is noted and the lock given back.
abbrev pub refuse : Fatal → Session → Ending
refuse why s = (returned false, call release_lock (call (set_fatal why) s))

-- Behind the tries of the port: it is free, in use, or the wait was cancelled.
pub data Freed : Type 0 where
  is_free : Freed
  in_use : Freed
  is_cancelled : Freed

-- `for _ in range(10)`
unfoldable pub port_freed : ℕ → List Probe → Freed
port_freed tries [] = in_use
port_freed zero (probe ∷ probes) = in_use
port_freed (suc tries) (free ∷ probes) = is_free
port_freed (suc tries) (cancelled ∷ probes) = is_cancelled
port_freed (suc tries) (listening ∷ probes) = port_freed tries probes

-- Behind the wait for `/health`.
pub data Startup : Type 0 where
  ready : Startup
  gone : Startup
  late : Startup
  abandoned : Startup

-- `resp.status_code == 200 and data.get("status") == "ready"`
abbrev pub is_ready : ℕ → Value → Bool
is_ready status body = status == 200 && is_text (get (codes "status") body) (codes "ready")

unfoldable pub note_npub : Value → Session → Session
note_npub body s =
    let npub = get (codes "npub") body in
    if truthy npub then record s { npub = some (text_of npub) } else s

-- The rounds until the deadline.
unfoldable pub wait_ready : List Poll → Session → Startup × Session
wait_ready [] s = (late, s)
wait_ready (exited ∷ polls) s = (gone, s)
wait_ready (interrupted ∷ polls) s = (abandoned, s)
wait_ready (silent ∷ polls) s = wait_ready polls s
wait_ready (answered status body ∷ polls) s =
    let rest = wait_ready polls s in
    if is_ready status body then (ready, note_npub body s) else rest

unfoldable pub cleanup_failed_connect : Host → Session → Session
cleanup_failed_connect h s = call release_lock (shutdown_transport h s)

-- An ending inside of the `try`, which is cleaned up after.
abbrev pub give_up : Host → Outcome → Session → Ending
give_up h outcome s = (outcome, cleanup_failed_connect h s)

unfoldable pub go_online : Host → Session → Ending
go_online h s =
    let online = record (publish_runtime h s) {
      running = true;
      sse_task = true;
      health_task = true;
    } in
    if h.settled then (returned true, call mark_connected online) else give_up h raised online

unfoldable pub started : Host → Startup × Session → Ending
started h (ready, s) = go_online h s
started h (gone, s) = give_up h (returned false) (call (set_fatal bridge_exited) s)
started h (late, s) = give_up h (returned false) (call (set_fatal startup_timeout) s)
started h (abandoned, s) = give_up h raised s

unfoldable pub spawn_bridge : Host → Spawn → Session → Ending
spawn_bridge h (failed opened) s =
    let logged = if opened then record s { log_fh = true } else s in
    give_up h (returned false) (call (set_fatal spawn_failed) logged)
spawn_bridge h (spawned pid) s =
    started h
      (wait_ready h.polls (record s { log_fh = true; process = some pid; http_client = true }))

-- From the new token on.
unfoldable pub start_sidecar : Host → Session → Ending
start_sidecar h s = spawn_bridge h h.spawn (record s { token = some h.new_token })

unfoldable pub behind_port : Host → Freed → Session → Ending
behind_port h is_free s = start_sidecar h s
behind_port h in_use s = refuse port_in_use s
behind_port h is_cancelled s = (raised, s)

-- The tries of the port, where the reaping is not cancelled.
unfoldable pub behind_reaping : Host → Reaped → Ending
behind_reaping h (true, s) = (raised, s)
behind_reaping h (false, s) = behind_port h (port_freed 10 h.probes) s

unfoldable pub clear_port : Host → Session → Ending
clear_port h s = if h.first_probe then behind_reaping h (reap_orphans h s) else start_sidecar h s

unfoldable pub bridge_bin : Host → Text
bridge_bin h = strip (scoped_env_str h.env (codes "VECTOR_BRIDGE_BIN"))

unfoldable pub connect_locked : Host → Session → Ending
connect_locked h s =
    if not (h.is_file (resolve_bridge_bin h (bridge_bin h) false))
    then refuse bridge_missing s
    else if not h.identity_present
    then refuse identity_missing s
    else clear_port h s

unfoldable pub connect : Host → Session → Ending
connect h s = if h.lock_granted then connect_locked h (call acquire_lock s) else (returned false, s)

unfoldable pub disconnect : Host → Session → Session
disconnect h s =
    let quiet = record s { running = false; sse_task = false; health_task = false } in
    call mark_disconnected (call release_lock (shutdown_transport h quiet))

-- `has_fatal_error`, a property of the gateway's base class, is an argument.
unfoldable pub handle_bridge_exit : Bool → Session → Session
handle_bridge_exit has_fatal s =
    if has_fatal then s else call notify_fatal (close_log (call (set_fatal bridge_exited) s))

-- `self.process and self.process.poll() is not None`
abbrev pub is_dead : Option ℕ → Bool → Bool
is_dead none dead = false
is_dead (some pid) dead = dead

-- The rounds of the health monitor: whether the process is found dead.
unfoldable pub health_monitor : Bool → List Bool → Session → Session
health_monitor has_fatal [] s = s
health_monitor has_fatal (dead ∷ rounds) s =
    let rest = health_monitor has_fatal rounds s in
    if s.running
    then (if is_dead s.process dead then handle_bridge_exit has_fatal s else rest)
    else s
