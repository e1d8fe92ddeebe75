-- ===== src/Sidecar/Connect/Tests.antt =====
-- Runs of `connect`.
use hermes_vector_platform.Prelude.{
  ◌≡◌, refl, inl, true, false, none, some, [], ◌∷◌, ◌==◌, codes, text_eq, all, if◌then◌else◌,
}
use hermes_vector_platform.Prelude.Values.{Value, obj, str, field, end, get, find}
use hermes_vector_platform.Sidecar.Standalone.{
  Json, Job, as_int, sidecar_pid_alive, standalone_send,
}
use hermes_vector_platform.Sidecar.Connect.Deliver.{posted, standalone_send-connect}
use hermes_vector_platform.Prelude.{Text, Option, nonempty, strip, is_space}
use hermes_vector_platform.Prelude.Values.{null, text_of, show, truthy}
use hermes_vector_platform.Sidecar.Session.{pid_alive, nat, runtime_payload}
use hermes_vector_platform.Sidecar.Session.{
  uncut, Host, Session, cancelled, listening, free, spawned, failed, silent, answered, reap_orphans,
}
use hermes_vector_platform.Sidecar.Connect.{is_ready, connect, disconnect}
use hermes_vector_platform.Sidecar.Connect.Release.{holds_lock}
use hermes_vector_platform.Sidecar.Connect.Ending.{IsIdle, disconnect-IsIdle}
use hermes_vector_platform.Sidecar.Connect.Success.{Runs, is_waiting, connect-Runs}
use hermes_vector_platform.Sidecar.Connect.Reach.{IsOwned, fresh, connected, reachable-IsOwned}
use hermes_vector_platform.Sidecar.Connect.Reasons.{Explains, fatals, failed_connect_has_reason}
use hermes_vector_platform.Sidecar.Reap.{is_for_orphan, reap_orphans_spares_others}

abbrev new_session : Session
new_session = record {
  http_client = false;
  token = none;
  process = none;
  log_fh = false;
  runtime = none;
  npub = none;
  running = false;
  sse_task = false;
  health_task = false;
  calls = [];
  kills = [];
}

new_session-IsIdle : IsIdle new_session
unfolding holds_lock
new_session-IsIdle = record {
  idle = record { no_process = refl; no_client = refl; no_log = refl };
  stands_still = refl;
  unlocked = refl;
}

abbrev ready_body : Value
ready_body = obj [] (field (codes "status") (str (codes "ready")) end)

-- Everything is there, and the sidecar is ready at the second try.
abbrev good_host : Host
good_host = record {
  env = record { scoped_secret = none; vars = λ name. none };
  windows = false;
  lock_granted = true;
  is_file = λ b. true;
  version_matches = true;
  identity_present = true;
  bridge_port = 8797;
  first_probe = false;
  reaping = uncut;
  probes = listening ∷ free ∷ [];
  new_token = codes "t";
  spawn = spawned 42;
  polls = silent ∷ answered 200 ready_body ∷ [];
  settled = true;
  record_written = true;
  record_removed = true;
  lsof = some (codes "7 9");
  ps = λ pid. if pid == 7 then some (codes "/opt/vector-bridge") else some (codes "nginx");
  dumps = λ v. text_of (get (codes "npub") v);
  answers = λ pid. true;
  group_reached = true;
  exited_before = false;
  exited_behind = true;
}

is_ready_body : is_ready 200 ready_body ≡ true
unfolding get find text_eq
is_ready_body = refl

disconnect-IsIdle_example : IsIdle (disconnect good_host (connect good_host new_session).1)
disconnect-IsIdle_example = disconnect-IsIdle good_host (connect good_host new_session).1

connect-Runs_example : Runs 42 (connect good_host new_session)
connect-Runs_example =
    connect-Runs good_host new_session 42 (silent ∷ []) [] 200 ready_body refl refl refl (inl refl)
      refl refl (unfold is_waiting in refl) is_ready_body refl

-- The port is taken, and the wait for it cancelled.
abbrev taken_host : Host
taken_host = record good_host { first_probe = true; probes = listening ∷ cancelled ∷ [] }

reachable-IsOwned_example : IsOwned (connect taken_host new_session).1
reachable-IsOwned_example =
    reachable-IsOwned (connect taken_host new_session).1
      (connected taken_host (fresh new_session-IsIdle.idle) new_session-IsIdle.idle)

-- A process that cannot be started.
abbrev broken_host : Host
broken_host = record good_host { spawn = failed true }

failed_connect_has_reason_example :
    Explains broken_host
      (fatals [])
      (connect broken_host new_session).0
      (connect broken_host new_session).1.calls
failed_connect_has_reason_example = failed_connect_has_reason broken_host new_session refl

reap_orphans_spares_others_example :
    all (is_for_orphan good_host) (reap_orphans good_host new_session).1.kills ≡ true
reap_orphans_spares_others_example = reap_orphans_spares_others good_host new_session

-- The text of a record holds no more than its npub, since the rest is known.
abbrev json : Json
json = record {
  loads = λ t. some (runtime_payload 8797 (codes "t") 42 (some t));
  truncated = λ t. none;
}

-- Dumping and loading gives the record back.
json_round :
    (npub : Option Text)
    → let payload = runtime_payload 8797 (codes "t") 42 npub in
      json.loads (good_host.dumps payload) ≡ some payload
unfolding runtime_payload text_of get find text_eq truthy show
json_round none = refl
json_round (some []) = refl
json_round (some (c ∷ npub)) = refl

abbrev hello_job : Job
hello_job = record {
  chat_id = codes "alice";
  message = codes "hi";
  has_media = false;
  extra = null;
}

is_alive : sidecar_pid_alive json true good_host (nat 42) ≡ true
unfolding sidecar_pid_alive as_int pid_alive
is_alive = refl

has_body : nonempty (strip (codes "hi")) ≡ true
unfolding strip is_space
has_body = refl

standalone_send-connect_example :
    standalone_send json true good_host hello_job (connect good_host new_session).1 (some 200)
    ≡ posted good_host hello_job 8797 (codes "t") (some 200)
standalone_send-connect_example =
    standalone_send-connect json true good_host hello_job new_session 42 (some 200)
      connect-Runs_example.succeeded connect-Runs_example.has_pid refl json_round refl is_alive
      has_body
