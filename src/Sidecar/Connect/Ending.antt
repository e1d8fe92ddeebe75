-- ===== src/Sidecar/Connect/Ending.antt =====
-- The endings of `connect`.
use hermes_vector_platform.Prelude.{
  ℕ, ◌≡◌, refl, ap, ◌∙◌, ◌≢◌, Bool, true, false, some, List, [], ◌∷◌, Bool-cases, inl, inr,
  if◌then◌else◌, not,
}
use hermes_vector_platform.Prelude.Values.{Value}
use hermes_vector_platform.Sidecar.Session.{
  Session, Host, Poll, exited, silent, answered, interrupted, bridge_missing, identity_missing,
  port_in_use, Spawn, spawned, failed, publish_runtime, acquire_lock, resolve_bridge_bin, Reaped,
  uncut, reap_orphans,
}
use hermes_vector_platform.Sidecar.Connect.{
  Ending, Freed, is_free, in_use, is_cancelled, port_freed, Startup, ready, gone, late, abandoned,
  is_ready, note_npub, wait_ready, go_online, started, spawn_bridge, start_sidecar, behind_port,
  clear_port, connect_locked, disconnect, raised, call, behind_reaping, bridge_bin,
}
use hermes_vector_platform.Sidecar.Connect.Release.{
  holds_lock, IsDown, Ends, IsLocked, refuse-Ends, give_up-raised, give_up-returned, IsCut,
  shutdown_transport-IsShut,
}
use hermes_vector_platform.Sidecar.Connect.Same.{
  IsSameBut, same, same_if, reap_orphans_same, reap_orphans_cut,
}

Ends-if :
    {h : Host} {before : Bool} (b : Bool) (d e : Ending)
    → (b ≡ true → Ends h before d)
    → (b ≡ false → Ends h before e)
    → Ends h before (if b then d else e)
Ends-if true d e p q = p refl
Ends-if false d e p q = q refl

-- The process is started, and the lock is held.
record IsStarted (before : Bool) (s : Session) : Type 0 where
  has_process : (pid : ℕ) × (s.process ≡ some pid)
  has_client : s.http_client ≡ true
  has_lock : holds_lock s.calls ≡ true
  not_yet : s.running ≡ before

IsStarted-same :
    {before : Bool} (r s : Session) → IsSameBut r s → IsStarted before s → IsStarted before r
IsStarted-same r s e t = record {
  has_process = (t.has_process.0, e.same_process ∙ t.has_process.1);
  has_client = e.same_client ∙ t.has_client;
  has_lock = ap holds_lock e.same_calls ∙ t.has_lock;
  not_yet = e.same_running ∙ t.not_yet;
}

pub note_npub_same : (body : Value) (s : Session) → IsSameBut (note_npub body s) s
unfolding note_npub
note_npub_same body s =
    same_if _ _ s s
      (record {
        same_calls = refl;
        same_process = refl;
        same_client = refl;
        same_log = refl;
        same_running = refl;
      })
      (same s)

pub publish_runtime_same : (h : Host) (s : Session) → IsSameBut (publish_runtime h s) s
unfolding publish_runtime
publish_runtime_same h s =
    same_if h.record_written _ s s
      (record {
        same_calls = refl;
        same_process = refl;
        same_client = refl;
        same_log = refl;
        same_running = refl;
      })
      (same s)

pub wait_ready_same : (polls : List Poll) (s : Session) → IsSameBut (wait_ready polls s).1 s
unfolding wait_ready
wait_ready_same [] s = same s
wait_ready_same (exited ∷ polls) s = same s
wait_ready_same (interrupted ∷ polls) s = same s
wait_ready_same (silent ∷ polls) s = wait_ready_same polls s
wait_ready_same (answered status body ∷ polls) s = elim (Bool-cases (is_ready status body)) [
  | inl e ↦ rw e (note_npub_same body s)
  | inr e ↦ rw e (wait_ready_same polls s)
]

module _ (h : Host) (before : Bool) where
  go_online-Ends : (s : Session) → IsStarted before s → Ends h before (go_online h s)
  unfolding go_online
  go_online-Ends s t =
      let p = IsStarted-same _ s (publish_runtime_same h s) t in
      Ends-if h.settled _ _
        (λ _. record {
          leaves = (refl, p.has_client, unfold holds_lock in p.has_lock, p.has_process);
        })
        (λ unsettled. give_up-raised h before _ (inr (refl, unsettled)))

  started-Ends : (e : Startup) (s : Session) → IsStarted before s → Ends h before (started h (e, s))
  unfolding started
  started-Ends ready s t = go_online-Ends s t
  started-Ends gone s t = give_up-returned h before _ t.not_yet
  started-Ends late s t = give_up-returned h before _ t.not_yet
  started-Ends abandoned s t = give_up-raised h before s (inl t.not_yet)

  if_running :
      (b : Bool) (r s : Session)
      → r.running ≡ before
      → s.running ≡ before
      → (if b then r else s).running ≡ before
  if_running true r s p q = p
  if_running false r s p q = q

  spawn_bridge-Ends :
      (o : Spawn) (s : Session) → IsLocked before s → Ends h before (spawn_bridge h o s)
  unfolding spawn_bridge
  spawn_bridge-Ends (failed opened) s l =
      give_up-returned h before _ (if_running opened _ s l.not_running l.not_running)
  spawn_bridge-Ends (spawned pid) s l =
      let online = record s { log_fh = true; process = some pid; http_client = true } in
      let t : IsStarted before online = record {
        has_process = (pid, refl);
        has_client = refl;
        has_lock = l.locked;
        not_yet = l.not_running;
      } in
      let waited = wait_ready h.polls online in
      started-Ends waited.0 waited.1
        (IsStarted-same waited.1 online (wait_ready_same h.polls online) t)

  IsLocked-same : (r s : Session) → IsSameBut r s → IsLocked before s → IsLocked before r
  IsLocked-same r s e l = record {
    locked_down = record {
      no_process = e.same_process ∙ l.locked_down.no_process;
      no_client = e.same_client ∙ l.locked_down.no_client;
      no_log = e.same_log ∙ l.locked_down.no_log;
    };
    locked = ap holds_lock e.same_calls ∙ l.locked;
    not_running = e.same_running ∙ l.not_running;
  }

  start_sidecar-Ends : (s : Session) → IsLocked before s → Ends h before (start_sidecar h s)
  unfolding start_sidecar
  start_sidecar-Ends s l = spawn_bridge-Ends h.spawn _ (
      IsLocked-same _ s
        (record {
          same_calls = refl;
          same_process = refl;
          same_client = refl;
          same_log = refl;
          same_running = refl;
        })
        l)

  cut-Ends : (s : Session) → IsCut h → IsLocked before s → Ends h before (raised, s)
  cut-Ends s cut l = record { leaves = (l.locked_down, inr (l.locked, cut), inl l.not_running) }

  behind_port-Ends :
      (f : Freed) (s : Session)
      → h.first_probe ≡ true
      → port_freed 10 h.probes ≡ f
      → IsLocked before s
      → Ends h before (behind_port h f s)
  unfolding behind_port
  behind_port-Ends is_free s busy e l = start_sidecar-Ends s l
  behind_port-Ends in_use s busy e l = refuse-Ends h before port_in_use s l
  behind_port-Ends is_cancelled s busy e l = cut-Ends s (busy, inr e) l

  behind_reaping-Ends :
      (r : Reaped)
      → h.first_probe ≡ true
      → (r.0 ≡ true → h.reaping ≢ uncut)
      → IsLocked before r.1
      → Ends h before (behind_reaping h r)
  unfolding behind_reaping
  behind_reaping-Ends (true, s) busy cut l = cut-Ends s (busy, inl (cut refl)) l
  behind_reaping-Ends (false, s) busy cut l = behind_port-Ends _ s busy refl l

  clear_port-Ends : (s : Session) → IsLocked before s → Ends h before (clear_port h s)
  unfolding clear_port
  clear_port-Ends s l =
      Ends-if h.first_probe _ _
        (λ busy.
          behind_reaping-Ends (reap_orphans h s) busy (reap_orphans_cut h s)
            (IsLocked-same _ s (reap_orphans_same h s) l))
        (λ _. start_sidecar-Ends s l)

  connect_locked-Ends : (s : Session) → IsLocked before s → Ends h before (connect_locked h s)
  unfolding connect_locked
  connect_locked-Ends s l =
      Ends-if (not (h.is_file (resolve_bridge_bin h (bridge_bin h) false))) _ _
        (λ _. refuse-Ends h before bridge_missing s l)
        (λ _.
          Ends-if (not h.identity_present) _ _ (λ _. refuse-Ends h before identity_missing s l)
            (λ _. clear_port-Ends s l))

-- A session before `connect`, and behind `disconnect`: down, not running, and without the lock.
pub record IsIdle (s : Session) : Type 0 where
  pub idle : IsDown s
  pub stands_still : s.running ≡ false
  pub unlocked : holds_lock s.calls ≡ false

-- Where the lock is granted.
pub granted-Ends :
    (h : Host) (s : Session) → IsDown s → Ends h s.running (connect_locked h (call acquire_lock s))
unfolding holds_lock
granted-Ends h s d = connect_locked-Ends h s.running _ (record {
  locked_down = record { no_process = d.no_process; no_client = d.no_client; no_log = d.no_log };
  locked = refl;
  not_running = refl;
})

-- From every session `disconnect` leads to an idle one, from which `connect` can be called again.
pub disconnect-IsIdle : (h : Host) (s : Session) → IsIdle (disconnect h s)
unfolding disconnect holds_lock
disconnect-IsIdle h s =
    let shut =
      shutdown_transport-IsShut h
        (record s { running = false; sse_task = false; health_task = false }) in
    record {
      idle = record {
        no_process = shut.down.no_process;
        no_client = shut.down.no_client;
        no_log = shut.down.no_log;
      };
      stands_still = shut.running_kept;
      unlocked = refl;
    }
