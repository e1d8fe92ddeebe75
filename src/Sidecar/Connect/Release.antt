-- ===== src/Sidecar/Connect/Release.antt =====
-- What `connect` and `disconnect` leave behind.
use hermes_vector_platform.Prelude.{
  ℕ, ◌≡◌, refl, ◌∙◌, Bool, true, false, Option, none, some, List, [], ◌∷◌, ◌≢◌, ◌⊎◌, inl, inr,
}
use hermes_vector_platform.Sidecar.Session.{
  Fatal, GatewayCall, acquire_lock, release_lock, Session, Host, stop_found, stop, close_log,
  aclose_http, shutdown_transport, uncut,
}
use hermes_vector_platform.Sidecar.Connect.{
  Outcome, returned, raised, Ending, refuse, cleanup_failed_connect, give_up, port_freed,
  is_cancelled,
}
use hermes_vector_platform.Sidecar.Connect.Same.{clear_runtime_same, stop_process_same}

-- Whether the adapter holds the platform lock, by its calls.
unfoldable pub holds_lock : List GatewayCall → Bool
holds_lock [] = false
holds_lock (acquire_lock ∷ calls) = true
holds_lock (release_lock ∷ calls) = false
holds_lock (c ∷ calls) = holds_lock calls

-- There is no process, no client and no open log.
pub record IsDown (s : Session) : Type 0 where
  pub no_process : s.process ≡ none
  pub no_client : s.http_client ≡ false
  pub no_log : s.log_fh ≡ false

-- `stop` forgets the process, and keeps the rest.
pub record IsStopped (r s : Session) : Type 0 where
  pub stopped : r.process ≡ none
  pub kept_calls : r.calls ≡ s.calls
  pub kept_running : r.running ≡ s.running

stop_found-IsStopped :
    (h : Host) (o : Option ℕ) (s : Session) → s.process ≡ o → IsStopped (stop_found h o s) s
unfolding stop_found
stop_found-IsStopped h none s e = record { stopped = e; kept_calls = refl; kept_running = refl }
stop_found-IsStopped h (some pid) s e =
    let kept = stop_process_same h pid s in
    record { stopped = refl; kept_calls = kept.same_calls; kept_running = kept.same_running }

stop-IsStopped : (h : Host) (s : Session) → IsStopped (stop h s) s
unfolding stop
stop-IsStopped h s = stop_found-IsStopped h s.process s refl

-- Behind `shutdown_transport`.
pub record IsShut (r s : Session) : Type 0 where
  pub down : IsDown r
  pub calls_kept : r.calls ≡ s.calls
  pub running_kept : r.running ≡ s.running

pub shutdown_transport-IsShut : (h : Host) (s : Session) → IsShut (shutdown_transport h s) s
unfolding shutdown_transport aclose_http close_log
shutdown_transport-IsShut h s =
    let stopped = stop-IsStopped h s in
    let cleared = clear_runtime_same h (aclose_http (close_log (stop h s))) in
    record {
      down = record {
        no_process = cleared.same_process ∙ stopped.stopped;
        no_client = cleared.same_client;
        no_log = cleared.same_log;
      };
      calls_kept = cleared.same_calls ∙ stopped.kept_calls;
      running_kept = cleared.same_running ∙ stopped.kept_running;
    }

-- The wait for the port is cancelled, in the reaping or behind it.
abbrev pub IsCut : Host → Type 0
IsCut h = (h.first_probe ≡ true) × ((h.reaping ≢ uncut) ⊎ (port_freed 10 h.probes ≡ is_cancelled))

-- Up and locked.
abbrev pub IsUp : Session → Type 0
IsUp s =
    (s.running ≡ true)
    × (s.http_client ≡ true)
    × (holds_lock s.calls ≡ true)
    × ((pid : ℕ) × (s.process ≡ some pid))

-- How an ending leaves a session that `running` had this value in before: where an exception leaves,
-- the lock is held only where the wait for the port was cancelled, and `running` is changed only where
-- the sidecar was ready and what is dealt with next raised.
abbrev pub Leaves : Host → Bool → Outcome → Session → Type 0
Leaves h before (returned true) s = IsUp s
Leaves h before (returned false) s = IsDown s × (holds_lock s.calls ≡ false) × (s.running ≡ before)
Leaves h before raised s =
    IsDown s
    × ((holds_lock s.calls ≡ false) ⊎ ((holds_lock s.calls ≡ true) × IsCut h))
    × ((s.running ≡ before) ⊎ ((s.running ≡ true) × (h.settled ≡ false)))

pub record Ends (h : Host) (before : Bool) (e : Ending) : Type 0 where
  pub leaves : Leaves h before e.0 e.1

-- Before the process is started: down, and the lock is held.
pub record IsLocked (before : Bool) (s : Session) : Type 0 where
  pub locked_down : IsDown s
  pub locked : holds_lock s.calls ≡ true
  pub not_running : s.running ≡ before

pub refuse-Ends :
    (h : Host) (before : Bool) (why : Fatal) (s : Session)
    → IsLocked before s
    → Ends h before (refuse why s)
unfolding holds_lock
refuse-Ends h before why s l = record {
  leaves = (
    record {
      no_process = l.locked_down.no_process;
      no_client = l.locked_down.no_client;
      no_log = l.locked_down.no_log;
    },
    refl,
    l.not_running,
  );
}

give_up_down : (h : Host) (s : Session) → IsDown (cleanup_failed_connect h s)
unfolding cleanup_failed_connect
give_up_down h s =
    let shut = shutdown_transport-IsShut h s in
    record {
      no_process = shut.down.no_process;
      no_client = shut.down.no_client;
      no_log = shut.down.no_log;
    }

give_up_unlocked : (h : Host) (s : Session) → holds_lock (cleanup_failed_connect h s).calls ≡ false
unfolding cleanup_failed_connect holds_lock
give_up_unlocked h s = refl

pub give_up-raised :
    (h : Host) (before : Bool) (s : Session)
    → (s.running ≡ before) ⊎ ((s.running ≡ true) × (h.settled ≡ false))
    → Ends h before (give_up h raised s)
unfolding cleanup_failed_connect
give_up-raised h before s quiet =
    let kept = (shutdown_transport-IsShut h s).running_kept in
    record {
      leaves = (
        give_up_down h s,
        inl (give_up_unlocked h s),
        elim quiet [ inl e ↦ inl (kept ∙ e) | inr (e, unsettled) ↦ inr (kept ∙ e, unsettled) ],
      );
    }

pub give_up-returned :
    (h : Host) (before : Bool) (s : Session)
    → s.running ≡ before
    → Ends h before (give_up h (returned false) s)
unfolding cleanup_failed_connect
give_up-returned h before s quiet = record {
  leaves = (
    give_up_down h s,
    give_up_unlocked h s,
    (shutdown_transport-IsShut h s).running_kept ∙ quiet,
  );
}
