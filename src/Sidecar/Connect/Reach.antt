-- ===== src/Sidecar/Connect/Reach.antt =====
-- The sessions that calls of `connect`, `disconnect` and the monitor lead to.
use hermes_vector_platform.Prelude.{
  ◌≡◌, ◌⊎◌, inl, inr, Bool, true, false, none, List, [], ◌∷◌, if◌then◌else◌,
}
use hermes_vector_platform.Sidecar.Session.{Session, Host, close_log, acquire_lock}
use hermes_vector_platform.Sidecar.Connect.{
  Outcome, returned, raised, Ending, call, connect_locked, connect, disconnect, handle_bridge_exit,
  health_monitor, is_dead,
}
use hermes_vector_platform.Sidecar.Connect.Release.{holds_lock, IsDown, Leaves}
use hermes_vector_platform.Sidecar.Connect.Ending.{granted-Ends, disconnect-IsIdle}

-- What the gateway and the monitor do. `connect` is called on a session without a process, client and
-- open log, so that a connected session is disconnected first; the lock may still be held.
pub data Reachable : Session → Type 0 where
  fresh : {s : Session} → IsDown s → Reachable s
  connected : (h : Host) {s : Session} → Reachable s → IsDown s → Reachable (connect h s).1
  disconnected : (h : Host) {s : Session} → Reachable s → Reachable (disconnect h s)
  bridge_gone :
      (has_fatal : Bool) {s : Session} → Reachable s → Reachable (handle_bridge_exit has_fatal s)
  watched :
      (has_fatal : Bool) (rounds : List Bool) {s : Session}
      → Reachable s
      → Reachable (health_monitor has_fatal rounds s)

-- A process or a client is there only while the lock is held.
abbrev pub IsOwned : Session → Type 0
IsOwned s = ((s.process ≡ none) × (s.http_client ≡ false)) ⊎ (holds_lock s.calls ≡ true)

down-IsOwned : (s : Session) → IsDown s → IsOwned s
down-IsOwned s d = inl (d.no_process, d.no_client)

Leaves-IsOwned :
    (h : Host) (before : Bool) (o : Outcome) (s : Session) → Leaves h before o s → IsOwned s
Leaves-IsOwned h before (returned true) s l = inr l.2
Leaves-IsOwned h before (returned false) s l = down-IsOwned s l.0
Leaves-IsOwned h before raised s l = down-IsOwned s l.0

ending_if_IsOwned :
    (b : Bool) (d e : Ending) → IsOwned d.1 → IsOwned e.1 → IsOwned (if b then d else e).1
ending_if_IsOwned true d e p q = p
ending_if_IsOwned false d e p q = q

connect-IsOwned : (h : Host) (s : Session) → IsDown s → IsOwned (connect h s).1
unfolding connect
connect-IsOwned h s d =
    let e = connect_locked h (call acquire_lock s) in
    ending_if_IsOwned h.lock_granted e (returned false, s)
      (Leaves-IsOwned h s.running e.0 e.1 (granted-Ends h s d).leaves) (down-IsOwned s d)

handle_bridge_exit-IsOwned :
    (has_fatal : Bool) (s : Session) → IsOwned s → IsOwned (handle_bridge_exit has_fatal s)
unfolding handle_bridge_exit close_log holds_lock
handle_bridge_exit-IsOwned true s o = o
handle_bridge_exit-IsOwned false s o = o

IsOwned-if : (b : Bool) (r s : Session) → IsOwned r → IsOwned s → IsOwned (if b then r else s)
IsOwned-if true r s p q = p
IsOwned-if false r s p q = q

health_monitor-IsOwned :
    (has_fatal : Bool) (rounds : List Bool) (s : Session)
    → IsOwned s
    → IsOwned (health_monitor has_fatal rounds s)
unfolding health_monitor
health_monitor-IsOwned has_fatal [] s o = o
health_monitor-IsOwned has_fatal (dead ∷ rounds) s o =
    IsOwned-if s.running _ s
      (IsOwned-if (is_dead s.process dead) _ _ (handle_bridge_exit-IsOwned has_fatal s o)
        (health_monitor-IsOwned has_fatal rounds s o))
      o

-- From a session without a process, client and open log, calls of `connect`, `disconnect` and the
-- monitor, where `connect` is only called on a session without a process, client and open log, lead to
-- sessions in which a sidecar process or a client is there only while the platform lock is held, however
-- the calls of `connect` end.
pub reachable-IsOwned : (s : Session) → Reachable s → IsOwned s
reachable-IsOwned s (fresh d) = down-IsOwned s d
reachable-IsOwned s (connected h {s = from} r d) = connect-IsOwned h from d
reachable-IsOwned s (disconnected h {s = from} r) = down-IsOwned s (disconnect-IsIdle h from).idle
reachable-IsOwned s (bridge_gone has_fatal {s = from} r) =
    handle_bridge_exit-IsOwned has_fatal from (reachable-IsOwned from r)
reachable-IsOwned s (watched has_fatal rounds {s = from} r) =
    health_monitor-IsOwned has_fatal rounds from (reachable-IsOwned from r)
