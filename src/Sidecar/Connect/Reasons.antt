-- ===== src/Sidecar/Connect/Reasons.antt =====
-- Why `connect` returned False.
use mathlib.Core.Path.{subst}
use hermes_vector_platform.Prelude.{
  ◌≡◌, refl, ap, ◌∙◌, Bool, true, false, not, ◌&&◌, ◌||◌, some, List, [], ◌∷◌, if◌then◌else◌, arith,
}
use hermes_vector_platform.Sidecar.Session.{
  Reaped, reap_orphans, Fatal, bridge_missing, identity_missing, port_in_use, spawn_failed,
  bridge_exited, startup_timeout, retryable, GatewayCall, acquire_lock, set_fatal, Session, Host,
  Spawn, spawned, failed, resolve_bridge_bin,
}
use hermes_vector_platform.Sidecar.Connect.{
  Outcome, returned, Ending, call, behind_reaping, refuse, Freed, is_free, in_use, is_cancelled,
  Startup, ready, gone, late, abandoned, wait_ready, give_up, cleanup_failed_connect, go_online,
  started, spawn_bridge, start_sidecar, behind_port, bridge_bin, clear_port, connect_locked,
  connect,
}
use hermes_vector_platform.Sidecar.Connect.Release.{shutdown_transport-IsShut}
use hermes_vector_platform.Sidecar.Connect.Same.{reap_orphans_same}
use hermes_vector_platform.Sidecar.Connect.Ending.{wait_ready_same}

-- The fatal errors that were set, the latest first.
unfoldable pub fatals : List GatewayCall → List Fatal
fatals [] = []
fatals (set_fatal why ∷ calls) = why ∷ fatals calls
fatals (c ∷ calls) = fatals calls

-- What setting the plugin up provides: the binary, the identity, and a process that starts.
abbrev pub starts : Spawn → Bool
starts (spawned pid) = true
starts (failed opened) = false

abbrev pub is_installed : Host → Bool
is_installed h =
    h.is_file (resolve_bridge_bin h (bridge_bin h) false) && (h.identity_present && starts h.spawn)

-- Behind an ending that returned False there is one more fatal error, which can be retried if the
-- plugin is installed.
abbrev pub Explains : Host → List Fatal → Outcome → List GatewayCall → Type 0
Explains h before (returned false) calls =
    (why : Fatal) × (fatals calls ≡ why ∷ before) × ((not (is_installed h) || retryable why) ≡ true)
Explains h before o calls = Unit {0}

record Explained (h : Host) (before : List Fatal) (e : Ending) : Type 0 where
  pub reason : Explains h before e.0 e.1.calls

Explained-if :
    (h : Host) (before : List Fatal) (b : Bool) (d e : Ending)
    → (b ≡ true → Explained h before d)
    → (b ≡ false → Explained h before e)
    → Explained h before (if b then d else e)
Explained-if h before true d e p q = p refl
Explained-if h before false d e p q = q refl

refuse-Explained :
    (h : Host) (s : Session) (why : Fatal)
    → (not (is_installed h) || retryable why) ≡ true
    → Explained h (fatals s.calls) (refuse why s)
unfolding fatals
refuse-Explained h s why r = record { reason = (why, refl, r) }

give_up-Explained :
    (h : Host) (before : List Fatal) (s : Session) (why : Fatal)
    → fatals s.calls ≡ before
    → (not (is_installed h) || retryable why) ≡ true
    → Explained h before (give_up h (returned false) (call (set_fatal why) s))
unfolding fatals cleanup_failed_connect
give_up-Explained h before s why e r =
    let kept = (shutdown_transport-IsShut h (call (set_fatal why) s)).calls_kept in
    record { reason = (why, ap fatals kept ∙ ap (λ (fs : List Fatal). why ∷ fs) e, r) }

or_true : (b : Bool) → (b || true) ≡ true
or_true b = ground arith

go_online-Explained :
    (h : Host) (before : List Fatal) (s : Session) → Explained h before (go_online h s)
unfolding go_online
go_online-Explained h before s =
    Explained-if h before h.settled _ _ (λ e. record { reason = tt }) (λ e. record { reason = tt })

started-Explained :
    (h : Host) (before : List Fatal) (e : Startup) (s : Session)
    → fatals s.calls ≡ before
    → Explained h before (started h (e, s))
unfolding started retryable
started-Explained h before ready s k = go_online-Explained h before s
started-Explained h before gone s k = give_up-Explained h before s bridge_exited k (or_true _)
started-Explained h before late s k = give_up-Explained h before s startup_timeout k (or_true _)
started-Explained h before abandoned s k = record { reason = tt }

not_installed :
    (a b : Bool) (o : Spawn) (opened : Bool)
    → o ≡ failed opened
    → (not (a && (b && starts o)) || false) ≡ true
not_installed a b o opened e = rw e (ground arith)

same_fatals :
    (b : Bool) (r s : Session) (before : List Fatal)
    → fatals r.calls ≡ before
    → fatals s.calls ≡ before
    → fatals (if b then r else s).calls ≡ before
same_fatals true r s before p q = p
same_fatals false r s before p q = q

spawn_bridge-Explained :
    (h : Host) (before : List Fatal) (o : Spawn) (s : Session)
    → h.spawn ≡ o
    → fatals s.calls ≡ before
    → Explained h before (spawn_bridge h o s)
unfolding spawn_bridge retryable
spawn_bridge-Explained h before (failed opened) s e k =
    give_up-Explained h before _ spawn_failed (same_fatals opened _ s before k k)
      (not_installed _ _ h.spawn opened e)
spawn_bridge-Explained h before (spawned pid) s e k =
    let online = record s { log_fh = true; process = some pid; http_client = true } in
    let waited = wait_ready h.polls online in
    started-Explained h before waited.0 waited.1
      (ap fatals (wait_ready_same h.polls online).same_calls ∙ k)

start_sidecar-Explained :
    (h : Host) (before : List Fatal) (s : Session)
    → fatals s.calls ≡ before
    → Explained h before (start_sidecar h s)
unfolding start_sidecar
start_sidecar-Explained h before s k = spawn_bridge-Explained h before h.spawn _ refl k

behind_port-Explained :
    (h : Host) (before : List Fatal) (f : Freed) (s : Session)
    → fatals s.calls ≡ before
    → Explained h before (behind_port h f s)
unfolding behind_port retryable
behind_port-Explained h before is_free s k = start_sidecar-Explained h before s k
behind_port-Explained h before in_use s k =
    subst (λ (fs : List Fatal). Explained h fs (refuse port_in_use s)) k
      (refuse-Explained h s port_in_use (or_true _))
behind_port-Explained h before is_cancelled s k = record { reason = tt }

behind_reaping-Explained :
    (h : Host) (before : List Fatal) (r : Reaped)
    → fatals r.1.calls ≡ before
    → Explained h before (behind_reaping h r)
unfolding behind_reaping
behind_reaping-Explained h before (true, s) k = record { reason = tt }
behind_reaping-Explained h before (false, s) k = behind_port-Explained h before _ s k

clear_port-Explained : (h : Host) (s : Session) → Explained h (fatals s.calls) (clear_port h s)
unfolding clear_port
clear_port-Explained h s =
    Explained-if h _ h.first_probe _ _
      (λ e.
        behind_reaping-Explained h _ (reap_orphans h s)
          (ap fatals (reap_orphans_same h s).same_calls))
      (λ e. start_sidecar-Explained h _ s refl)

no_binary : (a b c : Bool) → not a ≡ true → (not (a && (b && c)) || false) ≡ true
no_binary a b c e = ground arith

no_identity : (a b c : Bool) → not b ≡ true → (not (a && (b && c)) || false) ≡ true
no_identity a b c e = ground arith

connect_locked-Explained :
    (h : Host) (s : Session) → Explained h (fatals s.calls) (connect_locked h s)
unfolding connect_locked retryable
connect_locked-Explained h s =
    let bin = h.is_file (resolve_bridge_bin h (bridge_bin h) false) in
    let installed = starts h.spawn in
    Explained-if h (fatals s.calls) (not bin) _ _
      (λ e. refuse-Explained h s bridge_missing (no_binary bin h.identity_present installed e))
      (λ _.
        Explained-if h (fatals s.calls) (not h.identity_present) _ _
          (λ e.
            refuse-Explained h s identity_missing (no_identity bin h.identity_present installed e))
          (λ _. clear_port-Explained h s))

-- Where the lock is granted, a `connect` that returns False has set exactly one fatal error more. It is
-- one that can be retried, unless the binary or the identity is missing or the process does not start.
pub failed_connect_has_reason :
    (h : Host) (s : Session)
    → h.lock_granted ≡ true
    → Explains h (fatals s.calls) (connect h s).0 (connect h s).1.calls
unfolding connect fatals
failed_connect_has_reason h s lock =
    (Explained-if h (fatals s.calls) h.lock_granted _ _
      (λ e. connect_locked-Explained h (call acquire_lock s)) (λ e. absurd (ground (arith)))).reason
