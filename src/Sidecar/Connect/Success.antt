-- ===== src/Sidecar/Connect/Success.antt =====
-- When `connect` succeeds.
use mathlib.Core.Path.{subst}
use hermes_vector_platform.Prelude.{
  ℕ, ◌≡◌, refl, sym, ap, ◌∙◌, ◌⊎◌, Bool, true, false, not, some, List, [], ◌∷◌, ◌++◌, all,
  &&-eq-true, Bool-cases, inl, inr, if◌then◌else◌, arith,
}
use hermes_vector_platform.Prelude.Values.{Value}
use hermes_vector_platform.Sidecar.Session.{
  Session, Host, Poll, exited, silent, answered, interrupted, Spawn, spawned, resolve_bridge_bin,
  reap_orphans, Reaped, uncut,
}
use hermes_vector_platform.Sidecar.Connect.{
  returned, Ending, Freed, is_free, port_freed, Startup, ready, is_ready, note_npub, wait_ready,
  go_online, started, spawn_bridge, start_sidecar, behind_port, bridge_bin, clear_port,
  connect_locked, connect, behind_reaping,
}
use hermes_vector_platform.Sidecar.Connect.Same.{reap_orphans_cut}
use hermes_vector_platform.Sidecar.Connect.Ending.{note_npub_same, publish_runtime_same}

-- A round in which the sidecar is there, and not ready yet.
unfoldable pub is_waiting : Poll → Bool
is_waiting silent = true
is_waiting (answered status body) = not (is_ready status body)
is_waiting _ = false

wait_ready_in_time :
    (before later : List Poll) (status : ℕ) (body : Value) (s : Session)
    → all is_waiting before ≡ true
    → is_ready status body ≡ true
    → wait_ready (before ++ (answered status body ∷ later)) s ≡ (ready, note_npub body s)
unfolding wait_ready is_waiting
wait_ready_in_time [] later status body s w r = rw r refl
wait_ready_in_time (silent ∷ before) later status body s w r =
    wait_ready_in_time before later status body s w r
wait_ready_in_time (answered st b ∷ before) later status body s w r =
    let (first, rest) = &&-eq-true (not (is_ready st b)) (all is_waiting before) w in
    let unready : is_ready st b ≡ false = ground (arith) in
    rw unready (wait_ready_in_time before later status body s rest r)
wait_ready_in_time (exited ∷ before) later status body s w r = absurd (ground (arith))
wait_ready_in_time (interrupted ∷ before) later status body s w r = absurd (ground (arith))

-- The port is free at once, or becomes free behind the reaping, which is not cancelled.
abbrev pub IsPortFree : Host → Type 0
IsPortFree h = (h.first_probe ≡ false) ⊎ ((h.reaping ≡ uncut) × (port_freed 10 h.probes ≡ is_free))

-- `connect` returned True, with the process.
pub record Runs (pid : ℕ) (e : Ending) : Type 0 where
  pub succeeded : e.0 ≡ returned true
  pub has_pid : e.1.process ≡ some pid
  pub runs : e.1.running ≡ true

Runs-if :
    {pid : ℕ} (b : Bool) (d e : Ending) → Runs pid d → Runs pid e → Runs pid (if b then d else e)
Runs-if true d e p q = p
Runs-if false d e p q = q

if_true {ℓ} : {A : Type ℓ} (b : Bool) (x y : A) → b ≡ true → (if b then x else y) ≡ x
if_true b x y e = rw e refl

if_negated {ℓ} : {A : Type ℓ} (b : Bool) (x y : A) → b ≡ true → (if not b then x else y) ≡ y
if_negated b x y e = rw e refl

if_false {ℓ} : {A : Type ℓ} (b : Bool) (x y : A) → b ≡ false → (if b then x else y) ≡ y
if_false b x y e = rw e refl

along : {pid : ℕ} (d e : Ending) → d ≡ e → Runs pid e → Runs pid d
along {pid} d e same r = subst (Runs pid) (sym same) r

go_online-Runs :
    (h : Host) (s : Session) (pid : ℕ)
    → s.process ≡ some pid
    → h.settled ≡ true
    → Runs pid (go_online h s)
unfolding go_online
go_online-Runs h s pid p settles = along _ _ (if_true h.settled _ _ settles) (record {
  succeeded = refl;
  has_pid = (publish_runtime_same h s).same_process ∙ p;
  runs = refl;
})

uncut_reaping :
    (h : Host) (s : Session) → h.reaping ≡ uncut → reap_orphans h s ≡ (false, (reap_orphans h s).1)
uncut_reaping h s whole = elim (Bool-cases (reap_orphans h s).0) [
  | inl cut ↦ absurd (reap_orphans_cut h s cut whole)
  | inr kept ↦ ap (λ (b : Bool). (b, (reap_orphans h s).1)) kept
]

module _ (h : Host) (pid : ℕ) (before later : List Poll) (status : ℕ) (body : Value)
    (spawns : h.spawn ≡ spawned pid) (polls : h.polls ≡ before ++ (answered status body ∷ later))
    (waits : all is_waiting before ≡ true) (answers : is_ready status body ≡ true)
    (settles : h.settled ≡ true) where
  spawn_bridge-Runs : (s : Session) → Runs pid (spawn_bridge h (spawned pid) s)
  unfolding spawn_bridge started
  spawn_bridge-Runs s =
      let online = record s { log_fh = true; process = some pid; http_client = true } in
      let waited : wait_ready h.polls online ≡ (ready, note_npub body online) =
        ap (λ (ps : List Poll). wait_ready ps online) polls
        ∙ wait_ready_in_time before later status body online waits answers in
      subst (λ (e : Startup × Session). Runs pid (started h e)) (sym waited)
        (go_online-Runs h (note_npub body online) pid (note_npub_same body online).same_process
          settles)

  start_sidecar-Runs : (s : Session) → Runs pid (start_sidecar h s)
  unfolding start_sidecar
  start_sidecar-Runs s =
      let minted = record s { token = some h.new_token } in
      subst (λ (o : Spawn). Runs pid (spawn_bridge h o minted)) (sym spawns)
        (spawn_bridge-Runs minted)

  clear_port-Runs : (s : Session) → IsPortFree h → Runs pid (clear_port h s)
  unfolding clear_port behind_port behind_reaping
  clear_port-Runs s (inl at_once) =
      along _ _ (if_false h.first_probe _ _ at_once) (start_sidecar-Runs s)
  clear_port-Runs s (inr (whole, freed)) =
      Runs-if h.first_probe _ _
        (subst (λ (r : Reaped). Runs pid (behind_reaping h r)) (sym (uncut_reaping h s whole))
          (subst (λ (f : Freed). Runs pid (behind_port h f (reap_orphans h s).1)) (sym freed)
            (start_sidecar-Runs _)))
        (start_sidecar-Runs s)

connect_locked_lem :
    (h : Host) (s : Session)
    → h.is_file (resolve_bridge_bin h (bridge_bin h) false) ≡ true
    → h.identity_present ≡ true
    → connect_locked h s ≡ clear_port h s
unfolding connect_locked
connect_locked_lem h s bin identity = if_negated _ _ _ bin ∙ if_negated _ _ _ identity

-- `connect` succeeds, from every session, where the lock is granted, the binary and the identity are
-- there, the port is free at once or behind a reaping that is not cancelled, the process can be started, the sidecar
-- reports that it is ready before the deadline and has not exited by then, and what is dealt with next
-- raises no exception.
pub connect-Runs :
    (h : Host) (s : Session) (pid : ℕ) (before later : List Poll) (status : ℕ) (body : Value)
    → h.lock_granted ≡ true
    → h.is_file (resolve_bridge_bin h (bridge_bin h) false) ≡ true
    → h.identity_present ≡ true
    → IsPortFree h
    → h.spawn ≡ spawned pid
    → h.polls ≡ before ++ (answered status body ∷ later)
    → all is_waiting before ≡ true
    → is_ready status body ≡ true
    → h.settled ≡ true
    → Runs pid (connect h s)
unfolding connect
connect-Runs h s pid before later status body lock bin identity port spawns polls waits answers
      settles =
    along _ _ (if_true h.lock_granted _ _ lock ∙ connect_locked_lem h _ bin identity)
      (clear_port-Runs h pid before later status body spawns polls waits answers settles _ port)
