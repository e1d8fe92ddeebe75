-- ===== src/Sidecar/Connect/Record.antt =====
-- The runtime record that a `connect` leaves.
use mathlib.Core.Path.{subst}
use hermes_vector_platform.Prelude.{
  Text, ℕ, ◌≡◌, refl, ap, ◌∙◌, Bool, true, false, not, Option, some, List, [], ◌∷◌, codes,
  Bool-cases, inl, inr, if◌then◌else◌,
}
use hermes_vector_platform.Prelude.Values.{Value, text_of, get, truthy}
use hermes_vector_platform.Sidecar.Session.{
  Session, Host, Poll, exited, silent, answered, interrupted, Spawn, spawned, failed,
  publish_runtime, runtime_payload, acquire_lock, Reaped, resolve_bridge_bin, reap_orphans,
}
use hermes_vector_platform.Sidecar.Connect.{
  Outcome, returned, raised, Ending, call, Freed, is_free, in_use, is_cancelled, Startup, ready,
  gone, late, abandoned, is_ready, note_npub, wait_ready, go_online, started, spawn_bridge,
  start_sidecar, behind_port, behind_reaping, clear_port, bridge_bin, connect_locked, connect,
}

-- The runtime record of this session holds its process, its token and the port of the settings.
abbrev pub IsTold : Host → Session → Type 0
IsTold h s =
    (pid : ℕ) × (s.process ≡ some pid)
    × ((npub : Option Text) × (s.runtime
          ≡ some (h.dumps (runtime_payload h.bridge_port h.new_token pid npub))))

abbrev pub Told : Host → Outcome → Session → Type 0
Told h (returned true) s = IsTold h s
Told h (returned false) s = Unit {0}
Told h raised s = Unit {0}

pub record Tells (h : Host) (e : Ending) : Type 0 where
  pub told : Told h e.0 e.1

Tells-if :
    {h : Host} (b : Bool) (d e : Ending) → Tells h d → Tells h e → Tells h (if b then d else e)
Tells-if true d e p q = p
Tells-if false d e p q = q

-- The process is started with the new token.
record IsOnline (h : Host) (s : Session) : Type 0 where
  has_token : s.token ≡ some h.new_token
  has_process : (pid : ℕ) × (s.process ≡ some pid)

if-IsOnline :
    (h : Host) (b : Bool) (r s : Session)
    → IsOnline h r
    → IsOnline h s
    → IsOnline h (if b then r else s)
if-IsOnline h true r s p q = p
if-IsOnline h false r s p q = q

note_npub-IsOnline :
    (h : Host) (body : Value) (s : Session) → IsOnline h s → IsOnline h (note_npub body s)
unfolding note_npub
note_npub-IsOnline h body s o =
    if-IsOnline h (truthy (get (codes "npub") body))
      (record s { npub = some (text_of (get (codes "npub") body)) }) s
      (record { has_token = o.has_token; has_process = o.has_process }) o

wait_ready-IsOnline :
    (h : Host) (polls : List Poll) (s : Session) → IsOnline h s → IsOnline h (wait_ready polls s).1
unfolding wait_ready
wait_ready-IsOnline h [] s o = o
wait_ready-IsOnline h (exited ∷ polls) s o = o
wait_ready-IsOnline h (interrupted ∷ polls) s o = o
wait_ready-IsOnline h (silent ∷ polls) s o = wait_ready-IsOnline h polls s o
wait_ready-IsOnline h (answered status body ∷ polls) s o =
    elim (Bool-cases (is_ready status body)) [
      | inl e ↦ rw e (note_npub-IsOnline h body s o)
      | inr e ↦ rw e (wait_ready-IsOnline h polls s o)
    ]

if_yes {ℓ} : {A : Type ℓ} (b : Bool) (x y : A) → b ≡ true → (if b then x else y) ≡ x
if_yes b x y e = rw e refl

published :
    (h : Host) (s : Session) (token : Text) (pid : ℕ)
    → h.record_written ≡ true
    → s.token ≡ some token
    → s.process ≡ some pid
    → (publish_runtime h s).runtime
      ≡ some (h.dumps (runtime_payload h.bridge_port token pid s.npub))
unfolding publish_runtime
published h s token pid written t p =
    ap (λ (x : Session). x.runtime) (if_yes h.record_written _ s written) ∙ rw (t, p) refl

publish_runtime-process : (h : Host) (s : Session) → (publish_runtime h s).process ≡ s.process
unfolding publish_runtime
publish_runtime-process h s = elim (Bool-cases h.record_written) [
  | inl e ↦ ap (λ (x : Session). x.process) (if_yes h.record_written _ s e)
  | inr e ↦ rw e refl
]

module _ (h : Host) (written : h.record_written ≡ true) where
  go_online-Tells : (s : Session) → IsOnline h s → Tells h (go_online h s)
  unfolding go_online
  go_online-Tells s o =
      let (pid, has_pid) = o.has_process in
      Tells-if h.settled _ _
        (record {
          told = (
            pid,
            publish_runtime-process h s ∙ has_pid,
            (s.npub, published h s h.new_token pid written o.has_token has_pid),
          );
        })
        (record { told = tt })

  started-Tells : (e : Startup) (s : Session) → IsOnline h s → Tells h (started h (e, s))
  unfolding started
  started-Tells ready s o = go_online-Tells s o
  started-Tells gone s o = record { told = tt }
  started-Tells late s o = record { told = tt }
  started-Tells abandoned s o = record { told = tt }

  spawn_bridge-Tells :
      (o : Spawn) (s : Session) → s.token ≡ some h.new_token → Tells h (spawn_bridge h o s)
  unfolding spawn_bridge
  spawn_bridge-Tells (failed opened) s t = record { told = tt }
  spawn_bridge-Tells (spawned pid) s t =
      let online = record s { log_fh = true; process = some pid; http_client = true } in
      let waited = wait_ready h.polls online in
      started-Tells waited.0 waited.1
        (wait_ready-IsOnline h h.polls online (record { has_token = t; has_process = (pid, refl) }))

  start_sidecar-Tells : (s : Session) → Tells h (start_sidecar h s)
  unfolding start_sidecar
  start_sidecar-Tells s = spawn_bridge-Tells h.spawn _ refl

  behind_port-Tells : (f : Freed) (s : Session) → Tells h (behind_port h f s)
  unfolding behind_port
  behind_port-Tells is_free s = start_sidecar-Tells s
  behind_port-Tells in_use s = record { told = tt }
  behind_port-Tells is_cancelled s = record { told = tt }

  behind_reaping-Tells : (r : Reaped) → Tells h (behind_reaping h r)
  unfolding behind_reaping
  behind_reaping-Tells (true, s) = record { told = tt }
  behind_reaping-Tells (false, s) = behind_port-Tells _ s

  connect_locked-Tells : (s : Session) → Tells h (connect_locked h s)
  unfolding connect_locked clear_port
  connect_locked-Tells s =
      Tells-if (not (h.is_file (resolve_bridge_bin h (bridge_bin h) false))) _ _
        (record { told = tt })
        (Tells-if (not h.identity_present) _ _ (record { told = tt })
          (Tells-if h.first_probe _ _ (behind_reaping-Tells (reap_orphans h s))
            (start_sidecar-Tells s)))

  pub connect-Tells : (s : Session) → Tells h (connect h s)
  unfolding connect
  connect-Tells s =
      Tells-if h.lock_granted _ _ (connect_locked-Tells (call acquire_lock s))
        (record { told = tt })

pub connected-IsTold : (h : Host) (e : Ending) → e.0 ≡ returned true → Tells h e → IsTold h e.1
connected-IsTold h e up t = subst (λ (o : Outcome). Told h o e.1) up t.told
