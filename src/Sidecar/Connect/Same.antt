-- ===== src/Sidecar/Connect/Same.antt =====
-- What keeps the calls, the process, the client, the log and `running` of a session.
use hermes_vector_platform.Prelude.{
  ℕ, ◌≡◌, refl, ◌∙◌, Bool, true, false, none, List, [], ◌∷◌, nonempty, if◌then◌else◌, arith, ◌≢◌,
}
use hermes_vector_platform.Sidecar.Session.{
  Session, Host, Signal, sigterm, sigkill, stale_pids, kill_all, clear_runtime, reap_orphans,
  signal, stop_process, Reaped, Cancellation, at_inspection, behind_sigterm, behind_sigkill, uncut,
  reap_stale, reap_nothing,
}

-- Two sessions that agree on calls, process, client, log and `running`.
pub record IsSameBut (s t : Session) : Type 0 where
  pub same_calls : s.calls ≡ t.calls
  pub same_process : s.process ≡ t.process
  pub same_client : s.http_client ≡ t.http_client
  pub same_log : s.log_fh ≡ t.log_fh
  pub same_running : s.running ≡ t.running

pub same : (s : Session) → IsSameBut s s
same s = record {
  same_calls = refl;
  same_process = refl;
  same_client = refl;
  same_log = refl;
  same_running = refl;
}

pub same_behind : (r s t : Session) → IsSameBut r s → IsSameBut s t → IsSameBut r t
same_behind r s t a b = record {
  same_calls = a.same_calls ∙ b.same_calls;
  same_process = a.same_process ∙ b.same_process;
  same_client = a.same_client ∙ b.same_client;
  same_log = a.same_log ∙ b.same_log;
  same_running = a.same_running ∙ b.same_running;
}

pub same_if :
    (b : Bool) (r s t : Session) → IsSameBut r t → IsSameBut s t → IsSameBut (if b then r else s) t
same_if true r s t p q = p
same_if false r s t p q = q

-- The signals and the record may differ.
forget : (s : Session) → IsSameBut (record s { runtime = none }) s
forget s = record {
  same_calls = refl;
  same_process = refl;
  same_client = refl;
  same_log = refl;
  same_running = refl;
}

pub clear_runtime_same : (h : Host) (s : Session) → IsSameBut (clear_runtime h s) s
unfolding clear_runtime
clear_runtime_same h s = same_if h.record_removed _ s s (forget s) (same s)

pub signal_same :
    (h : Host) (pid : ℕ) (sig : Signal) (s : Session) → IsSameBut (signal h pid sig s) s
unfolding signal
signal_same h pid sig s = record {
  same_calls = refl;
  same_process = refl;
  same_client = refl;
  same_log = refl;
  same_running = refl;
}

pub kill_all_same : (sig : Signal) (pids : List ℕ) (s : Session) → IsSameBut (kill_all sig pids s) s
unfolding kill_all
kill_all_same sig [] s = same s
kill_all_same sig (pid ∷ pids) s =
    let more = kill_all_same sig pids _ in
    record {
      same_calls = more.same_calls;
      same_process = more.same_process;
      same_client = more.same_client;
      same_log = more.same_log;
      same_running = more.same_running;
    }

pub stop_process_same : (h : Host) (pid : ℕ) (s : Session) → IsSameBut (stop_process h pid s) s
unfolding stop_process
stop_process_same h pid s = same_if h.exited_before _ _ s (same s) (
    same_if h.exited_behind _ _ s (signal_same h pid sigterm s)
      (same_behind _ _ _ (signal_same h pid sigkill _) (signal_same h pid sigterm s)))

same_if_else :
    (b : Bool) (r s : Reaped) (t : Session)
    → IsSameBut r.1 t
    → IsSameBut s.1 t
    → IsSameBut (if b then r else s).1 t
same_if_else true r s t p q = p
same_if_else false r s t p q = q

reap_stale_same : (h : Host) (cut : Cancellation) (s : Session) → IsSameBut (reap_stale h cut s).1 s
unfolding reap_stale
reap_stale_same h at_inspection s = same s
reap_stale_same h behind_sigterm s = kill_all_same sigterm _ s
reap_stale_same h behind_sigkill s =
    same_behind _ _ _ (kill_all_same sigkill _ _) (kill_all_same sigterm _ s)
reap_stale_same h uncut s =
    same_behind _ _ _ (clear_runtime_same h _)
      (same_behind _ _ _ (kill_all_same sigkill _ _) (kill_all_same sigterm _ s))

reap_nothing_same : (cut : Cancellation) (s : Session) → IsSameBut (reap_nothing cut s).1 s
unfolding reap_nothing
reap_nothing_same at_inspection s = same s
reap_nothing_same behind_sigterm s = same s
reap_nothing_same behind_sigkill s = same s
reap_nothing_same uncut s = same s

pub reap_orphans_same : (h : Host) (s : Session) → IsSameBut (reap_orphans h s).1 s
unfolding reap_orphans
reap_orphans_same h s =
    same_if_else h.windows (false, s) _ s (same s)
      (same_if_else (nonempty (stale_pids h)) _ _ s (reap_stale_same h h.reaping s)
        (reap_nothing_same h.reaping s))

cut_if_else :
    (h : Host) (b : Bool) (r s : Reaped)
    → (r.0 ≡ true → h.reaping ≢ uncut)
    → (s.0 ≡ true → h.reaping ≢ uncut)
    → (if b then r else s).0 ≡ true
    → h.reaping ≢ uncut
cut_if_else h true r s p q = p
cut_if_else h false r s p q = q

reap_stale_cut :
    (h : Host) (cut : Cancellation) (s : Session) → (reap_stale h cut s).0 ≡ true → cut ≢ uncut
unfolding reap_stale
reap_stale_cut h at_inspection s e = λ f. absurd (ground arith)
reap_stale_cut h behind_sigterm s e = λ f. absurd (ground arith)
reap_stale_cut h behind_sigkill s e = λ f. absurd (ground arith)
reap_stale_cut h uncut s e = absurd (ground arith)

reap_nothing_cut : (cut : Cancellation) (s : Session) → (reap_nothing cut s).0 ≡ true → cut ≢ uncut
unfolding reap_nothing
reap_nothing_cut at_inspection s e = λ f. absurd (ground arith)
reap_nothing_cut behind_sigterm s e = absurd (ground arith)
reap_nothing_cut behind_sigkill s e = absurd (ground arith)
reap_nothing_cut uncut s e = absurd (ground arith)

-- The reaping says that it was cancelled only where it was.
pub reap_orphans_cut : (h : Host) (s : Session) → (reap_orphans h s).0 ≡ true → h.reaping ≢ uncut
unfolding reap_orphans
reap_orphans_cut h s =
    cut_if_else h h.windows (false, s) _ (λ e. absurd (ground arith))
      (cut_if_else h (nonempty (stale_pids h)) _ _ (reap_stale_cut h h.reaping s)
        (reap_nothing_cut h.reaping s))
