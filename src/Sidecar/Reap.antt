-- ===== src/Sidecar/Reap.antt =====
-- Which processes the reaping of orphans signals.
use hermes_vector_platform.Prelude.{
  ℕ, ◌≡◌, refl, ◌∙◌, Bool, true, false, ◌&&◌, List, [], ◌∷◌, ◌==◌, ==_refl, all, any, &&-eq-true,
  Bool-cases, inl, inr, nonempty, if◌then◌else◌, arith,
}
use hermes_vector_platform.Sidecar.Session.{
  Session, Host, Kill, Signal, sigterm, sigkill, to_process, to_group, find_listener_pids,
  pid_is_vector_bridge, pid_alive, filter, stale_pids, kill_all, clear_runtime, reap_orphans,
  Reaped, Cancellation, at_inspection, behind_sigterm, behind_sigkill, uncut, kill_stale,
  reap_stale, reap_nothing,
}

-- The signal goes to one process, which listens on the port and whose command line names vector-bridge.
unfoldable pub is_for_orphan : Host → Kill → Bool
is_for_orphan h (to_process pid, sig) =
    any (λ p. p == pid) (find_listener_pids h) && pid_is_vector_bridge h pid
is_for_orphan h (to_group pid, sig) = false

abbrev is_orphan : Host → ℕ → Bool
is_orphan h pid = any (λ p. p == pid) (find_listener_pids h) && pid_is_vector_bridge h pid

all-filter : (p q : ℕ → Bool) (xs : List ℕ) → all p xs ≡ true → all p (filter q xs) ≡ true
unfolding filter
all-filter p q [] h = refl
all-filter p q (x ∷ xs) h =
    let (first, rest) = &&-eq-true (p x) (all p xs) h in
    let more = all-filter p q xs rest in
    elim (Bool-cases (q x)) [ inl e ↦ rw (e, first) more | inr e ↦ rw e more ]

-- What is left of a list by a test, and stands in another list, passes both.
all_stale :
    (h : Host) (listeners pids : List ℕ)
    → all (λ p. any (λ l. l == p) listeners) pids ≡ true
    → all
        (λ p. any (λ l. l == p) listeners && pid_is_vector_bridge h p)
        (filter (pid_is_vector_bridge h) pids)
      ≡ true
unfolding filter
all_stale h listeners [] e = refl
all_stale h listeners (pid ∷ pids) e =
    let (first, rest) =
      &&-eq-true (any (λ l. l == pid) listeners) (all (λ p. any (λ l. l == p) listeners) pids) e in
    let more = all_stale h listeners pids rest in
    elim (Bool-cases (pid_is_vector_bridge h pid)) [
      | inl named ↦ rw (named, first, named) more
      | inr other ↦ rw other more
    ]

any_weaken :
    (x : ℕ) (xs pids : List ℕ)
    → all (λ p. any (λ l. l == p) xs) pids ≡ true
    → all (λ p. any (λ l. l == p) (x ∷ xs)) pids ≡ true
any_weaken x xs [] e = refl
any_weaken x xs (pid ∷ pids) e =
    let (first, rest) =
      &&-eq-true (any (λ l. l == pid) xs) (all (λ p. any (λ l. l == p) xs) pids) e in
    rw (first, any_weaken x xs pids rest) (ground arith)

any_self : (xs : List ℕ) → all (λ p. any (λ l. l == p) xs) xs ≡ true
any_self [] = refl
any_self (x ∷ xs) = rw (==_refl x, any_weaken x xs xs (any_self xs)) refl

kill_all_lem :
    (h : Host) (sig : Signal) (pids : List ℕ) (s : Session)
    → all (is_orphan h) pids ≡ true
    → all (is_for_orphan h) (kill_all sig pids s).kills ≡ all (is_for_orphan h) s.kills
unfolding kill_all is_for_orphan
kill_all_lem h sig [] s e = refl
kill_all_lem h sig (pid ∷ pids) s e =
    let (first, rest) = &&-eq-true (is_orphan h pid) (all (is_orphan h) pids) e in
    kill_all_lem h sig pids _ rest ∙ rw first refl

kills_if_else :
    (h : Host) (b : Bool) (r s : Reaped) (o : Bool)
    → all (is_for_orphan h) r.1.kills ≡ o
    → all (is_for_orphan h) s.1.kills ≡ o
    → all (is_for_orphan h) (if b then r else s).1.kills ≡ o
kills_if_else h true r s o p q = p
kills_if_else h false r s o p q = q

kills_if :
    (h : Host) (b : Bool) (r s : Session) (o : Bool)
    → all (is_for_orphan h) r.kills ≡ o
    → all (is_for_orphan h) s.kills ≡ o
    → all (is_for_orphan h) (if b then r else s).kills ≡ o
kills_if h true r s o p q = p
kills_if h false r s o p q = q

clear_runtime_lem :
    (h : Host) (s : Session)
    → all (is_for_orphan h) (clear_runtime h s).kills ≡ all (is_for_orphan h) s.kills
unfolding clear_runtime
clear_runtime_lem h s = kills_if h h.record_removed _ s _ refl refl

stale-is_orphan : (h : Host) → all (is_orphan h) (stale_pids h) ≡ true
stale-is_orphan h =
    all_stale h (find_listener_pids h) (find_listener_pids h) (any_self (find_listener_pids h))

sigterm_lem :
    (h : Host) (s : Session)
    → all (is_for_orphan h) (kill_all sigterm (stale_pids h) s).kills
      ≡ all (is_for_orphan h) s.kills
sigterm_lem h s = kill_all_lem h sigterm (stale_pids h) s (stale-is_orphan h)

kill_stale_lem :
    (h : Host) (s : Session)
    → all (is_for_orphan h) (kill_stale h s).kills ≡ all (is_for_orphan h) s.kills
kill_stale_lem h s =
    kill_all_lem h sigkill (filter (pid_alive h) (stale_pids h)) _
      (all-filter (is_orphan h) (pid_alive h) (stale_pids h) (stale-is_orphan h))
    ∙ sigterm_lem h s

reap_stale_lem :
    (h : Host) (cut : Cancellation) (s : Session)
    → all (is_for_orphan h) (reap_stale h cut s).1.kills ≡ all (is_for_orphan h) s.kills
unfolding reap_stale
reap_stale_lem h at_inspection s = refl
reap_stale_lem h behind_sigterm s = sigterm_lem h s
reap_stale_lem h behind_sigkill s = kill_stale_lem h s
reap_stale_lem h uncut s = clear_runtime_lem h (kill_stale h s) ∙ kill_stale_lem h s

reap_nothing_lem :
    (h : Host) (cut : Cancellation) (s : Session)
    → all (is_for_orphan h) (reap_nothing cut s).1.kills ≡ all (is_for_orphan h) s.kills
unfolding reap_nothing
reap_nothing_lem h at_inspection s = refl
reap_nothing_lem h behind_sigterm s = refl
reap_nothing_lem h behind_sigkill s = refl
reap_nothing_lem h uncut s = refl

-- Reaping, to its end or to where it is cancelled, adds no signal but those to single processes that
-- listen on the port and whose command line names vector-bridge: the signals so far and those after it
-- all are of that kind, or neither are.
pub reap_orphans_spares_others :
    (h : Host) (s : Session)
    → all (is_for_orphan h) (reap_orphans h s).1.kills ≡ all (is_for_orphan h) s.kills
unfolding reap_orphans
reap_orphans_spares_others h s =
    kills_if_else h h.windows (false, s) _ _ refl
      (kills_if_else h (nonempty (stale_pids h)) _ _ _ (reap_stale_lem h h.reaping s)
        (reap_nothing_lem h h.reaping s))
