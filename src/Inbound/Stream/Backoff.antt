-- ===== src/Inbound/Stream/Backoff.antt =====
-- The delays between the connections of `_sse_listener`.
use hermes_vector_platform.Prelude.{
  ℕ, ◌≤◌, Bool, true, false, ◌&&◌, List, [], ◌∷◌, if◌then◌else◌, arith,
}
use hermes_vector_platform.Adapter.{Adapter, World}
use hermes_vector_platform.Adapter.Act.{Act, pure, ◌>>=◌}
use hermes_vector_platform.Inbound.Stream.{
  Attempt, retry_delay_initial, retry_delay_max, opened, next_backoff, listen,
}

-- Every delay is between the first one and the longest one.
abbrev pub AllDelays : List ℕ → Type 0
AllDelays [] = Unit
AllDelays (delay ∷ delays) =
    (retry_delay_initial ≤ delay) × (delay ≤ retry_delay_max) × AllDelays delays

abbrev pub IsDelay : ℕ → Type 0
IsDelay delay = (retry_delay_initial ≤ delay) × (delay ≤ retry_delay_max)

record Delays (m : Act (List ℕ)) : Type 0 where
  at : (s : Adapter) → AllDelays (m s).0

Delays-pure : Delays (pure [])
Delays-pure = record { at = λ s. unfold pure in tt }

Delays-if : (b : Bool) (m n : Act (List ℕ)) → Delays m → Delays n → Delays (if b then m else n)
Delays-if true m n p q = p
Delays-if false m n p q = q

Delays-bind {ℓ} :
    {A : Type ℓ} (m : Act A) (f : A → Act (List ℕ)) → ((a : A) → Delays (f a)) → Delays (m >>= f)
Delays-bind m f p = record { at = λ s. unfold ◌>>=◌ in (p (m s).0).at (m s).1 }

Delays-cons :
    (delay : ℕ) (m : Act (List ℕ))
    → IsDelay delay
    → Delays m
    → Delays (m >>= λ delays. pure (delay ∷ delays))
Delays-cons delay m d p = record { at = λ s. unfold ◌>>=◌ pure in (d.0, d.1, p.at s) }

next_backoff-IsDelay : (backoff : ℕ) → IsDelay backoff → IsDelay (next_backoff backoff)
unfolding next_backoff
next_backoff-IsDelay backoff d = ground arith

start-IsDelay :
    (b : Bool) (backoff : ℕ)
    → IsDelay backoff
    → IsDelay (if b then retry_delay_initial else backoff)
start-IsDelay true backoff d = omega arith
start-IsDelay false backoff d = d

listen-Delays :
    (w : World) (attempts : List Attempt) (backoff : ℕ)
    → IsDelay backoff
    → Delays (listen w attempts backoff)
unfolding listen
listen-Delays w [] backoff d = Delays-pure
listen-Delays w (a ∷ attempts) backoff d =
    let start = if opened a.status then retry_delay_initial else backoff in
    let ok = start-IsDelay (opened a.status) backoff d in
    let rest = listen-Delays w attempts (next_backoff start) (next_backoff-IsDelay start ok) in
    let waits = Delays-cons start (listen w attempts (next_backoff start)) ok rest in
    Delays-bind _ _ λ running.
      Delays-if running _ _
        (Delays-if a.dead_before _ _ (Delays-bind _ _ λ _. Delays-pure) (
          Delays-bind _ _ λ more. Delays-bind _ _ λ still.
            Delays-if (more && still) _ _
              (Delays-if a.dead_behind _ _ (Delays-bind _ _ λ _. Delays-pure) waits) Delays-pure))
        Delays-pure

-- Started with the first delay, the listener waits between 2 and 60 seconds before each
-- reconnection, whatever the connections bring and however many fail in a row.
pub reconnection_delays :
    (w : World) (attempts : List Attempt) (s : Adapter)
    → AllDelays (listen w attempts retry_delay_initial s).0
reconnection_delays w attempts s = (listen-Delays w attempts retry_delay_initial (omega arith)).at s
