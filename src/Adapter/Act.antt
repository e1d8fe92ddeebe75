-- ===== src/Adapter/Act.antt =====
-- Methods of the adapter: they return a value and the new state.
use mathlib.Core.Path.{subst}
use hermes_vector_platform.Prelude.{
  ◌+◌, ◌≡◌, sym, Text, Bool, true, false, not, ◌||◌, List, [], ◌∷◌, if◌then◌else◌,
}
use hermes_vector_platform.Adapter.{
  Adapter, World, Effect, Request, Reply, request, turn, file, FileCall, Saved, Event,
}

abbrev pub Act {ℓ} : Type ℓ → Type ℓ
Act A = Adapter → A × Adapter

unfoldable pub pure {ℓ} : {A : Type ℓ} → A → Act A
pure a s = (a, s)

infixl 5 ◌>>=◌ ◌>>◌
unfoldable pub ◌>>=◌ {ℓ κ} : {A : Type ℓ} {B : Type κ} → Act A → (A → Act B) → Act B
◌>>=◌ m f s = let (a, s') = m s in f a s'

abbrev pub ◌>>◌ {κ} : {B : Type κ} → Act (Unit {0}) → Act B → Act B
m >> k = m >>= λ _. k

unfoldable pub gets {ℓ} : {A : Type ℓ} → (Adapter → A) → Act A
gets f s = (f s, s)

unfoldable pub modify : (Adapter → Adapter) → Act (Unit {0})
modify f s = (tt, f s)

unfoldable pub skip : Act (Unit {0})
skip s = (tt, s)

unfoldable pub emit : Effect → Act (Unit {0})
emit effect s = (tt, record s { trace = effect ∷ s.trace })

-- A call of the sidecar.
unfoldable pub ask : World → Request → Act Reply
ask w r s = (w.reply s.calls, record s { calls = s.calls + 1; trace = request r ∷ s.trace })

-- A call that saves files: those of the world, by the number of the call.
unfoldable pub save : World → FileCall → Act (List Saved)
save w call s =
    (w.saved_files s.calls, record s { calls = s.calls + 1; trace = file call ∷ s.trace })

-- The agent turns of a trace.
unfoldable pub turns : List Effect → List Event
turns [] = []
turns (turn event ∷ es) = event ∷ turns es
turns (e ∷ es) = turns es

-- `m` keeps `P`.
pub record Keeps {ℓ} {A : Type ℓ} (P : Adapter → Type 0) (m : Act A) : Type ℓ where
  pub at : (s : Adapter) → P s → P (m s).1

module _ {ℓ} {A : Type ℓ} {P : Adapter → Type 0} where
  pub Keeps-pure : (a : A) → Keeps P (pure a)
  Keeps-pure a = record { at = λ s h. unfold pure in h }

  pub Keeps-gets : (f : Adapter → A) → Keeps P (gets f)
  Keeps-gets f = record { at = λ s h. unfold gets in h }

  pub Keeps-if : (b : Bool) (m n : Act A) → Keeps P m → Keeps P n → Keeps P (if b then m else n)
  Keeps-if true m n p q = p
  Keeps-if false m n p q = q

  pub Keeps-unless :
      (a b : Bool) (m n : Act A) → Keeps P m → Keeps P n → Keeps P (if not a || b then m else n)
  Keeps-unless true true m n p q = p
  Keeps-unless true false m n p q = q
  Keeps-unless false b m n p q = p

  -- A branch that is not taken needs nothing.
  pub Keeps-if_true : (b : Bool) (m n : Act A) → b ≡ true → Keeps P m → Keeps P (if b then m else n)
  Keeps-if_true b m n e p = rw e p

module _ {ℓ κ} {A : Type ℓ} {B : Type κ} {P : Adapter → Type 0} where
  pub Keeps-bind :
      (m : Act A) (f : A → Act B) → Keeps P m → ((a : A) → Keeps P (f a)) → Keeps P (m >>= f)
  Keeps-bind m f p q = record { at = λ s h. unfold ◌>>=◌ in (q (m s).0).at (m s).1 (p.at s h) }

pub Keeps-skip : {P : Adapter → Type 0} → Keeps P skip
Keeps-skip = record { at = λ s h. unfold skip in h }

-- What the handlers must not lose: the agent turns that were started, and the ids that were seen.
abbrev pub Notes : Type 0
Notes = List Event × List Text

abbrev pub notes : Adapter → Notes
notes s = (turns s.trace, s.inbound_ids)

-- The notes have a property.
unfoldable pub Holds : (Notes → Type 0) → Adapter → Type 0
Holds Q s = Q (notes s)

-- The turns are the given ones.
abbrev pub AreTurns : List Event → Notes → Type 0
AreTurns events n = n.0 ≡ events

-- No agent turn is started.
abbrev pub HasTurns : List Event → Adapter → Type 0
HasTurns events = Holds (AreTurns events)

module _ (Q : Notes → Type 0) where
  pub Keeps-ask : (w : World) (r : Request) → Keeps (Holds Q) (ask w r)
  Keeps-ask w r = record { at = λ s h. unfold ask turns Holds in h }

  pub Keeps-save : (w : World) (call : FileCall) → Keeps (Holds Q) (save w call)
  Keeps-save w call = record { at = λ s h. unfold save turns Holds in h }

  pub Keeps-modify :
      (f : Adapter → Adapter) → ((s : Adapter) → notes (f s) ≡ notes s) → Keeps (Holds Q) (modify f)
  Keeps-modify f same = record { at = λ s h. unfold modify Holds in subst Q (sym (same s)) h }

  pub Keeps-emit :
      (e : Effect) → ((es : List Effect) → turns (e ∷ es) ≡ turns es) → Keeps (Holds Q) (emit e)
  Keeps-emit e same = record {
    at = λ s h.
        unfold emit Holds in
        subst (λ (es : List Event). Q (es, s.inbound_ids)) (sym (same s.trace)) h;
  }

pub ruleset keeps =
    (Keeps-pure, Keeps-gets, Keeps-if, Keeps-unless, Keeps-bind, Keeps-skip, Keeps-ask, Keeps-save)
