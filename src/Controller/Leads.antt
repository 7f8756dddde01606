-- ===== src/Controller/Leads.antt =====
-- A triple for the reconciler's monad over the stages of Controller.Calls: from a world whose calls
-- led to a stage, a step leads to one that satisfies `Q` with its value, or ends the reconcile.
use agentic_autoscaler.Prelude.{Bool, true, false, ◌≡◌, refl, sym}
use mathlib.Core.Path.{subst}
use agentic_autoscaler.Api.{NamespacedName}
use agentic_autoscaler.Decision.Store.{StateStore}
use agentic_autoscaler.Controller.World.{
  Effect, Ending, Flow, M, World, pure, stop_with, perform, ◌>>=◌, ◌>>◌, get_store, put_store, when,
}
use agentic_autoscaler.Controller.Calls.{Stage, Call, Follows, Follows-snoc, Finishes}

module _ {F T : Type 0} where
  abbrev pub Ends :
      {A : Type 0} → NamespacedName → (A → Stage → Type 0) → Flow A × World F T → Type 0
  Ends k Q (Flow.next v, w) = (b : Stage) × Follows k Stage.opened w.effects b × Q v b
  Ends k Q (Flow.stop e, w) = (b : Stage) × Follows k Stage.opened w.effects b × Finishes e b

  pub record Leads {A : Type 0} (k : NamespacedName) (a : Stage) (m : M F T A)
      (Q : A → Stage → Type 0) : Type 0 where
    pub holds : (w : World F T) → Follows k Stage.opened w.effects a → Ends k Q (m w)

  -- A step of which only the stage after it is known.
  abbrev pub LeadsTo : {A : Type 0} → NamespacedName → Stage → M F T A → Stage → Type 0
  LeadsTo k a m b = Leads k a m (λ _ c. c ≡ b)

module _ {F T : Type 0} (k : NamespacedName) where
  Ends-weaken :
      {A : Type 0} {Q R : A → Stage → Type 0} (p : Flow A × World F T)
      → ((v : A) (b : Stage) → Q v b → R v b)
      → Ends k Q p
      → Ends k R p
  Ends-weaken (Flow.next v, w) imp (b, led, q) = (b, led, imp v b q)
  Ends-weaken (Flow.stop e, w) imp h = h

module _ {F T : Type 0} {k : NamespacedName} where
  pub Leads-at :
      {A : Type 0} {a b : Stage} {m : M F T A} {Q : A → Stage → Type 0}
      → a ≡ b
      → Leads k b m Q
      → Leads k a m Q
  Leads-at {m = m} {Q = Q} same led = subst (λ x. Leads k x m Q) (sym same) led

  Ends-bind :
      {A B : Type 0} (g : A → M F T B) (Q : A → Stage → Type 0) (R : B → Stage → Type 0)
      → ((v : A) (b : Stage) → Q v b → Leads k b (g v) R)
      → (p : Flow A × World F T) → Ends k Q p
      → Ends {F = F} {T = T} k R
          (elim p.0 [ Flow.next v ↦ g v p.1 | Flow.stop e ↦ (Flow.stop e, p.1) ])
  Ends-bind g Q R rest (Flow.next v, w) (b, led, q) = (rest v b q).holds w led
  Ends-bind g Q R rest (Flow.stop e, w) h = h

  pub lead_bind :
      {A B : Type 0} {a : Stage} {m : M F T A} {g : A → M F T B} (Q : A → Stage → Type 0)
      {R : B → Stage → Type 0}
      → Leads k a m Q
      → ((v : A) (b : Stage) → Q v b → Leads k b (g v) R)
      → Leads k a (m >>= g) R
  unfolding ◌>>=◌
  lead_bind {m = m} {g = g} Q {R = R} first rest = record {
    holds = λ w led. Ends-bind g Q R rest (m w) (first.holds w led);
  }

  -- A step to a known stage, and what follows it from there.
  pub lead_then :
      {A B : Type 0} {a : Stage} {m : M F T A} {g : A → M F T B} (c : Stage)
      {R : B → Stage → Type 0}
      → LeadsTo k a m c
      → ((v : A) → Leads k c (g v) R)
      → Leads k a (m >>= g) R
  lead_then {g = g} c {R = R} first rest =
      lead_bind (λ _ b. b ≡ c) first
        (λ v b same. subst (λ x. Leads k x (g v) R) (sym same) (rest v))

  pub lead_and :
      {B : Type 0} {a : Stage} {m : M F T (Unit {0})} {more : M F T B} (Q : Stage → Type 0)
      {R : B → Stage → Type 0}
      → Leads k a m (λ _ b. Q b)
      → ((b : Stage) → Q b → Leads k b more R)
      → Leads k a (m >> more) R
  unfolding ◌>>◌
  lead_and Q first rest = lead_bind (λ _ b. Q b) first (λ _ b q. rest b q)

  pub lead_seq :
      {B : Type 0} {a : Stage} {m : M F T (Unit {0})} {more : M F T B} (c : Stage)
      {R : B → Stage → Type 0}
      → LeadsTo k a m c
      → Leads k c more R
      → Leads k a (m >> more) R
  unfolding ◌>>◌
  lead_seq c first rest = lead_then c first (λ _. rest)

  pub lead_perform : {a b : Stage} {e : Effect F T} → Call k a e b → LeadsTo k a (perform e) b
  unfolding perform
  lead_perform {a} {b} {e} call = record {
    holds = λ w led. (b, Follows-snoc k Stage.opened a b w.effects e led call, refl);
  }

  -- One call, and what follows it.
  pub lead_call :
      {B : Type 0} {a b : Stage} {e : Effect F T} {more : M F T B} {R : B → Stage → Type 0}
      → Call k a e b
      → Leads k b more R
      → Leads k a (perform e >> more) R
  lead_call {b = b} call rest = lead_seq b (lead_perform call) rest

  pub lead_pure :
      {A : Type 0} (a : Stage) (v : A) {Q : A → Stage → Type 0}
      → Q v a
      → Leads {F = F} {T = T} k a (pure v) Q
  unfolding pure
  lead_pure a v q = record { holds = λ w led. (a, led, q) }

  pub lead_stop :
      {A : Type 0} (a : Stage) (e : Ending) {Q : A → Stage → Type 0}
      → Finishes e a
      → Leads {F = F} {T = T} k a (stop_with e) Q
  unfolding stop_with
  lead_stop a e ends = record { holds = λ w led. (a, led, ends) }

  pub lead_get :
      {B : Type 0} (a : Stage) {g : StateStore NamespacedName F T → M F T B}
      {R : B → Stage → Type 0}
      → ((s : StateStore NamespacedName F T) → Leads k a (g s) R)
      → Leads k a (get_store >>= g) R
  unfolding get_store
  lead_get a rest = lead_then a (record { holds = λ w led. (a, led, refl) }) rest

  pub lead_put :
      (a : Stage) (s : StateStore NamespacedName F T) → LeadsTo {F = F} {T = T} k a (put_store s) a
  unfolding put_store
  lead_put a s = record { holds = λ w led. (a, led, refl) }

  pub lead_when :
      (a : Stage) (b : Bool) {m : M F T (Unit {0})} {Q : Unit {0} → Stage → Type 0}
      → Leads k a m Q
      → Q tt a
      → Leads k a (when b m) Q
  unfolding when
  lead_when a true h q = h
  lead_when a false h q = lead_pure a tt q

  pub lead_weaken :
      {A : Type 0} {a : Stage} {m : M F T A} {Q R : A → Stage → Type 0}
      → Leads k a m Q
      → ((v : A) (b : Stage) → Q v b → R v b)
      → Leads k a m R
  lead_weaken {m = m} h imp = record { holds = λ w led. Ends-weaken k (m w) imp (h.holds w led) }

  -- A step after which the reconcile may end, and the end.
  pub lead_end :
      {A : Type 0} {a : Stage} {m : M F T (Unit {0})} (e : Ending) {R : A → Stage → Type 0}
      → Leads k a m (λ _ b. Finishes e b)
      → Leads k a (m >> stop_with e) R
  unfolding ◌>>◌
  lead_end e h = lead_bind (λ _ b. Finishes e b) h (λ _ b ends. lead_stop b e ends)

  -- A conditional step that ends the reconcile leaves the stage alone where it is skipped.
  pub lead_guard :
      (a : Stage) (b : Bool) {m : M F T (Unit {0})}
      → Leads k a m (λ _ _. ⊥)
      → LeadsTo k a (when b m) a
  unfolding when
  lead_guard a true h = lead_weaken h (λ _ _ no. absurd no)
  lead_guard a false h = lead_pure a tt refl
