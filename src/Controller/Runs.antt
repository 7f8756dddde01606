-- ===== src/Controller/Runs.antt =====
-- A triple for the reconciler's monad: from a world that satisfies the invariant, a step ends in one
-- that does, its value satisfies `Q`, and its ending, if it ends the reconcile, satisfies `E`.
use agentic_autoscaler.Prelude.{[], ◌∷◌, Bool, true, false, ◌≡◌, refl, All, All-append}
use agentic_autoscaler.Api.{NamespacedName}
use agentic_autoscaler.Decision.Store.{StateStore}
use agentic_autoscaler.Controller.World.{
  Effect, Ending, Flow, M, World, pure, stop_with, perform, ◌>>=◌, ◌>>◌, get_store, put_store, when,
}

module _ {F T : Type 0} (P : Effect F T → Type 0) (S : StateStore NamespacedName F T → Type 0)
    (E : Ending → Type 0) where
  -- Every recorded effect satisfies `P`, and the store satisfies `S`.
  abbrev pub Holds : World F T → Type 0
  Holds w = All P w.effects × S w.store

  abbrev pub Ensures : {A : Type 0} → (A → Type 0) → Flow A × World F T → Type 0
  Ensures Q (Flow.next a, w) = Q a × Holds w
  Ensures Q (Flow.stop e, w) = E e × Holds w

  pub record Keeps {A : Type 0} (m : M F T A) (Q : A → Type 0) : Type 0 where
    pub holds : (w : World F T) → Holds w → Ensures Q (m w)

  -- A step with nothing to say of its value.
  abbrev pub Safe : {A : Type 0} → M F T A → Type 0
  Safe m = Keeps m (λ _. Unit {0})

  Ensures-weaken :
      {A : Type 0} {Q R : A → Type 0} (p : Flow A × World F T)
      → ((a : A) → Q a → R a)
      → Ensures Q p
      → Ensures R p
  Ensures-weaken (Flow.next a, w) imp (q, i) = (imp a q, i)
  Ensures-weaken (Flow.stop e, w) imp h = h

  Ensures-bind :
      {A B : Type 0} (g : A → M F T B) (Q : A → Type 0) (R : B → Type 0)
      → ((a : A) → Q a → Keeps (g a) R)
      → (p : Flow A × World F T) → Ensures Q p
      → Ensures R (elim p.0 [ Flow.next a ↦ g a p.1 | Flow.stop e ↦ (Flow.stop e, p.1) ])
  Ensures-bind g Q R rest (Flow.next a, w) (q, i) = (rest a q).holds w i
  Ensures-bind g Q R rest (Flow.stop e, w) h = h

  pub then_rule :
      {A B : Type 0} {m : M F T A} {g : A → M F T B} (Q : A → Type 0) {R : B → Type 0}
      → Keeps m Q
      → ((a : A) → Q a → Keeps (g a) R)
      → Keeps (m >>= g) R
  unfolding ◌>>=◌
  then_rule {m = m} {g = g} Q {R = R} first rest = record {
    holds = λ w i. Ensures-bind g Q R rest (m w) (first.holds w i);
  }

  pub seq_rule :
      {B : Type 0} {m : M F T (Unit {0})} {k : M F T B} {R : B → Type 0}
      → Safe m
      → Keeps k R
      → Keeps (m >> k) R
  unfolding ◌>>◌
  seq_rule first rest = then_rule (λ _. Unit {0}) first (λ _ _. rest)

  pub perform_rule : {e : Effect F T} → P e → Safe (perform e)
  unfolding perform
  perform_rule {e} h = record {
    holds = λ w i. (tt, (All-append P w.effects (e ∷ []) i.0 (h, tt), i.1));
  }

  pub put_rule : {s : StateStore NamespacedName F T} → S s → Safe (put_store s)
  unfolding put_store
  put_rule h = record { holds = λ w i. (tt, (i.0, h)) }

  pub get_rule : Keeps get_store S
  unfolding get_store
  get_rule = record { holds = λ w i. (i.1, i) }

  pub pure_rule : {A : Type 0} (a : A) {Q : A → Type 0} → Q a → Keeps (pure a) Q
  unfolding pure
  pure_rule a q = record { holds = λ w i. (q, i) }

  pub stop_rule : {A : Type 0} {e : Ending} {Q : A → Type 0} → E e → Keeps (stop_with e) Q
  unfolding stop_with
  stop_rule h = record { holds = λ w i. (h, i) }

  pub when_rule : (b : Bool) {m : M F T (Unit {0})} → Safe m → Safe (when b m)
  unfolding when pure
  when_rule true h = h
  when_rule false h = record { holds = λ w i. (tt, i) }

  pub after_rule :
      {B : Type 0} {m : M F T (Unit {0})} {k : M F T B} {G : Type 0} {R : B → Type 0}
      → Keeps m (λ _. G)
      → (G → Keeps k R)
      → Keeps (m >> k) R
  unfolding ◌>>◌
  after_rule {G = G} first rest = then_rule (λ _. G) first (λ _ g. rest g)

  -- Past a conditional step that always ends the reconcile, the condition is false.
  pub guard_rule :
      (b : Bool) {m : M F T (Unit {0})} → Keeps m (λ _. ⊥) → Keeps (when b m) (λ _. b ≡ false)
  unfolding when pure
  guard_rule true {m} h = record {
    holds = λ w i. Ensures-weaken (m w) (λ _ no. absurd no) (h.holds w i);
  }
  guard_rule false h = record { holds = λ w i. (refl, i) }

  pub weaken_rule :
      {A : Type 0} {m : M F T A} {Q R : A → Type 0} → Keeps m Q → ((a : A) → Q a → R a) → Keeps m R
  weaken_rule {m = m} h imp = record { holds = λ w i. Ensures-weaken (m w) imp (h.holds w i) }
