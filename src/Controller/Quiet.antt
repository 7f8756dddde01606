-- ===== src/Controller/Quiet.antt =====
-- Steps that only read: they answer, and neither patch nor write a status.
pub mod Steps
use agentic_autoscaler.Prelude.{
  ℤ, pos, ◌-ℤ◌, some, none, List, [], ◌∷◌, ◌++◌, Bool, true, false, ◌≡◌, refl, ◌∙◌, sym, arith,
  length, ltb_ℤ,
}
use mathlib.Core.Path.{subst}
use mathlib.Core.List.{append_assoc, append-nil}
use agentic_autoscaler.Go.Float.{Float64}
use agentic_autoscaler.Go.Time.{GoTime, minute}
use agentic_autoscaler.Api.{NamespacedName, name_key, Status, AgenticAutoscaler}
use agentic_autoscaler.Adapters.{Fallible, ok, err, Sample, RecommendRequest, RecommendResponse}
use agentic_autoscaler.Reasoning
use agentic_autoscaler.Promql.{instant_rps, range_rps}
use agentic_autoscaler.Controller.World.{
  Deployment, Env, Effect, Ending, Fetched, Flow, Hpa, M, World, pure, stop_with, perform, ◌>>=◌,
  ◌>>◌, when,
}
use agentic_autoscaler.Controller.Inputs.{annotation, find_conflicting_hpa, values_of}
use agentic_autoscaler.Controller.Decide.{Plan}
use agentic_autoscaler.Controller.Steps.{
  Reconciler, requeue_interval, warn, handle_conflict, forget, fetch, cold_path, check_conflict,
  pre_checks, read_metrics, or_metrics_unavailable, ask_forecast,
}
use agentic_autoscaler.Controller.Reconcile.{revision_annotation, read_deployment, announce}
use agentic_autoscaler.Controller.PreChecks.{is_paused}

-- The counts that are patched, and the statuses that are written, in their order.
abbrev pub patches : {F T : Type 0} → List (Effect F T) → List ℤ
patches [] = []
patches (Effect.patch_scale n ∷ es) = n ∷ patches es
patches (e ∷ es) = patches es

abbrev pub statuses : {F T : Type 0} → List (Effect F T) → List (Status F T)
statuses [] = []
statuses (Effect.write_status s ∷ es) = s ∷ statuses es
statuses (e ∷ es) = statuses es

module _ {F T : Type 0} where
  pub patches-append : (xs ys : List (Effect F T)) → patches (xs ++ ys) ≡ patches xs ++ patches ys
  patches-append [] ys = refl
  patches-append (x ∷ xs) ys = ground (arith, patches-append xs ys)

  pub statuses-append :
      (xs ys : List (Effect F T)) → statuses (xs ++ ys) ≡ statuses xs ++ statuses ys
  statuses-append [] ys = refl
  statuses-append (x ∷ xs) ys = ground (arith, statuses-append xs ys)

  -- The step answers, and adds effects among which there is neither a patch nor a status.
  pub record IsQuiet {A : Type 0} (m : M F T A) (a : A) : Type 0 where
    pub added : List (Effect F T)
    pub answers : (w : World F T) → m w ≡ (Flow.next a, record w { effects = w.effects ++ added })
    pub no_patch : patches added ≡ []
    pub no_status : statuses added ≡ []

  pub pure-IsQuiet : {A : Type 0} (a : A) → IsQuiet (pure a) a
  unfolding pure
  pure-IsQuiet a = record {
    added = [];
    answers = λ w. rw append-nil;
    no_patch = refl;
    no_status = refl;
  }

  pub perform-IsQuiet :
      (e : Effect F T) → patches (e ∷ []) ≡ [] → statuses (e ∷ []) ≡ [] → IsQuiet (perform e) tt
  unfolding perform
  perform-IsQuiet e p s = record {
    added = e ∷ [];
    answers = λ w. refl;
    no_patch = p;
    no_status = s;
  }

  answers_bind :
      {A B : Type 0} {m : M F T A} (g : A → M F T B) (a : A) {b : B} (w : World F T)
      (x : IsQuiet m a) (y : IsQuiet (g a) b)
      → (m >>= g) w ≡ (Flow.next b, record w { effects = w.effects ++ (x.added ++ y.added) })
  unfolding ◌>>=◌
  answers_bind {m = m} g a {b} w x y =
      subst
        (λ p.
          elim p.0 [ Flow.next c ↦ g c p.1 | Flow.stop e ↦ (Flow.stop e, p.1) ]
          ≡ (Flow.next b, record w { effects = w.effects ++ (x.added ++ y.added) }))
        (sym (x.answers w))
        (y.answers (record w { effects = w.effects ++ x.added }) ∙ rw append_assoc refl)

  pub bind-IsQuiet :
      {A B : Type 0} {m : M F T A} (g : A → M F T B) (a : A) {b : B}
      → IsQuiet m a
      → IsQuiet (g a) b
      → IsQuiet (m >>= g) b
  bind-IsQuiet g a x y = record {
    added = x.added ++ y.added;
    answers = λ w. answers_bind g a w x y;
    no_patch = rw (patches-append x.added y.added, x.no_patch, y.no_patch);
    no_status = rw (statuses-append x.added y.added, x.no_status, y.no_status);
  }

  pub seq-IsQuiet :
      {B : Type 0} {m : M F T (Unit {0})} {k : M F T B} {b : B}
      → IsQuiet m tt
      → IsQuiet k b
      → IsQuiet (m >> k) b
  unfolding ◌>>◌
  seq-IsQuiet {k = k} x y = bind-IsQuiet (λ _. k) tt x y

  pub when-IsQuiet : (b : Bool) {m : M F T (Unit {0})} → IsQuiet m tt → IsQuiet (when b m) tt
  unfolding when
  when-IsQuiet true x = x
  when-IsQuiet false x = pure-IsQuiet tt

  pub skip-IsQuiet : (b : Bool) (m : M F T (Unit {0})) → b ≡ false → IsQuiet (when b m) tt
  unfolding when
  skip-IsQuiet b m h = rw h (pure-IsQuiet tt)

  -- The same patches and statuses as before.
  abbrev pub AsQuiet : World F T → World F T → Type 0
  AsQuiet w v = (patches v.effects ≡ patches w.effects) × (statuses v.effects ≡ statuses w.effects)

  abbrev pub after : {A : Type 0} {m : M F T A} {a : A} → IsQuiet m a → World F T → World F T
  after x w = record w { effects = w.effects ++ x.added }

  pub after-AsQuiet :
      {A : Type 0} {m : M F T A} {a : A} (x : IsQuiet m a) (w v : World F T)
      → AsQuiet w v
      → AsQuiet w (after x v)
  after-AsQuiet x w v same = (
    patches-append v.effects x.added ∙ rw (x.no_patch, append-nil) same.0,
    statuses-append v.effects x.added ∙ rw (x.no_status, append-nil) same.1,
  )
