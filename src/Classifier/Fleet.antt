-- ===== src/Classifier/Fleet.antt =====
-- internal/classifier/manager.go and worker.go together: the manager, every worker that it has
-- started, stopped ones included, and the resources on the API server, interleaved in any order. A
-- worker and its handle share their channels, and a cancellation reaches the worker's context.
pub mod Starts
pub mod Kept
pub mod Acts
pub mod Contexts
pub mod Sound
use agentic_autoscaler.Prelude.{
  ℕ, String, Option, some, none, List, [], ◌∷◌, Bool, true, false, eqb, if◌then◌else◌,
}
use agentic_autoscaler.Go.Float.{Float64}
use agentic_autoscaler.Go.Time.{GoTime}
use agentic_autoscaler.Go.Map.{Map, lookup, insert, delete}
use agentic_autoscaler.Api.{NamespacedName, name_key, AgenticAutoscaler}
use agentic_autoscaler.Classifier.Manager.{
  Start, WorkerHandle, Manager, new_manager, start_of, ensure, stop_worker, signal_reclassify,
  observe_deployment_revision,
}
use agentic_autoscaler.Classifier.Manager.Running.{is_cancelled, rewritten, received}
use agentic_autoscaler.Classifier.Worker.{Setup}
use agentic_autoscaler.Classifier.Worker.Loop.{Move, Loop, new_loop, step}

-- The worker of a start: what the manager gives to all of them is `base`.
unfoldable pub setup_of {ℓ} : {F : Type ℓ} → Setup F → Start → Setup F
setup_of base x = record base {
  key = x.key;
  deployment_name = x.deployment_name;
  min_replicas = x.min_replicas;
  max_replicas = x.max_replicas;
}

pub record Crew {ℓ κ} (F : Type ℓ) (T : Type κ) : Type (ℓ ⊔ κ) where
  pub start : Start
  pub loop : Loop F T

pub record Fleet {ℓ κ} (F : Type ℓ) (T : Type κ) : Type (ℓ ⊔ κ) where
  pub manager : Manager
  pub stored : Map NamespacedName (AgenticAutoscaler F T)
  pub crews : List (Crew F T)

-- What happens next: a call of the manager, a move of a worker's own, another client's write.
pub data Act {ℓ κ} (F : Type ℓ) (T : Type κ) : Type (ℓ ⊔ κ) where
  ensures : AgenticAutoscaler F T → Act F T
  stops : NamespacedName → Act F T
  signals : NamespacedName → Act F T
  observes : NamespacedName → String → Act F T
  works : ℕ → Move F T → Act F T
  writes : NamespacedName → Move F T → Act F T

module _ {ℓ κ} {F : Type ℓ} {T : Type κ} where
  -- What a worker does itself; and the push of a SignalReclassify that found the worker before it was
  -- stopped, as that push comes after the unlock.
  abbrev pub is_own : Move F T → Bool
  is_own (Move.begin a) = true
  is_own (Move.tick a) = true
  is_own (Move.reclassify a answers) = true
  is_own (Move.generation now a) = true
  is_own Move.resume = true
  is_own Move.leave = true
  is_own Move.signal_reclassify = true
  is_own _ = false

  abbrev pub is_write : Move F T → Bool
  is_write (Move.edit spec annotations being_deleted) = true
  is_write (Move.set_status st) = true
  is_write (Move.create aas) = true
  is_write Move.remove = true
  is_write _ = false

  -- A worker's loop after a call of the manager.
  abbrev pub noticed : Manager → Start → Option WorkerHandle → Loop F T → Loop F T
  noticed m x none l = record l { cancelled = is_cancelled x.id m.cancelled }
  noticed m x (some h) l = record l {
    cancelled = is_cancelled x.id m.cancelled;
    reclassify_ch = if eqb h.id x.id then h.reclassify_ch else l.reclassify_ch;
    generation_ch = if eqb h.id x.id then h.generation_ch else l.generation_ch;
  }

  abbrev pub all_notice : Manager → List (Crew F T) → List (Crew F T)
  all_notice m [] = []
  all_notice m (c ∷ cs) =
      record c { loop = noticed m c.start (lookup c.start.key m.workers) c.loop } ∷ all_notice m cs

  -- A call of the manager, and what the workers see of it.
  abbrev pub manage : Manager → Fleet F T → Fleet F T
  manage m v = record v { manager = m; crews = all_notice m v.crews }

  abbrev pub find : ℕ → List (Crew F T) → Option (Crew F T)
  find id [] = none
  find id (c ∷ cs) = if eqb c.start.id id then some c else find id cs

  abbrev pub replace : ℕ → Loop F T → List (Crew F T) → List (Crew F T)
  replace id l [] = []
  replace id l (c ∷ cs) =
      record c { loop = if eqb c.start.id id then l else c.loop } ∷ replace id l cs

  abbrev pub put_back :
      NamespacedName
      → Option (AgenticAutoscaler F T)
      → Map NamespacedName (AgenticAutoscaler F T)
      → Map NamespacedName (AgenticAutoscaler F T)
  put_back key none resources = delete key resources
  put_back key (some aas) resources = insert key aas resources

  -- The loop of a worker that sees its resource as the API server has it.
  abbrev pub facing : Fleet F T → Crew F T → Loop F T
  facing v c = record c.loop {
    worker = record c.loop.worker { stored = lookup c.start.key v.stored };
  }

  -- The fleet after a worker's move: its channels are those of its handle.
  abbrev pub moved : Fleet F T → Start → Option (Loop F T) → Fleet F T
  moved v x none = v
  moved v x (some l) = record v {
    manager =
        rewritten (received x.id l.reclassify_ch l.generation_ch) x.key v.manager
          (lookup x.key v.manager.workers);
    stored = put_back x.key l.worker.stored v.stored;
    crews = replace x.id l v.crews;
  }

  abbrev pub wrote : Fleet F T → NamespacedName → Option (Loop F T) → Fleet F T
  wrote v key none = v
  wrote v key (some l) = record v { stored = put_back key l.worker.stored v.stored }

module _ {ℓ κ} {F : Type ℓ} ⦃f : Float64 F⦄ {T : Type κ} ⦃t : GoTime T⦄ (guard : F)
    (base : Setup F) where
  -- Ensure starts the goroutine of a worker that the manager did not have.
  unfoldable pub ensured : AgenticAutoscaler F T → Option WorkerHandle → Fleet F T → Fleet F T
  unfolding start_of new_loop
  ensured aas (some h) v = v
  ensured aas none v = record v {
    manager = ensure aas v.manager;
    crews =
        record { start = start_of v.manager.next_id aas; loop = new_loop none }
        ∷ all_notice (ensure aas v.manager) v.crews;
  }

  unfoldable pub worked : Move F T → Fleet F T → Option (Crew F T) → Fleet F T
  unfolding step setup_of
  worked move v none = v
  worked move v (some c) = moved v c.start (step guard (setup_of base c.start) move (facing v c))

  -- The fleet after an act; one that is not possible leaves it.
  unfoldable pub act : Act F T → Fleet F T → Fleet F T
  unfolding ensured worked step
  act (Act.ensures aas) v = ensured aas (lookup aas.key v.manager.workers) v
  act (Act.stops key) v = manage (stop_worker key v.manager) v
  act (Act.signals key) v = manage (signal_reclassify false key v.manager) v
  act (Act.observes key revision) v =
      manage (observe_deployment_revision false key revision v.manager).0 v
  act (Act.works id move) v = if is_own move then worked move v (find id v.crews) else v
  act (Act.writes key move) v =
      if is_write move
      then wrote v key (step guard base move (new_loop (lookup key v.stored)))
      else v

  unfoldable pub run_acts : List (Act F T) → Fleet F T → Fleet F T
  unfolding act
  run_acts [] v = v
  run_acts (a ∷ acts) v = run_acts acts (act a v)

-- Before the first reconcile.
unfoldable pub new_fleet {ℓ κ} :
    {F : Type ℓ} {T : Type κ} → Map NamespacedName (AgenticAutoscaler F T) → Fleet F T
unfolding new_manager
new_fleet resources = record { manager = new_manager; stored = resources; crews = [] }
