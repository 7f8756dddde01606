-- ===== src/Classifier/Worker/Loop.antt =====
-- internal/classifier/worker.go: the loop of a worker, from Run to the answer of each signal. A step is
-- a choice of one of the loop's selects with what follows it, or something that happens from outside:
-- a signal of the manager, the end of the context, an edit of the resource. The manager pushes in one
-- step: a receive between its selects is one before or after the push.
use agentic_autoscaler.Prelude.{
  pos, leb_ℤ, ltb_ℤ, String, Option, some, none, List, [], ◌∷◌, length, ltb, Bool, true, false,
  ◌&&◌, not, if◌then◌else◌, text_key,
}
use mathlib.Core.Option as Optional
use agentic_autoscaler.Go.Float.{Float64}
use agentic_autoscaler.Go.Time.{GoTime, seconds}
use agentic_autoscaler.Go.Map.{Map, lookup, delete}
use agentic_autoscaler.Go.Channel.{Channel, make, try_receive}
use agentic_autoscaler.Reasoning
use agentic_autoscaler.Api.{Spec, Status, AgenticAutoscaler}
use agentic_autoscaler.Controller.World.{Flow}
use agentic_autoscaler.Controller.Notifier.{drop_and_push}
use agentic_autoscaler.Classifier.Manager.{Signal}
use agentic_autoscaler.Classifier.Worker.{Setup, Answers, Worker, get_stored, run_classification}

module _ {ℓ κ} {F : Type ℓ} {T : Type κ} ⦃t : GoTime T⦄ where
  unfoldable pub should_run_on_generation : Setup F → T → Worker F T → Bool
  unfolding seconds
  should_run_on_generation s now w =
      ltb_ℤ (seconds s.config.dedup_seconds) (t.sub now w.last_classify_at)

-- The answers to the two calls that remove the annotation.
pub record Removal : Type 0 where
  pub get_error : Option String
  pub update_error : Option String

module _ {ℓ κ} {F : Type ℓ} {T : Type κ} where
  unfoldable pub remove_reclassify_annotation : Removal → Worker F T → Worker F T
  unfolding lookup delete
  remove_reclassify_annotation answers w = elim (get_stored answers.get_error w.stored) [
    | none ↦ w
    | some aas ↦ elim (lookup Reasoning.annotation_reclassify aas.annotations) [
      | none ↦ w
      | some v ↦ elim answers.update_error [
        | some e ↦ w
        | none ↦ record w {
          stored =
              some (record aas {
                annotations = delete Reasoning.annotation_reclassify aas.annotations;
              });
        }
      ]
    ]
  ]

module _ {ℓ κ} {F : Type ℓ} {T : Type κ} where
  -- The annotation is removed after a classification that succeeded.
  unfoldable pub strip_after : Removal → Flow Bool → Worker F T → Worker F T
  unfolding remove_reclassify_annotation
  strip_after answers (Flow.next true) w = remove_reclassify_annotation answers w
  strip_after answers _ w = w

-- Where Run is: before runOnce, in the select of runOnce, in the select of its recover, or returned.
pub data Phase : Type 0 where
  entering waiting backing_off returned : Phase

abbrev pub is_entering : Phase → Bool
is_entering Phase.entering = true
is_entering _ = false

abbrev pub is_waiting : Phase → Bool
is_waiting Phase.waiting = true
is_waiting _ = false

abbrev pub is_backing_off : Phase → Bool
is_backing_off Phase.backing_off = true
is_backing_off _ = false

abbrev pub pending : Channel Signal → Bool
pending ch = ltb 0 (length ch.queue)

abbrev pub is_returned : Phase → Bool
is_returned Phase.returned = true
is_returned _ = false

-- The phase after a classification: a panic ends in the select of the recover.
unfoldable pub phase_after : Phase → Flow Bool → Phase
phase_after p (Flow.next b) = p
phase_after p (Flow.stop e) = Phase.backing_off

-- A resource that is there stays.
abbrev pub get_or_else {ℓ} : {A : Type ℓ} → A → Option A → A
get_or_else a none = a
get_or_else a (some b) = b

pub record Loop {ℓ κ} (F : Type ℓ) (T : Type κ) : Type (ℓ ⊔ κ) where
  pub phase : Phase
  pub cancelled : Bool
  pub reclassify_ch : Channel Signal
  pub generation_ch : Channel Signal
  pub worker : Worker F T

-- What happens next.
pub data Move {ℓ κ} (F : Type ℓ) (T : Type κ) : Type (ℓ ⊔ κ) where
  -- the worker: runOnce starts, a case of its select, the end of the back-off, the return
  begin : Answers F T → Move F T
  tick : Answers F T → Move F T
  reclassify : Answers F T → Removal → Move F T
  generation : T → Answers F T → Move F T
  resume : Move F T
  leave : Move F T
  -- the others: the manager's signals, the end of the context, and writes to the API server
  signal_reclassify signal_generation : Move F T
  cancel : Move F T
  edit : Spec → Map String String → Bool → Move F T
  set_status : Status F T → Move F T
  create : AgenticAutoscaler F T → Move F T
  remove : Move F T

module _ {ℓ κ} {F : Type ℓ} {T : Type κ} where
  abbrev pub map_stored : (AgenticAutoscaler F T → AgenticAutoscaler F T) → Worker F T → Worker F T
  map_stored g w = record w { stored = Optional.map g w.stored }

  -- A write of the status replaces all of it. The API server accepts it only from a client that has
  -- read the latest resource, and no other client changes the parameters that it read.
  abbrev pub keep_params : Status F T → AgenticAutoscaler F T → AgenticAutoscaler F T
  keep_params st aas = record aas {
    status = record st { classified_params = aas.status.classified_params };
  }

  abbrev pub without_params : AgenticAutoscaler F T → AgenticAutoscaler F T
  without_params aas = record aas { status = record aas.status { classified_params = none } }

module _ {ℓ κ} {F : Type ℓ} ⦃f : Float64 F⦄ {T : Type κ} ⦃t : GoTime T⦄ (guard : F)
    (s : Setup F) where
  -- A classification by the loop, which goes on in the phase `p` unless it panics.
  unfoldable pub classify_in : Phase → Answers F T → Loop F T → Loop F T
  unfolding phase_after run_classification
  classify_in p a l =
      let (flow, w) = run_classification guard s a l.worker in
      record l { phase = phase_after p flow; worker = w }

  -- The entry of runOnce: time.NewTicker panics on an interval that is not positive.
  unfoldable pub enter : Answers F T → Loop F T → Loop F T
  unfolding classify_in
  enter a l =
      classify_in (if leb_ℤ s.config.interval (pos 0) then Phase.backing_off else Phase.waiting) a l

  unfoldable pub serve_reclassify : Answers F T → Removal → Loop F T → Loop F T
  unfolding phase_after run_classification strip_after
  serve_reclassify a answers l =
      let (flow, w) = run_classification guard s a l.worker in
      record l {
        phase = phase_after Phase.waiting flow;
        reclassify_ch = try_receive l.reclassify_ch;
        worker = strip_after answers flow w;
      }

  unfoldable pub serve_generation : T → Answers F T → Loop F T → Loop F T
  unfolding classify_in should_run_on_generation
  serve_generation now a l =
      let received = record l { generation_ch = try_receive l.generation_ch } in
      if should_run_on_generation s now l.worker
      then classify_in Phase.waiting a received
      else received

  abbrev pub guard_move : Bool → Loop F T → Option (Loop F T)
  guard_move b l = if b then some l else none

  -- The loop after a move, or none where the move is not possible.
  unfoldable pub step : Move F T → Loop F T → Option (Loop F T)
  unfolding classify_in enter serve_reclassify serve_generation drop_and_push
  step (Move.begin a) l = guard_move (is_entering l.phase && not l.cancelled) (enter a l)
  step (Move.tick a) l = guard_move (is_waiting l.phase) (classify_in Phase.waiting a l)
  step (Move.reclassify a answers) l =
      guard_move (is_waiting l.phase && pending l.reclassify_ch) (serve_reclassify a answers l)
  step (Move.generation now a) l =
      guard_move (is_waiting l.phase && pending l.generation_ch) (serve_generation now a l)
  step Move.resume l = guard_move (is_backing_off l.phase) (record l { phase = Phase.entering })
  step Move.leave l =
      guard_move (l.cancelled && not (is_returned l.phase)) (record l { phase = Phase.returned })
  step Move.signal_reclassify l =
      some (record l { reclassify_ch = drop_and_push false tt l.reclassify_ch })
  step Move.signal_generation l =
      some (record l { generation_ch = drop_and_push false tt l.generation_ch })
  step Move.cancel l = some (record l { cancelled = true })
  step (Move.edit spec annotations being_deleted) l = some (record l {
    worker =
        map_stored
          (λ aas. record aas {
            spec = spec;
            annotations = annotations;
            being_deleted = being_deleted;
          })
          l.worker;
  })
  step (Move.set_status st) l = some (record l { worker = map_stored (keep_params st) l.worker })
  step (Move.create aas) l = some (record l {
    worker = record l.worker { stored = some (get_or_else (without_params aas) l.worker.stored) };
  })
  step Move.remove l = some (record l { worker = record l.worker { stored = none } })

  unfoldable pub run_moves : List (Move F T) → Loop F T → Option (Loop F T)
  unfolding step
  run_moves [] l = some l
  run_moves (m ∷ ms) l = elim (step m l) [ none ↦ none | some l1 ↦ run_moves ms l1 ]

-- A worker as the manager starts it: SetLastClassifyAt is for tests, so its time is the zero time.
unfoldable pub new_loop {ℓ κ} :
    {F : Type ℓ} {T : Type κ} ⦃t : GoTime T⦄ → Option (AgenticAutoscaler F T) → Loop F T
unfolding make
new_loop ⦃t⦄ stored = record {
  phase = Phase.entering;
  cancelled = false;
  reclassify_ch = make 1;
  generation_ch = make 1;
  worker = record { last_classify_at = t.zero_time; stored = stored; queries = []; events = [] };
}
