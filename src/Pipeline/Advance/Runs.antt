-- ===== src/Pipeline/Advance/Runs.antt =====
-- dev_orchestrator/v8/pipeline.py: what the steps of `advance_run` leave in the table of runs.
use async_native_ai_orchestr.Prelude.{
  ℕ, String, Bool, true, false, ◌≡◌, ◌⊎◌, inl, inr, refl, sym, subst, List, [], ◌∷◌, Option, none,
  some, str_eq, eq_iff, arith, if◌then◌else◌, if_both, Option-cases,
}
use mathlib.Core.Option
use async_native_ai_orchestr.Prelude.Dict.{Dict, get, put, get-put}
use async_native_ai_orchestr.Result.{Result, Error, Result-cases, ok, err}
use async_native_ai_orchestr.Models.Kind.{JobType}
use async_native_ai_orchestr.Store.Jobs.{Job}
use async_native_ai_orchestr.Store.Records.{
  Run, RunMetadata, Wave, WorkPackage, StateTransition, continue_with,
}
use async_native_ai_orchestr.Store.Memory.{
  RunFields, get_run, with_fields, revalidated, updated, update_run, add_event, upsert_wave,
  list_jobs, list_waves, list_work_packages,
}
use async_native_ai_orchestr.Pipeline.World.{World, M, and_then}
use async_native_ai_orchestr.Pipeline.State.{
  update_run_state, emit, set_checkpoint, build_state_transition_event,
}
use async_native_ai_orchestr.Pipeline.Enqueue.{
  enqueue, enqueue_phase_job, enqueue_package_job, retry_suffix,
}
use async_native_ai_orchestr.Pipeline.Waves.{
  queue_packages, mark_queued, running_wave, queue_wave, complete_waves, visit_waves,
  advance_wave_execution, by_key, packages_of, wave_done, sort_waves,
}

-- A step that leaves the table of runs as it was, whether it raises or not.
abbrev pub KeepsRuns : {A : Type 0} → M A → Type 0
KeepsRuns m = (w : World) → (m w).1.store.runs ≡ w.store.runs

emit-KeepsRuns : (run_id : String) (t : Option StateTransition) → KeepsRuns (emit run_id t)
unfolding emit add_event
emit-KeepsRuns run_id none w = refl
emit-KeepsRuns run_id (some t) w = refl

pub enqueue-KeepsRuns : (j : Job) → KeepsRuns (enqueue j)
unfolding enqueue
enqueue-KeepsRuns j w = refl

pub enqueue_phase_job-KeepsRuns :
    (run : Run) (t : JobType) (b : Bool) → KeepsRuns (enqueue_phase_job run t b)
unfolding enqueue_phase_job retry_suffix enqueue
enqueue_phase_job-KeepsRuns run t b w = ground arith

enqueue_package_job-KeepsRuns :
    (run : Run) (wave : Wave) (p : WorkPackage) → KeepsRuns (enqueue_package_job run wave p)
unfolding enqueue_package_job enqueue
enqueue_package_job-KeepsRuns run wave p w = ground arith

queue_packages-KeepsRuns :
    (run : Run) (wave : Wave) (table : Dict WorkPackage) (jobs : List Job) (ps : List WorkPackage)
    → KeepsRuns (queue_packages run wave table jobs ps)
unfolding queue_packages
queue_packages-KeepsRuns run wave table jobs [] w = refl
queue_packages-KeepsRuns run wave table jobs (p ∷ ps) w =
    let rest = queue_packages-KeepsRuns run wave table jobs ps in
    let queued = enqueue_package_job run wave p w in
    ground (arith, enqueue_package_job-KeepsRuns run wave p w, rest w, rest queued.1)

module _ (i : String) (f : RunFields) (w : World) where
  update_run_state-missing :
      get i w.store.runs ≡ none → (update_run_state i f w).1.store.runs ≡ w.store.runs
  unfolding update_run_state update_run get_run
  update_run_state-missing e = ground arith

  update_run_state-refused :
      (r : Run) (x : Error)
      → get i w.store.runs ≡ some r
      → revalidated w.store.validate_metadata f r ≡ err x
      → (update_run_state i f w).1.store.runs ≡ w.store.runs
  unfolding update_run_state update_run get_run get
  update_run_state-refused r x e bad = rw (e, update_run_state) (rw bad refl)

  update_run_state-found :
      (r base : Run)
      → get i w.store.runs ≡ some r
      → revalidated w.store.validate_metadata f r ≡ ok base
      → (update_run_state i f w).1.store.runs ≡ put i (with_fields base f w.now) w.store.runs
  unfolding update_run_state update_run get_run get put
  update_run_state-found r base e valid =
      let r' = with_fields base f w.now in
      let w' = record w { store = record w.store { runs = put i r' w.store.runs } } in
      rw (e, update_run_state) (rw valid (emit-KeepsRuns i (build_state_transition_event r r') w'))

  -- The run under an identifier after an update of a run's state.
  pub update_run_state-get_run :
      (j : String)
      → get_run (update_run_state i f w).1.store j ≡ (
          if str_eq i j
          then Option.map (updated w.store.validate_metadata f w.now) (get_run w.store i)
          else get_run w.store j)
  unfolding get_run
  update_run_state-get_run j = elim (Option-cases (get i w.store.runs)) [
    | inl e ↦ rw (update_run_state-missing e, e) (same_run none e)
    | inr (r, e) ↦ elim (Result-cases (revalidated w.store.validate_metadata f r)) [
      | inr (x, bad) ↦
          rw (update_run_state-refused r x e bad, e) (rw (bad, updated) (same_run (some r) e))
      | inl (base, valid) ↦
          rw (update_run_state-found r base e valid, e)
            (rw (valid, updated) (get-put i j (with_fields base f w.now) w.store.runs))
    ]
  ]
    where
      same_run :
          (o : Option Run)
          → get i w.store.runs ≡ o
          → get j w.store.runs ≡ (if str_eq i j then o else get j w.store.runs)
      same_run o e =
          if_both (λ o'. get j w.store.runs ≡ o') (str_eq i j)
            (λ same. subst (λ k. get k w.store.runs ≡ o) ((eq_iff i j).0 same) e) (λ _. refl)

-- What the advance of the waves may do to the run under an identifier: nothing, or a new checkpoint.
abbrev pub Moved : Option Run → Option Run → Type 0
Moved none new = new ≡ none
Moved (some r) new =
    (new ≡ some r)
    ⊎ ((r' : Run) × (new ≡ some r')
        × (r'.status ≡ r.status)
        × ((r'.checkpoint ≡ "wave_queued") ⊎ (r'.checkpoint ≡ "wave_completed")))

pub Moved-refl : (o : Option Run) → Moved o o
Moved-refl none = refl
Moved-refl (some r) = inl refl

-- A run that is validated again keeps everything but its metadata.
pub revalidated-status :
    (validate : RunMetadata → Result RunMetadata) (f : RunFields) (r base : Run)
    → revalidated validate f r ≡ ok base
    → base.status ≡ r.status
revalidated-status validate f r base h = go f.metadata (validate r.metadata) h
  where
    go :
        (o : Option RunMetadata) (v : Result RunMetadata)
        → ◌≡◌ {A = Result Run}
            (elim o [
              | some m ↦ ok r
              | none ↦ elim v [ err e ↦ err e | ok m ↦ ok (record r { metadata = m }) ]
            ])
            (ok base)
        → base.status ≡ r.status
    go (some m) v e = ground arith
    go none (ok m) e = ground arith
    go none (err x) e = absurd (cc)

Moved-map :
    (validate : RunMetadata → Result RunMetadata) (f : RunFields) (now : ℕ) (c : String)
    → f.status ≡ none
    → f.checkpoint ≡ some c
    → (c ≡ "wave_queued") ⊎ (c ≡ "wave_completed")
    → (o : Option Run) → Moved o (Option.map (updated validate f now) o)
Moved-map validate f now c s e h none = refl
Moved-map validate f now c s e h (some r) = elim (Result-cases (revalidated validate f r)) [
  | inr (x, bad) ↦ inl (rw (bad, updated) refl)
  | inl (base, valid) ↦ inr (
    with_fields base f now,
    rw (valid, updated) refl,
    rw s (revalidated-status validate f r base valid),
    rw e h,
  )
]

update_run_state-Moved :
    (i j c : String) (f : RunFields) (w : World)
    → f.status ≡ none
    → f.checkpoint ≡ some c
    → (c ≡ "wave_queued") ⊎ (c ≡ "wave_completed")
    → Moved (get_run w.store j) (get_run (update_run_state i f w).1.store j)
update_run_state-Moved i j c f w s e h = rw (update_run_state-get_run i f w j) (
    if_both (Moved (get_run w.store j)) (str_eq i j)
      (λ same.
        subst
          (λ k.
            Moved (get_run w.store j)
              (Option.map (updated w.store.validate_metadata f w.now) (get_run w.store k)))
          (sym ((eq_iff i j).0 same))
          (Moved-map w.store.validate_metadata f w.now c s e h (get_run w.store j)))
      (λ _. Moved-refl (get_run w.store j)))

module _ (j : String) where
  mark_queued-Moved :
      (run : Run) (wave : Wave) (b : Bool) (w : World)
      → Moved (get_run w.store j) (get_run (mark_queued run wave b w).1.store j)
  unfolding mark_queued upsert_wave get_run
  mark_queued-Moved run wave false w = Moved-refl (get_run w.store j)
  mark_queued-Moved run wave true w =
      let f = record (set_checkpoint "wave_queued") {
        continuation = some (continue_with "wave_execution" "wave_queued" (some wave.wave_key));
      } in
      update_run_state-Moved run.id j "wave_queued" f
        (record w { store = upsert_wave w.store (running_wave run wave) }) refl refl (inl refl)

  complete_waves-Moved :
      (run : Run) (w : World) → Moved (get_run w.store j) (get_run (complete_waves run w).1.store j)
  unfolding complete_waves
  complete_waves-Moved run w =
      update_run_state-Moved run.id j "wave_completed"
        (record (set_checkpoint "wave_completed") {
          continuation = some (continue_with "integration" "wave_completed" none);
        })
        w refl refl (inr refl)

  queue_wave-Moved :
      (run : Run) (packages ps : List WorkPackage) (wave : Wave) (w : World)
      → Moved (get_run w.store j) (get_run (queue_wave run packages wave ps w).1.store j)
  unfolding queue_wave get_run
  queue_wave-Moved run packages ps wave w =
      go (queue_packages run wave (by_key [] packages) (list_jobs w.store run.id) ps w)
        (queue_packages-KeepsRuns run wave (by_key [] packages) (list_jobs w.store run.id) ps w)
    where
      go :
          (r : Result Bool × World)
          → r.1.store.runs ≡ w.store.runs
          → Moved (get_run w.store j) (get_run (and_then r (mark_queued run wave)).1.store j)
      go (ok b, w') e =
          subst (λ t. Moved (get j t) (get_run (mark_queued run wave b w').1.store j)) e
            (mark_queued-Moved run wave b w')
      go (err x, w') e =
          subst (λ t. Moved (get j t) (get_run w'.store j)) e (Moved-refl (get_run w'.store j))

  visit_waves-Moved :
      (run : Run) (packages : List WorkPackage) (ws : List Wave) (w : World)
      → Moved (get_run w.store j) (get_run (visit_waves run packages ws w).1.store j)
  unfolding visit_waves
  visit_waves-Moved run packages [] w = complete_waves-Moved run w
  visit_waves-Moved run packages (v ∷ ws) w =
      if_both {A = M (Unit {0})} (λ m. Moved (get_run w.store j) (get_run (m w).1.store j))
        (wave_done (packages_of v packages)) (λ _. visit_waves-Moved run packages ws w)
        (λ _. queue_wave-Moved run packages (packages_of v packages) v w)

  -- Whether it raises or not, the advance of the waves leaves each run as it was or gives it the
  -- checkpoint "wave_queued" or "wave_completed" and keeps its status.
  pub advance_wave_execution-Moved :
      (run : Run) (w : World)
      → Moved (get_run w.store j) (get_run (advance_wave_execution run w).1.store j)
  unfolding advance_wave_execution
  advance_wave_execution-Moved run w =
      visit_waves-Moved run (list_work_packages w.store run.id)
        (sort_waves (list_waves w.store run.id)) w
