-- ===== src/Pipeline/Advance/Loop.antt =====
-- dev_orchestrator/v8/pipeline.py: the `while` loop of `advance_run` ends.
use async_native_ai_orchestr.Prelude.{
  ℕ, zero, suc, ◌≤◌, String, true, false, ◌≡◌, ◌⊎◌, inl, inr, ap, refl, subst, Option, none, some,
  str_eq, eq_iff, arith, ◌||◌, if◌then◌else◌, if_both, Bool-cases,
}
use async_native_ai_orchestr.Result.{Result, ok, err}
use async_native_ai_orchestr.Store.Records.{Run}
use async_native_ai_orchestr.Store.Memory.{get_run}
use async_native_ai_orchestr.Pipeline.World.{World, M, and_then}
use async_native_ai_orchestr.Pipeline.Waves.{advance_wave_execution}
use async_native_ai_orchestr.Pipeline.Advance.{
  LoopExit, returned, left, out_of_fuel, wave_loop, in_waves, loop_fuel, unless_stuck,
}
use async_native_ai_orchestr.Pipeline.Advance.Runs.{Moved, advance_wave_execution-Moved}

-- How many more rounds a checkpoint can bring.
abbrev rank : String → ℕ
rank c =
    if str_eq c "package_planning_completed" || str_eq c "package_completed"
    then 2
    else (if str_eq c "wave_queued" then 1 else 0)

rank-in_waves : (c : String) → rank c ≡ 0 → in_waves c ≡ false
rank-in_waves c h = ground arith

rank_queued : rank "wave_queued" ≡ 1
rank_queued = refl

rank_drop :
    (c d : String) (k : ℕ)
    → in_waves c ≡ true
    → rank c ≤ suc k
    → (d ≡ "wave_queued") ⊎ (d ≡ "wave_completed")
    → str_eq d c ≡ false
    → rank d ≤ k
rank_drop c d k i h (inl e) n =
    rw e (ground (arith, eq_iff "wave_queued" c, eq_iff c "wave_queued"))
rank_drop c d k i h (inr e) n = rw e (omega arith)

-- The loop raised, returned, or was left with the stored run, at a checkpoint outside the waves.
abbrev pub Exits : String → Result LoopExit × World → Type 0
Exits run_id (err e, w) = Unit
Exits run_id (ok returned, w) = Unit
Exits run_id (ok (left run), w) =
    (in_waves run.checkpoint ≡ false) × (get_run w.store run_id ≡ some run)
Exits run_id (ok out_of_fuel, w) = ⊥

unless_stuck-Exits :
    (run_id : String) (k : ℕ) (run : Run) (next : Option Run) (w : World)
    → in_waves run.checkpoint ≡ true
    → rank run.checkpoint ≤ suc k
    → get_run w.store run_id ≡ next
    → Moved (some run) next
    → ((r : Run)
        → get_run w.store run_id ≡ some r
        → rank r.checkpoint ≤ k
        → Exits run_id (wave_loop k run_id r w))
    → Exits run_id (unless_stuck run.checkpoint next (wave_loop k run_id) w)
unless_stuck-Exits run_id k run none w i h e m loop = tt
unless_stuck-Exits run_id k run (some r) w i h e (inl same) loop =
    let same' : r ≡ run = cc in
    if_both {A = M LoopExit} (λ m. Exits run_id (m w)) (str_eq r.checkpoint run.checkpoint)
      (λ _. tt) (λ differ. absurd (stays (ap (λ x. x.checkpoint) same') differ))
  where
    stays : r.checkpoint ≡ run.checkpoint → str_eq r.checkpoint run.checkpoint ≡ false → ⊥
    stays c differ = ground (arith, eq_iff r.checkpoint run.checkpoint)
unless_stuck-Exits run_id k run (some r) w i h e (inr (r', same, status, moved)) loop =
    let same' : r' ≡ r = cc in
    let moved' =
      subst (λ x. (x.checkpoint ≡ "wave_queued") ⊎ (x.checkpoint ≡ "wave_completed")) same' moved in
    if_both {A = M LoopExit} (λ m. Exits run_id (m w)) (str_eq r.checkpoint run.checkpoint)
      (λ _. tt) (λ differ. loop r e (rank_drop run.checkpoint r.checkpoint k i h moved' differ))

wave_loop-Exits' :
    (k : ℕ) (run_id : String) (run : Run) (w : World)
    → get_run w.store run_id ≡ some run
    → rank run.checkpoint ≤ k
    → Exits run_id (wave_loop k run_id run w)
unfolding wave_loop
wave_loop-Exits' zero run_id run w e h =
    rw (rank-in_waves run.checkpoint (omega arith)) (rank-in_waves run.checkpoint (omega arith), e)
wave_loop-Exits' (suc k) run_id run w e h = elim (Bool-cases (in_waves run.checkpoint)) [
  | inr out ↦ rw out (out, e)
  | inl inside ↦ rw inside (
      go inside (advance_wave_execution run w) (advance_wave_execution-Moved run_id run w)
        (wave_loop-Exits' k run_id))
]
  where
    go :
        in_waves run.checkpoint ≡ true
        → (r : Result (Unit {0}) × World)
        → Moved (get_run w.store run_id) (get_run r.1.store run_id)
        → ((r' : Run) (w' : World)
            → get_run w'.store run_id ≡ some r'
            → rank r'.checkpoint ≤ k
            → Exits run_id (wave_loop k run_id r' w'))
        → Exits run_id (
            and_then r
              (λ _ v. unless_stuck run.checkpoint (get_run v.store run_id) (wave_loop k run_id) v))
    go inside (err x, w') m loop = tt
    go inside (ok u, w') m loop =
        unless_stuck-Exits run_id k run (get_run w'.store run_id) w' inside h refl
          (subst (λ o. Moved o (get_run w'.store run_id)) e m) (λ r'. loop r' w')

rank-le : (c : String) → rank c ≤ loop_fuel
rank-le c = ground arith

-- From the run that the store holds, the loop's fuel is never used up: the loop raises, or returns, or
-- is left at a checkpoint outside the waves with the run that the store then holds.
pub wave_loop-Exits :
    (run_id : String) (run : Run) (w : World)
    → get_run w.store run_id ≡ some run
    → Exits run_id (wave_loop loop_fuel run_id run w)
wave_loop-Exits run_id run w e = wave_loop-Exits' loop_fuel run_id run w e (rank-le run.checkpoint)
