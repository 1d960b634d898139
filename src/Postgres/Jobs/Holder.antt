-- ===== src/Postgres/Jobs/Holder.antt =====
-- dev_orchestrator/v8/store_pg.py: how long a worker keeps a job.
use async_native_ai_orchestr.Prelude.{
  ℕ, ◌+◌, String, ◌≡◌, refl, Bool, true, false, List, Option, none, some, arith, str_eq, eq_iff,
  All,
}
use async_native_ai_orchestr.Prelude.Dict.{Dict, get}
use async_native_ai_orchestr.Models.Status.{JobStatus, leased, running}
use async_native_ai_orchestr.Store.Jobs.{Job, seconds}
use async_native_ai_orchestr.Store.Jobs.Keyed.{IsKeyed}
use async_native_ai_orchestr.Store.Jobs.History.{
  Op, enqueues, claims, starts, finishes, fails, beats, requeues,
}
use async_native_ai_orchestr.Postgres.Jobs.{is_held}
use async_native_ai_orchestr.Postgres.Jobs.History.{run, AllFree, AllAllowed}
use async_native_ai_orchestr.Postgres.Jobs.Phases.{
  Phase, phase_by, held, phase_of, Moves, stays, arrives, is_taken, is_started, is_extended,
  is_finished, is_retried, is_given_up, expires_back, expires_out, Runs, ends, goes_on,
}
use async_native_ai_orchestr.Postgres.Jobs.Refines.{run-Runs}

-- Whether the call can take a job from the worker.
abbrev pub takes_from : String → Op → Bool
takes_from w (finishes i w' res now) = str_eq w' w
takes_from w (fails i w' e retryable now) = str_eq w' w
takes_from w (requeues t now) = true
takes_from w (enqueues j now) = false
takes_from w (claims t r w' ls now) = false
takes_from w (starts i w' ls now) = false
takes_from w (beats i w' ls now) = false

abbrev IsHeldBy : String → Option Phase → Type 0
IsHeldBy w p = (u : Option ℕ) × (p ≡ some (held w u))

same_worker : (w w' : String) (u u' : Option ℕ) → some (held w' u') ≡ some (held w u) → w' ≡ w
same_worker w w' u u' e = cc

Moves-IsHeldBy :
    {o : Op} {i : String} {p q : Option Phase} (w : String)
    → Moves o i p q
    → IsHeldBy w p
    → takes_from w o ≡ false
    → IsHeldBy w q
Moves-IsHeldBy w stays h t = h
Moves-IsHeldBy w arrives (u, e) t = absurd (cc)
Moves-IsHeldBy w is_taken (u, e) t = absurd (cc)
Moves-IsHeldBy w (is_started {ls = ls} {now = now}) (u, e) t =
    (some (now + seconds ls), rw (same_worker _ _ _ _ e) refl)
Moves-IsHeldBy w (is_extended {ls = ls} {now = now}) (u, e) t =
    (some (now + seconds ls), rw (same_worker _ _ _ _ e) refl)
Moves-IsHeldBy w (is_finished {w = w'}) (u, e) t =
    absurd (ground (arith, eq_iff w' w, same_worker _ _ _ _ e))
Moves-IsHeldBy w (is_retried {w = w'}) (u, e) t =
    absurd (ground (arith, eq_iff w' w, same_worker _ _ _ _ e))
Moves-IsHeldBy w (is_given_up {w = w'}) (u, e) t =
    absurd (ground (arith, eq_iff w' w, same_worker _ _ _ _ e))
Moves-IsHeldBy w (expires_back late) (u, e) t = absurd (cc)
Moves-IsHeldBy w (expires_out late) (u, e) t = absurd (cc)

Runs-IsHeldBy :
    {i : String} {os : List Op} {p q : Option Phase} (w : String)
    → Runs i os p q
    → IsHeldBy w p
    → All (λ o. takes_from w o ≡ false) os
    → IsHeldBy w q
Runs-IsHeldBy w ends h t = h
Runs-IsHeldBy w (goes_on moved rest) h (t, ts) =
    Runs-IsHeldBy w rest (Moves-IsHeldBy w moved h t) ts

held-phase_by :
    (s : JobStatus) (w w' : String) (u u' : Option ℕ)
    → phase_by s w' u' ≡ held w u
    → (is_held s ≡ true) × (w' ≡ w)
held-phase_by leased w w' u u' e = (refl, cc)
held-phase_by running w w' u u' e = (refl, cc)
held-phase_by _ w w' u u' e = absurd (cc)

phase_by-held :
    (s : JobStatus) (w w' : String) (u : Option ℕ)
    → is_held s ≡ true
    → w' ≡ w
    → phase_by s w' u ≡ held w u
phase_by-held leased w w' u h e = rw e refl
phase_by-held running w w' u h e = rw e refl
phase_by-held _ w w' u h e = absurd (cc)

row-IsHeldBy :
    (w : String) (o : Option Job)
    → IsHeldBy w (phase_of o)
    → (j : Job) × (o ≡ some j) × (is_held j.status ≡ true) × (j.worker_id ≡ w)
row-IsHeldBy w none (u, e) = absurd (cc)
row-IsHeldBy w (some j) (u, e) =
    let (h, by) = held-phase_by j.status w j.worker_id u j.lease_until (cc) in (j, refl, h, by)

-- A job that a worker holds stays that worker's through every sequence of calls in which the worker
-- neither finishes nor fails a job and no expired jobs are requeued, whatever all other workers claim,
-- start, finish, fail and keep alive. The calls respect what the refinement of the queue asks of them.
pub run-is_held :
    (m : Dict Job) (os : List Op) (i w : String) (j : Job)
    → IsKeyed m
    → AllFree m
    → AllAllowed m os
    → get i m ≡ some j
    → is_held j.status ≡ true
    → j.worker_id ≡ w
    → All (λ o. takes_from w o ≡ false) os
    → (j' : Job) × (get i (run m os) ≡ some j') × (is_held j'.status ≡ true) × (j'.worker_id ≡ w)
run-is_held m os i w j v f ok there h by calm =
    let before : IsHeldBy w (phase_of (get i m)) =
      rw (there, phase_by-held j.status w j.worker_id j.lease_until h by) (j.lease_until, refl) in
    row-IsHeldBy w _ (Runs-IsHeldBy w (run-Runs m os i v f ok) before calm)
