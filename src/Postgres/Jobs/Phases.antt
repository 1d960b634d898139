-- ===== src/Postgres/Jobs/Phases.antt =====
-- dev_orchestrator/v8/store_pg.py: the queue that the methods on `jobs` implement, which knows of a job
-- only whether it waits, who holds it until when, or that it is over.
use async_native_ai_orchestr.Prelude.{
  ℕ, ◌+◌, String, ◌≡◌, Bool, true, List, [], ◌∷◌, Option, none, some,
}
use async_native_ai_orchestr.Models.Kind.{PackageRole}
use async_native_ai_orchestr.Models.Status.{
  JobStatus, queued, leased, running, completed, retry, dead_letter, cancelled, paused,
}
use async_native_ai_orchestr.Json.{Json}
use async_native_ai_orchestr.Store.Jobs.{Job, seconds, lease_before}
use async_native_ai_orchestr.Store.Jobs.History.{
  Op, enqueues, claims, starts, finishes, fails, beats, requeues,
}

pub data Phase : Type 0 where
  waiting : Phase
  held : (worker_id : String) (until : Option ℕ) → Phase
  over : Phase
  -- Cancelled or paused.
  idle : Phase

abbrev pub phase_by : JobStatus → (worker_id : String) (until : Option ℕ) → Phase
phase_by queued w u = waiting
phase_by retry w u = waiting
phase_by leased w u = held w u
phase_by running w u = held w u
phase_by completed w u = over
phase_by dead_letter w u = over
phase_by cancelled w u = idle
phase_by paused w u = idle

abbrev pub phase : Job → Phase
phase j = phase_by j.status j.worker_id j.lease_until

abbrev pub phase_of : Option Job → Option Phase
phase_of none = none
phase_of (some j) = some (phase j)

-- What one call may do to the job of an identifier: the calls that name a job move that one only.
pub data Moves : Op → (id : String) → Option Phase → Option Phase → Type 0 where
  stays : {o : Op} {i : String} {p : Option Phase} → Moves o i p p
  arrives : {j : Job} {now : ℕ} → Moves (enqueues j now) j.id none (some waiting)
  is_taken :
      {t i : String} {r : PackageRole} {w : String} {ls now : ℕ}
      → Moves (claims t r w ls now) i (some waiting) (some (held w (some (now + seconds ls))))
  is_started :
      {i w : String} {ls now : ℕ} {u : Option ℕ}
      → Moves (starts i w ls now) i (some (held w u)) (some (held w (some (now + seconds ls))))
  is_extended :
      {i w : String} {ls now : ℕ} {u : Option ℕ}
      → Moves (beats i w ls now) i (some (held w u)) (some (held w (some (now + seconds ls))))
  is_finished :
      {i w : String} {res : Json} {now : ℕ} {u : Option ℕ}
      → Moves (finishes i w res now) i (some (held w u)) (some over)
  is_retried :
      {i w e : String} {now : ℕ} {u : Option ℕ}
      → Moves (fails i w e true now) i (some (held w u)) (some waiting)
  is_given_up :
      {i w e : String} {retryable : Bool} {now : ℕ} {u : Option ℕ}
      → Moves (fails i w e retryable now) i (some (held w u)) (some over)
  expires_back :
      {t i w : String} {now : ℕ} {u : Option ℕ}
      → lease_before u now ≡ true
      → Moves (requeues t now) i (some (held w u)) (some waiting)
  expires_out :
      {t i w : String} {now : ℕ} {u : Option ℕ}
      → lease_before u now ≡ true
      → Moves (requeues t now) i (some (held w u)) (some over)

-- One call after another, for the job of one identifier.
pub data Runs (id : String) : List Op → Option Phase → Option Phase → Type 0 where
  ends : {p : Option Phase} → Runs id [] p p
  goes_on :
      {o : Op} {os : List Op} {p q r : Option Phase}
      → Moves o id p q
      → Runs id os q r
      → Runs id (o ∷ os) p r
