-- ===== src/Kernel/Reports.antt =====
-- dev_orchestrator/v8/kernel.py and dev_orchestrator/v8/mission.py: the summary of events, the recovery trace
-- and the counts.
use Prim.Native.Char.{code}
use Prim.Native.String.{◌∷◌ as cons_char}
use async_native_ai_orchestr.Prelude.{
  ℕ, ◌+◌, max, String, ◌≡◌, refl, Bool, true, false, ◌&&◌, ◌||◌, List, [], ◌∷◌, map, arith, ltb,
  leb, ◌==◌, str_eq, str_append, keep, length, or_else, if◌then◌else◌,
}
use async_native_ai_orchestr.Prelude.Dict.{Dict, get, put}
use async_native_ai_orchestr.Text.{take_chars, contains}
use async_native_ai_orchestr.Models.Status.{RunStatus, job_status_value}
use async_native_ai_orchestr.Models.Kind.{JobType, PackageRole}
use async_native_ai_orchestr.Store.Jobs.{Job}
use async_native_ai_orchestr.Store.Records.{
  Run, ContinuationState, Event, EventPayload, created, transition, Artifact, WorkPackage,
}
use async_native_ai_orchestr.Kernel.{
  has_status_dead_letter, has_status_retry, take_last, take_first, text_or,
}

-- `(event.get("payload") or {}).get("event_type") or ""`
abbrev pub payload_kind : EventPayload → String
payload_kind (created project_id profile) = ""
payload_kind (transition t) = "mission_state_changed"

-- `_event_kind`: a dumped event has no member `kind`.
abbrev pub event_kind : Event → String
event_kind e = text_or e.event_type (payload_kind e.payload)

-- `_compact_event`: a dumped event has neither a status nor a checkpoint, which are empty.
pub record CompactEvent : Type 0 where
  pub event_type : String
  pub sequence : ℕ
  pub created_at : ℕ
  pub run_id : String

abbrev pub compact_event : Event → CompactEvent
compact_event e = record {
  event_type = event_kind e;
  sequence = e.sequence;
  created_at = e.created_at;
  run_id = e.run_id;
}

-- The order of the pairs of sequence and time.
abbrev pub comes_before : Event → Event → Bool
comes_before a b =
    ltb a.sequence b.sequence || ((a.sequence == b.sequence) && leb a.created_at b.created_at)

-- `_sorted_events`
unfoldable pub insert_sorted : Event → List Event → List Event
insert_sorted e [] = e ∷ []
insert_sorted e (f ∷ fs) = if comes_before e f then e ∷ f ∷ fs else f ∷ insert_sorted e fs

unfoldable pub sorted_events : List Event → List Event
sorted_events [] = []
sorted_events (e ∷ es) = insert_sorted e (sorted_events es)

-- `counts[value] = counts.get(value, 0) + 1`
abbrev pub count_one : String → Dict ℕ → Dict ℕ
count_one k counts = put k (or_else (get k counts) 0 + 1) counts

-- The loop of `_counts` and of `Counter`, over the values of the key.
unfoldable pub counts_from : Dict ℕ → List String → Dict ℕ
counts_from counts [] = counts
counts_from counts (k ∷ ks) = counts_from (count_one k counts) ks

-- `_counts`, of texts that may be empty.
abbrev pub or_unknown : String → String
or_unknown value = text_or value "unknown"

unfoldable pub counts : List String → Dict ℕ
counts ks = counts_from [] (map or_unknown ks)

-- `str` of a member of the enumeration is its qualified name.
abbrev pub job_counts : List Job → Dict ℕ
job_counts jobs = counts (map (λ j. str_append "JobStatus." (job_status_value j.status)) jobs)

abbrev pub package_counts : List WorkPackage → Dict ℕ
package_counts ps = counts (map (λ p. str_append "JobStatus." (job_status_value p.status)) ps)

abbrev pub artifact_counts : List Artifact → Dict ℕ
artifact_counts xs = counts (map (λ a. a.kind) xs)

-- Texts in the order of their characters' codes.
abbrev pub str_leb : String → String → Bool
str_leb String.[] t = true
str_leb (cons_char c s) String.[] = false
str_leb (cons_char c s) (cons_char d t) =
    let rest = str_leb s t in ltb (code c) (code d) || ((code c == code d) && rest)

-- `dict(sorted(counts.items()))`
unfoldable pub insert_count : String × ℕ → Dict ℕ → Dict ℕ
insert_count c [] = c ∷ []
insert_count c (d ∷ ds) = if str_leb c.0 d.0 then c ∷ d ∷ ds else d ∷ insert_count c ds

unfoldable pub sort_counts : Dict ℕ → Dict ℕ
sort_counts [] = []
sort_counts (c ∷ cs) = insert_count c (sort_counts cs)

pub record EventSummary : Type 0 where
  pub count : ℕ
  pub by_kind : Dict ℕ
  pub latest : List CompactEvent
  pub state_transitions : List CompactEvent

unfoldable pub summarize_events : List Event → (limit : ℕ) → EventSummary
summarize_events events limit =
    let ordered = sorted_events events in
    let transitions = keep (λ e. str_eq (event_kind e) "mission_state_changed") ordered in
    record {
      count = length ordered;
      by_kind = sort_counts (counts_from [] (map event_kind ordered));
      latest = map compact_event (take_last (max 1 limit) ordered);
      state_transitions = take_last (max 1 limit) (map compact_event transitions);
    }

pub record DeadLetter : Type 0 where
  pub job_id : String
  pub job_type : JobType
  pub error : String

pub record RecoveryTrace : Type 0 where
  pub run_id : String
  pub status : RunStatus
  pub dead_letter_count : ℕ
  pub retry_count : ℕ
  pub recovery_event_count : ℕ
  pub dead_letters : List DeadLetter
  pub continuation : ContinuationState

abbrev pub dead_letter_of : Job → DeadLetter
dead_letter_of j = record { job_id = j.id; job_type = j.job_type; error = j.last_error }

unfoldable pub build_recovery_trace : Run → List Job → List Event → RecoveryTrace
build_recovery_trace run jobs events =
    let dead_letters = keep has_status_dead_letter jobs in
    record {
      run_id = run.id;
      status = run.status;
      dead_letter_count = length dead_letters;
      retry_count = length (keep has_status_retry jobs);
      recovery_event_count = length (keep (λ e. contains (event_kind e) "recover") events);
      dead_letters = map dead_letter_of (take_first 20 dead_letters);
      continuation = run.continuation;
    }

-- `_job_ref`
pub record JobRef : Type 0 where
  pub id : String
  pub job_type : JobType
  pub role : PackageRole
  pub attempts : ℕ
  pub max_attempts : ℕ
  pub last_error : String

abbrev pub job_ref : Job → JobRef
job_ref j = record {
  id = j.id;
  job_type = j.job_type;
  role = j.role;
  attempts = j.attempts;
  max_attempts = j.max_attempts;
  last_error = take_chars 300 j.last_error;
}

-- The sum of the counts.
abbrev pub total : Dict ℕ → ℕ
total [] = 0
total ((k, n) ∷ m) = n + total m

count_one-total : (k : String) (m : Dict ℕ) → total (count_one k m) ≡ total m + 1
unfolding get put
count_one-total k [] = refl
count_one-total k ((i, n) ∷ m) = ground (arith, count_one-total k m)

counts_from-total : (m : Dict ℕ) (ks : List String) → total (counts_from m ks) ≡ total m + length ks
unfolding counts_from
counts_from-total m [] = omega arith
counts_from-total m (k ∷ ks) =
    omega (arith, counts_from-total (count_one k m) ks, count_one-total k m)

insert_count-total : (c : String × ℕ) (m : Dict ℕ) → total (insert_count c m) ≡ c.1 + total m
unfolding insert_count
insert_count-total c [] = refl
insert_count-total c (d ∷ ds) = ground (arith, insert_count-total c ds)

sort_counts-total : (m : Dict ℕ) → total (sort_counts m) ≡ total m
unfolding sort_counts
sort_counts-total [] = refl
sort_counts-total (c ∷ cs) =
    omega (arith, insert_count-total c (sort_counts cs), sort_counts-total cs)

length-insert_sorted : (e : Event) (es : List Event) → length (insert_sorted e es) ≡ length es + 1
unfolding insert_sorted
length-insert_sorted e [] = refl
length-insert_sorted e (f ∷ fs) = ground (arith, length-insert_sorted e fs)

length-sorted_events : (es : List Event) → length (sorted_events es) ≡ length es
unfolding sorted_events
length-sorted_events [] = refl
length-sorted_events (e ∷ es) =
    omega (arith, length-insert_sorted e (sorted_events es), length-sorted_events es)

length-map {ℓ κ} :
    {A : Type ℓ} {B : Type κ} (f : A → B) (xs : List A) → length (map f xs) ≡ length xs
length-map f [] = refl
length-map f (x ∷ xs) = omega (arith, length-map f xs)

-- The summary of events counts every event once: the count is their number, and the counts by kind add
-- up to it.
pub summarize_events-total :
    (events : List Event) (limit : ℕ)
    → let s = summarize_events events limit in
      (s.count ≡ length events) × (total s.by_kind ≡ s.count)
unfolding summarize_events
summarize_events-total events limit =
    let ordered = sorted_events events in
    (
      length-sorted_events events,
      omega (
        arith,
        sort_counts-total (counts_from [] (map event_kind ordered)),
        counts_from-total [] (map event_kind ordered),
        length-map event_kind ordered,
      ),
    )
