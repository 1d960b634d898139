-- ===== src/Runtime/Commands.antt =====
-- dev_orchestrator/v8/runtime.py: `apply_commands`. What a command does when it is run is a parameter.
use async_native_ai_orchestr.Prelude.{
  ℕ, ◌≡◌, ◌∙◌, refl, String, Bool, not, List, [], ◌∷◌, any, keep, map, Bool-cases, inl, inr,
  if◌then◌else◌,
}
use async_native_ai_orchestr.Text.{lower, strip, contains}
use async_native_ai_orchestr.Result.{Error, Result, ok, err}
use async_native_ai_orchestr.Runtime.Validate.{concat}
use async_native_ai_orchestr.Errors.Numbers.{decimal}

-- `_DANGEROUS_PATTERNS`
abbrev pub dangerous_patterns : List String
dangerous_patterns = "rm -rf /" ∷ "rm -rf /*" ∷ "mkfs." ∷ "dd if=" ∷ "> /" ∷ ">> /" ∷ []

unfoldable pub is_dangerous : String → Bool
is_dangerous cmd = any (contains (strip (lower cmd))) dangerous_patterns

pub data ReturnCode : Type 0 where
  code : ℕ → ReturnCode
  -- A negative one.
  minus : ℕ → ReturnCode

pub record CommandResult : Type 0 where
  pub command : String
  pub returncode : ReturnCode
  pub stdout : String
  pub stderr : String

-- What comes of a command that is started: it ends, or is not supported here, or is killed after the
-- time-out, or is not started for an `OSError`, or another exception is raised.
pub data ShellOutcome : Type 0 where
  ends : ReturnCode → (stdout stderr : String) → ShellOutcome
  unsupported : ShellOutcome
  times_out : ShellOutcome
  os_error : String → ShellOutcome
  raises : Error → ShellOutcome

abbrev pub failed : (cmd stderr : String) → CommandResult
failed cmd text = record { command = cmd; returncode = minus 1; stdout = ""; stderr = text }

-- The entry of `results`, or the exception that leaves the loop.
unfoldable pub result_of : (cmd : String) (timeout : ℕ) → ShellOutcome → Result CommandResult
result_of cmd timeout (ends n out e) =
    ok (record { command = cmd; returncode = n; stdout = out; stderr = e })
result_of cmd timeout unsupported = ok (failed cmd "subprocess_not_supported_on_this_platform")
result_of cmd timeout times_out =
    ok (failed cmd (concat ("timed out after " ∷ decimal timeout ∷ "s" ∷ [])))
result_of cmd timeout (os_error exc) = ok (failed cmd exc)
result_of cmd timeout (raises e) = err e

abbrev pub refused_result : String → CommandResult
refused_result cmd = failed cmd "blocked: dangerous command detected"

-- The results name the commands, if they do so for the commands that follow.
abbrev pub Named : List String → Result (List CommandResult) → Type 0
Named cmds (ok rs) = map (λ (r : CommandResult). r.command) rs ≡ cmds
Named cmds (err e) = Unit

module _ {S : Type 0} where
  -- The results of the commands that follow, behind the one that is there.
  unfoldable pub and_then :
      Result CommandResult → S → Result (List CommandResult) × S → Result (List CommandResult) × S
  and_then (ok r) s (ok rs, s') = (ok (r ∷ rs), s')
  and_then (ok r) s (err e, s') = (err e, s')
  and_then (err e) s rest = (err e, s)

  and_then_state :
      (r : Result CommandResult) (s : S) (x y : Result (List CommandResult) × S)
      → x.1 ≡ y.1
      → (and_then r s x).1 ≡ (and_then r s y).1
  unfolding and_then
  and_then_state (ok r) s (ok a, u) (ok b, v) h = h
  and_then_state (ok r) s (ok a, u) (err f, v) h = h
  and_then_state (ok r) s (err e, u) (ok b, v) h = h
  and_then_state (ok r) s (err e, u) (err f, v) h = h
  and_then_state (err e) s x y h = refl

  passed_on :
      (r : CommandResult) (s : S) (x : Result (List CommandResult) × S)
      → (and_then (ok r) s x).1 ≡ x.1
  unfolding and_then
  passed_on r s (ok rs, s') = refl
  passed_on r s (err e, s') = refl

  and_then-Named :
      (cmd : String) (cmds : List String) (r : CommandResult) (s : S)
      (x : Result (List CommandResult) × S)
      → r.command ≡ cmd
      → Named cmds x.0
      → Named (cmd ∷ cmds) (and_then (ok r) s x).0
  unfolding and_then
  and_then-Named cmd cmds r s (ok rs, s') h k = cc
  and_then-Named cmd cmds r s (err e, s') h k = tt

  outcome-Named :
      (cmd : String) (cmds : List String) (timeout : ℕ) (o : ShellOutcome) (s : S)
      (x : Result (List CommandResult) × S)
      → Named cmds x.0
      → Named (cmd ∷ cmds) (and_then (result_of cmd timeout o) s x).0
  unfolding result_of and_then
  outcome-Named cmd cmds timeout (ends n out e) s x k = and_then-Named cmd cmds _ s x refl k
  outcome-Named cmd cmds timeout unsupported s x k = and_then-Named cmd cmds _ s x refl k
  outcome-Named cmd cmds timeout times_out s x k = and_then-Named cmd cmds _ s x refl k
  outcome-Named cmd cmds timeout (os_error exc) s x k = and_then-Named cmd cmds _ s x refl k
  outcome-Named cmd cmds timeout (raises e) s x k = tt

  module _ (shell : String → S → ShellOutcome × S) (timeout : ℕ) where
    unfoldable pub apply_commands : List String → S → Result (List CommandResult) × S
    apply_commands [] s = (ok [], s)
    apply_commands (cmd ∷ cmds) s =
        let (o, s') = shell cmd s in
        let refused = and_then (ok (refused_result cmd)) s (apply_commands cmds s) in
        let started = and_then (result_of cmd timeout o) s' (apply_commands cmds s') in
        if is_dangerous cmd then refused else started

    -- A command that contains a dangerous pattern is never run: the commands leave the world as those
    -- among them without such a pattern do. If no exception ends the loop, there is one result for each
    -- command, in order.
    pub apply_commands-refused :
        (cmds : List String) (s : S)
        → ((apply_commands cmds s).1
            ≡ (apply_commands (keep (λ cmd. not (is_dangerous cmd)) cmds) s).1)
          × Named cmds (apply_commands cmds s).0
    unfolding apply_commands
    apply_commands-refused [] s = (refl, refl)
    apply_commands-refused (cmd ∷ cmds) s = elim (Bool-cases (is_dangerous cmd)) [
      | inl bad ↦
          let (ih, names) = apply_commands-refused cmds s in
          rw bad (
            passed_on (refused_result cmd) s _ ∙ ih,
            and_then-Named cmd cmds (refused_result cmd) s _ refl names,
          )
      | inr fine ↦
          let (o, s') = shell cmd s in
          let (ih, names) = apply_commands-refused cmds s' in
          rw (fine, fine)
            (
              and_then_state (result_of cmd timeout o) s' _ _ ih,
              outcome-Named cmd cmds timeout o s' _ names,
            )
    ]
