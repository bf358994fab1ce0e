-- ===== src/Agent/Shell/Answers.antt =====
-- What the remote terminal answers, and for how long the driver waits for it.
use cluster_mesh.Prelude.{
  ℕ, ◌+◌, ◌≤◌, ◌<◌, String, Bool, true, false, Option, none, some, List, [], ◌∷◌, ◌==◌, length,
  arith, ◌≡◌, ◌≢◌, refl, sym, ◌∙◌, ◌↔◌, ◌⊎◌, inl, inr, Bool-cases, Option-cases,
}
use cluster_mesh.Prelude.Int.{ℤ, pos, negsuc}
use cluster_mesh.Prelude.Text.{strip}
use cluster_mesh.Agent.Shell.{
  Output, text, Ending, ended, timed_out, raised, System, truncate_captured, max_output, bounded,
  result_of, directory, run_shell_command, ShellRequest, ShellResponse, or_sixty, run_shell_request,
  response, field, deadline,
}

-- More than a terminal's answer holds.
abbrev pub IsLong : Option (List ℕ) → Type 0
IsLong none = ⊥
IsLong (some l) = max_output < length l

truncate_captured_raises_iff : (l : Option (List ℕ)) → (truncate_captured l ≡ none) ↔ IsLong l
unfolding truncate_captured
truncate_captured_raises_iff none = ground arith
truncate_captured_raises_iff (some []) = ground arith
truncate_captured_raises_iff (some (b ∷ bs)) = ground arith

-- The command was killed with too much captured.
abbrev pub IsFlooded : Ending → Type 0
IsFlooded (timed_out out err) = IsLong out ⊎ IsLong err
IsFlooded _ = ⊥

result_of_raises_iff :
    (shown : ℤ → String) (timeout duration : ℕ) (e : Ending)
    → (result_of shown timeout duration e ≡ none) ↔ IsFlooded e
unfolding result_of
result_of_raises_iff shown timeout duration (ended returncode out err) = ground arith
result_of_raises_iff shown timeout duration (timed_out out err) =
    let left = truncate_captured_raises_iff out in
    let right = truncate_captured_raises_iff err in
    elim (Option-cases (truncate_captured out)) [
      | inl e ↦ rw e ((λ _. inl (left.0 e)), (λ _. refl))
      | inr (o, e) ↦ elim (Option-cases (truncate_captured err)) [
        | inl f ↦ rw (e, f) ((λ _. inr (right.0 f)), (λ _. refl))
        | inr (o', f) ↦
            rw (e, f)
              (
                (λ h. absurd (cc h)),
                (λ h. elim h [
                  | inl l ↦ absurd (cc (e, left.1 l))
                  | inr l ↦ absurd (cc (f, right.1 l))
                ]),
              )
      ]
    ]
result_of_raises_iff shown timeout duration (raised message) = ground arith

pub distinct_answers : true ≢ false
distinct_answers h = cc h

-- What becomes of the process that is started for a command.
abbrev pub ending_of : {S : Type 0} → System S → String → String → ℤ → S → Ending
ending_of os command working_dir timeout_seconds s =
    (os.run (strip command) (directory os working_dir s) (bounded timeout_seconds) s).0

-- run_shell_command raises an exception, instead of answering, exactly when a command that is not
-- blank is killed at its timeout with more than max_output bytes captured of its output or of its
-- errors.
pub run_shell_command_raises_iff :
    {S : Type 0} (os : System S) (command working_dir : String) (timeout_seconds : ℤ) (s : S)
    → ((run_shell_command os command working_dir timeout_seconds s).0 ≡ none) ↔ (
        ((strip command == "") ≡ false)
        × IsFlooded (ending_of os command working_dir timeout_seconds s))
unfolding run_shell_command
run_shell_command_raises_iff os command working_dir timeout_seconds s =
    let timeout = bounded timeout_seconds in
    let answer = os.run (strip command) (directory os working_dir s) timeout s in
    let raises = result_of_raises_iff os.shown timeout answer.1 answer.0 in
    elim (Bool-cases (strip command == "")) [
      | inl blank ↦ rw blank ground arith
      | inr b ↦ rw b ((λ h. (refl, raises.0 h)), (λ h. raises.1 h.1))
    ]

abbrev pub IsSuccess : Ending → Type 0
IsSuccess (ended (pos n) out err) = n ≡ 0
IsSuccess _ = ⊥

abbrev pub says_ok : Option ShellResponse → Bool
says_ok none = false
says_ok (some r) = r.ok

failed_answer :
    (decode : List ℕ → Option String) (out err : Output) (message : String) (duration : ℕ)
    → says_ok (
        response decode (
          some (record {
            ok = false;
            exit_code = negsuc 0;
            stdout = out;
            stderr = err;
            message = message;
            duration_seconds = duration;
          })))
      ≡ false
unfolding response
failed_answer decode out err message duration = elim (Option-cases (field decode out)) [
  | inl e ↦ rw e refl
  | inr (o, e) ↦ elim (Option-cases (field decode err)) [
    | inl f ↦ rw (e, f) refl
    | inr (o', f) ↦ rw (e, f) refl
  ]
]

response-result_of_ok_iff :
    (decode : List ℕ → Option String) (shown : ℤ → String) (timeout duration : ℕ) (e : Ending)
    → (says_ok (response decode (result_of shown timeout duration e)) ≡ true) ↔ IsSuccess e
unfolding response field result_of
response-result_of_ok_iff decode shown timeout duration (ended (pos n) out err) = ground arith
response-result_of_ok_iff decode shown timeout duration (ended (negsuc n) out err) = ground arith
response-result_of_ok_iff decode shown timeout duration (timed_out out err) =
    elim (Option-cases (truncate_captured out)) [
      | inl e ↦ rw e ((λ h. absurd (cc h)), absurd)
      | inr (o, e) ↦ elim (Option-cases (truncate_captured err)) [
        | inl f ↦ rw (e, f) ((λ h. absurd (cc h)), absurd)
        | inr (o', f) ↦
            rw (e, f)
              (
                (λ h. absurd (distinct_answers (sym h ∙ failed_answer decode o o' _ duration))),
                absurd,
              )
      ]
    ]
response-result_of_ok_iff decode shown timeout duration (raised message) = ground arith

-- The agent answers a request with ok exactly when the command is not blank and its process ends with
-- the return code 0 within its time.
pub run_shell_request_ok_iff :
    {S : Type 0} (os : System S) (decode : List ℕ → Option String) (request : ShellRequest) (s : S)
    → (says_ok (run_shell_request decode os request s).0 ≡ true) ↔ (
        ((strip request.command == "") ≡ false)
        × IsSuccess
            (ending_of os request.command request.working_dir (or_sixty request.timeout_seconds) s))
unfolding run_shell_request run_shell_command
run_shell_request_ok_iff os decode request s =
    let timeout = bounded (or_sixty request.timeout_seconds) in
    let answer = os.run (strip request.command) (directory os request.working_dir s) timeout s in
    let succeeds = response-result_of_ok_iff decode os.shown timeout answer.1 answer.0 in
    elim (Bool-cases (strip request.command == "")) [
      | inl blank ↦ rw blank (
        (λ h. absurd (
            distinct_answers (sym h ∙ failed_answer decode (text "") (text "") "empty command" 0))),
        (λ h. absurd (distinct_answers h.0)),
      )
      | inr b ↦ rw b ((λ h. (refl, succeeds.0 h)), (λ h. succeeds.1 h.1))
    ]

-- The time that a command gets lies between one second and five minutes, and the driver waits at
-- least five seconds longer for the agent's answer, whatever time was asked for.
pub deadline-bounded :
    (timeout : ℤ)
    → (1 ≤ bounded (or_sixty timeout))
      × (bounded (or_sixty timeout) ≤ 300)
      × (bounded (or_sixty timeout) + 5 ≤ deadline timeout)
unfolding bounded deadline
deadline-bounded (pos n) = ground arith
deadline-bounded (negsuc n) = ground arith
