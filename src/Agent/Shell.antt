-- ===== src/Agent/Shell.antt =====
-- The remote terminal of an agent: `run_shell_command` of mesh/agent/shell.py, RunShellCommand of
-- mesh/agent/server.py, and the call of it that the driver makes, `run_shell` of
-- mesh/driver/server.py. Times are thousandths of a second. The operating system is a parameter: what
-- a command does to its state `S`, and what the standard library's `subprocess` answers.
pub mod Answers
use Prim.Native.String.{count, ◌++◌}
use cluster_mesh.Prelude.{
  ℕ, ◌+◌, min, max, String, Bool, true, false, Option, none, some, List, [], ◌∷◌, ◌==◌, length, leb,
  eqb, ◌>>=◌, if◌then◌else◌,
}
use cluster_mesh.Prelude.Int.{ℤ, pos, negsuc}
use cluster_mesh.Prelude.Text.{strip, first_chars}

-- Text, or the bytes that `TimeoutExpired` holds whatever `text` says.
pub data Output : Type 0 where
  text : String → Output
  bytes : List ℕ → Output

pub record ShellResult : Type 0 where
  pub ok : Bool
  pub exit_code : ℤ
  pub stdout : Output
  pub stderr : Output
  pub message : String
  pub duration_seconds : ℕ

-- How `subprocess.run` ends: the command ended with a return code, it was killed at its timeout, or an
-- exception was raised.
pub data Ending : Type 0 where
  ended : (returncode : ℤ) (stdout stderr : Option String) → Ending
  timed_out : (stdout stderr : Option (List ℕ)) → Ending
  raised : String → Ending

pub record System (S : Type 0) : Type 0 where
  -- The command's ending, the time that it took, and the state that it leaves.
  pub run : (command directory : String) (timeout : ℕ) → S → Ending × ℕ × S
  pub is_directory : String → S → Bool
  pub home : String
  -- The decimal writing of a number.
  pub shown : ℤ → String

abbrev pub max_output : ℕ
max_output = 65_536

-- `_truncate` of text.
unfoldable pub truncate : (ℤ → String) → String → String
unfolding first_chars
truncate shown t =
    if leb (count t) max_output
    then t
    else first_chars max_output t ++ "\n… truncated (" ++ shown (pos (count t)) ++ " chars total)"

-- `_truncate` of what a killed command had written, `exc.stdout or ""`; none is the TypeError of
-- adding text to bytes.
unfoldable pub truncate_captured : Option (List ℕ) → Option Output
truncate_captured none = some (text "")
truncate_captured (some []) = some (text "")
truncate_captured (some (b ∷ bs)) =
    if leb (length (b ∷ bs)) max_output then some (bytes (b ∷ bs)) else none

-- `max(1, min(int(timeout_seconds or 60), 300))`
unfoldable pub bounded : ℤ → ℕ
bounded (pos n) = if eqb n 0 then 60 else max 1 (min n 300)
bounded (negsuc n) = 1

abbrev or_empty : Option String → String
or_empty none = ""
or_empty (some t) = t

abbrev failed_with : String → String → ℕ → ShellResult
failed_with stderr message duration = record {
  ok = false;
  exit_code = negsuc 0;
  stdout = text "";
  stderr = text stderr;
  message = message;
  duration_seconds = duration;
}

abbrev is_zero : ℤ → Bool
is_zero (pos n) = eqb n 0
is_zero (negsuc n) = false

-- What the `try` of `run_shell_command` makes of an ending; none is an exception that leaves it.
unfoldable pub result_of : (ℤ → String) → ℕ → ℕ → Ending → Option ShellResult
unfolding truncate truncate_captured
result_of shown timeout duration (ended returncode stdout stderr) =
    let ok = is_zero returncode in
    some (record {
      ok = ok;
      exit_code = returncode;
      stdout = text (truncate shown (or_empty stdout));
      stderr = text (truncate shown (or_empty stderr));
      message = if ok then "completed" else "exit " ++ shown returncode;
      duration_seconds = duration;
    })
result_of shown timeout duration (timed_out stdout stderr) = do
  out ← truncate_captured stdout
  err ← truncate_captured stderr
  some (record {
    ok = false;
    exit_code = negsuc 0;
    stdout = out;
    stderr = err;
    message = "timed out after " ++ shown (pos timeout) ++ "s";
    duration_seconds = duration;
  })
result_of shown timeout duration (raised message) = some (failed_with message message duration)

module _ {S : Type 0} (os : System S) where
  -- `working_dir.strip()` where that is a directory, else the home directory.
  abbrev pub directory : String → S → String
  directory working_dir s =
      let cwd = if strip working_dir == "" then os.home else strip working_dir in
      if os.is_directory cwd s then cwd else os.home

  unfoldable pub run_shell_command : String → String → ℤ → S → Option ShellResult × S
  unfolding bounded result_of
  run_shell_command command working_dir timeout_seconds s =
      let timeout = bounded timeout_seconds in
      let (ending, duration, after) = os.run (strip command) (directory working_dir s) timeout s in
      if strip command == ""
      then (some (failed_with "" "empty command" 0), s)
      else (result_of os.shown timeout duration ending, after)

-- RunShellCommand: its request, and what a protobuf field makes of bytes, which is the library's.
pub record ShellRequest : Type 0 where
  pub command : String
  pub working_dir : String
  pub timeout_seconds : ℤ

pub record ShellResponse : Type 0 where
  pub ok : Bool
  pub exit_code : ℤ
  pub stdout : String
  pub stderr : String
  pub message : String
  pub duration_seconds : ℕ

-- `timeout_seconds or 60`
abbrev pub or_sixty : ℤ → ℤ
or_sixty (pos n) = if eqb n 0 then pos 60 else pos n
or_sixty (negsuc n) = negsuc n

module _ (decode : List ℕ → Option String) where
  unfoldable pub field : Output → Option String
  field (text t) = some t
  field (bytes b) = decode b

  unfoldable pub response : Option ShellResult → Option ShellResponse
  unfolding field
  response result = do
    r ← result
    out ← field r.stdout
    err ← field r.stderr
    some (record {
      ok = r.ok;
      exit_code = r.exit_code;
      stdout = out;
      stderr = err;
      message = r.message;
      duration_seconds = r.duration_seconds;
    })

  -- None is an exception, which the caller sees as a failed call.
  unfoldable pub run_shell_request :
      {S : Type 0} → System S → ShellRequest → S → Option ShellResponse × S
  unfolding response
  run_shell_request os request s =
      let (result, after) =
        run_shell_command os request.command request.working_dir (or_sixty request.timeout_seconds)
          s in
      (response result, after)

-- `max(10, (req.timeout_seconds or 60) + 5)`: how long the driver waits for the agent's answer.
unfoldable pub deadline : ℤ → ℕ
deadline (pos n) = if eqb n 0 then 65 else max 10 (n + 5)
deadline (negsuc n) = 10
