-- ===== src/Runner/Check.antt =====
-- src/jvc/execution/runner.py: `run_declared_check`.
use jvc_core.Base.{
  ℕ, suc, Bool, true, false, ◌&&◌, Option, none, some, List, [], ◌∷◌, ◌++◌, Text, Bytes, Dict,
  codes, get, contains, ◌==◌, opt_eq, casefold, strip, upper, has_infix,
}
use jvc_core.Exec.{Result, ok, err, Exec}
use jvc_core.Authority.Keys.{Error, Pin, resolve_trusted_executable}
use jvc_core.Contracts.Json.{ℤ, pos, Json, ◌>>=◌}
use jvc_core.Contracts.Runtime.{
  Process, finished, timed_out, failed_to_start, undecodable_output, null_in_argument,
}
use jvc_core.Contracts.Check.{equals_code}
use jvc_core.Runner.Environment.{Host, default, build_safe_subprocess_env}

-- A check of the manifest; `none` for a key that is not there.
pub record Spec : Type 0 where
  pub project_id : Option Text
  pub check_id : Option Text
  pub cwd : Option Text
  pub executable : Option Text
  pub executable_path : Option Text
  pub executable_sha256 : Option Text
  pub child_executables : Dict Pin
  pub executed_files : Dict Text
  pub argv : List Text
  pub timeout_seconds : Option ℕ
  pub expected_exit : Option ℤ
  pub expected_contains : Option Text

pub data Refusal : Type 0 where
  unknown_check unreadable identity_mismatch cwd_mismatch path_mismatch hash_mismatch empty_argv :
      Refusal
  untrusted : Error → Refusal
  -- `UnicodeDecodeError` and `ValueError` of `subprocess.run`
  undecodable null_byte : Refusal
  child_path_mismatch child_hash_mismatch file_missing file_mismatch : Text → Refusal

-- A process that was started: its arguments, its directory, its timeout and its environment.
pub record Started : Type 0 where
  pub command : List Text
  pub directory : Text
  pub timeout : ℕ
  pub environment : Dict Text

pub data CheckError : Type 0 where
  timeout_expired execution_failed : CheckError

pub record CheckResult : Type 0 where
  pub project_id : Text
  pub check_id : Text
  pub argv : List Text
  pub error : Option CheckError
  pub exit_code : Option ℤ
  pub passed : Bool

abbrev pub require : Bool → Refusal → Result Refusal (Unit {0})
require true e = ok tt
require false e = err e

abbrev pub trusted_or : Result Error Text → Result Refusal Text
trusted_or (ok path) = ok path
trusted_or (err e) = err (untrusted e)

-- `timeout or int(...)`
abbrev pub limit_of : Option ℕ → Option ℕ → ℕ
limit_of (some (suc n)) declared = suc n
limit_of _ none = 60
limit_of _ (some n) = n

abbrev pub exit_of : Option ℤ → ℤ
exit_of none = pos 0
exit_of (some code) = code

-- `marker is None or str(marker) in output`
abbrev pub has_marker : Option Text → Text → Bool
has_marker none output = true
has_marker (some marker) output = has_infix marker output

abbrev pub is_nonempty : List Text → Bool
is_nonempty [] = false
is_nonempty (a ∷ rest) = true

abbrev pub tail : List Text → List Text
tail [] = []
tail (a ∷ rest) = rest

abbrev pub is_known : Text → Bool
is_known cid = contains cid (codes "preflight" ∷ codes "verify" ∷ [])

abbrev pub has_identity : Text → Text → Spec → Bool
has_identity project_id cid spec =
    opt_eq spec.project_id (some project_id) && opt_eq spec.check_id (some cid)

abbrev pub check_name : Text → Text
check_name check_id = strip (casefold check_id)

module _ (h : Host) where
  abbrev pub sha256_of : Option Bytes → Result Refusal Text
  sha256_of none = err unreadable
  sha256_of (some content) = ok (upper (h.hexdigest content))

  unfoldable pub sha256_file : Text → Result Refusal Text
  sha256_file path = sha256_of (get path h.files)

  abbrev pub find_executable : Text → Dict Pin → Result Refusal Text
  find_executable name trusted =
      trusted_or (resolve_trusted_executable h.resolve h.hexdigest h.files name trusted)

  abbrev pub is_same_path : Text → Text → Bool
  is_same_path path declared = casefold path == casefold (h.resolve declared)

  unfoldable pub check_child : Dict Pin → Text → Pin → Result Refusal Text
  unfolding sha256_file
  check_child trusted name pin = do
    child ← find_executable name trusted
    _ ← require (is_same_path child pin.path) (child_path_mismatch name)
    hash ← sha256_file child
    _ ← require (hash == upper pin.sha256) (child_hash_mismatch name)
    ok (h.parent child)

  -- The directories of the child executables, each of which has its pinned path and content.
  unfoldable pub check_children : Dict Pin → Dict Pin → Result Refusal (List Text)
  unfolding check_child
  check_children trusted [] = ok []
  check_children trusted ((name, pin) ∷ children) = do
    directory ← check_child trusted name pin
    rest ← check_children trusted children
    ok (directory ∷ rest)

  abbrev pub check_file : Text → Text → Option Bytes → Result Refusal (Unit {0})
  check_file relative expected none = err (file_missing relative)
  check_file relative expected (some content) =
      require (upper (h.hexdigest content) == upper expected) (file_mismatch relative)

  unfoldable pub check_files : Text → Dict Text → Result Refusal (Unit {0})
  check_files root [] = ok tt
  check_files root ((relative, expected) ∷ rest) = do
    _ ← check_file relative expected (get (h.resolve (h.join root relative)) h.files)
    check_files root rest

  -- The checks before the run: the executable, and the directories of the PATH.
  unfoldable pub check_pins :
      Text → Text → Spec → Text → Dict Pin → Result Refusal (Text × List Text)
  unfolding check_children check_files
  check_pins project_id cid spec root trusted = do
    _ ← require (is_known cid) unknown_check
    _ ← require (has_identity project_id cid spec) identity_mismatch
    _ ← require (h.resolve root == h.resolve (default spec.cwd [])) cwd_mismatch
    exe ← find_executable (casefold (default spec.executable [])) trusted
    _ ← require (is_same_path exe (default spec.executable_path [])) path_mismatch
    hash ← sha256_file exe
    _ ← require (hash == upper (default spec.executable_sha256 [])) hash_mismatch
    directories ← check_children trusted spec.child_executables
    _ ← check_files root spec.executed_files
    _ ← require (is_nonempty spec.argv) empty_argv
    ok (exe, h.parent exe ∷ directories)

  abbrev pub unfinished : Text → Text → Spec → CheckError → CheckResult
  unfinished project_id cid spec e = record {
    project_id = project_id;
    check_id = cid;
    argv = spec.argv;
    error = some e;
    exit_code = none;
    passed = false;
  }

  abbrev pub check_result : Text → Text → Spec → Process → Result Refusal CheckResult
  check_result project_id cid spec (finished code out error) = ok (record {
    project_id = project_id;
    check_id = cid;
    argv = spec.argv;
    error = none;
    exit_code = some code;
    passed =
        equals_code code (Json.int (exit_of spec.expected_exit))
        && has_marker spec.expected_contains (out ++ error);
  })
  check_result project_id cid spec timed_out = ok (unfinished project_id cid spec timeout_expired)
  check_result project_id cid spec failed_to_start =
      ok (unfinished project_id cid spec execution_failed)
  check_result project_id cid spec undecodable_output = err undecodable
  check_result project_id cid spec null_in_argument = err null_byte

  -- Arguments with a null character are refused before a process is started.
  abbrev pub log_run : Process → Started → List Started → List Started
  log_run null_in_argument s log = log
  log_run _ s log = log ++ s ∷ []

  abbrev pub started : Spec → Text → Option ℕ → Text → List Text → Started
  started spec root timeout exe directories = record {
    command = exe ∷ tail spec.argv;
    directory = root;
    timeout = limit_of timeout spec.timeout_seconds;
    environment = build_safe_subprocess_env h directories true;
  }

  abbrev pub run_started : Started → Process
  run_started s = h.run s.command s.directory s.timeout s.environment

  abbrev pub run_pinned :
      Text
      → Text
      → Spec
      → Text
      → Option ℕ
      → Result Refusal (Text × List Text)
      → Exec Refusal (List Started) CheckResult
  run_pinned project_id cid spec root timeout (err e) log = (err e, log)
  run_pinned project_id cid spec root timeout (ok (exe, directories)) log =
      let s = started spec root timeout exe directories in
      (check_result project_id cid spec (run_started s), log_run (run_started s) s log)

  -- The state is the list of the processes started.
  unfoldable pub run_declared_check :
      Text → Text → Spec → Text → Dict Pin → Option ℕ → Exec Refusal (List Started) CheckResult
  unfolding check_pins
  run_declared_check project_id check_id spec root trusted timeout =
      run_pinned project_id (check_name check_id) spec root timeout
        (check_pins project_id (check_name check_id) spec root trusted)
