-- ===== src/Runner/Tests.antt =====
-- A check that is run with Git, which is also its child, on a machine where all is pinned.
use jvc_core.Base.{
  ◌≡◌, refl, Bool, true, false, Option, none, some, List, [], ◌∷◌, ◌++◌, Text, Dict, codes, get,
  ◌==◌, contains, casefold, strip, upper, opt_eq, has_infix,
}
use jvc_core.Exec.{Result, ok, err}
use jvc_core.Authority.Keys.{Pin, resolve_trusted_executable, executable_key}
use jvc_core.Contracts.Json.{pos}
use jvc_core.Contracts.Runtime.{finished}
use jvc_core.Runner.Environment.{Host, build_safe_subprocess_env}
use jvc_core.Runner.Check.{
  Spec, Refusal, Started, CheckResult, identity_mismatch, run_declared_check,
}
use jvc_core.Runner.Sanitized.{AreClean, with_environ, build_safe_subprocess_env-IsSafe}

abbrev digits : Text
digits = codes "0123456789ABCDEF0123456789ABCDEF"

abbrev environ : Text → Option Text
environ name = none

abbrev host : Host
host = record {
  is_windows = false;
  resolve = λ p. p;
  join = λ p q. p ++ b'/' ∷ q;
  parent = λ p. codes "/bin";
  drive = λ p. [];
  is_dir = λ p. true;
  environ = environ;
  temp_dir = λ values. codes "/tmp";
  hexdigest = λ b. digits ++ digits;
  files = (codes "/bin/git", []) ∷ (codes "/p/run.py", []) ∷ [];
  run = λ command directory timeout environment. finished (pos 0) (codes "fine") [];
}

abbrev pin : Pin
pin = record { path = codes "/bin/git"; sha256 = digits ++ digits }

abbrev trusted : Dict Pin
trusted = (codes "git", pin) ∷ []

abbrev spec : Spec
spec = record {
  project_id = some (codes "demo");
  check_id = some (codes "verify");
  cwd = some (codes "/p");
  executable = some (codes "Git.exe");
  executable_path = some (codes "/bin/GIT");
  executable_sha256 = some (digits ++ digits);
  child_executables = (codes "git", pin) ∷ [];
  executed_files = (codes "run.py", digits ++ digits) ∷ [];
  argv = codes "git" ∷ codes "status" ∷ [];
  timeout_seconds = none;
  expected_exit = none;
  expected_contains = some (codes "in");
}

abbrev log : List Started
log = (run_declared_check host (codes "demo") (codes " Verify") spec (codes "/p") trusted none []).1

abbrev was_passed : Result Refusal CheckResult → Bool
was_passed (ok r) = r.passed
was_passed (err e) = false

-- The check passes.
passed :
    was_passed
      (run_declared_check host (codes "demo") (codes " Verify") spec (codes "/p") trusted none []).0
    ≡ true
unfolding run_declared_check contains ◌==◌ strip casefold opt_eq resolve_trusted_executable get
    executable_key upper has_infix
passed = refl

-- It is refused for another project.
refused :
    run_declared_check host (codes "other") (codes "verify") spec (codes "/p") trusted none []
    ≡ (err identity_mismatch, [])
unfolding run_declared_check contains ◌==◌ strip casefold opt_eq
refused = refl

build_safe_subprocess_env-IsSafe_example :
    ((sanitize_ambient : Bool)
      → build_safe_subprocess_env host (codes "/bin" ∷ []) sanitize_ambient
        ≡ build_safe_subprocess_env
            (with_environ host environ)
            (codes "/bin" ∷ [])
            sanitize_ambient)
    × AreClean (build_safe_subprocess_env host (codes "/bin" ∷ []) true)
build_safe_subprocess_env-IsSafe_example =
    build_safe_subprocess_env-IsSafe host environ (codes "/bin" ∷ []) (
      refl,
      (refl, (refl, (refl, (refl, (refl, (refl, (refl, (refl, (refl, (refl, (refl, tt))))))))))),
    )
