-- ===== src/Runner/Ran.antt =====
-- What a declared check does: one run if all is pinned, and none otherwise.
use jvc_core.Base.{ℕ, ◌⊎◌, none, ◌≡◌, Option, List, [], ◌∷◌, ◌++◌, Text, Dict}
use jvc_core.Exec.{Result, ok, err}
use jvc_core.Authority.Keys.{Pin}
use jvc_core.Contracts.Runtime.{Process, undecodable_output, raises}
use jvc_core.Runner.Environment.{Host}
use jvc_core.Runner.Check.{
  Spec, Refusal, Started, CheckResult, check_result, started, run_started, check_name,
}
use jvc_core.Runner.Pinned.{IsPinned}

-- No exception escapes the call, or that of an output that cannot be decoded does.
abbrev pub IsCaught : Process → Type 0
IsCaught p = raises p ≡ none

abbrev pub IsUndecodable : Process → Type 0
IsUndecodable p = p ≡ undecodable_output

module _ (h : Host) (project_id check_id : Text) (spec : Spec) (root : Text) (trusted : Dict Pin)
    (timeout : Option ℕ) where
  -- What a run that is let through does: its process, and what is raised or returned.
  abbrev pub HasRun :
      (Process → Type 0) → List Started → Result Refusal CheckResult → List Started → Type 0
  HasRun P log r t =
      (exe : Text) × (directories : List Text) × IsPinned h project_id (check_name check_id) spec
        root trusted exe directories
      × P (run_started h (started h spec root timeout exe directories))
      × (r
          ≡ check_result h project_id (check_name check_id) spec
              (run_started h (started h spec root timeout exe directories)))
      × (t ≡ log ++ started h spec root timeout exe directories ∷ [])

  abbrev Ends : List Started → Result Refusal CheckResult → List Started → Type 0
  Ends log (ok r) t = HasRun IsCaught log (ok r) t
  Ends log (err e) t = (t ≡ log) ⊎ HasRun IsUndecodable log (err e) t
