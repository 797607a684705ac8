-- ===== src/Contracts/Runtime.antt =====
-- src/jvc/contracts.py: `resolve_runtime`.
use jvc_core.Base.{
  ℕ, zero, Bool, true, false, Option, none, some, List, [], ◌∷◌, ◌++◌, Text, codes, is_empty,
  if◌then◌else◌,
}
use jvc_core.Exec.{Result, ok, err}
use jvc_core.Contracts.Json.{
  ℤ, pos, Json, Fields, Fault, index_error, value_error, unicode_decode_error, ◌>>=◌, item,
  subscript, iterate, is_text,
}
use jvc_core.Contracts.Expand.{expand_all}

-- What `subprocess.run(text=True)` comes to: beside `TimeoutExpired` and `OSError` it raises
-- `UnicodeDecodeError` where the output is not of the encoding, and `ValueError` where an argument
-- has a null character.
pub data Process : Type 0 where
  finished : ℤ → Text → Text → Process
  timed_out failed_to_start undecodable_output null_in_argument : Process

-- The exceptions that the callers do not catch.
abbrev pub raises : Process → Option Fault
raises undecodable_output = some unicode_decode_error
raises null_in_argument = some value_error
raises _ = none

-- What is outside: the expansion of environment variables, whether a path is a file, `shutil.which`
-- and `subprocess.run` with its timeout.
pub record Machine : Type 0 where
  pub expandvars : Text → Text
  pub is_file : Text → Bool
  pub which : Text → Option Text
  pub run : List Text → ℕ → Process

pub data AttemptStatus : Type 0 where
  not_found probe_error probe_failed : AttemptStatus

pub record Attempt : Type 0 where
  pub candidate : List Text
  pub status : AttemptStatus

pub data Runtime : Type 0 where
  none_required : Runtime
  resolved : List Text → List Attempt → Runtime
  unresolved : List Attempt → Runtime

-- What comes of one candidate.
pub data Probed : Type 0 where
  accepted : List Text → Probed
  refused : Attempt → Probed

abbrev pub probed : List Text → List Text → Process → Result Fault Probed
probed candidate argv (finished (pos zero) out error) = ok (accepted argv)
probed candidate argv (finished code out error) =
    ok (refused (record { candidate = candidate; status = probe_failed }))
probed candidate argv undecodable_output = err unicode_decode_error
probed candidate argv null_in_argument = err value_error
probed candidate argv _ = ok (refused (record { candidate = candidate; status = probe_error }))

module _ (m : Machine) where
  abbrev pub locate : Text → Option Text
  locate executable =
      if m.is_file executable then some executable else non_empty (m.which executable)
    where
      non_empty : Option Text → Option Text
      non_empty none = none
      non_empty (some path) = if is_empty path then none else some path

  abbrev pub probe_located :
      Text → Fields → List Text → List Text → Option Text → Result Fault Probed
  probe_located root runtime candidate arguments none =
      ok (refused (record { candidate = candidate; status = not_found }))
  probe_located root runtime candidate arguments (some path) = do
    probe ← item (codes "probe_argv") runtime
    vs ← iterate probe
    probe_arguments ← expand_all m.expandvars root vs
    probed candidate (path ∷ arguments) (m.run ((path ∷ arguments) ++ probe_arguments) 30)

  abbrev pub probe_expanded : Text → Fields → List Text → Result Fault Probed
  probe_expanded root runtime [] = err index_error
  probe_expanded root runtime (executable ∷ arguments) =
      probe_located root runtime (executable ∷ arguments) arguments (locate executable)

  unfoldable pub probe_candidate : Text → Fields → Json → Result Fault Probed
  unfolding expand_all
  probe_candidate root runtime raw = do
    vs ← iterate raw
    candidate ← expand_all m.expandvars root vs
    probe_expanded root runtime candidate

  -- With the attempts so far.
  abbrev pub next_probe :
      (List Attempt → Result Fault Runtime) → List Attempt → Probed → Result Fault Runtime
  next_probe rest attempts (accepted argv) = ok (resolved argv attempts)
  next_probe rest attempts (refused a) = rest (attempts ++ a ∷ [])

  unfoldable pub try_candidates : Text → Fields → List Json → List Attempt → Result Fault Runtime
  unfolding probe_candidate
  try_candidates root runtime [] attempts = ok (unresolved attempts)
  try_candidates root runtime (raw ∷ raws) attempts =
      probe_candidate root runtime raw >>= next_probe (try_candidates root runtime raws) attempts

  abbrev pub resolve_kind : Text → Fields → Bool → Result Fault Runtime
  resolve_kind root runtime true = ok none_required
  resolve_kind root runtime false = do
    candidates ← item (codes "candidates") runtime
    raws ← iterate candidates
    try_candidates root runtime raws []

  abbrev pub fields_of : Json → Fields
  fields_of (Json.obj r) = r
  fields_of _ = Fields.end

  unfoldable pub resolve_runtime : Text → Fields → Result Fault Runtime
  unfolding try_candidates
  resolve_runtime root contract = do
    runtime ← item (codes "runtime") contract
    kind ← subscript (codes "kind") runtime
    resolve_kind root (fields_of runtime) (is_text kind (codes "none"))
