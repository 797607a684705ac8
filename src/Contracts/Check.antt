-- ===== src/Contracts/Check.antt =====
-- src/jvc/contracts.py: `run_check`, whose result is a dict.
use jvc_core.Base.{
  ℕ, zero, Bool, true, false, ◌||◌, List, [], ◌∷◌, ◌++◌, Text, codes, strip, has_infix, nat_eq,
  is_empty, if◌then◌else◌,
}
use jvc_core.Exec.{Result, ok, err}
use jvc_core.Contracts.Json.{
  ℤ, pos, negsuc, Json, null, bool, int, str, arr, obj, Items, nil, cons, Fields, end, field, Fault,
  type_error, index_error, value_error, unicode_decode_error, ◌>>=◌, item,
}
use jvc_core.Contracts.Verdict.{
  Applicability, configured, not_applicable, missing, check_applicability,
}
use jvc_core.Contracts.Expand.{command_argv}
use jvc_core.Contracts.Runtime.{
  Process, finished, timed_out, failed_to_start, undecodable_output, null_in_argument, Machine,
  Runtime, resolved, unresolved,
}

abbrev pub argv_items : List Text → Items
argv_items [] = nil
argv_items (a ∷ rest) = cons (str a) (argv_items rest)

-- A result that has run nothing.
abbrev pub skipped : Text → Text → Bool → Text → Fields
skipped status name applicable failure = field (codes "status") (str status) (
    field (codes "name") (str name) (
      field (codes "executed") (bool false) (
        field (codes "applicable") (bool applicable)
          (field (codes "failure_kind") (str failure) end))))

abbrev pub failed_run : Text → List Text → Fields
failed_run name argv = field (codes "status") (str (codes "FAIL")) (
    field (codes "name") (str name) (
      field (codes "executed") (bool false) (
        field (codes "applicable") (bool true) (
          field (codes "argv") (arr (argv_items argv))
            (field (codes "failure_kind") (str (codes "infrastructure")) end)))))

abbrev pub executed_run : Text → List Text → ℤ → Bool → Fields
executed_run name argv code passed =
    field (codes "status") (str (if passed then codes "PASS" else codes "FAIL")) (
      field (codes "name") (str name) (
        field (codes "executed") (bool true) (
          field (codes "applicable") (bool true) (
            field (codes "argv") (arr (argv_items argv)) (
              field (codes "returncode") (int code) (
                field (codes "failure_kind")
                  (str (if passed then codes "none" else codes "behavioral")) end))))))

-- "\n".join of the parts that are not empty
abbrev pub combine : Text → Text → Text
combine [] error = error
combine (c ∷ out) [] = c ∷ out
combine (c ∷ out) (d ∷ error) = (c ∷ out) ++ 10 ∷ d ∷ error

-- `code == v`: True and False are 1 and 0. A real number is taken for another.
abbrev pub equals_code : ℤ → Json → Bool
equals_code (pos m) (int (pos n)) = nat_eq m n
equals_code (negsuc m) (int (negsuc n)) = nat_eq m n
equals_code (pos m) (bool true) = nat_eq m 1
equals_code (pos m) (bool false) = nat_eq m 0
equals_code _ _ = false

-- `not v or v in text`
abbrev pub contained : Json → Text → Result Fault Bool
contained (str s) combined = ok (is_empty s || has_infix s combined)
contained null combined = ok true
contained (bool false) combined = ok true
contained (int (pos zero)) combined = ok true
contained (arr nil) combined = ok true
contained (obj end) combined = ok true
contained _ combined = err type_error

-- The seconds that `subprocess.run` waits; no timeout, and one that is no integer, are taken for an
-- error.
abbrev pub seconds : Json → Result Fault ℕ
seconds (int (pos n)) = ok n
seconds _ = err type_error

abbrev pub is_ready : Runtime → Bool
is_ready (unresolved attempts) = false
is_ready _ = true

abbrev pub runtime_argv : Runtime → List Text
runtime_argv (resolved argv attempts) = argv
runtime_argv _ = []

module _ (m : Machine) (root : Text) where
  abbrev pub judge : Text → List Text → ℤ → Text → Fields → Result Fault Fields
  judge name argv code combined check = do
    needle ← item (codes "expected_contains") check
    expected ← item (codes "expected_exit") check
    in_output ← (if equals_code code expected then contained needle combined else ok false)
    ok (executed_run name argv code in_output)

  abbrev pub report : Text → Fields → List Text → Process → Result Fault Fields
  report name check argv (finished code out error) =
      judge name argv code (combine (strip out) (strip error)) check
  report name check argv timed_out = ok (failed_run name argv)
  report name check argv failed_to_start = ok (failed_run name argv)
  report name check argv undecodable_output = err unicode_decode_error
  report name check argv null_in_argument = err value_error

  -- `subprocess.run`, which reads the first of the arguments.
  abbrev pub start : List Text → ℕ → Result Fault Process
  start [] limit = err index_error
  start (a ∷ arguments) limit = ok (m.run (a ∷ arguments) limit)

  unfoldable pub run_configured : Text → Runtime → Fields → Result Fault Fields
  unfolding command_argv
  run_configured name runtime check = do
    argv ← command_argv m.expandvars root (runtime_argv runtime) check
    timeout ← item (codes "timeout_seconds") check
    limit ← seconds timeout
    process ← start argv limit
    report name check argv process

  abbrev pub object_of : Json → Result Fault Fields
  object_of (obj c) = ok c
  object_of _ = err type_error

  abbrev pub run_applicable : Fields → Text → Runtime → Applicability → Result Fault Fields
  run_applicable contract name runtime not_applicable =
      ok (skipped (codes "NOT_APPLICABLE") name false (codes "none"))
  run_applicable contract name runtime missing =
      ok (skipped (codes "MISSING") name true (codes "configuration"))
  run_applicable contract name runtime configured =
      if is_ready runtime
      then ((item name contract >>= object_of) >>= run_configured name runtime)
      else ok (skipped (codes "FAIL") name true (codes "infrastructure"))

  unfoldable pub run_check : Fields → Text → Runtime → Result Fault Fields
  unfolding run_configured check_applicability
  run_check contract name runtime =
      check_applicability contract name >>= run_applicable contract name runtime
