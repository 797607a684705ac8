-- ===== src/Contracts/Tests.antt =====
-- A contract with a runtime and a check, on a machine where its probe and its command pass.
use jvc_core.Base.{
  Option, starts_with, strip, if◌then◌else◌, ends_with, ◌≡◌, ◌↔◌, refl, inr, true, false, none,
  some, [], ◌∷◌, Text, codes, ◌==◌, contains, strip, has_infix,
}
use jvc_core.Exec.{ok}
use jvc_core.Contracts.Json.{
  pos, Json, null, ◌>>=◌, int, str, arr, obj, nil, cons, Fields, end, field, lookup, text_of,
  int_in,
}
use jvc_core.Contracts.Validate.{Paths, validate_contract}
use jvc_core.Contracts.Shape.{IsCheck, IsDeclared, IsContract}
use jvc_core.Contracts.Verdict.{is_verification_satisfied}
use jvc_core.Contracts.Runtime.{Machine, finished, Runtime, resolved}
use jvc_core.Contracts.Check.{run_check}
use jvc_core.Contracts.Accepted.{validate_contract_iff}
use jvc_core.Contracts.Load.{block_of, load_contract}
use jvc_core.Contracts.Loaded.{Loads, contract_of, load_contract_iff}

abbrev paths : Paths
paths = record { expandvars = λ s. s; normalize = λ s. s; str_of = λ v. [] }

abbrev machine : Machine
machine = record {
  expandvars = λ s. s;
  is_file = λ s. false;
  which = λ s. some (codes "/bin/py");
  run = λ argv limit. finished (pos 0) (codes "ok") [];
}

abbrev one : Text → Json
one s = arr (cons (str s) nil)

abbrev python : Fields
python = field (codes "kind") (str (codes "python")) (
    field (codes "candidates") (arr (cons (one (codes "py")) nil))
      (field (codes "probe_argv") (one (codes "-V")) end))

abbrev check : Fields
check = field (codes "argv") (arr (cons (str (codes "{runtime}")) (cons (str (codes "t")) nil))) (
    field (codes "timeout_seconds") (int (pos 5)) (
      field (codes "expected_exit") (int (pos 0))
        (field (codes "expected_contains") (str (codes "k")) end)))

abbrev contract : Fields
contract = field (codes "schema_version") (int (pos 1)) (
    field (codes "project_id") (str (codes "demo")) (
      field (codes "cwd") (str (codes "/p")) (
        field (codes "persistence") (str (codes "git")) (
          field (codes "privacy") (str (codes "standard")) (
            field (codes "permission_class") (str (codes "read-test")) (
              field (codes "write_policy") (str (codes "w")) (
                field (codes "runtime") (obj python)
                  (field (codes "preflight") null (field (codes "verify") (obj check) end)))))))))

validate_contract_iff_example :
    (validate_contract paths none none (obj contract) ≡ ok []) ↔ IsContract paths none none contract
validate_contract_iff_example = validate_contract_iff paths none none contract

is_check : IsCheck check
unfolding lookup ◌==◌
is_check = record {
  argv = codes "{runtime}" ∷ codes "t" ∷ [];
  argv_at = refl;
  argv_is = ((λ k. cc), ((λ k. cc), ((λ k. cc), tt)));
  seconds = 4;
  timeout_at = refl;
  exit_at = refl;
  needle = codes "k";
  contains_at = refl;
}

declared_at : lookup (codes "verify") contract ≡ some (obj check)
unfolding lookup ◌==◌
declared_at = refl

abbrev declared : IsDeclared (codes "verify") contract
declared = inr (check, declared_at, is_check)

abbrev runtime : Runtime
runtime = resolved (codes "/bin/py" ∷ []) []

-- The check passes.
passed :
    (run_check machine (codes "/p") contract (codes "verify") runtime >>= λ r.
    is_verification_satisfied (obj r) false (some (codes "verify")))
    ≡ ok true
unfolding run_check is_verification_satisfied lookup ◌==◌ text_of has_infix strip int_in contains
passed = refl

-- A file with the contract in a fenced block; the JSON library knows its text.
abbrev loads : Text → Option Json
loads s = if s == codes "{...}" then some (obj contract) else none

abbrev agents_file : Option Text
agents_file =
    some
      (codes "# Agents <!-- ICM_EXECUTION_START --> ```json {...} ``` <!-- ICM_EXECUTION_END -->")

load_contract_iff_example :
    (load_contract paths loads agents_file ≡ ok (contract_of contract))
    ↔ Loads paths loads (contract_of contract) agents_file
load_contract_iff_example = load_contract_iff paths loads (contract_of contract) agents_file

block :
    block_of
      (codes "# Agents <!-- ICM_EXECUTION_START --> ```json {...} ``` <!-- ICM_EXECUTION_END -->")
    ≡ some (codes "{...}")
unfolding block_of starts_with strip ends_with
block = refl
