-- ===== src/Contracts/Validate.antt =====
-- src/jvc/contracts.py: `validate_contract`.
use jvc_core.Base.{
  ℕ, Bool, true, false, not, Option, none, some, List, [], ◌∷◌, ◌++◌, Text, codes, ◌==◌, strip,
  is_empty, nat_eq, ltb, if◌then◌else◌,
}
use jvc_core.Exec.{Result, ok}
use jvc_core.Contracts.Json.{
  ℤ, pos, negsuc, test, text_of, int_in, Json, null, str, obj, Fields, Fault, ◌>>=◌, lookup, value,
  is_text, is_nonempty, is_str, member, is_array_of,
}

pub data CheckIssue : Type 0 where
  undeclared not_an_object bad_argv bad_timeout bad_exit bad_contains : CheckIssue

pub data Issue : Type 0 where
  not_a_dict bad_schema_version bad_project_id bad_cwd bad_persistence bad_privacy : Issue
  bad_permission_class bad_write_policy bad_runtime_kind bad_candidates bad_probe : Issue
  in_check : Text → CheckIssue → Issue

-- What is outside: the expansion of variables, `normcase`, `normpath` and `abspath` together, and
-- `str` of a value that is no string.
pub record Paths : Type 0 where
  pub expandvars : Text → Text
  pub normalize : Text → Text
  pub str_of : Json → Text

abbrev pub flag {ℓ} : {A : Type ℓ} → Bool → A → List A
flag true issue = []
flag false issue = issue ∷ []

abbrev pub allowed_persistence : List Text
allowed_persistence = codes "git" ∷ codes "onedrive" ∷ codes "local" ∷ []

abbrev pub allowed_privacy : List Text
allowed_privacy = codes "standard" ∷ codes "private-content" ∷ codes "restricted-tooling" ∷ []

abbrev pub allowed_permission_classes : List Text
allowed_permission_classes =
    codes "read-test" ∷ codes "private-structure-only" ∷ codes "docs-only" ∷ []

abbrev pub runtime_kinds : List Text
runtime_kinds = codes "python" ∷ codes "none" ∷ []

abbrev pub equals_nat : ℕ → ℤ → Bool
equals_nat n (pos m) = nat_eq m n
equals_nat n (negsuc m) = false

abbrev pub above_zero : ℤ → Bool
above_zero (pos m) = ltb 0 m
above_zero (negsuc m) = false

-- `type(v) is int and v == n`
abbrev pub is_int : ℕ → Json → Bool
is_int n v = test (equals_nat n) (int_in v)

abbrev pub is_positive : Json → Bool
is_positive v = test above_zero (int_in v)

abbrev pub is_nonblank : Json → Bool
is_nonblank v = test (λ s. not (is_empty (strip s))) (text_of v)

abbrev pub is_argv : Json → Bool
is_argv = is_array_of is_nonempty

abbrev pub python_issues : Fields → List Issue
python_issues r =
    flag (is_array_of is_argv (value (codes "candidates") r)) bad_candidates
    ++ flag (is_array_of is_str (value (codes "probe_argv") r)) bad_probe

abbrev pub kind_issues : Fields → Bool → Result Fault (List Issue)
kind_issues r false = ok (bad_runtime_kind ∷ [])
kind_issues r true =
    ok (if is_text (value (codes "kind") r) (codes "python") then python_issues r else [])

unfoldable pub runtime_issues : Json → Result Fault (List Issue)
runtime_issues (obj r) = member (value (codes "kind") r) runtime_kinds >>= kind_issues r
runtime_issues _ = ok (bad_runtime_kind ∷ [])

abbrev pub object_issues : Fields → List CheckIssue
object_issues c =
    flag (is_argv (value (codes "argv") c)) bad_argv
    ++ (flag (is_positive (value (codes "timeout_seconds") c)) bad_timeout
        ++ (flag (is_int 0 (value (codes "expected_exit") c)) bad_exit
            ++ flag (is_str (value (codes "expected_contains") c)) bad_contains))

unfoldable pub declared_issues : Option Json → List CheckIssue
declared_issues none = undeclared ∷ []
declared_issues (some null) = []
declared_issues (some (obj c)) = object_issues c
declared_issues (some _) = not_an_object ∷ []

abbrev pub named : Text → List CheckIssue → List Issue
named name [] = []
named name (i ∷ is) = in_check name i ∷ named name is

abbrev pub check_issues : Text → Fields → List Issue
check_issues name fs = named name (declared_issues (lookup name fs))

abbrev pub project_ok : Option Text → Json → Bool
project_ok none v = is_nonempty v
project_ok (some id) v = is_text v id

abbrev pub as_text : Paths → Option Json → Text
as_text p none = []
as_text p (some (str s)) = s
as_text p (some v) = p.str_of v

abbrev pub cwd_ok : Paths → Option Text → Fields → Bool
cwd_ok p none fs = is_nonempty (value (codes "cwd") fs)
cwd_ok p (some root) fs =
    p.normalize (p.expandvars (as_text p (lookup (codes "cwd") fs))) == p.normalize root

unfoldable pub field_issues : Paths → Option Text → Option Text → Fields → Result Fault (List Issue)
field_issues p project_id root fs = do
  persistence ← member (value (codes "persistence") fs) allowed_persistence
  privacy ← member (value (codes "privacy") fs) allowed_privacy
  permission ← member (value (codes "permission_class") fs) allowed_permission_classes
  runtime ← runtime_issues (value (codes "runtime") fs)
  ok (
      flag (is_int 1 (value (codes "schema_version") fs)) bad_schema_version
      ++ (flag (project_ok project_id (value (codes "project_id") fs)) bad_project_id
          ++ (flag (cwd_ok p root fs) bad_cwd
              ++ (flag persistence bad_persistence
                  ++ (flag privacy bad_privacy
                      ++ (flag permission bad_permission_class
                          ++ (flag (is_nonblank (value (codes "write_policy") fs)) bad_write_policy
                              ++ (runtime
                                  ++ (check_issues (codes "preflight") fs
                                      ++ check_issues (codes "verify") fs)))))))))

unfoldable pub validate_contract :
    Paths → Option Text → Option Text → Json → Result Fault (List Issue)
validate_contract p project_id root (obj fs) = field_issues p project_id root fs
validate_contract p project_id root _ = ok (not_a_dict ∷ [])
