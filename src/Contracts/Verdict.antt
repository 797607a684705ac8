-- ===== src/Contracts/Verdict.antt =====
-- src/jvc/contracts.py: `check_applicability` and `is_verification_satisfied`.
use jvc_core.Base.{
  Bool, true, false, not, ◌&&◌, Option, none, some, [], ◌∷◌, Text, codes, if◌then◌else◌,
}
use jvc_core.Exec.{Result, ok}
use jvc_core.Contracts.Validate.{is_int}
use jvc_core.Contracts.Json.{
  Json, null, obj, Fields, Fault, ◌>>=◌, lookup, value, is_text, is_true, is_false, is_nonempty,
  member,
}

pub data Applicability : Type 0 where
  configured not_applicable missing : Applicability

abbrev pub kind_of : Json → Json
kind_of (obj r) = value (codes "kind") r
kind_of _ = null

abbrev pub exempt : Fields → Bool → Applicability
exempt fs true = not_applicable
exempt fs false =
    if is_text (kind_of (value (codes "runtime") fs)) (codes "none")
    then not_applicable
    else missing

-- No check is asked for: the permission class or the runtime decides.
abbrev pub without_check : Fields → Result Fault Applicability
without_check fs =
    member (value (codes "permission_class") fs)
      (codes "docs-only" ∷ codes "private-structure-only" ∷ [])
    >>= λ exempted. ok (exempt fs exempted)

abbrev pub applicability_of : Fields → Option Json → Result Fault Applicability
applicability_of fs none = ok missing
applicability_of fs (some null) = without_check fs
applicability_of fs (some (obj c)) =
    if is_false (value (codes "applicable") c) then without_check fs else ok configured
applicability_of fs (some _) = ok missing

unfoldable pub check_applicability : Fields → Text → Result Fault Applicability
check_applicability fs name = applicability_of fs (lookup name fs)

-- `v in {None, "none"}`
abbrev pub is_no_failure : Json → Result Fault Bool
is_no_failure null = ok true
is_no_failure v = member v (codes "none" ∷ [])

abbrev pub matches_name : Option Text → Json → Bool
matches_name none v = true
matches_name (some name) v = is_text v name

abbrev pub passed_result : Fields → Result Fault Bool
passed_result r =
    if is_true (value (codes "executed") r)
      && is_true (value (codes "applicable") r)
      && is_int 0 (value (codes "returncode") r)
    then is_no_failure (value (codes "failure_kind") r)
    else ok false

abbrev pub exempted_result : Bool → Fields → Result Fault Bool
exempted_result allow_na r =
    if allow_na
      && is_text (value (codes "status") r) (codes "NOT_APPLICABLE")
      && is_false (value (codes "applicable") r)
      && is_false (value (codes "executed") r)
    then is_no_failure (value (codes "failure_kind") r)
    else ok false

unfoldable pub is_verification_satisfied : Json → Bool → Option Text → Result Fault Bool
is_verification_satisfied (obj r) allow_na expected_name =
    if not
      (matches_name expected_name (value (codes "name") r) && is_nonempty (value (codes "name") r))
    then ok false
    else if is_text (value (codes "status") r) (codes "PASS")
    then passed_result r
    else exempted_result allow_na r
is_verification_satisfied _ allow_na expected_name = ok false
