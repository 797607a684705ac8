-- ===== src/Contracts/Accepted.antt =====
-- A contract is accepted exactly if it is well-formed.
use jvc_core.Base.{
  ◌≡◌, ◌≢◌, ◌↔◌, refl, sym, ap, ◌∙◌, ◌⊎◌, inl, inr, Bool, true, false, Option, none, some, [], Text,
  codes, ◌==◌, eq_iff, eq_refl, contains, strip, Bool-cases,
}
use jvc_core.Exec.{ok}
use jvc_core.Contracts.Json.{
  Json, null, bool, int, real, str, arr, obj, Fields, lookup, value, text_of, member,
}
use jvc_core.Contracts.Validate.{
  kind_issues, runtime_issues, runtime_kinds, check_issues, field_issues, validate_contract,
  project_ok, cwd_ok, is_int, is_nonblank, Paths, allowed_persistence, allowed_privacy,
  allowed_permission_classes,
}
use jvc_core.Contracts.Shape.{
  HasText, IsRuntime, HasCwd, HasProject, IsContract, or_null-some, not_empty_iff, text_iff,
  member_iff, int_iff,
}
use jvc_core.Contracts.Parts.{
  flag-nil, append-nil, check_iff, python-IsPython, IsPython-python_issues, bind-ok, ok-injective,
}

kind_of_runtime :
    (s : Text) → contains s runtime_kinds ≡ true → (s ≡ codes "python") ⊎ (s ≡ codes "none")
unfolding contains
kind_of_runtime s k = elim (Bool-cases (codes "python" == s)) [
  | inl e ↦ inl (sym ((eq_iff (codes "python") s).0 e))
  | inr n ↦ elim (Bool-cases (codes "none" == s)) [
    | inl e ↦ inr (sym ((eq_iff (codes "none") s).0 e))
    | inr m ↦ let k₁ = rw n at k in let k₂ = rw m at k₁ in cc
  ]
]

kind_issues-IsRuntime :
    (r : Fields) (b : Bool)
    → member (value (codes "kind") r) runtime_kinds ≡ ok b
    → kind_issues r b ≡ ok []
    → IsRuntime r
unfolding text_of ◌==◌
kind_issues-IsRuntime r false m k = cc
kind_issues-IsRuntime r true m k =
    let (s, at, known) = (member_iff runtime_kinds (codes "kind") r).0 m in
    elim (kind_of_runtime s known) [
      | inr e ↦ inl (at ∙ ap (λ t. some (str t)) e)
      | inl e ↦
          let here = at ∙ ap (λ t. some (str t)) e in
          inr (python-IsPython r here (ok-injective (rw here at k)))
    ]

runtime_issues-IsRuntime :
    (v : Json) → runtime_issues v ≡ ok [] → (r : Fields) × (v ≡ obj r) × IsRuntime r
unfolding runtime_issues
runtime_issues-IsRuntime (obj r) k =
    let (b, m, k') = bind-ok (member (value (codes "kind") r) runtime_kinds) (kind_issues r) [] k in
    (r, refl, kind_issues-IsRuntime r b m k')
runtime_issues-IsRuntime null k = cc
runtime_issues-IsRuntime (bool b) k = cc
runtime_issues-IsRuntime (int b) k = cc
runtime_issues-IsRuntime (real b) k = cc
runtime_issues-IsRuntime (str b) k = cc
runtime_issues-IsRuntime (arr b) k = cc

IsRuntime-runtime_issues : (r : Fields) → IsRuntime r → runtime_issues (obj r) ≡ ok []
unfolding runtime_issues text_of contains ◌==◌
IsRuntime-runtime_issues r (inl none_kind) = rw none_kind (rw none_kind refl)
IsRuntime-runtime_issues r (inr i) = rw (i.kind_at, IsPython-python_issues r i) (rw i.kind_at refl)

project_iff :
    (id : Option Text) (fs : Fields)
    → (project_ok id (value (codes "project_id") fs) ≡ true) ↔ HasProject id fs
unfolding text_of
project_iff none fs = text_iff _ _ (codes "project_id") fs not_empty_iff
project_iff (some id) fs = (λ k. of_text k, λ at. rw at (eq_refl id))
  where
    of_text : project_ok (some id) (value (codes "project_id") fs) ≡ true → HasProject (some id) fs
    of_text k =
        let (s, at, e) =
          (text_iff (λ s. s == id) (λ s. s ≡ id) (codes "project_id") fs (λ s. eq_iff s id)).0 k in
        at ∙ ap (λ t. some (str t)) e

cwd_iff :
    (p : Paths) (root : Option Text) (fs : Fields) → (cwd_ok p root fs ≡ true) ↔ HasCwd p root fs
cwd_iff p none fs = text_iff _ _ (codes "cwd") fs not_empty_iff
cwd_iff p (some root) fs = eq_iff _ _

nonblank_iff :
    (k : Text) (fs : Fields) → (is_nonblank (value k fs) ≡ true) ↔ HasText k (λ s. strip s ≢ []) fs
nonblank_iff k fs = text_iff _ _ k fs (λ s. not_empty_iff (strip s))

module _ (p : Paths) (project_id root : Option Text) (fs : Fields) where
  field_issues-IsContract :
      field_issues p project_id root fs ≡ ok [] → IsContract p project_id root fs
  unfolding field_issues
  field_issues-IsContract k =
      let (b₁, m₁, k₁) =
        bind-ok (member (value (codes "persistence") fs) allowed_persistence) _ [] k in
      let (b₂, m₂, k₂) = bind-ok (member (value (codes "privacy") fs) allowed_privacy) _ [] k₁ in
      let (b₃, m₃, k₃) =
        bind-ok (member (value (codes "permission_class") fs) allowed_permission_classes) _ [] k₂ in
      let (is, m₄, k₄) = bind-ok (runtime_issues (value (codes "runtime") fs)) _ [] k₃ in
      let e = ok-injective k₄ in
      let (f₁, e₁) = flag-nil (is_int 1 (value (codes "schema_version") fs)) _ _ e in
      let (f₂, e₂) = flag-nil (project_ok project_id (value (codes "project_id") fs)) _ _ e₁ in
      let (f₃, e₃) = flag-nil (cwd_ok p root fs) _ _ e₂ in
      let (f₄, e₄) = flag-nil b₁ _ _ e₃ in
      let (f₅, e₅) = flag-nil b₂ _ _ e₄ in
      let (f₆, e₆) = flag-nil b₃ _ _ e₅ in
      let (f₇, e₇) = flag-nil (is_nonblank (value (codes "write_policy") fs)) _ _ e₆ in
      let (f₈, e₈) = append-nil is _ e₇ in
      let (f₉, e₉) = append-nil (check_issues (codes "preflight") fs) _ e₈ in
      let (r, at, is_runtime) = runtime_issues-IsRuntime _ (m₄ ∙ ap ok f₈) in
      record {
        schema = (int_iff 1 (codes "schema_version") fs).0 f₁;
        project = (project_iff project_id fs).0 f₂;
        cwd = (cwd_iff p root fs).0 f₃;
        persistence = (member_iff allowed_persistence (codes "persistence") fs).0 (m₁ ∙ ap ok f₄);
        privacy = (member_iff allowed_privacy (codes "privacy") fs).0 (m₂ ∙ ap ok f₅);
        permission =
            (member_iff allowed_permission_classes (codes "permission_class") fs).0 (m₃ ∙ ap ok f₆);
        write_policy = (nonblank_iff (codes "write_policy") fs).0 f₇;
        runtime = (r, or_null-some (lookup (codes "runtime") fs) (obj r) (λ z. cc) at, is_runtime);
        preflight = (check_iff (codes "preflight") fs).0 f₉;
        verify = (check_iff (codes "verify") fs).0 e₉;
      }

  IsContract-field_issues :
      IsContract p project_id root fs → field_issues p project_id root fs ≡ ok []
  unfolding field_issues
  IsContract-field_issues i =
      let (r, at, is_runtime) = i.runtime in
      rw
        (
          (member_iff allowed_persistence (codes "persistence") fs).1 i.persistence,
          (member_iff allowed_privacy (codes "privacy") fs).1 i.privacy,
          (member_iff allowed_permission_classes (codes "permission_class") fs).1 i.permission,
          at,
          IsRuntime-runtime_issues r is_runtime,
          (int_iff 1 (codes "schema_version") fs).1 i.schema,
          (project_iff project_id fs).1 i.project,
          (cwd_iff p root fs).1 i.cwd,
          (nonblank_iff (codes "write_policy") fs).1 i.write_policy,
          (check_iff (codes "preflight") fs).1 i.preflight,
          (check_iff (codes "verify") fs).1 i.verify,
        )
        refl

  -- An object has no issue as a contract exactly if its schema version is 1, its project and root are
  -- texts that are not empty or, where they are given, those expected, its write policy is a text
  -- that is not blank, its three classes are of the lists allowed, its runtime is of the kind "none"
  -- or of the kind "python" with candidates and a probe, and its two checks are null or can be run.
  -- Other fields are allowed.
  pub validate_contract_iff :
      (validate_contract p project_id root (obj fs) ≡ ok []) ↔ IsContract p project_id root fs
  unfolding validate_contract
  validate_contract_iff = (field_issues-IsContract, IsContract-field_issues)
