-- ===== src/Executor/Diffs.antt =====
-- The diff of one file.
use jvc_core.Base.{
  ◌||◌, ◌≡◌, refl, ◌⊎◌, true, false, none, some, List, [], ◌∷◌, ◌++◌, Text, codes, ◌==◌, contains,
  strip, if◌then◌else◌, get, split, replace_code, has_code, strip_parts, path_parts, suffix,
  base_name,
}
use jvc_core.Exec.{ok}
use jvc_core.Authority.Base64.{rstrip_code}
use jvc_core.Boundaries.Targets.{
  assert_permitted_path, has_control, has_encoded, is_within, relative_to,
}
use jvc_core.Boundaries.Paths.{
  is_control_plane_path, is_secret_path, is_secret_clean, is_secret_part,
}
use jvc_core.Configuration.Registry.{Route, ProjectRegistry, get_route}
use jvc_core.Executor.Repository.{
  Run, Files, assert_safe_git_repo, assert_exact_file_target, assert_path_attrs_safe,
}
use jvc_core.Executor.Output.{capped_git_read}
use jvc_core.Executor.Diff.{
  DiffOutcome, not_applicable, inspected, RunCapped, is_requested, git_diff,
}
use jvc_core.Executor.Inspected.{Inspected, git_diff-Inspected}

abbrev answer : List Text → Text
answer [] = []
answer (command ∷ arguments) = if command == codes "rev-parse" then codes "/p" else []

abbrev run : Run (List Text)
run root arguments log = (record { returncode = 0; stdout = answer arguments }, root ∷ log)

abbrev run_capped : RunCapped (List Text)
run_capped root arguments max_bytes log = (
  record { returncode = 0; out = []; error = []; out_truncated = false; error_truncated = false },
  arguments ++ log,
)

abbrev files : Files
files = record {
  resolve = λ path. path;
  is_dir = λ path. path == codes "/p" || path == codes "/p/.git";
  is_file = λ path. false;
  read_text = λ path. none;
}

abbrev registry : ProjectRegistry
registry = record {
  route_list = [];
  routes =
      (
        codes "demo",
        record {
          project_id = codes "demo";
          aliases = [];
          root = codes "/p";
          startup = [];
          handoff = [];
          status = codes "active";
        },
      )
      ∷ [];
}

abbrev outcome : DiffOutcome
outcome = inspected (codes "a" ∷ []) (
    capped_git_read (λ b. b) 9
      (record {
        returncode = 0;
        out = [];
        error = [];
        out_truncated = false;
        error_truncated = false;
      }))

abbrev log : List Text
log =
    (git_diff run files run_capped (λ b. b) registry (codes "demo") (some (codes "a" ∷ [])) none 9
      []).1

read :
    git_diff run files run_capped (λ b. b) registry (codes "demo") (some (codes "a" ∷ [])) none 9 []
    ≡ (ok outcome, log)
unfolding git_diff get_route get ◌==◌ assert_safe_git_repo strip has_code rstrip_code replace_code
    assert_permitted_path has_control has_encoded is_within relative_to strip_parts path_parts
    is_secret_path is_secret_clean is_secret_part suffix contains split base_name
    is_control_plane_path assert_exact_file_target assert_path_attrs_safe
read = refl

git_diff-Inspected_example :
    (r : Route) × (get_route registry (codes "demo") ≡ some r)
    × (files.is_dir r.root ≡ true)
    × (((outcome ≡ not_applicable) × (files.is_dir (r.root ++ codes "/.git") ≡ false))
        ⊎ ((is_requested (codes "a" ∷ []) ≡ true)
            × Inspected run files run_capped (λ b. b) r.root (codes "a" ∷ []) 9 [] outcome log))
git_diff-Inspected_example =
    git_diff-Inspected run files run_capped (λ b. b) registry (codes "demo") (some (codes "a" ∷ []))
      none 9 outcome [] log read
