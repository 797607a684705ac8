-- ===== src/Executor/Runs.antt =====
-- A commit of one staged file by a Git that answers as it would, and a bounded output.
use jvc_core.Base.{
  ◌≡◌, refl, false, none, List, [], ◌∷◌, Text, codes, ◌==◌, get, remove, contains, split,
  replace_code, strip, if◌then◌else◌,
}
use jvc_core.Exec.{ok}
use jvc_core.Executor.Repository.{Run, Files}
use jvc_core.Executor.Git.{Session, commit_locked}
use jvc_core.Executor.Owned.{IsOwned, commit_locked-IsOwned}
use jvc_core.Executor.Branch.{switch, branch_locked, dirty_worktree, assert_switch_targets_safe}
use jvc_core.Executor.Git.{recheck_paths}
use jvc_core.Executor.Switching.{IsCleanSwitch, branch_locked-IsCleanSwitch}
use jvc_core.Executor.Output.{fit_bytes, shrink, drop_last}
use jvc_core.Executor.Repository.{assert_safe_git_mutation}
use jvc_core.Base.{has_code, strip_parts, path_parts, suffix, encode, base_name}
use jvc_core.Boundaries.Targets.{
  assert_permitted_path, has_control, has_encoded, is_within, relative_to,
}
use jvc_core.Boundaries.Paths.{
  is_control_plane_path, is_secret_path, is_secret_clean, is_secret_part,
}
use jvc_core.Executor.Fitting.{IsLongest, fit_bytes-IsLongest}

abbrev answer : List Text → Text
answer [] = []
answer (command ∷ arguments) =
    if command == codes "rev-parse"
    then codes "/p"
    else if command == codes "diff"
    then 97 ∷ 0 ∷ []
    else []

abbrev run : Run (List Text)
run root arguments log = (record { returncode = 0; stdout = answer arguments }, root ∷ log)

abbrev files : Files
files = record {
  resolve = λ path. path;
  is_dir = λ path. false;
  is_file = λ path. false;
  read_text = λ path. none;
}

abbrev session : Session (List Text)
session = record { git = []; staged = (codes "demo", codes "a" ∷ []) ∷ [] }

abbrev done : Session (List Text)
done = (commit_locked run files (codes "demo") (codes "/p") (codes "message") session).1

committed :
    commit_locked run files (codes "demo") (codes "/p") (codes "message") session
    ≡ (ok (codes "a" ∷ []), done)
unfolding commit_locked assert_safe_git_mutation strip has_code contains get replace_code
    assert_permitted_path has_control has_encoded is_within relative_to strip_parts path_parts
    is_secret_path is_secret_clean is_secret_part suffix remove ◌==◌ split is_control_plane_path
    base_name
committed = refl

commit_locked-IsOwned_example :
    IsOwned run files (codes "/p") (codes "demo") (codes "a" ∷ []) session done
commit_locked-IsOwned_example =
    commit_locked-IsOwned run files (codes "/p") (codes "demo") (codes "message") (codes "a" ∷ [])
      session done committed

cut : fit_bytes (λ b. b) (97 ∷ 233 ∷ 98 ∷ []) 2 ≡ 97 ∷ []
unfolding fit_bytes shrink encode drop_last
cut = refl

fit_bytes-IsLongest_example :
    IsLongest 2 (97 ∷ 233 ∷ 98 ∷ []) (fit_bytes (λ b. b) (97 ∷ 233 ∷ 98 ∷ []) 2)
fit_bytes-IsLongest_example = fit_bytes-IsLongest (λ b. b) (97 ∷ 233 ∷ 98 ∷ []) 2

abbrev switched : List Text
switched = (branch_locked run files (codes "/p") (codes "main") []).1

switched_to_main : branch_locked run files (codes "/p") (codes "main") [] ≡ (ok switch, switched)
unfolding branch_locked dirty_worktree assert_switch_targets_safe recheck_paths
    assert_safe_git_mutation strip has_code contains replace_code assert_permitted_path has_control
    has_encoded is_within relative_to strip_parts path_parts is_secret_path is_secret_clean
    is_secret_part suffix ◌==◌ split is_control_plane_path base_name
switched_to_main = refl

branch_locked-IsCleanSwitch_example :
    IsCleanSwitch run files (codes "/p") (codes "main") [] switched switch
branch_locked-IsCleanSwitch_example =
    branch_locked-IsCleanSwitch run files (codes "/p") (codes "main") [] switched switch
      switched_to_main
