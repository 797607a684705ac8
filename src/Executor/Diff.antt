-- ===== src/Executor/Diff.antt =====
-- src/jvc/execution/executor.py: `git_diff`.
use jvc_core.Base.{
  ℕ, Bool, true, false, not, ◌||◌, Option, none, some, List, [], ◌∷◌, ◌++◌, Text, Bytes, codes,
  ◌==◌, replace_code, is_empty, ends_with, if◌then◌else◌,
}
use jvc_core.Exec.{Result, ok, err, Exec, pure, guard, lift, ◌>>=◌, ◌>>◌}
use jvc_core.Configuration.Registry.{Route, ProjectRegistry, get_route}
use jvc_core.Authority.Base64.{rstrip_code}
use jvc_core.Executor.Repository.{
  Run, Files, GitError, not_exact, directory_target, assert_safe_git_repo, assert_exact_file_target,
  assert_path_attrs_safe,
}
use jvc_core.Executor.Git.{permit, permitted_path, has_wildcard}
use jvc_core.Executor.Output.{Capped, CappedRead, capped_git_read}

pub data DiffError : Type 0 where
  unknown_project missing_root no_paths : DiffError
  git_error : GitError → DiffError

pub data DiffOutcome : Type 0 where
  not_applicable : DiffOutcome
  inspected : List Text → CappedRead → DiffOutcome

-- What `_run_git_capped` does with the arguments, up to a number of bytes of output.
abbrev pub RunCapped : Type 0 → Type 0
RunCapped S = Text → List Text → ℕ → S → Capped × S

abbrev pub is_exact_file : Text → Bool
is_exact_file s = not (
    is_empty s
    || has_wildcard s
    || s == codes "."
    || s == codes "./"
    || ends_with (codes "/.") (rstrip_code b'/' (replace_code 92 b'/' s)))

abbrev pub paths_or_none : Option (List Text) → List Text
paths_or_none none = []
paths_or_none (some paths) = paths

abbrev pub is_requested : List Text → Bool
is_requested [] = false
is_requested (p ∷ ps) = true

abbrev pub as_diff : {A : Type 0} → Result GitError A → Result DiffError A
as_diff (ok a) = ok a
as_diff (err e) = err (git_error e)

module _ {S : Type 0} (run : Run S) (files : Files) (run_capped : RunCapped S)
    (decode : Bytes → Text) where
  abbrev pub lift_git : {A : Type 0} → Exec GitError S A → Exec DiffError S A
  lift_git m s = let (r, t) = m s in (as_diff r, t)

  unfoldable pub diff_target : Text → Text → Exec GitError S Text
  diff_target root item = do
    guard (is_exact_file item) not_exact
    (target, canonical) ← lift (permit (permitted_path run files root item))
    guard (not (files.is_dir target)) directory_target
    assert_exact_file_target run files root canonical
    assert_path_attrs_safe run files root canonical
    pure canonical

  unfoldable pub diff_targets : Text → List Text → Exec GitError S (List Text)
  unfolding diff_target
  diff_targets root [] = pure []
  diff_targets root (p ∷ ps) = do
    canonical ← diff_target root p
    rest ← diff_targets root ps
    pure (canonical ∷ rest)

  abbrev pub read_diff : Text → List Text → ℕ → Exec GitError S CappedRead
  read_diff root paths max_bytes s =
      let (r, t) =
        run_capped root
          (codes "diff" ∷ codes "--no-ext-diff" ∷ codes "--no-textconv" ∷ codes "--" ∷ paths)
          max_bytes s in
      (ok (capped_git_read decode max_bytes r), t)

  -- The audit of the repository stands before any other command of Git.
  abbrev pub diff_files : Text → List Text → ℕ → Exec GitError S DiffOutcome
  diff_files root requested max_bytes = do
    assert_safe_git_repo run files root
    paths ← diff_targets root requested
    read ← read_diff root paths max_bytes
    pure (inspected paths read)

  abbrev pub diff_route :
      Route → Option (List Text) → Option (List Text) → ℕ → Exec DiffError S DiffOutcome
  diff_route r path paths max_bytes =
      let requested = paths_or_none paths ++ paths_or_none path in
      if not (files.is_dir (r.root ++ codes "/.git"))
      then pure not_applicable
      else if is_requested requested
      then lift_git (diff_files r.root requested max_bytes)
      else (λ s. (err no_paths, s))

  abbrev pub diff_found :
      Option Route → Option (List Text) → Option (List Text) → ℕ → Exec DiffError S DiffOutcome
  diff_found none path paths max_bytes s = (err unknown_project, s)
  diff_found (some r) path paths max_bytes s =
      if files.is_dir r.root then diff_route r path paths max_bytes s else (err missing_root, s)

  -- A path alone is a list of one.
  unfoldable pub git_diff :
      ProjectRegistry
      → Text
      → Option (List Text)
      → Option (List Text)
      → ℕ
      → Exec DiffError S DiffOutcome
  unfolding diff_targets
  git_diff registry project_id path paths max_bytes =
      diff_found (get_route registry project_id) path paths max_bytes
