-- ===== src/Executor/Git.antt =====
-- src/jvc/execution/executor.py: `_staged_files`, `_dirty_worktree`, and what `git_stage`,
-- `git_commit` and `git_branch` do under the Git lock of the repository.
use jvc_core.Base.{
  Bool, true, false, not, ◌&&◌, ◌||◌, Option, none, some, List, [], ◌∷◌, ◌++◌, map, Text, Dict,
  codes, ◌==◌, get, put, remove, replace_code, has_code, contains, is_empty, any,
}
use jvc_core.Exec.{Result, ok, err, Exec, pure, gets, modify, guard, lift, ◌>>=◌, ◌>>◌}
use jvc_core.Boundaries.Targets.{PathError, assert_permitted_path}
use jvc_core.Executor.Repository.{
  Run, Files, GitError, not_exact, directory_target, unrelated_staged, nothing_staged, unowned,
  path_error, nul_fields, run_passed, assert_safe_git_mutation, assert_exact_file_target,
  assert_path_attrs_safe,
}

-- The repositories, and `_staged_paths`: what this session has staged, by project.
pub record Session (S : Type 0) : Type 0 where
  pub git : S
  pub staged : Dict (List Text)

abbrev pub Git : Type 0 → Type 0 → Type 0
Git S A = Exec GitError (Session S) A

-- A call of Git.
abbrev pub in_git : {S A : Type 0} → Exec GitError S A → Git S A
in_git m s = let (r, git) = m s.git in (r, record s { git = git })

abbrev pub owned_by : {S : Type 0} → Text → Session S → List Text
owned_by project s = or_none (get project s.staged)
  where
    or_none : Option (List Text) → List Text
    or_none none = []
    or_none (some paths) = paths

abbrev pub permit : Result PathError (Text × Text) → Result GitError (Text × Text)
permit (ok t) = ok t
permit (err e) = err (path_error e)

abbrev pub has_paths : List Text → Bool
has_paths [] = false
has_paths (x ∷ xs) = true

-- `xs - ys` is empty, for sets as lists.
abbrev pub all_in : List Text → List Text → Bool
all_in [] ys = true
all_in (x ∷ xs) ys = contains x ys && all_in xs ys

abbrev pub has_wildcard : Text → Bool
has_wildcard s = any (λ c. has_code c s) (codes "*?[]{}")

abbrev pub is_exact : Text → Bool
is_exact s = not (is_empty s || has_wildcard s || s == codes "." || s == codes "./")

abbrev pub and_then :
    Result PathError (Text × Text) → Result PathError (Unit {0}) → Result PathError (Unit {0})
and_then (err e) r = err e
and_then (ok t) r = r

abbrev pub permit_all : Result PathError (Unit {0}) → Result GitError (Unit {0})
permit_all (ok t) = ok t
permit_all (err e) = err (path_error e)

module _ {S : Type 0} (run : Run S) (files : Files) where
  unfoldable pub staged_files : Text → Exec GitError S (List Text)
  staged_files root = do
    r ←
        run_passed run files root
          (codes "diff" ∷ codes "--cached" ∷ codes "--name-only" ∷ codes "-z" ∷ [])
    pure (map (replace_code 92 b'/') (nul_fields r.stdout))

  abbrev pub permitted_path : Text → Text → Result PathError (Text × Text)
  permitted_path root rel = assert_permitted_path files.resolve root rel false [] []

  unfoldable pub stage_target : Text → Text → Exec GitError S Text
  stage_target root path = do
    guard (is_exact path) not_exact
    (target, canonical) ← lift (permit (permitted_path root path))
    guard (not (files.is_dir target)) directory_target
    assert_exact_file_target run files root canonical
    assert_path_attrs_safe run files root canonical
    pure canonical

  unfoldable pub stage_targets : Text → List Text → Exec GitError S (List Text)
  stage_targets root [] = pure []
  stage_targets root (p ∷ ps) = do
    canonical ← stage_target root p
    rest ← stage_targets root ps
    pure (canonical ∷ rest)

  abbrev pub own : Text → List Text → Session S → Session S
  own project paths s = record s { staged = put project (owned_by project s ++ paths) s.staged }

  unfoldable pub stage_locked : Text → Text → List Text → Git S (List Text)
  unfolding stage_targets staged_files
  stage_locked project root paths = do
    in_git (assert_safe_git_mutation run files root)
    resolved ← in_git (stage_targets root paths)
    current ← in_git (staged_files root)
    owned ← gets (owned_by project)
    guard (all_in current (resolved ++ owned)) unrelated_staged
    r ← in_git (run_passed run files root (codes "add" ∷ codes "--" ∷ resolved))
    modify (own project resolved)
    pure resolved

  -- Every staged file is verified again.
  unfoldable pub recheck_paths : Text → List Text → Result PathError (Unit {0})
  recheck_paths root [] = ok tt
  recheck_paths root (p ∷ ps) = and_then (permitted_path root p) (recheck_paths root ps)

  -- Once the staged files are known.
  abbrev pub commit_paths : Text → Text → Text → List Text → Git S (List Text)
  commit_paths project root message current = do
    owned ← gets (owned_by project)
    guard (has_paths current) nothing_staged
    guard (all_in current owned) unowned
    lift (permit_all (recheck_paths root current))
    r ← in_git (run_passed run files root (codes "commit" ∷ codes "-m" ∷ message ∷ []))
    modify (λ s. record s { staged = remove project s.staged })
    pure current

  unfoldable pub commit_locked : Text → Text → Text → Git S (List Text)
  unfolding staged_files recheck_paths
  commit_locked project root message = do
    in_git (assert_safe_git_mutation run files root)
    current ← in_git (staged_files root)
    commit_paths project root message current
