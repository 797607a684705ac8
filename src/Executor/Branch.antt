-- ===== src/Executor/Branch.antt =====
-- src/jvc/execution/executor.py: `_dirty_worktree`, `_assert_switch_targets_safe` and what
-- `git_branch` does under the Git lock of the repository.
use jvc_core.Base.{
  Bool, true, false, not, ◌∷◌, [], List, Option, none, some, ◌++◌, Text, codes, has_infix, is_empty,
  strip_prefix, replace_code, map, select, if◌then◌else◌,
}
use jvc_core.Exec.{Exec, pure, guard, lift, ◌>>=◌, ◌>>◌}
use jvc_core.Executor.Repository.{
  Reply, Run, Files, GitError, invalid_ref, dirty, nul_fields, passed, run_git, run_passed,
  assert_safe_git_mutation,
}
use jvc_core.Executor.Git.{has_paths, recheck_paths, permit_all}

-- `entry.split(" -> ", 1)[1]`, if the arrow is there.
unfoldable pub after_arrow : Text → Text
unfolding strip_prefix
after_arrow [] = []
after_arrow (c ∷ s) = after_or (after_arrow s) (strip_prefix (codes " -> ") (c ∷ s))
  where
    after_or : Text → Option Text → Text
    after_or later none = later
    after_or later (some rest) = rest

-- `rec[3:] if len(rec) > 3 else rec`
abbrev pub entry_of : Text → Text
entry_of (a ∷ b ∷ c ∷ d ∷ s) = d ∷ s
entry_of record_text = record_text

abbrev pub new_name : Text → Text
new_name entry = if has_infix (codes " -> ") entry then after_arrow entry else entry

abbrev pub is_path : Text → Bool
is_path s = not (is_empty s)

-- Where the switch leads: to a branch that there was, or to a new one.
pub data Action : Type 0 where
  switch create : Action

module _ {S : Type 0} (run : Run S) (files : Files) where
  unfoldable pub dirty_worktree : Text → Exec GitError S (List Text)
  unfolding after_arrow nul_fields has_infix
  dirty_worktree root = do
    r ← run_passed run files root (codes "status" ∷ codes "--porcelain=v1" ∷ codes "-z" ∷ [])
    pure (
        map (replace_code 92 b'/')
          (select is_path (map (λ x. new_name (entry_of x)) (nul_fields r.stdout))))

  abbrev pub targets_of : Reply → List Text
  targets_of r = map (replace_code 92 b'/') (nul_fields r.stdout)

  unfoldable pub assert_switch_targets_safe : Text → Text → Exec GitError S (Unit {0})
  assert_switch_targets_safe root branch = do
    r ←
        run_passed run files root (
          codes "diff" ∷ codes "--name-only" ∷ codes "-z" ∷ codes "HEAD" ∷ branch ∷ codes "--" ∷ [])
    lift (permit_all (recheck_paths run files root (targets_of r)))

  abbrev pub switch_to : Text → Text → Bool → Exec GitError S Action
  switch_to root branch false = do
    r ← run_passed run files root (codes "switch" ∷ codes "-c" ∷ branch ∷ [])
    pure create
  switch_to root branch true = do
    assert_switch_targets_safe root branch
    r ← run_passed run files root (codes "switch" ∷ branch ∷ [])
    pure switch

  abbrev pub choose : Text → Text → Exec GitError S Action
  choose root branch = do
    shown ← run_git run files root (
        codes "show-ref"
        ∷ codes "--verify"
        ∷ codes "--quiet"
        ∷ (codes "refs/heads/" ++ branch)
        ∷ [])
    switch_to root branch (passed shown)

  abbrev pub when_clean : Text → Text → List Text → Exec GitError S Action
  when_clean root branch changes = do guard (not (has_paths changes)) dirty; choose root branch

  abbrev pub when_valid : Text → Text → Reply → Exec GitError S Action
  when_valid root branch check = do
    guard (passed check) invalid_ref
    changes ← dirty_worktree root
    when_clean root branch changes

  abbrev pub check_ref : Text → Text → Exec GitError S Action
  check_ref root branch = do
    check ← run_git run files root (codes "check-ref-format" ∷ codes "--branch" ∷ branch ∷ [])
    when_valid root branch check

  unfoldable pub branch_locked : Text → Text → Exec GitError S Action
  branch_locked root branch = do assert_safe_git_mutation run files root; check_ref root branch
