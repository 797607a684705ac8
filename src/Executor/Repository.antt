-- ===== src/Executor/Repository.antt =====
-- src/jvc/execution/executor.py: the checks of a repository before Git runs on it for a mutation.
use jvc_core.Base.{
  ℕ, Bool, false, not, ◌&&◌, ◌||◌, Option, none, some, List, [], ◌∷◌, ◌++◌, Text, codes, ◌==◌,
  casefold, strip, strip_prefix, starts_with, ends_with, lstrip, replace_code, has_code, split,
  select, contains, is_empty, length, ltb, nat_eq, leb, any, if◌then◌else◌,
}
use jvc_core.Authority.Base64.{rstrip_code}
use jvc_core.Exec.{ok, Exec, pure, guard, ◌>>=◌, ◌>>◌}
use jvc_core.Boundaries.Targets.{PathError, Resolve}

-- What a run of Git returns.
pub record Reply : Type 0 where
  pub returncode : ℕ
  pub stdout : Text

-- Git itself, with the state of the repositories: the root and the arguments.
abbrev pub Run : Type 0 → Type 0
Run S = Text → List Text → S → Reply × S

-- The files that the executor itself reads: a path's text, if it can be read.
pub record Files : Type 0 where
  pub resolve : Resolve
  pub is_dir : Text → Bool
  pub is_file : Text → Bool
  pub read_text : Text → Option Text

pub data GitError : Type 0 where
  git_failed redirected unsafe_config unsafe_attributes executable_attribute : GitError
  not_exact directory_target pathspec_expansion unrelated_staged nothing_staged unowned : GitError
  invalid_ref dirty : GitError
  path_error : PathError → GitError

abbrev pub passed : Reply → Bool
passed r = nat_eq r.returncode 0

-- `text.partition(d)`: what stands before and after the separator.
abbrev pub partition : ℕ → Text → Text × Text
partition d [] = ([], [])
partition d (c ∷ s) = let (a, b) = partition d s in if nat_eq c d then ([], s) else (c ∷ a, b)

abbrev pub is_line_break : ℕ → Bool
is_line_break c =
    (leb 10 c && leb c 13)
    || (leb 28 c && leb c 30)
    || nat_eq c 0x85
    || nat_eq c 0x2028
    || nat_eq c 0x2029

-- `text.splitlines()`, with empty lines that the callers pass over.
abbrev pub push_line : ℕ → List Text → List Text
push_line c [] = (c ∷ []) ∷ []
push_line c (l ∷ ls) = (c ∷ l) ∷ ls

unfoldable pub splitlines : Text → List Text
splitlines [] = [] ∷ []
splitlines (c ∷ s) =
    let rest = splitlines s in if is_line_break c then [] ∷ rest else push_line c rest

-- `x for x in stdout.split("\0") if x`
unfoldable pub nul_fields : Text → List Text
unfolding split
nul_fields s = select (λ x. not (is_empty x)) (split 0 s)

abbrev pub read_entry : Text → Text × Text
read_entry line =
    let (origin, rest) = partition 9 line in
    let (key, value) = partition b'=' rest in (strip origin, casefold (strip key))

abbrev pub config_entries : List Text → List (Text × Text)
config_entries [] = []
config_entries (line ∷ lines) =
    let rest = config_entries lines in
    if has_code 9 line && has_code b'=' line then read_entry line ∷ rest else rest

-- `.+` and one of the endings
abbrev pub ends_after : List Text → Option Text → Bool
ends_after endings none = false
ends_after endings (some s) = any (λ e. ends_with e s && ltb (length e) (length s)) endings

-- `any(rx.match(key) for rx in _UNSAFE_GIT_KEY_RES)`, for keys in lower case
unfoldable pub is_unsafe_key : Text → Bool
unfolding starts_with ends_with strip_prefix ◌==◌
is_unsafe_key key =
    key == codes "include"
    || starts_with (codes "include.") key
    || starts_with (codes "includeif.") key
    || ends_after (codes ".clean" ∷ codes ".smudge" ∷ codes ".process" ∷ codes ".required" ∷ [])
        (strip_prefix (codes "filter.") key)
    || ends_after (codes ".command" ∷ codes ".textconv" ∷ []) (strip_prefix (codes "diff.") key)
    || contains key (
        codes "diff.external"
        ∷ codes "core.fsmonitor"
        ∷ codes "core.attributesfile"
        ∷ codes "core.sshcommand"
        ∷ codes "core.worktree"
        ∷ codes "extensions.worktreeconfig"
        ∷ codes "commit.gpgsign"
        ∷ codes "tag.gpgsign"
        ∷ [])
    || starts_with (codes "gpg.") key

-- `origin.lower().rstrip(":") == "command line"`
abbrev pub only_colons : Option Text → Bool
only_colons none = false
only_colons (some s) = not (any (λ c. not (nat_eq c b':')) s)

abbrev pub is_command_line : Text → Bool
is_command_line origin = only_colons (strip_prefix (codes "command line") (casefold origin))

abbrev pub is_unsafe_entry : Text × Text → Bool
is_unsafe_entry (origin, key) = not (is_command_line origin) && is_unsafe_key key

-- `(filter|diff|merge)\s*=|textconv|working-tree-encoding` at the beginning
abbrev pub assigns : Option Text → Bool
assigns none = false
assigns (some s) = starts_with (codes "=") (lstrip s)

abbrev pub selects_here : Text → Bool
selects_here s =
    assigns (strip_prefix (codes "filter") s)
    || assigns (strip_prefix (codes "diff") s)
    || assigns (strip_prefix (codes "merge") s)
    || starts_with (codes "textconv") s
    || starts_with (codes "working-tree-encoding") s

unfoldable pub selects_helper : Text → Bool
unfolding starts_with strip_prefix lstrip
selects_helper [] = false
selects_helper (c ∷ s) = selects_here (c ∷ s) || selects_helper s

abbrev pub join_lines : List Text → Text
join_lines [] = []
join_lines (l ∷ []) = l
join_lines (l ∷ m ∷ ls) = l ++ 10 ∷ join_lines (m ∷ ls)

abbrev pub without_comments : List Text → List Text
without_comments [] = []
without_comments (l ∷ ls) = (partition b'#' l).0 ∷ without_comments ls

abbrev pub unsafe_text : Option Text → Bool
unsafe_text none = false
unsafe_text (some s) = selects_helper (casefold (join_lines (without_comments (splitlines s))))

-- `parts[-1]` of a line of `git check-attr`, if it has three parts.
abbrev pub attribute_value : List Text → Option Text
attribute_value (a ∷ b ∷ c ∷ ps) = some (last_part c ps)
  where
    last_part : Text → List Text → Text
    last_part x [] = x
    last_part x (y ∷ ys) = last_part y ys
attribute_value _ = none

abbrev pub is_set : Option Text → Bool
is_set none = false
is_set (some value) =
    not (
      contains (casefold (strip value))
        (codes "unspecified" ∷ codes "unset" ∷ codes "unknown" ∷ []))

module _ {S : Type 0} (run : Run S) (files : Files) where
  abbrev pub run_git : Text → List Text → Exec GitError S Reply
  run_git root arguments s = let (r, s') = run root arguments s in (ok r, s')

  abbrev pub run_passed : Text → List Text → Exec GitError S Reply
  run_passed root arguments = do r ← run_git root arguments; guard (passed r) git_failed; pure r

  -- No worktree redirection, and no unsafe key but those of the command line.
  unfoldable pub assert_safe_git_repo : Text → Exec GitError S (Unit {0})
  unfolding is_unsafe_key splitlines
  assert_safe_git_repo root = do
    top ← run_passed root (codes "rev-parse" ∷ codes "--show-toplevel" ∷ [])
    guard (files.resolve (strip top.stdout) == files.resolve root) redirected
    config ← run_passed root (codes "config" ∷ codes "--list" ∷ codes "--show-origin" ∷ [])
    guard (not (any is_unsafe_entry (config_entries (splitlines config.stdout)))) unsafe_config

  abbrev pub below : Text → Text → Text
  below root rel = root ++ b'/' ∷ rel

  abbrev pub attribute_files : Text → Reply → List Text
  attribute_files root r =
      if not (passed r)
      then []
      else if files.is_file (below root (codes ".gitattributes"))
          && not (contains (codes ".gitattributes") (nul_fields r.stdout))
      then nul_fields r.stdout ++ codes ".gitattributes" ∷ []
      else nul_fields r.stdout

  unfoldable pub assert_no_executable_gitattributes : Text → Exec GitError S (Unit {0})
  unfolding nul_fields selects_helper
  assert_no_executable_gitattributes root = do
    r ← run_git root (
        codes "ls-files"
        ∷ codes "-z"
        ∷ codes "--"
        ∷ codes ".gitattributes"
        ∷ codes "*/.gitattributes"
        ∷ [])
    guard (not (any (λ f. unsafe_text (files.read_text (below root f))) (attribute_files root r)))
        unsafe_attributes

  unfoldable pub assert_safe_git_mutation : Text → Exec GitError S (Unit {0})
  unfolding assert_safe_git_repo assert_no_executable_gitattributes
  assert_safe_git_mutation root = do
    assert_safe_git_repo root
    assert_no_executable_gitattributes root

  -- No filter, diff, textconv or merge attribute of the path is set.
  unfoldable pub assert_path_attrs_safe : Text → Text → Exec GitError S (Unit {0})
  unfolding splitlines
  assert_path_attrs_safe root rel = do
    r ← run_passed root (
        codes "check-attr"
        ∷ codes "filter"
        ∷ codes "diff"
        ∷ codes "textconv"
        ∷ codes "merge"
        ∷ codes "--"
        ∷ rel
        ∷ [])
    guard (not (any (λ l. is_set (attribute_value (split b':' l))) (splitlines r.stdout)))
        executable_attribute

  -- An entry that the path is a directory of, or that is a directory of the path.
  abbrev pub expands : Text → Text → Bool
  expands rel entry =
      let normalized = replace_code 92 b'/' entry in
      not (normalized == rel)
      && (starts_with (rstrip_code b'/' rel ++ codes "/") normalized
          || starts_with (normalized ++ codes "/") rel)

  abbrev pub any_expands : Text → Reply → Bool
  any_expands rel r = passed r && any (expands rel) (nul_fields r.stdout)

  unfoldable pub assert_exact_file_target : Text → Text → Exec GitError S (Unit {0})
  unfolding nul_fields starts_with
  assert_exact_file_target root rel = do
    index ← run_git root (codes "ls-files" ∷ codes "-z" ∷ codes "--" ∷ rel ∷ [])
    guard (not (any_expands rel index)) pathspec_expansion
    head ← run_git root (
        codes "ls-tree"
        ∷ codes "-r"
        ∷ codes "--name-only"
        ∷ codes "-z"
        ∷ codes "HEAD"
        ∷ codes "--"
        ∷ rel
        ∷ [])
    guard (not (any_expands rel head)) pathspec_expansion
