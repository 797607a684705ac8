-- ===== src/Locks/Placement.antt =====
-- src/jvc/policy/locks.py: what `ResourceLock._validate` checks before a lock file is opened.
use jvc_core.Base.{
  ℕ, Bool, not, ◌||◌, Option, none, some, List, ◌∷◌, ◌++◌, Text, codes, has_code, is_empty, is_some,
  any, if◌then◌else◌,
}
use jvc_core.Exec.{Result, ok, err}
use jvc_core.Boundaries.Targets.{relative_to}

pub data LockError : Type 0 where
  no_mechanism invalid_name unresolved is_a_file inside_root not_created : LockError
  not_opened timed_out not_released : LockError

-- The file system: the resolution of a path, whether it is a file, whether the directory is made.
pub record Place : Type 0 where
  pub resolve : Text → Option Text
  pub is_file : Text → Bool
  pub makes_directory : Text → Bool

pub record ResourceLock : Type 0 where
  pub lock_dir : Text
  pub name : Text
  pub timeout : ℕ
  pub governed_roots : List Text
  pub supported : Bool

abbrev pub is_governed : List Text → Text → Bool
is_governed roots path = any (λ root. is_some (relative_to path root)) roots

abbrev pub candidate_in : Text → Text → Text
candidate_in directory name = directory ++ b'/' ∷ (name ++ codes ".lock")

abbrev pub check_candidate : List Text → Text → Option Text → Result LockError Text
check_candidate roots candidate none = err unresolved
check_candidate roots candidate (some path) =
    if is_governed roots path then err inside_root else ok candidate

abbrev pub check_directory : Place → ResourceLock → Option Text → Result LockError Text
check_directory p l none = err unresolved
check_directory p l (some directory) =
    if p.is_file directory
    then err is_a_file
    else if is_governed l.governed_roots directory
    then err inside_root
    else if not (p.makes_directory directory)
    then err not_created
    else check_candidate l.governed_roots (candidate_in directory l.name)
        (p.resolve (candidate_in directory l.name))

-- The path of the lock file.
unfoldable pub validate_lock : Place → ResourceLock → Result LockError Text
unfolding has_code
validate_lock p l =
    if not l.supported
    then err no_mechanism
    else if is_empty l.name || has_code b'/' l.name || has_code 92 l.name
    then err invalid_name
    else check_directory p l (p.resolve l.lock_dir)
