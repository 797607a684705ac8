-- ===== src/Contracts/Persistence.antt =====
-- src/jvc/contracts.py: `persistence_report`.
use jvc_core.Base.{
  Bool, true, false, ◌&&◌, Option, none, some, List, [], ◌∷◌, Text, Bytes, Dict, codes, strip,
  is_empty, if◌then◌else◌,
}
use jvc_core.Exec.{Result, ok}
use jvc_core.Contracts.Json.{Json, Fields, Fault, ◌>>=◌, item, is_text}

-- What is outside: the content of a file below the root, `git ls-files --error-unmatch` of a path by
-- its success, and `git rev-parse --show-toplevel`, with its error output if it fails.
pub record Checkout : Type 0 where
  pub read_file : Text → Option Bytes
  pub is_tracked : Text → Bool
  pub toplevel_error : Option Text
  pub hexdigest : Bytes → Text

pub record PersistenceReport : Type 0 where
  pub passed : Bool
  pub mode : Json
  pub missing : List Text
  pub untracked : List Text
  pub sha256 : Dict Text
  pub detail : Text

abbrev pub required_persisted_files : List Text
required_persisted_files = codes "AGENTS.md" ∷ codes "CONTEXT.md" ∷ codes "HANDOFF.md" ∷ []

abbrev pub or_unavailable : Text → Text
or_unavailable message = if is_empty message then codes "Git repository unavailable" else message

abbrev pub error_of : Option Text → Text
error_of none = []
error_of (some stderr) = or_unavailable (strip stderr)

abbrev pub detail_of : Text → Bool → Text
detail_of [] true = codes "required onboarding files persist"
detail_of [] false = codes "persistence requirements failed"
detail_of (c ∷ git_error) passed = c ∷ git_error

abbrev pub is_none : List Text → Bool
is_none [] = true
is_none (x ∷ xs) = false

module _ (k : Checkout) where
  abbrev pub push_missing : Text → Option Bytes → List Text → List Text
  push_missing relative none rest = relative ∷ rest
  push_missing relative (some content) rest = rest

  unfoldable pub missing_files : List Text → List Text
  missing_files [] = []
  missing_files (relative ∷ rest) =
      push_missing relative (k.read_file relative) (missing_files rest)

  abbrev pub push_hash : Text → Option Bytes → Dict Text → Dict Text
  push_hash relative none rest = rest
  push_hash relative (some content) rest = (relative, k.hexdigest content) ∷ rest

  unfoldable pub file_hashes : List Text → Dict Text
  file_hashes [] = []
  file_hashes (relative ∷ rest) = push_hash relative (k.read_file relative) (file_hashes rest)

  unfoldable pub untracked_files : List Text → List Text
  untracked_files [] = []
  untracked_files (relative ∷ rest) =
      let others = untracked_files rest in
      if k.is_tracked relative then others else relative ∷ others

  abbrev pub report_on : Json → List Text → Text → PersistenceReport
  report_on mode untracked git_error =
      let missing = missing_files required_persisted_files in
      let passed = is_none missing && (is_none untracked && is_empty git_error) in
      record {
        passed = passed;
        mode = mode;
        missing = missing;
        untracked = untracked;
        sha256 = file_hashes required_persisted_files;
        detail = detail_of git_error passed;
      }

  -- Git is asked only if the contract has the mode git.
  unfoldable pub persistence_report : Fields → Result Fault PersistenceReport
  unfolding missing_files file_hashes untracked_files
  persistence_report contract = do
    mode ← item (codes "persistence") contract
    ok (
        if is_text mode (codes "git")
        then report_on mode (untracked_files required_persisted_files) (error_of k.toplevel_error)
        else report_on mode [] [])
