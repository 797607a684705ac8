-- ===== src/Runner/Environment.antt =====
-- src/jvc/execution/runner.py: `get_system_root` and `build_safe_subprocess_env`.
use jvc_core.Base.{
  ℕ, Bool, not, ◌&&◌, ◌||◌, Option, none, some, List, [], ◌∷◌, ◌++◌, map, Text, Bytes, Dict, codes,
  contains, is_empty, select, any, starts_with, has_infix, upper, if◌then◌else◌,
}
use jvc_core.Contracts.Runtime.{Process}

-- What is outside: the file system with the content of each file, the environment, the choice of
-- `tempfile.gettempdir()` among the variables that it reads, and
-- `subprocess.run` with its arguments, directory, timeout and environment.
pub record Host : Type 0 where
  pub is_windows : Bool
  pub resolve : Text → Text
  pub join : Text → Text → Text
  pub parent : Text → Text
  pub drive : Text → Text
  pub is_dir : Text → Bool
  pub environ : Text → Option Text
  pub temp_dir : List (Option Text) → Text
  pub hexdigest : Bytes → Text
  pub files : Dict Bytes
  pub run : List Text → Text → ℕ → Dict Text → Process

-- `os.environ.get(name) or other`
abbrev pub or_else : Option Text → Text → Text
or_else none other = other
or_else (some v) other = if is_empty v then other else v

abbrev pub default : Option Text → Text → Text
default none other = other
default (some v) other = v

abbrev pub join_with : Text → List Text → Text
join_with separator [] = []
join_with separator (s ∷ []) = s
join_with separator (s ∷ t ∷ rest) = s ++ (separator ++ join_with separator (t ∷ rest))

-- The directories that are there, each one once, in order.
unfoldable pub unique_dirs : (Text → Bool) → List Text → List Text → List Text
unique_dirs is_dir seen [] = seen
unique_dirs is_dir seen (p ∷ ps) =
    unique_dirs is_dir (if is_dir p && not (contains p seen) then seen ++ p ∷ [] else seen) ps

-- The variables that are set to a text that is not empty.
unfoldable pub present : (Text → Option Text) → List Text → Dict Text
present environ [] = []
present environ (name ∷ names) =
    let rest = present environ names in
    if is_empty (default (environ name) []) then rest else (name, default (environ name) []) ∷ rest

abbrev pub profile_names : List Text
profile_names =
    codes "USERPROFILE"
    ∷ codes "HOMEDRIVE"
    ∷ codes "HOMEPATH"
    ∷ codes "LOCALAPPDATA"
    ∷ codes "APPDATA"
    ∷ []

abbrev pub secret_terms : List Text
secret_terms =
    codes "API_KEY" ∷ codes "TOKEN" ∷ codes "SECRET" ∷ codes "PASSWD" ∷ codes "PASSWORD" ∷ []

abbrev pub is_ambient : Text → Bool
is_ambient k =
    starts_with (codes "GIT_") (upper k) || any (λ term. has_infix term (upper k)) secret_terms

abbrev pub sanitize : Dict Text → Dict Text
sanitize env = select (λ (k, v). not (is_ambient k)) env

-- The values of the variables that `tempfile.gettempdir()` reads, the last four on Windows; what it
-- has once found it keeps.
abbrev pub temp_values : (Text → Option Text) → List (Option Text)
temp_values environ =
    environ (codes "TMPDIR")
    ∷ environ (codes "TEMP")
    ∷ environ (codes "TMP")
    ∷ environ (codes "SYSTEMROOT")
    ∷ environ (codes "USERPROFILE")
    ∷ environ (codes "HOMEDRIVE")
    ∷ environ (codes "HOMEPATH")
    ∷ []

module _ (h : Host) where
  abbrev pub get_system_root : Text
  get_system_root =
      if h.is_windows
      then h.resolve (
          or_else (h.environ (codes "SystemRoot"))
            (or_else (h.environ (codes "WINDIR")) (codes "C:\\Windows")))
      else codes "/"

  abbrev pub windows_dirs : Text → List Text → List Text
  windows_dirs win extra =
      (h.join win (codes "System32")
        ∷ win
        ∷ h.join (h.join win (codes "System32")) (codes "Wbem")
        ∷ h.join (h.join (h.join win (codes "System32")) (codes "WindowsPowerShell")) (codes "v1.0")
        ∷ [])
      ++ map h.resolve extra

  abbrev pub windows_env : Text → List Text → Dict Text
  windows_env win extra =
      ((codes "SystemRoot", win)
        ∷ (codes "WINDIR", win)
        ∷ (codes "SystemDrive", or_else (some (h.drive win)) (codes "C:"))
        ∷ (codes "TEMP", h.resolve (h.temp_dir (temp_values h.environ)))
        ∷ (codes "TMP", h.resolve (h.temp_dir (temp_values h.environ)))
        ∷ (codes "PATH", join_with (codes ";") (unique_dirs h.is_dir [] (windows_dirs win extra)))
        ∷ (codes "PATHEXT", codes ".COM;.EXE;.BAT;.CMD")
        ∷ (codes "COMSPEC", h.join (h.join win (codes "System32")) (codes "cmd.exe"))
        ∷ [])
      ++ present h.environ profile_names

  abbrev pub posix_dirs : List Text → List Text
  posix_dirs extra =
      (codes "/usr/bin" ∷ codes "/bin" ∷ codes "/usr/local/bin" ∷ []) ++ map h.resolve extra

  abbrev pub posix_env : List Text → Dict Text
  posix_env extra =
      (codes "PATH", join_with (codes ":") (select h.is_dir (posix_dirs extra)))
      ∷ (codes "TEMP", h.resolve (h.temp_dir (temp_values h.environ)))
      ∷ (codes "TMP", h.resolve (h.temp_dir (temp_values h.environ)))
      ∷ (codes "HOME", default (h.environ (codes "HOME")) (codes "/tmp"))
      ∷ []

  unfoldable pub build_safe_subprocess_env : List Text → Bool → Dict Text
  unfolding unique_dirs present
  build_safe_subprocess_env extra sanitize_ambient =
      let env = if h.is_windows then windows_env get_system_root extra else posix_env extra in
      if sanitize_ambient then sanitize env else env
