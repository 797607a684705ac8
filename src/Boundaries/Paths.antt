-- ===== src/Boundaries/Paths.antt =====
-- src/jvc/policy/boundaries.py: secret-bearing and control-plane paths.
use jvc_core.Base.{
  Bool, true, false, not, ◌&&◌, ◌||◌, Option, none, some, List, [], ◌∷◌, Text, codes, ◌==◌,
  contains, any, casefold, replace_code, strip_code, split, select, suffix, strip_prefix,
  starts_with, has_infix, has_code, base_name, is_empty, nat_eq, if◌then◌else◌,
}

-- `relative_path.replace("\\", "/").casefold().strip("/")`
unfoldable pub clean_path : Text → Text
unfolding replace_code casefold strip_code
clean_path path = strip_code b'/' (casefold (replace_code 92 b'/' path))

abbrev pub secret_files : List Text
secret_files =
    codes ".claude/settings.local.json"
    ∷ codes ".ssh/config"
    ∷ codes ".ssh/authorized_keys"
    ∷ codes ".ssh/id_rsa"
    ∷ codes ".ssh/id_ed25519"
    ∷ []

abbrev pub secret_suffixes : List Text
secret_suffixes = codes ".pem" ∷ codes ".key" ∷ codes ".ppk" ∷ codes ".p12" ∷ codes ".pfx" ∷ []

-- The names that SECRET_RE accepts alone or with a dot and more.
abbrev pub secret_stems : List Text
secret_stems =
    codes ".env"
    ∷ codes "credential"
    ∷ codes "credentials"
    ∷ codes "secret"
    ∷ codes "secrets"
    ∷ codes "token"
    ∷ codes "tokens"
    ∷ codes "auth"
    ∷ codes "id_rsa"
    ∷ codes "id_ed25519"
    ∷ []

-- `.*` stops at a line break.
abbrev pub one_line : Text → Bool
one_line s = not (has_code 10 s)

-- `(?:\..*)?` at the end of a name
abbrev pub ends_stem : Text → Bool
ends_stem [] = true
ends_stem (c ∷ s) = nat_eq c b'.' && one_line s

abbrev pub follows_stem : Option Text → Bool
follows_stem none = false
follows_stem (some rest) = ends_stem rest

abbrev pub has_stem : Text → Text → Bool
has_stem part stem = follows_stem (strip_prefix stem part)

-- `(?:phrase|seed)` at the beginning
abbrev pub names_seed : Text → Bool
names_seed s = starts_with (codes "phrase") s || starts_with (codes "seed") s

-- `[-_ ]?(?:phrase|seed)` at the beginning
abbrev pub separated_seed : Text → Bool
separated_seed [] = false
separated_seed (c ∷ s) =
    names_seed (c ∷ s) || ((nat_eq c b'-' || nat_eq c b'_' || nat_eq c b' ') && names_seed s)

abbrev pub follows_recovery : Option Text → Bool
follows_recovery none = false
follows_recovery (some rest) = separated_seed rest

-- `recovery[-_ ]?(?:phrase|seed)` anywhere
unfoldable pub mentions_recovery : Text → Bool
mentions_recovery [] = false
mentions_recovery (c ∷ s) =
    follows_recovery (strip_prefix (codes "recovery") (c ∷ s)) || mentions_recovery s

-- `SECRET_RE.fullmatch(part)`
unfoldable pub matches_secret : Text → Bool
unfolding strip_prefix has_code starts_with mentions_recovery
matches_secret part = any (has_stem part) secret_stems || (mentions_recovery part && one_line part)

unfoldable pub is_secret_part : Text → Bool
unfolding matches_secret
is_secret_part part = matches_secret part || contains (casefold (suffix part)) secret_suffixes

unfoldable pub is_secret_clean : Text → Bool
unfolding contains split matches_secret
is_secret_clean clean =
    contains clean secret_files
    || any is_secret_part (select (λ p. not (is_empty p)) (split b'/' clean))

unfoldable pub is_secret_path : Text → Bool
unfolding clean_path
is_secret_path path = is_secret_clean (clean_path path)

abbrev pub default_exact : List Text
default_exact =
    codes ".continuity/policy.json"
    ∷ codes ".continuity/state.json"
    ∷ codes ".continuity/plan-index.json"
    ∷ codes ".continuity/decision-index.json"
    ∷ codes "_config/declared-execution-manifest.json"
    ∷ codes "_config/governance-policy.json"
    ∷ codes "_config/jvc-executor-integrity.json"
    ∷ codes "_config/trusted-executables.json"
    ∷ codes "_config/continuity-contract.md"
    ∷ codes "_config/startup-budgets.json"
    ∷ []

abbrev pub default_prefixes : List Text
default_prefixes =
    codes ".git/"
    ∷ codes ".continuity/"
    ∷ codes "_config/"
    ∷ codes "_promotions/"
    ∷ codes "contracts/"
    ∷ []

abbrev pub config_terms : List Text
config_terms =
    codes "policy" ∷ codes "manifest" ∷ codes "integrity" ∷ codes "trusted-executable" ∷ []

-- `given or default`
abbrev pub or_default : List Text → List Text → List Text
or_default [] default = default
or_default (x ∷ xs) default = x ∷ xs

-- The tests on the cleaned path, in the order of the source.
unfoldable pub is_control_plane_clean : List Text → List Text → Text → Bool
is_control_plane_clean prefixes exact clean =
    if clean == codes ".git" || contains clean exact
    then true
    else if base_name clean == codes ".gitattributes"
    then true
    else if any (λ prefix. starts_with prefix clean) prefixes
    then true
    else starts_with (codes "_config/") clean
      && any (λ t. has_infix t (base_name clean)) config_terms

-- The prefixes and the exact files that the caller gives; none stands for the defaults.
unfoldable pub is_control_plane_path : List Text → List Text → Text → Bool
unfolding is_control_plane_clean clean_path
is_control_plane_path prefixes exact path =
    is_control_plane_clean (or_default prefixes default_prefixes) (or_default exact default_exact)
      (clean_path path)
