-- ===== src/Boundaries/Targets.antt =====
-- src/jvc/policy/boundaries.py: `is_within`, `canonical_target` and `assert_permitted_path`, on POSIX
-- paths.
use jvc_core.Base.{
  ℕ, Bool, true, false, not, ◌&&◌, ◌||◌, Option, none, some, List, [], ◌∷◌, ◌++◌, Text, codes,
  replace_code, strip, starts_with, has_code, path_parts, strip_parts, join, is_empty, nat_eq, leb,
  any, if◌then◌else◌,
}
use jvc_core.Exec.{Result, ok, err}
use jvc_core.Boundaries.Paths.{is_secret_path, is_control_plane_path}

-- What `canonical_target` and `assert_permitted_path` raise.
pub data PathError : Type 0 where
  empty_path device_path invalid_characters absolute_path : PathError
  escapes_root is_root : PathError
  secret_denied control_plane_denied : PathError

-- `CONTROL_RE.search(s)`
unfoldable pub has_control : Text → Bool
has_control s = any (λ c. leb c 31 || nat_eq c 127) s

abbrev pub is_hex : ℕ → Bool
is_hex c = (leb b'0' c && leb c b'9') || (leb b'a' c && leb c b'f') || (leb b'A' c && leb c b'F')

abbrev pub hex_pair : Text → Bool
hex_pair (c ∷ d ∷ s) = is_hex c && is_hex d
hex_pair _ = false

-- `ENCODED_PATH_ALIAS_RE.search(s)`
unfoldable pub has_encoded : Text → Bool
has_encoded [] = false
has_encoded (c ∷ s) = (nat_eq c b'%' && hex_pair s) || has_encoded s

-- `Path.resolve()` of the file system at hand: the absolute path that a path stands for.
abbrev pub Resolve : Type 0
Resolve = Text → Text

-- `target.relative_to(base)`, by components
unfoldable pub relative_to : Text → Text → Option (List Text)
relative_to target base = strip_parts (path_parts base) (path_parts target)

abbrev pub is_some_path : Option (List Text) → Bool
is_some_path none = false
is_some_path (some parts) = true

-- Both paths are resolved.
unfoldable pub is_within : Resolve → Text → Text → Bool
is_within resolve candidate root = is_some_path (relative_to (resolve candidate) (resolve root))

abbrev pub below_root : Text → Option (List Text) → Result PathError (Text × Text)
below_root target none = err escapes_root
below_root target (some []) = err is_root
below_root target (some (p ∷ ps)) = ok (target, join (p ∷ ps))

unfoldable pub canonical_target : Resolve → Text → Text → Result PathError (Text × Text)
canonical_target resolve root relative =
    let clean = strip (replace_code 92 b'/' relative) in
    if is_empty clean
    then err empty_path
    else if starts_with (codes "//?/") clean || starts_with (codes "//./") clean
    then err device_path
    else if has_control clean || has_encoded clean
    then err invalid_characters
    else if starts_with (codes "/") clean || has_code b':' clean
    then err absolute_path
    else (let target = resolve (root ++ b'/' ∷ clean) in
        if not (is_within resolve target root)
        then err escapes_root
        else below_root target (relative_to target (resolve root)))

abbrev pub check_permitted :
    Bool → List Text → List Text → Result PathError (Text × Text) → Result PathError (Text × Text)
check_permitted privileged prefixes exact (err e) = err e
check_permitted privileged prefixes exact (ok (target, canonical)) =
    if is_secret_path canonical
    then err secret_denied
    else if not privileged && is_control_plane_path prefixes exact canonical
    then err control_plane_denied
    else ok (target, canonical)

unfoldable pub assert_permitted_path :
    Resolve → Text → Text → Bool → List Text → List Text → Result PathError (Text × Text)
unfolding canonical_target
assert_permitted_path resolve root relative privileged prefixes exact =
    check_permitted privileged prefixes exact (canonical_target resolve root relative)
