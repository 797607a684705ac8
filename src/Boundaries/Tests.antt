-- ===== src/Boundaries/Tests.antt =====
-- The theorems of the boundaries at concrete paths. Here every path is its own resolution.
use jvc_core.Base.{
  arith, ◌≡◌, refl, true, false, [], codes, upper, strip, has_code, strip_parts, path_parts, suffix,
  replace_code, base_name, starts_with,
}
use jvc_core.Exec.{ok, err}
use jvc_core.Boundaries.Paths.{
  is_secret_path, is_secret_clean, is_secret_part, is_control_plane_path,
}
use jvc_core.Boundaries.Targets.{
  Resolve, assert_permitted_path, is_within, relative_to, has_control, has_encoded,
  control_plane_denied, secret_denied,
}
use jvc_core.Boundaries.Spelling.{IsAscii, spelling-SameClass}
use jvc_core.Boundaries.Permitted.{IsPermitted, assert_permitted_path-IsPermitted}

abbrev resolve : Resolve
resolve p = p

permitted :
    assert_permitted_path resolve (codes "/p") (codes "src\\Main.py") false [] []
    ≡ ok (codes "/p/src/Main.py", codes "src/Main.py")
unfolding assert_permitted_path is_within relative_to has_control has_encoded is_secret_path
    is_control_plane_path strip starts_with has_code strip_parts path_parts is_secret_clean
    is_secret_part suffix base_name
permitted = refl

denied_config :
    assert_permitted_path resolve (codes "/p") (codes "_CONFIG/policy.json") false [] []
    ≡ err control_plane_denied
unfolding assert_permitted_path is_within relative_to has_control has_encoded is_secret_path
    is_control_plane_path strip starts_with has_code strip_parts path_parts is_secret_clean
    is_secret_part suffix base_name
denied_config = refl

denied_secret :
    assert_permitted_path resolve (codes "/p") (codes "a/Recovery_Phrase.txt") true [] []
    ≡ err secret_denied
unfolding assert_permitted_path is_within relative_to has_control has_encoded is_secret_path
    is_control_plane_path strip starts_with has_code strip_parts path_parts is_secret_clean
    is_secret_part suffix base_name
denied_secret = refl

assert_permitted_path-IsPermitted_example :
    IsPermitted resolve (codes "/p") false [] [] (codes "/p/src/Main.py") (codes "src/Main.py")
assert_permitted_path-IsPermitted_example =
    assert_permitted_path-IsPermitted resolve (codes "/p") (codes "src\\Main.py") false [] []
      (codes "/p/src/Main.py") (codes "src/Main.py") permitted

ascii : IsAscii (codes "k/a.pem")
ascii = omega arith

spelling-SameClass_example :
    (is_secret_path (upper (codes "k/a.pem")) ≡ is_secret_path (codes "k/a.pem"))
    × (is_secret_path (replace_code b'/' 92 (codes "k/a.pem")) ≡ is_secret_path (codes "k/a.pem"))
    × (is_control_plane_path [] [] (upper (codes "k/a.pem"))
        ≡ is_control_plane_path [] [] (codes "k/a.pem"))
    × (is_control_plane_path [] [] (replace_code b'/' 92 (codes "k/a.pem"))
        ≡ is_control_plane_path [] [] (codes "k/a.pem"))
spelling-SameClass_example = spelling-SameClass [] [] (codes "k/a.pem") ascii
