-- ===== src/Boundaries/Spelling.antt =====
-- The classification of a path does not depend on its spelling, and every path below a protected
-- directory is a control-plane path.
use jvc_core.Base.{
  ℕ, ◌<◌, ◌≡◌, refl, ap, false, ◌||◌, List, [], ◌∷◌, Text, codes, ◌==◌, contains, any, casefold,
  lower_code, upper, upper_code, replace_code, strip_code, starts_with, base_name, nat_eq,
  if◌then◌else◌, arith,
}
use jvc_core.Boundaries.Paths.{
  clean_path, is_secret_path, is_secret_clean, is_control_plane_path, is_control_plane_clean,
  or_default, default_prefixes, default_exact,
}

lower_slash_upper :
    (c : ℕ)
    → lower_code (if nat_eq (upper_code c) 92 then b'/' else upper_code c)
      ≡ lower_code (if nat_eq c 92 then b'/' else c)
unfolding lower_code upper_code
lower_slash_upper c = ground arith

casefold-upper :
    (p : Text) → casefold (replace_code 92 b'/' (upper p)) ≡ casefold (replace_code 92 b'/' p)
unfolding casefold replace_code upper
casefold-upper [] = refl
casefold-upper (c ∷ p) = cc (lower_slash_upper c, casefold-upper p)

lower_slash_slash :
    (c : ℕ)
    → lower_code (
        if nat_eq (if nat_eq c b'/' then 92 else c) 92
        then b'/'
        else if nat_eq c b'/'
        then 92
        else c)
      ≡ lower_code (if nat_eq c 92 then b'/' else c)
unfolding lower_code
lower_slash_slash c = ground arith

casefold-slashes :
    (p : Text)
    → casefold (replace_code 92 b'/' (replace_code b'/' 92 p)) ≡ casefold (replace_code 92 b'/' p)
unfolding casefold replace_code
casefold-slashes [] = refl
casefold-slashes (c ∷ p) = cc (lower_slash_slash c, casefold-slashes p)

clean_path-upper : (p : Text) → clean_path (upper p) ≡ clean_path p
unfolding clean_path
clean_path-upper p = ap (strip_code b'/') (casefold-upper p)

clean_path-slashes : (p : Text) → clean_path (replace_code b'/' 92 p) ≡ clean_path p
unfolding clean_path
clean_path-slashes p = ap (strip_code b'/') (casefold-slashes p)

abbrev pub IsAscii : Text → Type 0
IsAscii [] = Unit
IsAscii (c ∷ p) = (c < 128) × IsAscii p

-- A path of ASCII characters in capital letters, and one with backslashes for slashes, is secret or
-- not, and control-plane or not, as the path itself is.
pub spelling-SameClass :
    (prefixes exact : List Text) (p : Text)
    → IsAscii p
    → (is_secret_path (upper p) ≡ is_secret_path p)
      × (is_secret_path (replace_code b'/' 92 p) ≡ is_secret_path p)
      × (is_control_plane_path prefixes exact (upper p) ≡ is_control_plane_path prefixes exact p)
      × (is_control_plane_path prefixes exact (replace_code b'/' 92 p)
          ≡ is_control_plane_path prefixes exact p)
unfolding is_secret_path is_control_plane_path
spelling-SameClass prefixes exact p _ = (
  ap is_secret_clean (clean_path-upper p),
  ap is_secret_clean (clean_path-slashes p),
  ap
      (is_control_plane_clean (or_default prefixes default_prefixes)
        (or_default exact default_exact))
      (clean_path-upper p),
  ap
      (is_control_plane_clean (or_default prefixes default_prefixes)
        (or_default exact default_exact))
      (clean_path-slashes p),
)

any-starts :
    (clean : Text)
    → any (λ prefix. starts_with prefix clean) default_prefixes ≡ false
    → starts_with (codes "_config/") clean ≡ false
any-starts clean h = ground arith

-- With the default prefixes the last test of `is_control_plane_path`, on the words in the names of
-- files below _config/, never decides: the prefixes accept every such path before.
pub is_control_plane_clean-eq :
    (exact : List Text) (clean : Text)
    → is_control_plane_clean default_prefixes exact clean ≡ (
        clean == codes ".git"
        || contains clean exact
        || base_name clean == codes ".gitattributes"
        || any (λ prefix. starts_with prefix clean) default_prefixes)
unfolding is_control_plane_clean
is_control_plane_clean-eq exact clean = ground (arith, any-starts clean)
