-- ===== src/Runner/Sanitized.antt =====
-- What the environment of a subprocess takes from the environment around it.
use jvc_core.Base.{
  ◌≡◌, refl, inl, inr, Bool, true, false, Option, List, [], ◌∷◌, Text, Dict, codes, Bool-cases,
}
use jvc_core.Runner.Environment.{
  Host, temp_values, present, profile_names, is_ambient, sanitize, build_safe_subprocess_env,
}

-- The variables that are read.
abbrev pub read_names : List Text
read_names =
    codes "SystemRoot"
    ∷ codes "WINDIR"
    ∷ codes "HOME"
    ∷ codes "TMPDIR"
    ∷ codes "TEMP"
    ∷ codes "TMP"
    ∷ codes "SYSTEMROOT"
    ∷ profile_names

-- The machine with another environment around it.
abbrev pub with_environ : Host → (Text → Option Text) → Host
with_environ h environ = record {
  is_windows = h.is_windows;
  resolve = h.resolve;
  join = h.join;
  parent = h.parent;
  drive = h.drive;
  is_dir = h.is_dir;
  environ = environ;
  temp_dir = h.temp_dir;
  hexdigest = h.hexdigest;
  files = h.files;
  run = h.run;
}

abbrev pub Agree : (Text → Option Text) → (Text → Option Text) → List Text → Type 0
Agree f g [] = Unit
Agree f g (name ∷ names) = (f name ≡ g name) × Agree f g names

temp_values-Agree :
    (f g : Text → Option Text) → Agree f g read_names → temp_values f ≡ temp_values g
temp_values-Agree f g (_, (_, (_, (a, (b, (c, (d, (x, (y, (z, _)))))))))) =
    rw (a, b, c, d, x, y, z) refl

present-Agree :
    (f g : Text → Option Text) (names : List Text)
    → Agree f g names
    → present f names ≡ present g names
unfolding present
present-Agree f g [] same = refl
present-Agree f g (name ∷ names) (is, same) = rw (is, present-Agree f g names same) refl

abbrev pub AreClean : Dict Text → Type 0
AreClean [] = Unit
AreClean ((k, v) ∷ env) = (is_ambient k ≡ false) × AreClean env

sanitize-AreClean : (env : Dict Text) → AreClean (sanitize env)
sanitize-AreClean [] = tt
sanitize-AreClean ((k, v) ∷ env) = elim (Bool-cases (is_ambient k)) [
  | inl e ↦ rw e (sanitize-AreClean env)
  | inr e ↦ rw e (e, sanitize-AreClean env)
]

-- The environment of a subprocess depends on no variable of the one around it but those of the
-- system root, the home, the three of the directory for temporary files and the five of the profile;
-- and where it is sanitized no variable of it is one of Git or named like a secret.
pub build_safe_subprocess_env-IsSafe :
    (h : Host) (environ : Text → Option Text) (extra : List Text)
    → Agree h.environ environ read_names
    → ((sanitize_ambient : Bool)
        → build_safe_subprocess_env h extra sanitize_ambient
          ≡ build_safe_subprocess_env (with_environ h environ) extra sanitize_ambient)
      × AreClean (build_safe_subprocess_env h extra true)
unfolding build_safe_subprocess_env
build_safe_subprocess_env-IsSafe h environ extra same = (
  λ sanitize_ambient.
      let (root, (dir, (home, (_, (_, (_, (_, profile))))))) = same in
      rw
        (
          root,
          dir,
          home,
          temp_values-Agree h.environ environ same,
          present-Agree h.environ environ profile_names profile,
        )
        refl,
  sanitize-AreClean _,
)
