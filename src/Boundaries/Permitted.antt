-- ===== src/Boundaries/Permitted.antt =====
-- What `assert_permitted_path` lets through.
use jvc_core.Base.{
  ◌≡◌, ◌≢◌, refl, Bool, false, Option, none, some, List, [], ◌∷◌, ◌++◌, Text, eq_iff, strip,
  replace_code, path_parts, strip_parts, join, arith,
}
use jvc_core.Exec.{Result, ok, err}
use jvc_core.Boundaries.Paths.{is_secret_path, is_control_plane_path}
use jvc_core.Boundaries.Targets.{
  PathError, Resolve, relative_to, below_root, canonical_target, check_permitted,
  assert_permitted_path,
}

strip_parts-append : (rs ps qs : List Text) → strip_parts rs ps ≡ some qs → ps ≡ rs ++ qs
unfolding strip_parts
strip_parts-append [] ps qs e = ground arith
strip_parts-append (r ∷ rs) [] qs e = cc
strip_parts-append (r ∷ rs) (p ∷ ps) qs e = ground (arith, eq_iff r p, strip_parts-append rs ps qs)

-- The target lies strictly below the root, and the canonical path leads to it from there.
pub record IsBelow (resolve : Resolve) (root target canonical : Text) : Type 0 where
  pub parts : List Text
  pub split : path_parts target ≡ path_parts (resolve root) ++ parts
  pub proper : parts ≢ []
  pub spelled : canonical ≡ join parts

some_injective : {A : Type 0} {x y : A} → some x ≡ some y → x ≡ y
some_injective e = cc

below_root-IsBelow :
    (resolve : Resolve) (root target : Text) (o : Option (List Text)) (t c : Text)
    → relative_to target (resolve root) ≡ o
    → below_root target o ≡ ok (t, c)
    → IsBelow resolve root t c
unfolding relative_to
below_root-IsBelow resolve root target none t c o e = cc
below_root-IsBelow resolve root target (some []) t c o e = cc
below_root-IsBelow resolve root target (some (p ∷ ps)) t c o e =
    let below = strip_parts-append (path_parts (resolve root)) (path_parts target) (p ∷ ps) o in
    let same : (target ≡ t) = cc in
    let spelled : (c ≡ join (p ∷ ps)) = cc in
    record { parts = p ∷ ps; split = cc (below, same); proper = λ x. cc; spelled = spelled }

-- A canonical target lies strictly below the root, and its canonical name is its path from there,
-- whatever the path resolves to.
pub canonical_target-IsBelow :
    (resolve : Resolve) (root relative t c : Text)
    → canonical_target resolve root relative ≡ ok (t, c)
    → IsBelow resolve root t c
unfolding canonical_target
canonical_target-IsBelow resolve root relative t c e =
    let target = resolve (root ++ b'/' ∷ strip (replace_code 92 b'/' relative)) in
    below_root-IsBelow resolve root target (relative_to target (resolve root)) t c refl
      (ground arith)

pub record IsPermitted (resolve : Resolve) (root : Text) (privileged : Bool)
    (prefixes exact : List Text) (target canonical : Text) : Type 0 where
  pub below : IsBelow resolve root target canonical
  pub public : is_secret_path canonical ≡ false
  pub ordinary : privileged ≡ false → is_control_plane_path prefixes exact canonical ≡ false

check_permitted-ok :
    (privileged : Bool) (prefixes exact : List Text) (r : Result PathError (Text × Text))
    (t c : Text)
    → check_permitted privileged prefixes exact r ≡ ok (t, c)
    → (r ≡ ok (t, c))
      × (is_secret_path c ≡ false)
      × (privileged ≡ false → is_control_plane_path prefixes exact c ≡ false)
check_permitted-ok privileged prefixes exact (err x) t c e = cc
check_permitted-ok privileged prefixes exact (ok (t', c')) t c e = ground arith

-- A path that is permitted stands for a target strictly below the root; its canonical name is no
-- secret path, and no control-plane path unless the operator is privileged.
pub assert_permitted_path-IsPermitted :
    (resolve : Resolve) (root relative : Text) (privileged : Bool) (prefixes exact : List Text)
    (t c : Text)
    → assert_permitted_path resolve root relative privileged prefixes exact ≡ ok (t, c)
    → IsPermitted resolve root privileged prefixes exact t c
unfolding assert_permitted_path
assert_permitted_path-IsPermitted resolve root relative privileged prefixes exact t c e =
    let (r, s, o) =
      check_permitted-ok privileged prefixes exact (canonical_target resolve root relative) t c e in
    record {
      below = canonical_target-IsBelow resolve root relative t c r;
      public = s;
      ordinary = o;
    }
