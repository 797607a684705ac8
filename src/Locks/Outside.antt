-- ===== src/Locks/Outside.antt =====
-- A lock lies outside every governed root.
use jvc_core.Base.{
  ◌≡◌, ◌≢◌, refl, sym, ◌∙◌, inl, inr, Bool, true, false, ◌||◌, Option, none, some, List, [], ◌∷◌,
  ◌++◌, Text, ◌==◌, eq_iff, eq_refl, contains, is_some, path_parts, strip_parts, Bool-cases, arith,
}
use jvc_core.Exec.{ok}
use jvc_core.Boundaries.Targets.{relative_to}
use jvc_core.Locks.Placement.{
  Place, ResourceLock, is_governed, candidate_in, check_candidate, check_directory, validate_lock,
}

strip_parts-of : (rs ps : List Text) → is_some (strip_parts rs (rs ++ ps)) ≡ true
unfolding strip_parts
strip_parts-of [] ps = refl
strip_parts-of (r ∷ rs) ps = rw eq_refl (strip_parts-of rs ps)

-- No governed root leads to the path, however it goes on.
abbrev pub IsUngoverned : List Text → Text → Type 0
IsUngoverned roots path =
    (root : Text) (parts : List Text)
    → contains root roots ≡ true
    → path_parts path ≢ path_parts root ++ parts

is_governed-under :
    (roots : List Text) (path root : Text) (parts : List Text)
    → contains root roots ≡ true
    → path_parts path ≡ path_parts root ++ parts
    → is_governed roots path ≡ true
unfolding contains relative_to
is_governed-under [] path root parts l e = cc
is_governed-under (r ∷ rs) path root parts l e = elim (Bool-cases (r == root)) [
  | inl y ↦ rw ((eq_iff r root).0 y, e, strip_parts-of (path_parts root) parts) refl
  | inr n ↦ rw (is_governed-under rs path root parts (rw n at l) e) (or_true _)
]
  where
    or_true : (b : Bool) → (b || true) ≡ true
    or_true true = refl
    or_true false = refl

is_governed-IsUngoverned :
    (roots : List Text) (path : Text) → is_governed roots path ≡ false → IsUngoverned roots path
is_governed-IsUngoverned roots path k root parts l e =
    let y = is_governed-under roots path root parts l e in let z : (true ≡ false) = sym y ∙ k in cc

-- Where a lock that is accepted lies.
pub record IsPlaced (p : Place) (l : ResourceLock) (candidate : Text) : Type 0 where
  pub directory : Text
  pub file : Text
  pub resolved : p.resolve l.lock_dir ≡ some directory
  pub named : candidate ≡ candidate_in directory l.name
  pub reached : p.resolve candidate ≡ some file
  pub directory_outside : IsUngoverned l.governed_roots directory
  pub file_outside : IsUngoverned l.governed_roots file

check_candidate-outside :
    (roots : List Text) (name candidate : Text) (o : Option Text)
    → check_candidate roots name o ≡ ok candidate
    → (path : Text) × (o ≡ some path) × (name ≡ candidate) × (is_governed roots path ≡ false)
check_candidate-outside roots name candidate none k = cc
check_candidate-outside roots name candidate (some path) k =
    elim (Bool-cases (is_governed roots path)) [
      | inl y ↦ let k' = rw y at k in cc
      | inr n ↦ let k' = rw n at k in (path, refl, cc, n)
    ]

check_directory-IsPlaced :
    (p : Place) (l : ResourceLock) (candidate : Text) (o : Option Text)
    → p.resolve l.lock_dir ≡ o
    → check_directory p l o ≡ ok candidate
    → IsPlaced p l candidate
check_directory-IsPlaced p l candidate none at k = cc
check_directory-IsPlaced p l candidate (some directory) at k =
    elim (Bool-cases (p.is_file directory)) [
      | inl y ↦ let k₁ = rw y at k in cc
      | inr n₁ ↦
          let k₁ = rw n₁ at k in
          elim (Bool-cases (is_governed l.governed_roots directory)) [
            | inl y ↦ let k₂ = rw y at k₁ in cc
            | inr n₂ ↦
                let k₂ = rw n₂ at k₁ in
                elim (Bool-cases (p.makes_directory directory)) [
                  | inr n ↦ let k₃ = rw n at k₂ in cc
                  | inl y ↦
                      placed
                        (check_candidate-outside l.governed_roots (candidate_in directory l.name)
                          candidate (p.resolve (candidate_in directory l.name)) (rw y at k₂))
                        n₂
                ]
          ]
    ]
  where
    placed :
        (path : Text) × (p.resolve (candidate_in directory l.name) ≡ some path)
          × (candidate_in directory l.name ≡ candidate)
          × (is_governed l.governed_roots path ≡ false)
        → is_governed l.governed_roots directory ≡ false
        → IsPlaced p l candidate
    placed (path, reached, same, outside) n = record {
      directory = directory;
      file = path;
      resolved = at;
      named = sym same;
      reached = rw (← same) reached;
      directory_outside = is_governed-IsUngoverned l.governed_roots directory n;
      file_outside = is_governed-IsUngoverned l.governed_roots path outside;
    }

-- A lock that is accepted has its file in the lock directory under its name, and neither the
-- directory nor the file, with all links followed, is a governed root or lies below one.
pub validate_lock-IsPlaced :
    (p : Place) (l : ResourceLock) (candidate : Text)
    → validate_lock p l ≡ ok candidate
    → IsPlaced p l candidate
unfolding validate_lock
validate_lock-IsPlaced p l candidate k =
    check_directory-IsPlaced p l candidate (p.resolve l.lock_dir) refl (ground arith)
