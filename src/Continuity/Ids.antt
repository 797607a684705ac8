-- ===== src/Continuity/Ids.antt =====
-- Decision identifiers become file names of the decisions directory.
use jvc_core.Base.{
  ℕ, ◌≤◌, ◌≡◌, ◌≢◌, refl, true, false, [], ◌∷◌, Text, codes, length, has_code, nat_eq_iff, arith,
}
use jvc_core.Continuity.State.{is_decision_id, is_id_code, all_codes}

-- A name that stays in its directory: no separator, no reference to a directory, at most 128 long.
pub record IsFileName (name : Text) : Type 0 where
  pub no_slash : has_code b'/' name ≡ false
  pub no_backslash : has_code 92 name ≡ false
  pub no_dots : (name ≢ codes ".") × (name ≢ codes "..")
  pub not_empty : name ≢ []
  pub short : length name ≤ 128

all_codes-has_code :
    (s : Text) (c : ℕ) → is_id_code c ≡ false → all_codes is_id_code s ≡ true → has_code c s ≡ false
unfolding all_codes has_code
all_codes-has_code [] c bad h = refl
all_codes-has_code (d ∷ s) c bad h = grind (arith, all_codes-has_code s c bad, nat_eq_iff d c)

-- An identifier that is accepted is a file name that cannot leave the decisions directory.
pub is_decision_id-IsFileName : (id : Text) → is_decision_id id ≡ true → IsFileName id
unfolding is_decision_id has_code
is_decision_id-IsFileName [] h = cc
is_decision_id-IsFileName (c ∷ s) h = record {
  no_slash = ground (arith, all_codes-has_code s b'/' refl);
  no_backslash = ground (arith, all_codes-has_code s 92 refl);
  no_dots = (ground arith, ground arith);
  not_empty = ground arith;
  short = ground arith;
}
