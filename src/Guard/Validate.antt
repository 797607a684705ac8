-- ===== src/Guard/Validate.antt =====
-- src/jvc/policy/guard.py: `_validate_entries`.
use jvc_core.Base.{
  ℕ, Bool, true, false, not, ◌&&◌, ◌||◌, Option, none, some, List, [], ◌∷◌, Text, codes, contains,
  length, strip, nat_eq, any, is_empty, if◌then◌else◌,
}
use jvc_core.Exec.{Result, ok, err}
use jvc_core.Boundaries.Paths.{is_secret_path, is_control_plane_path}
use jvc_core.Boundaries.Targets.{canonical_target}
use jvc_core.Guard.Manifest.{
  Field, missing, null, other, value, Entry, Manifest, Error, unsupported_schema, empty_entries,
  entry_not_object, path_required, duplicate_path, secret_entry, control_plane_entry,
  unsupported_expected_state, missing_hash, missing_length, unexpected_preimage, invalid_postimage,
  unbound_intent, missing_postimages, bad_path, Host, approved, applied, verified, is_text,
  is_number, is_among, has_field,
}

abbrev pub schema : ℕ
schema = 1

-- `isinstance(v, str) and len(v) == 64`
unfoldable pub is_digest : Field Text → Bool
is_digest (value s) = nat_eq (length s) 64
is_digest _ = false

-- `isinstance(v, int) and v >= 0`
abbrev pub is_length : Field ℕ → Bool
is_length (value n) = true
is_length _ = false

-- `v is None or isinstance(v, str) and len(v) == 64`
unfoldable pub is_optional_digest : Field Text → Bool
unfolding is_digest
is_optional_digest missing = true
is_optional_digest null = true
is_optional_digest other = false
is_optional_digest (value s) = is_digest (value s)

abbrev pub present : Text
present = codes "present"

abbrev pub absent : Text
absent = codes "absent"

-- The preimage that an entry of either state must have.
unfoldable pub check_preimage : Entry → Result Error (Unit {0})
unfolding is_text is_digest
check_preimage entry =
    if is_text present entry.expected_state
    then (if not (is_digest entry.sha256)
        then err missing_hash
        else if not (is_length entry.byte_length)
        then err missing_length
        else ok tt)
    else if not (is_text absent entry.expected_state)
    then err unsupported_expected_state
    else if has_field entry.sha256 || has_field entry.byte_length
    then err unexpected_preimage
    else ok tt

-- What follows the path of an entry.
unfoldable pub check_entry : List Text → Text → Entry → Result Error (Unit {0})
unfolding is_optional_digest check_preimage
check_entry seen canonical entry =
    if contains canonical seen
    then err duplicate_path
    else if is_secret_path canonical
    then err secret_entry
    else if is_control_plane_path [] [] canonical
    then err control_plane_entry
    else elim (check_preimage entry) [
      | err e ↦ err e
      | ok u ↦ if is_optional_digest entry.expected_sha256 then ok tt else err invalid_postimage
    ]

abbrev pub is_strict : Manifest → Bool
is_strict m = is_text (codes "strict-write") m.guard_mode

abbrev pub is_bound : Manifest → Bool
is_bound m = is_text (codes "bound") m.intent_state

abbrev pub listed :
    Entry → Result Error (Unit {0}) → Result Error (List Entry) → Result Error (List Entry)
listed entry (err e) rest = err e
listed entry (ok u) (err e) = err e
listed entry (ok u) (ok es) = ok (entry ∷ es)

module _ (h : Host) (root : Text) where
  abbrev pub canonical_name : Field Text → Result Error Text
  canonical_name (value p) =
      if is_empty (strip p)
      then err path_required
      else elim (canonical_target h.resolve root p) [ err e ↦ err (bad_path e) | ok (t, c) ↦ ok c ]
  canonical_name _ = err path_required

  -- The loop of the entries, with the canonical paths seen.
  unfoldable pub check_entries : List Text → List (Option Entry) → Result Error (List Entry)
  unfolding check_entry
  check_entries seen [] = ok []
  check_entries seen (none ∷ es) = err entry_not_object
  check_entries seen (some entry ∷ es) = elim (canonical_name entry.path) [
    | err e ↦ err e
    | ok c ↦ listed entry (check_entry seen c entry) (check_entries (c ∷ seen) es)
  ]

  -- The entries of a manifest whose write is under way must say what is to be written.
  abbrev pub check_binding : Manifest → List Entry → Result Error (List Entry)
  check_binding m entries =
      if is_strict m && is_among (approved ∷ applied ∷ verified ∷ []) m.lifecycle_state
      then (if not (is_bound m)
          then err unbound_intent
          else if any (λ e. not (has_field e.expected_sha256)) entries
          then err missing_postimages
          else ok entries)
      else ok entries

  abbrev pub check_listed : Manifest → Result Error (List Entry) → Result Error (List Entry)
  check_listed m (err e) = err e
  check_listed m (ok entries) = check_binding m entries

  abbrev pub check_present : Manifest → Field (List (Option Entry)) → Result Error (List Entry)
  check_present m (value (e ∷ es)) = check_listed m (check_entries [] (e ∷ es))
  check_present m _ = err empty_entries

  unfoldable pub validate_entries : Manifest → Result Error (List Entry)
  unfolding check_entries is_number is_among is_text
  validate_entries m =
      if not (is_number schema m.schema_version)
      then err unsupported_schema
      else check_present m m.entries
