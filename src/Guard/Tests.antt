-- ===== src/Guard/Tests.antt =====
-- The theorems of the guard at the root of Sample.
use jvc_core.Base.{
  ℕ, ◌+◌, ◌≡◌, ◌≢◌, refl, ap, ◌∙◌, true, some, [], ◌∷◌, ◌++◌, Text, Dict, codes, ◌==◌, get, put,
  upper, strip, contains, starts_with, has_code, strip_parts, path_parts, suffix, base_name, keys,
  before, lstrip, is_space, replace_code, casefold, has_infix, split, strip_code, drop_code,
  strip_prefix,
}
use jvc_core.Exec.{ok}
use jvc_core.Boundaries.Paths.{
  is_secret_path, is_secret_clean, is_secret_part, is_control_plane_path, is_control_plane_clean,
  clean_path, matches_secret, mentions_recovery,
}
use jvc_core.Boundaries.Targets.{canonical_target, is_within, relative_to, has_control, has_encoded}
use jvc_core.Guard.Manifest.{
  valid_transitions, value, Manifest, Receipt, proposed, approved, applied, verified, is_text,
  is_number, is_among,
}
use jvc_core.Guard.Validate.{
  validate_entries, is_digest, is_optional_digest, check_preimage, check_entry, check_entries,
}
use jvc_core.Guard.Files.{
  Store, sha256_bytes, parse_content, node, read_bytes, read_json, write_new_json, make_directories,
  rewrite_manifest, check_output_path,
}
use jvc_core.Guard.Capture.{bind_intent}
use jvc_core.Guard.Apply.{
  transition, receipt, receipt_of, transition_of, may_become, is_unintended, passed,
  check_postimages, check_node, sorted_set, insert_all,
}
use jvc_core.Guard.Receipts.{Completed, receipt-Completed}
use jvc_core.Guard.Recorded.{Recorded, receipt-Recorded}
use jvc_core.Executor.Write.{parents_of, parents_from}
use jvc_core.Guard.Lifecycle.{Moves, transition-Moves}
use jvc_core.Guard.Order.{rank, steps, transitions, Stands, rank-transitions}
use jvc_core.Guard.Unbound.{IsUnbound, unbound-Stuck}
use jvc_core.Guard.Sample.{
  repeated, without_last, guarded, manifest, host, bound_host, unbound_host, root, path, output,
  store, without_last-lem,
}

abbrev expected : Receipt
expected = record {
  manifest_id = value (codes "id");
  changed_paths = codes "a.txt" ∷ [];
  observations =
      record {
        path = codes "a.txt";
        post_sha256 = repeated 64 b'2';
        post_byte_length = 1;
        changed = true;
      }
      ∷ [];
}

abbrev finished : Store
finished = (receipt bound_host root path output (store applied)).1

passes : receipt bound_host root path output (store applied) ≡ (ok (passed expected), finished)
unfolding receipt receipt_of transition transition_of strip_parts path_parts get put before strip
    canonical_target replace_code starts_with has_control has_encoded has_code is_within relative_to
    contains is_secret_path is_secret_clean is_secret_part suffix keys base_name casefold
    is_control_plane_path is_control_plane_clean has_infix validate_entries check_entries
    check_entry check_preimage is_text is_number is_among is_digest is_optional_digest ◌==◌
    sha256_bytes upper read_bytes read_json write_new_json make_directories parents_of parents_from
    rewrite_manifest check_output_path check_postimages check_node is_unintended sorted_set
    insert_all split clean_path strip_code drop_code strip_prefix matches_secret mentions_recovery
    may_become valid_transitions lstrip is_space
passes = refl

three_steps :
    steps bound_host root path (approved ∷ verified ∷ applied ∷ verified ∷ []) (store proposed) ≡ 3
unfolding steps receipt receipt_of transition transition_of strip_parts path_parts get put before
    strip canonical_target replace_code starts_with has_control has_encoded has_code is_within
    relative_to contains is_secret_path is_secret_clean is_secret_part suffix keys base_name
    casefold is_control_plane_path is_control_plane_clean has_infix validate_entries check_entries
    check_entry check_preimage is_text is_number is_among is_digest is_optional_digest ◌==◌
    sha256_bytes upper read_bytes read_json write_new_json make_directories parents_of parents_from
    rewrite_manifest check_output_path check_postimages check_node is_unintended sorted_set
    insert_all split clean_path strip_code drop_code strip_prefix matches_secret mentions_recovery
    may_become valid_transitions lstrip is_space
three_steps = refl

receipt-Completed_example : (m : Manifest) × Completed bound_host root (store applied) path m
receipt-Completed_example =
    receipt-Completed bound_host root path output (store applied) expected finished passes

receipt-Recorded_example :
    Recorded bound_host root output
      (store applied)
      (receipt bound_host root path output (store applied))
receipt-Recorded_example = receipt-Recorded bound_host root path output (store applied)

transition-Moves_example :
    Moves bound_host root path approved
      (store proposed)
      (transition bound_host root path approved (store proposed))
transition-Moves_example = transition-Moves bound_host root path approved (store proposed)

stands :
    (intent state : Text)
    → parse_content (host intent) (node (host intent) (store state) path)
      ≡ ok (manifest intent (without_last (state ++ 10 ∷ [])))
unfolding get put before ◌==◌
stands intent state = refl

stands_as :
    (intent state : Text)
    → parse_content (host intent) (node (host intent) (store state) path)
      ≡ ok (manifest intent state)
stands_as intent state =
    stands intent state ∙ ap (λ t. ok (manifest intent t)) (without_last-lem state)

rank-transitions_example :
    (t' : Text) × Stands bound_host root path
      (manifest (codes "bound") proposed)
      t'
      (transitions bound_host root path (approved ∷ applied ∷ []) (store proposed))
    × (rank t'
        ≡ rank proposed + steps bound_host root path (approved ∷ applied ∷ []) (store proposed))
rank-transitions_example =
    rank-transitions bound_host root path (manifest (codes "bound") proposed)
      (λ t. ap (λ x. some (manifest (codes "bound") x)) (without_last-lem t))
      (approved ∷ applied ∷ []) proposed (store proposed) (stands_as (codes "bound") proposed)

unbound : IsUnbound (manifest (codes "unbound") approved)
unfolding is_text is_among contains ◌==◌
unbound = record { strict = refl; underway = refl; free = refl }

unbound-Stuck_example :
    ((target : Text) (n : Manifest)
      → (transition unbound_host root path target (store approved)).0 ≢ ok n)
    × ((hashes : Dict Text) (n : Manifest) (s' : Store)
        → bind_intent unbound_host root path hashes (store approved) ≢ (ok n, s'))
    × ((output : Text) (r : Receipt) (s' : Store)
        → receipt unbound_host root path output (store approved) ≢ (ok (passed r), s'))
unbound-Stuck_example =
    unbound-Stuck unbound_host root path (store approved) (manifest (codes "unbound") approved)
      (stands_as (codes "unbound") approved) unbound

accepted_approved :
    validate_entries bound_host root (manifest (codes "bound") approved) ≡ ok (guarded ∷ [])
unfolding receipt receipt_of transition transition_of strip_parts path_parts get put before strip
    canonical_target replace_code starts_with has_control has_encoded has_code is_within relative_to
    contains is_secret_path is_secret_clean is_secret_part suffix keys base_name casefold
    is_control_plane_path is_control_plane_clean has_infix validate_entries check_entries
    check_entry check_preimage is_text is_number is_among is_digest is_optional_digest ◌==◌
    sha256_bytes upper read_bytes read_json write_new_json make_directories parents_of parents_from
    rewrite_manifest check_output_path check_postimages check_node is_unintended sorted_set
    insert_all split clean_path strip_code drop_code strip_prefix matches_secret mentions_recovery
    may_become valid_transitions lstrip is_space
accepted_approved = refl

abbrev second : Text → ℕ
second (c ∷ d ∷ x) = d
second _ = 0
