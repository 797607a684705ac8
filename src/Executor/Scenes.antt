-- ===== src/Executor/Scenes.antt =====
-- A write to a held project: the first call asks the operator, the second presents the capability.
use jvc_core.Base.{
  ℕ, zero, suc, ◌≡◌, refl, true, false, none, some, [], ◌∷◌, Bytes, Dict, codes, ◌==◌, get, put,
  before, upper, strip, contains, keys, opt_eq,
}
use jvc_core.Exec.{Result, ok}
use jvc_core.Configuration.Registry.{make_registry, register_all, lifecycle}
use jvc_core.Recovery.Receipt.{Receipt, read_valid}
use jvc_core.Recovery.World.{Host, backup_path}
use jvc_core.Authority.Values.{Value, not_object, object}
use jvc_core.Authority.Redeem.{Random, new_record}
use jvc_core.Authority.Redeem.{create_confirmation_request, validate_and_consume_capability}
use jvc_core.Boundaries.Paths.{is_control_plane_path}
use jvc_core.Base.{base_name, starts_with, has_code, strip_parts, suffix}
use jvc_core.Boundaries.Targets.{
  assert_permitted_path, has_control, has_encoded, is_within, relative_to,
}
use jvc_core.Boundaries.Paths.{is_secret_path, is_secret_clean, is_secret_part}
use jvc_core.Executor.Governed.{outside_host_stores}
use jvc_core.Authority.Keys.{is_within_store}
use jvc_core.Recovery.World.{sha256_bytes}
use jvc_core.Recovery.Receipt.{prepared}
use jvc_core.Recovery.Receipt
use jvc_core.Executor.Write.{
  make_directories, parents_from, parents_of, write_locked, confirm_write, journaled_write,
}
use jvc_core.Recovery.World.{
  json_name, read_hash, write_bytes, write_receipt, mark, iter_receipt_files,
}
use jvc_core.Recovery.Gate.{reconcile_target, has_blocking_state, corrupt_receipt_files}
use jvc_core.Recovery.Select.{find_superseded_id, all_valid_receipts, is_standing}
use jvc_core.Recovery.Save.{
  save_preimage, note_target_replaced, record_postimage, make_id, is_taken, try_ids,
}
use jvc_core.Executor.Governed.{
  Platform, Setup, State, Moment, WriteRequest, GovernedError, WriteOutcome, written, requested,
  write_proposal, fs_write,
}
use jvc_core.Executor.Authorized.{IsGoverned, fs_write-IsGoverned}

abbrev host : Host
host = record {
  hexdigest = λ b. b;
  stamp = λ n. n ∷ [];
  time_ns = λ n. n;
  root = codes "/s";
  failing = λ point. false;
}

abbrev blank : Platform
blank = record {
  recovery = host;
  authority = record {
    hexdigest = λ b. codes "d";
    hmac_sha256 = λ k b. codes "f";
    canonical_json = λ d. 1 ∷ 2 ∷ [];
    loads = λ b. not_object;
  };
  resolve = λ path. path;
  is_dir = λ path. true;
}

abbrev random : Random
random = record { token_hex = λ n. codes "c"; token_urlsafe = λ n. codes "n" }

abbrev proposed : WriteRequest
proposed = record {
  project_id = codes "demo";
  relative_path = codes "a";
  content = codes "NEW";
  expected = none;
  confirmation_id = none;
  confirmation_token = none;
  extra = [];
}

abbrev presented : WriteRequest
presented = record proposed {
  confirmation_id = some (codes "conf_c");
  confirmation_token = some (codes "AQI.f");
}

abbrev claims : Dict Value
claims =
    new_record blank.authority random 0 (write_proposal blank proposed) (codes "HELD_ROUTE_GATE")
      (codes "HELD route mutation requires trusted operator capability") 100 300

abbrev platform : Platform
platform = record blank {
  authority = record {
    hexdigest = λ b. codes "d";
    hmac_sha256 = λ k b. codes "f";
    canonical_json = λ d. 1 ∷ 2 ∷ [];
    loads = λ b. object claims;
  };
}

abbrev secret : Bytes
secret = repeated 32
  where
    repeated : ℕ → Bytes
    repeated zero = []
    repeated (suc n) = 1 ∷ repeated n

abbrev setup : Setup
setup = record {
  registry = make_registry (
      record {
        project_id = codes "demo";
        aliases = [];
        root = codes "/p";
        startup = [];
        handoff = [];
        status = codes "held";
      }
      ∷ []);
  confirmation_store = codes "/c";
  operator_secret = some secret;
}

abbrev moment : Moment
moment = record {
  now = 100;
  random = random;
  faults = record { sync_fails = false; unlink_fails = false };
  acquired = true;
}

abbrev start : State
start = record {
  world = record { disk = []; journal = []; ticks = 5 };
  confirmations = record { pending = []; consumed = []; drawn = 0 };
}

abbrev waiting : State
waiting = (fs_write platform setup moment proposed start).1

abbrev done : Result GovernedError WriteOutcome × State
done = fs_write platform setup moment presented waiting

abbrev none_written : Receipt
none_written = record {
  receipt_id = [];
  project_id = [];
  path = [];
  original_operation = Receipt.fs_write;
  preimage_exists = none;
  tx_state = prepared;
  preimage_sha256 = none;
  postimage_sha256 = none;
  expected_postimage_sha256 = none;
  restored_sha256 = none;
  backup_file = none;
  prev_receipt_id = none;
  rollback_of = none;
  seq = none;
}

abbrev receipt_of : Result GovernedError WriteOutcome → Receipt
receipt_of (ok (written canonical r)) = r
receipt_of _ = none_written

asked : (fs_write platform setup moment proposed start).0 ≡ ok (requested (codes "conf_c"))
unfolding fs_write get make_registry register_all put ◌==◌ lifecycle is_control_plane_path base_name
    starts_with create_confirmation_request
asked = refl

redeemed : done ≡ (ok (written (codes "a") (receipt_of done.0)), done.1)
unfolding fs_write get make_registry register_all put ◌==◌ lifecycle is_control_plane_path base_name
    starts_with create_confirmation_request write_locked confirm_write make_directories parents_from
    parents_of journaled_write save_preimage note_target_replaced record_postimage reconcile_target
    has_blocking_state iter_receipt_files corrupt_receipt_files find_superseded_id
    all_valid_receipts make_id is_taken try_ids json_name backup_path read_hash write_bytes
    write_receipt mark keys upper strip opt_eq contains before read_valid is_standing
    validate_and_consume_capability assert_permitted_path has_control has_encoded has_code is_within
    relative_to strip_parts is_secret_path is_secret_clean is_secret_part suffix outside_host_stores
    is_within_store sha256_bytes
redeemed = refl

fs_write-IsGoverned_example : IsGoverned platform setup moment presented (codes "a") waiting done.1
fs_write-IsGoverned_example =
    fs_write-IsGoverned platform setup moment presented (codes "a") (receipt_of done.0) waiting
      done.1 redeemed
