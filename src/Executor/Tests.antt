-- ===== src/Executor/Tests.antt =====
-- Runs of the executor over a small host, and the theorems at these runs.
use jvc_core.Base.{
  ◌≡◌, ◌≢◌, refl, false, none, some, [], ◌∷◌, Text, codes, ◌==◌, eq_iff, get, put, upper, strip,
  opt_eq, contains, keys, before, arith,
}
use jvc_core.Exec.{Result, ok, err}
use jvc_core.Recovery.Receipt.{Receipt, prepared, fs_write, read_valid}
use jvc_core.Recovery.World.{
  Host, World, file, sha256_bytes, json_name, backup_path, read_hash, write_bytes, write_receipt,
  mark, iter_receipt_files,
}
use jvc_core.Recovery.Gate.{reconcile_target, has_blocking_state, corrupt_receipt_files}
use jvc_core.Recovery.Select.{find_superseded_id, all_valid_receipts, is_standing}
use jvc_core.Recovery.Save.{
  save_preimage, note_target_replaced, record_postimage, make_id, is_taken, try_ids,
}
use jvc_core.Executor.Write.{
  make_directories, parents_from, parents_of, WriteError, write_locked, confirm_write,
  journaled_write,
}
use jvc_core.Executor.Atomic.{Atomic}
use jvc_core.Executor.Cas.{write_locked-exclusive}

abbrev host : Host
host = record {
  hexdigest = λ b. b;
  stamp = λ n. n ∷ [];
  time_ns = λ n. n;
  root = codes "/s";
  failing = λ point. false;
}

abbrev target : Text
target = codes "/p/a"

abbrev start : World
start = record { disk = (target, file (codes "OLD")) ∷ []; journal = []; ticks = 5 }

abbrev blank : Receipt
blank = record {
  receipt_id = [];
  project_id = [];
  path = [];
  original_operation = fs_write;
  preimage_exists = none;
  tx_state = prepared;
  preimage_sha256 = none;
  postimage_sha256 = none;
  expected_postimage_sha256 = none;
  restored_sha256 = none;
  backup_file = none;
  prev_receipt_id = none;
  rollback_of = none;
  seq = none;
}

abbrev receipt_of : Result WriteError Receipt → Receipt
receipt_of (ok r) = r
receipt_of (err e) = blank

abbrev written : Result WriteError Receipt × World
written = write_locked host (codes "demo") target (codes "NEW") (some (codes "old ")) start

written_ok : written ≡ (ok (receipt_of written.0), written.1)
unfolding write_locked confirm_write make_directories parents_from parents_of journaled_write
    save_preimage note_target_replaced record_postimage reconcile_target has_blocking_state
    iter_receipt_files corrupt_receipt_files find_superseded_id all_valid_receipts make_id is_taken
    try_ids json_name backup_path read_hash write_bytes write_receipt mark sha256_bytes get put keys
    upper strip ◌==◌ opt_eq contains before read_valid is_standing
written_ok = refl

-- The hash that the second writer presents is not that of what the first wrote.
new_ne_old : sha256_bytes host (codes "NEW") ≢ strip (upper (codes "old "))
unfolding sha256_bytes upper strip ◌==◌
new_ne_old = ground (arith, eq_iff (sha256_bytes host (codes "NEW")) (strip (upper (codes "old "))))

abbrev written_twice : Result WriteError Receipt × World
written_twice =
    write_locked host (codes "demo") target (codes "ALSO") (some (codes "old ")) written.1

write_locked-exclusive_example : written_twice ≢ (ok (receipt_of written_twice.0), written_twice.1)
write_locked-exclusive_example =
    write_locked-exclusive host (codes "demo") (codes "demo") target (codes "NEW") (codes "ALSO")
      (some (codes "old ")) start written.1 written_twice.1 (receipt_of written.0)
      (receipt_of written_twice.0) new_ne_old written_ok
