-- ===== src/Recovery/Rollback.antt =====
-- src/jvc/recovery/store.py: `_supersede_pending` and `rollback`.
use jvc_core.Base.{
  ℕ, Bool, true, false, not, ◌&&◌, Option, none, some, List, [], ◌∷◌, Text, Bytes, codes, ◌==◌,
  opt_eq, get, upper, strip, if◌then◌else◌,
}
use jvc_core.Exec.{Result, ok, err, pure, gets, modify, lift, guard, ◌>>=◌, ◌>>◌}
use jvc_core.Recovery.Receipt.{
  Receipt, TxState, prepared, applied, verified, recovery_required, superseded, rollback,
  read_valid, is_rollback, is_incomplete, has_preimage,
}
use jvc_core.Recovery.World.{
  sha256_bytes, Host, World, Node, file, rollback_before_terminal, json_name, read_hash, Reading,
  observed, os_error, is_file, write_bytes, write_receipt, mark, unlink, iter_receipt_files,
}
use jvc_core.Recovery.Reconcile.{
  Outcome, required, reconcile_one, finalize_rollback, is_blank, text_of,
}
use jvc_core.Recovery.Gate.{concerns, corrupt_receipt_files}
use jvc_core.Recovery.Select.{find_latest_receipt}
use jvc_core.Recovery.Save.{M, failpoint, new_receipt_id}
use jvc_core.Recovery.Errors.{
  Error, journal_corrupt, target_missing, stale_postimage, no_matching_receipt, unresolved_rollback,
  unresolved_prepared, ambiguous_applied, backup_missing, backup_mismatch, restore_mismatch,
  os_failure,
}

pub data Action : Type 0 where
  deleted restored : Action

module _ (h : Host) where
  -- `sha256_file(target) if target.is_file() else None`, and `None` on an `OSError`.
  abbrev pub current_hash : Reading → Option Text
  current_hash (observed current) = current
  current_hash os_error = none

  abbrev pub settle_rollback : Text → Receipt → Outcome × World → Result Error (Unit {0}) × World
  settle_rollback name r (required, w) = (err unresolved_rollback, w)
  settle_rollback name r (_, w) = (ok tt, w)

  abbrev pub supersede : Text → Option Receipt → World → Result Error (Unit {0}) × World
  supersede name none w = (err unresolved_prepared, w)
  supersede name (some r) w = (ok tt, mark name r superseded w)

  -- A reconciled intent is read again and becomes SUPERSEDED.
  abbrev pub settle_prepared : Text → Outcome × World → Result Error (Unit {0}) × World
  settle_prepared name (required, w) = (err unresolved_prepared, w)
  settle_prepared name (_, w) = supersede name (read_valid (get name w.journal)) w

  abbrev pub settle_write : Text → Option Text → Receipt → TxState → M (Unit {0})
  settle_write name current r prepared w = settle_prepared name (reconcile_one h name r prepared w)
  settle_write name current r _ w =
      if not (is_blank r.postimage_sha256) && opt_eq current r.postimage_sha256
      then (ok tt, mark name r verified w)
      else (err ambiguous_applied, mark name r recovery_required w)

  module _ (project target : Text) where
    abbrev pub settle_receipt : Text → Option Text → Option Receipt → M (Unit {0})
    settle_receipt name current none w = (ok tt, w)
    settle_receipt name current (some r) w =
        if not (concerns project target r && is_incomplete r.tx_state)
        then (ok tt, w)
        else if is_rollback r.original_operation
        then settle_rollback name r (reconcile_one h name r r.tx_state w)
        else settle_write name current r r.tx_state w

    unfoldable pub settle_file : Text → Option Text → M (Unit {0})
    settle_file name current w = settle_receipt name current (read_valid (get name w.journal)) w

    unfoldable pub settle_loop : List Text → Option Text → M (Unit {0})
    unfolding settle_file
    settle_loop [] current = pure tt
    settle_loop (name ∷ names) current = do settle_file name current; settle_loop names current

    unfoldable pub supersede_pending : M (Unit {0})
    unfolding settle_loop
    supersede_pending w = settle_loop (iter_receipt_files w) (current_hash (read_hash h w target)) w

  unfoldable pub rollback_receipt : Text → Text → Text → Receipt → Text → ℕ → Receipt
  rollback_receipt rid project target source current n = record {
    receipt_id = rid;
    project_id = project;
    path = target;
    original_operation = rollback;
    preimage_exists = some true;
    tx_state = prepared;
    preimage_sha256 = some current;
    postimage_sha256 = none;
    expected_postimage_sha256 = some current;
    restored_sha256 = none;
    backup_file = none;
    prev_receipt_id = none;
    rollback_of = some source.receipt_id;
    seq = some (h.time_ns n);
  }

  abbrev pub found : Option Receipt → Result Error Receipt
  found none = err no_matching_receipt
  found (some r) = ok r

  -- `sha256_file(target)` of a file.
  abbrev pub file_hash : Reading → Result Error Text
  file_hash (observed (some digest)) = ok digest
  file_hash (observed none) = err target_missing
  file_hash os_error = err os_failure

  abbrev pub file_bytes : Option Node → Result Error Bytes
  file_bytes (some (file content)) = ok content
  file_bytes (some Node.unreadable) = err os_failure
  file_bytes _ = err backup_missing

  -- The target is replaced or gone: record it, and complete the source.
  unfoldable pub conclude : Text → Receipt → Text → Text → M (Unit {0})
  conclude name rb done source_id = do
    let rb' = record rb { restored_sha256 = some done; tx_state = applied }
    modify (write_receipt name rb')
    failpoint h rollback_before_terminal
    modify (finalize_rollback h name rb' source_id)

  -- Marks the rollback receipt and raises.
  abbrev pub fail_closed : Text → Receipt → Error → Bool → M (Unit {0})
  fail_closed name rb e true w = (ok tt, w)
  fail_closed name rb e false w = (err e, mark name rb recovery_required w)

  unfoldable pub delete_target : Text → Receipt → Text → Receipt → M Action
  unfolding conclude
  delete_target name rb target source = do
    modify (unlink target)
    conclude name rb (codes "__ABSENT__") source.receipt_id
    pure deleted

  unfoldable pub restore_target : Text → Receipt → Text → Receipt → M Action
  unfolding conclude
  restore_target name rb target source = do
    let backup = text_of source.backup_file
    present ← gets (λ w. is_file w backup)
    fail_closed name rb backup_missing present
    content ← gets (λ w. get backup w.disk)
    bytes ← lift (file_bytes content)
    fail_closed name rb backup_mismatch
        (opt_eq (some (sha256_bytes h bytes)) source.preimage_sha256)
    modify (write_bytes target bytes)
    final ← gets (λ w. current_hash (read_hash h w target))
    fail_closed name rb restore_mismatch (opt_eq final source.preimage_sha256)
    conclude name rb (text_of final) source.receipt_id
    pure restored

  abbrev pub no_files : List Text → Bool
  no_files [] = true
  no_files (x ∷ xs) = false

  unfoldable pub rollback_to : Text → Text → Text → Receipt → M Action
  unfolding rollback_receipt delete_target restore_target
  rollback_to project target current source = do
    rid ← new_receipt_id h (codes "rollback") project
    n ← gets (λ w. w.ticks)
    let rb = rollback_receipt rid project target source current n
    modify (write_receipt (json_name rid) rb)
    if has_preimage source
        then restore_target (json_name rid) rb target source
        else delete_target (json_name rid) rb target source

  unfoldable pub rollback_file : Text → Text → Text → M Action
  unfolding rollback_to
  rollback_file project target expected = do
    corrupt ← gets corrupt_receipt_files
    guard (no_files corrupt) journal_corrupt
    present ← gets (λ w. is_file w target)
    guard present target_missing
    reading ← gets (λ w. read_hash h w target)
    current ← lift (file_hash reading)
    guard (current == strip (upper expected)) stale_postimage
    supersede_pending project target
    latest ← gets (λ w. find_latest_receipt project target current w)
    candidate ← lift latest
    source ← lift (found candidate)
    rollback_to project target current source
