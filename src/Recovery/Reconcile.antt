-- ===== src/Recovery/Reconcile.antt =====
-- src/jvc/recovery/store.py: `_backup_ok`, `_finalize_rollback`, `_reconcile_rollback`,
-- `_reconcile_one`, `_audit_verified` and `_decide_locked`.
use jvc_core.Base.{
  is_empty, Bool, true, false, not, ◌&&◌, ◌||◌, Option, none, some, Text, codes, ◌==◌, opt_eq, get,
  if◌then◌else◌,
}
use jvc_core.Recovery.Receipt.{
  Receipt, TxState, prepared, applied, verified, recovered_unapplied, recovery_required,
  rolled_back, superseded, object, Entry, is_rollback, has_preimage, read_valid,
}
use jvc_core.Recovery.World.{Host, World, Reading, observed, os_error, json_name, read_hash, mark}

-- What a decision returns: "recovered", "verified" or "required".
pub data Outcome : Type 0 where
  recovered finalized required : Outcome

-- `x or ""`: the text of an optional field.
abbrev pub text_of : Option Text → Text
text_of none = codes ""
text_of (some t) = t

-- `not x` for an optional text
abbrev pub is_blank : Option Text → Bool
is_blank x = is_empty (text_of x)

module _ (h : Host) where
  -- The backup that a receipt names can be read and has the hash of the preimage.
  unfoldable pub backup_ok : World → Receipt → Bool
  backup_ok w r =
      if not (has_preimage r)
      then true
      else if is_blank r.backup_file || is_blank r.preimage_sha256
      then false
      else elim (read_hash h w (text_of r.backup_file)) [
        | observed none ↦ false
        | observed (some digest) ↦ digest == text_of r.preimage_sha256
        | os_error ↦ false
      ]

  abbrev pub deny : Text → Receipt → World → Outcome × World
  deny name r w = (required, mark name r recovery_required w)

  abbrev pub complete_source : Text → Option Receipt → World → World
  complete_source name none w = w
  complete_source name (some source) w = mark name source rolled_back w

  -- The source is read after the rollback receipt is written.
  unfoldable pub finalize_rollback : Text → Receipt → Text → World → World
  finalize_rollback name r source_id w =
      let w' = mark name r verified w in
      if is_empty source_id
      then w'
      else complete_source (json_name source_id) (read_valid (get (json_name source_id) w'.journal))
          w'

  -- PREPARED: the target still carries the postimage that was to be rolled back.
  abbrev pub resume_rollback : Text → Receipt → Reading → TxState → World → Outcome × World
  resume_rollback name r os_error state w = deny name r w
  resume_rollback name r (observed current) prepared w =
      if opt_eq current r.expected_postimage_sha256
      then (recovered, mark name r recovered_unapplied w)
      else deny name r w
  resume_rollback name r (observed current) applied w =
      if not (is_blank r.restored_sha256)
        && (opt_eq current r.restored_sha256
            || (opt_eq r.restored_sha256 (some (codes "__ABSENT__")) && opt_eq current none))
      then (finalized, finalize_rollback name r (text_of r.rollback_of) w)
      else deny name r w
  resume_rollback name r (observed current) _ w = deny name r w

  unfoldable pub reconcile_rollback : Text → Receipt → TxState → World → Outcome × World
  reconcile_rollback name r state w = resume_rollback name r (read_hash h w r.path) state w

  -- PREPARED: safe if the target still matches the preimage, or is still absent.
  abbrev pub resume_write : Text → Receipt → Reading → TxState → World → Outcome × World
  resume_write name r os_error state w = deny name r w
  resume_write name r (observed current) prepared w =
      if (not (has_preimage r) && opt_eq current none)
        || (has_preimage r && opt_eq current r.preimage_sha256)
      then (recovered, mark name r recovered_unapplied w)
      else deny name r w
  resume_write name r (observed current) applied w =
      if not (is_blank r.postimage_sha256) && opt_eq current r.postimage_sha256
      then (finalized, mark name r verified w)
      else deny name r w
  resume_write name r (observed current) _ w = deny name r w

  unfoldable pub reconcile_one : Text → Receipt → TxState → World → Outcome × World
  reconcile_one name r state w =
      if is_rollback r.original_operation
      then reconcile_rollback name r state w
      else if has_preimage r && not (backup_ok w r)
      then deny name r w
      else resume_write name r (read_hash h w r.path) state w

  unfoldable pub audit_verified : Text → Receipt → World → Outcome × World
  audit_verified name r w =
      if is_rollback r.original_operation
      then (finalized, finalize_rollback name r (text_of r.rollback_of) w)
      else if has_preimage r && not (backup_ok w r)
      then deny name r w
      else (finalized, w)

  abbrev pub decide_state : Text → Receipt → TxState → World → Outcome × World
  decide_state name r verified w = audit_verified name r w
  decide_state name r recovered_unapplied w = (recovered, w)
  decide_state name r rolled_back w = (recovered, w)
  decide_state name r superseded w = (recovered, w)
  decide_state name r recovery_required w = (required, w)
  decide_state name r state w = reconcile_one name r state w

  abbrev pub mark_invalid : Text → Option Entry → World → World
  mark_invalid name (some (object r)) w = mark name r recovery_required w
  mark_invalid name _ w = w

  abbrev pub decide_read : Text → Option Receipt → World → Outcome × World
  decide_read name none w = (required, mark_invalid name (get name w.journal) w)
  decide_read name (some r) w = decide_state name r r.tx_state w

  -- One decision on the receipt as it stands once the lock is held.
  unfoldable pub decide_locked : Text → World → Outcome × World
  decide_locked name w = decide_read name (read_valid (get name w.journal)) w
