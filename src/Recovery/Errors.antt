-- ===== src/Recovery/Errors.antt =====
-- src/jvc/recovery/store.py: what the store raises, one constructor for each `raise` and for each
-- exception of the host that passes through.
use jvc_core.Recovery.World.{FailurePoint}

pub data Error : Type 0 where
  no_free_receipt_id backup_too_large backup_not_verified : Error
  receipt_missing receipt_unreadable unexpected_state : Error
  target_unreadable postimage_mismatch : Error
  journal_corrupt target_missing stale_postimage no_matching_receipt : Error
  ambiguous_lineage unresolved_rollback unresolved_prepared ambiguous_applied : Error
  backup_missing backup_mismatch restore_mismatch : Error
  injected : FailurePoint → Error
  os_failure : Error
