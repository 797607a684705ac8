-- ===== src/Recovery/Disk.antt =====
-- Recovery decides on journal entries: no file of a project and no backup changes.
use jvc_core.Base.{◌≡◌, refl, ◌∙◌, Option, none, some, List, [], ◌∷◌, Text, get, arith}
use jvc_core.Recovery.Receipt.{
  Receipt, TxState, prepared, applied, verified, recovery_required, rolled_back, unknown_state,
  Entry, object, unparseable, non_object,
}
use jvc_core.Recovery.Sound.{AllEntries, HasPlainSource}
use jvc_core.Recovery.World.{Host, World, Reading, observed, os_error, iter_receipt_files}
use jvc_core.Recovery.Reconcile.{
  complete_source, finalize_rollback, resume_rollback, resume_write, reconcile_rollback,
  reconcile_one, audit_verified, decide_state, decide_read, mark_invalid, decide_locked,
}
use jvc_core.Recovery.Recover.{
  Summary, Locks, scan_locked, scan_state, scan_entry, recover_file, recover_loop, recover,
  empty_summary,
}
use jvc_core.Recovery.Frame.{disk-mark}

module _ (h : Host) where
  disk-complete_source :
      (name : Text) (o : Option Receipt) (w : World) → (complete_source h name o w).disk ≡ w.disk
  disk-complete_source name none w = refl
  disk-complete_source name (some source) w = disk-mark name source rolled_back w

  pub disk-finalize_rollback :
      (name : Text) (r : Receipt) (source : Text) (w : World)
      → (finalize_rollback h name r source w).disk ≡ w.disk
  unfolding finalize_rollback
  disk-finalize_rollback name r source w = grind (arith, disk-complete_source, disk-mark)

  disk-resume_rollback :
      (name : Text) (r : Receipt) (x : Reading) (s : TxState) (w : World)
      → (resume_rollback h name r x s w).1.disk ≡ w.disk
  disk-resume_rollback name r os_error s w = disk-mark name r recovery_required w
  disk-resume_rollback name r (observed c) prepared w = grind (arith, disk-mark)
  disk-resume_rollback name r (observed c) applied w =
      grind (arith, disk-mark, disk-finalize_rollback)
  disk-resume_rollback name r (observed c) _ w = disk-mark name r recovery_required w

  disk-resume_write :
      (name : Text) (r : Receipt) (x : Reading) (s : TxState) (w : World)
      → (resume_write h name r x s w).1.disk ≡ w.disk
  disk-resume_write name r os_error s w = disk-mark name r recovery_required w
  disk-resume_write name r (observed c) prepared w = grind (arith, disk-mark)
  disk-resume_write name r (observed c) applied w = grind (arith, disk-mark)
  disk-resume_write name r (observed c) _ w = disk-mark name r recovery_required w

  pub disk-reconcile_one :
      (name : Text) (r : Receipt) (s : TxState) (w : World)
      → (reconcile_one h name r s w).1.disk ≡ w.disk
  unfolding reconcile_one reconcile_rollback
  disk-reconcile_one name r s w = grind (arith, disk-mark, disk-resume_rollback, disk-resume_write)

  disk-decide_state :
      (name : Text) (r : Receipt) (s : TxState) (w : World)
      → (decide_state h name r s w).1.disk ≡ w.disk
  unfolding audit_verified
  disk-decide_state name r verified w = grind (arith, disk-mark, disk-finalize_rollback)
  disk-decide_state name r prepared w = disk-reconcile_one name r prepared w
  disk-decide_state name r applied w = disk-reconcile_one name r applied w
  disk-decide_state name r unknown_state w = disk-reconcile_one name r unknown_state w
  disk-decide_state name r _ w = refl

  disk-mark_invalid :
      (name : Text) (e : Option Entry) (w : World) → (mark_invalid h name e w).disk ≡ w.disk
  disk-mark_invalid name none w = refl
  disk-mark_invalid name (some unparseable) w = refl
  disk-mark_invalid name (some non_object) w = refl
  disk-mark_invalid name (some (object r)) w = disk-mark name r recovery_required w

  disk-decide_read :
      (name : Text) (o : Option Receipt) (w : World) → (decide_read h name o w).1.disk ≡ w.disk
  disk-decide_read name none w = disk-mark_invalid name _ w
  disk-decide_read name (some r) w = disk-decide_state name r r.tx_state w

  disk-decide_locked : (name : Text) (w : World) → (decide_locked h name w).1.disk ≡ w.disk
  unfolding decide_locked
  disk-decide_locked name w = disk-decide_read name _ w

module _ (h : Host) (locks : Locks) where
  disk-scan_locked :
      (name : Text) (r : Receipt) (s : Summary) (w : World)
      → (scan_locked h locks name r s w).1.disk ≡ w.disk
  disk-scan_locked name r s w = grind (arith, disk-decide_locked)

  disk-scan_state :
      (name : Text) (r : Receipt) (t : TxState) (s : Summary) (w : World)
      → (scan_state h locks name r t s w).1.disk ≡ w.disk
  disk-scan_state name r prepared s w = disk-scan_locked name r s w
  disk-scan_state name r applied s w = disk-scan_locked name r s w
  disk-scan_state name r unknown_state s w = disk-scan_locked name r s w
  disk-scan_state name r verified s w = grind (arith, disk-scan_locked)
  disk-scan_state name r _ s w = refl

  disk-scan_entry :
      (name : Text) (e : Option Entry) (s : Summary) (w : World)
      → (scan_entry h locks name e s w).1.disk ≡ w.disk
  disk-scan_entry name none s w = refl
  disk-scan_entry name (some unparseable) s w = refl
  disk-scan_entry name (some non_object) s w = refl
  disk-scan_entry name (some (object r)) s w = grind (arith, disk-scan_state, disk-mark)

  disk-recover_loop :
      (names : List Text) (s : Summary) (w : World)
      → (recover_loop h locks names s w).1.disk ≡ w.disk
  unfolding recover_loop recover_file
  disk-recover_loop [] s w = refl
  disk-recover_loop (name ∷ names) s w =
      disk-recover_loop names _ _ ∙ disk-scan_entry name (get name w.journal) s w

-- If the rollbacks of the journal name their sources by plain names, a restart recovery changes no
-- project file and no backup, whatever else the journal holds and whichever locks it gets.
pub disk-recover :
    (h : Host) (locks : Locks) (w : World)
    → AllEntries HasPlainSource w.journal
    → (recover h locks w).1.disk ≡ w.disk
unfolding recover
disk-recover h locks w _ = disk-recover_loop h locks (iter_receipt_files w) empty_summary w
