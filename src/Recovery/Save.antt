-- ===== src/Recovery/Save.antt =====
-- src/jvc/recovery/store.py: `_failpoint`, `_new_receipt_id`, `save_preimage`,
-- `note_target_replaced` and `record_postimage`.
use jvc_core.Base.{
  ℕ, zero, suc, ◌*◌, Bool, true, false, not, ◌||◌, Option, none, some, ◌++◌, Text, Bytes, codes,
  ◌==◌, get, length, ltb, is_some, upper, if◌then◌else◌,
}
use jvc_core.Exec.{Result, ok, err, Exec, pure, gets, modify, guard, ◌>>=◌, ◌>>◌}
use jvc_core.Recovery.Receipt.{
  Receipt, TxState, prepared, applied, verified, recovery_required, fs_write, Entry, unparseable,
  non_object, object,
}
use jvc_core.Recovery.World.{
  sha256_bytes, Host, World, FailurePoint, after_backup, during_finalize, json_name, backup_path,
  read_hash, Reading, observed, write_bytes, write_receipt, mark,
}
use jvc_core.Recovery.Select.{find_superseded_id}
use jvc_core.Recovery.Errors.{
  Error, no_free_receipt_id, backup_too_large, backup_not_verified, receipt_missing,
  receipt_unreadable, unexpected_state, target_unreadable, postimage_mismatch, injected,
}

abbrev pub M : Type 0 → Type 0
M A = Exec Error World A

abbrev pub max_backup_bytes : ℕ
max_backup_bytes = 50 * 1024 * 1024

module _ (h : Host) where
  abbrev pub failpoint : FailurePoint → M (Unit {0})
  failpoint point = guard (not (h.failing point)) (injected point)

  abbrev pub tick : World → World
  tick w = record w { ticks = suc w.ticks }

  -- The ID made from the kind, the project, and the time and nonce of this moment.
  unfoldable pub make_id : Text → Text → ℕ → Text
  make_id kind project n = kind ++ codes "-" ++ project ++ codes "-" ++ h.stamp n

  -- `exists()` of the receipt's or of the backup's path
  unfoldable pub is_taken : Text → World → Bool
  is_taken rid w =
      is_some (get (json_name rid) w.journal) || is_some (get (backup_path h.root rid) w.disk)

  unfoldable pub try_ids : ℕ → Text → Text → M Text
  try_ids zero kind project w = (err no_free_receipt_id, w)
  try_ids (suc n) kind project w =
      let rid = make_id kind project w.ticks in
      let rest = try_ids n kind project (tick w) in
      if is_taken rid w then rest else (ok rid, tick w)

  unfoldable pub new_receipt_id : Text → Text → M Text
  new_receipt_id kind project = try_ids 100 kind project

  abbrev pub matches_hash : Text → Reading → Bool
  matches_hash digest (observed (some d)) = d == digest
  matches_hash digest _ = false

  -- The backup of a preimage, read back at once.
  unfoldable pub save_backup : Text → Option Bytes → M (Option Text)
  save_backup rid none = pure none
  save_backup rid (some content) = do
    guard (not (ltb max_backup_bytes (length content))) backup_too_large
    modify (write_bytes (backup_path h.root rid) content)
    reading ← gets (λ w. read_hash h w (backup_path h.root rid))
    guard (matches_hash (sha256_bytes h content) reading) backup_not_verified
    pure (some (backup_path h.root rid))

  abbrev pub hash_of : Option Bytes → Option Text
  hash_of none = none
  hash_of (some content) = some (sha256_bytes h content)

  unfoldable pub prepared_receipt :
      Text → Text → Text → Option Bytes → Option Text → Option Text → ℕ → Receipt
  prepared_receipt rid project target content previous backup n = record {
    receipt_id = rid;
    project_id = project;
    path = target;
    original_operation = fs_write;
    preimage_exists = some (is_some content);
    tx_state = prepared;
    preimage_sha256 = hash_of content;
    postimage_sha256 = none;
    expected_postimage_sha256 = none;
    restored_sha256 = none;
    backup_file = backup;
    prev_receipt_id = previous;
    rollback_of = none;
    seq = some (h.time_ns n);
  }

  unfoldable pub save_preimage : Text → Text → Option Bytes → M Receipt
  unfolding new_receipt_id save_backup prepared_receipt
  save_preimage project target content = do
    rid ← new_receipt_id (codes "recovery") project
    backup ← save_backup rid content
    previous ← gets (find_superseded_id project target h content)
    n ← gets (λ w. w.ticks)
    let receipt = prepared_receipt rid project target content previous backup n
    modify (write_receipt (json_name rid) receipt)
    failpoint after_backup
    pure receipt

  -- `json.loads` of a receipt file, with no schema check.
  abbrev pub parse_entry : Option Entry → Result Error Receipt
  parse_entry none = err receipt_missing
  parse_entry (some unparseable) = err receipt_unreadable
  parse_entry (some non_object) = err receipt_unreadable
  parse_entry (some (object r)) = ok r

  unfoldable pub load_receipt : Text → M Receipt
  load_receipt rid w = (parse_entry (get (json_name rid) w.journal), w)

  abbrev pub is_prepared : TxState → Bool
  is_prepared prepared = true
  is_prepared _ = false

  unfoldable pub note_target_replaced : Text → Text → M (Unit {0})
  unfolding load_receipt
  note_target_replaced rid post = do
    r ← load_receipt rid
    guard (is_prepared r.tx_state) unexpected_state
    modify (
        write_receipt (json_name rid)
          (record r { postimage_sha256 = some (upper post); tx_state = applied }))

  abbrev pub is_pending : TxState → Bool
  is_pending prepared = true
  is_pending applied = true
  is_pending _ = false

  -- The verdict on the bytes that stand at the target.
  abbrev pub finalize : Text → Receipt → Text → Reading → M (Unit {0})
  finalize name r post (observed (some current)) w =
      if current == post
      then (ok tt, mark name r verified w)
      else (err postimage_mismatch, mark name r recovery_required w)
  finalize name r post _ w = (err target_unreadable, mark name r recovery_required w)

  unfoldable pub record_postimage : Text → Text → M (Unit {0})
  unfolding load_receipt
  record_postimage rid post = do
    r ← load_receipt rid
    guard (is_pending r.tx_state) unexpected_state
    let r' = record r { postimage_sha256 = some (upper post); tx_state = applied }
    modify (write_receipt (json_name rid) r')
    failpoint during_finalize
    reading ← gets (λ w. read_hash h w r'.path)
    finalize (json_name rid) r' (upper post) reading
