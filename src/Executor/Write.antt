-- ===== src/Executor/Write.antt =====
-- src/jvc/execution/executor.py: the critical sections of `fs_write` and `fs_rollback`, which run
-- under the lock of the target.
use jvc_core.Base.{
  Option, none, some, List, [], ◌∷◌, ◌++◌, ◌&&◌, not, is_empty, nat_eq, Text, Bytes, ◌==◌, get, put,
  upper, strip, if◌then◌else◌,
}
use jvc_core.Exec.{Result, ok, err, Exec, pure, gets, lift, ◌>>=◌, ◌>>◌}
use jvc_core.Recovery.Receipt.{Receipt}
use jvc_core.Recovery.World.{
  Host, World, Node, file, unreadable, directory, after_target_write, sha256_bytes, write_bytes,
}
use jvc_core.Recovery.Errors.{Error, os_failure}
use jvc_core.Recovery.Reconcile.{is_blank, text_of}
use jvc_core.Recovery.Gate.{
  Pending, Blocker, clear, store_corrupt, blocked_by, reconcile_target, has_blocking_state,
  corrupt_receipt_files,
}
use jvc_core.Recovery.Save.{M, failpoint, save_preimage, note_target_replaced, record_postimage}
use jvc_core.Recovery.Rollback.{Action, rollback_file}

-- What a governed write raises beside what the store raises.
pub data WriteError : Type 0 where
  store : Error → WriteError
  recovery_blocks : Text → WriteError
  corrupt_journal_blocks : Text → WriteError
  preimage_required preimage_conflict preimage_for_missing_file : WriteError

abbrev pub raise_as : {A : Type 0} → Result Error A → Result WriteError A
raise_as (ok a) = ok a
raise_as (err e) = err (store e)

-- A method of the store, whose exceptions pass through.
abbrev pub in_store : {A : Type 0} → M A → Exec WriteError World A
in_store m w = let (r, w') = m w in (raise_as r, w')

-- The proper prefixes of the path that end before a slash, the shortest first, but the root.
unfoldable pub parents_from : Text → Text → List Text
parents_from seen [] = []
parents_from seen (c ∷ path) =
    let rest = parents_from (seen ++ c ∷ []) path in
    if nat_eq c b'/' && not (is_empty seen) then seen ∷ rest else rest

unfoldable pub parents_of : Text → List Text
parents_of path = parents_from [] path

module _ (h : Host) where
  abbrev pub check_pending : Pending × World → Result WriteError (Unit {0}) × World
  check_pending (pending, w) = elim pending.recovery_required [
    | [] ↦ (ok tt, w)
    | rid ∷ rids ↦ (err (recovery_blocks rid), w)
  ]

  abbrev pub check_blocker : Blocker → Result WriteError (Unit {0})
  check_blocker clear = ok tt
  check_blocker (store_corrupt name) = err (corrupt_journal_blocks name)
  check_blocker (blocked_by rid) = err (recovery_blocks rid)

  -- Reconcile the target's incomplete transactions, and deny what stays unresolved.
  unfoldable pub pass_gate : Text → Text → Exec WriteError World (Unit {0})
  pass_gate project target = do
    λ w. check_pending (reconcile_target h project target w)
    blocker ← gets (has_blocking_state project target)
    lift (check_blocker blocker)

  -- The comparison with the expected preimage; the bytes that stand there, if any.
  abbrev pub compare_preimage : Option Node → Option Text → Result WriteError (Option Bytes)
  compare_preimage (some (file content)) expected =
      if is_blank expected
      then err preimage_required
      else if sha256_bytes h content == strip (upper (text_of expected))
      then ok (some content)
      else err preimage_conflict
  compare_preimage (some unreadable) expected = err (store os_failure)
  compare_preimage _ expected = if is_blank expected then ok none else err preimage_for_missing_file

  unfoldable pub check_preimage : Text → Option Text → Exec WriteError World (Option Bytes)
  check_preimage target expected w = (compare_preimage (get target w.disk) expected, w)

  -- The temporary file replaces the target; a directory cannot be replaced.
  abbrev pub replace_node : Option Node → Text → Bytes → M (Unit {0})
  replace_node (some directory) target content w = (err os_failure, w)
  replace_node _ target content w = (ok tt, write_bytes target content w)

  -- `path.mkdir(exist_ok=True)`
  abbrev pub make_directory : Option Node → Text → M (Unit {0})
  make_directory none path w = (ok tt, record w { disk = put path directory w.disk })
  make_directory (some directory) path w = (ok tt, w)
  make_directory _ path w = (err os_failure, w)

  -- The directories are made in the order of the list, the outermost first.
  unfoldable pub make_directories : List Text → M (Unit {0})
  make_directories [] = pure tt
  make_directories (path ∷ paths) = do
    λ w. make_directory (get path w.disk) path w
    make_directories paths

  -- `target.parent.mkdir(parents=True, exist_ok=True)` and the replacement
  unfoldable pub replace_target : Text → Bytes → M (Unit {0})
  unfolding make_directories
  replace_target target content = do
    make_directories (parents_of target)
    λ w. replace_node (get target w.disk) target content w

  abbrev pub hash_node : Option Node → Result Error Text
  hash_node (some (file content)) = ok (sha256_bytes h content)
  hash_node _ = err os_failure

  -- `sha256_file(target)`
  unfoldable pub hash_target : Text → M Text
  hash_target target w = (hash_node (get target w.disk), w)

  -- APPLIED and VERIFIED, once the target is replaced.
  unfoldable pub confirm_write : Text → Receipt → M Receipt
  unfolding hash_target
  confirm_write target receipt = do
    failpoint h after_target_write
    post ← hash_target target
    note_target_replaced h receipt.receipt_id post
    record_postimage h receipt.receipt_id post
    pure receipt

  -- PREPARED, the replacement, APPLIED, VERIFIED.
  unfoldable pub journaled_write : Text → Text → Option Bytes → Bytes → M Receipt
  unfolding replace_target
  journaled_write project target preimage content = do
    receipt ← save_preimage h project target preimage
    replace_target target content
    confirm_write target receipt

  unfoldable pub write_locked : Text → Text → Bytes → Option Text → Exec WriteError World Receipt
  unfolding pass_gate check_preimage
  write_locked project target content expected = do
    pass_gate project target
    preimage ← check_preimage target expected
    in_store (journaled_write project target preimage content)

  -- The body of `fs_rollback` once its target is validated.
  unfoldable pub rollback_locked : Text → Text → Text → Exec WriteError World Action
  rollback_locked project target expected = do
    corrupt ← gets corrupt_receipt_files
    λ w. elim corrupt [ [] ↦ (ok tt, w) | name ∷ names ↦ (err (corrupt_journal_blocks name), w) ]
    in_store (rollback_file h project target expected)
