-- ===== src/Recovery/Effects.antt =====
-- What the operations of the journal do to the files of the disk.
use jvc_core.Base.{
  ℕ, zero, suc, ◌≡◌, refl, false, Option, none, some, Text, Bytes, ◌==◌, get, get-put, arith,
}
use jvc_core.Recovery.Receipt.{Receipt}
use jvc_core.Recovery.World.{
  Host, World, file, Reading, observed, os_error, mark, backup_path, write_bytes, write_receipt,
}
use jvc_core.Recovery.Save.{
  try_ids, tick, save_backup, save_preimage, note_target_replaced, record_postimage, finalize,
}

-- A path that is no backup of the store.
abbrev pub IsOutside : Host → Text → Type 0
IsOutside h path = (rid : Text) → (backup_path h.root rid == path) ≡ false

module _ (h : Host) where
  pub disk-try_ids :
      (n : ℕ) (kind project : Text) (w : World) → (try_ids h n kind project w).1.disk ≡ w.disk
  unfolding try_ids
  disk-try_ids zero kind project w = refl
  disk-try_ids (suc n) kind project w = grind (arith, disk-try_ids n kind project (tick h w))

  pub disk-note :
      (rid post : Text) (w : World) → (note_target_replaced h rid post w).1.disk ≡ w.disk
  unfolding note_target_replaced write_receipt
  disk-note rid post w = ground arith

  disk-finalize :
      (name : Text) (r : Receipt) (post : Text) (x : Reading) (w : World)
      → (finalize h name r post x w).1.disk ≡ w.disk
  unfolding mark
  disk-finalize name r post (observed (some d)) w = ground arith
  disk-finalize name r post (observed none) w = refl
  disk-finalize name r post os_error w = refl

  pub disk-record : (rid post : Text) (w : World) → (record_postimage h rid post w).1.disk ≡ w.disk
  unfolding record_postimage write_receipt
  disk-record rid post w = grind (arith, disk-finalize)

  module _ (path : Text) (outside : IsOutside h path) where
    get-save_backup :
        (rid : Text) (content : Option Bytes) (w : World)
        → get path (save_backup h rid content w).1.disk ≡ get path w.disk
    unfolding save_backup write_bytes
    get-save_backup rid none w = refl
    get-save_backup rid (some content) w =
        ground (arith, outside rid, get-put (backup_path h.root rid) path (file content) w.disk)

    pub get-save_preimage :
        (project target : Text) (content : Option Bytes) (w : World)
        → get path (save_preimage h project target content w).1.disk ≡ get path w.disk
    unfolding save_preimage write_receipt
    get-save_preimage project target content w = grind (arith, get-save_backup, disk-try_ids)
