-- ===== src/Recovery/Tests.antt =====
-- The theorems of the recovery store at concrete journals.
use jvc_core.Base.{
  ends_with, ◌≡◌, refl, true, false, Option, none, some, [], ◌∷◌, Text, codes, get, keys, ◌==◌, ◌-◌,
  ◌*◌,
}
use jvc_core.Recovery.Receipt.{
  Receipt, TxState, prepared, verified, read_valid, is_blocking, is_terminal, fs_write, object,
  unparseable,
}
use jvc_core.Recovery.World.{Host, World, file, iter_receipt_files}
use jvc_core.Recovery.Recover.{recover}
use jvc_core.Recovery.Sound.{AllEntries, IsReadable, HasPlainSource, HasBackup}
use jvc_core.Recovery.Settled.{is_settled}
use jvc_core.Recovery.Gate.{
  has_blocking_state, corrupt_receipt_files, corrupt_files, find_blocking, clear, prune, prune_loop,
  prune_file,
}
use jvc_core.Recovery.Retention.{Kept, prune-Kept}
use jvc_core.Recovery.Restart.{recover-settles}
use jvc_core.Recovery.Disk.{disk-recover}

abbrev host : Host
host = record {
  hexdigest = λ b. b;
  stamp = λ n. n ∷ [];
  time_ns = λ n. n;
  root = codes "/s";
  failing = λ point. false;
}

-- A write of "NEW" over "OLD" at /p/a that a crash left in the given state.
abbrev write_of_new : TxState → Option Text → Receipt
write_of_new state post = record {
  receipt_id = codes "recovery-demo-1";
  project_id = codes "demo";
  path = codes "/p/a";
  original_operation = fs_write;
  preimage_exists = some true;
  tx_state = state;
  preimage_sha256 = some (codes "OLD");
  postimage_sha256 = post;
  expected_postimage_sha256 = none;
  restored_sha256 = none;
  backup_file = some (codes "/s/recovery-demo-1.bak");
  prev_receipt_id = none;
  rollback_of = none;
  seq = some 1;
}

abbrev crashed : World
crashed = record {
  disk =
      (codes "/p/a", file (codes "NEW"))
      ∷ (codes "/s/recovery-demo-1.bak", file (codes "OLD"))
      ∷ [];
  journal =
      (codes "recovery-demo-1.json", object (write_of_new prepared none))
      ∷ (codes "recovery-demo-2.json", unparseable)
      ∷ [];
  ticks = 2;
}

-- Without the file that is no receipt.
abbrev readable : World
readable = record crashed {
  journal = (codes "recovery-demo-1.json", object (write_of_new prepared none)) ∷ [];
}

all-IsReadable : AllEntries IsReadable readable.journal
unfolding read_valid ◌==◌
all-IsReadable = ((write_of_new prepared none, refl), tt)

plain_sources : AllEntries HasPlainSource crashed.journal
plain_sources = ((λ source k. cc), (tt, tt))

recover-settles_example :
    is_settled (get (codes "recovery-demo-1.json") (recover host none readable).1.journal) ≡ true
recover-settles_example =
    recover-settles host none readable (codes "recovery-demo-1.json") all-IsReadable
      ((λ source k. cc), tt) (λ path. refl)

disk-recover_example : (recover host none crashed).1.disk ≡ crashed.disk
disk-recover_example = disk-recover host none crashed plain_sources

abbrev finished : Receipt
finished = write_of_new verified (some (codes "NEW"))

abbrev clean : World
clean = record crashed { journal = (codes "recovery-demo-1.json", object finished) ∷ [] }

clear_now : has_blocking_state (codes "demo") (codes "/p/a") clean ≡ clear
unfolding has_blocking_state corrupt_receipt_files corrupt_files find_blocking read_valid ◌==◌
    is_blocking
clear_now = refl

found_finished : get (codes "recovery-demo-1.json") clean.journal ≡ some (object finished)
unfolding get ◌==◌
found_finished = refl

pruned_one : (prune (λ name. 5) 2592010 30 clean).0 ≡ 1
unfolding prune prune_loop prune_file iter_receipt_files keys get read_valid ◌==◌ is_terminal
pruned_one = refl

has_backups : AllEntries HasBackup clean.journal
unfolding ends_with ◌==◌
has_backups = (is_backup, tt)
  where
    is_backup :
        (b : Text)
        → some (codes "/s/recovery-demo-1.bak") ≡ some b
        → ends_with (codes ".bak") b ≡ true
    is_backup b k = let same : (codes "/s/recovery-demo-1.bak" ≡ b) = cc in rw (← same) refl

prune-Kept_example :
    Kept
      (λ name. 5)
      (2592010 - 30 * 86400)
      (codes "recovery-demo-1.json")
      clean
      (prune (λ name. 5) 2592010 30 clean).1
prune-Kept_example =
    prune-Kept (λ name. 5) 2592010 30 clean (codes "recovery-demo-1.json") has_backups
