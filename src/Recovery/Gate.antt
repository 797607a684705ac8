-- ===== src/Recovery/Gate.antt =====
-- src/jvc/recovery/store.py: `corrupt_receipt_files`, `has_blocking_state`, `reconcile_target` and
-- `prune`.
use jvc_core.Base.{
  ℕ, suc, ◌*◌, ◌-◌, Bool, not, ◌&&◌, Option, none, some, List, [], ◌∷◌, ◌++◌, Text, ◌==◌, Dict, get,
  remove, leb, if◌then◌else◌,
}
use jvc_core.Recovery.Receipt.{Receipt, Entry, read_valid, is_terminal, is_incomplete, is_blocking}
use jvc_core.Recovery.World.{Host, World, iter_receipt_files, unlink}
use jvc_core.Recovery.Reconcile.{Outcome, required, text_of, is_blank, reconcile_one}

-- The files of the journal that no valid receipt can be read from.
unfoldable pub corrupt_files : Dict Entry → List Text
corrupt_files [] = []
corrupt_files ((name, e) ∷ journal) =
    let rest = corrupt_files journal in
    elim (read_valid (some e)) [ none ↦ name ∷ rest | some r ↦ rest ]

unfoldable pub corrupt_receipt_files : World → List Text
unfolding corrupt_files
corrupt_receipt_files w = corrupt_files w.journal

-- The project and the path of a receipt are those of the target.
abbrev pub concerns : Text → Text → Receipt → Bool
concerns project target r = r.project_id == project && r.path == target

unfoldable pub find_blocking : Text → Text → Dict Entry → Option Text
find_blocking project target [] = none
find_blocking project target ((name, e) ∷ journal) =
    let rest = find_blocking project target journal in
    elim (read_valid (some e)) [
      | none ↦ rest
      | some r ↦
          if concerns project target r && is_blocking r.tx_state then some r.receipt_id else rest
    ]

pub data Blocker : Type 0 where
  clear : Blocker
  store_corrupt : Text → Blocker
  blocked_by : Text → Blocker

unfoldable pub has_blocking_state : Text → Text → World → Blocker
unfolding find_blocking
has_blocking_state project target w = elim (corrupt_receipt_files w) [
  | name ∷ names ↦ store_corrupt name
  | [] ↦ elim (find_blocking project target w.journal) [ none ↦ clear | some rid ↦ blocked_by rid ]
]

pub record Pending : Type 0 where
  pub reconciled : List Text
  pub recovery_required : List Text

module _ (h : Host) (project target : Text) where
  abbrev pub note : Outcome → Text → Pending → Pending
  note required rid p = record p { recovery_required = p.recovery_required ++ rid ∷ [] }
  note _ rid p = record p { reconciled = p.reconciled ++ rid ∷ [] }

  -- One round of the loop, on the receipt that the file holds now.
  abbrev pub reconcile_receipt : Text → Option Receipt → Pending → World → Pending × World
  reconcile_receipt name none p w = (p, w)
  reconcile_receipt name (some r) p w =
      if not (concerns project target r)
      then (p, w)
      else if not (is_incomplete r.tx_state)
      then (if is_blocking r.tx_state then note required r.receipt_id p else p, w)
      else (let (outcome, w') = reconcile_one h name r r.tx_state w in
          (note outcome r.receipt_id p, w'))

  unfoldable pub reconcile_file : Text → Pending → World → Pending × World
  reconcile_file name p w = reconcile_receipt name (read_valid (get name w.journal)) p w

  unfoldable pub reconcile_loop : List Text → Pending → World → Pending × World
  unfolding reconcile_file
  reconcile_loop [] p w = (p, w)
  reconcile_loop (name ∷ names) p w =
      let (p', w') = reconcile_file name p w in reconcile_loop names p' w'

  unfoldable pub reconcile_target : World → Pending × World
  unfolding reconcile_loop
  reconcile_target w =
      reconcile_loop (iter_receipt_files w) (record { reconciled = []; recovery_required = [] }) w

abbrev pub unlink_backup : Option Text → World → World
unlink_backup backup w = if is_blank backup then w else unlink (text_of backup) w

abbrev pub prune_receipt : Text → Option Receipt → ℕ × World → ℕ × World
prune_receipt name none (n, w) = (n, w)
prune_receipt name (some r) (n, w) =
    if is_terminal r.tx_state
    then (suc n, unlink_backup r.backup_file (record w { journal = remove name w.journal }))
    else (n, w)

-- The modification time of each journal file, in seconds.
module _ (mtime : Text → ℕ) (cutoff : ℕ) where
  unfoldable pub prune_file : Text → ℕ × World → ℕ × World
  prune_file name (n, w) =
      if leb cutoff (mtime name)
      then (n, w)
      else prune_receipt name (read_valid (get name w.journal)) (n, w)

  unfoldable pub prune_loop : List Text → ℕ × World → ℕ × World
  unfolding prune_file
  prune_loop [] s = s
  prune_loop (name ∷ names) s = prune_loop names (prune_file name s)

-- `self.prune(retention_days)` at the time `now`. A cutoff before the epoch prunes nothing.
unfoldable pub prune : (Text → ℕ) → ℕ → ℕ → World → ℕ × World
unfolding prune_loop
prune mtime now retention_days w =
    prune_loop mtime (now - retention_days * 86400) (iter_receipt_files w) (0, w)
