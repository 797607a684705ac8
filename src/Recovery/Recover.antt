-- ===== src/Recovery/Recover.antt =====
-- src/jvc/recovery/store.py: `recover` and `_find_orphan_backups`.
use jvc_core.Base.{
  ℕ, ◌+◌, Bool, true, false, not, ◌&&◌, ◌||◌, Option, none, some, List, [], ◌∷◌, ◌++◌, Text, codes,
  Dict, get, contains, select, base_name, strip_prefix, ends_with, split, is_empty, if◌then◌else◌,
}
use jvc_core.Recovery.Receipt.{
  Receipt, TxState, verified, recovered_unapplied, recovery_required, rolled_back, superseded,
  Entry, object, is_fs_write, has_preimage, is_valid,
}
use jvc_core.Recovery.World.{Host, World, Node, mark, iter_receipt_files}
use jvc_core.Recovery.Reconcile.{
  Outcome, recovered, finalized, required, text_of, is_blank, backup_ok, decide_locked,
}

pub record Summary : Type 0 where
  pub settled : List Text
  pub blocked : List Text
  pub deferred : List Text
  pub verified_count : ℕ
  pub seen_backups : List Text

abbrev pub add_settled : Text → Summary → Summary
add_settled rid s = record s { settled = s.settled ++ rid ∷ [] }

abbrev pub add_blocked : Text → Summary → Summary
add_blocked rid s = record s { blocked = s.blocked ++ rid ∷ [] }

abbrev pub add_deferred : Text → Summary → Summary
add_deferred rid s = record s { deferred = s.deferred ++ rid ∷ [] }

abbrev pub count_verified : Summary → Summary
count_verified s = record s { verified_count = s.verified_count + 1 }

abbrev pub add_outcome : Outcome → Text → Summary → Summary
add_outcome recovered rid s = add_settled rid s
add_outcome finalized rid s = count_verified s
add_outcome required rid s = add_blocked rid s

abbrev pub add_seen : Receipt → Summary → Summary
add_seen r s =
    if is_blank r.backup_file
    then s
    else record s { seen_backups = base_name (text_of r.backup_file) ∷ s.seen_backups }

-- The lock of a target, as a test whether it is acquired in time. `none` is `lock_for=None`.
abbrev pub Locks : Type 0
Locks = Option (Text → Bool)

abbrev pub acquires : Locks → Text → Bool
acquires none path = true
acquires (some lock) path = lock path

module _ (h : Host) (locks : Locks) where
  abbrev pub scan_locked : Text → Receipt → Summary → World → Summary × World
  scan_locked name r s w =
      if acquires locks r.path
      then (let (outcome, w') = decide_locked h name w in (add_outcome outcome r.receipt_id s, w'))
      else (add_deferred r.receipt_id s, w)

  abbrev pub scan_state : Text → Receipt → TxState → Summary → World → Summary × World
  scan_state name r recovery_required s w = (add_blocked r.receipt_id s, w)
  scan_state name r recovered_unapplied s w = (add_settled r.receipt_id s, w)
  scan_state name r rolled_back s w = (add_settled r.receipt_id s, w)
  scan_state name r superseded s w = (add_settled r.receipt_id s, w)
  scan_state name r verified s w =
      if is_fs_write r.original_operation && (not (has_preimage r) || backup_ok h w r)
      then (count_verified s, w)
      else scan_locked name r s w
  scan_state name r state s w = scan_locked name r s w

  abbrev pub scan_entry : Text → Option Entry → Summary → World → Summary × World
  scan_entry name (some (object r)) s w =
      if is_valid r then scan_state name r r.tx_state (add_seen r s) w else (
        add_blocked (if is_empty r.receipt_id then name else r.receipt_id) s,
        mark name r recovery_required w,
      )
  scan_entry name _ s w = (add_blocked name s, w)

  unfoldable pub recover_file : Text → Summary → World → Summary × World
  recover_file name s w = scan_entry name (get name w.journal) s w

  unfoldable pub recover_loop : List Text → Summary → World → Summary × World
  recover_loop [] s w = (s, w)
  recover_loop (name ∷ names) s w = let (s', w') = recover_file name s w in recover_loop names s' w'

abbrev is_single {ℓ} : {A : Type ℓ} → List A → Bool
is_single (x ∷ []) = true
is_single _ = false

-- The names of the `*.bak` files of the store's directory.
unfoldable pub backup_names : Text → Dict Node → List Text
backup_names root [] = []
backup_names root ((path, node) ∷ disk) =
    let rest = backup_names root disk in
    elim (strip_prefix (root ++ codes "/") path) [
      | none ↦ rest
      | some name ↦
          if ends_with (codes ".bak") name && is_single (split b'/' name) then name ∷ rest else rest
    ]

abbrev pub empty_summary : Summary
empty_summary = record {
  settled = [];
  blocked = [];
  deferred = [];
  verified_count = 0;
  seen_backups = [];
}

pub record Report : Type 0 where
  pub summary : Summary
  pub orphans : List Text

unfoldable pub find_orphan_backups : Host → List Text → World → List Text
find_orphan_backups h seen w =
    select (λ name. not (contains name seen)) (backup_names h.root w.disk)

unfoldable pub recover : Host → Locks → World → Report × World
unfolding recover_loop
recover h locks w =
    let (s, w') = recover_loop h locks (iter_receipt_files w) empty_summary w in
    (record { summary = s; orphans = find_orphan_backups h s.seen_backups w' }, w')
