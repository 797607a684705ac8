-- ===== src/Recovery/Select.antt =====
-- src/jvc/recovery/store.py: `_all_valid_receipts`, `_chain_references`, `_find_superseded_id` and
-- `find_latest_receipt`.
use jvc_core.Base.{
  ℕ, Bool, true, false, not, ◌&&◌, Option, none, some, List, [], ◌∷◌, ◌++◌, Text, Bytes, codes,
  opt_eq, Dict, before, contains, select, starts_with, upper, strip, ltb, nat_eq, if◌then◌else◌,
}
use jvc_core.Exec.{Result, ok, err}
use jvc_core.Recovery.Receipt.{
  Receipt, TxState, applied, verified, Entry, read_valid, is_fs_write, is_terminal, is_blocking,
}
use jvc_core.Recovery.World.{sha256_bytes, Host, World}
use jvc_core.Recovery.Reconcile.{is_blank, text_of}
use jvc_core.Recovery.Gate.{concerns}
use jvc_core.Recovery.Errors.{Error, ambiguous_lineage}

unfoldable pub valid_receipts : Dict Entry → List (Text × Receipt)
valid_receipts [] = []
valid_receipts ((name, e) ∷ journal) =
    let rest = valid_receipts journal in
    elim (read_valid (some e)) [ none ↦ rest | some r ↦ (name, r) ∷ rest ]

unfoldable pub all_valid_receipts : World → List (Text × Receipt)
unfolding valid_receipts
all_valid_receipts w = valid_receipts w.journal

-- The states whose pointers count: APPLIED and VERIFIED.
unfoldable pub is_standing : TxState → Bool
is_standing applied = true
is_standing verified = true
is_standing _ = false

module _ (project target : Text) where
  -- The receipts of the target with a pointer, in the states that `counts` accepts.
  unfoldable pub pointers : (TxState → Bool) → List (Text × Receipt) → List Text
  pointers counts [] = []
  pointers counts ((name, r) ∷ rs) =
      let rest = pointers counts rs in
      if concerns project target r && not (is_blank r.prev_receipt_id) && counts r.tx_state
      then text_of r.prev_receipt_id ∷ rest
      else rest

  -- The effective and the ambiguous pointers.
  unfoldable pub chain_references : List (Text × Receipt) → List Text × List Text
  unfolding pointers is_standing
  chain_references rs = (pointers is_standing rs, pointers is_blocking rs)

  -- `key > best`: by `seq`, a missing one as -1, and then by the ID.
  abbrev pub later_seq : Option ℕ → Option ℕ → Option Bool
  later_seq none none = none
  later_seq none (some n) = some false
  later_seq (some m) none = some true
  later_seq (some m) (some n) = if nat_eq m n then none else some (ltb n m)

  abbrev pub is_later : Receipt → Receipt → Bool
  is_later r best = elim (later_seq r.seq best.seq) [
    | none ↦ before best.receipt_id r.receipt_id
    | some later ↦ later
  ]

  abbrev pub better : Receipt → Option Receipt → Option Receipt
  better r none = some r
  better r (some best) = if is_later r best then some r else some best

  -- The latest terminal receipt of a write to the target.
  unfoldable pub latest_terminal : Option Receipt → List (Text × Receipt) → Option Receipt
  latest_terminal best [] = best
  latest_terminal best ((name, r) ∷ rs) =
      latest_terminal
        (if concerns project target r && is_fs_write r.original_operation && is_terminal r.tx_state
          then better r best
          else best)
        rs

  abbrev pub is_verified : TxState → Bool
  is_verified verified = true
  is_verified _ = false

  -- A standing write of the target that left the given bytes.
  abbrev pub left_postimage : Text → Receipt → Bool
  left_postimage post r =
      concerns project target r
      && is_fs_write r.original_operation
      && is_verified r.tx_state
      && opt_eq r.postimage_sha256 (some post)

  unfoldable pub matching : Text → List (Text × Receipt) → List Receipt
  matching post [] = []
  matching post ((name, r) ∷ rs) =
      let rest = matching post rs in if left_postimage post r then r ∷ rest else rest

  abbrev pub unreferenced : List Text → List Receipt → List Receipt
  unreferenced effective = select (λ r. not (contains r.receipt_id effective))

  abbrev pub only_id : List Receipt → Option Text
  only_id (r ∷ []) = some r.receipt_id
  only_id _ = none

  abbrev pub id_of : Option Receipt → Option Text
  id_of none = none
  id_of (some r) = some r.receipt_id

  unfoldable pub find_superseded_id : Host → Option Bytes → World → Option Text
  unfolding chain_references matching latest_terminal
  find_superseded_id h none w = id_of (latest_terminal none (all_valid_receipts w))
  find_superseded_id h (some content) w =
      let rs = all_valid_receipts w in
      only_id (unreferenced (chain_references rs).0 (matching (sha256_bytes h content) rs))

  -- The files that `glob(f"recovery-{project_id}-*.json")` lists.
  abbrev pub named_for : Text × Receipt → Bool
  named_for (name, r) = starts_with (codes "recovery-" ++ project ++ codes "-") name

  abbrev pub single_head : List Text → List Receipt → Result Error (Option Receipt)
  single_head ambiguous (head ∷ []) =
      if contains head.receipt_id ambiguous then err ambiguous_lineage else ok (some head)
  single_head ambiguous _ = err ambiguous_lineage

  abbrev pub choose_head : List Receipt → List Text × List Text → Result Error (Option Receipt)
  choose_head [] refs = ok none
  choose_head (r ∷ rs) (effective, ambiguous) =
      single_head ambiguous (unreferenced effective (r ∷ rs))

  unfoldable pub find_latest_receipt : Text → World → Result Error (Option Receipt)
  unfolding chain_references matching
  find_latest_receipt expected w =
      let rs = all_valid_receipts w in
      choose_head (matching (strip (upper expected)) (select named_for rs)) (chain_references rs)
