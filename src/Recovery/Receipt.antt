-- ===== src/Recovery/Receipt.antt =====
-- src/jvc/recovery/store.py: receipts, their schema, and the states of a transaction.
-- A field of a receipt that must be a non-empty string is empty here when the document lacks it or
-- holds anything else. An optional field is `none` when it is absent or `null`.
use jvc_core.Base.{
  ℕ, Bool, true, false, ◌&&◌, Option, none, some, Text, if◌then◌else◌, is_some, is_empty,
}

pub data TxState : Type 0 where
  prepared applied verified recovered_unapplied recovery_required rolled_back superseded : TxState
  unknown_state : TxState

pub data Operation : Type 0 where
  fs_write rollback unknown_operation : Operation

pub record Receipt : Type 0 where
  pub receipt_id : Text
  pub project_id : Text
  pub path : Text
  pub original_operation : Operation
  pub preimage_exists : Option Bool
  pub tx_state : TxState
  pub preimage_sha256 : Option Text
  pub postimage_sha256 : Option Text
  pub expected_postimage_sha256 : Option Text
  pub restored_sha256 : Option Text
  pub backup_file : Option Text
  pub prev_receipt_id : Option Text
  pub rollback_of : Option Text
  pub seq : Option ℕ

-- What a `recovery-*.json` or `rollback-*.json` file holds.
pub data Entry : Type 0 where
  unparseable : Entry
  non_object : Entry
  object : Receipt → Entry

unfoldable pub is_terminal : TxState → Bool
is_terminal verified = true
is_terminal recovered_unapplied = true
is_terminal rolled_back = true
is_terminal superseded = true
is_terminal _ = false

unfoldable pub is_incomplete : TxState → Bool
is_incomplete prepared = true
is_incomplete applied = true
is_incomplete _ = false

unfoldable pub is_blocking : TxState → Bool
is_blocking recovery_required = true
is_blocking _ = false

unfoldable pub is_known : TxState → Bool
is_known unknown_state = false
is_known _ = true

unfoldable pub known_operation : Operation → Bool
known_operation unknown_operation = false
known_operation _ = true

unfoldable pub is_rollback : Operation → Bool
is_rollback rollback = true
is_rollback _ = false

unfoldable pub is_fs_write : Operation → Bool
is_fs_write fs_write = true
is_fs_write _ = false

-- `data.get("preimage_exists")` as a condition.
abbrev pub has_preimage : Receipt → Bool
has_preimage r = elim (r.preimage_exists) [ some true ↦ true | _ ↦ false ]

-- Whether `validate_receipt` returns instead of raising.
unfoldable pub is_valid : Receipt → Bool
unfolding is_known known_operation
is_valid r =
    if is_empty r.receipt_id
    then false
    else if is_empty r.project_id
    then false
    else if is_empty r.path
    then false
    else known_operation r.original_operation && is_some r.preimage_exists && is_known r.tx_state

-- `json.loads` and then `validate_receipt`, where each failure is skipped or reported alike.
unfoldable pub read_valid : Option Entry → Option Receipt
unfolding is_valid
read_valid (some (object r)) = if is_valid r then some r else none
read_valid _ = none
