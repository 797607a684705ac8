-- ===== src/Recovery/World.antt =====
-- src/jvc/recovery/store.py: the files and the journal that the store reads and writes, its host,
-- and the durable writes.
use jvc_core.Base.{
  ℕ, Bool, true, false, Option, none, some, List, ◌++◌, Text, Bytes, upper, codes, Dict, get, put,
  remove, keys,
}
use jvc_core.Recovery.Receipt.{Receipt, TxState, Entry, object}

-- What stands at a path: a file, a file whose reads raise `OSError`, or a directory.
pub data Node : Type 0 where
  file : Bytes → Node
  unreadable : Node
  directory : Node

pub data FailurePoint : Type 0 where
  after_backup after_target_write during_finalize rollback_before_terminal : FailurePoint

-- The hex digest of `hashlib.sha256`, the time and random text of the n-th new receipt ID, the clock at the
-- n-th receipt, the directory of the store, and the configured failure points.
pub record Host : Type 0 where
  pub hexdigest : Bytes → Text
  pub stamp : ℕ → Text
  pub time_ns : ℕ → ℕ
  pub root : Text
  pub failing : FailurePoint → Bool

-- `sha256_bytes(payload)`
unfoldable pub sha256_bytes : Host → Bytes → Text
sha256_bytes h payload = upper (h.hexdigest payload)

pub record World : Type 0 where
  pub disk : Dict Node
  pub journal : Dict Entry
  pub ticks : ℕ

-- `self.root / f"{rid}.json"`: journal files are keyed by their name.
unfoldable pub json_name : Text → Text
json_name rid = rid ++ codes ".json"

-- `self.root / f"{rid}.bak"`
unfoldable pub backup_path : Text → Text → Text
backup_path root rid = root ++ codes "/" ++ rid ++ codes ".bak"

abbrev pub is_file_node : Option Node → Bool
is_file_node none = false
is_file_node (some (file b)) = true
is_file_node (some unreadable) = true
is_file_node (some directory) = false

-- `path.is_file()`
unfoldable pub is_file : World → Text → Bool
is_file w path = is_file_node (get path w.disk)

-- `sha256_file(path) if path.is_file() else None`, or an `OSError`.
pub data Reading : Type 0 where
  observed : Option Text → Reading
  os_error : Reading

abbrev read_node : Host → Option Node → Reading
read_node h none = observed none
read_node h (some (file b)) = observed (some (sha256_bytes h b))
read_node h (some unreadable) = os_error
read_node h (some directory) = observed none

unfoldable pub read_hash : Host → World → Text → Reading
read_hash h w path = read_node h (get path w.disk)

-- `durable_write_bytes` on a path that is no directory.
unfoldable pub write_bytes : Text → Bytes → World → World
write_bytes path data' w = record w { disk = put path (file data') w.disk }

-- `path.unlink(missing_ok=True)`
unfoldable pub unlink : Text → World → World
unlink path w = record w { disk = remove path w.disk }

-- `atomic_write_json` on a journal file
unfoldable pub write_receipt : Text → Receipt → World → World
write_receipt name r w = record w { journal = put name (object r) w.journal }

-- `data["tx_state"] = s` and `atomic_write_json(meta_file, data)`
unfoldable pub mark : Text → Receipt → TxState → World → World
unfolding write_receipt
mark name r s w = write_receipt name (record r { tx_state = s }) w

-- `self._iter_receipt_files()`: every name of "recovery-" comes before every name of "rollback-".
unfoldable pub iter_receipt_files : World → List Text
iter_receipt_files w = keys w.journal
