-- ===== src/Recovery/Frame.antt =====
-- What a durable write of the journal changes: the entry of its name, and no file.
use jvc_core.Base.{◌≡◌, refl, some, Text, ◌==◌, get, get-put, if◌then◌else◌}
use jvc_core.Recovery.Receipt.{Receipt, TxState, object}
use jvc_core.Recovery.World.{World, write_receipt, mark}

pub disk-mark :
    (name : Text) (r : Receipt) (s : TxState) (w : World) → (mark name r s w).disk ≡ w.disk
unfolding mark
disk-mark name r s w = refl

pub get-write_receipt :
    (name j : Text) (r : Receipt) (w : World)
    → get j (write_receipt name r w).journal
      ≡ (if name == j then some (object r) else get j w.journal)
unfolding write_receipt
get-write_receipt name j r w = get-put name j (object r) w.journal

pub get-mark :
    (name j : Text) (r : Receipt) (s : TxState) (w : World)
    → get j (mark name r s w).journal
      ≡ (if name == j then some (object (record r { tx_state = s })) else get j w.journal)
unfolding mark
get-mark name j r s w = get-put name j (object (record r { tx_state = s })) w.journal
