-- ===== src/Recovery/Sound.antt =====
-- Journals whose names lead to no file outside: `rollback_of` and `backup_file` of a receipt are used
-- as paths without a check.
use jvc_core.Base.{◌≡◌, true, false, some, [], ◌∷◌, Text, Dict, codes, has_code, ends_with}
use jvc_core.Recovery.Receipt.{Receipt, Entry, object, unparseable, non_object, read_valid}

abbrev pub AllEntries : (Entry → Type 0) → Dict Entry → Type 0
AllEntries P [] = Unit
AllEntries P ((name, e) ∷ journal) = P e × AllEntries P journal

-- A name without a separator of paths or of drives.
abbrev pub IsPlain : Text → Type 0
IsPlain name =
    (has_code b'/' name ≡ false) × (has_code 92 name ≡ false) × (has_code b':' name ≡ false)

-- A rollback names its source by a plain name.
abbrev pub HasPlainSource : Entry → Type 0
HasPlainSource (object r) = (source : Text) → r.rollback_of ≡ some source → IsPlain source
HasPlainSource unparseable = Unit
HasPlainSource non_object = Unit

-- The backup of a receipt is a `.bak` file, so none of the journal.
abbrev pub HasBackup : Entry → Type 0
HasBackup (object r) = (b : Text) → r.backup_file ≡ some b → ends_with (codes ".bak") b ≡ true
HasBackup unparseable = Unit
HasBackup non_object = Unit

-- A valid receipt.
abbrev pub IsReadable : Entry → Type 0
IsReadable e = (r : Receipt) × (read_valid (some e) ≡ some r)
