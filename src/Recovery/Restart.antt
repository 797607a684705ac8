-- ===== src/Recovery/Restart.antt =====
-- A restart settles every transaction whose lock it gets, and touches no file but the journal's.
use jvc_core.Base.{
  ◌≡◌, refl, inl, inr, Bool, true, false, Option, none, some, List, [], ◌∷◌, Text, ◌==◌, eq_iff,
  Dict, get, keys, contains, if◌then◌else◌, Bool-cases, arith,
}
use jvc_core.Recovery.Receipt.{
  Receipt, TxState, verified, recovered_unapplied, recovery_required, rolled_back, superseded,
  Entry, object, unparseable, non_object, is_incomplete, is_valid,
}
use jvc_core.Recovery.Sound.{AllEntries, HasPlainSource, IsReadable}
use jvc_core.Recovery.World.{Host, World, iter_receipt_files}
use jvc_core.Recovery.Recover.{
  Summary, Locks, acquires, scan_locked, scan_state, scan_entry, recover_file, recover_loop,
  recover, empty_summary,
}
use jvc_core.Recovery.Settled.{is_settled, Settles, mark-Settles, decide_locked-Settles}

-- One round of the scan at `name`.
record Scanned (name : Text) (w : World) (p : Summary × World) : Type 0 where
  settles : Settles name w p.1

Scanned-if :
    (name : Text) (w : World) (b : Bool) (x y : Summary × World)
    → (b ≡ true → Scanned name w x)
    → (b ≡ false → Scanned name w y)
    → Scanned name w (if b then x else y)
Scanned-if name w true x y hx hy = hx refl
Scanned-if name w false x y hx hy = hy refl

module _ (h : Host) (locks : Locks) (free : (path : Text) → acquires locks path ≡ true) where
  scan_locked-Scanned :
      (name : Text) (r : Receipt) (s : Summary) (w : World)
      → Scanned name w (scan_locked h locks name r s w)
  scan_locked-Scanned name r s w =
      rw (free r.path) (record { settles = decide_locked-Settles h name w })

  scan_state-Scanned :
      (name : Text) (r : Receipt) (t : TxState) (s : Summary) (w : World)
      → ((s' : Summary) → is_incomplete t ≡ false → Scanned name w (s', w))
      → Scanned name w (scan_state h locks name r t s w)
  unfolding is_incomplete
  scan_state-Scanned name r recovery_required s w stay = stay _ refl
  scan_state-Scanned name r recovered_unapplied s w stay = stay _ refl
  scan_state-Scanned name r rolled_back s w stay = stay _ refl
  scan_state-Scanned name r superseded s w stay = stay _ refl
  scan_state-Scanned name r verified s w stay = search (Scanned-if, stay, scan_locked-Scanned)
  scan_state-Scanned name r _ s w stay = scan_locked-Scanned name r s w

  stay-Scanned :
      (name : Text) (e : Option Entry) (s : Summary) (w : World)
      → get name w.journal ≡ e
      → is_settled e ≡ true
      → Scanned name w (s, w)
  stay-Scanned name e s w g st = record {
    settles = record { own = rw g st; keeps = λ j k. k; frame = λ j. inl refl };
  }

  scan_entry-Scanned :
      (name : Text) (e : Option Entry) (s : Summary) (w : World)
      → get name w.journal ≡ e
      → Scanned name w (scan_entry h locks name e s w)
  unfolding is_settled is_incomplete
  scan_entry-Scanned name none s w g = stay-Scanned name none _ w g refl
  scan_entry-Scanned name (some unparseable) s w g = stay-Scanned name _ _ w g refl
  scan_entry-Scanned name (some non_object) s w g = stay-Scanned name _ _ w g refl
  scan_entry-Scanned name (some (object r)) s w g =
      Scanned-if name w (is_valid r) _ _
        (λ v.
          scan_state-Scanned name r r.tx_state _ w
            (λ s' i. stay-Scanned name (some (object r)) s' w g (ground (arith, i, v))))
        (λ v. record { settles = mark-Settles name r recovery_required w refl })

  pub recover_file-Settles :
      (name : Text) (s : Summary) (w : World) → Settles name w (recover_file h locks name s w).1
  unfolding recover_file
  recover_file-Settles name s w = (scan_entry-Scanned name _ s w refl).settles

  loop_keeps :
      (names : List Text) (s : Summary) (w : World) (j : Text)
      → is_settled (get j w.journal) ≡ true
      → is_settled (get j (recover_loop h locks names s w).1.journal) ≡ true
  unfolding recover_loop
  loop_keeps [] s w j k = k
  loop_keeps (name ∷ names) s w j k =
      loop_keeps names _ _ j ((recover_file-Settles name s w).keeps j k)

  loop_settles :
      (names : List Text) (s : Summary) (w : World) (j : Text)
      → contains j names ≡ true
      → is_settled (get j (recover_loop h locks names s w).1.journal) ≡ true
  unfolding recover_loop contains
  loop_settles [] s w j k = cc
  loop_settles (name ∷ names) s w j k = elim (Bool-cases (name == j)) [
    | inl e ↦
        loop_keeps names _ _ j (rw (← (eq_iff name j).0 e) (recover_file-Settles name s w).own)
    | inr e ↦ loop_settles names _ _ j (rw e at k)
  ]

pub contains-keys :
    (j : Text) (journal : Dict Entry) → contains j (keys journal) ≡ false → get j journal ≡ none
unfolding contains keys get
contains-keys j [] k = refl
contains-keys j ((name, e) ∷ journal) k = ground (arith, contains-keys j journal)

-- If every journal file holds a valid receipt, whose source, if it is a rollback, has a plain name,
-- then after a restart that gets every lock no journal file holds a valid receipt of a transaction
-- that is still PREPARED or APPLIED.
pub recover-settles :
    (h : Host) (locks : Locks) (w : World) (j : Text)
    → AllEntries IsReadable w.journal
    → AllEntries HasPlainSource w.journal
    → ((path : Text) → acquires locks path ≡ true)
    → is_settled (get j (recover h locks w).1.journal) ≡ true
unfolding recover iter_receipt_files
recover-settles h locks w j _ _ free = elim (Bool-cases (contains j (keys w.journal))) [
  | inl listed ↦ loop_settles h locks free (keys w.journal) empty_summary w j listed
  | inr absent ↦
      loop_keeps h locks free (keys w.journal) empty_summary w j
        (rw (contains-keys j w.journal absent) (unfold is_settled in refl))
]
