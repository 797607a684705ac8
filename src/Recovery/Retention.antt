-- ===== src/Recovery/Retention.antt =====
-- What `prune` removes, and what `has_blocking_state` lets through.
use jvc_core.Base.{
  ℕ, ◌-◌, ◌*◌, ◌≡◌, refl, sym, ap, ◌∙◌, ◌⊎◌, inl, inr, true, false, ◌&&◌, Option, none, some, List,
  [], ◌∷◌, Text, ◌==◌, eq_iff, Dict, get, remove, get-remove, leb, Bool-cases, Option-cases,
  if◌then◌else◌, arith,
}
use jvc_core.Recovery.Receipt.{Receipt, Entry, read_valid, is_terminal, is_blocking}
use jvc_core.Recovery.Sound.{AllEntries, HasBackup}
use jvc_core.Recovery.World.{World, unlink, iter_receipt_files}
use jvc_core.Recovery.Gate.{
  corrupt_files, corrupt_receipt_files, concerns, find_blocking, clear, has_blocking_state,
  unlink_backup, prune_receipt, prune_file, prune_loop, prune,
}

-- The file is as it was; or it is gone, and it held the receipt of a transaction in a terminal
-- state and is older than the cutoff.
abbrev pub Kept : (Text → ℕ) → ℕ → Text → World → World → Type 0
Kept mtime cutoff j w w' =
    (get j w'.journal ≡ get j w.journal)
    ⊎ ((r : Receipt) × (get j w'.journal ≡ none)
        × (read_valid (get j w.journal) ≡ some r)
        × (is_terminal r.tx_state ≡ true)
        × (leb cutoff (mtime j) ≡ false))

module _ (mtime : Text → ℕ) (cutoff : ℕ) (j : Text) where
  journal-unlink_backup : (b : Option Text) (w : World) → (unlink_backup b w).journal ≡ w.journal
  unfolding unlink
  journal-unlink_backup b w = ground arith

  get-unlink_backup :
      (name : Text) (b : Option Text) (w : World)
      → get j (unlink_backup b (record w { journal = remove name w.journal })).journal
        ≡ (if name == j then none else get j w.journal)
  get-unlink_backup name b w =
      ap (get j) (journal-unlink_backup b (record w { journal = remove name w.journal }))
      ∙ get-remove name j w.journal

  prune_receipt-Kept :
      (name : Text) (o : Option Receipt) (n : ℕ) (w : World)
      → read_valid (get name w.journal) ≡ o
      → leb cutoff (mtime name) ≡ false
      → Kept mtime cutoff j w (prune_receipt name o (n, w)).1
  prune_receipt-Kept name none n w e old = inl refl
  prune_receipt-Kept name (some r) n w e old = elim (Bool-cases (is_terminal r.tx_state)) [
    | inl t ↦ elim (Bool-cases (name == j)) [
      | inl same ↦ rw t (
          inr (
            r,
            rw get-unlink_backup (rw same refl),
            rw ((eq_iff name j).0 same) at e,
            t,
            rw ((eq_iff name j).0 same) at old,
          ))
      | inr other ↦ rw t (inl rw get-unlink_backup (rw other refl))
    ]
    | inr t ↦ rw t (inl refl)
  ]

  Kept-trans :
      (w w₁ w₂ : World)
      → Kept mtime cutoff j w w₁
      → Kept mtime cutoff j w₁ w₂
      → Kept mtime cutoff j w w₂
  unfolding read_valid
  Kept-trans w w₁ w₂ (inl a) (inl b) = inl (b ∙ a)
  Kept-trans w w₁ w₂ (inl a) (inr (r, b, v, t, o)) = inr (r, b, rw a at v, t, o)
  Kept-trans w w₁ w₂ (inr (r, a, v, t, o)) (inl b) = inr (r, b ∙ a, v, t, o)
  Kept-trans w w₁ w₂ (inr (r, a, v, t, o)) (inr (r', b, v', t', o')) = inr (r, b, v, t, o)

  prune_file-Kept :
      (name : Text) (n : ℕ) (w : World)
      → Kept mtime cutoff j w (prune_file mtime cutoff name (n, w)).1
  unfolding prune_file
  prune_file-Kept name n w = elim (Bool-cases (leb cutoff (mtime name))) [
    | inl k ↦ rw k (inl refl)
    | inr k ↦ rw k (prune_receipt-Kept name _ n w refl k)
  ]

  prune_loop-Kept :
      (names : List Text) (n : ℕ) (w : World)
      → Kept mtime cutoff j w (prune_loop mtime cutoff names (n, w)).1
  unfolding prune_loop
  prune_loop-Kept [] n w = inl refl
  prune_loop-Kept (name ∷ names) n w =
      let (n₁, w₁) = prune_file mtime cutoff name (n, w) in
      Kept-trans w w₁ (prune_loop mtime cutoff names (n₁, w₁)).1 (prune_file-Kept name n w)
        (prune_loop-Kept names n₁ w₁)

-- If the backups that the journal names are `.bak` files, pruning leaves every journal file as it
-- is, but for those older than the retention time that hold a receipt in a terminal state:
-- unfinished, blocking and unreadable ones survive.
pub prune-Kept :
    (mtime : Text → ℕ) (now retention_days : ℕ) (w : World) (j : Text)
    → AllEntries HasBackup w.journal
    → Kept mtime (now - retention_days * 86400) j w (prune mtime now retention_days w).1
unfolding prune
prune-Kept mtime now retention_days w j _ =
    prune_loop-Kept mtime (now - retention_days * 86400) j (iter_receipt_files w) 0 w

-- A file from which a receipt can be read, and one that does not block the target.
abbrev pub IsPassable : Text → Text → Entry → Type 0
IsPassable project target e =
    (r : Receipt) × (read_valid (some e) ≡ some r)
    × ((concerns project target r && is_blocking r.tx_state) ≡ false)

clear-IsPassable :
    (project target : Text) (journal : Dict Entry) (name : Text) (e : Entry)
    → corrupt_files journal ≡ []
    → find_blocking project target journal ≡ none
    → get name journal ≡ some e
    → IsPassable project target e
unfolding corrupt_files find_blocking get
clear-IsPassable project target [] name e c f g = cc
clear-IsPassable project target ((n, d) ∷ journal) name e c f g =
    elim (Option-cases (read_valid (some d))) [
      | inl v ↦ let c₁ = rw (v, corrupt_files) at c in cc
      | inr (r, v) ↦
          let c₁ = rw (v, corrupt_files) at c in
          let f₁ = rw (v, find_blocking) at f in
          elim (Bool-cases (concerns project target r && is_blocking r.tx_state)) [
            | inl b ↦ let f₂ = rw b at f₁ in cc
            | inr b ↦
                let f₂ = rw b at f₁ in
                elim (Bool-cases (n == name)) [
                  | inl s ↦ let g₁ = rw (s, get) at g in (r, ap read_valid (sym g₁) ∙ v, b)
                  | inr s ↦ clear-IsPassable project target journal name e c₁ f₂ (rw (s, get) at g)
                ]
          ]
    ]

-- If nothing blocks a target, each file of the journal is a valid receipt, and none that concerns
-- the target requires recovery.
pub has_blocking_state-IsPassable :
    (project target : Text) (w : World) (name : Text) (e : Entry)
    → has_blocking_state project target w ≡ clear
    → get name w.journal ≡ some e
    → IsPassable project target e
unfolding has_blocking_state corrupt_receipt_files
has_blocking_state-IsPassable project target w name e k g =
    clear-IsPassable project target w.journal name e (ground arith) (ground arith) g
