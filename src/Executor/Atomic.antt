-- ===== src/Executor/Atomic.antt =====
-- A governed write replaces its target whole or not at all, and makes the directories above it.
use jvc_core.Base.{
  ℕ, ◌≡◌, refl, sym, ap, ◌∙◌, ◌⊎◌, inl, inr, Bool-cases, not, ◌&&◌, is_empty, nat_eq, nat_eq_iff,
  ◌++◌, Option, none, some, List, [], ◌∷◌, Text, Bytes, get, arith,
}
use jvc_core.Recovery.Receipt.{Receipt}
use jvc_core.Recovery.World.{Host, World, file, directory, iter_receipt_files}
use jvc_core.Recovery.Gate.{Pending, reconcile_target, reconcile_loop, reconcile_receipt}
use jvc_core.Authority.Signed.{and-true}
use jvc_core.Recovery.Disk.{disk-reconcile_one}
use jvc_core.Recovery.Effects.{disk-note, disk-record}
use jvc_core.Executor.Write.{parents_from, parents_of, confirm_write, pass_gate}

module _ (h : Host) (project target : Text) where
  disk-reconcile_receipt :
      (name : Text) (o : Option Receipt) (p : Pending) (w : World)
      → (reconcile_receipt h project target name o p w).1.disk ≡ w.disk
  disk-reconcile_receipt name none p w = refl
  disk-reconcile_receipt name (some r) p w = grind (arith, disk-reconcile_one)

  disk-reconcile_loop :
      (names : List Text) (p : Pending) (w : World)
      → (reconcile_loop h project target names p w).1.disk ≡ w.disk
  unfolding reconcile_loop
  disk-reconcile_loop [] p w = refl
  disk-reconcile_loop (name ∷ names) p w =
      disk-reconcile_loop names _ _ ∙ disk-reconcile_receipt name _ p w

  pub disk-reconcile_target : (w : World) → (reconcile_target h project target w).1.disk ≡ w.disk
  unfolding reconcile_target
  disk-reconcile_target w =
      disk-reconcile_loop (iter_receipt_files w)
        (record { reconciled = []; recovery_required = [] }) w

  pub disk-pass_gate : (w : World) → (pass_gate h project target w).1.disk ≡ w.disk
  unfolding pass_gate
  disk-pass_gate w = ground (arith, disk-reconcile_target w)

  pub disk-confirm_write : (r : Receipt) (w : World) → (confirm_write h target r w).1.disk ≡ w.disk
  unfolding confirm_write
  disk-confirm_write r w = grind (arith, disk-note, disk-record)

-- The first path lies above the second.
abbrev pub IsAbove : Text → Text → Type 0
IsAbove path target = (rest : Text) × (target ≡ path ++ b'/' ∷ rest)

abbrev pub AllAbove : List Text → Text → Type 0
AllAbove [] target = Unit
AllAbove (x ∷ xs) target = IsAbove x target × AllAbove xs target

append_one : (seen path : Text) (c : ℕ) → (seen ++ c ∷ []) ++ path ≡ seen ++ c ∷ path
append_one [] path c = refl
append_one (x ∷ seen) path c = ap (λ z. x ∷ z) (append_one seen path c)

parents_from-AllAbove :
    (target seen path : Text) → target ≡ seen ++ path → AllAbove (parents_from seen path) target
unfolding parents_from
parents_from-AllAbove target seen [] e = tt
parents_from-AllAbove target seen (c ∷ path) e =
    let rest =
      parents_from-AllAbove target (seen ++ c ∷ []) path (e ∙ sym (append_one seen path c)) in
    elim (Bool-cases (nat_eq c b'/' && not (is_empty seen))) [
      | inr n ↦ rw n rest
      | inl y ↦
          let (slash, _) = and-true _ _ y in
          rw y ((path, e ∙ ap (λ z. seen ++ z ∷ path) ((nat_eq_iff c b'/').0 slash)), rest)
    ]

pub parents_of-AllAbove : (path : Text) → AllAbove (parents_of path) path
unfolding parents_of
parents_of-AllAbove path = parents_from-AllAbove path [] path refl

module _ (h : Host) (project target path : Text) where
  -- The path holds what it held, or it lies above the target, held nothing and is now a directory.
  abbrev Above : World → World → Type 0
  Above w w' =
      (get path w'.disk ≡ get path w.disk)
      ⊎ (IsAbove path target × (get path w.disk ≡ none) × (get path w'.disk ≡ some directory))

  -- Or it is the target and holds the new content.
  abbrev pub Atomic : Bytes → World → World → Type 0
  Atomic content w w' = Above w w' ⊎ ((target ≡ path) × (get path w'.disk ≡ some (file content)))
