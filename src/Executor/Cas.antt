-- ===== src/Executor/Cas.antt =====
-- A governed write succeeds only from the expected preimage, and then its content is in place.
use jvc_core.Base.{
  ◌≡◌, refl, ◌≢◌, true, false, Option, none, some, Text, Bytes, eq_iff, get, get-put, eq_refl,
  upper, strip, arith,
}
use jvc_core.Exec.{Result, ok, err, Exec, after, ◌>>=◌, ◌>>◌}
use jvc_core.Recovery.Receipt.{Receipt}
use jvc_core.Recovery.World.{
  Host, World, Node, file, unreadable, directory, write_bytes, sha256_bytes,
}
use jvc_core.Recovery.Errors.{Error}
use jvc_core.Recovery.Reconcile.{is_blank, text_of}
use jvc_core.Executor.Write.{
  WriteError, check_preimage, compare_preimage, replace_node, make_directories, parents_of,
  replace_target, confirm_write, journaled_write, in_store, write_locked,
}
use mathlib.Core.Path.{subst}
use jvc_core.Executor.Atomic.{disk-pass_gate, disk-confirm_write}

-- What stands at the target is what the caller expects: a file of the given hash, or no file.
abbrev pub AsExpected : Host → Option Node → Option Text → Type 0
AsExpected h (some (file content)) expected =
    (is_blank expected ≡ false) × (sha256_bytes h content ≡ strip (upper (text_of expected)))
AsExpected h (some unreadable) expected = ⊥
AsExpected h (some directory) expected = is_blank expected ≡ true
AsExpected h none expected = is_blank expected ≡ true

-- A returned value, and what then holds of the state.
abbrev Returns : {E A : Type 0} → (World → Type 0) → Result E A × World → Type 0
Returns P (ok a, w) = P w
Returns P (err e, w) = Unit

module _ (h : Host) (project target : Text) where
  compare_preimage-AsExpected :
      (o : Option Node) (expected : Option Text) (p : Option Bytes)
      → compare_preimage h o expected ≡ ok p
      → AsExpected h o expected
  compare_preimage-AsExpected (some (file content)) expected p e =
      ground (arith, eq_iff (sha256_bytes h content) (strip (upper (text_of expected))))
  compare_preimage-AsExpected (some unreadable) expected p e = cc
  compare_preimage-AsExpected (some directory) expected p e = ground arith
  compare_preimage-AsExpected none expected p e = ground arith

  abbrev Holds : Bytes → World → Type 0
  Holds content w = get target w.disk ≡ some (file content)

  confirmed-Returns :
      (r : Receipt) (content : Bytes) (w : World)
      → Holds content w
      → Returns (Holds content) (confirm_write h target r w)
  confirmed-Returns r content w held =
      finish (confirm_write h target r w) (rw disk-confirm_write held)
    where
      finish : (p : Result Error Receipt × World) → Holds content p.1 → Returns (Holds content) p
      finish (ok a, w') k = k
      finish (err e, w') k = tt

  replaced-Returns :
      (o : Option Node) (r : Receipt) (content : Bytes) (w : World)
      → Returns (Holds content) ((replace_node h o target content >> confirm_write h target r) w)
  unfolding write_bytes
  replaced-Returns none r content w = confirmed-Returns r content _ (rw get-put (rw eq_refl))
  replaced-Returns (some (file b)) r content w =
      confirmed-Returns r content _ (rw get-put (rw eq_refl))
  replaced-Returns (some unreadable) r content w =
      confirmed-Returns r content _ (rw get-put (rw eq_refl))
  replaced-Returns (some directory) r content w = tt

  saved-Returns :
      (result : Result Error Receipt) (content : Bytes) (w : World)
      → Returns
          (Holds content)
          (after (λ r. replace_target h target content >> confirm_write h target r) result w)
  unfolding replace_target
  saved-Returns (err e) content w = tt
  saved-Returns (ok r) content w = then_replaced (make_directories h (parents_of target) w)
    where
      then_replaced :
          (p : Result Error (Unit {0}) × World)
          → Returns (Holds content) (
              after
                (λ _. confirm_write h target r)
                (after (λ _ v. replace_node h (get target v.disk) target content v) p.0 p.1).0
                (after (λ _ v. replace_node h (get target v.disk) target content v) p.0 p.1).1)
      then_replaced (err e, w') = tt
      then_replaced (ok _, w') = replaced-Returns _ r content w'

  stored-Returns :
      (p : Result Error Receipt × World) (content : Bytes)
      → Returns (Holds content) p
      → Returns (Holds content) (in_store (λ _. p) p.1)
  stored-Returns (ok a, w) content k = k
  stored-Returns (err e, w) content k = tt

  abbrev Stored : Bytes → Option Text → World → World → Type 0
  Stored content expected w w' = AsExpected h (get target w.disk) expected × Holds content w'

  abbrev finish_write : Bytes → Result WriteError (Option Bytes) → Exec WriteError World Receipt
  finish_write content = after (λ p. in_store (journaled_write h project target p content))

  checked-Returns :
      (found : Result WriteError (Option Bytes)) (content : Bytes) (expected : Option Text)
      (w w₁ : World)
      → w₁.disk ≡ w.disk
      → compare_preimage h (get target w₁.disk) expected ≡ found
      → Returns (Stored content expected w) (finish_write content found w₁)
  unfolding journaled_write
  checked-Returns (err e) content expected w w₁ same c = tt
  checked-Returns (ok p) content expected w w₁ same c =
      pair _ (rw (← same) (compare_preimage-AsExpected _ expected p c))
        (stored-Returns _ content (saved-Returns _ content _))
    where
      pair :
          (q : Result WriteError Receipt × World)
          → AsExpected h (get target w.disk) expected
          → Returns (Holds content) q
          → Returns (Stored content expected w) q
      pair (ok a, w') x y = (x, y)
      pair (err e, w') x y = tt

  passed-Returns :
      (passed : Result WriteError (Unit {0})) (content : Bytes) (expected : Option Text)
      (w w₁ : World)
      → w₁.disk ≡ w.disk
      → Returns (Stored content expected w) (
          after
            (λ _. check_preimage h target expected >>= λ p.
              in_store (journaled_write h project target p content))
            passed
            w₁)
  unfolding check_preimage
  passed-Returns (err e) content expected w w₁ same = tt
  passed-Returns (ok _) content expected w w₁ same =
      checked-Returns _ content expected w w₁ same refl

  write_locked-Returns :
      (content : Bytes) (expected : Option Text) (w : World)
      → Returns (Stored content expected w) (write_locked h project target content expected w)
  unfolding write_locked
  write_locked-Returns content expected w =
      passed-Returns _ content expected w _ (disk-pass_gate h project target w)

Returns-ok :
    {E A : Type 0} (P : World → Type 0) (p : Result E A × World) {a : A} {w : World}
    → Returns P p
    → p ≡ (ok a, w)
    → P w
Returns-ok P p k e = subst (Returns P) e k

-- A governed write that succeeds found what its caller expected, a file of the given hash or no
-- file, and has left its content at the target.
pub write_locked-ok :
    (h : Host) (project target : Text) (content : Bytes) (expected : Option Text) (w w' : World)
    (r : Receipt)
    → write_locked h project target content expected w ≡ (ok r, w')
    → AsExpected h (get target w.disk) expected × (get target w'.disk ≡ some (file content))
write_locked-ok h project target content expected w w' r e =
    Returns-ok _ _ (write_locked-Returns h project target content expected w) e

-- Of two writers that present the same preimage of an existing file, the second never succeeds
-- after the first, unless the first wrote bytes of the same hash.
pub write_locked-exclusive :
    (h : Host) (project project' target : Text) (first second : Bytes) (expected : Option Text)
    (w w₁ w₂ : World) (r₁ r₂ : Receipt)
    → sha256_bytes h first ≢ strip (upper (text_of expected))
    → write_locked h project target first expected w ≡ (ok r₁, w₁)
    → write_locked h project' target second expected w₁ ≢ (ok r₂, w₂)
write_locked-exclusive h project project' target first second expected w w₁ w₂ r₁ r₂ fresh e₁ e₂ =
    fresh (
      at_target _ (write_locked-ok h project target first expected w w₁ r₁ e₁).1
        (write_locked-ok h project' target second expected w₁ w₂ r₂ e₂).0)
  where
    at_target :
        (o : Option Node)
        → o ≡ some (file first)
        → AsExpected h o expected
        → sha256_bytes h first ≡ strip (upper (text_of expected))
    at_target o here x = (rw here at x).1
