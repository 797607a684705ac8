-- ===== src/Continuity/Progress.antt =====
-- When the operations on the continuity state succeed.
use jvc_core.Base.{
  ℕ, ◌+◌, ◌≡◌, ◌↔◌, refl, true, false, Option, some, Text, Bytes, arith, eq_iff, get, is_some,
  upper, strip,
}
use jvc_core.Exec.{ok}
use jvc_core.Continuity.State.{
  Host, Project, State, StateFile, absent, unreadable, present, checkpoint, record_decision,
  reconcile_handoff, is_decision_id, sha256_bytes, agrees, recorded_agrees,
}

module _ (h : Host) where
  abbrev pub Recordable : Text → ℕ → Project → ℕ → Type 0
  Recordable id r p n =
      (s : State) × (p.state ≡ present s)
      × (is_decision_id id ≡ true)
      × (s.metadata_revision ≡ r)
      × (is_some (get id p.decisions) ≡ false)
      × (n ≡ r + 1)

  recorded-Recordable :
      (f : StateFile) (id : Text) (r : ℕ) (payload : Text) (p : Project) (n : ℕ)
      → p.state ≡ f
      → (record_decision h id r payload p).0 ≡ ok n
      → Recordable id r p n
  unfolding record_decision
  recorded-Recordable absent id r payload p n k e = absurd (ground arith)
  recorded-Recordable unreadable id r payload p n k e = absurd (ground arith)
  recorded-Recordable (present s) id r payload p n k e =
      (s, k, ground arith, ground arith, ground arith, ground arith)

  recordable-ok :
      (id : Text) (r : ℕ) (payload : Text) (p : Project) (n : ℕ) (s : State)
      → p.state ≡ present s
      → is_decision_id id ≡ true
      → s.metadata_revision ≡ r
      → is_some (get id p.decisions) ≡ false
      → n ≡ r + 1
      → (record_decision h id r payload p).0 ≡ ok n
  unfolding record_decision
  recordable-ok id r payload p n s k d e f g = ground arith

  -- A decision is recorded exactly when its identifier is accepted and not taken, and the state
  -- file is readable and has the expected revision; it then gets the next one.
  pub record_decision_iff :
      (id : Text) (r : ℕ) (payload : Text) (p : Project) (n : ℕ)
      → ((record_decision h id r payload p).0 ≡ ok n) ↔ Recordable id r p n
  record_decision_iff id r payload p n = (
    λ e. recorded-Recordable p.state id r payload p n refl e,
    λ (s, k, d, e, f, g). recordable-ok id r payload p n s k d e f g,
  )

  -- A checkpoint succeeds when the state file is readable and has the expected revision, if one is
  -- given, and the handoff has the named hash; it returns the next revision.
  pub checkpoint-ok :
      (handoff payload : Text) (expected : Option ℕ) (p : Project) (s : State) (b : Bytes)
      → p.state ≡ present s
      → agrees expected s.metadata_revision ≡ true
      → p.handoff ≡ some b
      → sha256_bytes h b ≡ strip (upper handoff)
      → (checkpoint h handoff payload expected p).0 ≡ ok (s.metadata_revision + 1)
  unfolding checkpoint
  checkpoint-ok handoff payload expected p s b k a f e =
      ground (arith, eq_iff (sha256_bytes h b) (strip (upper handoff)))

  -- A handoff is reconciled when the state file is readable and has the expected revision, if one is
  -- given, the handoff has the observed hash, and the recorded hash is the expected one or none.
  pub reconcile_handoff-ok :
      (before observed : Text) (expected : Option ℕ) (p : Project) (s : State) (b : Bytes)
      → p.state ≡ present s
      → agrees expected s.metadata_revision ≡ true
      → p.handoff ≡ some b
      → sha256_bytes h b ≡ strip (upper observed)
      → recorded_agrees s.handoff_sha256 (strip (upper before)) ≡ true
      → (reconcile_handoff h before observed expected p).0 ≡ ok (s.metadata_revision + 1)
  unfolding reconcile_handoff
  reconcile_handoff-ok before observed expected p s b k a f e g =
      ground (arith, eq_iff (sha256_bytes h b) (strip (upper observed)))
