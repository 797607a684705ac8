-- ===== src/Continuity/Revisions.antt =====
-- The revision counts the successful operations, and orders the callers that contend for it.
use jvc_core.Base.{
  ℕ, ◌+◌, ◌≡◌, ◌≢◌, Option, some, List, [], ◌∷◌, Text, arith, eq_iff, get, get-put, upper, strip,
  eq_refl, ◌<◌,
}
use jvc_core.Exec.{Result, ok, err}
use jvc_core.Continuity.State.{
  Host, Project, Error, checkpoint, reconcile_handoff, record_decision, Decision, verify, pass,
}
use jvc_core.Continuity.Commands.{
  Command, take_checkpoint, adopt_handoff, decide, run, expected_revision, run_all, successes,
  count_ok, revision,
}

module _ (h : Host) where
  -- The outcome of one command, and the project after it.
  abbrev pub Advances : Project → Result Error ℕ → Project → Type 0
  Advances p (ok n) p' = (n ≡ revision p + 1) × (revision p' ≡ revision p + 1)
  Advances p (err e) p' = p' ≡ p

  -- A command that returns advances the recorded revision by one and returns it; one that raises
  -- changes nothing of the project.
  pub run-Advances : (c : Command) (p : Project) → Advances p (run h c p).0 (run h c p).1
  unfolding checkpoint reconcile_handoff record_decision
  run-Advances (take_checkpoint handoff payload r) p = ground arith
  run-Advances (adopt_handoff handoff observed r) p = ground arith
  run-Advances (decide id r payload) p = ground arith

  count-Advances :
      (p : Project) (r : Result Error ℕ) (p' : Project)
      → Advances p r p'
      → revision p' ≡ revision p + count_ok r
  count-Advances p (ok n) p' (returned, advanced) = advanced
  count-Advances p (err e) p' same = rw same (omega arith)

  -- After any commands of any callers, the recorded revision has grown by the number of those that
  -- succeeded.
  pub revision-run_all :
      (cs : List Command) (p : Project) → revision (run_all h cs p) ≡ revision p + successes h cs p
  unfolding run_all successes
  revision-run_all [] p = omega arith
  revision-run_all (c ∷ cs) p = omega (
    arith,
    revision-run_all cs (run h c p).1,
    count-Advances p (run h c p).0 (run h c p).1 (run-Advances c p),
  )

  expected-run :
      (c : Command) (p : Project) {n r : ℕ}
      → (run h c p).0 ≡ ok n
      → expected_revision c ≡ some r
      → r ≡ revision p
  unfolding checkpoint reconcile_handoff record_decision
  expected-run (take_checkpoint handoff payload x) p e x' = ground arith
  expected-run (adopt_handoff handoff observed x) p e x' = ground arith
  expected-run (decide id x payload) p e x' = ground arith

  -- Once a command has succeeded, no command that expects the revision from before it succeeds, in
  -- whatever order the commands came: of the callers that start from one revision one wins.
  pub run-run_all_stale :
      (cs : List Command) (c : Command) (p : Project) (n : ℕ)
      → 0 < successes h cs p
      → expected_revision c ≡ some (revision p)
      → (run h c (run_all h cs p)).0 ≢ ok n
  run-run_all_stale cs c p n won stale e =
      absurd (omega (arith, revision-run_all cs p, expected-run c (run_all h cs p) e stale))

  -- A checkpoint that succeeds is followed by a PASS of `verify`, with its revision and the hash of
  -- the handoff that its caller named.
  pub verify-checkpoint :
      (handoff payload : Text) (expected : Option ℕ) (p : Project) (n : ℕ)
      → (checkpoint h handoff payload expected p).0 ≡ ok n
      → verify h (checkpoint h handoff payload expected p).1 ≡ ok (pass n (strip (upper handoff)))
  unfolding checkpoint verify
  verify-checkpoint handoff payload expected p n e = grind (arith, eq_iff, eq_refl)

  get-run :
      (c : Command) (p : Project) (id : Text) (d : Decision)
      → get id p.decisions ≡ some d
      → get id (run h c p).1.decisions ≡ some d
  unfolding checkpoint reconcile_handoff record_decision
  get-run (take_checkpoint handoff payload x) p id d e = ground arith
  get-run (adopt_handoff handoff observed x) p id d e = ground arith
  get-run (decide j x payload) p id d e = grind (arith, get-put, eq_iff j id)

  -- A decision that is recorded stays as it is, whatever commands follow.
  pub get-run_all :
      (cs : List Command) (p : Project) (id : Text) (d : Decision)
      → get id p.decisions ≡ some d
      → get id (run_all h cs p).decisions ≡ some d
  unfolding run_all
  get-run_all [] p id d e = e
  get-run_all (c ∷ cs) p id d e = get-run_all cs _ id d (get-run c p id d e)
