-- ===== src/Continuity/Commands.antt =====
-- The operations that advance the revision, as commands that contending callers issue.
use jvc_core.Base.{ℕ, ◌+◌, Option, some, List, [], ◌∷◌, Text}
use jvc_core.Exec.{Result, ok, err}
use jvc_core.Continuity.State.{
  Host, Project, StateFile, absent, unreadable, present, Error, M, checkpoint, reconcile_handoff,
  record_decision,
}

pub data Command : Type 0 where
  take_checkpoint : Text → Text → Option ℕ → Command
  adopt_handoff : Text → Text → Option ℕ → Command
  decide : Text → ℕ → Text → Command

abbrev pub run : Host → Command → M ℕ
run h (take_checkpoint handoff payload revision) = checkpoint h handoff payload revision
run h (adopt_handoff handoff observed revision) = reconcile_handoff h handoff observed revision
run h (decide id revision payload) = record_decision h id revision payload

-- The revision that a caller expects, if it names one.
abbrev pub expected_revision : Command → Option ℕ
expected_revision (take_checkpoint handoff payload revision) = revision
expected_revision (adopt_handoff handoff observed revision) = revision
expected_revision (decide id revision payload) = some revision

-- One caller after another, each under the lock; a failure ends only its own command.
unfoldable pub run_all : Host → List Command → Project → Project
run_all h [] p = p
run_all h (c ∷ cs) p = run_all h cs (run h c p).1

abbrev pub count_ok : Result Error ℕ → ℕ
count_ok (ok n) = 1
count_ok (err e) = 0

unfoldable pub successes : Host → List Command → Project → ℕ
successes h [] p = 0
successes h (c ∷ cs) p = count_ok (run h c p).0 + successes h cs (run h c p).1

-- The revision that the state file records; 0 if it records none.
abbrev pub revision_in : StateFile → ℕ
revision_in absent = 0
revision_in unreadable = 0
revision_in (present s) = s.metadata_revision

abbrev pub revision : Project → ℕ
revision p = revision_in p.state
