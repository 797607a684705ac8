-- ===== src/Continuity/Tests.antt =====
-- The theorems of the continuity state at a small project.
use jvc_core.Base.{
  ◌+◌, ◌≡◌, ◌≢◌, refl, some, List, [], ◌∷◌, codes, get, put, upper, strip, ◌==◌, arith,
}
use jvc_core.Exec.{ok}
use jvc_core.Continuity.State.{
  State, Host, Project, present, verify, pass, checkpoint, record_decision, sha256_bytes,
  is_decision_id, Decision,
}
use jvc_core.Continuity.Commands.{
  Command, take_checkpoint, decide, run, run_all, successes, revision,
}
use jvc_core.Continuity.Revisions.{
  Advances, run-Advances, revision-run_all, run-run_all_stale, verify-checkpoint, get-run_all,
}

abbrev host : Host
host = record { hexdigest = λ b. b; checkpoint_name = λ r n. r ∷ n ∷ [] }

abbrev project : Project
project = record {
  handoff = some (codes "NEXT");
  state = present (record {
    schema_version = 2;
    project_id = codes "demo";
    metadata_revision = 3;
    persistence = codes "git";
    privacy = codes "standard";
    handoff_sha256 = some (codes "OLD");
  });
  checkpoints = [];
  decisions = [];
  ticks = 0;
}

abbrev first : Command
first = take_checkpoint (codes " next") (codes "{}") (some 3)

abbrev racing : List Command
racing = first ∷ decide (codes "d-1") 3 (codes "{}") ∷ decide (codes "d-2") 4 (codes "{}") ∷ []

first_ok : (run host first project).0 ≡ ok 4
unfolding checkpoint sha256_bytes upper strip ◌==◌
first_ok = refl

two_succeed : successes host racing project ≡ 2
unfolding successes checkpoint record_decision sha256_bytes upper strip ◌==◌ is_decision_id get
two_succeed = refl

run-Advances_example : Advances host project (run host first project).0 (run host first project).1
run-Advances_example = run-Advances host first project

revision-run_all_example :
    revision (run_all host racing project) ≡ revision project + successes host racing project
revision-run_all_example = revision-run_all host racing project

run-run_all_stale_example : (run host first (run_all host racing project)).0 ≢ ok 5
run-run_all_stale_example =
    run-run_all_stale host racing first project 5 (omega (arith, two_succeed)) refl

verify-checkpoint_example :
    verify host (run host first project).1 ≡ ok (pass 4 (strip (upper (codes " next"))))
verify-checkpoint_example =
    verify-checkpoint host (codes " next") (codes "{}") (some 3) project 4 first_ok

abbrev decided : Decision
decided = record { decision_id = codes "d-2"; metadata_revision = 5; payload = codes "{}" }

recorded : get (codes "d-2") (run_all host racing project).decisions ≡ some decided
unfolding run_all checkpoint record_decision sha256_bytes upper strip ◌==◌ is_decision_id get put
recorded = refl

get-run_all_example :
    get (codes "d-2") (run_all host racing (run_all host racing project)).decisions ≡ some decided
get-run_all_example =
    get-run_all host racing (run_all host racing project) (codes "d-2") decided recorded

abbrev start : State
start = record {
  schema_version = 2;
  project_id = codes "demo";
  metadata_revision = 3;
  persistence = codes "git";
  privacy = codes "standard";
  handoff_sha256 = some (codes "OLD");
}
