-- ===== src/Continuity/State.antt =====
-- src/jvc/continuity/state.py: the state file, and the operations that run under the revision lock.
-- Times of day are left out. A payload is the text of its JSON.
use jvc_core.Base.{
  ℕ, suc, ◌+◌, Bool, true, false, not, ◌&&◌, ◌||◌, Option, none, some, [], ◌∷◌, Text, Bytes, ◌==◌,
  Dict, get, put, upper, strip, length, leb, nat_eq, is_some, is_empty, if◌then◌else◌,
}
use jvc_core.Exec.{Result, ok, err, Exec, pure, gets, modify, lift, guard, ◌>>=◌, ◌>>◌}

-- `hashlib`'s hex digest, and the time and token in the name of the n-th checkpoint.
pub record Host : Type 0 where
  pub hexdigest : Bytes → Text
  pub checkpoint_name : ℕ → ℕ → Text

unfoldable pub sha256_bytes : Host → Bytes → Text
sha256_bytes h payload = upper (h.hexdigest payload)

pub record State : Type 0 where
  pub schema_version : ℕ
  pub project_id : Text
  pub metadata_revision : ℕ
  pub persistence : Text
  pub privacy : Text
  pub handoff_sha256 : Option Text

-- `state.json`: absent, not readable as a state, or a state.
pub data StateFile : Type 0 where
  absent unreadable : StateFile
  present : State → StateFile

pub record Checkpoint : Type 0 where
  pub checkpoint_id : Text
  pub project_id : Text
  pub metadata_revision : ℕ
  pub previous_revision : ℕ
  pub handoff_sha256 : Text
  pub payload : Text

pub record Decision : Type 0 where
  pub decision_id : Text
  pub metadata_revision : ℕ
  pub payload : Text

pub record Project : Type 0 where
  pub handoff : Option Bytes
  pub state : StateFile
  pub checkpoints : Dict Checkpoint
  pub decisions : Dict Decision
  pub ticks : ℕ

pub data Error : Type 0 where
  already_initialized not_initialized state_unreadable handoff_missing : Error
  invalid_decision_id decision_exists : Error
  revision_conflict handoff_conflict recorded_handoff_conflict : Error

abbrev pub M : Type 0 → Type 0
M A = Exec Error Project A

abbrev pub schema : ℕ
schema = 2

unfoldable pub is_alphanumeric : ℕ → Bool
is_alphanumeric c =
    (leb b'A' c && leb c b'Z') || (leb b'a' c && leb c b'z') || (leb b'0' c && leb c b'9')

unfoldable pub is_id_code : ℕ → Bool
unfolding is_alphanumeric
is_id_code c = is_alphanumeric c || nat_eq c b'_' || nat_eq c b'.' || nat_eq c b'-'

unfoldable pub all_codes : (ℕ → Bool) → Text → Bool
all_codes p [] = true
all_codes p (c ∷ s) = p c && all_codes p s

-- `DECISION_ID_RE.fullmatch(decision_id)`
unfoldable pub is_decision_id : Text → Bool
unfolding is_id_code all_codes
is_decision_id [] = false
is_decision_id (c ∷ s) = is_alphanumeric c && all_codes is_id_code s && leb (length s) 127

unfoldable pub is_initialized : StateFile → Bool
is_initialized absent = false
is_initialized _ = true

abbrev pub parse_state : StateFile → Result Error State
parse_state absent = err not_initialized
parse_state unreadable = err state_unreadable
parse_state (present s) = ok s

unfoldable pub load_state : M State
load_state p = (parse_state p.state, p)

abbrev pub write_state : State → Project → Project
write_state s p = record p { state = present s }

abbrev pub read_handoff : Option Bytes → Result Error Bytes
read_handoff none = err handoff_missing
read_handoff (some b) = ok b

-- The optional optimistic check.
abbrev pub agrees : Option ℕ → ℕ → Bool
agrees none current = true
agrees (some expected) current = nat_eq current expected

-- `recorded and recorded != expected` is false.
abbrev pub recorded_agrees : Option Text → Text → Bool
recorded_agrees none expected = true
recorded_agrees (some recorded) expected = is_empty recorded || recorded == expected

abbrev pub text_or : Option Text → Text
text_or none = []
text_or (some t) = t

-- What `verify` reports: NOT_INITIALIZED, FAIL, DRIFT with the recorded and the current hash, or
-- PASS with the revision and the hash.
pub data Status : Type 0 where
  uninitialized missing_handoff : Status
  drift : Text → Text → Status
  pass : ℕ → Text → Status

module _ (h : Host) where
  abbrev pub hash_option : Option Bytes → Option Text
  hash_option none = none
  hash_option (some b) = some (sha256_bytes h b)

  abbrev pub initial_state : Text → Text → Text → Option Bytes → State
  initial_state project persistence privacy handoff = record {
    schema_version = schema;
    project_id = project;
    metadata_revision = 1;
    persistence = persistence;
    privacy = privacy;
    handoff_sha256 = hash_option handoff;
  }

  unfoldable pub init : Text → Text → Text → M ℕ
  unfolding is_initialized
  init project persistence privacy = do
    file ← gets (λ p. p.state)
    guard (not (is_initialized file)) already_initialized
    handoff ← gets (λ p. p.handoff)
    modify (write_state (initial_state project persistence privacy handoff))
    pure 1

  unfoldable pub checkpoint : Text → Text → Option ℕ → M ℕ
  unfolding load_state
  checkpoint expected_handoff payload expected_revision = do
    s ← load_state
    guard (agrees expected_revision s.metadata_revision) revision_conflict
    file ← gets (λ p. p.handoff)
    bytes ← lift (read_handoff file)
    let current = sha256_bytes h bytes
    guard (current == strip (upper expected_handoff)) handoff_conflict
    let revision = s.metadata_revision + 1
    n ← gets (λ p. p.ticks)
    let name = h.checkpoint_name revision n
    modify (λ p. record p {
      ticks = suc p.ticks;
      checkpoints =
          put name
            (record {
              checkpoint_id = name;
              project_id = s.project_id;
              metadata_revision = revision;
              previous_revision = s.metadata_revision;
              handoff_sha256 = current;
              payload = payload;
            })
            p.checkpoints;
    })
    modify (write_state (record s { metadata_revision = revision; handoff_sha256 = some current }))
    pure revision

  unfoldable pub reconcile_handoff : Text → Text → Option ℕ → M ℕ
  unfolding load_state
  reconcile_handoff expected_handoff observed_handoff expected_revision = do
    s ← load_state
    guard (agrees expected_revision s.metadata_revision) revision_conflict
    file ← gets (λ p. p.handoff)
    bytes ← lift (read_handoff file)
    let current = sha256_bytes h bytes
    guard (current == strip (upper observed_handoff)) handoff_conflict
    guard (recorded_agrees s.handoff_sha256 (strip (upper expected_handoff)))
        recorded_handoff_conflict
    let revision = s.metadata_revision + 1
    modify (write_state (record s { metadata_revision = revision; handoff_sha256 = some current }))
    pure revision

  unfoldable pub record_decision : Text → ℕ → Text → M ℕ
  unfolding load_state
  record_decision decision_id expected_revision payload = do
    guard (is_decision_id decision_id) invalid_decision_id
    s ← load_state
    guard (nat_eq s.metadata_revision expected_revision) revision_conflict
    taken ← gets (λ p. is_some (get decision_id p.decisions))
    guard (not taken) decision_exists
    let revision = s.metadata_revision + 1
    modify (λ p. record p {
      decisions =
          put decision_id
            (record { decision_id = decision_id; metadata_revision = revision; payload = payload })
            p.decisions;
    })
    modify (write_state (record s { metadata_revision = revision }))
    pure revision

  abbrev pub compare_handoff : State → Option Bytes → Status
  compare_handoff s none = missing_handoff
  compare_handoff s (some b) =
      if recorded_agrees s.handoff_sha256 (sha256_bytes h b)
      then pass s.metadata_revision (sha256_bytes h b)
      else drift (text_or s.handoff_sha256) (sha256_bytes h b)

  unfoldable pub verify : Project → Result Error Status
  verify p = elim p.state [
    | absent ↦ ok uninitialized
    | unreadable ↦ err state_unreadable
    | present s ↦ ok (compare_handoff s p.handoff)
  ]
