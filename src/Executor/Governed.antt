-- ===== src/Executor/Governed.antt =====
-- src/jvc/execution/executor.py: the stores of the executor, and `fs_write` and `fs_rollback` around
-- their critical sections.
use jvc_core.Base.{
  ℕ, Bool, true, false, not, ◌||◌, ◌++◌, Option, none, some, List, [], ◌++◌, map, Text, Bytes, Dict,
  codes, ◌==◌, put, contains, encode, length, is_empty, if◌then◌else◌,
}
use jvc_core.Exec.{Result, ok, err, Exec, pure, raise, lift, guard, ◌>>=◌, ◌>>◌}
use jvc_core.Configuration.Registry.{Route, ProjectRegistry, lifecycle, get_route}
use jvc_core.Recovery.World.{Host, World}
use jvc_core.Recovery.Receipt.{Receipt}
use jvc_core.Recovery.Rollback.{Action}
use jvc_core.Boundaries.Paths.{is_control_plane_path}
use jvc_core.Boundaries.Targets.{PathError, Resolve, assert_permitted_path}
use jvc_core.Authority.Values.{Value, text, number}
use jvc_core.Authority.Keys.{is_within_store, assert_trust_store_outside_roots}
use jvc_core.Authority.Tokens
use jvc_core.Authority.Redeem.{
  Store, Faults, Random, Proposal, sha256_bytes, create_confirmation_request,
  validate_and_consume_capability,
}
use jvc_core.Authority.Keys
use jvc_core.Executor.Write.{WriteError, write_locked, rollback_locked}

-- What is outside: the host of the recovery store, that of the authority, the resolution of paths
-- and whether a path is a directory.
pub record Platform : Type 0 where
  pub recovery : Host
  pub authority : Tokens.Host
  pub resolve : Resolve
  pub is_dir : Text → Bool

-- What the executor is made with.
pub record Setup : Type 0 where
  pub registry : ProjectRegistry
  pub confirmation_store : Text
  pub operator_secret : Option Bytes

-- What changes: the target files with the recovery journal, and the confirmations.
pub record State : Type 0 where
  pub world : World
  pub confirmations : Store

-- What the caller does not choose: the clock, random values, failures, and whether the lock of the
-- target is acquired in time.
pub record Moment : Type 0 where
  pub now : ℕ
  pub random : Random
  pub faults : Faults
  pub acquired : Bool

pub record WriteRequest : Type 0 where
  pub project_id : Text
  pub relative_path : Text
  pub content : Text
  pub expected : Option Text
  pub confirmation_id : Option Text
  pub confirmation_token : Option Text
  pub extra : List Text

pub data GovernedError : Type 0 where
  escalation unregistered root_missing control_plane host_store lock_timeout : GovernedError
  from_authority : Keys.Error → GovernedError
  from_path : PathError → GovernedError
  from_write : WriteError → GovernedError

pub data WriteOutcome : Type 0 where
  requested : Text → WriteOutcome
  written : Text → Receipt → WriteOutcome

-- Whether a write goes on, with the privilege of an operator or without, or is put to the operator.
pub data Clearance : Type 0 where
  cleared : Bool → Clearance
  asked : Text → Clearance

abbrev pub Governed : Type 0 → Type 0
Governed A = Exec GovernedError State A

abbrev pub path_result : {A : Type 0} → Result PathError A → Result GovernedError A
path_result (ok a) = ok a
path_result (err e) = err (from_path e)

abbrev pub authority_result : {A : Type 0} → Result Keys.Error A → Result GovernedError A
authority_result (ok a) = ok a
authority_result (err e) = err (from_authority e)

abbrev pub write_result : {A : Type 0} → Result WriteError A → Result GovernedError A
write_result (ok a) = ok a
write_result (err e) = err (from_write e)

abbrev pub in_confirmations : {A : Type 0} → (Store → Result Keys.Error A × Store) → Governed A
in_confirmations m s =
    let (r, store) = m s.confirmations in (authority_result r, record s { confirmations = store })

abbrev pub in_world : {A : Type 0} → Exec WriteError World A → Governed A
in_world m s = let (r, w) = m s.world in (write_result r, record s { world = w })

abbrev pub is_held : Route → Bool
is_held route = lifecycle route == codes "held"

abbrev pub needs_cap : Route → Text → Bool
needs_cap route relative_path = is_held route || is_control_plane_path [] [] relative_path

-- `self.operator_secret and confirmation_id and confirmation_token`
abbrev pub credentials : Option Bytes → Option Text → Option Text → Option (Bytes × Text × Text)
credentials (some secret) (some id) (some token) =
    if is_empty secret || is_empty id || is_empty token then none else some (secret, id, token)
credentials _ _ _ = none

abbrev pub escalates : WriteRequest → Bool
escalates q = contains (codes "permit_held_mutation") q.extra || contains (codes "confirm") q.extra

module _ (p : Platform) where
  -- By default the confirmations lie in the recovery store.
  abbrev pub confirmation_path : Option Text → Text
  confirmation_path none = p.recovery.root ++ codes "/confirmations"
  confirmation_path (some path) = path

  unfoldable pub init_stores : List Route → Option Text → Result Keys.Error Text
  init_stores routes confirmation_store =
      let roots = map (λ r. r.root) routes in
      elim (assert_trust_store_outside_roots p.resolve p.recovery.root roots) [
        | err e ↦ err e
        | ok root ↦
            assert_trust_store_outside_roots p.resolve (confirmation_path confirmation_store) roots
      ]

  abbrev pub existing : Option Route → Result GovernedError Route
  existing none = err unregistered
  existing (some route) = if p.is_dir route.root then ok route else err root_missing

  unfoldable pub resolve_project : Setup → Text → Result GovernedError Route
  unfolding get_route
  resolve_project e project_id = existing (get_route e.registry project_id)

  unfoldable pub outside_host_stores : Setup → Text → Bool
  outside_host_stores e target = not (
      is_within_store p.resolve target e.confirmation_store
      || is_within_store p.resolve target p.recovery.root)

  unfoldable pub write_payload : WriteRequest → Dict Value
  write_payload q = put (codes "path") (text q.relative_path) (
      put (codes "content_sha256") (text (sha256_bytes p.authority (encode q.content)))
        (put (codes "bytes") (number (length (encode q.content))) []))

  abbrev pub write_proposal : WriteRequest → Proposal
  write_proposal q = record {
    project_id = q.project_id;
    operation = codes "FS_WRITE";
    target = q.relative_path;
    payload = write_payload q;
    preimage = q.expected;
  }

  abbrev pub redeem_with : Option (Bytes × Text × Text) → Moment → WriteRequest → Governed Bool
  redeem_with none m q = pure false
  redeem_with (some (secret, id, token)) m q = in_confirmations (
      validate_and_consume_capability p.authority id token (write_proposal q) secret m.now m.faults)

  abbrev pub redeem_write : Setup → Moment → WriteRequest → Governed Bool
  redeem_write e m q =
      redeem_with (credentials e.operator_secret q.confirmation_id q.confirmation_token) m q

  abbrev pub ask_operator : Moment → WriteRequest → Governed Text
  ask_operator m q = in_confirmations (
      create_confirmation_request p.authority m.random (write_proposal q) (codes "HELD_ROUTE_GATE")
        (codes "HELD route mutation requires trusted operator capability") 300 m.now m.faults)

  abbrev pub after_redeem : Bool → Moment → WriteRequest → Governed Clearance
  after_redeem true m q = pure (cleared true)
  after_redeem false m q =
      if is_control_plane_path [] [] q.relative_path
      then raise control_plane
      else (ask_operator m q >>= λ cid. pure (asked cid))

  unfoldable pub clear_write : Setup → Route → Moment → WriteRequest → Governed Clearance
  clear_write e route m q =
      if needs_cap route q.relative_path
      then (redeem_write e m q >>= λ authorized. after_redeem authorized m q)
      else pure (cleared false)

  -- From the check of the path on.
  unfoldable pub perform_write :
      Setup → Route → Moment → WriteRequest → Bool → Governed WriteOutcome
  perform_write e route m q authorized = do
    (target, canonical) ←
        lift (
          path_result (assert_permitted_path p.resolve route.root q.relative_path authorized [] []))
    guard (outside_host_stores e target) host_store
    guard m.acquired lock_timeout
    receipt ← in_world (write_locked p.recovery q.project_id target (encode q.content) q.expected)
    pure (written canonical receipt)

  abbrev pub carry_out : Setup → Route → Moment → WriteRequest → Clearance → Governed WriteOutcome
  carry_out e route m q (asked cid) = pure (requested cid)
  carry_out e route m q (cleared authorized) = perform_write e route m q authorized

  -- Once the project is resolved.
  abbrev pub write_to : Setup → Moment → WriteRequest → Route → Governed WriteOutcome
  write_to e m q route = clear_write e route m q >>= λ clearance. carry_out e route m q clearance

  unfoldable pub fs_write : Setup → Moment → WriteRequest → Governed WriteOutcome
  unfolding clear_write perform_write resolve_project contains
  fs_write e m q = do
    guard (not (escalates q)) escalation
    route ← lift (resolve_project e q.project_id)
    write_to e m q route

  unfoldable pub fs_rollback : Setup → Moment → Text → Text → Text → Governed Action
  fs_rollback e m project_id relative_path expected = do
    route ← lift (resolve_project e project_id)
    (target, canonical) ←
        lift (path_result (assert_permitted_path p.resolve route.root relative_path false [] []))
    guard (outside_host_stores e target) host_store
    guard m.acquired lock_timeout
    in_world (rollback_locked p.recovery project_id target expected)
