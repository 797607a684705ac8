-- ===== src/Lib.antt =====
-- JVC core: a governance layer between tool-calling agents and the files and Git repositories of
-- registered projects (README.md, ARCHITECTURE.md).
--
-- Parts and files. Paths of the program are from the repository's root.
--   Base, Base/Texts, Base/Dicts   Python's str and bytes as lists of code points and of bytes, with
--       the string methods that the program calls; dicts with text keys, in sorted order.
--   Exec   methods that change state and may raise: the state comes back beside the error.
--   Recovery   src/jvc/recovery/store.py. Receipt has the receipts, their schema and the states of a
--       transaction. World has the files, the journal and the durable writes. Reconcile has
--       _backup_ok, _reconcile_one, _reconcile_rollback, _finalize_rollback, _audit_verified and
--       _decide_locked. Recover has recover and _find_orphan_backups. Gate has
--       corrupt_receipt_files, has_blocking_state, reconcile_target and prune. Select has
--       _chain_references, _find_superseded_id and find_latest_receipt. Save has _new_receipt_id,
--       save_preimage, note_target_replaced and record_postimage. Rollback has _supersede_pending
--       and rollback. The other files below Recovery are proofs.
--   Executor   src/jvc/execution/executor.py. Write has the critical sections of fs_write and
--       fs_rollback, which run under the lock of the target. Governed has the stores of the executor,
--       _resolve_project, _assert_outside_host_stores, fs_write and fs_rollback around them, on
--       Configuration, Boundaries, Authority and Recovery. Repository has the checks of a repository
--       before a mutation, Git has _stage_locked and _commit_locked, Branch _branch_locked, Diff
--       git_diff, Output _fit_bytes and _capped_git_read. The other files are proofs.
--   Continuity   src/jvc/continuity/state.py. State has ContinuityManager; Commands has runs of its
--       locked operations by several callers. The other files are proofs.
--   Boundaries   src/jvc/policy/boundaries.py. Paths has is_secret_path and is_control_plane_path;
--       Targets has is_within, canonical_target and assert_permitted_path.
--   Guard   src/jvc/policy/guard.py, on the boundaries. Manifest has the manifest and its life
--       cycle, Validate _validate_entries, Files the reads and writes, Capture capture, bind_intent
--       and verify, Apply transition and receipt. The other files are proofs.
--   Authority   src/jvc/policy/authority.py. Base64 has _b64 and _unb64, Values the JSON objects,
--       Keys the operator keys, the trust store's place and the trusted executables, Tokens
--       sign_capability and decode_and_verify_capability, Redeem create_confirmation_request and
--       validate_and_consume_capability. The other files are proofs.
--   Configuration   src/jvc/configuration.py. Registry has Route and the lookup of ProjectRegistry,
--       Table parse_registry_table, Validate validate. The other files are proofs.
--   Routing   src/jvc/routing.py. Words has normalize, alias_present and the markers, Resolve has
--       resolve_query and route_payload. Segments and Outcomes are proofs.
--   Contracts   src/jvc/contracts.py. Json has JSON values and what Python does with a value of a
--       wrong type, Validate validate_contract, Verdict check_applicability and
--       is_verification_satisfied, Expand _expand and command_argv, Runtime resolve_runtime, Check
--       run_check, Load load_contract, Persistence persistence_report. Shape says what a valid
--       contract is; the other files are proofs.
--   Runner   src/jvc/execution/runner.py. Environment has build_safe_subprocess_env, Check
--       run_declared_check. The other files are proofs.
--   Locks   src/jvc/policy/locks.py. Names has the names of locks, Placement ResourceLock and
--       _validate, Acquire acquire, _blocking_lock and release, Processes the runs of critical
--       sections by several processes. The other files are proofs.
--
-- State. A World holds the disk (path to file, unreadable file or directory), the journal (file name
-- to entry: a receipt, a document that is no object, or bytes that do not parse) and the number of
-- receipt IDs made. What is outside the repository is the record Host: the hex digest of hashlib,
-- the time and nonce of the n-th ID, the clock, the store's directory, and the configured failure
-- points. A field of a receipt that must be a string is empty where the document has none. A Project
-- of Continuity holds the handoff, state.json, the checkpoints and the decisions. A Store of Guard
-- holds the disk by resolved paths. A Store of Authority holds the pending proposals by confirmation
-- ID and the consumed nonces by their hashes. The State of Executor holds a World and such a Store;
-- whether the lock of a target is acquired in time is a parameter of each call. A Session holds the
-- state of Git, whatever it is, and the paths staged by project. Git and the files that the executor
-- reads are parameters. The state of Runner is the list of the processes started. Processes of Locks
-- hold the state of the operating system, the shared data and the phase of each process. Path
-- resolution, the json library, hmac, the clock and all random values are parameters.
--
-- Bounds. The loop of _new_receipt_id has the 100 rounds of the source. The loop of _fit_bytes has
-- a round for each character of the text, and drops one in each. The loop of _blocking_lock has a
-- round for each tick of the timeout and one more; a tick is no longer than the sleep of a round. All
-- other loops are over lists.
--
-- Not modelled. Time of day, the text of error messages, and failures of the operating system
-- while a journal file or a backup is written (a crash between two writes is modelled by the
-- failure points). Writes of the parts Continuity and Guard never fail on the disk, but for the
-- directories above a new file of the guard and its encoding, so an OSError between the two
-- writes of a continuity operation, and the failure of the verification after the write of a
-- manifest, are not reached; nothing else writes to the disk while an operation of the guard
-- runs. upper and casefold map ASCII letters only. int of text with a sign, white space or an
-- underscore is taken for an error. In fs_write the lock is the parameter above; a process that
-- dies in a critical section is not among the steps of Processes. A call of Git that runs out of
-- time, and the threads that read its output, are not modelled. The texts `detail` and the key
-- `skipped` of a result of contracts.py are left out; there a real number is taken for another
-- than any exit code, and a timeout that is no natural number for an error. A manifest of
-- declared checks has values of the types that its keys ask for, and ASCII hashes; paths are
-- compared exactly, as on POSIX. subprocess.run of an empty argument list raises IndexError, as
-- on POSIX. The command line, the demo and the release acceptance script print and call the parts
-- above. A journal file that is not UTF-8, or whose tx_state is a list or an object, ends a scan
-- of the journal in the source with an exception; the model takes the first for a file that
-- cannot be parsed and the second for an unknown state. The names rollback_of and backup_file of
-- a receipt are used as paths in the source; in the model they lead to a journal file and to a
-- file of the disk. The theorems on the restart and on pruning have the conditions under which
-- this makes no difference.
pub mod Base
pub mod Exec
pub mod Recovery
pub mod Executor
pub mod Configuration
pub mod Routing
pub mod Continuity
pub mod Boundaries
pub mod Guard
pub mod Authority
pub mod Locks
pub mod Contracts
pub mod Runner
