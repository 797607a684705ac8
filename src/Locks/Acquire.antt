-- ===== src/Locks/Acquire.antt =====
-- src/jvc/policy/locks.py: `ResourceLock.acquire`, `_blocking_lock` and `release`.
use jvc_core.Base.{
  ℕ, zero, suc, ◌+◌, Bool, true, false, Option, none, some, Text, leb, if◌then◌else◌,
}
use jvc_core.Exec.{Result, ok, err}
use jvc_core.Locks.Placement.{
  Place, ResourceLock, LockError, not_opened, timed_out, not_released, validate_lock,
}

-- The calls on the operating system, on its state S: `os.open`, the non-blocking lock of the lock
-- file, its unlocking, `os.close`, `time.monotonic` in ticks and `time.sleep` between two attempts.
pub record System (S : Type 0) : Type 0 where
  pub open_file : Text → S → Option ℕ × S
  pub try_lock : ℕ → S → Bool × S
  pub unlock : ℕ → S → Bool × S
  pub close : ℕ → S → S
  pub now : S → ℕ × S
  pub sleep : S → S

-- What waiting comes to; `unfinished` if the rounds do not suffice.
pub data Wait : Type 0 where
  locked expired unfinished : Wait

module _ {S : Type 0} (os : System S) where
  -- With the rest of the loop, for an attempt that fails.
  abbrev pub retry : ℕ → (S → Wait × S) → Bool × S → Wait × S
  retry deadline rest (true, s) = (locked, s)
  retry deadline rest (false, s) = until_deadline (os.now s)
    where
      until_deadline : ℕ × S → Wait × S
      until_deadline (time, t) = if leb deadline time then (expired, t) else rest (os.sleep t)

  unfoldable pub wait_for : ℕ → ℕ → ℕ → S → Wait × S
  wait_for zero deadline fd s = (unfinished, s)
  wait_for (suc n) deadline fd s = retry deadline (wait_for n deadline fd) (os.try_lock fd s)

  -- A round for each tick of the timeout, and one more.
  unfoldable pub blocking_lock : ResourceLock → ℕ → S → Wait × S
  unfolding wait_for
  blocking_lock l fd s =
      let (start, t) = os.now s in wait_for (suc l.timeout) (start + l.timeout) fd t

  -- The path and the descriptor of a lock that is held; `none` if the rounds do not suffice.
  abbrev pub hold : Text → ℕ → Wait × S → Option (Result LockError (Text × ℕ)) × S
  hold path fd (locked, s) = (some (ok (path, fd)), s)
  hold path fd (expired, s) = (some (err timed_out), os.close fd s)
  hold path fd (unfinished, s) = (none, s)

  abbrev pub open_lock :
      ResourceLock → Text → Option ℕ × S → Option (Result LockError (Text × ℕ)) × S
  open_lock l path (none, s) = (some (err not_opened), s)
  open_lock l path (some fd, s) = hold path fd (blocking_lock l fd s)

  abbrev pub open_valid :
      ResourceLock → Result LockError Text → S → Option (Result LockError (Text × ℕ)) × S
  open_valid l (err e) s = (some (err e), s)
  open_valid l (ok path) s = open_lock l path (os.open_file path s)

  unfoldable pub acquire : Place → ResourceLock → S → Option (Result LockError (Text × ℕ)) × S
  unfolding blocking_lock
  acquire p l s = open_valid l (validate_lock p l) s

  abbrev pub close_unlocked : ℕ → Bool × S → Result LockError (Unit {0}) × S
  close_unlocked fd (true, s) = (ok tt, os.close fd s)
  close_unlocked fd (false, s) = (err not_released, os.close fd s)

  -- The descriptor is let go whether or not the unlocking fails.
  unfoldable pub release : Option ℕ → S → Result LockError (Unit {0}) × S
  release none s = (ok tt, s)
  release (some fd) s = close_unlocked fd (os.unlock fd s)
