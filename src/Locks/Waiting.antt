-- ===== src/Locks/Waiting.antt =====
-- The wait for a lock ends.
use jvc_core.Base.{
  ℕ, zero, suc, ◌+◌, ◌≤◌, ◌<◌, ◌≡◌, refl, inl, inr, Bool, true, false, Option, none, some, Text,
  leb, arith, Bool-cases,
}
use jvc_core.Exec.{Result, ok, err}
use jvc_core.Locks.Placement.{Place, ResourceLock, LockError, timed_out, validate_lock}
use jvc_core.Locks.Acquire.{
  System, Wait, locked, expired, unfinished, retry, wait_for, blocking_lock, hold, open_lock,
  open_valid, acquire,
}

-- The clock of the system: it does not go back, and a sleep takes at least one tick.
pub record Clock {S : Type 0} (os : System S) : Type 0 where
  pub time : S → ℕ
  pub told : (s : S) → (os.now s).0 ≡ time s
  pub after_now : (s : S) → time s ≤ time (os.now s).1
  pub after_try : (fd : ℕ) (s : S) → time s ≤ time (os.try_lock fd s).1
  pub after_sleep : (s : S) → time s < time (os.sleep s)

module _ {S : Type 0} (os : System S) (c : Clock os) where
  -- The wait is over, and is not given up before the deadline.
  abbrev pub Ended : ℕ → Wait × S → Type 0
  Ended deadline (locked, s) = Unit
  Ended deadline (expired, s) = deadline ≤ c.time s
  Ended deadline (unfinished, s) = ⊥

  -- A failed attempt: the deadline is over, or the rest of the loop starts later.
  retry-Ended :
      (deadline n : ℕ) (rest : S → Wait × S) (s : S) (b : Bool) (t : S)
      → c.time s ≤ c.time t
      → deadline ≤ c.time s + n
      → ((u : S) → c.time s < c.time u → c.time s < deadline → Ended deadline (rest u))
      → Ended deadline (retry os deadline rest (b, t))
  retry-Ended deadline n rest s true t later k ends = tt
  retry-Ended deadline n rest s false t later k ends =
      elim (Bool-cases (leb deadline (os.now t).0)) [
        | inl y ↦ rw y (reached deadline _ y (c.told t) (c.after_now t))
        | inr y ↦ rw y (
            ends (os.sleep (os.now t).1) (slept y (c.after_now t) (c.after_sleep (os.now t).1))
              (early deadline _ y (c.told t)))
      ]
    where
      reached : (d x : ℕ) {y z : ℕ} → leb d x ≡ true → x ≡ y → y ≤ z → d ≤ z
      reached d x k e l = ground arith

      slept :
          leb deadline (os.now t).0 ≡ false
          → c.time t ≤ c.time (os.now t).1
          → c.time (os.now t).1 < c.time (os.sleep (os.now t).1)
          → c.time s < c.time (os.sleep (os.now t).1)
      slept y k₁ k₂ = omega arith

      early : (d x : ℕ) → leb d x ≡ false → x ≡ c.time t → c.time s < d
      early d x y e = ground arith

  wait_for-Ended :
      (n deadline fd : ℕ) (s : S)
      → deadline ≤ c.time s + n
      → Ended deadline (wait_for os (suc n) deadline fd s)
  unfolding wait_for
  wait_for-Ended zero deadline fd s k =
      retry-Ended deadline zero (wait_for os zero deadline fd) s _ _ (c.after_try fd s) k
        (λ u l e. absurd (omega arith))
  wait_for-Ended (suc n) deadline fd s k =
      retry-Ended deadline (suc n) (wait_for os (suc n) deadline fd) s _ _ (c.after_try fd s) k
        (λ u l e. wait_for-Ended n deadline fd u (omega arith))

  blocking_lock-Ended :
      (l : ResourceLock) (fd : ℕ) (s : S) → Ended (c.time s + l.timeout) (blocking_lock os l fd s)
  unfolding blocking_lock
  blocking_lock-Ended l fd s =
      rw (c.told s)
        (wait_for-Ended l.timeout (c.time s + l.timeout) fd (os.now s).1 (later (c.after_now s)))
    where
      later :
          c.time s ≤ c.time (os.now s).1 → c.time s + l.timeout ≤ c.time (os.now s).1 + l.timeout
      later k = omega arith

  hold-some :
      (path : Text) (fd deadline : ℕ) (w : Wait × S)
      → Ended deadline w
      → (r : Result LockError (Text × ℕ)) × ((hold os path fd w).0 ≡ some r)
  hold-some path fd deadline (locked, s) k = (ok (path, fd), refl)
  hold-some path fd deadline (expired, s) k = (err timed_out, refl)
  hold-some path fd deadline (unfinished, s) k = absurd k

  open_lock-some :
      (l : ResourceLock) (path : Text) (r : Option ℕ × S)
      → (x : Result LockError (Text × ℕ)) × ((open_lock os l path r).0 ≡ some x)
  open_lock-some l path (none, s) = (_, refl)
  open_lock-some l path (some fd, s) =
      hold-some path fd _ (blocking_lock os l fd s) (blocking_lock-Ended l fd s)

  -- On a clock that does not go back, and on which a sleep takes at least a tick, the acquisition of
  -- a lock ends: it comes to a held lock or to an error within a round for each tick of the timeout
  -- and one more. A wait that is given up lasted for the timeout at least.
  pub acquire-ends :
      (p : Place) (l : ResourceLock) (s : S)
      → ((r : Result LockError (Text × ℕ)) × ((acquire os p l s).0 ≡ some r))
        × ((fd : ℕ) (t : S)
            → (blocking_lock os l fd t).0 ≡ expired
            → c.time t + l.timeout ≤ c.time (blocking_lock os l fd t).1)
  unfolding acquire
  acquire-ends p l s = (
    opened (validate_lock p l),
    λ fd t. waited (blocking_lock os l fd t) (blocking_lock-Ended l fd t),
  )
    where
      opened :
          (v : Result LockError Text)
          → (r : Result LockError (Text × ℕ)) × ((open_valid os l v s).0 ≡ some r)
      opened (err e) = (err e, refl)
      opened (ok path) = open_lock-some l path (os.open_file path s)

      waited : {d : ℕ} (w : Wait × S) → Ended d w → w.0 ≡ expired → d ≤ c.time w.1
      waited (locked, t) k e = cc
      waited (expired, t) k e = k
      waited (unfinished, t) k e = absurd k
