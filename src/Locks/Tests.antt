-- ===== src/Locks/Tests.antt =====
-- A lock below /tmp for a project at /p.
use jvc_core.Base.{
  ℕ, suc, ◌+◌, ◌≤◌, ◌≡◌, ◌≢◌, refl, sym, ap, ◌⊎◌, inl, inr, Bool, true, false, Option, none, some,
  List, [], ◌∷◌, Text, codes, path_parts, strip_parts, split, ◌==◌, nat_eq, nat_eq_iff, arith,
  Bool-cases, if◌then◌else◌,
}
use jvc_core.Exec.{Result, ok}
use jvc_core.Boundaries.Targets.{relative_to}
use jvc_core.Locks.Placement.{Place, ResourceLock, LockError, validate_lock}
use jvc_core.Locks.Acquire.{System, expired, blocking_lock, acquire, wait_for, release}
use jvc_core.Locks.Waiting.{Clock, acquire-ends}
use jvc_core.Locks.Processes.{
  Section, outside, inside, Processes, in_order, opens, locks, waits, works, leaves, Steps, done,
  further,
}
use jvc_core.Locks.Serial.{Exclusive, IsOut}
use jvc_core.Locks.Refined.{IsInitial, steps-in_order}
use jvc_core.Locks.Outside.{IsPlaced, validate_lock-IsPlaced}

abbrev place : Place
place = record {
  resolve = λ path. some path;
  is_file = λ path. false;
  makes_directory = λ path. true;
}

abbrev lock : ResourceLock
lock = record {
  lock_dir = codes "/tmp/jvc-locks";
  name = codes "jvc-a";
  timeout = 30;
  governed_roots = codes "/p" ∷ [];
  supported = true;
}

accepted : validate_lock place lock ≡ ok (codes "/tmp/jvc-locks/jvc-a.lock")
unfolding validate_lock relative_to path_parts strip_parts split ◌==◌
accepted = refl

validate_lock-IsPlaced_example : IsPlaced place lock (codes "/tmp/jvc-locks/jvc-a.lock")
validate_lock-IsPlaced_example =
    validate_lock-IsPlaced place lock (codes "/tmp/jvc-locks/jvc-a.lock") accepted

-- A system with one lock, by its holder, and a clock.
abbrev SystemState : Type 0
SystemState = Option ℕ × ℕ

try_at : ℕ → SystemState → Bool × SystemState
try_at i (none, time) = (true, (some i, time))
try_at i (some j, time) = (nat_eq i j, (some j, time))

let_go : ℕ → SystemState → SystemState
let_go i (none, time) = (none, time)
let_go i (some j, time) = ((if nat_eq i j then none else some j), time)

abbrev system : ℕ → System SystemState
system i = record {
  open_file = λ path s. (some 3, s);
  try_lock = λ fd s. try_at i s;
  unlock = λ fd s. (true, s);
  close = λ fd s. let_go i s;
  now = λ (h, time). (time, (h, time));
  sleep = λ (h, time). (h, suc time);
}

clock : Clock (system 1)
unfolding try_at
clock = record {
  time = λ s. s.1;
  told = λ s. refl;
  after_now = λ s. omega arith;
  after_try = λ fd s. kept s;
  after_sleep = λ s. omega arith;
}
  where
    kept : (s : SystemState) → s.1 ≤ (try_at 1 s).1.1
    kept (none, time) = omega arith
    kept (some j, time) = omega arith

acquire-ends_example :
    ((r : Result LockError (Text × ℕ)) × ((acquire (system 1) place lock (some 2, 0)).0 ≡ some r))
    × ((fd : ℕ) (t : SystemState)
        → (blocking_lock (system 1) lock fd t).0 ≡ expired
        → clock.time t + 30 ≤ clock.time (blocking_lock (system 1) lock fd t).1)
acquire-ends_example = acquire-ends (system 1) clock place lock (some 2, 0)

exclusive : Exclusive system
unfolding try_at let_go
exclusive = record {
  holder = λ s. s.0;
  opened = λ i path s. refl;
  granted = λ i fd s. granted i s;
  denied = λ i fd s. denied i s;
  unlocked = λ i fd s e. inr e;
  closed = λ i fd s. closed i s;
  closed_other = λ i fd s. closed_other i s;
  told = λ i s. refl;
  slept = λ i s. refl;
}
  where
    granted :
        (i : ℕ) (s : SystemState)
        → (try_at i s).0 ≡ true
        → ((s.0 ≡ none) ⊎ (s.0 ≡ some i)) × ((try_at i s).1.0 ≡ some i)
    granted i (none, time) e = (inl refl, refl)
    granted i (some j, time) e =
        let same : (j ≡ i) = sym ((nat_eq_iff i j).0 e) in (inr (ap some same), ap some same)

    denied : (i : ℕ) (s : SystemState) → (try_at i s).0 ≡ false → (try_at i s).1.0 ≡ s.0
    denied i (none, time) e = cc
    denied i (some j, time) e = refl

    closed : (i : ℕ) (s : SystemState) → s.0 ≡ some i → (let_go i s).0 ≡ none
    closed i (none, time) e = refl
    closed i (some j, time) e = let same : (i ≡ j) = cc in rw ((nat_eq_iff i j).1 same) refl

    closed_other : (i : ℕ) (s : SystemState) → s.0 ≢ some i → (let_go i s).0 ≡ s.0
    closed_other i (none, time) n = refl
    closed_other i (some j, time) n = elim (Bool-cases (nat_eq i j)) [
      | inl y ↦ absurd (n (ap some (sym ((nat_eq_iff i j).0 y))))
      | inr y ↦ rw y refl
    ]

-- A counter, read and then written.
abbrev count : Section ℕ ℕ
count = record { steps = (λ (d, l). (d, d)) ∷ (λ (d, l). (l + 1, l)) ∷ []; start = 0 }

abbrev initial : Processes SystemState ℕ ℕ
initial = record { system = (none, 0); shared = 5; phases = λ i. outside; entered = [] }

is_initial : IsInitial system exclusive initial
unfolding exclusive
is_initial = record { unlocked = refl; out = λ j. tt; unentered = refl }

-- The second process opens the lock file and waits while the first counts, and counts then.
interleaved : (t : Processes SystemState ℕ ℕ) × Steps system initial t
unfolding try_at let_go wait_for release
interleaved =
    let s₁ = further _ _ _ (done initial) (opens _ 1 3 9 (codes "/l") count (none, 0) refl refl) in
    let s₂ = further _ _ _ s₁ (opens _ 2 3 9 (codes "/l") count (none, 0) refl refl) in
    let s₃ = further _ _ _ s₂ (locks _ 1 3 9 count (some 1, 0) refl refl) in
    let s₄ = further _ _ _ s₃ (waits _ 2 3 9 count (some 1, 1) refl refl) in
    let s₅ =
      further _ _ _ s₄ (works _ 1 3 (λ (d, l). (d, d)) ((λ (d, l). (l + 1, l)) ∷ []) 0 refl) in
    let s₆ = further _ _ _ s₅ (works _ 1 3 (λ (d, l). (l + 1, l)) [] 5 refl) in
    let s₇ = further _ _ _ s₆ (leaves _ 1 3 5 refl) in
    let s₈ = further _ _ _ s₇ (locks _ 2 3 9 count (some 2, 1) refl refl) in
    let s₉ =
      further _ _ _ s₈ (works _ 2 3 (λ (d, l). (d, d)) ((λ (d, l). (l + 1, l)) ∷ []) 0 refl) in
    let s₁₀ = further _ _ _ s₉ (works _ 2 3 (λ (d, l). (l + 1, l)) [] 6 refl) in
    (_, further _ _ _ s₁₀ (leaves _ 2 3 6 refl))

steps-in_order_example :
    ((i j fd fd₁ : ℕ) (rest rest₁ : List (ℕ × ℕ → ℕ × ℕ)) (l l₁ : ℕ)
      → interleaved.0.phases i ≡ inside fd rest l
      → interleaved.0.phases j ≡ inside fd₁ rest₁ l₁
      → i ≡ j)
    × (((j : ℕ) → IsOut (interleaved.0.phases j))
        → interleaved.0.shared ≡ in_order interleaved.0.entered 5)
steps-in_order_example =
    steps-in_order system exclusive initial interleaved.0 is_initial interleaved.1

-- Both have counted.
counted : interleaved.0.shared ≡ 7
unfolding interleaved
counted = refl
