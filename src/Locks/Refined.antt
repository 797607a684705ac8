-- ===== src/Locks/Refined.antt =====
-- Critical sections under one lock come to what they come to one after another.
use jvc_core.Base.{ℕ, ◌≡◌, refl, inl, inr, none, List, [], nat_eq, nat_eq_iff, arith, Bool-cases}
use jvc_core.Locks.Acquire.{System}
use jvc_core.Locks.Processes.{inside, Processes, in_order, Steps}
use jvc_core.Locks.Serial.{Exclusive, IsOut}
use jvc_core.Locks.Invariant.{Serial, inside-Owns, not_inside, Serial-Steps}

-- The system before any process has opened the lock file.
pub record IsInitial {S D L : Type 0} (os : ℕ → System S) (x : Exclusive os) (s : Processes S D L)
    : Type 0 where
  pub unlocked : x.holder s.system ≡ none
  pub out : (j : ℕ) → IsOut (s.phases j)
  pub unentered : s.entered ≡ []

module _ {S D L : Type 0} (os : ℕ → System S) (x : Exclusive os) (s t : Processes S D L) where
  initial-Serial : IsInitial os x s → Serial os x s.shared s
  unfolding in_order
  initial-Serial i = inl (i.unlocked, i.out, rw i.unentered refl)

  -- On a system whose lock is exclusive, however the steps of processes interleave that run their
  -- critical sections under one ResourceLock: no two processes are inside at once, and when none is
  -- inside the data are what the sections make of the initial data one after another, each at once,
  -- in the order in which they were entered.
  pub steps-in_order :
      IsInitial os x s
      → Steps os s t
      → ((i j fd fd₁ : ℕ) (rest rest₁ : List (D × L → D × L)) (l l₁ : L)
          → t.phases i ≡ inside fd rest l
          → t.phases j ≡ inside fd₁ rest₁ l₁
          → i ≡ j)
        × (((j : ℕ) → IsOut (t.phases j)) → t.shared ≡ in_order t.entered s.shared)
  steps-in_order initial steps = (alone, finished v)
    where
      v : Serial os x s.shared t
      v = Serial-Steps os x s.shared s t steps (initial-Serial initial)

      alone :
          (i j fd fd₁ : ℕ) (rest rest₁ : List (D × L → D × L)) (l l₁ : L)
          → t.phases i ≡ inside fd rest l
          → t.phases j ≡ inside fd₁ rest₁ l₁
          → i ≡ j
      alone i j fd fd₁ rest rest₁ l l₁ e e₁ =
          let (before, p, held, others, ran, is) = inside-Owns os x s.shared t i fd rest l v e in
          elim (Bool-cases (nat_eq i j)) [
            | inl y ↦ (nat_eq_iff i j).0 y
            | inr y ↦ absurd (not_inside os x s.shared _ (others j (λ k. ground arith)) e₁)
          ]

      finished :
          Serial os x s.shared t
          → ((j : ℕ) → IsOut (t.phases j))
          → t.shared ≡ in_order t.entered s.shared
      finished (inl (free, out, is)) o = is
      finished (inr (j, fd, rest, l, phase, owns)) o =
          absurd (not_inside os x s.shared _ (o j) phase)
