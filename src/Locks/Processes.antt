-- ===== src/Locks/Processes.antt =====
-- Several processes whose critical sections run under one `ResourceLock`, as `with` runs them: each
-- system call and each step of a section is a step of its own.
use jvc_core.Base.{ℕ, ◌≡◌, some, List, [], ◌∷◌, ◌++◌, Text, nat_eq, if◌then◌else◌}
use jvc_core.Locks.Acquire.{System, locked, expired, unfinished, wait_for, release}

-- A critical section: its steps on the shared data D and on what the process keeps for itself.
pub record Section (D L : Type 0) : Type 0 where
  pub steps : List (D × L → D × L)
  pub start : L

pub data Phase (D L : Type 0) : Type 0 where
  outside : Phase D L
  waiting : ℕ → ℕ → Section D L → Phase D L
  inside : ℕ → List (D × L → D × L) → L → Phase D L

-- The sections that were entered are listed in their order.
pub record Processes (S D L : Type 0) : Type 0 where
  pub system : S
  pub shared : D
  pub phases : ℕ → Phase D L
  pub entered : List (Section D L)

abbrev pub set {ℓ} : {A : Type ℓ} → ℕ → A → (ℕ → A) → ℕ → A
set i a f j = if nat_eq i j then a else f j

unfoldable pub perform : {D L : Type 0} → List (D × L → D × L) → D × L → D × L
perform [] x = x
perform (f ∷ fs) x = perform fs (f x)

-- A section at once.
abbrev pub at_once : {D L : Type 0} → Section D L → D → D
at_once p d = (perform p.steps (d, p.start)).0

-- The sections one after another.
unfoldable pub in_order : {D L : Type 0} → List (Section D L) → D → D
in_order [] d = d
in_order (p ∷ ps) d = in_order ps (at_once p d)

-- The descriptors are those of one lock file; `os i` has the calls of process i.
pub data Step {S D L : Type 0} (os : ℕ → System S)
    : Processes S D L → Processes S D L → Type 0 where
  opens :
      (s : Processes S D L) (i fd deadline : ℕ) (path : Text) (p : Section D L) (u : S)
      → s.phases i ≡ outside
      → (os i).open_file path s.system ≡ (some fd, u)
      → Step os s (record {
        system = u;
        shared = s.shared;
        phases = set i (waiting fd deadline p) s.phases;
        entered = s.entered;
      })
  locks :
      (s : Processes S D L) (i fd deadline : ℕ) (p : Section D L) (u : S)
      → s.phases i ≡ waiting fd deadline p
      → wait_for (os i) 1 deadline fd s.system ≡ (locked, u)
      → Step os s (record {
        system = u;
        shared = s.shared;
        phases = set i (inside fd p.steps p.start) s.phases;
        entered = s.entered ++ p ∷ [];
      })
  waits :
      (s : Processes S D L) (i fd deadline : ℕ) (p : Section D L) (u : S)
      → s.phases i ≡ waiting fd deadline p
      → wait_for (os i) 1 deadline fd s.system ≡ (unfinished, u)
      → Step os s (record { system = u; shared = s.shared; phases = s.phases; entered = s.entered })
  gives_up :
      (s : Processes S D L) (i fd deadline : ℕ) (p : Section D L) (u : S)
      → s.phases i ≡ waiting fd deadline p
      → wait_for (os i) 1 deadline fd s.system ≡ (expired, u)
      → Step os s (record {
        system = (os i).close fd u;
        shared = s.shared;
        phases = set i outside s.phases;
        entered = s.entered;
      })
  works :
      (s : Processes S D L) (i fd : ℕ) (f : D × L → D × L) (rest : List (D × L → D × L)) (l : L)
      → s.phases i ≡ inside fd (f ∷ rest) l
      → Step os s (record {
        system = s.system;
        shared = (f (s.shared, l)).0;
        phases = set i (inside fd rest (f (s.shared, l)).1) s.phases;
        entered = s.entered;
      })
  leaves :
      (s : Processes S D L) (i fd : ℕ) (l : L)
      → s.phases i ≡ inside fd [] l
      → Step os s (record {
        system = (release (os i) (some fd) s.system).1;
        shared = s.shared;
        phases = set i outside s.phases;
        entered = s.entered;
      })

pub data Steps {S D L : Type 0} (os : ℕ → System S)
    : Processes S D L → Processes S D L → Type 0 where
  done : (s : Processes S D L) → Steps os s s
  further : (s t u : Processes S D L) → Steps os s t → Step os t u → Steps os s u
