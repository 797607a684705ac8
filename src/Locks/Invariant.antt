-- ===== src/Locks/Invariant.antt =====
-- The invariant of processes whose critical sections run under one lock.
use jvc_core.Base.{
  ℕ, ◌≡◌, ◌≢◌, refl, sym, ap, ◌∙◌, ◌⊎◌, inl, inr, Option, none, some, List, [], ◌∷◌, ◌++◌, nat_eq,
  nat_eq_iff, arith, Bool-cases,
}
use mathlib.Core.Path.{subst}
use jvc_core.Locks.Acquire.{System, locked, expired, unfinished, release}
use jvc_core.Locks.Processes.{
  Section, Phase, outside, waiting, inside, Processes, set, perform, at_once, in_order, Step, opens,
  locks, waits, gives_up, works, leaves, Steps, done, further,
}
use jvc_core.Locks.Serial.{
  Exclusive, set-same, set-other, set-All, perform-cons, in_order-append, IsOut, wait_for-Polled,
  release-holder,
}

module _ {S D L : Type 0} (os : ℕ → System S) (x : Exclusive os) (d₀ : D) where
  -- No process is inside, and the data are those of the sections one after another.
  abbrev pub IsFree : Processes S D L → Type 0
  IsFree s =
      (x.holder s.system ≡ none)
      × ((j : ℕ) → IsOut (s.phases j))
      × (s.shared ≡ in_order s.entered d₀)

  -- Process i alone is inside, and what is left of its section completes it.
  abbrev pub Owns : Processes S D L → ℕ → List (D × L → D × L) → L → Type 0
  Owns s i rest l =
      (before : List (Section D L)) × (p : Section D L) × (x.holder s.system ≡ some i)
      × ((j : ℕ) → j ≢ i → IsOut (s.phases j))
      × (s.entered ≡ before ++ p ∷ [])
      × ((perform rest (s.shared, l)).0 ≡ at_once p (in_order before d₀))

  abbrev pub IsBusy : Processes S D L → Type 0
  IsBusy s =
      (i fd : ℕ) × (rest : List (D × L → D × L)) × (l : L) × (s.phases i ≡ inside fd rest l)
      × Owns s i rest l

  abbrev pub Serial : Processes S D L → Type 0
  Serial s = IsFree s ⊎ IsBusy s

  pub not_inside :
      {fd : ℕ} {rest : List (D × L → D × L)} {l : L} (a : Phase D L)
      → IsOut a
      → a ≢ inside fd rest l
  not_inside a out e = subst (λ b. IsOut b) e out

  IsOut-waiting :
      {fd deadline : ℕ} {p : Section D L} (a : Phase D L) → a ≡ waiting fd deadline p → IsOut a
  IsOut-waiting a e = subst (λ b. IsOut b) (sym e) tt

  IsOut-outside : (a : Phase D L) → a ≡ outside → IsOut a
  IsOut-outside a e = subst (λ b. IsOut b) (sym e) tt

  -- A process that is not inside does not hold the lock.
  holder-IsOut :
      (s : Processes S D L) (i : ℕ) → Serial s → IsOut (s.phases i) → x.holder s.system ≢ some i
  holder-IsOut s i (inl (free, out, is)) o k =
      let z : (◌≡◌ {A = Option ℕ} none (some i)) = sym free ∙ k in cc
  holder-IsOut s i (inr (j, fd, rest, l, phase, (before, p, held, others, ran, is))) o k =
      not_inside (s.phases j) (subst (λ n. IsOut (s.phases n)) same o) phase
    where
      same : i ≡ j
      same = let z : (some i ≡ some j) = sym k ∙ held in cc

  -- The process that is inside owns the data.
  pub inside-Owns :
      (s : Processes S D L) (i fd : ℕ) (rest : List (D × L → D × L)) (l : L)
      → Serial s
      → s.phases i ≡ inside fd rest l
      → Owns s i rest l
  inside-Owns s i fd rest l (inl (free, out, is)) e = absurd (not_inside _ (out i) e)
  inside-Owns s i fd rest l (inr (j, fd', rest', l', phase, (before, p, held, others, ran, is))) e =
      elim (Bool-cases (nat_eq i j)) [
        | inr y ↦ absurd (not_inside _ (others i (λ k. ground arith)) e)
        | inl y ↦ owned ((nat_eq_iff i j).0 y)
      ]
    where
      -- The data when the section is complete.
      completed : Phase D L → D
      completed (inside fd rest l) = (perform rest (s.shared, l)).0
      completed a = s.shared

      owned : i ≡ j → Owns s i rest l
      owned same = (
        before,
        p,
        held ∙ ap some (sym same),
        (λ k n. others k (λ m. n (m ∙ sym same))),
        ran,
        ap completed (sym e ∙ (ap s.phases same ∙ phase)) ∙ is,
      )

  -- A process that is not inside goes on, and the holder stays.
  Serial-quiet :
      (s : Processes S D L) (i : ℕ) (a : Phase D L) (u : S)
      → Serial s
      → IsOut (s.phases i)
      → IsOut a
      → x.holder u ≡ x.holder s.system
      → Serial
          (record { system = u; shared = s.shared; phases = set i a s.phases; entered = s.entered })
  Serial-quiet s i a u (inl (free, out, is)) o o₁ same =
      inl (same ∙ free, (λ j. set-All (λ b. IsOut b) i j a s.phases o₁ (out j)), is)
  Serial-quiet s i a u (inr (j, fd, rest, l, phase, (before, p, held, others, ran, is))) o o₁ same =
      inr (
        j,
        fd,
        rest,
        l,
        set-other i j a s.phases
              (λ e. not_inside _ (subst (λ n. IsOut (s.phases n)) (sym e) o) phase)
            ∙ phase,
        (
          before,
          p,
          same ∙ held,
          (λ k n. set-All (λ b. IsOut b) i k a s.phases o₁ (others k n)),
          ran,
          is,
        ),
      )

  Serial-waits :
      (s : Processes S D L) (u : S)
      → Serial s
      → x.holder u ≡ x.holder s.system
      → Serial (record { system = u; shared = s.shared; phases = s.phases; entered = s.entered })
  Serial-waits s u (inl (free, out, is)) same = inl (same ∙ free, out, is)
  Serial-waits s u (inr (j, fd, rest, l, phase, (before, p, held, others, ran, is))) same =
      inr (j, fd, rest, l, phase, (before, p, same ∙ held, others, ran, is))

  Serial-locks :
      (s : Processes S D L) (i fd : ℕ) (p : Section D L) (u : S)
      → Serial s
      → IsOut (s.phases i)
      → (x.holder s.system ≡ none) ⊎ (x.holder s.system ≡ some i)
      → x.holder u ≡ some i
      → Serial (record {
        system = u;
        shared = s.shared;
        phases = set i (inside fd p.steps p.start) s.phases;
        entered = s.entered ++ p ∷ [];
      })
  Serial-locks s i fd p u v o (inr held) now = absurd (holder-IsOut s i v o held)
  Serial-locks s i fd p u (inr (j, fd', rest, l, phase, (before, q, held, others, ran, is))) o
        (inl free) now =
      let z : (◌≡◌ {A = Option ℕ} none (some j)) = sym free ∙ held in cc
  Serial-locks s i fd p u (inl (_, out, is)) o (inl free) now = inr (
    i,
    fd,
    p.steps,
    p.start,
    set-same i _ s.phases,
    (
      s.entered,
      p,
      now,
      (λ j n.
          subst (λ b. IsOut b) (sym (set-other i j (inside fd p.steps p.start) s.phases n))
            (out j)),
      refl,
      ap (at_once p) is,
    ),
  )

  Serial-works :
      (s : Processes S D L) (i fd : ℕ) (f : D × L → D × L) (rest : List (D × L → D × L)) (l : L)
      → Owns s i (f ∷ rest) l
      → Serial (record {
        system = s.system;
        shared = (f (s.shared, l)).0;
        phases = set i (inside fd rest (f (s.shared, l)).1) s.phases;
        entered = s.entered;
      })
  Serial-works s i fd f rest l (before, p, held, others, ran, is) = inr (
    i,
    fd,
    rest,
    (f (s.shared, l)).1,
    set-same i _ s.phases,
    (
      before,
      p,
      held,
      (λ j n.
          subst (λ b. IsOut b) (sym (set-other i j (inside fd rest (f (s.shared, l)).1) s.phases n))
            (others j n)),
      ran,
      ap (λ r. r.0) (sym (perform-cons f rest (s.shared, l))) ∙ is,
    ),
  )

  Serial-leaves :
      (s : Processes S D L) (i fd : ℕ) (l : L)
      → Owns s i [] l
      → Serial (record {
        system = (release (os i) (some fd) s.system).1;
        shared = s.shared;
        phases = set i outside s.phases;
        entered = s.entered;
      })
  unfolding perform
  Serial-leaves s i fd l (before, p, held, others, ran, is) = inl (
    release-holder os x i fd s.system held,
    out,
    is ∙ (sym (in_order-append before p d₀) ∙ ap (λ ps. in_order ps d₀) (sym ran)),
  )
    where
      out : (j : ℕ) → IsOut (set i outside s.phases j)
      out j = elim (Bool-cases (nat_eq i j)) [
        | inl y ↦ rw y tt
        | inr y ↦ rw y (others j (λ k. ground arith))
      ]

  Serial-Step : (s t : Processes S D L) → Step os s t → Serial s → Serial t
  Serial-Step s t (opens _ i fd deadline path p u phase e) v =
      Serial-quiet s i (waiting fd deadline p) u v (IsOut-outside _ phase) tt
        (ap (λ r. x.holder r.1) (sym e) ∙ x.opened i path s.system)
  Serial-Step s t (locks _ i fd deadline p u phase e) v =
      let (free, now) = wait_for-Polled os x i fd deadline s.system (locked, u) e in
      Serial-locks s i fd p u v (IsOut-waiting _ phase) free now
  Serial-Step s t (waits _ i fd deadline p u phase e) v =
      Serial-waits s u v (wait_for-Polled os x i fd deadline s.system (unfinished, u) e)
  Serial-Step s t (gives_up _ i fd deadline p u phase e) v =
      let same = wait_for-Polled os x i fd deadline s.system (expired, u) e in
      Serial-quiet s i outside ((os i).close fd u) v (IsOut-waiting _ phase) tt (
        x.closed_other i fd u (λ k. holder-IsOut s i v (IsOut-waiting _ phase) (sym same ∙ k))
        ∙ same)
  Serial-Step s t (works _ i fd f rest l phase) v =
      Serial-works s i fd f rest l (inside-Owns s i fd (f ∷ rest) l v phase)
  Serial-Step s t (leaves _ i fd l phase) v =
      Serial-leaves s i fd l (inside-Owns s i fd [] l v phase)

  pub Serial-Steps : (s t : Processes S D L) → Steps os s t → Serial s → Serial t
  Serial-Steps s t (done _) v = v
  Serial-Steps s t (further _ u _ before step) v = Serial-Step u t step (Serial-Steps s u before v)
