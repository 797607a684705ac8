-- ===== src/Locks/Serial.antt =====
-- What the calls of a lock do to its holder.
use jvc_core.Base.{
  ℕ, ◌≡◌, ◌≢◌, refl, sym, ap, ◌∙◌, ◌⊎◌, inl, inr, Bool, true, false, Option, none, some, List, [],
  ◌∷◌, ◌++◌, Text, nat_eq, nat_eq_iff, leb, Bool-cases,
}
use mathlib.Core.Path.{subst}
use jvc_core.Locks.Acquire.{
  System, Wait, locked, expired, unfinished, retry, wait_for, close_unlocked, release,
}
use jvc_core.Locks.Processes.{
  Section, Phase, outside, waiting, inside, set, perform, at_once, in_order,
}

-- The lock of the system is exclusive: it is granted only if no other process holds it, and a
-- process that closes its descriptor holds it no more.
pub record Exclusive {S : Type 0} (os : ℕ → System S) : Type 0 where
  pub holder : S → Option ℕ
  pub opened : (i : ℕ) (path : Text) (s : S) → holder ((os i).open_file path s).1 ≡ holder s
  pub granted :
      (i fd : ℕ) (s : S)
      → ((os i).try_lock fd s).0 ≡ true
      → ((holder s ≡ none) ⊎ (holder s ≡ some i)) × (holder ((os i).try_lock fd s).1 ≡ some i)
  pub denied :
      (i fd : ℕ) (s : S)
      → ((os i).try_lock fd s).0 ≡ false
      → holder ((os i).try_lock fd s).1 ≡ holder s
  pub unlocked :
      (i fd : ℕ) (s : S)
      → holder s ≡ some i
      → (holder ((os i).unlock fd s).1 ≡ none) ⊎ (holder ((os i).unlock fd s).1 ≡ some i)
  pub closed : (i fd : ℕ) (s : S) → holder s ≡ some i → holder ((os i).close fd s) ≡ none
  pub closed_other : (i fd : ℕ) (s : S) → holder s ≢ some i → holder ((os i).close fd s) ≡ holder s
  pub told : (i : ℕ) (s : S) → holder ((os i).now s).1 ≡ holder s
  pub slept : (i : ℕ) (s : S) → holder ((os i).sleep s) ≡ holder s

pub set-same : {A : Type 0} (i : ℕ) (a : A) (f : ℕ → A) → set i a f i ≡ a
set-same i a f = rw ((nat_eq_iff i i).1 refl) refl

pub set-other : {A : Type 0} (i j : ℕ) (a : A) (f : ℕ → A) → j ≢ i → set i a f j ≡ f j
set-other i j a f n = elim (Bool-cases (nat_eq i j)) [
  | inl y ↦ absurd (n (sym ((nat_eq_iff i j).0 y)))
  | inr y ↦ rw y refl
]

pub perform-cons :
    {D L : Type 0} (f : D × L → D × L) (fs : List (D × L → D × L)) (x : D × L)
    → perform (f ∷ fs) x ≡ perform fs (f x)
unfolding perform
perform-cons f fs x = refl

pub in_order-append :
    {D L : Type 0} (ps : List (Section D L)) (p : Section D L) (d : D)
    → in_order (ps ++ p ∷ []) d ≡ at_once p (in_order ps d)
unfolding in_order
in_order-append [] p d = refl
in_order-append (q ∷ ps) p d = in_order-append ps p (at_once q d)

abbrev pub IsOut : {D L : Type 0} → Phase D L → Type 0
IsOut outside = Unit
IsOut (waiting fd deadline p) = Unit
IsOut (inside fd rest l) = ⊥

pub set-All :
    {A : Type 0} (P : A → Type 0) (i j : ℕ) (a : A) (f : ℕ → A) → P a → P (f j) → P (set i a f j)
set-All P i j a f pa pf = elim (Bool-cases (nat_eq i j)) [ inl y ↦ rw y pa | inr y ↦ rw y pf ]

module _ {S : Type 0} (os : ℕ → System S) (x : Exclusive os) where
  -- What one round of the wait does to the lock.
  abbrev pub Polled : ℕ → S → Wait × S → Type 0
  Polled i s (locked, u) = ((x.holder s ≡ none) ⊎ (x.holder s ≡ some i)) × (x.holder u ≡ some i)
  Polled i s (expired, u) = x.holder u ≡ x.holder s
  Polled i s (unfinished, u) = x.holder u ≡ x.holder s

  retry-Polled :
      (i fd deadline : ℕ) (s : S) (b : Bool) (t : S)
      → ((os i).try_lock fd s).0 ≡ b
      → ((os i).try_lock fd s).1 ≡ t
      → Polled i s (retry (os i) deadline (λ u. (unfinished, u)) (b, t))
  retry-Polled i fd deadline s true t e k =
      let (free, held) = x.granted i fd s e in (free, ap x.holder (sym k) ∙ held)
  retry-Polled i fd deadline s false t e k = elim (Bool-cases (leb deadline ((os i).now t).0)) [
    | inl y ↦ rw y (x.told i t ∙ same)
    | inr y ↦ rw y (x.slept i ((os i).now t).1 ∙ (x.told i t ∙ same))
  ]
    where
      same : x.holder t ≡ x.holder s
      same = ap x.holder (sym k) ∙ x.denied i fd s e

  pub wait_for-Polled :
      (i fd deadline : ℕ) (s : S) (w : Wait × S)
      → wait_for (os i) 1 deadline fd s ≡ w
      → Polled i s w
  unfolding wait_for
  wait_for-Polled i fd deadline s w e =
      subst (λ r. Polled i s r) e (retry-Polled i fd deadline s _ _ refl refl)

  pub release-holder :
      (i fd : ℕ) (s : S) → x.holder s ≡ some i → x.holder (release (os i) (some fd) s).1 ≡ none
  unfolding release
  release-holder i fd s held = closed_after ((os i).unlock fd s) (x.unlocked i fd s held)
    where
      closed :
          (u : S)
          → (x.holder u ≡ none) ⊎ (x.holder u ≡ some i)
          → x.holder ((os i).close fd u) ≡ none
      closed u (inl e) =
          x.closed_other i fd u (λ k. let z : (◌≡◌ {A = Option ℕ} none (some i)) = sym e ∙ k in cc)
          ∙ e
      closed u (inr e) = x.closed i fd u e

      closed_after :
          (r : Bool × S)
          → (x.holder r.1 ≡ none) ⊎ (x.holder r.1 ≡ some i)
          → x.holder (close_unlocked (os i) fd r).1 ≡ none
      closed_after (true, u) h = closed u h
      closed_after (false, u) h = closed u h
