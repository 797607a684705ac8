-- ===== src/Exec.antt =====
-- Methods that change state and may raise: what was written before a raise stays written, so the
-- state comes back beside the error too.
use jvc_core.Base.{◌≡◌, refl, ◌⊎◌, inl, inr, Bool, true, false}

pub data Result {ℓ} (E A : Type ℓ) : Type ℓ where
  ok : A → Result E A
  err : E → Result E A

abbrev pub Exec {ℓ} : Type ℓ → Type ℓ → Type ℓ → Type ℓ
Exec E S A = S → Result E A × S

abbrev pub pure {ℓ} : {E S A : Type ℓ} → A → Exec E S A
pure a s = (ok a, s)

abbrev pub raise {ℓ} : {E S A : Type ℓ} → E → Exec E S A
raise e s = (err e, s)

abbrev pub gets {ℓ} : {E S A : Type ℓ} → (S → A) → Exec E S A
gets f s = (ok (f s), s)

abbrev pub modify : {E S : Type 0} → (S → S) → Exec E S (Unit {0})
modify f s = (ok tt, f s)

abbrev pub lift {ℓ} : {E S A : Type ℓ} → Result E A → Exec E S A
lift r s = (r, s)

abbrev pub after {ℓ} : {E S A B : Type ℓ} → (A → Exec E S B) → Result E A → S → Result E B × S
after f (ok a) s = f a s
after f (err e) s = (err e, s)

infixl 10 ◌>>=◌ ◌>>◌
abbrev pub ◌>>=◌ {ℓ} : {E S A B : Type ℓ} → Exec E S A → (A → Exec E S B) → Exec E S B
◌>>=◌ m f s = let (r, s') = m s in after f r s'

abbrev pub ◌>>◌ : {E S B : Type 0} → Exec E S (Unit {0}) → Exec E S B → Exec E S B
m >> n = m >>= λ _. n

-- `if not test: raise e`
abbrev pub guard : {E S : Type 0} → Bool → E → Exec E S (Unit {0})
guard true e s = (ok tt, s)
guard false e s = (err e, s)

-- A split that keeps its equation.
pub Result-cases {ℓ} :
    {E A : Type ℓ} (r : Result E A) → ((a : A) × (r ≡ ok a)) ⊎ ((e : E) × (r ≡ err e))
Result-cases (ok a) = inl (a, refl)
Result-cases (err e) = inr (e, refl)

-- Inversion of a chain.
after-ok :
    {E S A B : Type 0} (f : A → Exec E S B) (r : Result E A × S) (s' : S) (b : B)
    → after f r.0 r.1 ≡ (ok b, s')
    → (a : A) × (t : S) × (r ≡ (ok a, t)) × (f a t ≡ (ok b, s'))
after-ok f (ok a, t) s' b k = (a, t, refl, k)
after-ok f (err x, t) s' b k = cc

pub bind-ok :
    {E S A B : Type 0} (m : Exec E S A) (f : A → Exec E S B) (s s' : S) (b : B)
    → (m >>= f) s ≡ (ok b, s')
    → (a : A) × (t : S) × (m s ≡ (ok a, t)) × (f a t ≡ (ok b, s'))
bind-ok m f s s' b k = after-ok f (m s) s' b k

pub guard-ok :
    {E S : Type 0} (b : Bool) (x : E) (s t : S) (u : Unit {0})
    → guard b x s ≡ (ok u, t)
    → (b ≡ true) × (t ≡ s)
guard-ok true x s t u k = (refl, cc)
guard-ok false x s t u k = cc

pub lift-ok :
    {E S A : Type 0} (r : Result E A) (s t : S) (a : A)
    → lift r s ≡ (ok a, t)
    → (r ≡ ok a) × (t ≡ s)
lift-ok r s t a k = (cc, cc)
