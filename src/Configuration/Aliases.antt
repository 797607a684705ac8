-- ===== src/Configuration/Aliases.antt =====
-- What the loop over the aliases of a route does.
use jvc_core.Base.{
  ◌≡◌, ◌≢◌, refl, sym, ap, ◌∙◌, ◌⊎◌, inl, inr, Bool, true, false, some, List, [], ◌∷◌, ◌++◌, Text,
  Dict, ◌==◌, eq_iff, contains, get, put, get-put, Bool-cases, if◌then◌else◌,
}
use jvc_core.Configuration.Validate.{RegistryIssue, flag_unless, taken, alias_issues, own_aliases}

pub append-nil : {A : Type 0} (xs ys : List A) → (xs ++ ys) ≡ [] → (xs ≡ []) × (ys ≡ [])
append-nil [] ys k = (refl, k)
append-nil (x ∷ xs) ys k = cc

pub flag_unless-nil : (b : Bool) (i : RegistryIssue) → flag_unless b i ≡ [] → b ≡ true
flag_unless-nil true i k = refl
flag_unless-nil false i k = cc

-- A route is in the list.
abbrev pub IsIn : {A : Type 0} → A → List A → Type 0
IsIn a [] = ⊥
IsIn a (b ∷ bs) = (a ≡ b) ⊎ IsIn a bs

abbrev pub Distinct : List Text → Type 0
Distinct [] = Unit
Distinct (s ∷ ss) = (contains s ss ≡ false) × Distinct ss

-- The alias loop.
taken-nil : (id a o : Text) → taken id a (some o) ≡ [] → o ≢ [] → id ≡ o
taken-nil id a [] k n = absurd (n refl)
taken-nil id a (c ∷ o) k n = elim (Bool-cases ((c ∷ o) == id)) [
  | inl y ↦ sym ((eq_iff (c ∷ o) id).0 y)
  | inr y ↦ let k₁ = rw y at k in cc
]

own_aliases-get :
    (id a : Text) (aliases : Dict Text) (xs : List Text)
    → get a aliases ≡ some id
    → get a (own_aliases id aliases xs) ≡ some id
unfolding own_aliases
own_aliases-get id a aliases [] e = e
own_aliases-get id a aliases (b ∷ xs) e =
    own_aliases-get id a (put b id aliases) xs (rw (get-put b a id aliases) (put_one (b == a)))
  where
    put_one : (y : Bool) → (if y then some id else get a aliases) ≡ some id
    put_one true = refl
    put_one false = e

pub own_aliases-IsIn :
    (id a : Text) (aliases : Dict Text) (xs : List Text)
    → IsIn a xs
    → get a (own_aliases id aliases xs) ≡ some id
unfolding own_aliases
own_aliases-IsIn id a aliases [] i = absurd i
own_aliases-IsIn id a aliases (b ∷ xs) (inl e) =
    own_aliases-get id a (put b id aliases) xs
      (rw (get-put b a id aliases, (eq_iff b a).1 (sym e)) refl)
own_aliases-IsIn id a aliases (b ∷ xs) (inr i) = own_aliases-IsIn id a (put b id aliases) xs i

-- An alias that has an owner keeps it, and only its owner may have it.
pub alias_issues-owner :
    (id a o : Text) (aliases : Dict Text) (xs : List Text)
    → alias_issues id aliases xs ≡ []
    → o ≢ []
    → get a aliases ≡ some o
    → (get a (own_aliases id aliases xs) ≡ some o) × (IsIn a xs → id ≡ o)
unfolding alias_issues own_aliases
alias_issues-owner id a o aliases [] k n e = (e, λ i. absurd i)
alias_issues-owner id a o aliases (b ∷ xs) k n e =
    let (k₁, k₂) = append-nil (taken id b (get b aliases)) _ k in
    elim (Bool-cases (b == a)) [
      | inl y ↦
          let same : (b ≡ a) = (eq_iff b a).0 y in
          let mine : (id ≡ o) = taken-nil id b o (rw (ap (λ x. get x aliases) same ∙ e) at k₁) n in
          let (kept, others) =
            alias_issues-owner id a o (put b id aliases) xs k₂ n
              (rw (get-put b a id aliases, y) (ap some mine)) in
          (kept, λ i. mine)
      | inr y ↦
          let (kept, others) =
            alias_issues-owner id a o (put b id aliases) xs k₂ n
              (rw (get-put b a id aliases, y) e) in
          (
            kept,
            λ i. elim i [
              | inl is ↦ let z : (false ≡ true) = sym y ∙ (eq_iff b a).1 (sym is) in cc
              | inr j ↦ others j
            ],
          )
    ]
