-- ===== src/Contracts/Verdicts.antt =====
-- The verdicts on the results of a check.
use jvc_core.Base.{
  ℕ, zero, suc, ◌≡◌, ◌≢◌, ◌↔◌, refl, sym, ap, ◌∙◌, inl, inr, Bool, true, false, ◌||◌, some, List,
  [], ◌∷◌, Text, codes, ◌==◌, eq_refl, contains, is_empty, has_infix, strip, nat_eq, arith,
  Bool-cases,
}
use jvc_core.Exec.{Result, ok}
use jvc_core.Contracts.Json.{ℤ, pos, negsuc, obj, Fault, lookup, int_in, text_of}
use jvc_core.Contracts.Verdict.{is_verification_satisfied}
use jvc_core.Contracts.Runtime.{
  Process, finished, timed_out, failed_to_start, undecodable_output, null_in_argument,
}
use jvc_core.Contracts.Check.{executed_run, failed_run, skipped, combine}
use jvc_core.Contracts.Typed.{reported}

-- The verdicts on the results.
pub skipped-not_applicable :
    (name : Text) (allow_na : Bool)
    → name ≢ []
    → is_verification_satisfied
        (obj (skipped (codes "NOT_APPLICABLE") name false (codes "none")))
        allow_na
        (some name)
      ≡ ok allow_na
unfolding is_verification_satisfied text_of lookup ◌==◌ contains
skipped-not_applicable [] allow_na k = absurd (k refl)
skipped-not_applicable (c ∷ name) true k = rw (eq_refl (c ∷ name)) refl
skipped-not_applicable (c ∷ name) false k = rw (eq_refl (c ∷ name)) refl

pub skipped-missing :
    (name : Text) (allow_na : Bool)
    → is_verification_satisfied
        (obj (skipped (codes "MISSING") name true (codes "configuration")))
        allow_na
        (some name)
      ≡ ok false
unfolding is_verification_satisfied text_of lookup ◌==◌ contains
skipped-missing [] allow_na = refl
skipped-missing (c ∷ name) true = rw (eq_refl (c ∷ name)) refl
skipped-missing (c ∷ name) false = rw (eq_refl (c ∷ name)) refl

pub skipped-unresolved :
    (name : Text) (allow_na : Bool)
    → is_verification_satisfied
        (obj (skipped (codes "FAIL") name true (codes "infrastructure")))
        allow_na
        (some name)
      ≡ ok false
unfolding is_verification_satisfied text_of lookup ◌==◌ contains
skipped-unresolved [] allow_na = refl
skipped-unresolved (c ∷ name) true = rw (eq_refl (c ∷ name)) refl
skipped-unresolved (c ∷ name) false = rw (eq_refl (c ∷ name)) refl

failed_run-verdict :
    (name : Text) (argv : List Text) (allow_na : Bool)
    → is_verification_satisfied (obj (failed_run name argv)) allow_na (some name) ≡ ok false
unfolding is_verification_satisfied text_of lookup ◌==◌ contains
failed_run-verdict [] argv allow_na = refl
failed_run-verdict (c ∷ name) argv true = rw (eq_refl (c ∷ name)) refl
failed_run-verdict (c ∷ name) argv false = rw (eq_refl (c ∷ name)) refl

executed_run-failed :
    (name : Text) (argv : List Text) (code : ℤ) (allow_na : Bool)
    → is_verification_satisfied (obj (executed_run name argv code false)) allow_na (some name)
      ≡ ok false
unfolding is_verification_satisfied text_of lookup ◌==◌ contains
executed_run-failed [] argv code allow_na = refl
executed_run-failed (c ∷ name) argv code true = rw (eq_refl (c ∷ name)) refl
executed_run-failed (c ∷ name) argv code false = rw (eq_refl (c ∷ name)) refl

executed_run-passed :
    (name : Text) (argv : List Text) (allow_na : Bool)
    → name ≢ []
    → is_verification_satisfied (obj (executed_run name argv (pos zero) true)) allow_na (some name)
      ≡ ok true
unfolding is_verification_satisfied text_of lookup ◌==◌ contains int_in
executed_run-passed [] argv allow_na k = absurd (k refl)
executed_run-passed (c ∷ name) argv allow_na k = rw (eq_refl (c ∷ name)) refl

-- The process ended with the code 0, and its output has the text looked for.
abbrev pub Passed : Text → Process → Type 0
Passed needle p =
    (out error : Text) × (p ≡ finished (pos zero) out error)
    × ((is_empty needle || has_infix needle (combine (strip out) (strip error))) ≡ true)

pub refuted : {X : Type 0} {r : Result Fault Bool} → r ≡ ok false → r ≡ ok true → X
refuted e e₁ = cc

pub reported-verdict :
    (name : Text) (argv : List Text) (needle : Text) (allow_na : Bool) (p : Process)
    → name ≢ []
    → (is_verification_satisfied (obj (reported name argv needle p)) allow_na (some name) ≡ ok true)
      ↔ Passed needle p
reported-verdict name argv needle allow_na timed_out k =
    (refuted (failed_run-verdict name argv allow_na), λ (out, error, e, h). cc)
reported-verdict name argv needle allow_na failed_to_start k =
    (refuted (failed_run-verdict name argv allow_na), λ (out, error, e, h). cc)
reported-verdict name argv needle allow_na undecodable_output k =
    (refuted (failed_run-verdict name argv allow_na), λ (out, error, e, h). cc)
reported-verdict name argv needle allow_na null_in_argument k =
    (refuted (failed_run-verdict name argv allow_na), λ (out, error, e, h). cc)
reported-verdict name argv needle allow_na (finished (negsuc n) out error) k =
    (refuted (executed_run-failed name argv (negsuc n) allow_na), λ (out, error, e, h). cc)
reported-verdict name argv needle allow_na (finished (pos (suc n)) out error) k = rw (not_zero n) (
  refuted (executed_run-failed name argv (pos (suc n)) allow_na),
  λ (out, error, e, h). differ n e,
)
  where
    not_zero : (n : ℕ) → nat_eq (suc n) 0 ≡ false
    not_zero n = ground arith

    differ :
        {X : Type 0} {out error out₁ error₁ : Text} (n : ℕ)
        → finished (pos (suc n)) out error ≡ finished (pos 0) out₁ error₁
        → X
    differ n e = ground arith
reported-verdict name argv needle allow_na (finished (pos zero) out error) k =
    elim (Bool-cases (is_empty needle || has_infix needle (combine (strip out) (strip error)))) [
      | inl h ↦ (λ e. (out, error, refl, h), λ z. rw h (executed_run-passed name argv allow_na k))
      | inr h ↦ (
        λ e. refuted (executed_run-failed name argv (pos zero) allow_na) (let e₁ = rw h at e in e₁),
        λ (out₁, error₁, same, found). refuted_code h same found,
      )
    ]
  where
    needed : Process → Bool
    needed (finished code out error) =
        is_empty needle || has_infix needle (combine (strip out) (strip error))
    needed _ = false

    refuted_code :
        {X : Type 0} {out error out₁ error₁ : Text}
        → needed (finished (pos zero) out error) ≡ false
        → finished (pos zero) out error ≡ finished (pos zero) out₁ error₁
        → needed (finished (pos zero) out₁ error₁) ≡ true
        → X
    refuted_code h same found = let e = sym found ∙ sym (ap needed same) ∙ h in cc
