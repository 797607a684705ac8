-- ===== src/Contracts/Satisfied.antt =====
-- What a check comes to, from the run to the verdict on its result.
use jvc_core.Base.{suc, ◌≡◌, ◌↔◌, ◌⊎◌, inl, inr, Bool, true, some, List, [], Text}
use jvc_core.Exec.{ok, err}
use jvc_core.Contracts.Json.{obj, Fields, Fault}
use jvc_core.Contracts.Shape.{IsDeclared}
use jvc_core.Contracts.Verdict.{
  configured, not_applicable, check_applicability, is_verification_satisfied,
}
use jvc_core.Contracts.Runtime.{raises, Machine, Runtime}
use jvc_core.Contracts.Check.{is_ready, run_check}
use jvc_core.Contracts.Typed.{check_argv}
use jvc_core.Contracts.Verdicts.{Passed}

module _ (m : Machine) (root name : Text) (fs : Fields) (runtime : Runtime) where
  -- What is run for a check that is declared.
  abbrev pub declared_argv : IsDeclared name fs → List Text
  declared_argv (inl at) = []
  declared_argv (inr (c, at, i)) = check_argv m root name runtime c i

  abbrev pub RunPassed : IsDeclared name fs → Type 0
  RunPassed (inl at) = ⊥
  RunPassed (inr (c, at, i)) =
      (is_ready runtime ≡ true)
      × Passed i.needle (m.run (check_argv m root name runtime c i) (suc i.seconds))

  -- A check is satisfied if it is exempt and may be, or if it is configured and its run has passed.
  abbrev pub IsSatisfied : Bool → IsDeclared name fs → Type 0
  IsSatisfied allow_na d =
      ((allow_na ≡ true) × (check_applicability fs name ≡ ok not_applicable))
      ⊎ ((check_applicability fs name ≡ ok configured) × RunPassed d)

  -- The check is configured, the runtime is there, and the call that runs the command raises the
  -- exception: its output cannot be decoded, or an argument has a null character.
  abbrev pub IsBroken : IsDeclared name fs → Fault → Type 0
  IsBroken (inl at) e = ⊥
  IsBroken (inr (c, at, i)) e =
      (check_applicability fs name ≡ ok configured)
      × (is_ready runtime ≡ true)
      × (raises (m.run (check_argv m root name runtime c i) (suc i.seconds)) ≡ some e)

  abbrev Judged : Bool → IsDeclared name fs → Type 0
  Judged allow_na d =
      ((r : Fields) × (run_check m root fs name runtime ≡ ok r)
        × ((is_verification_satisfied (obj r) allow_na (some name) ≡ ok true)
            ↔ IsSatisfied allow_na d))
      ⊎ ((e : Fault) × IsBroken d e × (run_check m root fs name runtime ≡ err e))
