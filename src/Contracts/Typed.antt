-- ===== src/Contracts/Typed.antt =====
-- The operations on a contract that is valid: nothing of the wrong type is met.
use jvc_core.Base.{
  ℕ, zero, suc, ◌≡◌, ◌≢◌, refl, inl, inr, Bool, true, false, ◌&&◌, ◌||◌, Option, none, some, List,
  [], ◌∷◌, ◌++◌, map, Text, codes, ◌==◌, contains, is_empty, has_infix, strip, Bool-cases,
  if◌then◌else◌,
}
use jvc_core.Exec.{Result, ok, err}
use jvc_core.Contracts.Json.{ℤ, pos, Json, Fields, Fault, ◌>>=◌, items_of, is_false, value, text_of}
use jvc_core.Contracts.Validate.{Paths}
use jvc_core.Contracts.Shape.{str_items, HasText, IsCheck, IsDeclared, IsContract}
use jvc_core.Contracts.Verdict.{
  Applicability, configured, exempt, without_check, check_applicability,
}
use jvc_core.Contracts.Expand.{expand, expand_all, command_args, command_argv}
use jvc_core.Contracts.Runtime.{
  Process, finished, timed_out, failed_to_start, undecodable_output, null_in_argument, raises,
  Machine, Runtime,
}
use jvc_core.Contracts.Check.{
  executed_run, failed_run, combine, equals_code, judge, report, start, runtime_argv,
  run_configured,
}

-- The command of texts.
abbrev pub command : (Text → Text) → Text → List Text → List Text → List Text
command expandvars root runtime [] = []
command expandvars root runtime (t ∷ ts) =
    (if t == codes "{runtime}" then runtime else expand expandvars root t ∷ [])
    ++ command expandvars root runtime ts

pub expand_all-texts :
    (expandvars : Text → Text) (root : Text) (ts : List Text)
    → expand_all expandvars root (items_of (str_items ts)) ≡ ok (map (expand expandvars root) ts)
unfolding expand_all
expand_all-texts expandvars root [] = refl
expand_all-texts expandvars root (t ∷ ts) = rw (expand_all-texts expandvars root ts) refl

command_args-texts :
    (expandvars : Text → Text) (root : Text) (runtime ts : List Text)
    → command_args expandvars root runtime (items_of (str_items ts))
      ≡ ok (command expandvars root runtime ts)
unfolding command_args text_of
command_args-texts expandvars root runtime [] = refl
command_args-texts expandvars root runtime (t ∷ ts) = elim (Bool-cases (t == codes "{runtime}")) [
  | inl e ↦ rw (e, command_args-texts expandvars root runtime ts) refl
  | inr e ↦ rw (e, command_args-texts expandvars root runtime ts) refl
]

-- The verdict on a process that ends.
abbrev pub passes : ℤ → Text → Text → Bool
passes code needle combined =
    equals_code code (Json.int (pos zero)) && (is_empty needle || has_infix needle combined)

abbrev pub reported : Text → List Text → Text → Process → Fields
reported name argv needle (finished code out error) =
    executed_run name argv code (passes code needle (combine (strip out) (strip error)))
reported name argv needle _ = failed_run name argv

-- What is returned, unless an exception is raised.
abbrev pub unless : Option Fault → Fields → Result Fault Fields
unless none r = ok r
unless (some e) r = err e

module _ (m : Machine) (root name : Text) (runtime : Runtime) (c : Fields) (i : IsCheck c) where
  abbrev pub check_argv : List Text
  check_argv = command m.expandvars root (runtime_argv runtime) i.argv

  command_argv-IsCheck : command_argv m.expandvars root (runtime_argv runtime) c ≡ ok check_argv
  unfolding command_argv
  command_argv-IsCheck =
      rw i.argv_at (command_args-texts m.expandvars root (runtime_argv runtime) i.argv)

  judge-IsCheck :
      (code : ℤ) (combined : Text)
      → judge m root name check_argv code combined c
        ≡ ok (executed_run name check_argv code (passes code i.needle combined))
  judge-IsCheck code combined =
      rw (i.contains_at, i.exit_at) (judged (equals_code code (Json.int (pos zero))))
    where
      judged :
          (b : Bool)
          → ◌>>=◌ {E = Fault}
              (if b then ok (is_empty i.needle || has_infix i.needle combined) else ok false)
              (λ in_output. ok (executed_run name check_argv code in_output))
            ≡ ok (
                executed_run name check_argv code
                  (b && (is_empty i.needle || has_infix i.needle combined)))
      judged true = refl
      judged false = refl

  report-IsCheck :
      (p : Process)
      → report m root name c check_argv p ≡ unless (raises p) (reported name check_argv i.needle p)
  report-IsCheck (finished code out error) = judge-IsCheck code _
  report-IsCheck timed_out = refl
  report-IsCheck failed_to_start = refl
  report-IsCheck undecodable_output = refl
  report-IsCheck null_in_argument = refl

  start-some : (argv : List Text) (n : ℕ) → argv ≢ [] → start m root argv n ≡ ok (m.run argv n)
  start-some [] n k = absurd (k refl)
  start-some (a ∷ rest) n k = refl

  -- A check that is valid runs its command, and reports or raises what the process comes to.
  pub run_configured-IsCheck :
      check_argv ≢ []
      → run_configured m root name runtime c
        ≡ unless
            (raises (m.run check_argv (suc i.seconds)))
            (reported name check_argv i.needle (m.run check_argv (suc i.seconds)))
  unfolding run_configured
  run_configured-IsCheck k =
      rw (command_argv-IsCheck, i.timeout_at, start-some check_argv (suc i.seconds) k)
        (report-IsCheck (m.run check_argv (suc i.seconds)))

-- The applicability of a declared check is decided.
exempted :
    (fs : Fields) (xs : List Text)
    → HasText (codes "permission_class") (λ s. contains s xs ≡ true) fs
    → (a : Applicability) × (without_check fs ≡ ok a)
exempted fs xs (s, at, known) =
    (exempt fs (contains s (codes "docs-only" ∷ codes "private-structure-only" ∷ [])), rw at refl)

pub check_applicability-total :
    (p : Paths) (id root : Option Text) (fs : Fields) (name : Text)
    → IsContract p id root fs
    → IsDeclared name fs
    → (a : Applicability) × (check_applicability fs name ≡ ok a)
unfolding check_applicability
check_applicability-total p id root fs name i (inl at) =
    let (a, e) = exempted fs _ i.permission in (a, rw at e)
check_applicability-total p id root fs name i (inr (c, at, check)) =
    elim (Bool-cases (is_false (value (codes "applicable") c))) [
      | inl e ↦ let (a, e') = exempted fs _ i.permission in (a, rw at (rw e e'))
      | inr e ↦ (configured, rw at (rw e refl))
    ]
