-- ===== src/Contracts/Expand.antt =====
-- src/jvc/contracts.py: `_expand` and `command_argv`.
use jvc_core.Base.{
  ℕ, zero, suc, List, [], ◌∷◌, ◌++◌, ◌-◌, Text, codes, length, starts_with, if◌then◌else◌,
}
use jvc_core.Exec.{Result, ok, err}
use jvc_core.Contracts.Json.{
  Json, str, Fields, Fault, attribute_error, ◌>>=◌, item, iterate, is_text,
}

-- `s.replace(t, by)`, with the characters still to be skipped of the last occurrence.
unfoldable pub replace_skip : ℕ → Text → Text → Text → Text
replace_skip (suc n) t by (c ∷ s) = replace_skip n t by s
replace_skip n t by [] = []
replace_skip zero t by (c ∷ s) =
    if starts_with t (c ∷ s)
    then by ++ replace_skip (length t - 1) t by s
    else c ∷ replace_skip zero t by s

unfoldable pub replace : Text → Text → Text → Text
unfolding replace_skip
replace t by s = replace_skip zero t by s

-- With the expansion of environment variables.
unfoldable pub expand : (Text → Text) → Text → Text → Text
unfolding replace
expand expandvars root s = expandvars (replace (codes "{project_root}") root s)

abbrev pub expand_json : (Text → Text) → Text → Json → Result Fault Text
expand_json expandvars root (str s) = ok (expand expandvars root s)
expand_json expandvars root _ = err attribute_error

unfoldable pub expand_all : (Text → Text) → Text → List Json → Result Fault (List Text)
unfolding expand
expand_all expandvars root [] = ok []
expand_all expandvars root (v ∷ vs) = do
  arg ← expand_json expandvars root v
  rest ← expand_all expandvars root vs
  ok (arg ∷ rest)

abbrev pub command_arg : (Text → Text) → Text → List Text → Json → Result Fault (List Text)
command_arg expandvars root runtime v =
    if is_text v (codes "{runtime}")
    then ok runtime
    else (expand_json expandvars root v >>= λ arg. ok (arg ∷ []))

unfoldable pub command_args :
    (Text → Text) → Text → List Text → List Json → Result Fault (List Text)
unfolding expand
command_args expandvars root runtime [] = ok []
command_args expandvars root runtime (v ∷ vs) = do
  args ← command_arg expandvars root runtime v
  rest ← command_args expandvars root runtime vs
  ok (args ++ rest)

-- The arguments of a check, with those of the runtime in the place of {runtime}.
unfoldable pub command_argv : (Text → Text) → Text → List Text → Fields → Result Fault (List Text)
unfolding command_args
command_argv expandvars root runtime check = do
  argv ← item (codes "argv") check
  vs ← iterate argv
  command_args expandvars root runtime vs
