-- ===== src/Contracts/Load.antt =====
-- src/jvc/contracts.py: `load_contract`.
use jvc_core.Base.{
  ℕ, zero, suc, ◌+◌, ◌-◌, ◌&&◌, Option, none, some, List, [], ◌∷◌, Text, codes, length, starts_with,
  ends_with, strip, nat_eq, if◌then◌else◌,
}
use jvc_core.Exec.{Result, ok, err}
use jvc_core.Contracts.Json.{Json, obj, Fields, Fault, ◌>>=◌, item, value}
use jvc_core.Contracts.Validate.{Issue, Paths, validate_contract}

pub data LoadError : Type 0 where
  cannot_read bad_block invalid_json not_an_object : LoadError
  invalid_contract : List Issue → LoadError
  raised : Fault → LoadError

pub record ExecutionContract : Type 0 where
  pub schema_version : Json
  pub project_id : Json
  pub cwd : Json
  pub persistence : Json
  pub privacy : Json
  pub permission_class : Json
  pub runtime : Json
  pub preflight : Json
  pub verify : Json
  pub write_policy : Json

abbrev pub start_marker : Text
start_marker = codes "<!-- ICM_EXECUTION_START -->"

abbrev pub end_marker : Text
end_marker = codes "<!-- ICM_EXECUTION_END -->"

-- `s.count(t)`, with the characters still to be skipped of the last occurrence.
unfoldable pub count_skip : ℕ → Text → Text → ℕ
count_skip n t [] = 0
count_skip (suc n) t (c ∷ s) = count_skip n t s
count_skip zero t (c ∷ s) =
    let within = count_skip (length t - 1) t s in
    let next = count_skip zero t s in if starts_with t (c ∷ s) then suc within else next

abbrev pub drop : ℕ → Text → Text
drop zero s = s
drop (suc n) [] = []
drop (suc n) (c ∷ s) = drop n s

-- `s.split(t, 1)[1]`, for a text that has the separator
unfoldable pub after_first : Text → Text → Text
after_first t [] = []
after_first t (c ∷ s) =
    let rest = after_first t s in if starts_with t (c ∷ s) then drop (length t) (c ∷ s) else rest

-- `s.split(t, 1)[0]`
unfoldable pub before_first : Text → Text → Text
before_first t [] = []
before_first t (c ∷ s) =
    let rest = before_first t s in if starts_with t (c ∷ s) then [] else c ∷ rest

abbrev pub take : ℕ → Text → Text
take zero s = []
take (suc n) [] = []
take (suc n) (c ∷ s) = c ∷ take n s

-- `s[a:-b]`
abbrev pub slice : ℕ → ℕ → Text → Text
slice a b s = take (length s - (a + b)) (drop a s)

abbrev pub unfenced : Text → Text
unfenced body =
    if starts_with (codes "```json") body && ends_with (codes "```") body
    then strip (slice 7 3 body)
    else if starts_with (codes "```") body && ends_with (codes "```") body
    then strip (slice 3 3 body)
    else body

unfoldable pub block_of : Text → Option Text
unfolding count_skip after_first before_first
block_of text =
    if nat_eq (count_skip 0 start_marker text) 1 && nat_eq (count_skip 0 end_marker text) 1
    then some (unfenced (strip (before_first end_marker (after_first start_marker text))))
    else none

abbrev pub fields_read : Fields → Result Fault ExecutionContract
fields_read fs = do
  schema_version ← item (codes "schema_version") fs
  project_id ← item (codes "project_id") fs
  cwd ← item (codes "cwd") fs
  persistence ← item (codes "persistence") fs
  privacy ← item (codes "privacy") fs
  permission_class ← item (codes "permission_class") fs
  runtime ← item (codes "runtime") fs
  write_policy ← item (codes "write_policy") fs
  ok (record {
    schema_version = schema_version;
    project_id = project_id;
    cwd = cwd;
    persistence = persistence;
    privacy = privacy;
    permission_class = permission_class;
    runtime = runtime;
    preflight = value (codes "preflight") fs;
    verify = value (codes "verify") fs;
    write_policy = write_policy;
  })

abbrev pub raising : {A : Type 0} → Result Fault A → Result LoadError A
raising (ok a) = ok a
raising (err e) = err (raised e)

abbrev pub when_valid : Fields → List Issue → Result LoadError ExecutionContract
when_valid fs [] = raising (fields_read fs)
when_valid fs (i ∷ issues) = err (invalid_contract (i ∷ issues))

abbrev pub load_value : Paths → Option Json → Result LoadError ExecutionContract
load_value p none = err invalid_json
load_value p (some (obj fs)) = raising (validate_contract p none none (obj fs)) >>= when_valid fs
load_value p (some v) = err not_an_object

abbrev pub load_block :
    Paths → (Text → Option Json) → Option Text → Result LoadError ExecutionContract
load_block p loads none = err bad_block
load_block p loads (some body) = load_value p (loads body)

-- With `json.loads`, which is none for what is no JSON, and the text of the file, if it can be read.
unfoldable pub load_contract :
    Paths → (Text → Option Json) → Option Text → Result LoadError ExecutionContract
unfolding block_of
load_contract p loads none = err cannot_read
load_contract p loads (some text) = load_block p loads (block_of text)
