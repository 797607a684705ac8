-- ===== src/Contracts/Loaded.antt =====
-- A contract is loaded exactly if the file has one block, with a valid contract in it.
use jvc_core.Base.{◌≡◌, ◌↔◌, refl, sym, ap, ◌∙◌, Option, none, some, List, [], ◌∷◌, Text, codes}
use jvc_core.Exec.{Result, ok, err}
use jvc_core.Contracts.Json.{Json, obj, Fields, Fault, value}
use jvc_core.Contracts.Validate.{Issue, Paths, validate_contract}
use jvc_core.Contracts.Shape.{IsContract}
use jvc_core.Contracts.Parts.{bind-ok, ok-injective}
use jvc_core.Contracts.Accepted.{validate_contract_iff}
use jvc_core.Contracts.Load.{
  ExecutionContract, block_of, fields_read, raising, when_valid, load_value, load_block,
  load_contract,
}

-- The fields of a contract.
abbrev pub contract_of : Fields → ExecutionContract
contract_of fs = record {
  schema_version = value (codes "schema_version") fs;
  project_id = value (codes "project_id") fs;
  cwd = value (codes "cwd") fs;
  persistence = value (codes "persistence") fs;
  privacy = value (codes "privacy") fs;
  permission_class = value (codes "permission_class") fs;
  runtime = value (codes "runtime") fs;
  preflight = value (codes "preflight") fs;
  verify = value (codes "verify") fs;
  write_policy = value (codes "write_policy") fs;
}

fields_read-IsContract :
    (p : Paths) (fs : Fields) → IsContract p none none fs → fields_read fs ≡ ok (contract_of fs)
fields_read-IsContract p fs i =
    let (project, e₁, n₁) = i.project in
    let (cwd, e₂, n₂) = i.cwd in
    let (persistence, e₃, n₃) = i.persistence in
    let (privacy, e₄, n₄) = i.privacy in
    let (permission, e₅, n₅) = i.permission in
    let (policy, e₆, n₆) = i.write_policy in
    let (runtime, e₇, n₇) = i.runtime in rw (i.schema, e₁, e₂, e₃, e₄, e₅, e₆, e₇) refl

module _ (p : Paths) (loads : Text → Option Json) (c : ExecutionContract) where
  abbrev pub Loads : Option Text → Type 0
  Loads file =
      (text body : Text) × (fs : Fields) × (file ≡ some text)
      × (block_of text ≡ some body)
      × (loads body ≡ some (obj fs))
      × IsContract p none none fs
      × (c ≡ contract_of fs)

  raising-ok : {A : Type 0} (r : Result Fault A) (a : A) → raising r ≡ ok a → r ≡ ok a
  raising-ok (ok b) a k = ok-cong (ok-injective k)
    where
      ok-cong : b ≡ a → ◌≡◌ {A = Result Fault _} (ok b) (ok a)
      ok-cong e = ap ok e
  raising-ok (err e) a k = cc

  when_valid-nil :
      (fs : Fields) (is : List Issue)
      → when_valid fs is ≡ ok c
      → (is ≡ []) × (fields_read fs ≡ ok c)
  when_valid-nil fs [] k = (refl, raising-ok (fields_read fs) c k)
  when_valid-nil fs (i ∷ is) k = cc

  load_value-ok :
      (v : Option Json)
      → load_value p v ≡ ok c
      → (fs : Fields) × (v ≡ some (obj fs)) × IsContract p none none fs × (c ≡ contract_of fs)
  load_value-ok none k = cc
  load_value-ok (some (obj fs)) k =
      let (is, k₁, r₁) = bind-ok (raising (validate_contract p none none (obj fs))) _ c k in
      let (none_left, read) = when_valid-nil fs is r₁ in
      let valid = (validate_contract_iff p none none fs).0 (raising-ok _ is k₁ ∙ ap ok none_left) in
      (fs, refl, valid, ok-injective (sym read ∙ fields_read-IsContract p fs valid))
  load_value-ok (some Json.null) k = cc
  load_value-ok (some (Json.bool b)) k = cc
  load_value-ok (some (Json.int b)) k = cc
  load_value-ok (some (Json.real b)) k = cc
  load_value-ok (some (Json.str b)) k = cc
  load_value-ok (some (Json.arr b)) k = cc

  load_contract-ok : (file : Option Text) → load_contract p loads file ≡ ok c → Loads file
  unfolding load_contract
  load_contract-ok none k = cc
  load_contract-ok (some text) k = block (block_of text) refl k
    where
      block :
          (b : Option Text) → block_of text ≡ b → load_block p loads b ≡ ok c → Loads (some text)
      block none found k = cc
      block (some body) found k =
          let (fs, at, valid, is) = load_value-ok (loads body) k in
          (text, body, fs, refl, found, at, valid, is)

  Loads-load_contract : (file : Option Text) → Loads file → load_contract p loads file ≡ ok c
  unfolding load_contract
  Loads-load_contract file (text, body, fs, is_file, found, at, valid, is) =
      rw
        (
          is_file,
          found,
          at,
          (validate_contract_iff p none none fs).1 valid,
          fields_read-IsContract p fs valid,
        )
        (ap ok (sym is))

  -- A contract is loaded exactly if the file can be read, has one execution block, and the block
  -- holds the JSON object of a valid contract; the contract loaded then has the fields of the object,
  -- and no key is missed.
  pub load_contract_iff : (file : Option Text) → (load_contract p loads file ≡ ok c) ↔ Loads file
  load_contract_iff file = (load_contract-ok file, Loads-load_contract file)
