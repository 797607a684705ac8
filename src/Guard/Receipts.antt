-- ===== src/Guard/Receipts.antt =====
-- What `receipt` says of the files.
use jvc_core.Base.{◌≡◌, refl, inl, inr, true, List, [], ◌∷◌, Text, Bytes, Bool-cases}
use jvc_core.Exec.{ok, Result-cases}
use jvc_core.Guard.Manifest.{Entry, Manifest, Receipt, Host, applied, is_text}
use jvc_core.Guard.Validate.{is_strict, validate_entries}
use jvc_core.Guard.Files.{
  Store, node, exists, read_bytes, read_json, parse_content, check_output_path, content_of, screen,
}
use jvc_core.Boundaries.Targets.{relative_to}
use jvc_core.Guard.Apply.{
  Failure, Findings, passed, check_postimages, receipt, complete, decide, receipt_of,
}
use jvc_core.Guard.Postimages.{All, Written, check_postimages-Written}

module _ (h : Host) (root : Text) where
  -- What a passed receipt says: the manifest on the disk was valid and applied, and all of its
  -- entries are written.
  pub record Completed (s : Store) (path : Text) (m : Manifest) : Type 0 where
    pub entries : List Entry
    pub read : parse_content h (node h s path) ≡ ok m
    pub valid : validate_entries h root m ≡ ok entries
    pub was_applied : is_text applied m.lifecycle_state ≡ true
    pub written : All (Written h root s (is_strict m)) entries

  decide-passed :
      (path output : Text) (before : Bytes) (m : Manifest) (found : Findings) (fs : List Failure)
      (s : Store) (r : Receipt) (s' : Store)
      → decide h root path output before m found fs s ≡ (ok (passed r), s')
      → (fs ≡ []) × (complete h root path output before m found s ≡ (ok (passed r), s'))
  decide-passed path output before m found [] s r s' e = (refl, e)
  decide-passed path output before m found (f ∷ fs) s r s' e = cc

  -- The part of `receipt` below the manifest that is read.
  valid-Completed :
      (path output : Text) (before : Bytes) (m : Manifest) (s : Store) (r : Receipt) (s' : Store)
      → parse_content h (node h s path) ≡ ok m
      → receipt_of h root path output before m s ≡ (ok (passed r), s')
      → Completed s path m
  unfolding receipt_of
  valid-Completed path output before m s r s' read e =
      elim (Result-cases (validate_entries h root m)) [
        | inl (entries, v) ↦
            let e₁ = rw v at e in
            elim (Bool-cases (is_text applied m.lifecycle_state)) [
              | inl a ↦
                  let e₂ = rw a at e₁ in
                  elim (Result-cases (check_postimages h root s (is_strict m) entries)) [
                    | inl (found, c) ↦ record {
                      entries = entries;
                      read = read;
                      valid = v;
                      was_applied = a;
                      written =
                          check_postimages-Written h root s (is_strict m) entries found c
                            (decide-passed path output before m found found.failures s r s'
                              (rw c at e₂)).0;
                    }
                    | inr (x, c) ↦ let e₃ = rw c at e₂ in cc
                  ]
              | inr a ↦ let e₂ = rw a at e₁ in cc
            ]
        | inr (x, v) ↦ let e₁ = rw v at e in cc
      ]

  -- A passed receipt means that the manifest on the disk was valid and applied, and that each of
  -- its entries stands for a file, whose content has the hash that was bound to the entry, if one
  -- was; under strict-write every file that was there before has changed.
  pub receipt-Completed :
      (path output : Text) (s : Store) (r : Receipt) (s' : Store)
      → receipt h root path output s ≡ (ok (passed r), s')
      → (m : Manifest) × Completed s path m
  unfolding receipt check_output_path read_bytes read_json
  receipt-Completed path output s r s' e =
      elim (Result-cases (screen h (relative_to (h.resolve output) root))) [
        | inl (_, k) ↦
            let e₁ = rw k at e in
            elim (Bool-cases (exists h s output)) [
              | inl t ↦ let e₂ = rw t at e₁ in cc
              | inr t ↦
                  let e₂ = rw t at e₁ in
                  elim (Result-cases (content_of (node h s path))) [
                    | inl (before, b) ↦
                        let e₃ = rw b at e₂ in
                        elim (Result-cases (parse_content h (node h s path))) [
                          | inl (m, p) ↦
                              (m, valid-Completed path output before m s r s' p (rw p at e₃))
                          | inr (x, p) ↦ let e₄ = rw p at e₃ in cc
                        ]
                    | inr (x, b) ↦ let e₃ = rw b at e₂ in cc
                  ]
            ]
        | inr (x, k) ↦ let e₁ = rw k at e in cc
      ]
