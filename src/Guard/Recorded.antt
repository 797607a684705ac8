-- ===== src/Guard/Recorded.antt =====
-- What `receipt` leaves on the disk.
use jvc_core.Base.{
  ◌≡◌, ◌⊎◌, refl, inl, inr, false, Option, none, some, put, is_some, ◌==◌, List, [], ◌∷◌, ◌++◌,
  Text, Bytes, eq_iff, eq_refl, get, get-put, Bool-cases,
}
use jvc_core.Exec.{Result, ok, err, after, ◌>>◌, pure, Result-cases}
use jvc_core.Guard.Manifest.{Manifest, Error, Host, value, verified, applied, is_text}
use jvc_core.Guard.Validate.{is_strict, validate_entries}
use jvc_core.Executor.Write.{parents_of}
use jvc_core.Guard.Made.{IsMade, Made, make_directories-Made}
use jvc_core.Guard.Lifecycle.{rewrite_manifest-ok}
use jvc_core.Guard.Files.{
  Node, file, M, make_directories, write_text, Store, node, exists, read_bytes, read_json,
  parse_content, write_new_json, rewrite_manifest, check_output_path, content_of, screen,
}
use jvc_core.Boundaries.Targets.{relative_to}
use jvc_core.Guard.Apply.{
  Failure, new_receipt, Findings, Verdict, passed, failed, check_postimages, receipt, complete,
  decide, receipt_of,
}

module _ (h : Host) (root : Text) where
  -- A path other than the output holds what it held, or is a new directory above the output.
  abbrev pub Untouched : Text → Store → Store → Type 0
  Untouched output s s' =
      (x : Text)
      → (get x s'.disk ≡ get x s.disk) ⊎ IsMade (h.resolve output) s s' x ⊎ (h.resolve output ≡ x)

  -- The result is a pass that stands in its file, or a FAIL and nothing has changed, or an error that
  -- has changed nothing but the output.
  abbrev pub Recorded : Text → Store → Result Error Verdict × Store → Type 0
  Recorded output s (ok (passed r), s') =
      (b : Bytes) × (h.indented_receipt r ≡ some b)
      × (get (h.resolve output) s'.disk ≡ some (file (b ++ 10 ∷ [])))
  Recorded output s (ok (failed fs cs), s') = s' ≡ s
  Recorded output s (err x, s') = Untouched output s s'

  same-Untouched : (output : Text) (s : Store) → Untouched output s s
  same-Untouched output s x = inl refl

  put-Untouched :
      (output : Text) (b : Bytes) (s s₁ : Store)
      → ((x : Text) → Made (h.resolve output) s s₁ x)
      → Untouched output s (record s₁ { disk = put (h.resolve output) (file b) s₁.disk })
  put-Untouched output b s s₁ made x = elim (Bool-cases (h.resolve output == x)) [
    | inl y ↦ inr (inr ((eq_iff _ x).0 y))
    | inr n ↦ rw (get-put (h.resolve output) x (file b) s₁.disk, n) (add_output (made x))
  ]
    where
      add_output : {P Q R : Type 0} → P ⊎ Q → P ⊎ Q ⊎ R
      add_output (inl a) = inl a
      add_output (inr a) = inr (inl a)

  taken : (o : Option Node) (b : Bytes) → content_of o ≡ ok b → is_some o ≡ false → ⊥
  taken none b k f = cc
  taken (some n) b k f = cc

  missing : (o : Option Node) (b : Bytes) → o ≡ none → content_of o ≡ ok b → ⊥
  missing none b e k = cc
  missing (some n) b e k = cc

  -- The manifest, which is there, is not at the output, which is free.
  pub outputs-differ :
      (path output : Text) (before : Bytes) (s : Store)
      → exists h s output ≡ false
      → content_of (node h s path) ≡ ok before
      → (h.resolve path == h.resolve output) ≡ false
  outputs-differ path output before s free there =
      elim (Bool-cases (h.resolve path == h.resolve output)) [
        | inr n ↦ n
        | inl y ↦
            let same = (eq_iff (h.resolve path) (h.resolve output)).0 y in
            absurd (taken (get (h.resolve path) s.disk) before there (rw same free))
      ]

  -- The manifest is still there once the output is written.
  pub written-there :
      (path output : Text) (before b : Bytes) (s s₁ : Store)
      → ((x : Text) → Made (h.resolve output) s s₁ x)
      → exists h s output ≡ false
      → content_of (node h s path) ≡ ok before
      → content_of (get (h.resolve path) (put (h.resolve output) (file b) s₁.disk)) ≡ ok before
  written-there path output before b s s₁ made free there =
      elim (Bool-cases (h.resolve output == h.resolve path)) [
        | inl y ↦
            let same = (eq_iff (h.resolve output) (h.resolve path)).0 y in
            absurd (taken (get (h.resolve path) s.disk) before there (rw (← same) free))
        | inr n ↦
            rw (get-put (h.resolve output) (h.resolve path) (file b) s₁.disk, n)
              (kept (made (h.resolve path)))
      ]
    where
      kept :
          Made (h.resolve output) s s₁ (h.resolve path)
          → content_of (get (h.resolve path) s₁.disk) ≡ ok before
      kept (inl same) = rw same there
      kept (inr (_, free_there, _)) =
          absurd (missing (get (h.resolve path) s.disk) before free_there there)

  abbrev close : Text → Bytes → Manifest → Findings → Result Error (Unit {0}) → M Verdict
  close path before m found = after (λ _.
      rewrite_manifest h path before (record m { lifecycle_state = value verified })
      >> pure (passed (new_receipt h root m found)))

  texted-Recorded :
      (path output : Text) (before : Bytes) (m : Manifest) (found : Findings) (s s₁ : Store)
      (document : Option Bytes)
      → h.indented_receipt (new_receipt h root m found) ≡ document
      → ((x : Text) → Made (h.resolve output) s s₁ x)
      → exists h s output ≡ false
      → content_of (node h s path) ≡ ok before
      → Recorded output s (
          close path before m found
            (write_text h output document s₁).0
            (write_text h output document s₁).1)
  texted-Recorded path output before m found s s₁ none e made free there =
      put-Untouched output [] s s₁ made
  texted-Recorded path output before m found s s₁ (some b) e made free there =
      let still = written-there path output before (b ++ 10 ∷ []) s s₁ made free there in
      rw
        (rewrite_manifest-ok h root path before (record m { lifecycle_state = value verified })
          (record s₁ { disk = put (h.resolve output) (file (b ++ 10 ∷ [])) s₁.disk }) still)
        (
          b,
          e,
          (let apart = outputs-differ path output before s free there in
              rw
                (
                  get-put (h.resolve path) (h.resolve output) _ (put (h.resolve output) _ s₁.disk),
                  apart,
                  get-put (h.resolve output) (h.resolve output) (file (b ++ 10 ∷ [])) s₁.disk,
                  eq_refl (h.resolve output),
                )
                refl),
        )

  all_parents-Recorded :
      (path output : Text) (before : Bytes) (m : Manifest) (found : Findings) (s s₁ : Store)
      (made : Result Error (Unit {0}))
      → ((x : Text) → Made (h.resolve output) s s₁ x)
      → exists h s output ≡ false
      → content_of (node h s path) ≡ ok before
      → Recorded output s (
          close path before m found
            (after
              (λ _. write_text h output (h.indented_receipt (new_receipt h root m found)))
              made
              s₁).0
            (after
              (λ _. write_text h output (h.indented_receipt (new_receipt h root m found)))
              made
              s₁).1)
  all_parents-Recorded path output before m found s s₁ (err e) made free there =
      λ x. elim (made x) [ inl a ↦ inl a | inr a ↦ inr (inl a) ]
  all_parents-Recorded path output before m found s s₁ (ok _) made free there =
      texted-Recorded path output before m found s s₁ _ refl made free there

  complete-Recorded :
      (path output : Text) (before : Bytes) (m : Manifest) (found : Findings) (s : Store)
      → exists h s output ≡ false
      → content_of (node h s path) ≡ ok before
      → Recorded output s (complete h root path output before m found s)
  unfolding write_new_json
  complete-Recorded path output before m found s free there = rw free (
      all_parents-Recorded path output before m found s
        (make_directories h (parents_of (h.resolve output)) s).1
        (make_directories h (parents_of (h.resolve output)) s).0
        (make_directories-Made h (h.resolve output) s) free there)

  decide-Recorded :
      (path output : Text) (before : Bytes) (m : Manifest) (found : Findings) (fs : List Failure)
      (s : Store)
      → exists h s output ≡ false
      → content_of (node h s path) ≡ ok before
      → Recorded output s (decide h root path output before m found fs s)
  decide-Recorded path output before m found [] s free there =
      complete-Recorded path output before m found s free there
  decide-Recorded path output before m found (f ∷ fs) s free there = refl

  receipt_of-Recorded :
      (path output : Text) (before : Bytes) (m : Manifest) (s : Store)
      → exists h s output ≡ false
      → content_of (node h s path) ≡ ok before
      → Recorded output s (receipt_of h root path output before m s)
  unfolding receipt_of
  receipt_of-Recorded path output before m s free there =
      elim (Result-cases (validate_entries h root m)) [
        | inl (entries, v) ↦ elim (Bool-cases (is_text applied m.lifecycle_state)) [
          | inl a ↦ elim (Result-cases (check_postimages h root s (is_strict m) entries)) [
            | inl (found, c) ↦ rw v (
                rw a
                  (rw c (decide-Recorded path output before m found found.failures s free there)))
            | inr (x, c) ↦ rw v (rw a (rw c (same-Untouched output s)))
          ]
          | inr a ↦ rw v (rw a (same-Untouched output s))
        ]
        | inr (x, v) ↦ rw v (same-Untouched output s)
      ]

  -- A receipt that passes stands at the output path; one that does not, by a FAIL, leaves the disk as
  -- it was. One that ends in an error, also where a directory cannot be made or the record is not
  -- UTF-8, leaves every path but the output as it was, except for new directories above the output.
  pub receipt-Recorded :
      (path output : Text) (s : Store) → Recorded output s (receipt h root path output s)
  unfolding receipt check_output_path read_bytes read_json
  receipt-Recorded path output s =
      elim (Result-cases (screen h (relative_to (h.resolve output) root))) [
        | inl (_, k) ↦ elim (Bool-cases (exists h s output)) [
          | inl t ↦ rw k (rw t (same-Untouched output s))
          | inr t ↦ elim (Result-cases (content_of (node h s path))) [
            | inl (before, b) ↦ elim (Result-cases (parse_content h (node h s path))) [
              | inl (m, p) ↦
                  rw k (rw t (rw b (rw p (receipt_of-Recorded path output before m s t b))))
              | inr (x, p) ↦ rw k (rw t (rw b (rw p (same-Untouched output s))))
            ]
            | inr (x, b) ↦ rw k (rw t (rw b (same-Untouched output s)))
          ]
        ]
        | inr (x, k) ↦ rw k (same-Untouched output s)
      ]
