-- ===== src/Guard/Unbound.antt =====
-- A manifest that was approved before its intent was bound.
use jvc_core.Base.{
  ◌≡◌, ◌≢◌, inl, inr, true, false, Option, List, [], ◌∷◌, Text, Dict, codes, ◌==◌, eq_iff, arith,
  contains, Bool-cases,
}
use jvc_core.Exec.{Result, ok, err, Result-cases}
use jvc_core.Guard.Manifest.{
  Field, missing, null, other, value, Entry, Manifest, Receipt, Error, Host, proposed, approved,
  applied, verified, is_text, is_among, is_number,
}
use jvc_core.Guard.Validate.{
  schema, is_strict, is_bound, validate_entries, check_listed, check_present,
}
use jvc_core.Guard.Files.{Store, node, read_bytes, read_json, parse_content, content_of}
use jvc_core.Guard.Capture.{bind_intent}
use jvc_core.Guard.Apply.{transition, receipt, passed}
use jvc_core.Guard.Receipts.{receipt-Completed}
use jvc_core.Guard.Lifecycle.{Moves, transition-Moves}

-- A strict-write manifest past `proposed` without a bound intent.
pub record IsUnbound (m : Manifest) : Type 0 where
  pub strict : is_strict m ≡ true
  pub underway : is_among (approved ∷ applied ∷ verified ∷ []) m.lifecycle_state ≡ true
  pub free : is_bound m ≡ false

module _ (h : Host) (root : Text) where
  check_listed-fails :
      (m : Manifest) (r : Result Error (List Entry)) (es : List Entry)
      → IsUnbound m
      → check_listed h root m r ≢ ok es
  check_listed-fails m (err x) es u = λ k. cc
  check_listed-fails m (ok entries) es u = λ k. ground (arith, u.strict, u.underway, u.free)

  check_present-fails :
      (m : Manifest) (f : Field (List (Option Entry))) (es : List Entry)
      → IsUnbound m
      → check_present h root m f ≢ ok es
  check_present-fails m missing es u = λ k. cc
  check_present-fails m null es u = λ k. cc
  check_present-fails m other es u = λ k. cc
  check_present-fails m (value []) es u = λ k. cc
  check_present-fails m (value (e ∷ rest)) es u = check_listed-fails m _ es u

  validate_entries-fails :
      (m : Manifest) (es : List Entry) → IsUnbound m → validate_entries h root m ≢ ok es
  unfolding validate_entries
  validate_entries-fails m es u = elim (Bool-cases (is_number schema m.schema_version)) [
    | inl k ↦ rw k (check_present-fails m m.entries es u)
    | inr k ↦ rw k (λ x. cc)
  ]

  proposed-early : contains proposed (approved ∷ applied ∷ verified ∷ []) ≢ true
  unfolding contains ◌==◌
  proposed-early = λ k. cc

  late_state :
      (f : Field Text)
      → is_among (approved ∷ applied ∷ verified ∷ []) f ≡ true
      → is_text proposed f ≡ false
  unfolding is_among is_text
  late_state missing k = cc
  late_state null k = cc
  late_state other k = cc
  late_state (value t) k = elim (Bool-cases (t == proposed)) [
    | inl e ↦ absurd (proposed-early (rw ((eq_iff t proposed).0 e) at k))
    | inr e ↦ e
  ]

  same_manifest : {r : Result Error Manifest} {m n : Manifest} → r ≡ ok m → r ≡ ok n → m ≡ n
  same_manifest p q = cc

  transition-fails :
      (path target : Text) (s : Store) (m : Manifest) (r : Result Error Manifest) (s' : Store)
      (n : Manifest)
      → parse_content h (node h s path) ≡ ok m
      → IsUnbound m
      → Moves h root path target s (r, s')
      → r ≢ ok n
  transition-fails path target s m (err x) s' n p u moves = λ k. cc
  transition-fails path target s m (ok _) s' n p u moves =
      absurd
        (validate_entries-fails m moves.entries u (rw (same_manifest moves.read p) at moves.valid))

  receipt-fails :
      (path output : Text) (s : Store) (m : Manifest) (r : Receipt) (s' : Store)
      → parse_content h (node h s path) ≡ ok m
      → IsUnbound m
      → receipt h root path output s ≢ (ok (passed r), s')
  receipt-fails path output s m r s' p u k =
      let (n, c) = receipt-Completed h root path output s r s' k in
      absurd (validate_entries-fails m c.entries u (rw (same_manifest c.read p) at c.valid))

  bind-fails :
      (path : Text) (hashes : Dict Text) (s : Store) (m n : Manifest) (s' : Store)
      → parse_content h (node h s path) ≡ ok m
      → IsUnbound m
      → bind_intent h root path hashes s ≢ (ok n, s')
  unfolding bind_intent read_bytes read_json
  bind-fails path hashes s m n s' p u e = elim (Result-cases (content_of (node h s path))) [
    | inl (before, b) ↦
        let e₁ = rw p at (rw b at e) in
        elim (Result-cases (
          validate_entries h root (record m {
            intent_state = value (codes "bound");
            lifecycle_state = value proposed;
          }))) [
            | inl (entries, v) ↦
                let e₂ = rw (late_state m.lifecycle_state u.underway) at (rw v at e₁) in cc
            | inr (x, v) ↦ let e₂ = rw v at e₁ in cc
          ]
    | inr (x, b) ↦ let e₁ = rw b at e in cc
  ]

  -- A strict-write manifest that has left `proposed` with no intent bound is stuck: no transition
  -- of it returns, its intent can no longer be bound, and no receipt of it passes.
  pub unbound-Stuck :
      (path : Text) (s : Store) (m : Manifest)
      → parse_content h (node h s path) ≡ ok m
      → IsUnbound m
      → ((target : Text) (n : Manifest) → (transition h root path target s).0 ≢ ok n)
        × ((hashes : Dict Text) (n : Manifest) (s' : Store)
            → bind_intent h root path hashes s ≢ (ok n, s'))
        × ((output : Text) (r : Receipt) (s' : Store)
            → receipt h root path output s ≢ (ok (passed r), s'))
  unbound-Stuck path s m p u = (
    λ target n. transition-fails path target s m _ _ n p u (transition-Moves h root path target s),
    λ hashes n s'. bind-fails path hashes s m n s' p u,
    λ output r s'. receipt-fails path output s m r s' p u,
  )
