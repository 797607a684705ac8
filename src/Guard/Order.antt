-- ===== src/Guard/Order.antt =====
-- Runs of `transition` on one manifest, and the manifests that accept no operation.
use jvc_core.Base.{
  ℕ, ◌+◌, ◌≡◌, refl, ◌∙◌, ap, ◌⊎◌, inl, inr, true, some, List, [], ◌∷◌, ◌++◌, Text, ◌==◌, eq_iff,
  eq_refl, get-put, arith, contains, if◌then◌else◌,
}
use jvc_core.Exec.{Result, ok, err}
use jvc_core.Guard.Manifest.{
  value, Manifest, Error, Host, proposed, approved, applied, verified, valid_transitions,
}
use jvc_core.Guard.Files.{Store, node, parse_content}
use jvc_core.Guard.Apply.{may_become, transition}
use jvc_core.Guard.Lifecycle.{Moves, transition-Moves}

-- The place of a state in LIFECYCLE_STATES.
unfoldable pub rank : Text → ℕ
rank t = if t == approved then 1 else if t == applied then 2 else if t == verified then 3 else 0

rank-names : (rank proposed ≡ 0) × (rank approved ≡ 1) × (rank applied ≡ 2) × (rank verified ≡ 3)
unfolding rank ◌==◌
rank-names = (refl, refl, refl, refl)

member-single : (x y : Text) → contains x (y ∷ []) ≡ true → x ≡ y
unfolding contains
member-single x y k = ground (arith, eq_iff y x)

abbrev Successor : Text → Text → Type 0
Successor t target =
    ((t ≡ proposed) × (target ≡ approved))
    ⊎ ((t ≡ approved) × (target ≡ applied))
    ⊎ ((t ≡ applied) × (target ≡ verified))

may_become-Successor : (t target : Text) → may_become (value t) target ≡ true → Successor t target
unfolding may_become valid_transitions contains
may_become-Successor t target k = ground (
  arith,
  eq_iff t proposed,
  eq_iff t approved,
  eq_iff t applied,
  eq_iff approved target,
  eq_iff applied target,
  eq_iff verified target,
)

rank-Successor : (t target : Text) → Successor t target → rank target ≡ rank t + 1
rank-Successor t target (inl (p, q)) = rw p (rw q (omega (arith, rank-names)))
rank-Successor t target (inr (inl (p, q))) = rw p (rw q (omega (arith, rank-names)))
rank-Successor t target (inr (inr (p, q))) = rw p (rw q (omega (arith, rank-names)))

module _ (h : Host) (root path : Text) where
  -- Attempts to move the manifest, one after another, by any callers.
  unfoldable pub transitions : List Text → Store → Store
  transitions [] s = s
  transitions (t ∷ ts) s = transitions ts (transition h root path t s).1

  abbrev pub one_if_ok : Result Error Manifest → ℕ
  one_if_ok (ok m) = 1
  one_if_ok (err x) = 0

  unfoldable pub steps : List Text → Store → ℕ
  steps [] s = 0
  steps (t ∷ ts) s =
      one_if_ok (transition h root path t s).0 + steps ts (transition h root path t s).1

  -- The manifest on the disk is `m` in the given state.
  abbrev pub Stands : Manifest → Text → Store → Type 0
  Stands m t s = parse_content h (node h s path) ≡ ok (record m { lifecycle_state = value t })

  module _ (m : Manifest)
      (reads_back : (t : Text)
        → h.json_loads (h.canonical_json (record m { lifecycle_state = value t }) ++ 10 ∷ [])
          ≡ some (record m { lifecycle_state = value t })) where
    step-Stands :
        (t target : Text) (s : Store) (r : Result Error Manifest) (s' : Store)
        → Stands m t s
        → Moves h root path target s (r, s')
        → (t' : Text) × Stands m t' s' × (rank t' ≡ rank t + one_if_ok r)
    step-Stands t target s (err x) s' k same = (t, rw same k, omega arith)
    step-Stands t target s (ok n) s' k moved =
        let same : (moved.old ≡ record m { lifecycle_state = value t }) = cc (moved.read, k) in
        let after : (n ≡ record m { lifecycle_state = value target }) =
          moved.next
          ∙ ap {A = Manifest} {B = Manifest} (λ o. record o { lifecycle_state = value target })
              same in
        let step : (may_become (value t) target ≡ true) = rw same at moved.legal in
        (
          target,
          rw moved.saved (rw after (rw get-put (rw eq_refl (rw (reads_back target) refl)))),
          rank-Successor t target (may_become-Successor t target step),
        )

    -- If the manifest reads back in every state as it was written, then from any state any attempts
    -- to move it leave it the same manifest, in the state that lies as many places further as
    -- attempts succeeded.
    pub rank-transitions :
        (ts : List Text) (t : Text) (s : Store)
        → Stands m t s
        → (t' : Text) × Stands m t' (transitions ts s) × (rank t' ≡ rank t + steps ts s)
    unfolding transitions steps
    rank-transitions [] t s k = (t, k, omega arith)
    rank-transitions (target ∷ ts) t s k =
        let (t₁, k₁, r₁) = step-Stands t target s _ _ k (transition-Moves h root path target s) in
        let (t₂, k₂, r₂) = rank-transitions ts t₁ _ k₁ in (t₂, k₂, omega arith)
