-- ===== src/Executor/Inspected.antt =====
-- What a diff of Git is asked for.
use jvc_core.Base.{
  ℕ, ◌≡◌, refl, sym, ap, ◌∙◌, ◌⊎◌, inl, inr, Bool, true, false, not, Option, none, some, List, [],
  ◌∷◌, ◌++◌, Text, Bytes, codes, Bool-cases,
}
use mathlib.Core.Path.{subst}
use jvc_core.Exec.{Result, ok, err, pure, guard, lift, bind-ok, guard-ok, lift-ok}
use jvc_core.Configuration.Registry.{Route, ProjectRegistry, get_route}
use jvc_core.Boundaries.Targets.{PathError}
use jvc_core.Executor.Repository.{
  Run, Files, GitError, assert_safe_git_repo, assert_exact_file_target, assert_path_attrs_safe,
}
use jvc_core.Executor.Git.{permit, permitted_path}
use jvc_core.Executor.Output.{CappedRead}
use jvc_core.Executor.Diff.{
  DiffError, DiffOutcome, not_applicable, inspected, RunCapped, is_exact_file, paths_or_none,
  is_requested, diff_target, diff_targets, read_diff, diff_files, as_diff, diff_route, diff_found,
  git_diff,
}

ok-first :
    {E A S : Type 0} {a b : A} {s t : S} → ◌≡◌ {A = Result E A × S} (ok a, s) (ok b, t) → a ≡ b
ok-first k = cc

ok-second :
    {E A S : Type 0} {a b : A} {s t : S} → ◌≡◌ {A = Result E A × S} (ok a, s) (ok b, t) → s ≡ t
ok-second k = cc

permit-ok : (r : Result PathError (Text × Text)) (f : Text × Text) → permit r ≡ ok f → r ≡ ok f
permit-ok (ok g) f k = let same : (g ≡ f) = cc in ap ok same
permit-ok (err e) f k = cc

not-true : (b : Bool) → not b ≡ true → b ≡ false
not-true true k = cc
not-true false k = refl

module _ {S : Type 0} (run : Run S) (files : Files) (run_capped : RunCapped S)
    (decode : Bytes → Text) where
  -- The path is that of one file, which the boundaries permit to be read, which Git takes for exactly
  -- that file, and which selects no executable attribute.
  abbrev pub IsInspectable : Text → Text → Text → Type 0
  IsInspectable root item canonical =
      (target : Text) × (s₁ s₂ s₃ : S) × (is_exact_file item ≡ true)
      × (permitted_path run files root item ≡ ok (target, canonical))
      × (files.is_dir target ≡ false)
      × (assert_exact_file_target run files root canonical s₁ ≡ (ok tt, s₂))
      × (assert_path_attrs_safe run files root canonical s₂ ≡ (ok tt, s₃))

  abbrev pub AreInspectable : Text → List Text → List Text → Type 0
  AreInspectable root [] paths = paths ≡ []
  AreInspectable root (item ∷ items) paths =
      (canonical : Text) × (rest : List Text) × (paths ≡ canonical ∷ rest)
      × IsInspectable root item canonical
      × AreInspectable root items rest

  diff_target-IsInspectable :
      (root item canonical : Text) (s t : S)
      → diff_target run files run_capped decode root item s ≡ (ok canonical, t)
      → IsInspectable root item canonical
  unfolding diff_target
  diff_target-IsInspectable root item canonical s t k =
      let (u, s₁, k₁, r₁) = bind-ok (guard (is_exact_file item) _) _ s t canonical k in
      let (found, s₂, k₂, r₂) =
        bind-ok (lift (permit (permitted_path run files root item))) _ s₁ t canonical r₁ in
      let (v, s₃, k₃, r₃) = bind-ok (guard (not (files.is_dir found.0)) _) _ s₂ t canonical r₂ in
      let (w, s₄, k₄, r₄) =
        bind-ok (assert_exact_file_target run files root found.1) _ s₃ t canonical r₃ in
      let (x, s₅, k₅, r₅) =
        bind-ok (assert_path_attrs_safe run files root found.1) _ s₄ t canonical r₄ in
      let same : (found.1 ≡ canonical) = ok-first r₅ in
      let (allowed, kept) = lift-ok (permit (permitted_path run files root item)) s₁ s₂ found k₂ in
      subst (λ c. IsInspectable root item c) same
        (
          found.0,
          s₃,
          s₄,
          s₅,
          (guard-ok (is_exact_file item) _ s s₁ u k₁).0,
          permit-ok _ found allowed,
          not-true _ (guard-ok (not (files.is_dir found.0)) _ s₂ s₃ v k₃).0,
          k₄,
          k₅,
        )

  diff_targets-AreInspectable :
      (root : Text) (items paths : List Text) (s t : S)
      → diff_targets run files run_capped decode root items s ≡ (ok paths, t)
      → AreInspectable root items paths
  unfolding diff_targets
  diff_targets-AreInspectable root [] paths s t k = sym (ok-first k)
  diff_targets-AreInspectable root (item ∷ items) paths s t k =
      let (canonical, s₁, k₁, r₁) =
        bind-ok (diff_target run files run_capped decode root item) _ s t paths k in
      let (rest, s₂, k₂, r₂) =
        bind-ok (diff_targets run files run_capped decode root items) _ s₁ t paths r₁ in
      (
        canonical,
        rest,
        sym (ok-first r₂),
        diff_target-IsInspectable root item canonical s s₁ k₁,
        diff_targets-AreInspectable root items rest s₁ s₂ k₂,
      )

  -- What a diff that is read has come through.
  abbrev pub Inspected : Text → List Text → ℕ → S → DiffOutcome → S → Type 0
  Inspected root requested max_bytes s outcome t =
      (paths : List Text) × (s₁ s₂ : S) × (read : CappedRead) × (assert_safe_git_repo run files root
          s
        ≡ (ok tt, s₁))
      × AreInspectable root requested paths
      × (read_diff run files run_capped decode root paths max_bytes s₂ ≡ (ok read, t))
      × (outcome ≡ inspected paths read)

  diff_files-Inspected :
      (root : Text) (requested : List Text) (max_bytes : ℕ) (outcome : DiffOutcome) (s t : S)
      → diff_files run files run_capped decode root requested max_bytes s ≡ (ok outcome, t)
      → Inspected root requested max_bytes s outcome t
  diff_files-Inspected root requested max_bytes outcome s t k =
      let (u, s₁, k₁, r₁) = bind-ok (assert_safe_git_repo run files root) _ s t outcome k in
      let (paths, s₂, k₂, r₂) =
        bind-ok (diff_targets run files run_capped decode root requested) _ s₁ t outcome r₁ in
      let (read, s₃, k₃, r₃) =
        bind-ok (read_diff run files run_capped decode root paths max_bytes)
          (λ read. pure (inspected paths read)) s₂ t outcome r₂ in
      (
        paths,
        s₁,
        s₂,
        read,
        k₁,
        diff_targets-AreInspectable root requested paths s₁ s₂ k₂,
        k₃ ∙ ap (λ x. (ok read, x)) (ok-second r₃),
        sym (ok-first r₃),
      )

  -- A diff of Git that is read has come through the audit of the repository before any other command;
  -- each path asked for is an exact file that the boundaries permit and that selects no executable
  -- attribute, and the command names these paths only. A project that is not registered or whose
  -- root is no directory, and a request without paths in a project with a repository, end in an
  -- error.
  pub git_diff-Inspected :
      (registry : ProjectRegistry) (project_id : Text) (path paths : Option (List Text))
      (max_bytes : ℕ) (outcome : DiffOutcome) (s t : S)
      → git_diff run files run_capped decode registry project_id path paths max_bytes s
        ≡ (ok outcome, t)
      → (r : Route) × (get_route registry project_id ≡ some r)
        × (files.is_dir r.root ≡ true)
        × (((outcome ≡ not_applicable) × (files.is_dir (r.root ++ codes "/.git") ≡ false))
            ⊎ ((is_requested (paths_or_none paths ++ paths_or_none path) ≡ true)
                × Inspected r.root
                    (paths_or_none paths ++ paths_or_none path)
                    max_bytes
                    s
                    outcome
                    t))
  unfolding git_diff
  git_diff-Inspected registry project_id path paths max_bytes outcome s t k =
      found (get_route registry project_id) refl k
    where
      requested : List Text
      requested = paths_or_none paths ++ paths_or_none path

      as_diff-ok :
          (x : Result GitError DiffOutcome × S)
          → ◌≡◌ {A = Result DiffError DiffOutcome × S} (as_diff x.0, x.1) (ok outcome, t)
          → x ≡ (ok outcome, t)
      as_diff-ok (ok a, u) e = cc
      as_diff-ok (err a, u) e = cc

      routed :
          (r : Route)
          → diff_route run files run_capped decode r path paths max_bytes s ≡ (ok outcome, t)
          → ((outcome ≡ not_applicable) × (files.is_dir (r.root ++ codes "/.git") ≡ false))
            ⊎ ((is_requested requested ≡ true) × Inspected r.root requested max_bytes s outcome t)
      routed r e = elim (Bool-cases (files.is_dir (r.root ++ codes "/.git"))) [
        | inr n ↦ let e₁ = rw n at e in inl (sym (ok-first e₁), n)
        | inl y ↦
            let e₁ = rw y at e in
            elim (Bool-cases (is_requested requested)) [
              | inr n ↦ let e₂ = rw n at e₁ in cc
              | inl z ↦
                  let e₂ = rw z at e₁ in
                  inr (
                    z,
                    diff_files-Inspected r.root requested max_bytes outcome s t (as_diff-ok _ e₂),
                  )
            ]
      ]

      found :
          (o : Option Route)
          → get_route registry project_id ≡ o
          → diff_found run files run_capped decode o path paths max_bytes s ≡ (ok outcome, t)
          → (r : Route) × (get_route registry project_id ≡ some r)
            × (files.is_dir r.root ≡ true)
            × (((outcome ≡ not_applicable) × (files.is_dir (r.root ++ codes "/.git") ≡ false))
                ⊎ ((is_requested requested ≡ true)
                    × Inspected r.root requested max_bytes s outcome t))
      found none at e = cc
      found (some r) at e = elim (Bool-cases (files.is_dir r.root)) [
        | inr n ↦ let e₁ = rw n at e in cc
        | inl there ↦ (r, at, there, routed r (let e₁ = rw there at e in e₁))
      ]
