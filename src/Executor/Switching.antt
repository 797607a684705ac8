-- ===== src/Executor/Switching.antt =====
-- A switch to a branch that exists touches permitted files only.
use jvc_core.Base.{
  ◌≡◌, refl, sym, ap, ◌∙◌, ◌++◌, Bool, true, false, inl, inr, List, [], ◌∷◌, Text, codes, contains,
  Bool-cases,
}
use jvc_core.Exec.{Result, ok, pure, bind-ok, lift-ok}
use jvc_core.Executor.Repository.{
  GitError, Reply, Run, Files, passed, run_passed, assert_safe_git_mutation,
}
use jvc_core.Executor.Git.{recheck_paths, permit_all}
use jvc_core.Executor.Owned.{IsAllowed, recheck_paths-IsAllowed, permit_all-ok}
use jvc_core.Executor.Branch.{
  Action, switch, create, targets_of, dirty_worktree, assert_switch_targets_safe, switch_to,
  when_clean, when_valid, check_ref, branch_locked,
}

module _ {S : Type 0} (run : Run S) (files : Files) (root branch : Text) where
  abbrev pub diff_arguments : List Text
  diff_arguments =
      codes "diff" ∷ codes "--name-only" ∷ codes "-z" ∷ codes "HEAD" ∷ branch ∷ codes "--" ∷ []

  -- In state s Git is asked what the switch changes, and all of it is permitted; then, in the state
  -- after that, Git switches.
  pub record IsSafeSwitch (s t : S) : Type 0 where
    pub asked_state : S
    pub reply : Reply
    pub switched : Reply
    pub asked : run root diff_arguments s ≡ (reply, asked_state)
    pub answered : passed reply ≡ true
    pub allowed :
        (rel : Text)
        → contains rel (targets_of run files reply) ≡ true
        → IsAllowed run files root rel
    pub done : run root (codes "switch" ∷ branch ∷ []) asked_state ≡ (switched, t)
    pub succeeded : passed switched ≡ true

  abbrev pub IsCreated : S → S → Type 0
  IsCreated s t =
      (r : Reply) × (run root (codes "switch" ∷ codes "-c" ∷ branch ∷ []) s ≡ (r, t))
      × (passed r ≡ true)

  -- What follows the question whether the branch exists.
  abbrev pub IsSafe : Action → Bool → S → S → Type 0
  IsSafe create exists s t = (exists ≡ false) × IsCreated s t
  IsSafe switch exists s t = (exists ≡ true) × IsSafeSwitch s t

  run_passed-ok :
      (arguments : List Text) (s t : S) (r : Reply)
      → run_passed run files root arguments s ≡ (ok r, t)
      → (run root arguments s ≡ (r, t)) × (passed r ≡ true)
  run_passed-ok arguments s t r k = elim (Bool-cases (passed (run root arguments s).0)) [
    | inl y ↦
        let k' = rw y at k in
        let same : ((run root arguments s).0 ≡ r) = cc in
        let after : ((run root arguments s).1 ≡ t) = cc in
        (pair same after, ap passed (sym same) ∙ y)
    | inr n ↦ let k' = rw n at k in cc
  ]
    where
      pair : {a b : Reply} {u v : S} → a ≡ b → u ≡ v → ◌≡◌ {A = Reply × S} (a, u) (b, v)
      pair p q = rw (p, q) refl

  -- The targets are checked in the state in which Git is asked for them.
  assert_switch_targets_safe-IsAllowed :
      (s t : S)
      → assert_switch_targets_safe run files root branch s ≡ (ok tt, t)
      → (r : Reply) × (run root diff_arguments s ≡ (r, t))
        × (passed r ≡ true)
        × ((rel : Text)
            → contains rel (targets_of run files r) ≡ true
            → IsAllowed run files root rel)
  unfolding assert_switch_targets_safe
  assert_switch_targets_safe-IsAllowed s t k =
      let (r, s₁, e₁, k₁) = bind-ok (run_passed run files root diff_arguments) _ s t tt k in
      let (asked, answered) = run_passed-ok diff_arguments s s₁ r e₁ in
      let (checked, same) =
        lift-ok (permit_all (recheck_paths run files root (targets_of run files r))) s₁ t tt k₁ in
      (
        r,
        asked ∙ ap (λ u. (r, u)) (sym same),
        answered,
        (λ rel l.
            recheck_paths-IsAllowed run files root (targets_of run files r) rel
              (permit_all-ok run files root _ tt checked) l),
      )

  ok-same :
      {A : Type 0} {a b : A} {s t : S} → ◌≡◌ {A = Result GitError A × S} (ok a, s) (ok b, t) → s ≡ t
  ok-same k = cc

  switch_to-IsSafe :
      (exists : Bool) (s t : S) (a : Action)
      → switch_to run files root branch exists s ≡ (ok a, t)
      → IsSafe a exists s t
  switch_to-IsSafe false s t create k =
      let arguments = codes "switch" ∷ codes "-c" ∷ branch ∷ [] in
      let (r, s₁, e₁, k₁) =
        bind-ok (run_passed run files root arguments) (λ r. pure create) s t create k in
      let (ran, good) = run_passed-ok arguments s s₁ r e₁ in
      (refl, (r, ran ∙ ap (λ u. (r, u)) (ok-same k₁), good))
  switch_to-IsSafe false s t switch k =
      let (r, s₁, e₁, k₁) =
        bind-ok (run_passed run files root (codes "switch" ∷ codes "-c" ∷ branch ∷ []))
          (λ r. pure create) s t switch k in
      cc
  switch_to-IsSafe true s t create k =
      let (u, s₁, e₁, k₁) =
        bind-ok (assert_switch_targets_safe run files root branch) _ s t create k in
      let (r, s₂, e₂, k₂) =
        bind-ok (run_passed run files root (codes "switch" ∷ branch ∷ [])) (λ r. pure switch) s₁ t
          create k₁ in
      cc
  switch_to-IsSafe true s t switch k =
      let (u, s₁, e₁, k₁) =
        bind-ok (assert_switch_targets_safe run files root branch) _ s t switch k in
      let (r, s₂, e₂, k₂) =
        bind-ok (run_passed run files root (codes "switch" ∷ branch ∷ [])) (λ r. pure switch) s₁ t
          switch k₁ in
      let (reply, asked, answered, allowed) = assert_switch_targets_safe-IsAllowed s s₁ e₁ in
      let (ran, good) = run_passed-ok (codes "switch" ∷ branch ∷ []) s₁ s₂ r e₂ in
      (
        refl,
        record {
          asked_state = s₁;
          reply = reply;
          switched = r;
          asked = asked;
          answered = answered;
          allowed = allowed;
          done = ran ∙ ap (λ u. (r, u)) (ok-same k₂);
          succeeded = good;
        },
      )

  abbrev pub ref_arguments : List Text
  ref_arguments = codes "check-ref-format" ∷ codes "--branch" ∷ branch ∷ []

  abbrev pub show_arguments : List Text
  show_arguments =
      codes "show-ref" ∷ codes "--verify" ∷ codes "--quiet" ∷ (codes "refs/heads/" ++ branch) ∷ []

  -- The steps of a branch operation from the state s to the state t: the audit, the check of the
  -- name, the worktree without a change, the question whether the branch exists, and what follows it.
  pub record IsCleanSwitch (s t : S) (a : Action) : Type 0 where
    pub audited : S
    pub before : S
    pub after : S
    pub audit : assert_safe_git_mutation run files root s ≡ (ok tt, audited)
    pub valid : passed (run root ref_arguments audited).0 ≡ true
    pub checked : (run root ref_arguments audited).1 ≡ before
    pub clean : dirty_worktree run files root before ≡ (ok [], after)
    pub safe :
        IsSafe a (passed (run root show_arguments after).0) (run root show_arguments after).1 t

  AfterCheck : S → S → Action → Type 0
  AfterCheck s t a =
      (after : S) × (dirty_worktree run files root s ≡ (ok [], after))
      × IsSafe a (passed (run root show_arguments after).0) (run root show_arguments after).1 t

  changes-clean :
      (changes : List Text) (s s₁ t : S) (a : Action)
      → dirty_worktree run files root s ≡ (ok changes, s₁)
      → when_clean run files root branch changes s₁ ≡ (ok a, t)
      → AfterCheck s t a
  unfolding AfterCheck
  changes-clean [] s s₁ t a e k = (s₁, e, switch_to-IsSafe _ _ t a k)
  changes-clean (x ∷ xs) s s₁ t a e k = cc

  checked-clean :
      (check : Reply) (s t : S) (a : Action)
      → when_valid run files root branch check s ≡ (ok a, t)
      → (passed check ≡ true) × AfterCheck s t a
  checked-clean check s t a k = elim (Bool-cases (passed check)) [
    | inr n ↦ let k' = rw n at k in cc
    | inl y ↦
        let (changes, s₁, e, k') =
          bind-ok (dirty_worktree run files root) (when_clean run files root branch) s t a
            (rw y at k) in
        (y, changes-clean changes s s₁ t a e k')
  ]

  -- A branch operation that succeeds has audited the repository first, has found the name valid and
  -- no change in the worktree, and then: has created the branch, if it was not there; or, if it was,
  -- has asked Git what the switch changes, in the state in which it then switches, and each file that
  -- Git named is permitted to every caller.
  pub branch_locked-IsCleanSwitch :
      (s t : S) (a : Action)
      → branch_locked run files root branch s ≡ (ok a, t)
      → IsCleanSwitch s t a
  unfolding branch_locked AfterCheck
  branch_locked-IsCleanSwitch s t a k =
      let (u, s₁, e₁, k₁) =
        bind-ok (assert_safe_git_mutation run files root) (λ x. check_ref run files root branch) s t
          a k in
      let checked = run root ref_arguments s₁ in
      let (valid, rest) = checked-clean checked.0 checked.1 t a k₁ in
      let (after, clean, safe) = rest in
      record {
        audited = s₁;
        before = checked.1;
        after = after;
        audit = e₁;
        valid = valid;
        checked = refl;
        clean = clean;
        safe = safe;
      }
