-- ===== src/Executor/Owned.antt =====
-- A commit has only what the session has staged.
use jvc_core.Base.{
  ◌≡◌, ◌≢◌, refl, sym, ◌∙◌, ap, inl, inr, Bool, true, false, ◌&&◌, none, List, [], ◌∷◌, Text, codes,
  ◌==◌, eq_iff, eq_refl, get, remove, get-remove, contains, Bool-cases,
}
use mathlib.Core.Path.{subst}
use jvc_core.Exec.{after, Result, ok, err, bind-ok, Result-cases}
use jvc_core.Boundaries.Targets.{PathError}
use jvc_core.Boundaries.Permitted.{IsPermitted, assert_permitted_path-IsPermitted}
use jvc_core.Executor.Repository.{Reply, Run, Files, GitError, run_passed, assert_safe_git_mutation}
use jvc_core.Executor.Git.{
  Session, commit_paths, in_git, owned_by, all_in, has_paths, staged_files, permitted_path,
  recheck_paths, permit_all, commit_locked,
}

and_left : (a b : Bool) → (a && b) ≡ true → a ≡ true
and_left true b k = refl
and_left false b k = cc

and_right : (a b : Bool) → (a && b) ≡ true → b ≡ true
and_right true b k = k
and_right false b k = cc

all_in-contains :
    (xs ys : List Text) (x : Text)
    → all_in xs ys ≡ true
    → contains x xs ≡ true
    → contains x ys ≡ true
unfolding contains
all_in-contains [] ys x k l = cc
all_in-contains (y ∷ xs) ys x k l = elim (Bool-cases (y == x)) [
  | inl e ↦
      let same = (eq_iff y x).0 e in
      let x_in = and_left (contains y ys) (all_in xs ys) k in rw (← same) x_in
  | inr n ↦ all_in-contains xs ys x (and_right (contains y ys) (all_in xs ys) k) (rw n at l)
]

session-ok :
    {S A : Type 0} (r : Result GitError A × S) (s t : Session S) (a : A)
    → ◌≡◌ {A = Result GitError A × Session S} (r.0, record s { git = r.1 }) (ok a, t)
    → t.staged ≡ s.staged
session-ok r s t a k = cc

module _ {S : Type 0} (run : Run S) (files : Files) (root : Text) where
  -- The path names a target that is permitted to every caller.
  pub record IsAllowed (rel : Text) : Type 0 where
    pub target : Text
    pub canonical : Text
    pub named : permitted_path run files root rel ≡ ok (target, canonical)
    pub permitted : IsPermitted files.resolve root false [] [] target canonical

  pub recheck_paths-IsAllowed :
      (paths : List Text) (rel : Text)
      → recheck_paths run files root paths ≡ ok tt
      → contains rel paths ≡ true
      → IsAllowed rel
  unfolding recheck_paths contains
  recheck_paths-IsAllowed [] rel k l = cc
  recheck_paths-IsAllowed (p ∷ ps) rel k l = elim (Result-cases (permitted_path run files root p)) [
    | inr (x, e) ↦ let k' = rw e at k in cc
    | inl ((target, canonical), e) ↦
        let k' = rw e at k in
        elim (Bool-cases (p == rel)) [
          | inr n ↦ recheck_paths-IsAllowed ps rel k' (rw n at l)
          | inl y ↦
              let same = (eq_iff p rel).0 y in
              subst IsAllowed same (record {
                target = target;
                canonical = canonical;
                named = e;
                permitted =
                    assert_permitted_path-IsPermitted files.resolve root p false [] [] target
                      canonical e;
              })
        ]
  ]

  -- What a commit was made of.
  pub record IsOwned (project : Text) (paths : List Text) (s s' : Session S) : Type 0 where
    pub nonempty : paths ≢ []
    pub owned : (rel : Text) → contains rel paths ≡ true → contains rel (owned_by project s) ≡ true
    pub allowed : (rel : Text) → contains rel paths ≡ true → IsAllowed rel
    pub released : get project s'.staged ≡ none

  committed-ok :
      (r : Result GitError Reply × S) (project : Text) (current paths : List Text)
      (t s' : Session S)
      → ◌≡◌ {A = Result GitError (List Text) × Session S}
          (after
            (λ u v. (ok current, record v { staged = remove project v.staged }))
            r.0
            (record t { git = r.1 }))
          (ok paths, s')
      → (current ≡ paths) × (s'.staged ≡ remove project t.staged)
  committed-ok (ok a, g) project current paths t s' k = (cc, cc)
  committed-ok (err x, g) project current paths t s' k = cc

  pub permit_all-ok :
      (r : Result PathError (Unit {0})) (u : Unit {0}) → permit_all r ≡ ok u → r ≡ ok tt
  permit_all-ok (ok u) v k = refl
  permit_all-ok (err x) v k = cc

  -- What holds of the staged files when the commit succeeds.
  abbrev Verified : Text → List Text → List Text → Session S → Session S → Type 0
  Verified project current paths t s' =
      (has_paths current ≡ true)
      × (all_in current (owned_by project t) ≡ true)
      × (recheck_paths run files root current ≡ ok tt)
      × (current ≡ paths)
      × (s'.staged ≡ remove project t.staged)

  commit_paths-ok :
      (project message : Text) (current paths : List Text) (t s' : Session S)
      → commit_paths run files project root message current t ≡ (ok paths, s')
      → Verified project current paths t s'
  commit_paths-ok project message current paths t s' k = elim (Bool-cases (has_paths current)) [
    | inr n ↦ let k₁ = rw n at k in cc
    | inl h ↦
        let k₁ = rw h at k in
        elim (Bool-cases (all_in current (owned_by project t))) [
          | inr n ↦ let k₂ = rw n at k₁ in cc
          | inl o ↦
              let k₂ = rw o at k₁ in
              elim (Result-cases (recheck_paths run files root current)) [
                | inr (x, n) ↦ let k₃ = rw n at k₂ in cc
                | inl (u, c) ↦
                    let (same, released) =
                      committed-ok
                        (run_passed run files root (codes "commit" ∷ codes "-m" ∷ message ∷ [])
                          t.git)
                        project current paths t s' (rw c at k₂) in
                    (h, o, c, same, released)
              ]
        ]
  ]

  Verified-IsOwned :
      (project : Text) (current paths : List Text) (s t s' : Session S)
      → t.staged ≡ s.staged
      → Verified project current paths t s'
      → IsOwned project paths s s'
  Verified-IsOwned project current paths s t s' kept (h, o, c, same, released) = record {
    nonempty = λ e. let z : (true ≡ false) = sym h ∙ ap has_paths (same ∙ e) in cc;
    owned = λ rel l. rw (← kept) (all_in-contains current (owned_by project t) rel o (rw same l));
    allowed = λ rel l. recheck_paths-IsAllowed current rel c (rw same l);
    released = rw (released, get-remove) (rw eq_refl refl);
  }

  -- A commit that succeeds has at least one path; the session has staged each of them for this
  -- project, each is permitted to every caller, and the session owns none of them afterwards.
  pub commit_locked-IsOwned :
      (project message : Text) (paths : List Text) (s s' : Session S)
      → commit_locked run files project root message s ≡ (ok paths, s')
      → IsOwned project paths s s'
  unfolding commit_locked
  commit_locked-IsOwned project message paths s s' k =
      let (u₁, s₁, e₁, k₁) =
        bind-ok (in_git (assert_safe_git_mutation run files root)) _ s s' paths k in
      let (current, s₂, e₂, k₂) = bind-ok (in_git (staged_files run files root)) _ s₁ s' paths k₁ in
      let kept =
        session-ok (staged_files run files root s₁.git) s₁ s₂ current e₂
        ∙ session-ok (assert_safe_git_mutation run files root s.git) s s₁ u₁ e₁ in
      Verified-IsOwned project current paths s s₂ s' kept
        (commit_paths-ok project message current paths s₂ s' k₂)
