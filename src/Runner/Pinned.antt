-- ===== src/Runner/Pinned.antt =====
-- A declared check is run exactly if all that its manifest pins is in place.
use jvc_core.Base.{
  ◌≡◌, refl, sym, ap, ◌∙◌, Bool, true, false, Option, none, some, List, [], ◌∷◌, Text, Bytes, Dict,
  get, ◌==◌, eq_iff, eq_refl, casefold, upper,
}
use mathlib.Core.Path.{subst}
use jvc_core.Exec.{Result, ok, err}
use jvc_core.Contracts.Parts.{bind-ok, ok-injective}
use jvc_core.Authority.Keys.{Pin, resolve_trusted_executable}
use jvc_core.Runner.Environment.{Host, default}
use jvc_core.Runner.Check.{
  Spec, Refusal, require, trusted_or, sha256_of, sha256_file, find_executable, is_same_path,
  check_child, check_children, check_file, check_files, is_known, has_identity, is_nonempty,
  check_pins,
}

-- A file has the content that a hash pins.
abbrev pub HasHash : Host → Text → Text → Type 0
HasHash h path pinned =
    (content : Bytes) × (get path h.files ≡ some content)
    × (upper (h.hexdigest content) ≡ upper pinned)

abbrev pub IsExecutable : Host → Dict Pin → Text → Text → Type 0
IsExecutable h trusted name path =
    resolve_trusted_executable h.resolve h.hexdigest h.files name trusted ≡ ok path

-- The child executable of the name is the trusted one, at its pinned path with its pinned content.
abbrev pub IsChild : Host → Dict Pin → Text → Pin → Text → Type 0
IsChild h trusted name pin directory =
    (child : Text) × IsExecutable h trusted name child
    × (casefold child ≡ casefold (h.resolve pin.path))
    × HasHash h child pin.sha256
    × (directory ≡ h.parent child)

abbrev pub AreChildren : Host → Dict Pin → Dict Pin → List Text → Type 0
AreChildren h trusted [] directories = directories ≡ []
AreChildren h trusted ((name, pin) ∷ children) directories =
    (directory : Text) × (rest : List Text) × (directories ≡ directory ∷ rest)
    × IsChild h trusted name pin directory
    × AreChildren h trusted children rest

abbrev pub ArePinned : Host → Text → Dict Text → Type 0
ArePinned h root [] = Unit
ArePinned h root ((relative, expected) ∷ rest) =
    HasHash h (h.resolve (h.join root relative)) expected × ArePinned h root rest

-- All that is checked before the run.
pub record IsPinned (h : Host) (project_id cid : Text) (spec : Spec) (root : Text)
    (trusted : Dict Pin) (exe : Text) (directories : List Text) : Type 0 where
  pub known : is_known cid ≡ true
  pub identity : has_identity project_id cid spec ≡ true
  pub cwd : h.resolve root ≡ h.resolve (default spec.cwd [])
  pub executable : IsExecutable h trusted (casefold (default spec.executable [])) exe
  pub path : casefold exe ≡ casefold (h.resolve (default spec.executable_path []))
  pub hash : HasHash h exe (default spec.executable_sha256 [])
  pub child_directories : List Text
  pub children : AreChildren h trusted spec.child_executables child_directories
  pub listed : directories ≡ h.parent exe ∷ child_directories
  pub executed : ArePinned h root spec.executed_files
  pub command : is_nonempty spec.argv ≡ true

require-ok : (b : Bool) (e : Refusal) (u : Unit {0}) → require b e ≡ ok u → b ≡ true
require-ok true e u k = refl
require-ok false e u k = cc

require-true : (b : Bool) (e : Refusal) → b ≡ true → require b e ≡ ok tt
require-true b e k = rw k refl

trusted_or-ok : (r : Result _ Text) (path : Text) → trusted_or r ≡ ok path → r ≡ ok path
trusted_or-ok (ok p) path k = cc
trusted_or-ok (err e) path k = cc

module _ (h : Host) where
  sha256_file-ok :
      (path pinned hash : Text)
      → sha256_file h path ≡ ok hash
      → (hash == upper pinned) ≡ true
      → HasHash h path pinned
  unfolding sha256_file
  sha256_file-ok path pinned hash k e = hashed (get path h.files) refl k
    where
      hashed :
          (o : Option Bytes)
          → get path h.files ≡ o
          → sha256_of h o ≡ ok hash
          → HasHash h path pinned
      hashed none found k = cc
      hashed (some content) found k =
          (content, found, ok-injective k ∙ (eq_iff hash (upper pinned)).0 e)

  sha256_file-HasHash :
      (path pinned : Text) → HasHash h path pinned → sha256_file h path ≡ ok (upper pinned)
  unfolding sha256_file
  sha256_file-HasHash path pinned (content, found, same) = rw found (ap ok same)

  check_child-IsChild :
      (trusted : Dict Pin) (name : Text) (pin : Pin) (directory : Text)
      → check_child h trusted name pin ≡ ok directory
      → IsChild h trusted name pin directory
  unfolding check_child
  check_child-IsChild trusted name pin directory k =
      let (child, k₁, r₁) = bind-ok (find_executable h name trusted) _ directory k in
      let (u, k₂, r₂) = bind-ok (require (is_same_path h child pin.path) _) _ directory r₁ in
      let (hash, k₃, r₃) = bind-ok (sha256_file h child) _ directory r₂ in
      let (v, k₄, r₄) = bind-ok (require (hash == upper pin.sha256) _) _ directory r₃ in
      (
        child,
        trusted_or-ok _ child k₁,
        (eq_iff (casefold child) _).0 (require-ok _ _ u k₂),
        sha256_file-ok child pin.sha256 hash k₃ (require-ok _ _ v k₄),
        sym (ok-injective r₄),
      )

  IsChild-check_child :
      (trusted : Dict Pin) (name : Text) (pin : Pin) (directory : Text)
      → IsChild h trusted name pin directory
      → check_child h trusted name pin ≡ ok directory
  unfolding check_child
  IsChild-check_child trusted name pin directory (child, executable, path, hash, is) =
      rw
        (
          executable,
          (eq_iff (casefold child) _).1 path,
          sha256_file-HasHash child pin.sha256 hash,
          eq_refl (upper pin.sha256),
        )
        (ap ok (sym is))

  check_children-AreChildren :
      (trusted children : Dict Pin) (directories : List Text)
      → check_children h trusted children ≡ ok directories
      → AreChildren h trusted children directories
  unfolding check_children
  check_children-AreChildren trusted [] directories k = sym (ok-injective k)
  check_children-AreChildren trusted ((name, pin) ∷ children) directories k =
      let (directory, k₁, r₁) = bind-ok (check_child h trusted name pin) _ directories k in
      let (rest, k₂, r₂) = bind-ok (check_children h trusted children) _ directories r₁ in
      (
        directory,
        rest,
        sym (ok-injective r₂),
        check_child-IsChild trusted name pin directory k₁,
        check_children-AreChildren trusted children rest k₂,
      )

  AreChildren-check_children :
      (trusted children : Dict Pin) (directories : List Text)
      → AreChildren h trusted children directories
      → check_children h trusted children ≡ ok directories
  unfolding check_children
  AreChildren-check_children trusted [] directories e = ap ok (sym e)
  AreChildren-check_children trusted ((name, pin) ∷ children) directories
        (directory, rest, is, child, are) =
      rw
        (
          IsChild-check_child trusted name pin directory child,
          AreChildren-check_children trusted children rest are,
        )
        (ap ok (sym is))

  check_file-HasHash :
      (relative expected path : Text) (o : Option Bytes) (u : Unit {0})
      → get path h.files ≡ o
      → check_file h relative expected o ≡ ok u
      → HasHash h path expected
  check_file-HasHash relative expected path none u found k = cc
  check_file-HasHash relative expected path (some content) u found k =
      (content, found, (eq_iff _ _).0 (require-ok _ _ u k))

  HasHash-check_file :
      (relative expected path : Text)
      → HasHash h path expected
      → check_file h relative expected (get path h.files) ≡ ok tt
  HasHash-check_file relative expected path (content, found, same) =
      rw found (require-true _ _ ((eq_iff _ _).1 same))

  check_files-ArePinned :
      (root : Text) (files : Dict Text) (u : Unit {0})
      → check_files h root files ≡ ok u
      → ArePinned h root files
  unfolding check_files
  check_files-ArePinned root [] u k = tt
  check_files-ArePinned root ((relative, expected) ∷ files) u k =
      let (v, k₁, r₁) =
        bind-ok (check_file h relative expected (get (h.resolve (h.join root relative)) h.files)) _
          u k in
      (check_file-HasHash relative expected _ _ v refl k₁, check_files-ArePinned root files u r₁)

  ArePinned-check_files :
      (root : Text) (files : Dict Text) → ArePinned h root files → check_files h root files ≡ ok tt
  unfolding check_files
  ArePinned-check_files root [] are = refl
  ArePinned-check_files root ((relative, expected) ∷ files) (is, are) =
      rw (HasHash-check_file relative expected (h.resolve (h.join root relative)) is)
        (ArePinned-check_files root files are)

  module _ (project_id cid : Text) (spec : Spec) (root : Text) (trusted : Dict Pin) where
    pub check_pins-IsPinned :
        (exe : Text) (directories : List Text)
        → check_pins h project_id cid spec root trusted ≡ ok (exe, directories)
        → IsPinned h project_id cid spec root trusted exe directories
    unfolding check_pins
    check_pins-IsPinned exe directories k =
        let (u₁, k₁, r₁) = bind-ok (require (is_known cid) _) _ (exe, directories) k in
        let (u₂, k₂, r₂) =
          bind-ok (require (has_identity project_id cid spec) _) _ (exe, directories) r₁ in
        let (u₃, k₃, r₃) =
          bind-ok (require (h.resolve root == h.resolve (default spec.cwd [])) _) _
            (exe, directories) r₂ in
        let (e, k₄, r₄) =
          bind-ok (find_executable h (casefold (default spec.executable [])) trusted) _
            (exe, directories) r₃ in
        let (u₅, k₅, r₅) =
          bind-ok (require (is_same_path h e (default spec.executable_path [])) _) _
            (exe, directories) r₄ in
        let (hash, k₆, r₆) = bind-ok (sha256_file h e) _ (exe, directories) r₅ in
        let (u₇, k₇, r₇) =
          bind-ok (require (hash == upper (default spec.executable_sha256 [])) _) _
            (exe, directories) r₆ in
        let (ds, k₈, r₈) =
          bind-ok (check_children h trusted spec.child_executables) _ (exe, directories) r₇ in
        let (u₉, k₉, r₉) =
          bind-ok (check_files h root spec.executed_files) _ (exe, directories) r₈ in
        let (u, k₀, r₀) = bind-ok (require (is_nonempty spec.argv) _) _ (exe, directories) r₉ in
        let same = ap (λ (r : Text × List Text). r.0) (ok-injective r₀) in
        record {
          known = require-ok _ _ u₁ k₁;
          identity = require-ok _ _ u₂ k₂;
          cwd = (eq_iff _ _).0 (require-ok _ _ u₃ k₃);
          executable = trusted_or-ok _ exe (k₄ ∙ ap ok same);
          path = sym (ap casefold same) ∙ (eq_iff _ _).0 (require-ok _ _ u₅ k₅);
          hash =
              subst (λ p. HasHash h p (default spec.executable_sha256 [])) same
                (sha256_file-ok e (default spec.executable_sha256 []) hash k₆
                  (require-ok _ _ u₇ k₇));
          child_directories = ds;
          children = check_children-AreChildren trusted spec.child_executables ds k₈;
          listed =
              sym (ap (λ (r : Text × List Text). r.1) (ok-injective r₀))
              ∙ ap (λ p. h.parent p ∷ ds) same;
          executed = check_files-ArePinned root spec.executed_files u₉ k₉;
          command = require-ok _ _ u k₀;
        }

    pub IsPinned-check_pins :
        (exe : Text) (directories : List Text)
        → IsPinned h project_id cid spec root trusted exe directories
        → check_pins h project_id cid spec root trusted ≡ ok (exe, directories)
    unfolding check_pins
    IsPinned-check_pins exe directories i =
        rw
          (
            i.known,
            i.identity,
            (eq_iff (h.resolve root) _).1 i.cwd,
            i.executable,
            (eq_iff (casefold exe) _).1 i.path,
            sha256_file-HasHash exe (default spec.executable_sha256 []) i.hash,
            eq_refl (upper (default spec.executable_sha256 [])),
            AreChildren-check_children trusted spec.child_executables i.child_directories
                i.children,
            ArePinned-check_files root spec.executed_files i.executed,
            i.command,
          )
          (ap (λ ds. ok (exe, ds)) (sym i.listed))
