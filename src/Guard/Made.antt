-- ===== src/Guard/Made.antt =====
-- The directories that are made above an output.
use jvc_core.Base.{
  ◌≡◌, refl, sym, ◌∙◌, ◌⊎◌, inl, inr, Option, none, some, List, [], ◌∷◌, Text, get, put, get-put,
  eq_iff, ◌==◌, Bool-cases,
}
use jvc_core.Exec.{Result, ok, err, after}
use jvc_core.Executor.Write.{parents_of}
use jvc_core.Executor.Atomic.{IsAbove, AllAbove, parents_of-AllAbove}
use jvc_core.Guard.Manifest.{Error, Host}
use jvc_core.Guard.Files.{Node, file, directory, Store, make_directory, make_directories}

-- The path lies above the output, held nothing and is now a directory.
abbrev pub IsMade : Text → Store → Store → Text → Type 0
IsMade output s s' x = IsAbove x output × (get x s.disk ≡ none) × (get x s'.disk ≡ some directory)

abbrev pub Made : Text → Store → Store → Text → Type 0
Made output s s' x = (get x s'.disk ≡ get x s.disk) ⊎ IsMade output s s' x

Made-trans :
    (output : Text) (s t u : Store) (x : Text)
    → Made output s t x
    → Made output t u x
    → Made output s u x
Made-trans output s t u x (inl a) (inl b) = inl (b ∙ a)
Made-trans output s t u x (inl a) (inr (above, b, c)) = inr (above, sym a ∙ b, c)
Made-trans output s t u x (inr (above, b, c)) (inl a) = inr (above, b, a ∙ c)
Made-trans output s t u x (inr (above, b, c)) (inr (_, _, d)) = inr (above, b, d)

module _ (h : Host) (output : Text) where
  make_directory-Made :
      (path : Text) (o : Option Node) (s : Store) (x : Text)
      → IsAbove path output
      → get path s.disk ≡ o
      → Made output s (make_directory h o path s).1 x
  make_directory-Made path (some directory) s x a e = inl refl
  make_directory-Made path (some (file b)) s x a e = inl refl
  make_directory-Made path none s x a e = elim (Bool-cases (path == x)) [
    | inr n ↦ inl (rw (get-put path x directory s.disk, n) refl)
    | inl y ↦
        let same = (eq_iff path x).0 y in
        inr (rw (← same) a, rw (← same) e, rw (get-put path x directory s.disk, y) refl)
  ]

  after-Made :
      (paths : List Text) (r : Result Error (Unit {0})) (s t : Store) (x : Text)
      → Made output s t x
      → Made output t (make_directories h paths t).1 x
      → Made output s (after (λ _. make_directories h paths) r t).1 x
  after-Made paths (err e) s t x a b = a
  after-Made paths (ok _) s t x a b = Made-trans output s t (make_directories h paths t).1 x a b

  make_all-Made :
      (paths : List Text) (s : Store) (x : Text)
      → AllAbove paths output
      → Made output s (make_directories h paths s).1 x
  unfolding make_directories
  make_all-Made [] s x a = inl refl
  make_all-Made (path ∷ paths) s x (a, as_) =
      after-Made paths _ s _ x (make_directory-Made path _ s x a refl) (make_all-Made paths _ x as_)

  -- Of the paths, only those above the output that held nothing change.
  pub make_directories-Made :
      (s : Store) (x : Text) → Made output s (make_directories h (parents_of output) s).1 x
  make_directories-Made s x = make_all-Made (parents_of output) s x (parents_of-AllAbove output)

-- No file stands there.
abbrev pub NoFile : Option Node → Type 0
NoFile none = Unit
NoFile (some directory) = Unit
NoFile (some (file b)) = ⊥

module _ (h : Host) (output : Text) where
  put-NoFile :
      (path x : Text) (s : Store)
      → NoFile (get x s.disk)
      → NoFile (get x (put path directory s.disk))
  put-NoFile path x s k = elim (Bool-cases (path == x)) [
    | inl y ↦ rw (get-put path x directory s.disk, y) tt
    | inr n ↦ rw (get-put path x directory s.disk, n) k
  ]

  make_directory-ok :
      (path : Text) (o : Option Node) (s : Store)
      → get path s.disk ≡ o
      → NoFile o
      → (t : Store) × (make_directory h o path s ≡ (ok tt, t))
        × ((x : Text) → NoFile (get x s.disk) → NoFile (get x t.disk))
  make_directory-ok path none s e k = (_, refl, λ x. put-NoFile path x s)
  make_directory-ok path (some directory) s e k = (s, refl, λ x n. n)
  make_directory-ok path (some (file b)) s e k = absurd k

  make_all-ok :
      (paths : List Text) (s : Store)
      → AllAbove paths output
      → ((x : Text) → IsAbove x output → NoFile (get x s.disk))
      → (make_directories h paths s).0 ≡ ok tt
  unfolding make_directories
  make_all-ok [] s a free = refl
  make_all-ok (path ∷ paths) s (a, as_) free =
      let (t, made, kept) = make_directory-ok path _ s refl (free path a) in
      rw made (make_all-ok paths t as_ (λ x k. kept x (free x k)))

  -- The directories above the output are made if no file stands there.
  pub make_directories-ok :
      (s : Store)
      → ((x : Text) → IsAbove x output → NoFile (get x s.disk))
      → (make_directories h (parents_of output) s).0 ≡ ok tt
  make_directories-ok s free = make_all-ok (parents_of output) s (parents_of-AllAbove output) free
