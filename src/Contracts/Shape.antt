-- ===== src/Contracts/Shape.antt =====
-- What a valid execution contract is, and the tests on single values.
use jvc_core.Base.{
  ℕ, zero, suc, ◌≡◌, ◌≢◌, ◌↔◌, refl, sym, ap, ◌∙◌, ◌⊎◌, Bool, true, not, Option, none, some, List,
  [], ◌∷◌, Text, codes, contains, is_empty, strip, arith,
}
use jvc_core.Exec.{ok}
use jvc_core.Contracts.Json.{
  ℤ, pos, negsuc, Json, null, bool, int, real, str, arr, obj, Items, nil, cons, Fields, lookup,
  or_null, value, test, text_of, items_in, int_in, member,
}
use jvc_core.Contracts.Validate.{
  allowed_persistence, allowed_privacy, allowed_permission_classes, equals_nat, above_zero, is_int,
  is_positive, Paths, as_text,
}

abbrev pub All : {A : Type 0} → (A → Type 0) → List A → Type 0
All P [] = Unit
All P (x ∷ xs) = P x × All P xs

abbrev pub str_items : List Text → Items
str_items [] = nil
str_items (t ∷ ts) = cons (str t) (str_items ts)

abbrev pub candidate_items : List (List Text) → Items
candidate_items [] = nil
candidate_items (c ∷ cs) = cons (arr (str_items c)) (candidate_items cs)

-- The key has a text with the property.
abbrev pub HasText : Text → (Text → Type 0) → Fields → Type 0
HasText k P fs = (s : Text) × (lookup k fs ≡ some (str s)) × P s

-- At least one argument, and none of them empty.
abbrev pub IsArgv : List Text → Type 0
IsArgv ts = (ts ≢ []) × All (λ t. t ≢ []) ts

pub record IsCheck (c : Fields) : Type 0 where
  pub argv : List Text
  pub argv_at : lookup (codes "argv") c ≡ some (arr (str_items argv))
  pub argv_is : IsArgv argv
  pub seconds : ℕ
  pub timeout_at : lookup (codes "timeout_seconds") c ≡ some (int (pos (suc seconds)))
  pub exit_at : lookup (codes "expected_exit") c ≡ some (int (pos zero))
  pub needle : Text
  pub contains_at : lookup (codes "expected_contains") c ≡ some (str needle)

-- A check is null, or an object that can be run.
abbrev pub IsDeclared : Text → Fields → Type 0
IsDeclared name fs =
    (lookup name fs ≡ some null) ⊎ ((c : Fields) × (lookup name fs ≡ some (obj c)) × IsCheck c)

pub record IsPython (r : Fields) : Type 0 where
  pub kind_at : lookup (codes "kind") r ≡ some (str (codes "python"))
  pub candidates : List (List Text)
  pub candidates_at : lookup (codes "candidates") r ≡ some (arr (candidate_items candidates))
  pub some_candidate : candidates ≢ []
  pub candidates_are : All IsArgv candidates
  pub probe : List Text
  pub probe_at : lookup (codes "probe_argv") r ≡ some (arr (str_items probe))
  pub some_probe : probe ≢ []

abbrev pub IsRuntime : Fields → Type 0
IsRuntime r = (lookup (codes "kind") r ≡ some (str (codes "none"))) ⊎ IsPython r

-- The root that the contract declares is the registered one, if one is given.
abbrev pub HasCwd : Paths → Option Text → Fields → Type 0
HasCwd p none fs = HasText (codes "cwd") (λ s. s ≢ []) fs
HasCwd p (some root) fs =
    p.normalize (p.expandvars (as_text p (lookup (codes "cwd") fs))) ≡ p.normalize root

abbrev pub HasProject : Option Text → Fields → Type 0
HasProject none fs = HasText (codes "project_id") (λ s. s ≢ []) fs
HasProject (some id) fs = lookup (codes "project_id") fs ≡ some (str id)

pub record IsContract (p : Paths) (project_id root : Option Text) (fs : Fields) : Type 0 where
  pub schema : lookup (codes "schema_version") fs ≡ some (int (pos 1))
  pub project : HasProject project_id fs
  pub cwd : HasCwd p root fs
  pub persistence : HasText (codes "persistence") (λ s. contains s allowed_persistence ≡ true) fs
  pub privacy : HasText (codes "privacy") (λ s. contains s allowed_privacy ≡ true) fs
  pub permission :
      HasText (codes "permission_class") (λ s. contains s allowed_permission_classes ≡ true) fs
  pub write_policy : HasText (codes "write_policy") (λ s. strip s ≢ []) fs
  pub runtime : (r : Fields) × (lookup (codes "runtime") fs ≡ some (obj r)) × IsRuntime r
  pub preflight : IsDeclared (codes "preflight") fs
  pub verify : IsDeclared (codes "verify") fs

-- One value.

pub test-some :
    {A : Type 0} (p : A → Bool) (o : Option A)
    → test p o ≡ true
    → (a : A) × (o ≡ some a) × (p a ≡ true)
test-some p none k = cc
test-some p (some a) k = (a, refl, k)

pub text_of-some : (v : Json) (s : Text) → text_of v ≡ some s → v ≡ str s
unfolding text_of
text_of-some (str t) s k = cc
text_of-some null s k = cc
text_of-some (bool b) s k = cc
text_of-some (int b) s k = cc
text_of-some (real b) s k = cc
text_of-some (arr b) s k = cc
text_of-some (obj b) s k = cc

pub items_in-some : (v : Json) (vs : Items) → items_in v ≡ some vs → v ≡ arr vs
unfolding items_in
items_in-some (arr t) s k = cc
items_in-some null s k = cc
items_in-some (bool b) s k = cc
items_in-some (int b) s k = cc
items_in-some (real b) s k = cc
items_in-some (str b) s k = cc
items_in-some (obj b) s k = cc

pub int_in-some : (v : Json) (i : ℤ) → int_in v ≡ some i → v ≡ int i
unfolding int_in
int_in-some (int t) s k = cc
int_in-some null s k = cc
int_in-some (bool b) s k = cc
int_in-some (arr b) s k = cc
int_in-some (real b) s k = cc
int_in-some (str b) s k = cc
int_in-some (obj b) s k = cc

pub not_empty_iff : (s : Text) → (not (is_empty s) ≡ true) ↔ (s ≢ [])
not_empty_iff [] = (λ k. cc, λ n. absurd (n refl))
not_empty_iff (c ∷ s) = (λ k e. cc, λ n. refl)

pub or_null-some : (o : Option Json) (v : Json) → v ≢ null → or_null o ≡ v → o ≡ some v
or_null-some none v n k = absurd (n (sym k))
or_null-some (some w) v n k = ap some k

-- A text under a key, by a test.
pub text_iff :
    (p : Text → Bool) (P : Text → Type 0) (k : Text) (fs : Fields)
    → ((s : Text) → (p s ≡ true) ↔ P s)
    → (test p (text_of (value k fs)) ≡ true) ↔ HasText k P fs
unfolding text_of
text_iff p P k fs iff = (
  λ e.
      let (s, at, y) = test-some p (text_of (value k fs)) e in
      (s, or_null-some (lookup k fs) (str s) (λ z. cc) (text_of-some _ s at), (iff s).0 y),
  λ (s, at, y). rw at ((iff s).1 y),
)

pub member_iff :
    (xs : List Text) (k : Text) (fs : Fields)
    → (member (value k fs) xs ≡ ok true) ↔ HasText k (λ s. contains s xs ≡ true) fs
member_iff xs k fs = (λ e. from_member (lookup k fs) e, λ (s, at, y). rw (at, y) refl)
  where
    from_member :
        (o : Option Json)
        → member (or_null o) xs ≡ ok true
        → (s : Text) × (o ≡ some (str s)) × (contains s xs ≡ true)
    from_member none e = cc
    from_member (some (str s)) e = (s, refl, cc)
    from_member (some null) e = cc
    from_member (some (bool b)) e = cc
    from_member (some (int b)) e = cc
    from_member (some (real b)) e = cc
    from_member (some (arr b)) e = cc
    from_member (some (obj b)) e = cc

pub int_iff :
    (n : ℕ) (k : Text) (fs : Fields)
    → (is_int n (value k fs) ≡ true) ↔ (lookup k fs ≡ some (int (pos n)))
unfolding int_in
int_iff n k fs = (
  λ e.
      let (i, at, y) = test-some (equals_nat n) (int_in (value k fs)) e in
      or_null-some (lookup k fs) (int (pos n)) (λ z. cc) (int_in-some _ i at ∙ ap int (pos_of i y)),
  λ at. rw at (ground arith),
)
  where
    pos_of : (i : ℤ) → equals_nat n i ≡ true → i ≡ pos n
    pos_of (pos m) y = ground arith
    pos_of (negsuc m) y = cc

pub positive_iff :
    (k : Text) (fs : Fields)
    → (is_positive (value k fs) ≡ true) ↔ ((n : ℕ) × (lookup k fs ≡ some (int (pos (suc n)))))
unfolding int_in
positive_iff k fs = (
  λ e.
      let (i, at, y) = test-some above_zero (int_in (value k fs)) e in
      let (n, is) = suc_of i y in
      (
        n,
        or_null-some (lookup k fs) (int (pos (suc n))) (λ z. cc) (int_in-some _ i at ∙ ap int is),
      ),
  λ (n, at). rw at (ground arith),
)
  where
    suc_of : (i : ℤ) → above_zero i ≡ true → (n : ℕ) × (i ≡ pos (suc n))
    suc_of (pos zero) y = cc
    suc_of (pos (suc n)) y = (n, refl)
    suc_of (negsuc m) y = cc
