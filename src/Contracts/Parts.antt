-- ===== src/Contracts/Parts.antt =====
-- The parts of a contract are accepted exactly if they are well-formed.
use jvc_core.Base.{
  ◌≡◌, ◌↔◌, refl, ◌⊎◌, inl, inr, Bool, true, false, Option, none, some, List, [], ◌∷◌, ◌++◌, Text,
  codes, contains,
}
use jvc_core.Exec.{Result, ok, err}
use jvc_core.Contracts.Json.{
  Json, null, bool, int, real, str, arr, obj, Items, Fields, ◌>>=◌, lookup, value, text_of, is_str,
  is_array_of,
}
use jvc_core.Contracts.Validate.{
  CheckIssue, flag, named, python_issues, object_issues, declared_issues, check_issues, is_argv,
  is_int, is_positive,
}
use jvc_core.Contracts.Shape.{
  str_items, candidate_items, IsCheck, IsDeclared, IsPython, or_null-some, text_of-some, int_iff,
  positive_iff,
}
use jvc_core.Contracts.Arrays.{
  is_some-of, arguments_of, is_argv-argv, probe-of, is_array_of-probe, candidates-of,
  is_array_of-candidates,
}

pub flag-nil :
    {A : Type 0} (b : Bool) (i : A) (rest : List A)
    → (flag b i ++ rest) ≡ []
    → (b ≡ true) × (rest ≡ [])
flag-nil true i rest k = (refl, k)
flag-nil false i rest k = cc

pub append-nil : {A : Type 0} (xs ys : List A) → (xs ++ ys) ≡ [] → (xs ≡ []) × (ys ≡ [])
append-nil [] ys k = (refl, k)
append-nil (x ∷ xs) ys k = cc

-- Flags alone.
flag_iff : {A : Type 0} (b : Bool) (i : A) → (flag b i ≡ []) → b ≡ true
flag_iff true i k = refl
flag_iff false i k = cc

-- Inversion of a chain.
pub bind-ok :
    {E A B : Type 0} (m : Result E A) (f : A → Result E B) (b : B)
    → (m >>= f) ≡ ok b
    → (a : A) × (m ≡ ok a) × (f a ≡ ok b)
bind-ok (ok a) f b k = (a, refl, k)
bind-ok (err e) f b k = cc

pub ok-injective : {E A : Type 0} {a b : A} → ◌≡◌ {A = Result E A} (ok a) (ok b) → a ≡ b
ok-injective k = cc

from_value :
    (k : Text) (fs : Fields) (vs : Items) → value k fs ≡ arr vs → lookup k fs ≡ some (arr vs)
from_value k fs vs e = or_null-some (lookup k fs) (arr vs) (λ z. cc) e

-- The value under a key is a text.
is_str-of :
    (k : Text) (fs : Fields)
    → is_str (value k fs) ≡ true
    → (s : Text) × (lookup k fs ≡ some (str s))
is_str-of k fs e =
    let (s, at) = is_some-of (text_of (value k fs)) e in
    (s, or_null-some (lookup k fs) (str s) (λ z. cc) (text_of-some _ s at))

object_issues-IsCheck : (c : Fields) → object_issues c ≡ [] → IsCheck c
object_issues-IsCheck c k =
    let (e₁, k₁) = flag-nil (is_argv (value (codes "argv") c)) _ _ k in
    let (e₂, k₂) = flag-nil (is_positive (value (codes "timeout_seconds") c)) _ _ k₁ in
    let (e₃, k₃) = flag-nil (is_int 0 (value (codes "expected_exit") c)) _ _ k₂ in
    let e₄ = flag_iff (is_str (value (codes "expected_contains") c)) _ k₃ in
    let (ts, at, is) = arguments_of (value (codes "argv") c) e₁ in
    let (n, timeout) = (positive_iff (codes "timeout_seconds") c).0 e₂ in
    let (s, contains) = is_str-of (codes "expected_contains") c e₄ in
    record {
      argv = ts;
      argv_at = from_value (codes "argv") c (str_items ts) at;
      argv_is = is;
      seconds = n;
      timeout_at = timeout;
      exit_at = (int_iff 0 (codes "expected_exit") c).0 e₃;
      needle = s;
      contains_at = contains;
    }

IsCheck-object_issues : (c : Fields) → IsCheck c → object_issues c ≡ []
unfolding text_of
IsCheck-object_issues c i =
    rw
      (
        i.argv_at,
        is_argv-argv i.argv i.argv_is,
        (positive_iff (codes "timeout_seconds") c).1 (i.seconds, i.timeout_at),
        (int_iff 0 (codes "expected_exit") c).1 i.exit_at,
        i.contains_at,
      )
      refl

named-nil : (name : Text) (xs : List CheckIssue) → named name xs ≡ [] → xs ≡ []
named-nil name [] k = refl
named-nil name (x ∷ xs) k = cc

declared-IsDeclared :
    (o : Option Json)
    → declared_issues o ≡ []
    → (o ≡ some null) ⊎ ((c : Fields) × (o ≡ some (obj c)) × IsCheck c)
unfolding declared_issues
declared-IsDeclared none k = cc
declared-IsDeclared (some null) k = inl refl
declared-IsDeclared (some (obj c)) k = inr (c, refl, object_issues-IsCheck c k)
declared-IsDeclared (some (bool c)) k = cc
declared-IsDeclared (some (int c)) k = cc
declared-IsDeclared (some (real c)) k = cc
declared-IsDeclared (some (str c)) k = cc
declared-IsDeclared (some (arr c)) k = cc

pub check_iff : (name : Text) (fs : Fields) → (check_issues name fs ≡ []) ↔ IsDeclared name fs
unfolding declared_issues
check_iff name fs = (λ k. declared-IsDeclared (lookup name fs) (named-nil name _ k), back)
  where
    back : IsDeclared name fs → check_issues name fs ≡ []
    back (inl n) = rw n refl
    back (inr (c, at, i)) = rw (at, IsCheck-object_issues c i) refl

pub python-IsPython :
    (r : Fields)
    → lookup (codes "kind") r ≡ some (str (codes "python"))
    → python_issues r ≡ []
    → IsPython r
python-IsPython r kind k =
    let (e₁, k₁) = flag-nil (is_array_of is_argv (value (codes "candidates") r)) _ _ k in
    let e₂ = flag_iff (is_array_of is_str (value (codes "probe_argv") r)) _ k₁ in
    let (cs, at, ne, are) = candidates-of (value (codes "candidates") r) e₁ in
    let (ts, here, some_probe) = probe-of (value (codes "probe_argv") r) e₂ in
    record {
      kind_at = kind;
      candidates = cs;
      candidates_at = from_value (codes "candidates") r (candidate_items cs) at;
      some_candidate = ne;
      candidates_are = are;
      probe = ts;
      probe_at = from_value (codes "probe_argv") r (str_items ts) here;
      some_probe = some_probe;
    }

pub IsPython-python_issues : (r : Fields) → IsPython r → python_issues r ≡ []
IsPython-python_issues r i =
    rw
      (
        i.candidates_at,
        is_array_of-candidates i.candidates i.some_candidate i.candidates_are,
        i.probe_at,
        is_array_of-probe i.probe i.some_probe,
      )
      refl
