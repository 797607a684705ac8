-- ===== src/Contracts/Arrays.antt =====
-- Arrays of texts, as the validation tests them.
use jvc_core.Base.{
  ◌≡◌, ◌≢◌, refl, ap, ◌∙◌, Bool, true, false, not, ◌&&◌, Option, none, some, List, [], ◌∷◌, Text,
  is_empty, is_some,
}
use jvc_core.Contracts.Json.{
  Json, str, arr, Items, nil, cons, text_of, items_in, is_nonempty, is_str, all_items, has_items,
  is_array_of,
}
use jvc_core.Contracts.Validate.{is_argv}
use jvc_core.Contracts.Shape.{
  All, str_items, candidate_items, IsArgv, test-some, text_of-some, items_in-some, not_empty_iff,
}

pub and_true : (a b : Bool) → (a && b) ≡ true → (a ≡ true) × (b ≡ true)
and_true true b k = (refl, k)
and_true false b k = cc

pub is_some-of : {A : Type 0} (o : Option A) → is_some o ≡ true → (a : A) × (o ≡ some a)
is_some-of none k = cc
is_some-of (some a) k = (a, refl)

-- Texts in an array.
strs-of : (vs : Items) → all_items is_str vs ≡ true → (ts : List Text) × (vs ≡ str_items ts)
unfolding all_items
strs-of nil k = ([], refl)
strs-of (cons v vs) k =
    let (a, b) = and_true (is_str v) (all_items is_str vs) k in
    let (s, at) = is_some-of (text_of v) a in
    let (ts, same) = strs-of vs b in
    (s ∷ ts, ap (λ w. cons w vs) (text_of-some v s at) ∙ ap (cons (str s)) same)

nonempty_of :
    (vs : Items)
    → all_items is_nonempty vs ≡ true
    → (ts : List Text) × (vs ≡ str_items ts) × All (λ t. t ≢ []) ts
unfolding all_items
nonempty_of nil k = ([], refl, tt)
nonempty_of (cons v vs) k =
    let (a, b) = and_true (is_nonempty v) (all_items is_nonempty vs) k in
    let (s, at, y) = test-some (λ s. not (is_empty s)) (text_of v) a in
    let (ts, same, all) = nonempty_of vs b in
    (
      s ∷ ts,
      ap (λ w. cons w vs) (text_of-some v s at) ∙ ap (cons (str s)) same,
      ((not_empty_iff s).0 y, all),
    )

all_items-nonempty :
    (ts : List Text) → All (λ t. t ≢ []) ts → all_items is_nonempty (str_items ts) ≡ true
unfolding all_items text_of
all_items-nonempty [] a = refl
all_items-nonempty (t ∷ ts) a = rw ((not_empty_iff t).1 a.0) (all_items-nonempty ts a.1)

all_items-strs : (ts : List Text) → all_items is_str (str_items ts) ≡ true
unfolding all_items text_of
all_items-strs [] = refl
all_items-strs (t ∷ ts) = all_items-strs ts

has_items-strs : (ts : List Text) → ts ≢ [] → has_items (str_items ts) ≡ true
has_items-strs [] n = absurd (n refl)
has_items-strs (t ∷ ts) n = refl

strs-ne : (ts : List Text) → has_items (str_items ts) ≡ true → ts ≢ []
strs-ne [] k = cc
strs-ne (t ∷ ts) k = λ e. cc

pub arguments_of :
    (v : Json) → is_argv v ≡ true → (ts : List Text) × (v ≡ arr (str_items ts)) × IsArgv ts
arguments_of v k =
    let (vs, at, y) = test-some (λ vs. has_items vs && all_items is_nonempty vs) (items_in v) k in
    let (h, all) = and_true (has_items vs) (all_items is_nonempty vs) y in
    let (ts, same, full) = nonempty_of vs all in
    (ts, items_in-some v vs at ∙ ap arr same, (strs-ne ts (rw same at h), full))

pub is_argv-argv : (ts : List Text) → IsArgv ts → is_argv (arr (str_items ts)) ≡ true
unfolding items_in
is_argv-argv ts i = rw (has_items-strs ts i.0, all_items-nonempty ts i.1) refl

pub probe-of :
    (v : Json)
    → is_array_of is_str v ≡ true
    → (ts : List Text) × (v ≡ arr (str_items ts)) × (ts ≢ [])
probe-of v k =
    let (vs, at, y) = test-some (λ vs. has_items vs && all_items is_str vs) (items_in v) k in
    let (h, all) = and_true (has_items vs) (all_items is_str vs) y in
    let (ts, same) = strs-of vs all in
    (ts, items_in-some v vs at ∙ ap arr same, strs-ne ts (rw same at h))

pub is_array_of-probe : (ts : List Text) → ts ≢ [] → is_array_of is_str (arr (str_items ts)) ≡ true
unfolding items_in
is_array_of-probe ts n = rw (has_items-strs ts n, all_items-strs ts) refl

candidates_in :
    (vs : Items)
    → all_items is_argv vs ≡ true
    → (cs : List (List Text)) × (vs ≡ candidate_items cs) × All IsArgv cs
unfolding all_items
candidates_in nil k = ([], refl, tt)
candidates_in (cons v vs) k =
    let (a, b) = and_true (is_argv v) (all_items is_argv vs) k in
    let (ts, at, i) = arguments_of v a in
    let (cs, same, all) = candidates_in vs b in
    (ts ∷ cs, ap (λ w. cons w vs) at ∙ ap (cons (arr (str_items ts))) same, (i, all))

all_items-candidates :
    (cs : List (List Text)) → All IsArgv cs → all_items is_argv (candidate_items cs) ≡ true
unfolding all_items
all_items-candidates [] a = refl
all_items-candidates (c ∷ cs) a = rw (is_argv-argv c a.0) (all_items-candidates cs a.1)

has_items-candidates : (cs : List (List Text)) → cs ≢ [] → has_items (candidate_items cs) ≡ true
has_items-candidates [] n = absurd (n refl)
has_items-candidates (t ∷ ts) n = refl

candidates-ne : (cs : List (List Text)) → has_items (candidate_items cs) ≡ true → cs ≢ []
candidates-ne [] k = cc
candidates-ne (t ∷ ts) k = λ e. cc

pub candidates-of :
    (v : Json)
    → is_array_of is_argv v ≡ true
    → (cs : List (List Text)) × (v ≡ arr (candidate_items cs)) × (cs ≢ []) × All IsArgv cs
candidates-of v k =
    let (vs, at, y) = test-some (λ vs. has_items vs && all_items is_argv vs) (items_in v) k in
    let (h, all) = and_true (has_items vs) (all_items is_argv vs) y in
    let (cs, same, full) = candidates_in vs all in
    (cs, items_in-some v vs at ∙ ap arr same, candidates-ne cs (rw same at h), full)

pub is_array_of-candidates :
    (cs : List (List Text))
    → cs ≢ []
    → All IsArgv cs
    → is_array_of is_argv (arr (candidate_items cs)) ≡ true
unfolding items_in
is_array_of-candidates cs n a = rw (has_items-candidates cs n, all_items-candidates cs a) refl
