-- ===== src/Routing/Outcomes.antt =====
-- What each answer of the router says of the registered routes.
use jvc_core.Base.{
  ℕ, ◌≡◌, ◌≢◌, refl, sym, ◌∙◌, ap, inl, inr, Bool, true, false, ◌||◌, List, [], ◌∷◌, ◌++◌, Text,
  ◌==◌, eq_iff, eq_refl, select, contains, Bool-cases, arith,
}
use mathlib.Core.Path.{subst}
use jvc_core.Configuration.Registry.{Route}
use jvc_core.Routing.Words.{words, normalize, alias_present, has_marker}
use jvc_core.Routing.Segments.{IsSegment, alias_present_iff}
use jvc_core.Routing.Resolve.{
  Match, all_aliases, matched_aliases, has_any, find_matches, Payload, route_payload, Resolution,
  unknown, routed, multi_route, ambiguous, resolve_matches, resolve_query,
}

-- The query has the words of the route's ID or of one of its aliases.
pub record IsNamed (query : Text) (r : Route) : Type 0 where
  pub alias : Text
  pub listed : contains alias (r.project_id ∷ r.aliases) ≡ true
  pub worded : words alias ≢ []
  pub present : IsSegment (words alias) (words query)

abbrev pub NoneNamed : Text → List Route → Type 0
NoneNamed query [] = Unit
NoneNamed query (r ∷ rs) = ¬ IsNamed query r × NoneNamed query rs

select-has_any :
    (p : Text → Bool) (xs : List Text)
    → has_any (select p xs) ≡ true
    → (a : Text) × (contains a xs ≡ true) × (p a ≡ true)
unfolding contains
select-has_any p [] k = cc
select-has_any p (x ∷ xs) k = elim (Bool-cases (p x)) [
  | inl t ↦ (x, rw (eq_refl x) refl, t)
  | inr t ↦ let (a, l, q) = select-has_any p xs (rw t at k) in (a, ground (arith, l), q)
]

-- An element with the property is not one without it.
later :
    (p : Text → Bool) (x : Text) (xs : List Text) (a : Text)
    → contains a (x ∷ xs) ≡ true
    → p a ≡ true
    → p x ≡ false
    → contains a xs ≡ true
unfolding contains
later p x xs a l k t = elim (Bool-cases (x == a)) [
  | inl e ↦ let z : (true ≡ false) = sym k ∙ ap p (sym ((eq_iff x a).0 e)) ∙ t in cc
  | inr e ↦ rw e at l
]

has_any-select :
    (p : Text → Bool) (xs : List Text) (a : Text)
    → contains a xs ≡ true
    → p a ≡ true
    → has_any (select p xs) ≡ true
unfolding contains
has_any-select p [] a l k = cc
has_any-select p (x ∷ xs) a l k = elim (Bool-cases (p x)) [
  | inl t ↦ rw t refl
  | inr t ↦ rw t (has_any-select p xs a (later p x xs a l k t) k)
]

contains-append :
    (a : Text) (xs ys : List Text) → contains a (xs ++ ys) ≡ (contains a xs || contains a ys)
unfolding contains
contains-append a [] ys = refl
contains-append a (x ∷ xs) ys = ground (arith, contains-append a xs ys)

or_swap : (b c : Bool) → (b || (c || false)) ≡ (c || b)
or_swap true true = refl
or_swap true false = refl
or_swap false true = refl
or_swap false false = refl

absorb : {b : Bool} (c : Bool) → (c ≡ true → b ≡ true) → b ≡ (c || b)
absorb true k = k refl
absorb false k = refl

contains-all_aliases :
    (a : Text) (r : Route) → contains a (all_aliases r) ≡ contains a (r.project_id ∷ r.aliases)
unfolding contains
contains-all_aliases a r = elim (Bool-cases (contains r.project_id r.aliases)) [
  | inl t ↦ rw t (absorb (r.project_id == a) (λ e. rw (← (eq_iff r.project_id a).0 e) t))
  | inr t ↦ rw (t, contains-append) (or_swap (contains a r.aliases) (r.project_id == a))
]

mentioned-IsNamed :
    (query : Text) (r : Route)
    → has_any (matched_aliases (normalize query) r) ≡ true
    → IsNamed query r
mentioned-IsNamed query r k =
    let (a, l, p) = select-has_any (alias_present (normalize query)) (all_aliases r) k in
    let (n, s) = (alias_present_iff query a).0 p in
    record { alias = a; listed = rw (← contains-all_aliases) l; worded = n; present = s }

IsNamed-mentioned :
    (query : Text) (r : Route)
    → IsNamed query r
    → has_any (matched_aliases (normalize query) r) ≡ true
IsNamed-mentioned query r i =
    has_any-select (alias_present (normalize query)) (all_aliases r) i.alias
      (rw contains-all_aliases i.listed) ((alias_present_iff query i.alias).1 (i.worded, i.present))

unmentioned :
    (query : Text) (r : Route)
    → has_any (matched_aliases (normalize query) r) ≡ false
    → ¬ IsNamed query r
unmentioned query r k = λ i. let m = IsNamed-mentioned query r i in cc

no_match-NoneNamed :
    (query : Text) (rs : List Route) → find_matches (normalize query) rs ≡ [] → NoneNamed query rs
unfolding find_matches
no_match-NoneNamed query [] k = tt
no_match-NoneNamed query (r ∷ rs) k =
    elim (Bool-cases (has_any (matched_aliases (normalize query) r))) [
      | inl t ↦ let k' = rw t at k in cc
      | inr t ↦ (unmentioned query r t, no_match-NoneNamed query rs (rw t at k))
    ]

uncons : {A : Type 0} {x y : A} {xs ys : List A} → (x ∷ xs) ≡ (y ∷ ys) → (x ≡ y) × (xs ≡ ys)
uncons e = (cc, cc)

-- The first route that is named.
pub record First (query : Text) (rs : List Route) (m : Match) (ms : List Match) : Type 0 where
  pub skipped : List Route
  pub rest : List Route
  pub parts : rs ≡ skipped ++ m.route ∷ rest
  pub unnamed : NoneNamed query skipped
  pub named : IsNamed query m.route
  pub others : find_matches (normalize query) rest ≡ ms

match-First :
    (query : Text) (rs : List Route) (m : Match) (ms : List Match)
    → find_matches (normalize query) rs ≡ m ∷ ms
    → First query rs m ms
unfolding find_matches
match-First query [] m ms k = cc
match-First query (r ∷ rs) m ms k =
    elim (Bool-cases (has_any (matched_aliases (normalize query) r))) [
      | inl t ↦ found (mentioned-IsNamed query r t) (rw t at k)
      | inr t ↦
          let i = match-First query rs m ms (rw t at k) in
          record {
            skipped = r ∷ i.skipped;
            rest = i.rest;
            parts = ap (λ v. r ∷ v) i.parts;
            unnamed = (unmentioned query r t, i.unnamed);
            named = i.named;
            others = i.others;
          }
    ]
  where
    found :
        {x : List Text}
        → IsNamed query r
        → record { route = r; matched = x } ∷ find_matches (normalize query) rs ≡ m ∷ ms
        → First query (r ∷ rs) m ms
    found n e =
        let (same, others) = uncons e in
        record {
          skipped = [];
          rest = rs;
          parts = ap (λ v. v.route ∷ rs) same;
          unnamed = tt;
          named = subst (λ v. IsNamed query v.route) same n;
          others = others;
        }

-- Exactly one route is named.
pub record OnlyOne (query : Text) (rs : List Route) (p : Payload) : Type 0 where
  pub route : Route
  pub leading : List Route
  pub trailing : List Route
  pub parts : rs ≡ leading ++ route ∷ trailing
  pub named : IsNamed query route
  pub unnamed : NoneNamed query leading × NoneNamed query trailing
  pub project : p.project_id ≡ route.project_id
  pub place : p.root ≡ route.root

-- Two routes are named, at different places of the registry.
pub record AtLeastTwo (query : Text) (rs : List Route) : Type 0 where
  pub first : Route
  pub second : Route
  pub leading : List Route
  pub between : List Route
  pub trailing : List Route
  pub parts : rs ≡ leading ++ first ∷ (between ++ second ∷ trailing)
  pub first_named : IsNamed query first
  pub second_named : IsNamed query second

module _ (unicode_word : ℕ → Bool) (query : Text) (rs : List Route) where
  abbrev pub Answers : Resolution → Type 0
  Answers unknown = NoneNamed query rs
  Answers (routed p) = OnlyOne query rs p
  Answers (multi_route ps) = AtLeastTwo query rs × (has_marker unicode_word query ≡ true)
  Answers (ambiguous ps) = AtLeastTwo query rs × (has_marker unicode_word query ≡ false)

  two_matches-AtLeastTwo :
      (m n : Match) (ms : List Match)
      → find_matches (normalize query) rs ≡ m ∷ n ∷ ms
      → AtLeastTwo query rs
  two_matches-AtLeastTwo m n ms k =
      let i = match-First query rs m (n ∷ ms) k in
      let j = match-First query i.rest n ms i.others in
      record {
        first = m.route;
        second = n.route;
        leading = i.skipped;
        between = j.skipped;
        trailing = j.rest;
        parts = i.parts ∙ ap (λ v. i.skipped ++ m.route ∷ v) j.parts;
        first_named = i.named;
        second_named = j.named;
      }

  matches-Answers :
      (ms : List Match)
      → find_matches (normalize query) rs ≡ ms
      → Answers (resolve_matches (has_marker unicode_word query) ms)
  unfolding route_payload
  matches-Answers [] k = no_match-NoneNamed query rs k
  matches-Answers (m ∷ []) k =
      let i = match-First query rs m [] k in
      record {
        route = m.route;
        leading = i.skipped;
        trailing = i.rest;
        parts = i.parts;
        named = i.named;
        unnamed = (i.unnamed, no_match-NoneNamed query i.rest i.others);
        project = refl;
        place = refl;
      }
  matches-Answers (m ∷ n ∷ ms) k = elim (Bool-cases (has_marker unicode_word query)) [
    | inl t ↦ rw t (two_matches-AtLeastTwo m n ms k, t)
    | inr t ↦ rw t (two_matches-AtLeastTwo m n ms k, t)
  ]

  -- The answer of the router, on every branch: UNKNOWN if no registered route has its ID or an alias
  -- in the query; ROUTED to the only route that has; of two or more, MULTI_ROUTE if the query has a
  -- marker of several projects, and AMBIGUOUS if it has none.
  pub resolve_query-Answers : Answers (resolve_query unicode_word query rs)
  unfolding resolve_query
  resolve_query-Answers = matches-Answers (find_matches (normalize query) rs) refl
