-- ===== src/Routing/Resolve.antt =====
-- src/jvc/routing.py: `resolve_query`, and what `route_payload` says of a match, without its
-- contract.
use jvc_core.Base.{
  ℕ, Bool, true, false, ◌&&◌, ◌||◌, List, [], ◌∷◌, ◌++◌, map, Text, select, contains, length,
  before, ltb, nat_eq, if◌then◌else◌,
}
use jvc_core.Configuration.Registry.{Route}
use jvc_core.Routing.Words.{normalize, alias_present, has_marker}

pub record Match : Type 0 where
  pub route : Route
  pub matched : List Text

-- The project ID is an alias too.
abbrev pub all_aliases : Route → List Text
all_aliases r =
    if contains r.project_id r.aliases then r.aliases else r.aliases ++ r.project_id ∷ []

abbrev pub matched_aliases : Text → Route → List Text
matched_aliases query r = select (alias_present query) (all_aliases r)

abbrev pub has_any : List Text → Bool
has_any [] = false
has_any (a ∷ xs) = true

unfoldable pub find_matches : Text → List Route → List Match
unfolding alias_present contains
find_matches query [] = []
find_matches query (r ∷ rs) =
    let rest = find_matches query rs in
    if has_any (matched_aliases query r)
    then record { route = r; matched = matched_aliases query r } ∷ rest
    else rest

-- Longer aliases come first, those of one length in the order of their text.
abbrev pub precedes : Text → Text → Bool
precedes a b =
    ltb (length (normalize b)) (length (normalize a))
    || (nat_eq (length (normalize a)) (length (normalize b)) && before a b)

unfoldable pub insert_alias : Text → List Text → List Text
unfolding normalize before
insert_alias a [] = a ∷ []
insert_alias a (b ∷ bs) =
    let rest = insert_alias a bs in if precedes b a then b ∷ rest else a ∷ b ∷ bs

unfoldable pub sort_aliases : List Text → List Text
sort_aliases [] = []
sort_aliases (a ∷ xs) = insert_alias a (sort_aliases xs)

pub record Payload : Type 0 where
  pub project_id : Text
  pub root : Text
  pub status : Text
  pub matched : List Text
  pub startup : List Text
  pub handoff : Text

unfoldable pub route_payload : Match → Payload
unfolding sort_aliases
route_payload m = record {
  project_id = m.route.project_id;
  root = m.route.root;
  status = m.route.status;
  matched = sort_aliases m.matched;
  startup = map (λ rel. m.route.root ++ b'/' ∷ rel) m.route.startup;
  handoff = m.route.handoff;
}

pub data Resolution : Type 0 where
  unknown : Resolution
  routed : Payload → Resolution
  multi_route ambiguous : List Payload → Resolution

abbrev pub resolve_matches : Bool → List Match → Resolution
resolve_matches marked [] = unknown
resolve_matches marked (m ∷ []) = routed (route_payload m)
resolve_matches marked (m ∷ n ∷ ms) =
    if marked
    then multi_route (map route_payload (m ∷ n ∷ ms))
    else ambiguous (map route_payload (m ∷ n ∷ ms))

unfoldable pub resolve_query : (ℕ → Bool) → Text → List Route → Resolution
unfolding find_matches route_payload normalize
resolve_query unicode_word query routes =
    resolve_matches (has_marker unicode_word query) (find_matches (normalize query) routes)
