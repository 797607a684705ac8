-- ===== src/Configuration/Tests.antt =====
-- A registry of two projects.
use jvc_core.Base.{
  ◌++◌, has_infix, strip, split, strip_code, ◌≡◌, refl, true, some, List, [], ◌∷◌, map, Text, codes,
  ◌==◌, casefold, contains, get, put, before,
}
use jvc_core.Exec.{ok}
use jvc_core.Configuration.Table.{parse_registry_table}
use jvc_core.Configuration.Registry.{Route, make_registry, get_route}
use jvc_core.Configuration.Validate.{Disk, matches_id, index_of, validate_registry}
use jvc_core.Configuration.Aliases.{IsIn, Distinct}
use jvc_core.Configuration.Passed.{key_of}
use jvc_core.Configuration.Found.{validate_registry-IsIn}

abbrev disk : Disk
disk = record {
  exists = λ p. true;
  is_dir = λ p. true;
  is_file = λ p. true;
  resolve = λ p. p;
  join = λ p q. p;
}

abbrev route : Text → Text → Text → Route
route id alias root = record {
  project_id = id;
  aliases = alias ∷ codes "jvc" ∷ [];
  root = root;
  startup = codes "AGENTS.md" ∷ codes "CONTEXT.md" ∷ codes "HANDOFF.md" ∷ [];
  handoff = codes "HANDOFF.md";
  status = codes "active";
}

abbrev demo : Route
demo = route (codes "demo-1") (codes "d") (codes "/p")

abbrev other : Route
other = record {
  project_id = codes "other";
  aliases = codes "o" ∷ [];
  root = codes "/Q";
  startup = codes "AGENTS.md" ∷ codes "x" ∷ codes "CONTEXT.md" ∷ codes "HANDOFF.md" ∷ [];
  handoff = codes "HANDOFF.md";
  status = codes "held";
}

abbrev routes : List Route
routes = demo ∷ other ∷ []

passed : validate_registry disk true true routes ≡ []
unfolding validate_registry matches_id contains ◌==◌ get index_of put casefold before
passed = refl

validate_registry-IsIn_example :
    ((q : Route) → IsIn q routes → get_route (make_registry routes) q.project_id ≡ some q)
    × Distinct (map (λ (r : Route). r.project_id) routes)
    × Distinct (map (key_of disk true true) routes)
    × ((q r : Route) (a : Text)
        → IsIn q routes
        → IsIn r routes
        → IsIn a q.aliases
        → IsIn a r.aliases
        → q ≡ r)
validate_registry-IsIn_example = validate_registry-IsIn disk true true routes passed

abbrev table : Text
table =
    codes "| Project ID | x | Status |"
    ++ 10 ∷ codes "|-|"
    ++ 10
      ∷ codes
          "| `demo-1` | `D`, jvc | `/p` | `AGENTS.md` `CONTEXT.md` `HANDOFF.md` | HANDOFF.md | `Active` |"
    ++ 13
      ∷ 10
      ∷ codes
          "| `other` | o | `/Q` | `AGENTS.md`, `x`, `CONTEXT.md` `HANDOFF.md` | HANDOFF.md | held |"
    ++ 10 ∷ 10 ∷ codes "end"

-- The table of the two projects.
parsed : parse_registry_table (λ p. p) table ≡ ok routes
unfolding parse_registry_table has_infix strip split strip_code casefold
parsed = refl
