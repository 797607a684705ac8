-- ===== src/Configuration/Registry.antt =====
-- src/jvc/configuration.py: `Route` and the lookup of `ProjectRegistry`.
use jvc_core.Base.{
  ◌||◌, Option, List, [], ◌∷◌, Text, Dict, codes, ◌==◌, get, put, is_some, if◌then◌else◌,
}

pub record Route : Type 0 where
  pub project_id : Text
  pub aliases : List Text
  pub root : Text
  pub startup : List Text
  pub handoff : Text
  pub status : Text

unfoldable pub lifecycle : Route → Text
lifecycle r =
    if r.status == codes "held" || r.status == codes "complete" || r.status == codes "superseded"
    then r.status
    else codes "active"

unfoldable pub capability_class : Route → Text
capability_class r =
    if r.status == codes "restricted-tooling" || r.status == codes "private-content"
    then r.status
    else codes "standard"

-- The first route of an ID stays.
abbrev pub register_route : Route → Dict Route → Dict Route
register_route r routes =
    if is_some (get r.project_id routes) then routes else put r.project_id r routes

unfoldable pub register_all : List Route → Dict Route → Dict Route
register_all [] routes = routes
register_all (r ∷ rs) routes = register_all rs (register_route r routes)

pub record ProjectRegistry : Type 0 where
  pub route_list : List Route
  pub routes : Dict Route

unfoldable pub make_registry : List Route → ProjectRegistry
make_registry rs = record { route_list = rs; routes = register_all rs [] }

unfoldable pub get_route : ProjectRegistry → Text → Option Route
get_route registry project_id = get project_id registry.routes
