-- ===== src/Routing/Tests.antt =====
-- The router at one registry.
use jvc_core.Base.{◌≡◌, ◌≢◌, ◌↔◌, refl, true, false, [], ◌∷◌, Text, codes, split, ◌==◌}
use jvc_core.Configuration.Registry.{Route}
use jvc_core.Routing.Words.{words, normalize, alias_present, has_marker}
use jvc_core.Routing.Segments.{IsSegment, alias_present_iff}
use jvc_core.Routing.Resolve.{multi_route, Resolution, route_payload, resolve_query}
use jvc_core.Routing.Outcomes.{Answers, resolve_query-Answers}

abbrev core : Route
core = record {
  project_id = codes "jvc-core";
  aliases = codes "jvc" ∷ [];
  root = codes "/jvc";
  startup = codes "AGENTS.md" ∷ [];
  handoff = codes "HANDOFF.md";
  status = codes "active";
}

abbrev site : Route
site = record core {
  project_id = codes "site";
  aliases = codes "web site" ∷ [];
  root = codes "/site";
}

abbrev query : Text
query = codes "Compare JVC, Web  site"

alias_present_iff_example :
    (alias_present (normalize query) (codes "web site") ≡ true)
    ↔ ((words (codes "web site") ≢ []) × IsSegment (words (codes "web site")) (words query))
alias_present_iff_example = alias_present_iff query (codes "web site")

abbrev answer : Resolution
answer = resolve_query (λ c. false) query (core ∷ site ∷ [])

both :
    answer
    ≡ multi_route (
        route_payload (record { route = core; matched = codes "jvc" ∷ [] })
        ∷ route_payload (record { route = site; matched = codes "web site" ∷ codes "site" ∷ [] })
        ∷ [])
unfolding resolve_query ◌==◌ split has_marker
both = refl

resolve_query-Answers_example : Answers (λ c. false) query (core ∷ site ∷ []) answer
resolve_query-Answers_example = resolve_query-Answers (λ c. false) query (core ∷ site ∷ [])
