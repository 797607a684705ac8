-- ===== src/Executor/Contained.antt =====
-- A governed write changes nothing but a permitted target and the directories above it.
use jvc_core.Base.{◌≡◌, ◌⊎◌, Bool, true, Option, none, some, [], Text, get, encode, arith}
use jvc_core.Exec.{ok}
use jvc_core.Configuration.Registry.{Route, get_route}
use jvc_core.Recovery.World.{World, file, directory}
use jvc_core.Recovery.Effects.{IsOutside}
use jvc_core.Boundaries.Permitted.{IsPermitted}
use jvc_core.Executor.Atomic.{IsAbove, Atomic}
use jvc_core.Executor.Governed.{
  Platform, Setup, State, Moment, WriteRequest, existing, resolve_project, outside_host_stores,
}

-- A path that the request may change, of the project it names.
pub record MayWrite (p : Platform) (e : Setup) (q : WriteRequest) (x : Text) : Type 0 where
  pub route : Route
  pub canonical : Text
  pub authorized : Bool
  pub found : get_route e.registry q.project_id ≡ some route
  pub permitted : IsPermitted p.resolve route.root authorized [] [] x canonical
  pub apart : outside_host_stores p e x ≡ true

module _ (p : Platform) (e : Setup) (m : Moment) (q : WriteRequest) where
  pub resolve_project-ok :
      (project : Text) (route : Route)
      → resolve_project p e project ≡ ok route
      → get_route e.registry project ≡ some route
  unfolding resolve_project
  resolve_project-ok project route k = existing-ok _ route k
    where
      existing-ok : (o : Option Route) (route : Route) → existing p o ≡ ok route → o ≡ some route
      existing-ok none route k = cc
      existing-ok (some r) route k = ground arith

  module _ (x : Text) (outside : IsOutside p.recovery x) where
    abbrev Contained : State → State → Type 0
    Contained s s' =
        ((get x s'.world.disk ≡ get x s.world.disk)
          ⊎ ((target : Text) × MayWrite p e q target
              × IsAbove x target
              × (get x s.world.disk ≡ none)
              × (get x s'.world.disk ≡ some directory)))
        ⊎ (MayWrite p e q x × (get x s'.world.disk ≡ some (file (encode q.content))))
