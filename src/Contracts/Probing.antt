-- ===== src/Contracts/Probing.antt =====
-- The runtime that a valid contract resolves to.
use jvc_core.Base.{zero, ◌≡◌, ◌⊎◌, inl, inr, some, List, [], ◌∷◌, ◌++◌, map, Text}
use jvc_core.Exec.{Result, ok, err}
use jvc_core.Contracts.Json.{pos, Fields, Fault}
use jvc_core.Contracts.Shape.{All, IsPython, IsRuntime}
use jvc_core.Contracts.Expand.{expand}
use jvc_core.Contracts.Runtime.{
  Process, finished, raises, Machine, Attempt, Runtime, none_required, resolved, unresolved, Probed,
  accepted, refused, locate,
}

-- The candidate names an executable that is there, and its probe ends with the code 0.
abbrev pub Starts : Machine → Text → List Text → List Text → List Text → Type 0
Starts m root probe [] argv = ⊥
Starts m root probe (t ∷ ts) argv =
    (path out error : Text) × (locate m (expand m.expandvars root t) ≡ some path)
    × (argv ≡ path ∷ map (expand m.expandvars root) ts)
    × (m.run ((path ∷ map (expand m.expandvars root) ts) ++ map (expand m.expandvars root) probe) 30
        ≡ finished (pos zero) out error)

-- The candidate names an executable that is there, and the call of its probe raises the exception.
abbrev pub Breaks : Machine → Text → List Text → List Text → Fault → Type 0
Breaks m root probe [] e = ⊥
Breaks m root probe (t ∷ ts) e =
    (path : Text) × (locate m (expand m.expandvars root t) ≡ some path)
    × (raises (
          m.run ((path ∷ map (expand m.expandvars root) ts) ++ map (expand m.expandvars root) probe)
            30)
        ≡ some e)

abbrev pub Fails : Machine → Text → List Text → List Text → Type 0
Fails m root probe c =
    ((argv : List Text) → Starts m root probe c argv → ⊥)
    × ((e : Fault) → Breaks m root probe c e → ⊥)

module _ (m : Machine) (root : Text) (r : Fields) (i : IsPython r) where
  abbrev Outcome : List Text → Result Fault Probed → Type 0
  Outcome c res =
      (((argv : List Text) × Starts m root i.probe c argv × (res ≡ ok (accepted argv)))
        ⊎ (Fails m root i.probe c × (a : Attempt) × (res ≡ ok (refused a))))
      ⊎ ((e : Fault) × Breaks m root i.probe c e × (res ≡ err e))

  abbrev located : Text → List Text → Text → List Text
  located t ts path = path ∷ map (expand m.expandvars root) ts

  abbrev probed_run : List Text → Process
  probed_run argv = m.run (argv ++ map (expand m.expandvars root) i.probe) 30

  -- The first candidate that starts is taken, after those that fail; the first whose probe raises
  -- an exception that is not caught ends the search with it.
  abbrev pub Tried : List (List Text) → Result Fault Runtime → Type 0
  Tried cs res =
      (((before after : List (List Text)) × (c argv : List Text) × (attempts : List Attempt) × (cs
            ≡ before ++ c ∷ after)
          × All (Fails m root i.probe) before
          × Starts m root i.probe c argv
          × (res ≡ ok (resolved argv attempts)))
        ⊎ (All (Fails m root i.probe) cs
            × (attempts : List Attempt) × (res ≡ ok (unresolved attempts))))
      ⊎ ((before after : List (List Text)) × (c : List Text) × (e : Fault) × (cs
            ≡ before ++ c ∷ after)
          × All (Fails m root i.probe) before
          × Breaks m root i.probe c e
          × (res ≡ err e))

abbrev pub Resolved :
    (m : Machine) (root : Text) (r : Fields) → IsRuntime r → Result Fault Runtime → Type 0
Resolved m root r (inl none_at) res = res ≡ ok none_required
Resolved m root r (inr i) res = Tried m root r i i.candidates res
