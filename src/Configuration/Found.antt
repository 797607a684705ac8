-- ===== src/Configuration/Found.antt =====
-- What a registry is that passes its validation.
use jvc_core.Base.{
  ◌≡◌, refl, sym, ap, ◌∙◌, inl, inr, Bool, true, false, ◌||◌, some, List, [], ◌∷◌, map, Text, Dict,
  ◌==◌, eq_iff, eq_refl, contains, get, get-put, is_some, Bool-cases,
}
use mathlib.Core.Path.{subst}
use jvc_core.Configuration.Registry.{Route, register_route, register_all, make_registry, get_route}
use jvc_core.Configuration.Validate.{Disk, Seen, validate_from, validate_registry, see, nothing}
use jvc_core.Configuration.Aliases.{IsIn, Distinct}
use jvc_core.Configuration.Passed.{
  key_of, validate_from-cons, Distinct-ids, Distinct-roots, shared-id,
}

-- A route that is registered stays.
register_route-get :
    (r : Route) (k : Text) (q : Route) (routes : Dict Route)
    → get k routes ≡ some q
    → get k (register_route r routes) ≡ some q
register_route-get r k q routes e = elim (Bool-cases (is_some (get r.project_id routes))) [
  | inl y ↦ rw y e
  | inr n ↦ rw (n, get-put r.project_id k r routes, other n) e
]
  where
    other : is_some (get r.project_id routes) ≡ false → (r.project_id == k) ≡ false
    other n = elim (Bool-cases (r.project_id == k)) [
      | inr y ↦ y
      | inl y ↦
          let z : (true ≡ false) =
            sym (ap is_some (ap (λ s. get s routes) ((eq_iff r.project_id k).0 y) ∙ e)) ∙ n in
          cc
    ]

register_all-get :
    (rs : List Route) (k : Text) (q : Route) (routes : Dict Route)
    → get k routes ≡ some q
    → get k (register_all rs routes) ≡ some q
unfolding register_all
register_all-get [] k q routes e = e
register_all-get (r ∷ rs) k q routes e =
    register_all-get rs k q (register_route r routes) (register_route-get r k q routes e)

-- A route of a new ID is registered.
register_route-new :
    (r : Route) (routes : Dict Route)
    → is_some (get r.project_id routes) ≡ false
    → get r.project_id (register_route r routes) ≡ some r
register_route-new r routes n =
    rw (n, get-put r.project_id r.project_id r routes, eq_refl r.project_id) refl

-- After the registration the IDs registered are those before it and the new one.
register_route-is_some :
    (r : Route) (routes : Dict Route) (k : Text)
    → is_some (get r.project_id routes) ≡ false
    → is_some (get k (register_route r routes)) ≡ ((r.project_id == k) || is_some (get k routes))
register_route-is_some r routes k n = elim (Bool-cases (r.project_id == k)) [
  | inl y ↦ rw (n, get-put r.project_id k r routes, y) refl
  | inr y ↦ rw (n, get-put r.project_id k r routes, y) refl
]

none_seen : (k : Text) → is_some (get {V = Route} k []) ≡ contains k []
unfolding get contains
none_seen k = refl

module _ (d : Disk) (check_startup_files check_root_paths : Bool) where
  found-IsIn :
      (rs : List Route) (seen : Seen) (routes : Dict Route) (q : Route)
      → ((k : Text) → is_some (get k routes) ≡ contains k seen.ids)
      → validate_from d check_startup_files check_root_paths seen rs ≡ []
      → IsIn q rs
      → get q.project_id (register_all rs routes) ≡ some q
  unfolding register_all contains
  found-IsIn [] seen routes q same e i = absurd i
  found-IsIn (r ∷ rs) seen routes q same e i =
      let ((named, unseen, other, owned), e₁) =
        validate_from-cons d check_startup_files check_root_paths seen r rs e in
      let new : (is_some (get r.project_id routes) ≡ false) = same r.project_id ∙ unseen in
      elim i [
        | inl is ↦ register_all-get rs q.project_id q (register_route r routes) (
            subst (λ x. get x.project_id (register_route r routes) ≡ some x) (sym is)
              (register_route-new r routes new))
        | inr j ↦
            found-IsIn rs (see d check_startup_files check_root_paths r seen)
              (register_route r routes) q
              (λ k.
                register_route-is_some r routes k new ∙ ap (λ b. (r.project_id == k) || b) (same k))
              e₁ j
      ]

  -- In a registry that passes its validation, whichever of the checks of files it makes: each listed
  -- route is found under its project ID; no two routes have one ID or one root, by the key that
  -- compares roots; and no two routes have an alias in common.
  pub validate_registry-IsIn :
      (rs : List Route)
      → validate_registry d check_startup_files check_root_paths rs ≡ []
      → ((q : Route) → IsIn q rs → get_route (make_registry rs) q.project_id ≡ some q)
        × Distinct (map (λ (r : Route). r.project_id) rs)
        × Distinct (map (key_of d check_startup_files check_root_paths) rs)
        × ((q r : Route) (a : Text)
            → IsIn q rs
            → IsIn r rs
            → IsIn a q.aliases
            → IsIn a r.aliases
            → q ≡ r)
  unfolding validate_registry make_registry get_route
  validate_registry-IsIn rs e = (
    found,
    Distinct-ids d check_startup_files check_root_paths nothing rs e,
    Distinct-roots d check_startup_files check_root_paths nothing rs e,
    (λ q r a i j k l.
        same_route q r (shared-id d check_startup_files check_root_paths nothing rs q r a e i j k l)
          (found q i) (found r j)),
  )
    where
      found : (q : Route) → IsIn q rs → get q.project_id (register_all rs []) ≡ some q
      found q i = found-IsIn rs nothing [] q none_seen e i

      same_route :
          (q r : Route)
          → q.project_id ≡ r.project_id
          → get q.project_id (register_all rs []) ≡ some q
          → get r.project_id (register_all rs []) ≡ some r
          → q ≡ r
      same_route q r same e₁ e₂ =
          injective (sym e₁ ∙ (ap (λ s. get s (register_all rs [])) same ∙ e₂))
        where
          injective : some q ≡ some r → q ≡ r
          injective k = cc
