-- ===== src/Configuration/Passed.antt =====
-- The routes of a registry that passes its validation, one after another.
use jvc_core.Base.{
  ◌≡◌, ◌≢◌, refl, sym, ap, ◌∙◌, ◌⊎◌, inl, inr, Bool, true, false, not, ◌||◌, some, List, [], ◌∷◌,
  map, Text, ◌==◌, eq_iff, eq_refl, contains, get, get-put, is_some, arith, Bool-cases,
  if◌then◌else◌,
}
use mathlib.Core.Path.{subst}
use jvc_core.Configuration.Registry.{Route}
use jvc_core.Configuration.Validate.{
  Disk, missing_root, bad_startup, no_alias, is_startup, startup_issues, has_aliases, flag_unless,
  matches_id, is_project_id, Seen, alias_issues, root_key, route_issues, see, validate_from,
}
use jvc_core.Configuration.Aliases.{
  append-nil, flag_unless-nil, IsIn, Distinct, own_aliases-IsIn, alias_issues-owner,
}

module _ (d : Disk) (check_startup_files check_root_paths : Bool) where
  -- What a route without errors has, by what was seen before it.
  abbrev pub Clean : Seen → Route → Type 0
  Clean seen r =
      (is_project_id r.project_id ≡ true)
      × (contains r.project_id seen.ids ≡ false)
      × (is_some (get (root_key d check_root_paths r.root) seen.roots) ≡ false)
      × (alias_issues r.project_id seen.aliases r.aliases ≡ [])

  not-true : (b : Bool) → not b ≡ true → b ≡ false
  not-true true k = cc
  not-true false k = refl

  route_issues-Clean :
      (seen : Seen) (r : Route)
      → route_issues d check_startup_files check_root_paths seen r ≡ []
      → Clean seen r
  unfolding route_issues
  route_issues-Clean seen r k =
      let (e₁, k₁) = append-nil (flag_unless _ _) _ k in
      let (e₂, k₂) = append-nil (flag_unless _ _) _ k₁ in
      let (e₃, k₃) = append-nil (flag_unless _ _) _ k₂ in
      let (e₄, k₄) = append-nil (flag_unless _ _) _ k₃ in
      let (e₅, k₅) =
        append-nil
          (flag_unless (not check_root_paths || d.is_dir r.root) (missing_root r.project_id)) _
          k₄ in
      let (e₆, k₆) =
        append-nil (flag_unless (is_startup r.startup) (bad_startup r.project_id)) _ k₅ in
      let (e₇, k₇) =
        append-nil
          (if check_startup_files then startup_issues d r.project_id r.root r.startup else []) _
          k₆ in
      let (e₈, k₈) =
        append-nil (flag_unless (has_aliases r.aliases) (no_alias r.project_id)) _ k₇ in
      (
        flag_unless-nil _ _ e₁,
        not-true _ (flag_unless-nil _ _ e₂),
        not-true _ (flag_unless-nil _ _ e₄),
        k₈,
      )

  abbrev pub key_of : Route → Text
  key_of r = root_key d check_root_paths r.root

  -- The routes that follow have other IDs and other roots than those seen, and an alias that is seen
  -- belongs to its owner.
  pub validate_from-cons :
      (seen : Seen) (r : Route) (rs : List Route)
      → validate_from d check_startup_files check_root_paths seen (r ∷ rs) ≡ []
      → Clean seen r
        × (validate_from d check_startup_files check_root_paths
              (see d check_startup_files check_root_paths r seen)
              rs
            ≡ [])
  unfolding validate_from
  validate_from-cons seen r rs k =
      let (k₁, k₂) = append-nil (route_issues d check_startup_files check_root_paths seen r) _ k in
      (route_issues-Clean seen r k₁, k₂)

  contains-cons :
      (k s : Text) (ss : List Text) → contains k (s ∷ ss) ≡ true → (k ≡ s) ⊎ (contains k ss ≡ true)
  unfolding contains
  contains-cons k s ss e = ground (arith, eq_iff s k)

  -- An ID that has been seen is not met again.
  fresh-ids :
      (seen : Seen) (rs : List Route) (k : Text)
      → validate_from d check_startup_files check_root_paths seen rs ≡ []
      → contains k seen.ids ≡ true
      → contains k (map (λ r. r.project_id) rs) ≡ false
  unfolding contains
  fresh-ids seen [] k e c = refl
  fresh-ids seen (r ∷ rs) k e c =
      let ((named, unseen, other, owned), e₁) = validate_from-cons seen r rs e in
      elim (Bool-cases (r.project_id == k)) [
        | inl y ↦
            let same = (eq_iff r.project_id k).0 y in
            let z : (true ≡ false) = sym c ∙ (ap (λ s. contains s seen.ids) (sym same) ∙ unseen) in
            cc
        | inr n ↦
            rw
              (
                n,
                fresh-ids (see d check_startup_files check_root_paths r seen) rs k e₁
                    (rw (n, c) refl),
              )
              refl
      ]

  fresh-roots :
      (seen : Seen) (rs : List Route) (k : Text)
      → validate_from d check_startup_files check_root_paths seen rs ≡ []
      → is_some (get k seen.roots) ≡ true
      → contains k (map key_of rs) ≡ false
  unfolding contains
  fresh-roots seen [] k e c = refl
  fresh-roots seen (r ∷ rs) k e c =
      let ((named, unseen, other, owned), e₁) = validate_from-cons seen r rs e in
      elim (Bool-cases (key_of r == k)) [
        | inl y ↦
            let same = (eq_iff (key_of r) k).0 y in
            let z : (true ≡ false) =
              sym c ∙ (ap (λ s. is_some (get s seen.roots)) (sym same) ∙ other) in
            cc
        | inr n ↦
            rw
              (
                n,
                fresh-roots (see d check_startup_files check_root_paths r seen) rs k e₁
                    (rw (get-put (key_of r) k r.project_id seen.roots, n) c),
              )
              refl
      ]

  pub Distinct-ids :
      (seen : Seen) (rs : List Route)
      → validate_from d check_startup_files check_root_paths seen rs ≡ []
      → Distinct (map (λ r. r.project_id) rs)
  unfolding contains
  Distinct-ids seen [] e = tt
  Distinct-ids seen (r ∷ rs) e =
      let (clean, e₁) = validate_from-cons seen r rs e in
      (
        fresh-ids (see d check_startup_files check_root_paths r seen) rs r.project_id e₁
            (rw (eq_refl r.project_id) refl),
        Distinct-ids (see d check_startup_files check_root_paths r seen) rs e₁,
      )

  pub Distinct-roots :
      (seen : Seen) (rs : List Route)
      → validate_from d check_startup_files check_root_paths seen rs ≡ []
      → Distinct (map key_of rs)
  Distinct-roots seen [] e = tt
  Distinct-roots seen (r ∷ rs) e =
      let (clean, e₁) = validate_from-cons seen r rs e in
      (
        fresh-roots (see d check_startup_files check_root_paths r seen) rs (key_of r) e₁
            (rw (get-put (key_of r) (key_of r) r.project_id seen.roots, eq_refl (key_of r)) refl),
        Distinct-roots (see d check_startup_files check_root_paths r seen) rs e₁,
      )

  -- An alias that is seen belongs to its owner.
  owner-IsIn :
      (seen : Seen) (rs : List Route) (q : Route) (a o : Text)
      → validate_from d check_startup_files check_root_paths seen rs ≡ []
      → o ≢ []
      → get a seen.aliases ≡ some o
      → IsIn q rs
      → IsIn a q.aliases
      → q.project_id ≡ o
  owner-IsIn seen [] q a o e n g i j = absurd i
  owner-IsIn seen (r ∷ rs) q a o e n g i j =
      let ((named, unseen, other, owned), e₁) = validate_from-cons seen r rs e in
      let (kept, mine) = alias_issues-owner r.project_id a o seen.aliases r.aliases owned n g in
      elim i [
        | inl is ↦ ap (λ x. x.project_id) is ∙ mine (subst (λ x. IsIn a x.aliases) is j)
        | inr i₁ ↦
            owner-IsIn (see d check_startup_files check_root_paths r seen) rs q a o e₁ n kept i₁ j
      ]

  project_id-some : (s : Text) → is_project_id s ≡ true → s ≢ []
  unfolding matches_id
  project_id-some [] e n = cc
  project_id-some (c ∷ s) e n = cc

  pub shared-id :
      (seen : Seen) (rs : List Route) (q r : Route) (a : Text)
      → validate_from d check_startup_files check_root_paths seen rs ≡ []
      → IsIn q rs
      → IsIn r rs
      → IsIn a q.aliases
      → IsIn a r.aliases
      → q.project_id ≡ r.project_id
  shared-id seen [] q r a e i j k l = absurd i
  shared-id seen (h ∷ hs) q r a e i j k l =
      let ((named, unseen, other, owned), e₁) = validate_from-cons seen h hs e in
      let some_id = project_id-some h.project_id named in
      let owned_by = own_aliases-IsIn h.project_id a seen.aliases h.aliases in
      elim i [
        | inl is ↦ elim j [
          | inl js ↦ ap (λ x. x.project_id) (is ∙ sym js)
          | inr j₁ ↦
              ap (λ x. x.project_id) is
              ∙ sym (
                  owner-IsIn (see d check_startup_files check_root_paths h seen) hs r a h.project_id
                    e₁ some_id (owned_by (subst (λ x. IsIn a x.aliases) is k)) j₁ l)
        ]
        | inr i₁ ↦ elim j [
          | inl js ↦
              owner-IsIn (see d check_startup_files check_root_paths h seen) hs q a h.project_id e₁
                some_id (owned_by (subst (λ x. IsIn a x.aliases) js l)) i₁ k
              ∙ sym (ap (λ x. x.project_id) js)
          | inr j₁ ↦
              shared-id (see d check_startup_files check_root_paths h seen) hs q r a e₁ i₁ j₁ k l
        ]
      ]
