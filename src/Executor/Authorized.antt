-- ===== src/Executor/Authorized.antt =====
-- What stands behind a governed write that succeeds.
use jvc_core.Base.{
  ◌≡◌, refl, sym, ◌∙◌, ap, inl, inr, Bool, true, false, not, Option, none, some, [], Text, Bytes,
  get, encode, Bool-cases,
}
use mathlib.Core.Path.{subst}
use jvc_core.Exec.{
  bind-ok, guard-ok, lift-ok, Result, ok, err, after, pure, lift, guard, ◌>>=◌, Result-cases,
}
use jvc_core.Configuration.Registry.{Route, get_route}
use jvc_core.Recovery.World.{World, file}
use jvc_core.Recovery.Receipt.{Receipt}
use jvc_core.Boundaries.Paths.{is_control_plane_path}
use jvc_core.Boundaries.Targets.{PathError, assert_permitted_path}
use jvc_core.Boundaries.Permitted.{IsPermitted, assert_permitted_path-IsPermitted}
use jvc_core.Authority.Keys
use jvc_core.Authority.Redeem.{Store, validate_and_consume_capability}
use jvc_core.Authority.Once.{Redeemed, validate_and_consume_capability-Redeemed}
use jvc_core.Executor.Write.{WriteError, write_locked}
use jvc_core.Executor.Cas.{AsExpected, write_locked-ok}
use jvc_core.Executor.Contained.{resolve_project-ok}
use jvc_core.Executor.Governed.{
  Platform, Setup, State, Moment, WriteRequest, GovernedError, WriteOutcome, written, Clearance,
  cleared, asked, needs_cap, credentials, resolve_project, outside_host_stores, redeem_with,
  redeem_write, ask_operator, after_redeem, clear_write, perform_write, carry_out, fs_write,
  path_result, write_result, authority_result, write_proposal, escalation, escalates, write_to,
}

path_result-ok : {A : Type 0} (r : Result PathError A) (a : A) → path_result r ≡ ok a → r ≡ ok a
path_result-ok (ok b) a k = cc
path_result-ok (err x) a k = cc

world-ok :
    {A : Type 0} (r : Result WriteError A × World) (s t : State) (a : A)
    → ◌≡◌ {A = Result GovernedError A × State}
        (write_result r.0, record s { world = r.1 })
        (ok a, t)
    → (r ≡ (ok a, t.world)) × (t.confirmations ≡ s.confirmations)
world-ok (ok b, w) s t a k = (cc, cc)
world-ok (err x, w) s t a k = cc

confirmations-ok :
    {A : Type 0} (r : Result Keys.Error A × Store) (s t : State) (a : A)
    → ◌≡◌ {A = Result GovernedError A × State}
        (authority_result r.0, record s { confirmations = r.1 })
        (ok a, t)
    → (r ≡ (ok a, t.confirmations)) × (t.world ≡ s.world)
confirmations-ok (ok b, w) s t a k = (cc, cc)
confirmations-ok (err x, w) s t a k = cc

-- The operator's capability for exactly this write.
pub record IsPrivileged (p : Platform) (e : Setup) (m : Moment) (q : WriteRequest) (s s' : State)
    : Type 0 where
  pub secret : Bytes
  pub id : Text
  pub token : Text
  pub presented :
      credentials e.operator_secret q.confirmation_id q.confirmation_token
      ≡ some (secret, id, token)
  pub redeemed :
      Redeemed p.authority id token
        (write_proposal p q)
        secret
        m.now
        s.confirmations
        s'.confirmations

module _ (p : Platform) (e : Setup) (m : Moment) (q : WriteRequest) where
  redeem_with-true :
      (c : Option (Bytes × Text × Text)) (s t : State)
      → credentials e.operator_secret q.confirmation_id q.confirmation_token ≡ c
      → redeem_with p c m q s ≡ (ok true, t)
      → IsPrivileged p e m q s t × (t.world ≡ s.world)
  redeem_with-true none s t c k = cc
  redeem_with-true (some (secret, id, token)) s t c k =
      let (granted, same) =
        confirmations-ok
          (validate_and_consume_capability p.authority id token (write_proposal p q) secret m.now
            m.faults s.confirmations)
          s t true k in
      (
        record {
          secret = secret;
          id = id;
          token = token;
          presented = c;
          redeemed =
              validate_and_consume_capability-Redeemed p.authority id token (write_proposal p q)
                secret m.now m.faults s.confirmations t.confirmations granted;
        },
        same,
      )

  abbrev Clears : Route → State → State → Bool → Type 0
  Clears route s t b =
      (b ≡ needs_cap route q.relative_path)
      × (needs_cap route q.relative_path ≡ true → IsPrivileged p e m q s t)
      × (t.world ≡ s.world)

  redeemed-cleared :
      (authorized b : Bool) (s t : State)
      → after_redeem p authorized m q s ≡ (ok (cleared b), t)
      → (authorized ≡ true) × (b ≡ true) × (t ≡ s)
  redeemed-cleared true b s t k = (refl, cc, cc)
  redeemed-cleared false b s t k = elim (Bool-cases (is_control_plane_path [] [] q.relative_path)) [
    | inl c ↦ let k' = rw c at k in cc
    | inr c ↦
        let k' = rw c at k in
        let (cid, u, x, y) =
          bind-ok (ask_operator p m q) (λ cid. pure (asked cid)) s t (cleared b) k' in
        cc
  ]

  clear_write-cleared :
      (route : Route) (s t : State) (b : Bool)
      → clear_write p e route m q s ≡ (ok (cleared b), t)
      → Clears route s t b
  unfolding clear_write
  clear_write-cleared route s t b k = elim (Bool-cases (needs_cap route q.relative_path)) [
    | inr n ↦ let k' = rw n at k in (cc, (λ y. cc), cc)
    | inl n ↦
        let k' = rw n at k in
        let (a, u, x, y) =
          bind-ok (redeem_write p e m q) (λ a. after_redeem p a m q) s t (cleared b) k' in
        let (is, b_is, same) = redeemed-cleared a b u t y in
        let (privileged, kept) = redeem_with-true _ s t refl (rw (sym is, same) x) in
        (b_is ∙ sym n, λ z. privileged, kept)
  ]

  abbrev Performed : Text → Text → Receipt → State → State → Type 0
  Performed target canonical r s s' =
      (write_locked p.recovery q.project_id target (encode q.content) q.expected s.world
        ≡ (ok r, s'.world))
      × (s'.confirmations ≡ s.confirmations)

  locked-ok :
      (target c canonical : Text) (r : Receipt) (x : Result WriteError Receipt × World)
      (s s' : State)
      → ◌≡◌ {A = Result GovernedError WriteOutcome × State}
          (after (λ a t. (ok (written c a), t)) (write_result x.0) (record s { world = x.1 }))
          (ok (written canonical r), s')
      → (c ≡ canonical) × ((x ≡ (ok r, s'.world)) × (s'.confirmations ≡ s.confirmations))
  locked-ok target c canonical r (ok a, w) s s' k = (cc, (cc, cc))
  locked-ok target c canonical r (err z, w) s s' k = cc

  perform_write-ok :
      (route : Route) (b : Bool) (canonical : Text) (r : Receipt) (s s' : State)
      → perform_write p e route m q b s ≡ (ok (written canonical r), s')
      → (target : Text) × (assert_permitted_path p.resolve route.root q.relative_path b [] []
          ≡ ok (target, canonical))
        × (outside_host_stores p e target ≡ true)
        × Performed target canonical r s s'
  unfolding perform_write
  perform_write-ok route b canonical r s s' k =
      elim (Result-cases (assert_permitted_path p.resolve route.root q.relative_path b [] [])) [
        | inr (x, n) ↦ let k₁ = rw n at k in cc
        | inl ((target, c), n) ↦
            let k₁ = rw n at k in
            elim (Bool-cases (outside_host_stores p e target)) [
              | inr l ↦ let k₂ = rw l at k₁ in cc
              | inl l ↦
                  let k₂ = rw l at k₁ in
                  elim (Bool-cases m.acquired) [
                    | inr y ↦ let k₃ = rw y at k₂ in cc
                    | inl y ↦ finish target c n l (
                        locked-ok target c canonical r
                          (write_locked p.recovery q.project_id target (encode q.content) q.expected
                            s.world)
                          s s' (rw y at k₂))
                  ]
            ]
      ]
    where
      finish :
          (target c : Text)
          → assert_permitted_path p.resolve route.root q.relative_path b [] [] ≡ ok (target, c)
          → outside_host_stores p e target ≡ true
          → (c ≡ canonical) × Performed target canonical r s s'
          → (target : Text) × (assert_permitted_path p.resolve route.root q.relative_path b [] []
              ≡ ok (target, canonical))
            × (outside_host_stores p e target ≡ true)
            × Performed target canonical r s s'
      finish target c n l (same, done) = (target, n ∙ ap (λ v. ok (target, v)) same, l, done)

-- A governed write that went through.
pub record IsGoverned (p : Platform) (e : Setup) (m : Moment) (q : WriteRequest) (canonical : Text)
    (s s' : State) : Type 0 where
  pub route : Route
  pub target : Text
  pub found : get_route e.registry q.project_id ≡ some route
  pub permitted :
      IsPermitted p.resolve route.root (needs_cap route q.relative_path) [] [] target canonical
  pub apart : outside_host_stores p e target ≡ true
  pub privileged : needs_cap route q.relative_path ≡ true → IsPrivileged p e m q s s'
  pub expected : AsExpected p.recovery (get target s.world.disk) q.expected
  pub stored : get target s'.world.disk ≡ some (file (encode q.content))

module _ (p : Platform) (e : Setup) (m : Moment) (q : WriteRequest) (canonical : Text) (r : Receipt)
    (s s' : State) where
  at_end :
      (t : State)
      → s'.confirmations ≡ t.confirmations
      → IsPrivileged p e m q s t
      → IsPrivileged p e m q s s'
  at_end t kept i = record {
    secret = i.secret;
    id = i.id;
    token = i.token;
    presented = i.presented;
    redeemed =
        subst
          (λ v.
            Redeemed p.authority i.id i.token (write_proposal p q) i.secret m.now s.confirmations v)
          (sym kept) i.redeemed;
  }

  performed-IsGoverned :
      (route : Route) (b : Bool) (t : State)
      → get_route e.registry q.project_id ≡ some route
      → Clears p e m q route s t b
      → perform_write p e route m q b t ≡ (ok (written canonical r), s')
      → IsGoverned p e m q canonical s s'
  performed-IsGoverned route b t found (b_is, privileged, same) k =
      let (target, permitted, apart, (done, kept)) =
        perform_write-ok p e m q route b canonical r t s' k in
      let (expected, stored) =
        write_locked-ok p.recovery q.project_id target (encode q.content) q.expected t.world
          s'.world r done in
      record {
        route = route;
        target = target;
        found = found;
        permitted =
            subst (λ v. IsPermitted p.resolve route.root v [] [] target canonical) b_is
              (assert_permitted_path-IsPermitted p.resolve route.root q.relative_path b [] [] target
                canonical permitted);
        apart = apart;
        privileged = λ z. at_end t kept (privileged z);
        expected = rw (← same) expected;
        stored = stored;
      }

  -- What is written was cleared.
  carried_out-cleared :
      (route : Route) (c : Result GovernedError Clearance) (t : State)
      → after (carry_out p e route m q) c t ≡ (ok (written canonical r), s')
      → (b : Bool) × (c ≡ ok (cleared b))
        × (perform_write p e route m q b t ≡ (ok (written canonical r), s'))
  carried_out-cleared route (err z) t k = cc
  carried_out-cleared route (ok (asked cid)) t k = cc
  carried_out-cleared route (ok (cleared b)) t k = (b, refl, k)

  resolved-IsGoverned :
      (route : Route) (c : Result GovernedError Clearance) (t : State)
      → get_route e.registry q.project_id ≡ some route
      → clear_write p e route m q s ≡ (c, t)
      → after (carry_out p e route m q) c t ≡ (ok (written canonical r), s')
      → IsGoverned p e m q canonical s s'
  resolved-IsGoverned route c t found at k =
      let (b, is, k₁) = carried_out-cleared route c t k in
      performed-IsGoverned route b t found
        (clear_write-cleared p e m q route s t b (at ∙ ap (λ z. (z, t)) is)) k₁

  write_to-IsGoverned :
      (route : Route) (t : State)
      → get_route e.registry q.project_id ≡ some route
      → t ≡ s
      → write_to p e m q route t ≡ (ok (written canonical r), s')
      → IsGoverned p e m q canonical s s'
  write_to-IsGoverned route t found same k =
      resolved-IsGoverned route _ _ found refl (rw (← same) k)

-- A governed write that returns a receipt has put its content at a permitted target of the named
-- project, outside the stores of the executor, where it found what the caller expected; and if the
-- project is held or the path is of the control plane, it has redeemed a capability, unused until
-- then, that the operator signed for this project, path, hash of the payload and preimage.
pub fs_write-IsGoverned :
    (p : Platform) (e : Setup) (m : Moment) (q : WriteRequest) (canonical : Text) (r : Receipt)
    (s s' : State)
    → fs_write p e m q s ≡ (ok (written canonical r), s')
    → IsGoverned p e m q canonical s s'
unfolding fs_write
fs_write-IsGoverned p e m q canonical r s s' k =
    let (u, t, g, k₁) =
      bind-ok (guard (not (escalates q)) escalation)
        (λ x. lift (resolve_project p e q.project_id) >>= write_to p e m q) s s'
        (written canonical r) k in
    let (route, t', l, k₂) =
      bind-ok (lift (resolve_project p e q.project_id)) (write_to p e m q) t s'
        (written canonical r) k₁ in
    let (y, same) = lift-ok (resolve_project p e q.project_id) t t' route l in
    write_to-IsGoverned p e m q canonical r s s' route t'
      (resolve_project-ok p e m q q.project_id route y)
      (same ∙ (guard-ok (not (escalates q)) escalation s t u g).1) k₂
