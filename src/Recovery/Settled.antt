-- ===== src/Recovery/Settled.antt =====
-- Settled entries: what a restart leaves behind.
use jvc_core.Base.{
  ◌≡◌, refl, ◌∙◌, ◌⊎◌, inl, inr, Bool, true, false, not, Option, none, some, Text, ◌==◌, eq_refl,
  get, if◌then◌else◌, Bool-cases, arith, is_empty,
}
use jvc_core.Recovery.Receipt.{
  Receipt, TxState, prepared, applied, verified, recovered_unapplied, recovery_required,
  rolled_back, superseded, Entry, object, read_valid, is_incomplete, unparseable, non_object,
}
use jvc_core.Recovery.World.{Host, World, Reading, observed, os_error, mark}
use jvc_core.Recovery.Reconcile.{
  Outcome, finalized, required, finalize_rollback, reconcile_rollback, reconcile_one,
  complete_source, resume_rollback, resume_write, decide_state, decide_read, audit_verified,
  decide_locked, mark_invalid,
}
use jvc_core.Recovery.Frame.{get-mark}

-- No valid receipt of an incomplete transaction stands there.
unfoldable pub is_settled : Option Entry → Bool
unfolding read_valid is_incomplete
is_settled e = elim (read_valid e) [ none ↦ true | some r ↦ not (is_incomplete r.tx_state) ]

-- A step from `w` to `w'` at `name`: it settles that entry, every other stays settled, and one that
-- changes is settled.
pub record Settles (name : Text) (w w' : World) : Type 0 where
  pub own : is_settled (get name w'.journal) ≡ true
  pub keeps :
      (j : Text) → is_settled (get j w.journal) ≡ true → is_settled (get j w'.journal) ≡ true
  pub frame :
      (j : Text) → (get j w'.journal ≡ get j w.journal) ⊎ (is_settled (get j w'.journal) ≡ true)

object_settled :
    (r : Receipt) (s : TxState)
    → is_incomplete s ≡ false
    → is_settled (some (object (record r { tx_state = s }))) ≡ true
unfolding is_settled
object_settled r s h = ground arith

mark_keeps :
    (name j : Text) (r : Receipt) (s : TxState) (w : World)
    → is_incomplete s ≡ false
    → is_settled (get j w.journal) ≡ true
    → is_settled (get j (mark name r s w).journal) ≡ true
mark_keeps name j r s w h k =
    rw get-mark
      (elim (Bool-cases (name == j)) [ inl e ↦ rw e (object_settled r s h) | inr e ↦ rw e k ])

mark_frame :
    (name j : Text) (r : Receipt) (s : TxState) (w : World)
    → is_incomplete s ≡ false
    → (get j (mark name r s w).journal ≡ get j w.journal)
      ⊎ (is_settled (get j (mark name r s w).journal) ≡ true)
mark_frame name j r s w h = rw get-mark (elim (Bool-cases (name == j)) [
  | inl e ↦ rw e (inr (object_settled r s h))
  | inr e ↦ rw e (inl refl)
])

-- Two steps of an entry that may change.
frame_trans :
    {a b c : Option Entry}
    → (b ≡ a) ⊎ (is_settled b ≡ true)
    → (c ≡ b) ⊎ (is_settled c ≡ true)
    → (c ≡ a) ⊎ (is_settled c ≡ true)
frame_trans x (inr k) = inr k
frame_trans (inl e) (inl e') = inl (e' ∙ e)
frame_trans (inr k) (inl e') = inr (rw e' k)

pub mark-Settles :
    (name : Text) (r : Receipt) (s : TxState) (w : World)
    → is_incomplete s ≡ false
    → Settles name w (mark name r s w)
mark-Settles name r s w h = record {
  own = rw get-mark (rw eq_refl (object_settled r s h));
  keeps = λ j k. mark_keeps name j r s w h k;
  frame = λ j. mark_frame name j r s w h;
}

pub Settles-mark :
    (name other : Text) (r : Receipt) (s : TxState) (w w' : World)
    → is_incomplete s ≡ false
    → Settles name w w'
    → Settles name w (mark other r s w')
Settles-mark name other r s w w' h st = record {
  own = mark_keeps other name r s w' h st.own;
  keeps = λ j k. mark_keeps other j r s w' h (st.keeps j k);
  frame = λ j. frame_trans (st.frame j) (mark_frame other j r s w' h);
}

-- A decision at `name` that starts from `w`.
pub record After (name : Text) (w : World) (p : Outcome × World) : Type 0 where
  pub settles : Settles name w p.1

After-marked :
    (name : Text) (r : Receipt) (s : TxState) (o : Outcome) (w : World)
    → is_incomplete s ≡ false
    → After name w (o, mark name r s w)
After-marked name r s o w h = record { settles = mark-Settles name r s w h }

After-if :
    (name : Text) (w : World) (b : Bool) (x y : Outcome × World)
    → After name w x
    → After name w y
    → After name w (if b then x else y)
After-if name w true x y hx hy = hx
After-if name w false x y hx hy = hy

ruleset after_rules = (After-if, After-marked)

module _ (h : Host) where
  complete_source-Settles :
      (name other : Text) (o : Option Receipt) (w w' : World)
      → Settles name w w'
      → Settles name w (complete_source h other o w')
  unfolding is_incomplete
  complete_source-Settles name other none w w' st = st
  complete_source-Settles name other (some source) w w' st =
      Settles-mark name other source rolled_back w w' refl st

  Settles-if :
      (name : Text) (w : World) (b : Bool) (x y : World)
      → Settles name w x
      → Settles name w y
      → Settles name w (if b then x else y)
  Settles-if name w true x y hx hy = hx
  Settles-if name w false x y hx hy = hy

  pub finalize_rollback-Settles :
      (name : Text) (r : Receipt) (source : Text) (w : World)
      → Settles name w (finalize_rollback h name r source w)
  unfolding finalize_rollback is_incomplete
  finalize_rollback-Settles name r source w =
      Settles-if name w (is_empty source) _ _ (mark-Settles name r verified w refl)
        (complete_source-Settles name _ _ w _ (mark-Settles name r verified w refl))

  finalized-After :
      (name : Text) (r : Receipt) (source : Text) (w : World)
      → After name w (finalized, finalize_rollback h name r source w)
  finalized-After name r source w = record { settles = finalize_rollback-Settles name r source w }

  resume_rollback-After :
      (name : Text) (r : Receipt) (reading : Reading) (s : TxState) (w : World)
      → After name w (resume_rollback h name r reading s w)
  unfolding is_incomplete
  resume_rollback-After name r os_error s w = After-marked name r recovery_required _ w refl
  resume_rollback-After name r (observed c) prepared w = search (after_rules)
  resume_rollback-After name r (observed c) applied w = search (after_rules, finalized-After)
  resume_rollback-After name r (observed c) _ w = After-marked name r recovery_required _ w refl

  resume_write-After :
      (name : Text) (r : Receipt) (reading : Reading) (s : TxState) (w : World)
      → After name w (resume_write h name r reading s w)
  unfolding is_incomplete
  resume_write-After name r os_error s w = After-marked name r recovery_required _ w refl
  resume_write-After name r (observed c) prepared w = search (after_rules)
  resume_write-After name r (observed c) applied w = search (after_rules)
  resume_write-After name r (observed c) _ w = After-marked name r recovery_required _ w refl

  pub reconcile_one-After :
      (name : Text) (r : Receipt) (s : TxState) (w : World)
      → After name w (reconcile_one h name r s w)
  unfolding reconcile_one reconcile_rollback is_incomplete
  reconcile_one-After name r s w = search (after_rules, resume_rollback-After, resume_write-After)

  -- A decision leaves the entry settled, also where it changes nothing.
  stay-After :
      (name : Text) (r : Receipt) (o : Outcome) (w : World)
      → read_valid (get name w.journal) ≡ some r
      → is_incomplete r.tx_state ≡ false
      → After name w (o, w)
  unfolding is_settled
  stay-After name r o w e h = record {
    settles = record { own = rw (is_settled, e) (rw h); keeps = λ j k. k; frame = λ j. inl refl };
  }

  audit_verified-After :
      (name : Text) (r : Receipt) (w : World)
      → After name w (finalized, w)
      → After name w (audit_verified h name r w)
  unfolding audit_verified is_incomplete
  audit_verified-After name r w st = search (after_rules, finalized-After)

  decide_state-After :
      (name : Text) (r : Receipt) (s : TxState) (w : World)
      → ((o : Outcome) → is_incomplete s ≡ false → After name w (o, w))
      → After name w (decide_state h name r s w)
  unfolding is_incomplete
  decide_state-After name r verified w stay = audit_verified-After name r w (stay _ refl)
  decide_state-After name r recovered_unapplied w stay = stay _ refl
  decide_state-After name r rolled_back w stay = stay _ refl
  decide_state-After name r superseded w stay = stay _ refl
  decide_state-After name r recovery_required w stay = stay _ refl
  decide_state-After name r s w stay = reconcile_one-After name r s w

  kept-After :
      (name : Text) (e : Option Entry) (o : Outcome) (w : World)
      → get name w.journal ≡ e
      → read_valid e ≡ none
      → After name w (o, w)
  unfolding is_settled
  kept-After name e o w g v = record {
    settles = record { own = rw g (rw (is_settled, v)); keeps = λ j k. k; frame = λ j. inl refl };
  }

  invalid-After :
      (name : Text) (e : Option Entry) (w : World)
      → get name w.journal ≡ e
      → read_valid e ≡ none
      → After name w (required, mark_invalid h name e w)
  unfolding is_incomplete
  invalid-After name none w g v = kept-After name none _ w g v
  invalid-After name (some unparseable) w g v = kept-After name (some unparseable) _ w g v
  invalid-After name (some non_object) w g v = kept-After name (some non_object) _ w g v
  invalid-After name (some (object r)) w g v = After-marked name r recovery_required _ w refl

  decide_read-After :
      (name : Text) (o : Option Receipt) (w : World)
      → read_valid (get name w.journal) ≡ o
      → After name w (decide_read h name o w)
  decide_read-After name none w v = invalid-After name _ w refl v
  decide_read-After name (some r) w v =
      decide_state-After name r r.tx_state w (λ o. stay-After name r o w v)

  pub decide_locked-Settles : (name : Text) (w : World) → Settles name w (decide_locked h name w).1
  unfolding decide_locked
  decide_locked-Settles name w = (decide_read-After name _ w refl).settles

  pub reconcile_one-Settles :
      (name : Text) (r : Receipt) (s : TxState) (w : World)
      → Settles name w (reconcile_one h name r s w).1
  reconcile_one-Settles name r s w = (reconcile_one-After name r s w).settles
