-- ===== src/Recovery/Reconciled.antt =====
-- What `reconcile_target` leaves of the transactions of its target.
use jvc_core.Base.{
  ◌≡◌, refl, ◌⊎◌, inl, inr, Bool, true, not, ◌&&◌, Option, none, some, List, [], ◌∷◌, Text, ◌==◌,
  eq_iff, get, keys, contains, Bool-cases, Option-cases, arith,
}
use jvc_core.Recovery.Receipt.{Receipt, Entry, read_valid, is_incomplete}
use jvc_core.Recovery.World.{Host, World, iter_receipt_files}
use jvc_core.Recovery.Gate.{
  concerns, Pending, reconcile_receipt, reconcile_file, reconcile_loop, reconcile_target,
}
use jvc_core.Recovery.Settled.{is_settled, reconcile_one-After}
use jvc_core.Recovery.Restart.{contains-keys}

-- No valid receipt of an incomplete transaction of the target stands there.
unfoldable pub is_done : Text → Text → Option Entry → Bool
unfolding read_valid is_incomplete
is_done project target e = elim (read_valid e) [
  | none ↦ true
  | some r ↦ not (concerns project target r && is_incomplete r.tx_state)
]

module _ (h : Host) (project target : Text) where
  settled_done : (e : Option Entry) → is_settled e ≡ true → is_done project target e ≡ true
  unfolding is_settled is_done
  settled_done e k = elim (Option-cases (read_valid e)) [
    | inl v ↦ rw (is_done, v) refl
    | inr (r, v) ↦ let k₁ = rw (v, is_settled) at k in rw (is_done, v) (ground arith)
  ]

  -- A round at `name`: that entry is done, and an entry that changes is settled.
  record Round (name : Text) (w w' : World) : Type 0 where
    own : is_done project target (get name w'.journal) ≡ true
    frame :
        (j : Text) → (get j w'.journal ≡ get j w.journal) ⊎ (is_settled (get j w'.journal) ≡ true)

  stay-Round :
      (name : Text) (w : World)
      → is_done project target (get name w.journal) ≡ true
      → Round name w w
  stay-Round name w k = record { own = k; frame = λ j. inl refl }

  reconcile_receipt-Round :
      (name : Text) (o : Option Receipt) (p : Pending) (w : World)
      → read_valid (get name w.journal) ≡ o
      → Round name w (reconcile_receipt h project target name o p w).1
  unfolding is_done
  reconcile_receipt-Round name none p w v = stay-Round name w (rw (is_done, v) refl)
  reconcile_receipt-Round name (some r) p w v = elim (Bool-cases (concerns project target r)) [
    | inl c ↦ elim (Bool-cases (is_incomplete r.tx_state)) [
      | inl i ↦
          let st = (reconcile_one-After h name r r.tx_state w).settles in
          rw c (rw i (record { own = settled_done _ st.own; frame = st.frame }))
      | inr i ↦ rw c (rw i (stay-Round name w (rw (is_done, v) (rw i (ground arith)))))
    ]
    | inr c ↦ rw c (stay-Round name w (rw (is_done, v) (rw c refl)))
  ]

  done_frame :
      {a b : Option Entry}
      → (b ≡ a) ⊎ (is_settled b ≡ true)
      → is_done project target a ≡ true
      → is_done project target b ≡ true
  done_frame (inl e) k = rw e k
  done_frame (inr s) k = settled_done _ s

  reconcile_file-Round :
      (name : Text) (p : Pending) (w : World)
      → Round name w (reconcile_file h project target name p w).1
  unfolding reconcile_file
  reconcile_file-Round name p w = reconcile_receipt-Round name _ p w refl

  reconcile_loop_keeps :
      (names : List Text) (p : Pending) (w : World) (j : Text)
      → is_done project target (get j w.journal) ≡ true
      → is_done project target (get j (reconcile_loop h project target names p w).1.journal) ≡ true
  unfolding reconcile_loop
  reconcile_loop_keeps [] p w j k = k
  reconcile_loop_keeps (name ∷ names) p w j k =
      let (p₁, w₁) = reconcile_file h project target name p w in
      reconcile_loop_keeps names p₁ w₁ j (done_frame ((reconcile_file-Round name p w).frame j) k)

  reconcile_loop_done :
      (names : List Text) (p : Pending) (w : World) (j : Text)
      → contains j names ≡ true
      → is_done project target (get j (reconcile_loop h project target names p w).1.journal) ≡ true
  unfolding reconcile_loop contains
  reconcile_loop_done [] p w j k = cc
  reconcile_loop_done (name ∷ names) p w j k =
      let (p₁, w₁) = reconcile_file h project target name p w in
      elim (Bool-cases (name == j)) [
        | inl e ↦
            reconcile_loop_keeps names p₁ w₁ j
              (rw (← (eq_iff name j).0 e) (reconcile_file-Round name p w).own)
        | inr e ↦ reconcile_loop_done names p₁ w₁ j (rw e at k)
      ]

  -- After `reconcile_target` no journal file holds a valid receipt of a transaction of the target
  -- that is still PREPARED or APPLIED.
  pub reconcile_target-is_done :
      (w : World) (j : Text)
      → is_done project target (get j (reconcile_target h project target w).1.journal) ≡ true
  unfolding reconcile_target iter_receipt_files
  reconcile_target-is_done w j = elim (Bool-cases (contains j (keys w.journal))) [
    | inl listed ↦ reconcile_loop_done (keys w.journal) _ w j listed
    | inr absent ↦
        reconcile_loop_keeps (keys w.journal) _ w j
          (rw (contains-keys j w.journal absent) (unfold is_done in refl))
  ]
