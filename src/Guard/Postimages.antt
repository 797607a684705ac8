-- ===== src/Guard/Postimages.antt =====
-- What a passed receipt says of the files.
use jvc_core.Base.{
  ◌≡◌, ◌≢◌, refl, inl, inr, Bool, true, false, not, ◌&&◌, Option, none, some, List, [], ◌∷◌, Text,
  Bytes, eq_iff, arith, Bool-cases,
}
use jvc_core.Exec.{Result, ok, err}
use jvc_core.Guard.Manifest.{
  Field, missing, null, other, value, Entry, Error, Host, is_text, text_of,
}
use jvc_core.Guard.Validate.{absent}
use jvc_core.Guard.Files.{Node, file, directory, Store, sha256_bytes, node, target_of}
use jvc_core.Guard.Apply.{
  Failure, differs, unchanged, first_error, Findings, check_new, check_old, check_node,
  check_target, check_postimages, is_unintended, fails, has_changed,
}

abbrev pub All : (Entry → Type 0) → List Entry → Type 0
All P [] = Unit
All P (e ∷ es) = P e × All P es

module _ (h : Host) (root : Text) where
  -- The entry's path stands for a file; its content has the hash that was bound, if one was; and
  -- where the entry had a file before, a strict write has changed it.
  pub record Written (s : Store) (strict : Bool) (e : Entry) : Type 0 where
    pub target : Text
    pub canonical : Text
    pub content : Bytes
    pub resolved : target_of h root (text_of e.path) ≡ ok (target, canonical)
    pub found : node h s target ≡ some (file content)
    pub intended : (x : Text) → e.expected_sha256 ≡ value x → x ≢ [] → sha256_bytes h content ≡ x
    pub changed :
        strict ≡ true
        → is_text absent e.expected_state ≡ false
        → has_changed h root e content ≡ true

  is_unintended-false :
      (post : Text) (f : Field Text) (x : Text)
      → is_unintended post f ≡ false
      → f ≡ value x
      → x ≢ []
      → post ≡ x
  unfolding is_unintended
  is_unintended-false post missing x k e n = cc
  is_unintended-false post null x k e n = cc
  is_unintended-false post other x k e n = cc
  is_unintended-false post (value []) x k e n = absurd (n cc)
  is_unintended-false post (value (c ∷ t)) x k e n = ground (arith, eq_iff post (c ∷ t))

  fails-none :
      (b : Bool) (f : Failure) (fs : List Failure) → fails b f fs ≡ [] → (b ≡ false) × (fs ≡ [])
  fails-none true f fs e = cc
  fails-none false f fs e = (refl, e)

  -- What a node must be for the entry to add no failure.
  abbrev Accepted : Store → Bool → Entry → Option Node → Findings → Type 0
  Accepted s strict e o rest =
      (b : Bytes) × (o ≡ some (file b))
      × (rest.failures ≡ [])
      × (is_unintended (sha256_bytes h b) e.expected_sha256 ≡ false)
      × (strict ≡ true → is_text absent e.expected_state ≡ false → has_changed h root e b ≡ true)

  check_new-Accepted :
      (s : Store) (strict : Bool) (e : Entry) (o : Option Node) (rest found : Findings)
      → is_text absent e.expected_state ≡ true
      → check_new h root e o rest ≡ ok found
      → found.failures ≡ []
      → Accepted s strict e o rest
  check_new-Accepted s strict e none rest found a k n = cc
  check_new-Accepted s strict e (some directory) rest found a k n = cc
  check_new-Accepted s strict e (some (file b)) rest found a k n =
      let none_left : (fails (is_unintended (sha256_bytes h b) e.expected_sha256)
            (differs (text_of e.path)) rest.failures
          ≡ []) =
        cc in
      let (intended, before) = fails-none _ _ _ none_left in
      (b, refl, before, intended, λ strictly old. cc)

  check_old-Accepted :
      (s : Store) (strict : Bool) (e : Entry) (o : Option Node) (rest found : Findings)
      → check_old h root strict e o rest ≡ ok found
      → found.failures ≡ []
      → Accepted s strict e o rest
  check_old-Accepted s strict e none rest found k n = cc
  check_old-Accepted s strict e (some directory) rest found k n = cc
  check_old-Accepted s strict e (some (file b)) rest found k n =
      let none_left : (fails (is_unintended (sha256_bytes h b) e.expected_sha256)
            (differs (text_of e.path))
            (fails (strict && not (has_changed h root e b)) (unchanged (text_of e.path))
              rest.failures)
          ≡ []) =
        cc in
      let (intended, others) = fails-none _ _ _ none_left in
      let (moved, before) = fails-none _ _ _ others in
      (b, refl, before, intended, λ strictly old. ground arith)

  check_node-Accepted :
      (s : Store) (strict : Bool) (e : Entry) (target : Text) (rest found : Findings)
      → check_node h root s strict e target rest ≡ ok found
      → found.failures ≡ []
      → Accepted s strict e (node h s target) rest
  unfolding check_node
  check_node-Accepted s strict e target rest found k n =
      elim (Bool-cases (is_text absent e.expected_state)) [
        | inl a ↦ check_new-Accepted s strict e (node h s target) rest found a (rw a at k) n
        | inr a ↦ check_old-Accepted s strict e (node h s target) rest found (rw a at k) n
      ]

  first_error-fails :
      (r : Result Error Findings) (x : Error) (found : Findings) → first_error r x ≢ ok found
  first_error-fails (err y) x found = λ k. cc
  first_error-fails (ok f) x found = λ k. cc

  -- The loop over the entries adds no failure only if every entry is written.
  check_target-Written :
      (s : Store) (strict : Bool) (e : Entry) (es : List Entry) (t : Result Error (Text × Text))
      (rest : Result Error Findings) (found : Findings)
      → target_of h root (text_of e.path) ≡ t
      → ((f : Findings) → rest ≡ ok f → f.failures ≡ [] → All (Written s strict) es)
      → check_target h root s strict e t rest ≡ ok found
      → found.failures ≡ []
      → All (Written s strict) (e ∷ es)
  check_target-Written s strict e es (err x) rest found t below k n = cc
  check_target-Written s strict e es (ok (target, canonical)) (err x) found t below k n =
      absurd (first_error-fails _ x found k)
  check_target-Written s strict e es (ok (target, canonical)) (ok f) found t below k n =
      let (b, here, before, intended, moved) = check_node-Accepted s strict e target f found k n in
      (
        record {
          target = target;
          canonical = canonical;
          content = b;
          resolved = t;
          found = here;
          intended = λ x bound nonempty. is_unintended-false _ _ x intended bound nonempty;
          changed = moved;
        },
        below f refl before,
      )

  pub check_postimages-Written :
      (s : Store) (strict : Bool) (es : List Entry) (found : Findings)
      → check_postimages h root s strict es ≡ ok found
      → found.failures ≡ []
      → All (Written s strict) es
  unfolding check_postimages
  check_postimages-Written s strict [] found k n = tt
  check_postimages-Written s strict (e ∷ es) found k n =
      check_target-Written s strict e es _ _ found refl (check_postimages-Written s strict es) k n
