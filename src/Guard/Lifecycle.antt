-- ===== src/Guard/Lifecycle.antt =====
-- What `transition` does to the manifest on the disk.
use jvc_core.Base.{
  ◌≡◌, refl, inl, inr, true, not, ◌&&◌, ◌||◌, List, [], ◌∷◌, ◌++◌, Text, Bytes, ◌==◌, eq_iff,
  eq_refl, put, get-put, arith, contains, Bool-cases,
}
use jvc_core.Exec.{Result, ok, err, Result-cases}
use jvc_core.Guard.Manifest.{value, Entry, Manifest, Error, Host, applied, lifecycle_states}
use jvc_core.Guard.Validate.{is_strict, is_bound, validate_entries}
use jvc_core.Guard.Files.{
  file, Store, node, read_bytes, read_json, parse_content, rewrite_manifest, content_of,
}
use jvc_core.Guard.Apply.{may_become, transition, transition_of}

module _ (h : Host) (root : Text) where
  -- A legal step from the manifest on the disk, valid and, to be applied under strict-write, bound;
  -- only its state changes, and only its file.
  pub record Moved (path target : Text) (s : Store) (m' : Manifest) (s' : Store) : Type 0 where
    pub old : Manifest
    pub entries : List Entry
    pub read : parse_content h (node h s path) ≡ ok old
    pub valid : validate_entries h root old ≡ ok entries
    pub legal : may_become old.lifecycle_state target ≡ true
    pub bound : target ≡ applied → is_strict old ≡ true → is_bound old ≡ true
    pub next : m' ≡ record old { lifecycle_state = value target }
    pub saved :
        s' ≡ record s { disk = put (h.resolve path) (file (h.canonical_json m' ++ 10 ∷ [])) s.disk }

  -- A step, or nothing has changed.
  abbrev pub Moves : Text → Text → Store → Result Error Manifest × Store → Type 0
  Moves path target s (ok m, s') = Moved path target s m s'
  Moves path target s (err x, s') = s' ≡ s

  -- With the bytes that were read still there, the manifest is rewritten.
  pub rewrite_manifest-ok :
      (path : Text) (before : Bytes) (m : Manifest) (s : Store)
      → content_of (node h s path) ≡ ok before
      → rewrite_manifest h path before m s ≡ (
        ok tt,
        record s { disk = put (h.resolve path) (file (h.canonical_json m ++ 10 ∷ [])) s.disk },
      )
  unfolding rewrite_manifest read_bytes
  rewrite_manifest-ok path before m s there = grind (arith, get-put, eq_iff, eq_refl)

  transition_of-Moves :
      (path target : Text) (before : Bytes) (m : Manifest) (s : Store)
      → content_of (node h s path) ≡ ok before
      → parse_content h (node h s path) ≡ ok m
      → Moves path target s (transition_of h root path target before m s)
  unfolding transition_of
  transition_of-Moves path target before m s there read =
      elim (Result-cases (validate_entries h root m)) [
        | inl (entries, v) ↦ elim (Bool-cases (may_become m.lifecycle_state target)) [
          | inl l ↦ elim (Bool-cases (not (target == applied && is_strict m) || is_bound m)) [
            | inl b ↦ rw v (
                rw l (
                  rw b (
                    rw
                      (rewrite_manifest-ok path before (record m { lifecycle_state = value target })
                        s there)
                      (record {
                        old = m;
                        entries = entries;
                        read = read;
                        valid = v;
                        legal = l;
                        bound = λ same strict. ground (arith, eq_iff target applied);
                        next = refl;
                        saved = refl;
                      }))))
            | inr b ↦ rw v (rw l (rw b refl))
          ]
          | inr l ↦ rw v (rw l refl)
        ]
        | inr (x, v) ↦ rw v refl
      ]

  -- A transition that returns is a legal step of the manifest on the disk, valid and, to be applied
  -- under strict-write, with its intent bound; only the state and the manifest's file change. One
  -- that raises changes nothing.
  pub transition-Moves :
      (path target : Text) (s : Store) → Moves path target s (transition h root path target s)
  unfolding transition read_bytes read_json
  transition-Moves path target s = elim (Bool-cases (contains target lifecycle_states)) [
    | inl k ↦ elim (Result-cases (content_of (node h s path))) [
      | inl (before, b) ↦ elim (Result-cases (parse_content h (node h s path))) [
        | inl (m, p) ↦ rw k (rw b (rw p (transition_of-Moves path target before m s b p)))
        | inr (x, p) ↦ rw k (rw b (rw p refl))
      ]
      | inr (x, b) ↦ rw k (rw b refl)
    ]
    | inr k ↦ rw k refl
  ]
