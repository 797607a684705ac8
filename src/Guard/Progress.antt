-- ===== src/Guard/Progress.antt =====
-- When `receipt` passes and when `transition` succeeds.
use jvc_core.Base.{
  get, is_some, ◌≡◌, refl, true, false, not, ◌&&◌, ◌||◌, Option, none, some, List, Text, Bytes,
  ◌==◌, contains,
}
use jvc_core.Exec.{Result, ok, after, pure, ◌>>◌}
use jvc_core.Guard.Manifest.{
  value, Entry, Manifest, Receipt, Error, Host, applied, verified, lifecycle_states,
}
use jvc_core.Guard.Validate.{is_strict, is_bound, validate_entries}
use jvc_core.Executor.Atomic.{IsAbove}
use jvc_core.Guard.Made.{Made, NoFile}
use jvc_core.Guard.Files.{
  Node, file, directory, M, Store, node, exists, read_bytes, read_json, parse_content,
  rewrite_manifest, content_of,
}
use jvc_core.Guard.Apply.{
  Verdict, Findings, passed, new_receipt, transition, transition_of, may_become,
}
use jvc_core.Guard.Lifecycle.{rewrite_manifest-ok}

module _ (h : Host) (root : Text) where
  parsed-content :
      (o : Option Node) (b : Bytes) (m : Manifest)
      → content_of o ≡ ok b
      → h.json_loads b ≡ some m
      → parse_content h o ≡ ok m
  parsed-content none b m k p = cc
  parsed-content (some directory) b m k p = cc
  parsed-content (some (file c)) b m k p = let same : (c ≡ b) = cc in rw same (rw p refl)

  -- The check of an entry that returns and adds no failure
  abbrev Clean : Findings → Result Error Findings → Type 0
  Clean rest r = (found : Findings) × (r ≡ ok found) × (found.failures ≡ rest.failures)

  -- The output can be written: no file stands above it, and every record is UTF-8.
  pub record CanWrite (s : Store) (output : Text) : Type 0 where
    pub free : exists h s output ≡ false
    pub above : (x : Text) → IsAbove x (h.resolve output) → NoFile (get x s.disk)
    pub encodes : (r : Receipt) → is_some (h.indented_receipt r) ≡ true

  abbrev close : Text → Bytes → Manifest → Findings → Result Error (Unit {0}) → M Verdict
  close path before m found = after (λ _.
      rewrite_manifest h path before (record m { lifecycle_state = value verified })
      >> pure (passed (new_receipt h root m found)))

  -- A legal step of a valid manifest, to be applied under strict-write with its intent bound,
  -- succeeds.
  pub transition-ok :
      (path target : Text) (before : Bytes) (m : Manifest) (entries : List Entry) (s : Store)
      → contains target lifecycle_states ≡ true
      → content_of (node h s path) ≡ ok before
      → h.json_loads before ≡ some m
      → validate_entries h root m ≡ ok entries
      → may_become m.lifecycle_state target ≡ true
      → (not (target == applied && is_strict m) || is_bound m) ≡ true
      → (transition h root path target s).0 ≡ ok (record m { lifecycle_state = value target })
  unfolding transition transition_of read_bytes read_json
  transition-ok path target before m entries s known there parses valid legal bound =
      let read = parsed-content (node h s path) before m there parses in
      rw known (
        rw there (
          rw read (
            rw valid (
              rw legal (
                rw bound (
                  rw
                    (rewrite_manifest-ok h root path before
                      (record m { lifecycle_state = value target }) s there)
                    refl))))))
