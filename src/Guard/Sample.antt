-- ===== src/Guard/Sample.antt =====
-- Data for the tests of the guard: a root with one guarded file. The digest of a file repeats its first
-- byte, and a manifest's file has its state only.
use jvc_core.Base.{ℕ, zero, suc, ◌≡◌, refl, ap, some, [], ◌∷◌, ◌++◌, Text, Bytes, codes, put}
use jvc_core.Guard.Manifest.{Entry, value, Manifest, Host, text_of}
use jvc_core.Guard.Validate.{present}
use jvc_core.Guard.Files.{Store, file}

abbrev pub repeated : ℕ → ℕ → Text
repeated zero c = []
repeated (suc n) c = c ∷ repeated n c

abbrev pub digest : Bytes → Text
digest [] = repeated 64 b'0'
digest (c ∷ b) = repeated 64 c

abbrev pub without_last : Bytes → Text
without_last [] = []
without_last (c ∷ []) = []
without_last (c ∷ d ∷ b) = c ∷ without_last (d ∷ b)

abbrev pub guarded : Entry
guarded = record {
  path = value (codes "a.txt");
  expected_state = value present;
  sha256 = value (repeated 64 b'1');
  byte_length = value 1;
  expected_sha256 = value (repeated 64 b'2');
}

abbrev pub manifest : Text → Text → Manifest
manifest intent state = record {
  schema_version = value 1;
  manifest_id = value (codes "id");
  lifecycle_state = value state;
  guard_mode = value (codes "strict-write");
  intent_state = value intent;
  entries = value (some guarded ∷ []);
}

abbrev pub host : Text → Host
host intent = record {
  resolve = λ p. p;
  hexdigest = digest;
  uuid4 = λ n. n ∷ [];
  json_loads = λ b. some (manifest intent (without_last b));
  canonical_json = λ m. text_of m.lifecycle_state;
  indented_json = λ m. some (text_of m.lifecycle_state);
  indented_receipt = λ r. some (codes "receipt");
}

abbrev pub bound_host : Host
bound_host = host (codes "bound")

abbrev pub unbound_host : Host
unbound_host = host (codes "unbound")

abbrev pub root : Text
root = codes "/p"

abbrev pub path : Text
path = codes "/m"

abbrev pub output : Text
output = codes "/r"

-- The manifest in the given state, and the guarded file as it is after the write.
abbrev pub store : Text → Store
store state = record {
  disk = put path (file (state ++ 10 ∷ [])) (put (codes "/p/a.txt") (file (codes "2")) []);
  ids = 0;
}

pub without_last-lem : (t : Text) → without_last (t ++ 10 ∷ []) ≡ t
without_last-lem [] = refl
without_last-lem (c ∷ []) = refl
without_last-lem (c ∷ d ∷ t) = ap (λ r. c ∷ r) (without_last-lem (d ∷ t))
