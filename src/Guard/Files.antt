-- ===== src/Guard/Files.antt =====
-- src/jvc/policy/guard.py: the files that the guard reads and writes.
use jvc_core.Base.{
  ℕ, Bool, true, false, not, ◌||◌, Option, none, some, List, [], ◌∷◌, ◌++◌, Text, Bytes, ◌==◌, Dict,
  get, put, upper, join, is_some, if◌then◌else◌,
}
use jvc_core.Exec.{Result, ok, err, Exec, after, gets, modify, lift, guard, ◌>>=◌, ◌>>◌}
use jvc_core.Boundaries.Paths.{is_secret_path, is_control_plane_path}
use jvc_core.Boundaries.Targets.{canonical_target, relative_to}
use jvc_core.Executor.Write.{parents_of}
use jvc_core.Guard.Manifest.{
  Manifest, Error, unreadable_manifest, existing_artifact, changed_manifest, failed_verification,
  protected_output, bad_path, os_error, encoding_error, Host,
}

pub data Node : Type 0 where
  file : Bytes → Node
  directory : Node

-- The disk by resolved paths, and the number of manifest IDs made.
pub record Store : Type 0 where
  pub disk : Dict Node
  pub ids : ℕ

abbrev pub M : Type 0 → Type 0
M A = Exec Error Store A

abbrev pub content_of : Option Node → Result Error Bytes
content_of (some (file b)) = ok b
content_of _ = err os_error

abbrev pub is_file_node : Option Node → Bool
is_file_node (some (file b)) = true
is_file_node _ = false

module _ (h : Host) where
  unfoldable pub sha256_bytes : Bytes → Text
  sha256_bytes b = upper (h.hexdigest b)

  abbrev pub node : Store → Text → Option Node
  node s path = get (h.resolve path) s.disk

  abbrev pub exists : Store → Text → Bool
  exists s path = is_some (node s path)

  abbrev pub is_file : Store → Text → Bool
  is_file s path = is_file_node (node s path)

  unfoldable pub read_bytes : Text → M Bytes
  read_bytes path s = (content_of (node s path), s)

  abbrev pub write_bytes : Text → Bytes → M (Unit {0})
  write_bytes path b = modify (λ s. record s { disk = put (h.resolve path) (file b) s.disk })

  abbrev pub parsed : Option Manifest → Result Error Manifest
  parsed none = err unreadable_manifest
  parsed (some m) = ok m

  abbrev pub parse_content : Option Node → Result Error Manifest
  parse_content (some (file b)) = parsed (h.json_loads b)
  parse_content _ = err unreadable_manifest

  unfoldable pub read_json : Text → M Manifest
  read_json path s = (parse_content (node s path), s)

  -- `path.mkdir(exist_ok=True)`
  abbrev pub make_directory : Option Node → Text → M (Unit {0})
  make_directory none path s = (ok tt, record s { disk = put path directory s.disk })
  make_directory (some directory) path s = (ok tt, s)
  make_directory (some (file b)) path s = (err os_error, s)

  unfoldable pub make_directories : List Text → M (Unit {0})
  make_directories [] s = (ok tt, s)
  make_directories (path ∷ paths) s =
      let (made, t) = make_directory (get path s.disk) path s in
      after (λ _. make_directories paths) made t

  -- `path.write_text`, which opens the file before it encodes the text.
  abbrev pub write_text : Text → Option Bytes → M (Unit {0})
  write_text path (some b) = write_bytes path (b ++ 10 ∷ [])
  write_text path none = do write_bytes path []; lift (err encoding_error)

  -- `_write_new_json` of a document
  unfoldable pub write_new_json : Text → Option Bytes → M (Unit {0})
  unfolding make_directories
  write_new_json path document = do
    taken ← gets (λ s. exists s path)
    guard (not taken) existing_artifact
    make_directories (parents_of (h.resolve path))
    write_text path document

  unfoldable pub rewrite_manifest : Text → Bytes → Manifest → M (Unit {0})
  unfolding read_bytes ◌==◌ sha256_bytes
  rewrite_manifest path before m = do
    current ← read_bytes path
    guard (current == before) changed_manifest
    let expected = h.canonical_json m ++ 10 ∷ []
    write_bytes path expected
    after ← read_bytes path
    guard (sha256_bytes after == sha256_bytes expected) failed_verification

  abbrev pub screen : Option (List Text) → Result Error (Unit {0})
  screen none = ok tt
  screen (some parts) =
      if is_secret_path (join parts) || is_control_plane_path [] [] (join parts)
      then err protected_output
      else ok tt

  -- `_check_output_path`: a path outside the root is the host's responsibility.
  unfoldable pub check_output_path : Text → Text → M (Unit {0})
  unfolding relative_to
  check_output_path root path = lift (screen (relative_to (h.resolve path) root))

  abbrev pub target_of : Text → Text → Result Error (Text × Text)
  target_of root p = elim (canonical_target h.resolve root p) [
    | err e ↦ err (bad_path e)
    | ok t ↦ ok t
  ]
