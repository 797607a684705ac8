-- ===== src/Locks/Names.antt =====
-- src/jvc/policy/locks.py: the names of locks, and where they are kept.
use jvc_core.Base.{ℕ, zero, suc, List, [], ◌∷◌, ◌++◌, Text, Bytes, codes, encode}

abbrev pub take : ℕ → Text → Text
take zero s = []
take (suc n) [] = []
take (suc n) (c ∷ s) = c ∷ take n s

-- "\x00".join(parts)
unfoldable pub join_parts : List Text → Text
join_parts [] = []
join_parts (s ∷ []) = s
join_parts (s ∷ t ∷ parts) = s ++ 0 ∷ join_parts (t ∷ parts)

-- With the hex digest of SHA-256.
abbrev pub name_of : (Bytes → Text) → Text → Text
name_of hexdigest identity = codes "jvc-" ++ take 48 (hexdigest (encode identity))

unfoldable pub lock_name_for : (Bytes → Text) → List Text → Text
unfolding join_parts
lock_name_for hexdigest parts = name_of hexdigest (join_parts parts)

-- With `os.path.normcase` and the resolution of a path.
abbrev pub canonical_resource_id : (Text → Text) → (Text → Text) → Text → Text
canonical_resource_id normcase resolve path = normcase (resolve path)

unfoldable pub lock_name_for_resource :
    (Bytes → Text) → (Text → Text) → (Text → Text) → Text → Text → Text
lock_name_for_resource hexdigest normcase resolve kind path =
    name_of hexdigest (kind ++ 0 ∷ canonical_resource_id normcase resolve path)

abbrev pub default_lock_dir : Text → Text
default_lock_dir temp_dir = temp_dir ++ codes "/jvc-locks"
