-- ===== src/Configuration/Validate.antt =====
-- src/jvc/configuration.py: `ProjectRegistry.validate`.
use jvc_core.Base.{
  ℕ, suc, Bool, true, false, not, ◌&&◌, ◌||◌, Option, none, some, List, [], ◌∷◌, ◌++◌, Text, Dict,
  codes, ◌==◌, casefold, contains, get, put, is_some, is_empty, leb, nat_eq, if◌then◌else◌,
}
use jvc_core.Configuration.Registry.{Route}

-- The file system.
pub record Disk : Type 0 where
  pub exists : Text → Bool
  pub is_dir : Text → Bool
  pub is_file : Text → Bool
  pub resolve : Text → Text
  pub join : Text → Text → Text

pub data RegistryIssue : Type 0 where
  invalid_id duplicate_id bad_status duplicate_root missing_root bad_startup no_alias :
      Text → RegistryIssue
  missing_startup : Text → Text → RegistryIssue
  taken_alias : Text → Text → Text → RegistryIssue

abbrev pub flag_unless : Bool → RegistryIssue → List RegistryIssue
flag_unless true issue = []
flag_unless false issue = issue ∷ []

-- [a-z0-9]
abbrev pub is_id_code : ℕ → Bool
is_id_code c = (leb b'a' c && leb c b'z') || (leb b'0' c && leb c b'9')

-- The rest of an ID, at the start of a word or within one.
unfoldable pub matches_id : Bool → Text → Bool
matches_id at_start [] = not at_start
matches_id at_start (c ∷ s) =
    let within = matches_id false s in
    let anew = matches_id true s in
    if is_id_code c then within else (nat_eq c b'-' && not at_start) && anew

-- ^[a-z0-9]+(?:-[a-z0-9]+)*$
abbrev pub is_project_id : Text → Bool
is_project_id s = matches_id true s

abbrev pub allowed_statuses : List Text
allowed_statuses =
    codes "active"
    ∷ codes "held"
    ∷ codes "complete"
    ∷ codes "superseded"
    ∷ codes "standard"
    ∷ codes "restricted-tooling"
    ∷ codes "private-content"
    ∷ []

unfoldable pub index_of : Text → List Text → Option ℕ
index_of s [] = none
index_of s (t ∷ ts) = let rest = index_of s ts in if t == s then some 0 else next rest
  where
    next : Option ℕ → Option ℕ
    next none = none
    next (some n) = some (suc n)

abbrev pub are_sorted : Option ℕ → Option ℕ → Option ℕ → Bool
are_sorted (some a) (some b) (some c) = leb a b && leb b c
are_sorted _ _ _ = false

abbrev pub is_first : Text → List Text → Bool
is_first s [] = false
is_first s (t ∷ ts) = t == s

abbrev pub is_startup : List Text → Bool
is_startup startup =
    is_first (codes "AGENTS.md") startup
    && are_sorted (index_of (codes "AGENTS.md") startup) (index_of (codes "CONTEXT.md") startup)
        (index_of (codes "HANDOFF.md") startup)

-- What the loop has seen.
pub record Seen : Type 0 where
  pub ids : List Text
  pub aliases : Dict Text
  pub roots : Dict Text

abbrev pub nothing : Seen
nothing = record { ids = []; aliases = []; roots = [] }

-- `not (owner and owner != project_id)`
abbrev pub may_own : Text → Option Text → Bool
may_own project_id none = true
may_own project_id (some owner) = is_empty owner || owner == project_id

abbrev pub taken : Text → Text → Option Text → List RegistryIssue
taken project_id alias owner =
    if may_own project_id owner then [] else taken_alias project_id alias (owner_or owner) ∷ []
  where
    owner_or : Option Text → Text
    owner_or none = []
    owner_or (some o) = o

unfoldable pub alias_issues : Text → Dict Text → List Text → List RegistryIssue
alias_issues project_id aliases [] = []
alias_issues project_id aliases (a ∷ xs) =
    taken project_id a (get a aliases) ++ alias_issues project_id (put a project_id aliases) xs

unfoldable pub own_aliases : Text → Dict Text → List Text → Dict Text
own_aliases project_id aliases [] = aliases
own_aliases project_id aliases (a ∷ xs) = own_aliases project_id (put a project_id aliases) xs

abbrev pub has_aliases : List Text → Bool
has_aliases [] = false
has_aliases (a ∷ xs) = true

-- The key by which a root is compared with the others.
unfoldable pub root_key : Disk → Bool → Text → Text
root_key d check_root_paths root =
    if check_root_paths && d.exists root then casefold (d.resolve root) else casefold root

unfoldable pub startup_issues : Disk → Text → Text → List Text → List RegistryIssue
startup_issues d project_id root [] = []
startup_issues d project_id root (relative ∷ rest) =
    flag_unless (d.is_file (d.join root relative)) (missing_startup project_id relative)
    ++ startup_issues d project_id root rest

module _ (d : Disk) (check_startup_files check_root_paths : Bool) where
  unfoldable pub route_issues : Seen → Route → List RegistryIssue
  unfolding root_key startup_issues alias_issues
  route_issues seen r =
      flag_unless (is_project_id r.project_id) (invalid_id r.project_id)
      ++ (flag_unless (not (contains r.project_id seen.ids)) (duplicate_id r.project_id)
          ++ (flag_unless (contains r.status allowed_statuses) (bad_status r.project_id)
              ++ (flag_unless (not (is_some (get (root_key d check_root_paths r.root) seen.roots)))
                    (duplicate_root r.project_id)
                  ++ (flag_unless (not check_root_paths || d.is_dir r.root)
                        (missing_root r.project_id)
                      ++ (flag_unless (is_startup r.startup) (bad_startup r.project_id)
                          ++ ((if check_startup_files
                                then startup_issues d r.project_id r.root r.startup
                                else [])
                              ++ (flag_unless (has_aliases r.aliases) (no_alias r.project_id)
                                  ++ alias_issues r.project_id seen.aliases r.aliases)))))))

  abbrev pub see : Route → Seen → Seen
  see r seen = record {
    ids = r.project_id ∷ seen.ids;
    aliases = own_aliases r.project_id seen.aliases r.aliases;
    roots = put (root_key d check_root_paths r.root) r.project_id seen.roots;
  }

  unfoldable pub validate_from : Seen → List Route → List RegistryIssue
  unfolding route_issues own_aliases
  validate_from seen [] = []
  validate_from seen (r ∷ rs) = route_issues seen r ++ validate_from (see r seen) rs

  -- The errors; the registry passes if there are none.
  unfoldable pub validate_registry : List Route → List RegistryIssue
  unfolding validate_from
  validate_registry routes = validate_from nothing routes
